-- ===== src/Status/Errors.antt =====
-- src/api/grpc/error.ts: errors, and among them those of gRPC.
use hubble_ui.Prelude.{
  ℕ, Bool, not, ◌&&◌, ◌||◌, Option, none, some, List, Str, codes, str_Eq, nat_Eq, ◌==◌,
  if◌then◌else◌,
}

-- The numbers of `grpc.Code`, of the package grpc-web
pub record StatusCodes : Type 0 where
  pub ok : ℕ
  pub invalid_argument : ℕ
  pub unauthenticated : ℕ
  pub permission_denied : ℕ
  pub not_found : ℕ
  pub aborted : ℕ
  pub failed_precondition : ℕ
  pub resource_exhausted : ℕ
  pub canceled : ℕ
  pub unimplemented : ℕ
  pub unavailable : ℕ
  pub deadline_exceeded : ℕ
  pub unknown : ℕ

-- `metadata` is the map of headers.
pub record GrpcError : Type 0 where
  pub message : Str
  pub code : ℕ
  pub metadata : List (Str × List Str)

-- A GrpcWrappedError, another object that has a code, a message and metadata, or one that lacks
-- one of the three
pub data Error : Type 0 where
  wrapped : GrpcError → Error
  grpc_like : GrpcError → Error
  plain : Str → Error

abbrev pub message_of : Error → Str
message_of (wrapped e) = e.message
message_of (grpc_like e) = e.message
message_of (plain message) = message

-- `fromError`; `new` of an error that is wrapped already is that error.
unfoldable pub from_error : Option Error → Option GrpcError
from_error none = none
from_error (some (wrapped e)) = some e
from_error (some (grpc_like e)) = some e
from_error (some (plain _)) = none

-- The argument is the status, whose `details` are the field `message` here.
unfoldable pub is_error_status : StatusCodes → GrpcError → Bool
is_error_status codes_of st = not (st.code == codes_of.ok)

unfoldable pub from_status : StatusCodes → Option GrpcError → Option GrpcError
unfolding is_error_status
from_status codes_of none = none
from_status codes_of (some st) = if is_error_status codes_of st then some st else none

module _ (c : StatusCodes) where
  abbrev pub is_ok : GrpcError → Bool
  is_ok e = e.code == c.ok

  unfoldable pub is_invalid_argument : GrpcError → Bool
  is_invalid_argument e = e.code == c.invalid_argument

  abbrev pub is_unauthenticated : GrpcError → Bool
  is_unauthenticated e = e.code == c.unauthenticated

  unfoldable pub is_permission_denied : GrpcError → Bool
  is_permission_denied e = e.code == c.permission_denied

  unfoldable pub is_not_found : GrpcError → Bool
  is_not_found e = e.code == c.not_found

  unfoldable pub is_aborted : GrpcError → Bool
  is_aborted e = e.code == c.aborted

  unfoldable pub is_failed_precondition : GrpcError → Bool
  is_failed_precondition e = e.code == c.failed_precondition

  unfoldable pub is_resource_exhausted : GrpcError → Bool
  is_resource_exhausted e = e.code == c.resource_exhausted

  abbrev pub is_cancelled : GrpcError → Bool
  is_cancelled e = e.code == c.canceled

  unfoldable pub is_unimplemented : GrpcError → Bool
  is_unimplemented e = e.code == c.unimplemented

  abbrev pub is_unavailable : GrpcError → Bool
  is_unavailable e = e.code == c.unavailable

  abbrev pub is_deadline_exceeded : GrpcError → Bool
  is_deadline_exceeded e = e.code == c.deadline_exceeded

  abbrev pub is_unknown : GrpcError → Bool
  is_unknown e = e.code == c.unknown

  unfoldable pub is_rbac_authorization_expired : GrpcError → Bool
  is_rbac_authorization_expired e = (e.message == codes "jwt") || is_unauthenticated e

  unfoldable pub is_connection_error : GrpcError → Bool
  unfolding is_rbac_authorization_expired
  is_connection_error e =
      (is_unavailable e || (is_unknown e || is_cancelled e))
      && not (is_rbac_authorization_expired e)

  unfoldable pub is_recoverable_error : GrpcError → Bool
  unfolding is_connection_error
  is_recoverable_error e = is_connection_error e || is_deadline_exceeded e
