-- ===== src/Helpers/Time.antt =====
-- src/domain/helpers/time.ts and `msToPbTimestamp` of src/domain/helpers/index.ts: times in seconds
-- and nanoseconds, and dates in milliseconds. All are natural numbers here, and the divisions are
-- exact: doubles hold these values below 2 ^ 42 milliseconds with a part less than a microsecond.
pub mod Laws
use hubble_ui.Prelude.{ℕ, ◌+◌, ◌-◌, ◌*◌, ◌/◌, ◌%◌, Bool, leb, ltb, nat_eq, ◌&&◌, if◌then◌else◌}

pub record Time : Type 0 where
  pub seconds : ℕ
  pub nanos : ℕ

unfoldable pub date_to_time : ℕ → Time
date_to_time ms =
    let seconds = ms / 1000 in
    record { seconds = seconds; nanos = (ms - seconds * 1000) * 1_000_000 }

-- `new Date` drops the part of its argument behind the point: `seconds * 1000 + nanos / 1e9`.
unfoldable pub time_to_date : Time → ℕ
time_to_date t = t.seconds * 1000 + t.nanos / 1_000_000_000

unfoldable pub normalize : Time → Time
normalize t = record {
  seconds = t.seconds + (if leb 1_000_000_000 t.nanos then t.nanos / 1_000_000_000 else 0);
  nanos = if leb 1_000_000_000 t.nanos then t.nanos % 1_000_000_000 else t.nanos;
}

unfoldable pub zero : Time
zero = record { seconds = 0; nanos = 0 }

-- `negsuc n` is -(n + 1).
pub data ℤ : Type 0 where
  pos negsuc : ℕ → ℤ

-- `n | 0`, the signed number that the last 32 bits stand for
unfoldable pub to_int32 : ℕ → ℤ
to_int32 n =
    let bits = n % 4_294_967_296 in
    if ltb bits 2_147_483_648 then pos bits else negsuc (4_294_967_295 - bits)

pub record PbTimestamp : Type 0 where
  pub seconds : ℤ
  pub nanos : ℕ

-- `ms - seconds * 1000`
abbrev pub since : ℕ → ℤ → ℕ
since ms (pos seconds) = ms - seconds * 1000
since ms (negsuc n) = ms + (n + 1) * 1000

unfoldable pub ms_to_pb_timestamp : ℕ → PbTimestamp
unfolding to_int32
ms_to_pb_timestamp ms =
    let seconds = to_int32 (ms / 1000) in
    record { seconds = seconds; nanos = since ms seconds * 1_000_000 }
