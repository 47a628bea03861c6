-- ===== src/Status/Notices.antt =====
-- src/ui-layer/status-center.ts and src/domain/notifications: what is told of errors, of streams, of
-- namespaces and of the server's notifications. The texts of numbers and of objects are parameters.
-- What is written to the console is left out. `now` is the time of `new Date()`.
pub mod Laws
use hubble_ui.Prelude.{
  ℕ, ◌+◌, Bool, true, false, not, ◌&&◌, ◌||◌, Option, none, some, List, [], ◌∷◌, ◌++◌, Str, codes,
  str_Eq, is_empty, nat_eq, if◌then◌else◌,
}
use hubble_ui.Prelude.Maps.{get, is_some}
use hubble_ui.Status.Errors.{
  Error, wrapped, plain, GrpcError, StatusCodes, message_of, from_error, is_ok,
}
use hubble_ui.Status.Entry.{
  Intent, StatusEntry, parse_intent, empty, set_intent, set_title, set_details, set_component,
  set_pending, set_underlying_error, set_keys_to_complete, inc_cardinality, set_cardinality_prefix,
  set_key,
}
use hubble_ui.Status.Center.{StatusCenter, NewEntryEvent, get_entry_by_key, push_new, push_changed}

-- The field `status` is only asked to be there.
pub record ConnState : Type 0 where
  pub relay_connected : Bool
  pub relay_reconnecting : Bool
  pub k8s_unavailable : Bool
  pub k8s_connected : Bool

pub record NoPermission : Type 0 where
  pub resource : Str
  pub error : Str

pub record Notification : Type 0 where
  pub conn_state : Option ConnState
  pub no_activity : Option Bool
  pub has_status : Bool
  pub no_permission : Option NoPermission

-- `${n}`, `(ms / 1000).toFixed(1)`, `JSON.stringify(n)`, the names of `grpc.Code`, and its numbers
pub record Texts : Type 0 where
  pub to_text : ℕ → Str
  pub seconds : ℕ → Str
  pub json : Notification → Str
  pub code_name : ℕ → Str
  pub status_codes : StatusCodes

abbrev pub data_streams_reconnecting : Str
data_streams_reconnecting = codes "data-streams-reconnecting"

abbrev pub reconnecting_to_hubble_relay : Str
reconnecting_to_hubble_relay = codes "reconnecting-to-hubble-relay"

abbrev pub hubble_ui_component : Str
hubble_ui_component = codes "hubble-ui"

abbrev pub flag_of : (ConnState → Bool) → Notification → Bool
flag_of f n = elim n.conn_state [ none ↦ false | some st ↦ f st ]

unfoldable pub is_k8s_unavailable : Notification → Bool
is_k8s_unavailable = flag_of (λ st. st.k8s_unavailable)

unfoldable pub is_k8s_connected : Notification → Bool
is_k8s_connected = flag_of (λ st. st.k8s_connected)

unfoldable pub is_relay_reconnecting : Notification → Bool
is_relay_reconnecting = flag_of (λ st. st.relay_reconnecting)

unfoldable pub is_relay_connected : Notification → Bool
is_relay_connected = flag_of (λ st. st.relay_connected)

unfoldable pub is_no_activity_in_namespace : Notification → Bool
is_no_activity_in_namespace n = elim n.no_activity [ none ↦ false | some b ↦ b ]

unfoldable pub is_no_permission : Notification → Bool
is_no_permission n = is_some n.no_permission

unfoldable pub is_relay_related : Notification → Bool
unfolding is_relay_connected is_relay_reconnecting
is_relay_related n = is_relay_connected n || is_relay_reconnecting n

unfoldable pub is_cluster_related : Notification → Bool
unfolding is_k8s_connected is_k8s_unavailable is_no_permission
is_cluster_related n = is_k8s_connected n || (is_k8s_unavailable n || is_no_permission n)

-- The first value under a header, `err.metadata[name]?.[0]`
abbrev pub header : Str → GrpcError → Option Str
header name err = elim (get name err.metadata) [
  | none ↦ none
  | some [] ↦ none
  | some (value ∷ _) ↦ some value
]

-- `a || b`, where `a` may be null
abbrev pub text_or : Option Str → Str → Str
text_or none b = b
text_or (some a) b = if is_empty a then b else a

-- `a ?? b`
abbrev pub given : Option Str → Str → Str
given none b = b
given (some a) b = a

module _ (t : Texts) where
  unfoldable pub format_error_details : Error → Str
  format_error_details (wrapped err) =
      if is_empty err.message
      then codes "GRPC details: code: "
        ++ (t.to_text err.code ++ (codes ", message: " ++ (err.message ++ codes ".")))
      else err.message
  format_error_details err = message_of err

  -- `??` binds tighter than `? :`, so that the intent of the metadata is a condition.
  unfoldable pub fill_entry_with_grpc_error : GrpcError → StatusEntry → StatusEntry
  unfolding parse_intent set_intent set_title set_details set_component set_underlying_error
      format_error_details get
  fill_entry_with_grpc_error err e =
      let intent =
        if is_some (parse_intent (header (codes "intent") err)) || is_ok t.status_codes err
        then Intent.info
        else Intent.error in
      let title =
        text_or (some e.title)
          (text_or (header (codes "title") err) (codes "GRPC error occured")) in
      let details = text_or e.details (format_error_details (wrapped err)) in
      let component = text_or (header (codes "component") err) hubble_ui_component in
      set_underlying_error (some (wrapped err)) (
        set_component (some component)
          (set_details (some details) (set_title (some title) (set_intent intent e))))

  unfoldable pub builder_from_error : ℕ → Error → Option Str → Option Str → Option Str → StatusEntry
  unfolding from_error fill_entry_with_grpc_error set_intent set_title set_details set_component
      set_underlying_error empty
  builder_from_error now err title human_details component = elim (from_error (some err)) [
    | some grpc ↦ fill_entry_with_grpc_error grpc (empty now)
    | none ↦ set_underlying_error (some err) (
        set_component (some (given component hubble_ui_component)) (
          set_details (some (given human_details (message_of err))) (
            set_title (some (given title (codes "Unrecognized error occurred")))
              (set_intent Intent.error (empty now)))))
  ]

  unfoldable pub intent_of : Notification → Intent
  unfolding is_k8s_unavailable is_relay_reconnecting
  intent_of n =
      let relay_connected = flag_of (λ st. st.relay_connected) n in
      let k8s_connected = flag_of (λ st. st.k8s_connected) n in
      if is_k8s_unavailable n
      then Intent.critical
      else if is_relay_reconnecting n
      then Intent.error
      else if is_some n.no_permission
      then Intent.warning
      else if relay_connected || k8s_connected
      then Intent.success
      else Intent.info

  unfoldable pub message_of_notification : Notification → Str
  unfolding is_k8s_unavailable is_k8s_connected is_relay_reconnecting is_relay_connected
      is_no_activity_in_namespace
  message_of_notification n =
      if is_k8s_unavailable n
      then codes
          "Connection to Kubernetes has been lost. Check your deployment and refresh this page."
      else if is_k8s_connected n
      then codes "Connection to Kubernetes has been established."
      else if is_relay_reconnecting n
      then codes "Connection to hubble-relay has been lost. Reconnecting..."
      else if is_relay_connected n
      then codes "Connection to hubble-relay has been established."
      else if is_no_activity_in_namespace n
      then codes "There are no pods in selected namespace"
      else elim n.no_permission [
        | some p ↦
            codes "You have no permissions to watch over \"" ++ (p.resource ++ codes "\" resource")
        | none ↦ codes "Unknown notification: " ++ t.json n
      ]

  unfoldable pub entry_from_notification : ℕ → Notification → StatusEntry
  unfolding intent_of message_of_notification is_relay_related is_cluster_related
      is_relay_reconnecting is_relay_connected set_intent set_title set_pending set_key
      set_keys_to_complete set_underlying_error set_component empty
  entry_from_notification now n =
      let err : Option Error = elim n.no_permission [
        | none ↦ none
        | some p ↦ some (plain p.error)
      ] in
      let component =
        if is_relay_related n
        then codes "hubble-relay"
        else if is_cluster_related n
        then codes "cluster"
        else hubble_ui_component in
      let key = if is_relay_reconnecting n then some reconnecting_to_hubble_relay else none in
      let keys = if is_relay_connected n then reconnecting_to_hubble_relay ∷ [] else [] in
      set_component (some component) (
        set_underlying_error err (
          set_keys_to_complete (some keys) (
            set_key key (
              set_pending (some (is_relay_reconnecting n)) (
                set_title (some (message_of_notification n))
                  (set_intent (intent_of n) (empty now)))))))

  unfoldable pub log_upload_error : ℕ → Error → StatusEntry
  unfolding set_intent set_title set_details set_component set_underlying_error empty
  log_upload_error now err = set_component (some hubble_ui_component) (
      set_underlying_error (some err) (
        set_details (some (message_of err)) (
          set_title (some (codes "Failed to upload logs file"))
            (set_intent Intent.error (empty now)))))

  -- `toString` of a CustomError, by its kind, code and message
  unfoldable pub custom_error_text : Bool → ℕ → Str → Str
  custom_error_text is_grpc code message =
      if is_grpc
      then codes "Error (GRPC, "
        ++ (t.code_name code ++ (codes ", " ++ (t.to_text code ++ (codes "): " ++ message))))
      else codes "Error (Custom, " ++ (t.to_text code ++ (codes "): " ++ message))

  unfoldable pub control_stream_error : ℕ → Bool → ℕ → Str → StatusEntry
  unfolding custom_error_text set_intent set_title set_details set_component empty
  control_stream_error now is_grpc code message =
      set_details (some (custom_error_text is_grpc code message)) (
        set_component (some hubble_ui_component) (
          set_title (some (codes "Server error occured")) (set_intent Intent.critical (empty now))))

  unfoldable pub streams_reconnecting : ℕ → StatusEntry
  unfolding set_intent set_title set_component set_pending set_key empty
  streams_reconnecting now = set_key (some data_streams_reconnecting) (
      set_pending (some true) (
        set_component (some hubble_ui_component) (
          set_title (some (codes "Data streams are reconnecting..."))
            (set_intent Intent.error (empty now)))))

  unfoldable pub delay_details : ℕ → StatusEntry → StatusEntry
  unfolding set_details format_error_details
  delay_details delay_ms e =
      let details = codes "Next attempt in " ++ (t.seconds delay_ms ++ codes "s. ") in
      elim e.underlying_error [
        | none ↦ set_details (some details) e
        | some err ↦
            set_details
              (some (details ++ (codes "Last error details: " ++ format_error_details err))) e
      ]

  unfoldable pub failed_details : Option Error → StatusEntry → StatusEntry
  unfolding set_details format_error_details set_underlying_error set_cardinality_prefix
      inc_cardinality
  failed_details err e =
      let details : Option Str = elim err [
        | none ↦ e.details
        | some er ↦ some (codes "Last error details: " ++ format_error_details er)
      ] in
      inc_cardinality 1 (
        set_cardinality_prefix (some (codes "Attempt: "))
          (set_underlying_error err (set_details details e)))

  unfoldable pub streams_reconnected : ℕ → ℕ → StatusEntry
  unfolding set_intent set_title set_details set_keys_to_complete empty
  streams_reconnected now attempts = set_keys_to_complete (some (data_streams_reconnecting ∷ [])) (
      set_details
        (some (
          codes "Data streams were successfully reconnected after "
          ++ (t.to_text attempts ++ codes " attempts.")))
        (set_title (some (codes "Data streams are reconnected."))
          (set_intent Intent.success (empty now))))

  unfoldable pub not_observed_key : Str → Str
  not_observed_key ns = codes "ns-" ++ (ns ++ codes "-not-observed")

  unfoldable pub namespace_is_not_observed : ℕ → Str → StatusEntry
  unfolding not_observed_key set_intent set_title set_details set_component set_key empty
  namespace_is_not_observed now ns = set_key (some (not_observed_key ns)) (
      set_component (some hubble_ui_component) (
        set_details (some (codes "Hubble UI is watching for this namespace")) (
          set_title (some (codes "Namespace \"" ++ (ns ++ codes "\" is still not observed")))
            (set_intent Intent.info (empty now)))))

  unfoldable pub namespace_is_observed : ℕ → Str → StatusEntry
  unfolding not_observed_key set_intent set_title set_details set_keys_to_complete empty
  namespace_is_observed now ns = set_keys_to_complete (some (not_observed_key ns ∷ [])) (
      set_details (some (codes "Hubble UI is capturing the namespace activity")) (
        set_title (some (codes "Namespace \"" ++ (ns ++ codes " is appeared\"")))
          (set_intent Intent.info (empty now))))

  unfoldable pub settings_error : ℕ → Error → StatusEntry
  unfolding from_error fill_entry_with_grpc_error set_intent set_title set_details
      set_underlying_error empty
  settings_error now err =
      let titled =
        set_underlying_error (some err)
          (set_title (some (codes "Failed to load UI settings")) (empty now)) in
      let filled : StatusEntry = elim (from_error (some err)) [
        | some grpc ↦ fill_entry_with_grpc_error grpc titled
        | none ↦ set_details (some (message_of err)) titled
      ] in
      set_intent Intent.critical filled

  module _ (hash : ℕ → Str) where
    abbrev Pushed : Type 0
    Pushed = Option (StatusCenter × List (ℕ × NewEntryEvent))

    unfoldable pub push_ui_notification : ℕ → Notification → StatusCenter → Pushed
    unfolding entry_from_notification push_new
    push_ui_notification now n = push_new hash (entry_from_notification now n)

    unfoldable pub push : ℕ → Notification → StatusCenter → Pushed
    unfolding push_ui_notification
    push now n c = if n.has_status then some (c, []) else push_ui_notification now n c

    unfoldable pub push_error :
        ℕ → Error → Option Str → Option Str → Option Str → StatusCenter → Pushed
    unfolding builder_from_error push_new
    push_error now err title details component =
        push_new hash (builder_from_error now err title details component)

    unfoldable pub push_streams_reconnecting : ℕ → StatusCenter → Pushed
    unfolding streams_reconnecting push_new
    push_streams_reconnecting now = push_new hash (streams_reconnecting now)

    -- The entry of the streams is changed, if it is there and pending.
    unfoldable pub change_reconnecting : (StatusEntry → StatusEntry) → StatusCenter → Pushed
    unfolding get_entry_by_key push_changed
    change_reconnecting change c = elim (get_entry_by_key c data_streams_reconnecting) [
      | none ↦ some (c, [])
      | some a ↦ if (c.heap a).is_pending then push_changed hash a change c else some (c, [])
    ]

    unfoldable pub push_streams_reconnecting_delay : ℕ → StatusCenter → Pushed
    unfolding change_reconnecting delay_details
    push_streams_reconnecting_delay delay_ms = change_reconnecting (delay_details delay_ms)

    unfoldable pub push_streams_reconnect_failed : Option Error → StatusCenter → Pushed
    unfolding change_reconnecting failed_details
    push_streams_reconnect_failed err = change_reconnecting (failed_details err)

    -- `existingEntry?.cardinality || 1`
    unfoldable pub push_streams_reconnected : ℕ → StatusCenter → Pushed
    unfolding get_entry_by_key streams_reconnected push_new
    push_streams_reconnected now c =
        let attempts : ℕ = elim (get_entry_by_key c data_streams_reconnecting) [
          | none ↦ 1
          | some a ↦ if nat_eq (c.heap a).cardinality 0 then 1 else (c.heap a).cardinality
        ] in
        push_new hash (streams_reconnected now attempts) c

    unfoldable pub push_namespace_is_observed : ℕ → Str → StatusCenter → Pushed
    unfolding get_entry_by_key namespace_is_observed push_new
    push_namespace_is_observed now ns c = elim (get_entry_by_key c (not_observed_key ns)) [
      | none ↦ some (c, [])
      | some _ ↦ push_new hash (namespace_is_observed now ns) c
    ]

    unfoldable pub push_service_map_logs_upload_error : ℕ → Error → StatusCenter → Pushed
    unfolding log_upload_error push_new
    push_service_map_logs_upload_error now err = push_new hash (log_upload_error now err)

    -- Each error is its kind (whether of gRPC), its code and its message.
    unfoldable pub push_control_stream_errors :
        ℕ → List (Bool × ℕ × Str) → StatusCenter → List (ℕ × NewEntryEvent) → Pushed
    unfolding control_stream_error push_new
    push_control_stream_errors now [] c calls = some (c, calls)
    push_control_stream_errors now ((is_grpc, code, message) ∷ errs) c calls =
        elim (push_new hash (control_stream_error now is_grpc code message) c) [
          | none ↦ none
          | some (c', more) ↦ push_control_stream_errors now errs c' (calls ++ more)
        ]

    unfoldable pub push_namespace_is_not_observed : ℕ → Str → StatusCenter → Pushed
    unfolding namespace_is_not_observed push_new
    push_namespace_is_not_observed now ns = push_new hash (namespace_is_not_observed now ns)

    unfoldable pub push_fetch_ui_settings_error : ℕ → Error → StatusCenter → Pushed
    unfolding settings_error push_new
    push_fetch_ui_settings_error now err = push_new hash (settings_error now err)
