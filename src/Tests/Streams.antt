-- ===== src/Tests/Streams.antt =====
-- The theorems on streams, at a refused request.
use hubble_ui.Prelude.{◌≡◌, refl, false, ◌||◌, any, some}
use hubble_ui.Api.Stream.{type_error, nothing, absent, opening, settle, poll}
use hubble_ui.Api.Stream.Laws.{
  is_finalized, is_terminated_event, is_aborted, settle-terminated, polling, next_stream, IsStuck,
  poll-IsStuck,
}

settle-terminated_example :
    let (control, events) = settle false type_error in
    is_finalized control ≡ (any is_terminated_event events || is_aborted type_error)
settle-terminated_example = settle-terminated false type_error

poll-IsStuck_example :
    (next_stream (poll (polling 0 absent) type_error nothing) ≡ some (polling 0 opening))
    × IsStuck (polling 0 opening)
poll-IsStuck_example = poll-IsStuck 0 type_error nothing refl
