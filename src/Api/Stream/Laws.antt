-- ===== src/Api/Stream/Laws.antt =====
-- When a stream ends, and when it waits for ever.
use hubble_ui.Prelude.{◌≡◌, refl, ℕ, Bool, true, false, ◌||◌, Option, none, some, List, any, arith}
use hubble_ui.Api.Stream.{
  Stream, Reply, message, nothing, interrupted, unrecognized, aborted, dom_exception, type_error,
  other_error, PollControl, finalized, StreamEvent, terminated, Channel, absent, opening,
  is_stopped, settle_message, settle, open_channel, is_other_error, send, stop, reset_timer,
  delay_of, poll,
}

abbrev pub is_terminated_event : StreamEvent → Bool
is_terminated_event (terminated b errs) = true
is_terminated_event _ = false

abbrev pub is_finalized : PollControl → Bool
is_finalized finalized = true
is_finalized _ = false

abbrev pub is_aborted : Reply → Bool
is_aborted aborted = true
is_aborted _ = false

-- The stream is told to be terminated exactly if the reply finalizes it, but for an aborted request,
-- which finalizes it without a word.
pub settle-terminated :
    (req_terminated : Bool) (reply : Reply)
    → let (control, events) = settle req_terminated reply in
      is_finalized control ≡ (any is_terminated_event events || is_aborted reply)
unfolding settle settle_message any
settle-terminated b (message resp) = ground arith
settle-terminated b nothing = refl
settle-terminated b interrupted = refl
settle-terminated b unrecognized = refl
settle-terminated b aborted = refl
settle-terminated b dom_exception = refl
settle-terminated b type_error = refl
settle-terminated b other_error = refl

-- No message, and yet the stream goes on
abbrev pub is_unanswered : Reply → Bool
is_unanswered nothing = true
is_unanswered dom_exception = true
is_unanswered type_error = true
is_unanswered _ = false

-- A running stream is stuck: neither a poll nor a stop ever ends, whatever the replies.
abbrev pub IsStuck : Stream → Type 0
IsStuck s =
    (is_stopped s ≡ false)
    × ((reply last : Reply) → poll s reply last ≡ none)
    × ((reply : Reply) → stop s reply ≡ none)

abbrev pub next_stream : Option (Stream × List StreamEvent) → Option Stream
next_stream none = none
next_stream (some (s, events)) = some s

abbrev pub polling : ℕ → Channel → Stream
polling delay channel = record { timer = some delay; channel = channel }

stuck : IsStuck (polling 0 opening)
unfolding poll send is_stopped stop
stuck = (refl, λ reply last. refl, λ reply. refl)

-- If the first request of a running stream ends without a message, and the stream goes on, then it
-- is stuck.
pub poll-IsStuck :
    (delay : ℕ) (reply last : Reply)
    → is_unanswered reply ≡ true
    → (next_stream (poll (polling delay absent) reply last) ≡ some (polling 0 opening))
      × IsStuck (polling 0 opening)
unfolding poll send open_channel is_other_error settle reset_timer is_stopped stop delay_of
poll-IsStuck delay (message resp) last u = cc
poll-IsStuck delay nothing last u = (refl, stuck)
poll-IsStuck delay interrupted last u = cc
poll-IsStuck delay unrecognized last u = cc
poll-IsStuck delay aborted last u = cc
poll-IsStuck delay dom_exception last u = (refl, stuck)
poll-IsStuck delay type_error last u = (refl, stuck)
poll-IsStuck delay other_error last u = cc
