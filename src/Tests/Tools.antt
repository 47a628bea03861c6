-- ===== src/Tests/Tools.antt =====
-- The theorems on retries, emitters and results, at concrete attempts, events and values.
use hubble_ui.Prelude.{
  ◌≡◌, refl, ℕ, ◌*◌, Str, codes, true, false, some, [], ◌∷◌, ◌++◌, ◌⊎◌, inr, arith, nat_eq,
  if◌then◌else◌,
}
use hubble_ui.Prelude.Maps.{get}
use hubble_ui.Utils.Ticker.Laws as Tickers
use hubble_ui.Utils.Ticker.Laws.{IsOwned, called, start_of, stop_of, Reachable-IsOwned}
use hubble_ui.Utils.Ticker
use hubble_ui.Utils.Timer
use hubble_ui.Utils.Timer.Laws as Timers
use hubble_ui.Utils.Timer.Laws.{
  IsHeld, happen, started_by, fired, created, happened, Reachable-IsHeld,
}
use hubble_ui.Utils.Retries.{Arithmetic, Attempt, returned, resolved, Retries, can_do_attempt, try}
use hubble_ui.Utils.Retries.Laws.{delays, failing, ends_early, report, try-limited, try-resolved}
use hubble_ui.Utils.Emitter.{Emitter, new, on, under, calls_with, has_handlers}
use hubble_ui.Utils.Emitter.Laws.{
  Reachable, start, acted, act, emit_event, on_event, IsWaiting, Reachable-IsWaiting, emit_each,
  on-emitted,
}

-- Delays that are natural numbers
abbrev whole : Arithmetic ℕ
whole = record { product_of = λ a b. a * b; min_of = λ a b. a }

-- Three attempts, with delays that double
abbrev three : Retries ℕ
three = record {
  delayer = record { opts = record { max_delay = 7; min_delay = 1; factor = 2 }; delay = 1 };
  attempt = 1;
  max_attempts = some 3;
}

abbrev always_failing : ℕ → Attempt ℕ ℕ
always_failing n = failing n

-- Only the second attempt returns.
abbrev second : ℕ → Attempt ℕ ℕ
second n =
    if nat_eq n 2
    then record { ending = returned 5; stopped = false; stopped_later = false }
    else failing n

try-limited_example : ends_early whole always_failing (try whole always_failing 3 three) ≡ true
try-limited_example = try-limited whole always_failing 2 3 three refl (omega arith)

try-resolved_example :
    report whole second (try whole second 2 three) ≡ some (resolved 5, delays whole 1 three.delayer)
unfolding can_do_attempt
try-resolved_example =
    try-resolved whole second (λ n. n) 1 2 three 5 (omega arith) (refl, tt) refl refl

abbrev history :
    Reachable
      (act (on_event (codes "tick") 1) (act (emit_event (codes "tick") 8) (new {P = ℕ} true)))
history = acted (on_event (codes "tick") 1) _ (acted (emit_event (codes "tick") 8) _ (start true))

Reachable-IsWaiting_example :
    IsWaiting
      (act (on_event (codes "tick") 1) (act (emit_event (codes "tick") 8) (new {P = ℕ} true)))
Reachable-IsWaiting_example =
    Reachable-IsWaiting
      (act (on_event (codes "tick") 1) (act (emit_event (codes "tick") 8) (new {P = ℕ} true)))
      history

abbrev fresh : Emitter ℕ
fresh = record { on_handlers = []; once_handlers = []; cached_events = []; is_caching = true }

on-emitted_example :
    let (later, calls) = on (emit_each fresh (codes "tick") (4 ∷ 6 ∷ [])) (codes "tick") 1 in
    (calls ≡ calls_with 1 (under (codes "tick") fresh.cached_events ++ 4 ∷ 6 ∷ []))
    × (under (codes "tick") later.cached_events ≡ [])
on-emitted_example =
    on-emitted fresh (codes "tick") 1 (4 ∷ 6 ∷ []) refl (unfold has_handlers under get in refl)

abbrev an_error : ℕ ⊎ Str
an_error = inr (codes "timeout")

-- A timer that was started, fired and started again
abbrev restarted :
    Timers.Reachable (happen started_by (happen (fired 0) (happen started_by (Timer.new 100))))
restarted = happened started_by _ (happened (fired 0) _ (happened started_by _ (created 100)))

Reachable-IsHeld_example :
    IsHeld (happen started_by (happen (fired 0) (happen started_by (Timer.new 100))))
Reachable-IsHeld_example =
    Reachable-IsHeld (happen started_by (happen (fired 0) (happen started_by (Timer.new 100))))
      restarted

-- A name that was started twice, and another one that was stopped
abbrev three_calls : Tickers.Reachable (
    called
      (start_of (codes "poll") 20)
      (called (stop_of (codes "flush")) (called (start_of (codes "poll") 10) Ticker.new)))
three_calls = Tickers.after (start_of (codes "poll") 20) _ (
    Tickers.after (stop_of (codes "flush")) _
      (Tickers.after (start_of (codes "poll") 10) _ Tickers.created))

Reachable-IsOwned_example : IsOwned (
    called
      (start_of (codes "poll") 20)
      (called (stop_of (codes "flush")) (called (start_of (codes "poll") 10) Ticker.new)))
Reachable-IsOwned_example =
    Reachable-IsOwned
      (called (start_of (codes "poll") 20)
        (called (stop_of (codes "flush")) (called (start_of (codes "poll") 10) Ticker.new)))
      three_calls
