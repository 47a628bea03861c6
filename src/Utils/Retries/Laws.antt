-- ===== src/Utils/Retries/Laws.antt =====
-- How the attempts end, and what is waited between them.
use hubble_ui.Prelude.{
  ◌≡◌, refl, ap, ℕ, zero, suc, ◌+◌, Bool, true, false, not, Option, none, some, List, [], ◌∷◌,
  arith,
}
use hubble_ui.Utils.Retries.{
  Delayer, Arithmetic, returned, threw, Attempt, Event, waited, attempt_started, attempt_failed,
  attempt_delay, Outcome, resolved, limit_reached, Retries, can_do_attempt, is_last_attempt,
  advance_delay, Run, after, try,
}

-- The delays that are waited
abbrev pub waits : {D E : Type 0} → List (Event D E) → List D
waits [] = []
waits (waited d ∷ events) = d ∷ waits events
waits (_ ∷ events) = waits events

-- `k` delays, each grown from the one before it
abbrev pub delays : {D : Type 0} → Arithmetic D → ℕ → Delayer D → List D
delays lib zero d = []
delays lib (suc k) d = d.delay ∷ delays lib k (advance_delay lib d)

abbrev pub failing : {T E : Type 0} → E → Attempt T E
failing err = record { ending = threw err; stopped = false; stopped_later = false }

abbrev pub is_limit : {T E : Type 0} → Outcome T E → Bool
is_limit limit_reached = true
is_limit _ = false

module _ {D T E : Type 0} (lib : Arithmetic D) (fn : ℕ → Attempt T E) where
  -- The loop is over, and not by RetriesFailed.
  abbrev pub ends_early : Option (Run lib fn) → Bool
  ends_early none = false
  ends_early (some run) = not (is_limit run.outcome)

  -- With attempts left, the loop is over after as many rounds as attempts are left, and does not end
  -- with RetriesFailed.
  pub try-limited :
      (k n : ℕ) (r : Retries D)
      → r.max_attempts ≡ some n
      → r.attempt + k ≡ n
      → ends_early (try lib fn (suc k) r) ≡ true
  unfolding try can_do_attempt is_last_attempt
  try-limited zero n r m e = ground (arith, m, e)
  try-limited (suc k) n r m e = ground (
    arith,
    m,
    try-limited k n (record r { delayer = advance_delay lib r.delayer; attempt = r.attempt + 1 }) m
        (omega arith),
  )

  -- How the loop ended, and the delays that it waited
  abbrev pub report : Option (Run lib fn) → Option (Outcome T E × List D)
  report none = none
  report (some run) = some (run.outcome, waits run.events)

  -- The attempts from the number `a` on, `k` of them, throw and are not stopped.
  abbrev pub AreFailing : (ℕ → E) → ℕ → ℕ → Type 0
  AreFailing err zero a = Unit
  AreFailing err (suc k) a = (fn a ≡ failing (err a)) × AreFailing err k (a + 1)

  abbrev next : Retries D → Retries D
  next r = record r { delayer = advance_delay lib r.delayer; attempt = r.attempt + 1 }

  abbrev failure : Retries D → E → List (Event D E)
  failure r err =
      attempt_started r.attempt
      ∷ attempt_failed r.attempt false false err
      ∷ attempt_delay r.attempt r.delayer.delay
      ∷ waited r.delayer.delay
      ∷ []

  report-after :
      (r : Retries D) (err : E) (o : Option (Run lib fn)) (outcome : Outcome T E) (ds : List D)
      → report o ≡ some (outcome, ds)
      → report (after lib fn (failure r err) o) ≡ some (outcome, r.delayer.delay ∷ ds)
  report-after r err none outcome ds h = cc
  report-after r err (some run) outcome ds h = ground arith

  try-returned :
      (fuel : ℕ) (r : Retries D) (result : T)
      → (fn r.attempt).ending ≡ returned result
      → can_do_attempt r ≡ true
      → report (try lib fn (suc fuel) r) ≡ some (resolved result, [])
  unfolding try
  try-returned fuel r result ok can = rw (can, ok) refl

  try-threw :
      (fuel : ℕ) (r : Retries D) (err : E)
      → fn r.attempt ≡ failing err
      → can_do_attempt r ≡ true
      → is_last_attempt r ≡ false
      → try lib fn (suc fuel) r ≡ after lib fn (failure r err) (try lib fn fuel (next r))
  unfolding try
  try-threw fuel r err f can last =
      rw (can, ap (λ a. a.ending) f, ap (λ a. a.stopped) f, last, ap (λ a. a.stopped_later) f) refl

  -- If an attempt returns, the ones before it throw without being stopped, and attempts are left for
  -- it, the loop resolves with its result, after a wait for each failure.
  pub try-resolved :
      (err : ℕ → E) (k m : ℕ) (r : Retries D) (result : T)
      → r.attempt + k ≡ m
      → AreFailing err k r.attempt
      → (fn m).ending ≡ returned result
      → can_do_attempt (record r { attempt = m }) ≡ true
      → report (try lib fn (suc k) r) ≡ some (resolved result, delays lib k r.delayer)
  unfolding can_do_attempt is_last_attempt
  try-resolved err zero m r result e fs ok room =
      let here : r.attempt ≡ m = omega arith in
      try-returned 0 r result (ground (arith, here, ok)) (ground (arith, here, room))
  try-resolved err (suc k) m r result e (f, fs) ok room =
      rw (try-threw (suc k) r (err r.attempt) f (ground (arith, room)) (ground (arith, room))) (
        report-after r (err r.attempt) (try lib fn (suc k) (next r)) (resolved result) _
          (try-resolved err k m (next r) result (omega arith) fs ok room))
