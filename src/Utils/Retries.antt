-- ===== src/Utils/Retries.antt =====
-- src/utils/retry: attempts with a growing delay. A delay is a floating point number: its product
-- with the factor and the minimum of two delays are parameters. What an attempt does is a parameter
-- too, a function of the attempt's number.
pub mod Laws
use hubble_ui.Prelude.{
  ℕ, zero, suc, ◌+◌, Bool, true, false, ◌||◌, Option, none, some, List, [], ◌∷◌, ◌++◌, leb, nat_eq,
  if◌then◌else◌,
}

pub record Opts (D : Type 0) : Type 0 where
  pub max_delay : D
  pub min_delay : D
  pub factor : D

pub record Delayer (D : Type 0) : Type 0 where
  pub opts : Opts D
  pub delay : D

-- `a * b` and `Math.min(a, b)`
pub record Arithmetic (D : Type 0) : Type 0 where
  pub product_of : D → D → D
  pub min_of : D → D → D

-- What an attempt does: it returns or throws, after it has called `stop` or not; and it may have
-- called `stop` by the end of the delay that follows.
pub data Ending (T E : Type 0) : Type 0 where
  returned : T → Ending T E
  threw : E → Ending T E

pub record Attempt (T E : Type 0) : Type 0 where
  pub ending : Ending T E
  pub stopped : Bool
  pub stopped_later : Bool

-- The events, and the waits between them. A failure has the attempt, whether it is the last one,
-- whether it was stopped, and the error.
pub data Event (D E : Type 0) : Type 0 where
  attempt_started attempt_success : ℕ → Event D E
  attempt_failed : ℕ → Bool → Bool → E → Event D E
  attempt_delay : ℕ → D → Event D E
  waited : D → Event D E

-- How `try` ends: with a result, with null, with an error of an attempt, or with RetriesFailed
pub data Outcome (T E : Type 0) : Type 0 where
  resolved : T → Outcome T E
  gave_up limit_reached : Outcome T E
  rejected : E → Outcome T E

-- No `max_attempts` is Infinity.
pub record Retries (D : Type 0) : Type 0 where
  pub delayer : Delayer D
  pub attempt : ℕ
  pub max_attempts : Option ℕ

module _ {D : Type 0} where
  unfoldable pub new_delayer : Opts D → Delayer D
  new_delayer opts = record { opts = opts; delay = opts.min_delay }

  unfoldable pub new : Delayer D → Option ℕ → Retries D
  new delayer max_attempts = record { delayer = delayer; attempt = 1; max_attempts = max_attempts }

  unfoldable pub new_exponential : Option ℕ → D → D → D → Retries D
  unfolding new new_delayer
  new_exponential max_attempts factor max_delay min_delay =
      new (new_delayer (record { max_delay = max_delay; min_delay = min_delay; factor = factor }))
        max_attempts

  unfoldable pub clone : Retries D → Retries D
  unfolding new new_delayer
  clone r = new (new_delayer r.delayer.opts) r.max_attempts

  unfoldable pub reset : Retries D → Retries D
  reset r = record r {
    delayer = record r.delayer { delay = r.delayer.opts.min_delay };
    attempt = 1;
  }

  unfoldable pub can_do_attempt : Retries D → Bool
  can_do_attempt r = elim r.max_attempts [ none ↦ true | some n ↦ leb r.attempt n ]

  unfoldable pub is_last_attempt : Retries D → Bool
  is_last_attempt r = elim r.max_attempts [ none ↦ false | some n ↦ nat_eq r.attempt n ]

  -- `wait`: the next delay; the present one is waited.
  unfoldable pub advance_delay : Arithmetic D → Delayer D → Delayer D
  advance_delay lib d = record d {
    delay = lib.min_of (lib.product_of d.delay d.opts.factor) d.opts.max_delay;
  }

module _ {D T E : Type 0} (lib : Arithmetic D) (fn : ℕ → Attempt T E) where
  pub record Run : Type 0 where
    pub outcome : Outcome T E
    pub retries : Retries D
    pub events : List (Event D E)

  abbrev pub after : List (Event D E) → Option Run → Option Run
  after events none = none
  after events (some run) = some (record run { events = events ++ run.events })

  -- The loop of `try`; none if it is not over after as many rounds as the fuel.
  unfoldable pub try : ℕ → Retries D → Option Run
  unfolding can_do_attempt is_last_attempt advance_delay
  try zero r = none
  try (suc fuel) r =
      let attempt = fn r.attempt in
      let delay = r.delayer.delay in
      let next = record r { delayer = advance_delay lib r.delayer; attempt = r.attempt + 1 } in
      let rest = try fuel next in
      if can_do_attempt r
      then elim attempt.ending [
        | returned result ↦ some (record {
          outcome = resolved result;
          retries = r;
          events = attempt_started r.attempt ∷ attempt_success r.attempt ∷ [];
        })
        | threw err ↦
            let failure = attempt_failed r.attempt (is_last_attempt r) attempt.stopped err in
            if attempt.stopped || is_last_attempt r
            then some (record {
              outcome = rejected err;
              retries = r;
              events = attempt_started r.attempt ∷ failure ∷ [];
            })
            else let events =
                attempt_started r.attempt
                ∷ failure
                ∷ attempt_delay r.attempt delay
                ∷ waited delay
                ∷ [] in
              if attempt.stopped_later
              then some (record { outcome = gave_up; retries = next; events = events })
              else after events rest
      ]
      else some (record { outcome = limit_reached; retries = r; events = [] })
