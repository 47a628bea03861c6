-- ===== src/Utils/Timer.antt =====
-- src/utils/timer.ts: a timer, or a ticker, and the timeouts or intervals of the browser that are
-- active. Each has a number; `setTimeout` and `setInterval` give new ones.
pub mod Laws
use hubble_ui.Prelude.{
  ℕ, ◌+◌, Bool, true, false, Option, none, some, List, [], ◌∷◌, ◌++◌, nat_Eq, if◌then◌else◌,
}
use hubble_ui.Prelude.Sets.{has, remove}
use hubble_ui.Prelude.Maps.{is_some}

-- The class Timer sets timeouts, the class Ticker intervals.
pub data TimerKind : Type 0 where
  timer ticker : TimerKind

pub data TimerEvent : Type 0 where
  started timeout stopped : TimerEvent

-- `timerDisposer` clears the timeout with its number.
pub record Timer : Type 0 where
  pub disposer : Option ℕ
  pub duration : ℕ

pub record State : Type 0 where
  pub object : Timer
  pub active : List ℕ
  pub next_number : ℕ

unfoldable pub is_set : Timer → Bool
is_set t = is_some t.disposer

-- `new Timer(dur)`, before any timeout
unfoldable pub new : ℕ → State
new dur = record {
  object = record { disposer = none; duration = dur };
  active = [];
  next_number = 0;
}

unfoldable pub stop : State → State × List TimerEvent
unfolding remove
stop s = elim s.object.disposer [
  | none ↦ (s, [])
  | some n ↦ (
    record s { object = record s.object { disposer = none }; active = remove n s.active },
    stopped ∷ [],
  )
]

unfoldable pub start : State → State × List TimerEvent
start s = elim s.object.disposer [
  | some n ↦ (s, [])
  | none ↦ (
    record {
      object = record s.object { disposer = some s.next_number };
      active = s.next_number ∷ s.active;
      next_number = s.next_number + 1;
    },
    started ∷ [],
  )
]

unfoldable pub reset : State → Option ℕ → State × List TimerEvent
unfolding stop start
reset s ms =
    let (s', events) = stop s in
    let d : ℕ = elim ms [ none ↦ s'.object.duration | some dur ↦ dur ] in
    let (s'', more) = start (record s' { object = record s'.object { duration = d } }) in
    (s'', events ++ more)

-- The browser calls what stands under an active number; a timeout is over then, an interval is not.
unfoldable pub fire : TimerKind → ℕ → State → State × List TimerEvent
unfolding has remove
fire kind n s =
    let left : List ℕ = elim kind [ timer ↦ remove n s.active | ticker ↦ s.active ] in
    if has n s.active
    then (record s { object = record s.object { disposer = none }; active = left }, timeout ∷ [])
    else (s, [])
