-- ===== src/Utils/Ticker/Laws.antt =====
-- Which intervals of src/utils/ticker.ts are active.
use hubble_ui.Prelude.{
  ℕ, ◌≡◌, Option, none, some, List, [], ◌∷◌, Str, str_Eq, nat_Eq, ◌==◌, arith, if◌then◌else◌,
  eq_iff, inl, inr, Option-cases,
}
use hubble_ui.Prelude.Maps.{get, get-put, get-delete}
use hubble_ui.Utils.Ticker.{Ticker, TickDescriptor, clear_interval, new, start, stop}

-- The number of the interval that a name stands for
abbrev timer_of : Option TickDescriptor → Option ℕ
timer_of none = none
timer_of (some d) = some d.timer_id

get-clear_interval :
    (n i : ℕ) (m : List (ℕ × Str)) → get i (clear_interval n m) ≡ (if n == i then none else get i m)
unfolding get clear_interval
get-clear_interval n i [] = ground arith
get-clear_interval n i ((j, v) ∷ m) =
    ground (arith, eq_iff n i, eq_iff j n, eq_iff j i, get-clear_interval n i m)

-- Each active interval is the one that its name stands for.
pub IsOwned : Ticker → Type 0
IsOwned t =
    (n : ℕ) (name : Str) → get n t.intervals ≡ some name → timer_of (get name t.ticks) ≡ some n

start-IsOwned : (t : Ticker) (k : Str) (dur : ℕ) → IsOwned t → IsOwned (start t k dur)
unfolding start IsOwned get
start-IsOwned t k dur h n name p = elim (Option-cases (get k t.ticks)) [
  | inl missing ↦ ground (
    arith,
    h n name,
    missing,
    p,
    eq_iff k name,
    eq_iff t.next_number n,
    get-put k name (record { name = k; timer_id = t.next_number; delay = dur }) t.ticks,
  )
  | inr (d, found) ↦ ground (
    arith,
    h n name,
    found,
    p,
    eq_iff k name,
    eq_iff t.next_number n,
    eq_iff d.timer_id n,
    get-clear_interval d.timer_id n t.intervals,
    get-put k name (record { name = k; timer_id = t.next_number; delay = dur }) t.ticks,
  )
]

stop-IsOwned : (t : Ticker) (k : Str) → IsOwned t → IsOwned (stop t k)
unfolding stop IsOwned
stop-IsOwned t k h n name p = elim (Option-cases (get k t.ticks)) [
  | inl missing ↦ ground (arith, h n name, missing, p)
  | inr (d, found) ↦ ground (
    arith,
    h n name,
    found,
    p,
    eq_iff k name,
    eq_iff d.timer_id n,
    get-clear_interval d.timer_id n t.intervals,
    get-delete k name t.ticks,
  )
]

-- What the program calls of a ticker
pub data Call : Type 0 where
  start_of : Str → ℕ → Call
  stop_of : Str → Call

unfoldable pub called : Call → Ticker → Ticker
unfolding start stop
called (start_of k dur) t = start t k dur
called (stop_of k) t = stop t k

-- The tickers that calls lead to from a new one
pub data Reachable : Ticker → Type 0 where
  created : Reachable new
  after : (c : Call) (t : Ticker) → Reachable t → Reachable (called c t)

called-IsOwned : (c : Call) (t : Ticker) → IsOwned t → IsOwned (called c t)
unfolding called
called-IsOwned (start_of k dur) t h = start-IsOwned t k dur h
called-IsOwned (stop_of k) t h = stop-IsOwned t k h

-- Whatever calls lead to a ticker from a new one, an interval that is active is the one whose number
-- stands under the name that it emits: of a name one interval at most is active, and none of a name
-- that has no tick.
pub Reachable-IsOwned : (t : Ticker) → Reachable t → IsOwned t
unfolding new get IsOwned
Reachable-IsOwned _ created n name p = cc
Reachable-IsOwned _ (after c t r) n name p = called-IsOwned c t (Reachable-IsOwned t r) n name p
