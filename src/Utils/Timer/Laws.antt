-- ===== src/Utils/Timer/Laws.antt =====
-- Which timeouts and intervals of src/utils/timer.ts are active.
use hubble_ui.Prelude.{
  ◌≡◌, refl, ℕ, Option, none, some, List, [], ◌∷◌, nat_Eq, eq_refl, arith, inl, inr, Option-cases,
}
use hubble_ui.Prelude.Sets.{has, remove}
use hubble_ui.Utils.Timer.{timer, ticker, timeout, State, new, stop, start, reset, fire}

abbrev pub numbers : Option ℕ → List ℕ
numbers none = []
numbers (some n) = n ∷ []

-- The active timeouts are the one that the object can clear, or none.
abbrev pub IsHeld : State → Type 0
IsHeld s = s.active ≡ numbers s.object.disposer

-- What happens to a timer: calls of its methods, and timeouts
pub data Happening : Type 0 where
  started_by stopped_by : Happening
  reset_by : Option ℕ → Happening
  fired : ℕ → Happening

unfoldable pub happen : Happening → State → State
unfolding start stop reset fire
happen started_by s = (start s).0
happen stopped_by s = (stop s).0
happen (reset_by ms) s = (reset s ms).0
happen (fired n) s = (fire timer n s).0

start-IsHeld : (s : State) → IsHeld s → IsHeld (start s).0
unfolding start
start-IsHeld s h = ground arith

stop-IsHeld : (s : State) → IsHeld s → IsHeld (stop s).0
unfolding stop
stop-IsHeld s h = elim (Option-cases s.object.disposer) [
  | inl free ↦ rw (stop, free) (ground (arith, free))
  | inr (n, set) ↦ rw (stop, set, h) (rw set (remove_only n))
]
  where
    remove_only : (n : ℕ) → remove n (n ∷ []) ≡ []
    remove_only n = unfold remove in ground (arith, eq_refl n)

fire-IsHeld : (n : ℕ) (s : State) → IsHeld s → IsHeld (fire timer n s).0
unfolding fire has remove
fire-IsHeld n s h = ground arith

-- The states that happenings lead to from a new timer
pub data Reachable : State → Type 0 where
  created : (dur : ℕ) → Reachable (new dur)
  happened : (a : Happening) (s : State) → Reachable s → Reachable (happen a s)

happen-IsHeld : (a : Happening) (s : State) → IsHeld s → IsHeld (happen a s)
unfolding happen reset
happen-IsHeld started_by s h = start-IsHeld s h
happen-IsHeld stopped_by s h = stop-IsHeld s h
happen-IsHeld (reset_by ms) s h = start-IsHeld _ (stop-IsHeld s h)
happen-IsHeld (fired n) s h = fire-IsHeld n s h

-- Whatever happens to a timer, the active timeouts are the one that `stop` would clear, or none if
-- the timer is not set.
pub Reachable-IsHeld : (s : State) → Reachable s → IsHeld s
unfolding new
Reachable-IsHeld _ (created dur) = refl
Reachable-IsHeld _ (happened a s r) = happen-IsHeld a s (Reachable-IsHeld s r)

-- A ticker that has ticked once cannot be stopped: its interval stays active, and ticks again.
ticker-stop :
    (dur : ℕ)
    → let ticked = (fire ticker 0 (start (new dur)).0).0 in
      let after = (stop ticked).0 in
      (after.active ≡ 0 ∷ []) × ((fire ticker 0 after).1 ≡ timeout ∷ [])
unfolding new start stop fire has
ticker-stop dur = (refl, refl)
