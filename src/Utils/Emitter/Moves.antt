-- ===== src/Utils/Emitter/Moves.antt =====
-- The move of kept events to another emitter, of `moveCachedEventsTo` in src/utils/emitter.ts.
use hubble_ui.Prelude.{
  ◌≡◌, refl, Bool, true, not, ◌&&◌, ◌||◌, List, [], ◌∷◌, any, Str, str_Eq, is_empty, ◌==◌, arith,
}
use hubble_ui.Prelude.Maps.{get, put}
use hubble_ui.Utils.Emitter.{Emitter, under, emit, move_payloads, move_each, move_cached_events_to}
use hubble_ui.Utils.Emitter.Laws.{under-put}

module _ {P : Type 0} where
  under-move_payloads :
      (em target : Emitter P) (event : Str) (payloads : List P) (e : Str)
      → is_empty (under e (move_payloads em target event payloads).0.cached_events)
        ≡ ((event == e && not (is_empty payloads)) || is_empty (under e em.cached_events))
  unfolding move_payloads
  under-move_payloads em target event [] e = ground arith
  under-move_payloads em target event (args ∷ payloads) e =
      let dropped = record em { cached_events = put event [] em.cached_events } in
      ground (
        arith,
        under-move_payloads dropped (emit target event args).0 event payloads e,
        under-put event e [] em.cached_events,
      )

  -- Some entry of the event has something.
  abbrev has_some : Str → List (Str × List P) → Bool
  unfolding any
  has_some e = any (λ p. p.0 == e && not (is_empty p.1))

  under-move_each :
      (em target : Emitter P) (kept : List (Str × List P)) (e : Str)
      → is_empty (under e (move_each em target kept).0.cached_events)
        ≡ (has_some e kept || is_empty (under e em.cached_events))
  unfolding move_each any
  under-move_each em target [] e = refl
  under-move_each em target ((event, payloads) ∷ kept) e =
      let moved = move_payloads em target event payloads in
      ground (
        arith,
        under-move_each moved.0 moved.1.0 kept e,
        under-move_payloads em target event payloads e,
      )

  some_or_empty :
      (kept : List (Str × List P)) (e : Str) → (has_some e kept || is_empty (under e kept)) ≡ true
  unfolding any under get
  some_or_empty [] e = refl
  some_or_empty ((event, payloads) ∷ kept) e = ground (arith, some_or_empty kept e)

  -- After the move no event is kept.
  under-move_cached_events_to :
      (em target : Emitter P) (e : Str)
      → is_empty (under e (move_cached_events_to em target).0.cached_events) ≡ true
  unfolding move_cached_events_to
  under-move_cached_events_to em target e =
      ground (arith, under-move_each em target em.cached_events e, some_or_empty em.cached_events e)
