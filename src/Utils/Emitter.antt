-- ===== src/Utils/Emitter.antt =====
-- src/utils/emitter.ts: handlers of events, and the events that are kept while there is no handler.
-- A handler is a number, and an event a text; the calls of handlers, with what they are given, are
-- the results of the operations, in order. Handlers are taken not to call the emitter themselves.
pub mod Laws
mod Moves
use hubble_ui.Prelude.{
  ℕ, Bool, true, false, not, ◌&&◌, ◌||◌, Option, none, some, List, [], ◌∷◌, ◌++◌, map, Str, str_Eq,
  nat_Eq, is_empty, if◌then◌else◌,
}
use hubble_ui.Prelude.Maps.{get, put}
use hubble_ui.Prelude.Sets.{add, remove}

module _ (P : Type 0) where
  pub record Emitter : Type 0 where
    pub on_handlers : List (Str × List ℕ)
    pub once_handlers : List (Str × List ℕ)
    pub cached_events : List (Str × List P)
    pub is_caching : Bool

-- What a map has under a key; nothing and the empty collection are alike to the program.
unfoldable pub under : {V : Type 0} → Str → List (Str × List V) → List V
unfolding get
under k m = elim (get k m) [ none ↦ [] | some vs ↦ vs ]

-- A set that is not there is left out.
unfoldable pub replaced : Str → List ℕ → List (Str × List ℕ) → List (Str × List ℕ)
unfolding get put
replaced event handlers m = elim (get event m) [ none ↦ m | some _ ↦ put event handlers m ]

module _ {P : Type 0} where
  unfoldable pub new : Bool → Emitter P
  new caching = record {
    on_handlers = [];
    once_handlers = [];
    cached_events = [];
    is_caching = caching;
  }

  unfoldable pub set_caching : Emitter P → Bool → Emitter P
  set_caching em c = record em { is_caching = c }

  -- `handler(...args)` for each of the events kept
  abbrev pub calls_with : ℕ → List P → List (ℕ × P)
  calls_with handler = map (λ args. (handler, args))

  -- `fn(...args)` for each handler
  abbrev pub calls_of : List ℕ → P → List (ℕ × P)
  calls_of handlers args = map (λ handler. (handler, args)) handlers

  unfoldable pub on : Emitter P → Str → ℕ → Emitter P × List (ℕ × P)
  unfolding under put add
  on em event handler =
      let handlers = put event (add handler (under event em.on_handlers)) em.on_handlers in
      let added = record em { on_handlers = handlers } in
      elim (under event em.cached_events) [
        | [] ↦ (added, [])
        | args ∷ kept ↦ (
          record added { cached_events = put event [] em.cached_events },
          calls_with handler (args ∷ kept),
        )
      ]

  -- The first of the events kept is given to the handler, which is removed again.
  unfoldable pub once : Emitter P → Str → ℕ → Emitter P × List (ℕ × P)
  unfolding under put add remove
  once em event handler =
      let handlers = add handler (under event em.once_handlers) in
      elim (under event em.cached_events) [
        | [] ↦ (record em { once_handlers = put event handlers em.once_handlers }, [])
        | datum ∷ kept ↦ (
          record em {
            once_handlers = put event (remove handler handlers) em.once_handlers;
            cached_events = put event kept em.cached_events;
          },
          (handler, datum) ∷ [],
        )
      ]

  -- `off(event, handler)`, and `off(event)` without a handler
  unfoldable pub off : Emitter P → Str → Option ℕ → Emitter P
  unfolding replaced under remove
  off em event none = record em {
    on_handlers = replaced event [] em.on_handlers;
    once_handlers = replaced event [] em.once_handlers;
  }
  off em event (some handler) = record em {
    on_handlers = replaced event (remove handler (under event em.on_handlers)) em.on_handlers;
    once_handlers = replaced event (remove handler (under event em.once_handlers)) em.once_handlers;
  }

  unfoldable pub has_handlers : Emitter P → Str → Bool
  unfolding under
  has_handlers em event =
      not (is_empty (under event em.on_handlers)) || not (is_empty (under event em.once_handlers))

  unfoldable pub save_cached : Emitter P → Str → P → Emitter P
  unfolding under put
  save_cached em event args = record em {
    cached_events = put event (under event em.cached_events ++ args ∷ []) em.cached_events;
  }

  unfoldable pub emit : Emitter P → Str → P → Emitter P × List (ℕ × P)
  unfolding under replaced save_cached
  emit em event args =
      let ons = under event em.on_handlers in
      let onces = under event em.once_handlers in
      if em.is_caching && (is_empty ons && is_empty onces)
      then (save_cached em event args, [])
      else (
        record em { once_handlers = replaced event [] em.once_handlers },
        calls_of ons args ++ calls_of onces args,
      )

  unfoldable pub off_all_events : Emitter P → Emitter P
  off_all_events em = record em { on_handlers = []; once_handlers = [] }

  unfoldable pub drop_cached_events : Emitter P → List Str → Emitter P
  unfolding put
  drop_cached_events em [] = em
  drop_cached_events em (event ∷ events) =
      drop_cached_events (record em { cached_events = put event [] em.cached_events }) events

  -- The inner loop of `moveCachedEventsTo`: what is given to the target, with the calls of its
  -- handlers. The results are this emitter, the target and the calls.
  unfoldable pub move_payloads :
      Emitter P → Emitter P → Str → List P → Emitter P × (Emitter P × List (ℕ × P))
  unfolding emit put
  move_payloads em target event [] = (em, (target, []))
  move_payloads em target event (args ∷ payloads) =
      let (target', calls) = emit target event args in
      let dropped = record em { cached_events = put event [] em.cached_events } in
      let (em', (target'', more)) = move_payloads dropped target' event payloads in
      (em', (target'', calls ++ more))

  -- The outer loop, over a copy of the events kept
  unfoldable pub move_each :
      Emitter P → Emitter P → List (Str × List P) → Emitter P × (Emitter P × List (ℕ × P))
  unfolding move_payloads
  move_each em target [] = (em, (target, []))
  move_each em target ((event, payloads) ∷ kept) =
      let (em', (target', calls)) = move_payloads em target event payloads in
      let (em'', (target'', more)) = move_each em' target' kept in (em'', (target'', calls ++ more))

  unfoldable pub move_cached_events_to :
      Emitter P → Emitter P → Emitter P × (Emitter P × List (ℕ × P))
  unfolding move_each
  move_cached_events_to em target = move_each em target em.cached_events
