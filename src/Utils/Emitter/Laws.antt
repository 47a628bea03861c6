-- ===== src/Utils/Emitter/Laws.antt =====
-- What an emitter keeps and what it hands on while caching, of src/utils/emitter.ts.
use mathlib.Core.List.{append-nil, append_assoc}
use hubble_ui.Prelude.{
  ◌≡◌, refl, sym, ap, ◌∙◌, eq_refl, ℕ, Bool, true, false, not, ◌||◌, Option, none, some, List, [],
  ◌∷◌, ◌++◌, Str, str_Eq, nat_Eq, is_empty, eq_iff, inl, inr, Option-cases, ◌==◌, arith,
  if◌then◌else◌,
}
use hubble_ui.Prelude.Maps.{get, put, get-put}
use hubble_ui.Prelude.Sets.{has, add, remove}
use hubble_ui.Utils.Emitter.{
  Emitter, under, new, set_caching, calls_with, on, once, off, replaced, has_handlers, save_cached,
  emit, off_all_events, drop_cached_events,
}

pub under-put :
    {V : Type 0} (k j : Str) (vs : List V) (m : List (Str × List V))
    → under j (put k vs m) ≡ (if k == j then vs else under j m)
unfolding under
under-put k j vs m = ground (arith, get-put k j vs m)

under-replaced :
    (k j : Str) (hs : List ℕ) (m : List (Str × List ℕ))
    → is_empty (under j m) ≡ true
    → (is_empty (under k m) ≡ true → is_empty hs ≡ true)
    → is_empty (under j (replaced k hs m)) ≡ true
unfolding replaced
under-replaced k j hs m e keeps = elim (Option-cases (get k m)) [
  | inl missing ↦ rw (replaced, missing) e
  | inr (old, found) ↦
      rw (replaced, found) (ground (arith, under-put k j hs m, eq_iff k j, e, keeps))
]

remove-add_only : (h : ℕ) → remove h (add h []) ≡ []
unfolding remove add has
remove-add_only h = ground (arith, eq_iff h h)

is_empty-remove : (h : ℕ) (hs : List ℕ) → is_empty hs ≡ true → is_empty (remove h hs) ≡ true
unfolding remove
is_empty-remove h [] e = refl
is_empty-remove h (x ∷ xs) e = ground arith

-- What the program calls of an emitter
pub data Action (P : Type 0) : Type 0 where
  on_event once_event : Str → ℕ → Action P
  off_event : Str → Option ℕ → Action P
  emit_event : Str → P → Action P
  drop_events : List Str → Action P
  off_all : Action P
  caching : Bool → Action P

module _ {P : Type 0} where
  -- An event that is kept waits for no handler that is there.
  abbrev pub IsWaiting : Emitter P → Type 0
  IsWaiting em = (e : Str) → (is_empty (under e em.cached_events) || not (has_handlers em e)) ≡ true

  unfoldable pub act : Action P → Emitter P → Emitter P
  unfolding on once off emit drop_cached_events off_all_events set_caching
  act (on_event e h) em = (on em e h).0
  act (once_event e h) em = (once em e h).0
  act (off_event e h) em = off em e h
  act (emit_event e args) em = (emit em e args).0
  act (drop_events es) em = drop_cached_events em es
  act off_all em = off_all_events em
  act (caching c) em = set_caching em c

  on-IsWaiting : (em : Emitter P) (e : Str) (h : ℕ) → IsWaiting em → IsWaiting (on em e h).0
  unfolding on has_handlers
  on-IsWaiting em e h w j = ground (
    arith,
    w j,
    w e,
    eq_iff e j,
    under-put e j [] em.cached_events,
    under-put e j (add h (under e em.on_handlers)) em.on_handlers,
  )

  once-IsWaiting : (em : Emitter P) (e : Str) (h : ℕ) → IsWaiting em → IsWaiting (once em e h).0
  unfolding once has_handlers
  once-IsWaiting em e h w j = go (under e em.cached_events) refl
    where
      go :
          (kept : List P)
          → under e em.cached_events ≡ kept
          → (is_empty (under j (once em e h).0.cached_events)
              || not (has_handlers (once em e h).0 j))
            ≡ true
      go [] none_kept =
          rw (once, none_kept)
            (ground (
              arith,
              w j,
              none_kept,
              eq_iff e j,
              under-put e j (add h (under e em.once_handlers)) em.once_handlers,
            ))
      go (datum ∷ kept) some_kept =
          let nobody : under e em.once_handlers ≡ [] = ground (arith, w e, some_kept) in
          rw (once, some_kept, nobody, remove-add_only h)
            (ground (
              arith,
              w j,
              w e,
              some_kept,
              eq_iff e j,
              under-put e j kept em.cached_events,
              under-put e j [] em.once_handlers,
            ))

  off-IsWaiting : (em : Emitter P) (e : Str) (h : Option ℕ) → IsWaiting em → IsWaiting (off em e h)
  unfolding off has_handlers
  off-IsWaiting em e none w j =
      ground
        (arith, w j, under-replaced e j [] em.on_handlers, under-replaced e j [] em.once_handlers)
  off-IsWaiting em e (some h) w j =
      let ons = under e em.on_handlers in
      let onces = under e em.once_handlers in
      ground (
        arith,
        w j,
        under-replaced e j (remove h ons) em.on_handlers,
        under-replaced e j (remove h onces) em.once_handlers,
        is_empty-remove h ons,
        is_empty-remove h onces,
      )

  emit-IsWaiting :
      (em : Emitter P) (e : Str) (args : P) → IsWaiting em → IsWaiting (emit em e args).0
  unfolding emit save_cached has_handlers
  emit-IsWaiting em e args w j = ground (
    arith,
    w j,
    eq_iff e j,
    under-replaced e j [] em.once_handlers,
    under-put e j (under e em.cached_events ++ args ∷ []) em.cached_events,
  )

  off_all-IsWaiting : (em : Emitter P) → IsWaiting em → IsWaiting (off_all_events em)
  unfolding off_all_events has_handlers under get
  off_all-IsWaiting em w j = ground arith

  drop-IsWaiting :
      (em : Emitter P) (es : List Str) → IsWaiting em → IsWaiting (drop_cached_events em es)
  unfolding drop_cached_events
  drop-IsWaiting em [] w = w
  drop-IsWaiting em (e ∷ es) w =
      drop-IsWaiting (record em { cached_events = put e [] em.cached_events }) es
        (λ j.
          unfold has_handlers in ground (arith, w j, eq_iff e j, under-put e j [] em.cached_events))

  act-IsWaiting : (a : Action P) (em : Emitter P) → IsWaiting em → IsWaiting (act a em)
  unfolding act set_caching
  act-IsWaiting (on_event e h) em w = on-IsWaiting em e h w
  act-IsWaiting (once_event e h) em w = once-IsWaiting em e h w
  act-IsWaiting (off_event e h) em w = off-IsWaiting em e h w
  act-IsWaiting (emit_event e args) em w = emit-IsWaiting em e args w
  act-IsWaiting (drop_events es) em w = drop-IsWaiting em es w
  act-IsWaiting off_all em w = off_all-IsWaiting em w
  act-IsWaiting (caching c) em w = λ j. unfold has_handlers in ground (arith, w j)

  -- The emitters that some actions lead to from a new one
  pub data Reachable : Emitter P → Type 0 where
    start : (caching : Bool) → Reachable (new caching)
    acted : (a : Action P) (em : Emitter P) → Reachable em → Reachable (act a em)

  -- Of an emitter that actions lead to from a new one, no event is kept while a handler of it is
  -- there.
  pub Reachable-IsWaiting : (em : Emitter P) → Reachable em → IsWaiting em
  Reachable-IsWaiting _ (start c) = λ j. unfold new under get in refl
  Reachable-IsWaiting _ (acted a em r) = act-IsWaiting a em (Reachable-IsWaiting em r)

  abbrev pub emit_each : Emitter P → Str → List P → Emitter P
  emit_each em e [] = em
  emit_each em e (args ∷ more) = emit_each (emit em e args).0 e more

  emit-kept :
      (em : Emitter P) (e : Str) (args : P)
      → em.is_caching ≡ true
      → has_handlers em e ≡ false
      → (emit em e args).0 ≡ save_cached em e args
  unfolding emit has_handlers
  emit-kept em e args c h = ground (arith, c, h)

  under-emit_each :
      (em : Emitter P) (e : Str) (payloads : List P)
      → em.is_caching ≡ true
      → has_handlers em e ≡ false
      → under e (emit_each em e payloads).cached_events ≡ under e em.cached_events ++ payloads
  unfolding save_cached has_handlers
  under-emit_each em e [] c h = sym (append-nil (under e em.cached_events))
  under-emit_each em e (args ∷ more) c h =
      let kept = under e em.cached_events in
      ap (λ em'. under e (emit_each em' e more).cached_events) (emit-kept em e args c h)
      ∙ (under-emit_each (save_cached em e args) e more c h
          ∙ (ap (λ xs. xs ++ more) (same e (kept ++ args ∷ []) em.cached_events)
              ∙ append_assoc kept (args ∷ []) more))
    where
      same : (k : Str) (vs : List P) (m : List (Str × List P)) → under k (put k vs m) ≡ vs
      same k vs m = ground (arith, under-put k k vs m, eq_refl k)

  -- Events that a caching emitter is given while nobody handles them are all given to the next
  -- handler that is put on, after those kept before, in order, and none of them is kept any longer.
  pub on-emitted :
      (em : Emitter P) (e : Str) (h : ℕ) (payloads : List P)
      → em.is_caching ≡ true
      → has_handlers em e ≡ false
      → let (later, calls) = on (emit_each em e payloads) e h in
        (calls ≡ calls_with h (under e em.cached_events ++ payloads))
        × (under e later.cached_events ≡ [])
  unfolding on
  on-emitted em e h payloads c n =
      rw (sym (under-emit_each em e payloads c n))
        (go (under e (emit_each em e payloads).cached_events) refl)
    where
      later : Emitter P
      later = emit_each em e payloads

      go :
          (kept : List P)
          → under e later.cached_events ≡ kept
          → ((on later e h).1 ≡ calls_with h (under e later.cached_events))
            × (under e (on later e h).0.cached_events ≡ [])
      go [] k = rw (on, k) (refl, k)
      go (args ∷ more) k =
          rw (on, k) (refl, ground (arith, under-put e e [] later.cached_events, eq_refl e))
