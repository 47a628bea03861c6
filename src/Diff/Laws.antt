-- ===== src/Diff/Laws.antt =====
-- What a difference answers after a change of its values, of src/domain/diff/index.ts.
use hubble_ui.Prelude.{
  Bool, true, not, ◌≡◌, refl, ◌⊎◌, inl, inr, Option, none, some, List, [], ◌∷◌, arith,
}
use hubble_ui.Diff.{
  Value, compare_values, equals, Diff, new, compute_changed, changed, set_after, step, invert,
  set_unchanged, set_comparator,
}

-- What a holder of a difference may do between its construction and a question.
pub data Action (T : Type 0) : Type 0 where
  ask : Action T
  assign : Option T → Action T
  advance : Option T → Action T
  swap : Action T
  settle : Action T

module _ {T : Type 0} (lib : Value T) where
  unfoldable pub act : Diff T → Action T → Diff T
  act d ask = (changed lib d).1
  act d (assign after) = set_after lib d after
  act d (advance next) = step lib d next
  act d swap = invert d
  act d settle = set_unchanged d

  unfoldable pub act_all : Diff T → List (Action T) → Diff T
  act_all d [] = d
  act_all d (a ∷ acts) = act_all (act d a) acts

  -- Nothing is kept, or the answer that would be computed.
  abbrev pub IsFresh : Diff T → Type 0
  IsFresh d = (d.cached ≡ none) ⊎ (d.cached ≡ some (compute_changed lib d))

  module _ (fn : Option (T → T → Bool)) (same : (a : T) → compare_values lib fn a a ≡ true) where
    equals_self : (a : Option T) → equals lib a a fn ≡ true
    unfolding equals
    equals_self none = refl
    equals_self (some a) = same a

    act-IsFresh :
        (d : Diff T) (a : Action T)
        → d.compare_fn ≡ fn
        → IsFresh d
        → IsFresh (act d a) × ((act d a).compare_fn ≡ fn)
    unfolding act changed compute_changed set_after step invert set_unchanged
    act-IsFresh d ask c h = ground arith
    act-IsFresh d (assign after) c h = (inl refl, c)
    act-IsFresh d (advance next) c h = (inl refl, c)
    act-IsFresh d swap c h = (inl refl, c)
    act-IsFresh d settle c h = (inr (ground (arith, equals_self d.after, c)), c)

    act_all-IsFresh :
        (d : Diff T) (acts : List (Action T))
        → d.compare_fn ≡ fn
        → IsFresh d
        → IsFresh (act_all d acts) × ((act_all d acts).compare_fn ≡ fn)
    unfolding act_all
    act_all-IsFresh d [] c h = (h, c)
    act_all-IsFresh d (a ∷ acts) c h =
        let (h', c') = act-IsFresh d a c h in act_all-IsFresh (act d a) acts c' h'

    -- A difference that gets its comparator when it is made answers `changed`, after any questions,
    -- assignments, steps, inversions and settlings, by comparing what it holds before and after at
    -- that moment, if the comparator finds each value equal to itself: no kept answer is stale.
    pub changed-act_all :
        (init : Option T) (acts : List (Action T))
        → let d = act_all (set_comparator (new lib init) fn) acts in
          (changed lib d).0 ≡ not (equals lib d.before d.after fn)
    unfolding changed compute_changed new set_comparator
    changed-act_all init acts =
        let d = set_comparator (new lib init) fn in
        let (h, c) = act_all-IsFresh d acts refl (inl refl) in ground (arith, h, c)

-- Inverting twice gives back both values.
pub invert_twice :
    {T : Type 0} (d : Diff T)
    → let e = invert (invert d) in (e.before ≡ d.before) × (e.after ≡ d.after)
unfolding invert
invert_twice d = (refl, refl)
