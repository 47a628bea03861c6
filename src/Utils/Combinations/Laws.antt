-- ===== src/Utils/Combinations/Laws.antt =====
-- The loops of `asArray` and `forEach` of src/utils/iter-tools/combinations.ts.
use mathlib.Core.Option
use mathlib.Core.Path.{subst}
use native.Mathlib.Nat.{mod-eq_of_lt}
use hubble_ui.Prelude.{
  ◌≡◌, ◌≢◌, refl, ap, ◌∙◌, inl, inr, ℕ, zero, suc, ◌+◌, ◌*◌, ◌-◌, ◌%◌, ◌<◌, Bool, true, false, none,
  some, List, [], ◌∷◌, ◌++◌, map, length, length-append, leb, nat_eq, is_empty, if◌then◌else◌,
  arith, Bool-cases,
}
use hubble_ui.Utils.Combinations.{
  Combinations, product, zeros, new, advance, advance_indices, next, as_array,
}

-- The tuples that start with one of `k` indices from `j` on
blocks : ℕ → ℕ → List (List ℕ) → List (List ℕ)
blocks zero j ts = []
blocks (suc k) j ts = map (◌∷◌ j) ts ++ blocks k (j + 1) ts

-- All tuples of indices below the sizes, in lexicographic order
pub tuples : List ℕ → List (List ℕ)
unfolding blocks
tuples [] = [] ∷ []
tuples (n ∷ ns) = blocks n 0 (tuples ns)

-- The tuples from one on
remaining : List ℕ → List ℕ → List (List ℕ)
remaining (n ∷ ns) (i ∷ is) =
    map (◌∷◌ i) (remaining ns is) ++ blocks (n - (i + 1)) (i + 1) (tuples ns)
remaining _ _ = [] ∷ []

-- Each index is below its size.
abbrev AreBelow : List ℕ → List ℕ → Type 0
AreBelow [] [] = Unit
AreBelow (n ∷ ns) (i ∷ is) = (i < n) × AreBelow ns is
AreBelow _ _ = ⊥

length-map : {A B : Type 0} (f : A → B) (xs : List A) → length (map f xs) ≡ length xs
length-map f [] = refl
length-map f (x ∷ xs) = ap suc (length-map f xs)

length-blocks : (k j : ℕ) (ts : List (List ℕ)) → length (blocks k j ts) ≡ k * length ts
unfolding blocks
length-blocks zero j ts = omega arith
length-blocks (suc k) j ts = grind (
  arith,
  length-append (map (◌∷◌ j) ts) (blocks k (j + 1) ts),
  length-map (◌∷◌ j) ts,
  length-blocks k (j + 1) ts,
)

length-tuples : (ns : List ℕ) → length (tuples ns) ≡ product ns
unfolding tuples product
length-tuples [] = refl
length-tuples (n ∷ ns) = length-blocks n 0 (tuples ns) ∙ ap (λ (t : ℕ). n * t) (length-tuples ns)

remaining-zeros : (ns : List ℕ) → AreBelow ns (zeros ns) → remaining ns (zeros ns) ≡ tuples ns
unfolding remaining tuples zeros blocks
remaining-zeros [] h = refl
remaining-zeros (zero ∷ ns) h = absurd (omega arith)
remaining-zeros (suc n ∷ ns) (p, h) = ground (arith, remaining-zeros ns h)

blocks-step :
    (n i : ℕ) (ts : List (List ℕ))
    → i + 1 < n
    → blocks (n - (i + 1)) (i + 1) ts
      ≡ map (◌∷◌ (i + 1)) ts ++ blocks (n - (i + 1 + 1)) (i + 1 + 1) ts
unfolding blocks
blocks-step n i ts h = let e : n - (i + 1) ≡ suc (n - (i + 1 + 1)) = omega arith in rw e refl

blocks_none : (k j : ℕ) (ts : List (List ℕ)) → k ≡ 0 → blocks k j ts ≡ []
unfolding blocks
blocks_none k j ts h = rw h refl

wraps : (n i : ℕ) → i + 1 ≡ n → (i + 1) % n ≡ 0
wraps n i e = grind (arith, e)

-- One step: the tuple is taken off; with a carry it was the last one, and the indices are zero.
advance_lem :
    (ns is : List ℕ)
    → AreBelow ns is
    → (remaining ns is ≡ is ∷ (if (advance ns is).1 then [] else remaining ns (advance ns is).0))
      × AreBelow ns (advance ns is).0
      × ((advance ns is).1 ≡ true → (advance ns is).0 ≡ zeros ns)
unfolding remaining advance zeros blocks
advance_lem [] [] h = (refl, tt, λ e. refl)
advance_lem [] (i ∷ is) h = elim h [ ]
advance_lem (n ∷ ns) [] h = elim h [ ]
advance_lem (n ∷ ns) (i ∷ is) (p, h) =
    let (taken, below, wrapped) = advance_lem ns is h in
    elim (Bool-cases (advance ns is).1) [
      | inr stays ↦ rw stays (ground (arith, taken, stays), (p, below), λ e. cc)
      | inl carried ↦ elim (Bool-cases (leb n (i + 1))) [
        | inl last ↦
            let e : i + 1 ≡ n = ground arith in
            let m : (i + 1) % n ≡ 0 = wraps n i e in
            rw (carried, last)
              (
                ground (arith, taken, carried, blocks_none (n - (i + 1)) (i + 1) (tuples ns)),
                (omega (arith, m), below),
                λ _. ground (arith, m, wrapped carried),
              )
        | inr more ↦
            let lt : i + 1 < n = ground arith in
            let m : (i + 1) % n ≡ i + 1 = mod-eq_of_lt lt in
            let zero_left : remaining ns (advance ns is).0 ≡ tuples ns =
              ap (remaining ns) (wrapped carried)
              ∙ remaining-zeros ns (subst (AreBelow ns) (wrapped carried) below) in
            rw (carried, more)
              (
                ground (arith, taken, carried, m, zero_left, blocks-step n i (tuples ns) lt),
                (omega (arith, m), below),
                λ e. cc,
              )
      ]
    ]

-- Without a size none of the indices is there to be wrapped.
not_empty : (ns is : List ℕ) → AreBelow ns is → is_empty ns ≡ false → is_empty is ≡ false
not_empty [] is below h = cc
not_empty (n ∷ ns) [] below h = elim below [ ]
not_empty (n ∷ ns) (i ∷ is) below h = refl

abbrev going : List ℕ → List ℕ → Bool → ℕ → Combinations
going ns is stop total = record { tuple_sizes = ns; indices = is; stop = stop; ntuples = total }

as_array-stopped :
    (fuel : ℕ) (ns is : List ℕ) (total : ℕ)
    → 0 < fuel
    → as_array fuel (going ns is true total) ≡ some []
unfolding as_array next
as_array-stopped zero ns is total h = absurd (omega arith)
as_array-stopped (suc fuel) ns is total h = refl

-- With a round for each tuple that remains and one more, the loop collects just those.
as_array-remaining :
    (fuel : ℕ) (ns is : List ℕ) (total : ℕ)
    → is_empty ns ≡ false
    → AreBelow ns is
    → length (remaining ns is) < fuel
    → as_array fuel (going ns is false total) ≡ some (remaining ns is)
unfolding as_array next advance_indices
as_array-remaining zero ns is total some_size below enough = absurd (omega arith)
as_array-remaining (suc fuel) ns is total some_size below enough =
    let (taken, below', wrapped) = advance_lem ns is below in
    let some_index = not_empty ns is below some_size in
    let is' = (advance ns is).0 in
    elim (Bool-cases (advance ns is).1) [
      | inl carried ↦
          let last : remaining ns is ≡ is ∷ [] = ground (arith, taken, carried) in
          let n : length (remaining ns is) ≡ 1 = ap length last in
          rw (some_index, carried, last)
            (ap (Option.map (◌∷◌ is)) (as_array-stopped fuel ns is' total (omega (arith, n))))
      | inr stays ↦
          let more : remaining ns is ≡ is ∷ remaining ns is' = ground (arith, taken, stays) in
          let n : length (remaining ns is) ≡ suc (length (remaining ns is')) = ap length more in
          rw (some_index, stays, more)
            (ap (Option.map (◌∷◌ is))
              (as_array-remaining fuel ns is' total some_size below' (omega (arith, n))))
    ]

zeros-AreBelow : (ns : List ℕ) → product ns ≢ 0 → AreBelow ns (zeros ns)
unfolding zeros product
zeros-AreBelow [] h = tt
zeros-AreBelow (zero ∷ ns) h = absurd (h (omega arith))
zeros-AreBelow (suc n ∷ ns) h =
    (omega arith, zeros-AreBelow ns (λ e. h (omega (arith, ap (λ (t : ℕ). suc n * t) e))))

no_tuples : (ns : List ℕ) → product ns ≡ 0 → tuples ns ≡ []
no_tuples ns h = none_left (tuples ns) (length-tuples ns ∙ h)
  where
    none_left : (ts : List (List ℕ)) → length ts ≡ 0 → ts ≡ []
    none_left [] e = refl
    none_left (t ∷ ts) e = absurd (omega arith)

-- For one size or more, the loop of `asArray` is over after one round more than there are tuples,
-- the product of the sizes, and has collected all tuples of indices below the sizes, in
-- lexicographic order.
pub as_array-new :
    (n : ℕ) (ns : List ℕ) → as_array (product (n ∷ ns) + 1) (new (n ∷ ns)) ≡ some (tuples (n ∷ ns))
unfolding new
as_array-new n ns = elim (Bool-cases (nat_eq (product (n ∷ ns)) 0)) [
  | inl empty ↦
      let e : product (n ∷ ns) ≡ 0 = ground arith in
      rw (empty, no_tuples (n ∷ ns) e)
        (as_array-stopped (product (n ∷ ns) + 1) (n ∷ ns) (zeros (n ∷ ns)) _ (omega arith))
  | inr filled ↦
      let e : product (n ∷ ns) ≢ 0 = ground arith in
      let below = zeros-AreBelow (n ∷ ns) e in
      let all : remaining (n ∷ ns) (zeros (n ∷ ns)) ≡ tuples (n ∷ ns) =
        remaining-zeros (n ∷ ns) below in
      rw filled (
        as_array-remaining (product (n ∷ ns) + 1) (n ∷ ns) (zeros (n ∷ ns)) _ refl below
          (omega (arith, ap length all, length-tuples (n ∷ ns)))
        ∙ ap some all)
]

forever : (fuel : ℕ) → as_array fuel (going [] [] false 1) ≡ none
unfolding as_array next advance_indices advance
forever zero = refl
forever (suc fuel) = ap (Option.map (◌∷◌ [])) (forever fuel)

-- Without sizes the loop of `asArray` is never over: no number of rounds suffices.
as_array-no_sizes : (fuel : ℕ) → as_array fuel (new []) ≡ none
unfolding new product zeros
as_array-no_sizes fuel = forever fuel
