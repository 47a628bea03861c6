-- ===== src/Prelude/Sets.antt =====
-- `Set`: the elements in the order of insertion, each once.
use Prim.Native.Nat.{suc, ◌≤◌}
use mathlib.Core.Path.{◌≡◌, refl}
use mathlib.Core.Logic.{◌↔◌, inl, inr}
use mathlib.Core.Bool.{Bool, true, false, ◌&&◌, ◌||◌}
use mathlib.Core.List.{List, [], ◌∷◌, ◌++◌}
use native.Mathlib.Omega.{arith}
use hubble_ui.Prelude.Tests.{Eq, ◌==◌, eq_iff, eq_refl, nat_eq, Bool-cases, Bool-ext, if◌then◌else◌}
use hubble_ui.Prelude.Lists.{length, all}

module _ {ℓ} {A : Type ℓ} ⦃e : Eq A⦄ where
  -- `set.has(k)`, and `array.includes(k)`
  unfoldable pub has : A → List A → Bool
  has k [] = false
  has k (x ∷ xs) = (x == k) || has k xs

  -- `set.add(x)`
  unfoldable pub add : A → List A → List A
  add x s = if has x s then s else s ++ x ∷ []

  unfoldable pub add_all : List A → List A → List A
  add_all [] s = s
  add_all (x ∷ xs) s = add_all xs (add x s)

  -- `new Set(array)`
  unfoldable pub from_list : List A → List A
  from_list xs = add_all xs []

  -- `set.delete(x)`; of a set each element stands once
  unfoldable pub remove : A → List A → List A
  remove x [] = []
  remove x (y ∷ ys) = let rest = remove x ys in if y == x then ys else y ∷ rest

  abbrev pub IsDistinct : List A → Type 0
  IsDistinct [] = Unit
  IsDistinct (x ∷ xs) = (has x xs ≡ false) × IsDistinct xs

  -- Both have the same elements.
  abbrev pub SameElements : List A → List A → Type ℓ
  SameElements xs ys = (k : A) → has k xs ≡ has k ys

  -- The two loops by which the program compares sets: sizes, then each element.
  unfoldable pub same_set : List A → List A → Bool
  same_set xs ys = nat_eq (length xs) (length ys) && all (λ x. has x ys) xs

module _ {ℓ} {A : Type ℓ} ⦃e : Eq A⦄ where
  pub has-append : (k : A) (xs ys : List A) → has k (xs ++ ys) ≡ (has k xs || has k ys)
  unfolding has
  has-append k [] ys = refl
  has-append k (x ∷ xs) ys = ground (arith, has-append k xs ys)

  pub has-add : (k x : A) (s : List A) → has k (add x s) ≡ ((x == k) || has k s)
  unfolding add has
  has-add k x s = elim (Bool-cases (has x s)) [
    | inl old ↦ elim (Bool-cases (x == k)) [
      | inl same ↦ ground (arith, (eq_iff x k).0 same)
      | inr other ↦ ground arith
    ]
    | inr new ↦ ground (arith, has-append k s (x ∷ []))
  ]

  pub append-IsDistinct :
      (x : A) (s : List A) → has x s ≡ false → IsDistinct s → IsDistinct (s ++ x ∷ [])
  unfolding has
  append-IsDistinct x [] h d = (refl, tt)
  append-IsDistinct x (y ∷ ys) h (new, d) = (
    ground (arith, has-append y ys (x ∷ []), eq_iff x y, eq_iff y x),
    append-IsDistinct x ys (ground arith) d,
  )

  pub add-IsDistinct : (x : A) (s : List A) → IsDistinct s → IsDistinct (add x s)
  unfolding add
  add-IsDistinct x s d = elim (Bool-cases (has x s)) [
    | inl old ↦ ground arith
    | inr new ↦ ground (arith, append-IsDistinct x s new d)
  ]

  pub has-add_all : (k : A) (xs s : List A) → has k (add_all xs s) ≡ (has k s || has k xs)
  unfolding add_all has
  has-add_all k [] s = ground arith
  has-add_all k (x ∷ xs) s = ground (arith, has-add_all k xs (add x s), has-add k x s)

  pub has-from_list : (k : A) (xs : List A) → has k (from_list xs) ≡ has k xs
  unfolding from_list has
  has-from_list k xs = has-add_all k xs []

  pub add_all-IsDistinct : (xs s : List A) → IsDistinct s → IsDistinct (add_all xs s)
  unfolding add_all
  add_all-IsDistinct [] s d = d
  add_all-IsDistinct (x ∷ xs) s d = add_all-IsDistinct xs (add x s) (add-IsDistinct x s d)

  pub from_list-IsDistinct : (xs : List A) → IsDistinct (from_list xs)
  unfolding from_list
  from_list-IsDistinct xs = add_all-IsDistinct xs [] tt

  has-remove_ne : (k x : A) (s : List A) → (x == k) ≡ false → has k (remove x s) ≡ has k s
  unfolding remove has
  has-remove_ne k x [] h = refl
  has-remove_ne k x (y ∷ ys) h = ground (arith, eq_iff y x, has-remove_ne k x ys h)

  length-remove : (x : A) (s : List A) → has x s ≡ true → suc (length (remove x s)) ≡ length s
  unfolding remove has
  length-remove x [] h = ground arith
  length-remove x (y ∷ ys) h = ground (arith, length-remove x ys)

  all-has_iff :
      (xs ys : List A)
      → (all (λ x. has x ys) xs ≡ true) ↔ ((k : A) → has k xs ≡ true → has k ys ≡ true)
  unfolding all has
  all-has_iff [] ys = (λ _ k h. ground arith, λ _. refl)
  all-has_iff (x ∷ xs) ys = (
    λ h k m. ground (arith, eq_iff x k, (all-has_iff xs ys).0 (ground arith) k),
    λ h. ground (arith, h x, eq_refl x, (all-has_iff xs ys).1 (λ k m. h k (ground (arith, m)))),
  )

  -- Distinct elements that all lie in a second list are no more than it holds.
  length-le_of_subset :
      (xs ys : List A)
      → IsDistinct xs
      → ((k : A) → has k xs ≡ true → has k ys ≡ true)
      → length xs ≤ length ys
  unfolding has
  length-le_of_subset [] ys d h = omega arith
  length-le_of_subset (x ∷ xs) ys (new, d) h =
      let inside : has x ys ≡ true = h x (ground (arith, eq_refl x)) in
      omega (
        arith,
        length-remove x ys inside,
        length-le_of_subset xs (remove x ys) d
            (λ k m. ground (arith, h k, m, has-remove_ne k x ys, eq_iff x k, new)),
      )

  -- If they are no fewer, they are all of it.
  subset_of_length-le :
      (xs ys : List A)
      → IsDistinct xs
      → ((k : A) → has k xs ≡ true → has k ys ≡ true)
      → length ys ≤ length xs
      → (k : A) → has k ys ≡ true
      → has k xs ≡ true
  unfolding has
  subset_of_length-le [] [] d h le k m = m
  subset_of_length-le [] (y ∷ ys) d h le k m = absurd (omega arith)
  subset_of_length-le (x ∷ xs) ys (new, d) h le k m =
      let inside : has x ys ≡ true = h x (ground (arith, eq_refl x)) in
      let smaller : length (remove x ys) ≤ length xs = omega (arith, length-remove x ys inside) in
      let within : (j : A) → has j xs ≡ true → has j (remove x ys) ≡ true =
        λ j p. ground (arith, h j, p, has-remove_ne j x ys, eq_iff x j, new) in
      ground (arith, has-remove_ne k x ys, subset_of_length-le xs (remove x ys) d within smaller k)

  -- Sizes and one inclusion decide equality of sets.
  pub same_set_iff :
      (xs ys : List A)
      → IsDistinct xs
      → IsDistinct ys
      → (same_set xs ys ≡ true) ↔ SameElements xs ys
  unfolding same_set
  same_set_iff xs ys dx dy = (
    λ h k.
        let within = (all-has_iff xs ys).0 (ground arith) in
        Bool-ext (has k xs) (has k ys) (within k)
          (subset_of_length-le xs ys dx within (ground arith) k),
    λ h. ground (
      arith,
      (all-has_iff xs ys).1 (λ k m. ground (arith, h k, m)),
      length-le_of_subset xs ys dx (λ k m. ground (arith, h k, m)),
      length-le_of_subset ys xs dy (λ k m. ground (arith, h k, m)),
    ),
  )
