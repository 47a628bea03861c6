-- ===== src/Prelude/Sorting.antt =====
-- `Array.prototype.sort`, which is stable, by a test whether an element may stand before another;
-- and what stands first in the sorted array.
use Prim.Native.Nat.{ℕ, zero, suc, ◌≤◌}
use mathlib.Core.Path.{◌≡◌, refl, ◌∙◌, ap, subst}
use mathlib.Core.Logic.{◌⊎◌, inl, inr}
use mathlib.Core.Bool.{Bool, false, ◌||◌}
use mathlib.Core.Option.{Option, some}
use mathlib.Core.List.Perm
use mathlib.Core.List.{Perm, List, [], ◌∷◌, map}
use native.Mathlib.Omega.{arith}
use hubble_ui.Prelude.Tests.{Eq, ◌==◌, eq_iff, Bool-cases, leb, if◌then◌else◌}
use hubble_ui.Prelude.Lists.{length, take, find, All}
use hubble_ui.Prelude.Sets.{has, IsDistinct}

module _ {A : Type 0} (before : A → A → Bool) where
  unfoldable pub insert : A → List A → List A
  insert x [] = x ∷ []
  insert x (y ∷ ys) = let rest = insert x ys in if before x y then x ∷ y ∷ ys else y ∷ rest

  unfoldable pub sort : List A → List A
  unfolding insert
  sort [] = []
  sort (x ∷ xs) = insert x (sort xs)

module _ {A : Type 0} (before : A → A → Bool) where
  insert-perm : (x : A) (ys : List A) → Perm (insert before x ys) (x ∷ ys)
  unfolding insert
  insert-perm x [] = Perm.refl (x ∷ [])
  insert-perm x (y ∷ ys) = elim (Bool-cases (before x y)) [
    | inl first ↦ rw first (Perm.refl (x ∷ y ∷ ys))
    | inr later ↦ rw later (Perm.trans (Perm.cons y (insert-perm x ys)) (Perm.swap x y ys))
  ]

  pub sort-perm : (xs : List A) → Perm (sort before xs) xs
  unfolding sort
  sort-perm [] = Perm.refl []
  sort-perm (x ∷ xs) = Perm.trans (insert-perm x (sort before xs)) (Perm.cons x (sort-perm xs))

module _ {A : Type 0} (before : A → A → Bool) (P : A → Type 0) where
  pub All-insert : (x : A) (ys : List A) → P x → All P ys → All P (insert before x ys)
  unfolding insert
  All-insert x [] h hs = (h, tt)
  All-insert x (y ∷ ys) h (hy, hs) = elim (Bool-cases (before x y)) [
    | inl first ↦ rw first (h, (hy, hs))
    | inr later ↦ rw later (hy, All-insert x ys h hs)
  ]

  pub All-sort : (xs : List A) → All P xs → All P (sort before xs)
  unfolding sort
  All-sort [] h = tt
  All-sort (x ∷ xs) (h, hs) = All-insert x (sort before xs) h (All-sort xs hs)

-- The element with a key
abbrev pub of_key : {K A : Type 0} → ⦃e : Eq K⦄ → (key : A → K) → K → List A → Option A
of_key key k xs = find (λ x. key x == k) xs

-- Elements with distinct keys
module _ {K A : Type 0} ⦃e : Eq K⦄ (before : A → A → Bool) (key : A → K) where
  has-insert :
      (k : K) (x : A) (ys : List A)
      → has k (map key (insert before x ys)) ≡ has k (key x ∷ map key ys)
  unfolding insert has
  has-insert k x [] = refl
  has-insert k x (y ∷ ys) = elim (Bool-cases (before x y)) [
    | inl first ↦ rw first refl
    | inr later ↦ rw later (ground (arith, has-insert k x ys))
  ]

  has-sort : (k : K) (xs : List A) → has k (map key (sort before xs)) ≡ has k (map key xs)
  unfolding sort has
  has-sort k [] = refl
  has-sort k (x ∷ xs) =
      has-insert k x (sort before xs) ∙ ap (λ (b : Bool). (key x == k) || b) (has-sort k xs)

  insert-IsDistinct :
      (x : A) (ys : List A)
      → has (key x) (map key ys) ≡ false
      → IsDistinct (map key ys)
      → IsDistinct (map key (insert before x ys))
  unfolding insert has
  insert-IsDistinct x [] new d = (refl, tt)
  insert-IsDistinct x (y ∷ ys) new (other, d) = elim (Bool-cases (before x y)) [
    | inl first ↦ rw first (new, (other, d))
    | inr later ↦ rw later (
      ground (arith, has-insert (key y) x ys, eq_iff (key x) (key y), eq_iff (key y) (key x)),
      insert-IsDistinct x ys (ground arith) d,
    )
  ]

  pub sort-IsDistinct :
      (xs : List A) → IsDistinct (map key xs) → IsDistinct (map key (sort before xs))
  unfolding sort
  sort-IsDistinct [] d = tt
  sort-IsDistinct (x ∷ xs) (new, d) =
      insert-IsDistinct x (sort before xs) (has-sort (key x) xs ∙ new) (sort-IsDistinct xs d)

  of_key-insert :
      (k : K) (x : A) (ys : List A)
      → has (key x) (map key ys) ≡ false
      → of_key key k (insert before x ys) ≡ of_key key k (x ∷ ys)
  unfolding insert find has
  of_key-insert k x [] new = refl
  of_key-insert k x (y ∷ ys) new = elim (Bool-cases (before x y)) [
    | inl first ↦ rw first refl
    | inr later ↦ rw later (
        ground
          (arith, of_key-insert k x ys, eq_iff (key x) k, eq_iff (key y) k, eq_iff (key y) (key x)))
  ]

  pub of_key-sort :
      (k : K) (xs : List A)
      → IsDistinct (map key xs)
      → of_key key k (sort before xs) ≡ of_key key k xs
  unfolding sort find
  of_key-sort k [] d = refl
  of_key-sort k (x ∷ xs) (new, d) =
      of_key-insert k x (sort before xs) (has-sort (key x) xs ∙ new)
      ∙ ground (arith, of_key-sort k xs d)

-- No element has a greater value than one before it.
abbrev pub IsDescending : {A : Type 0} → (value : A → ℕ) → List A → Type 0
IsDescending value [] = Unit
IsDescending value (x ∷ xs) = All (λ y. value y ≤ value x) xs × IsDescending value xs

All-lower :
    {A : Type 0} (value : A → ℕ) (m n : ℕ) (xs : List A)
    → m ≤ n
    → All (λ y. value y ≤ m) xs
    → All (λ y. value y ≤ n) xs
All-lower value m n [] le h = tt
All-lower value m n (x ∷ xs) le (h, hs) = (omega arith, All-lower value m n xs le hs)

-- A test that compares the values of the elements that have one
module _ {A : Type 0} (before : A → A → Bool) (P : A → Type 0) (value : A → ℕ)
    (compares : (x y : A) → P x → P y → before x y ≡ leb (value y) (value x)) where
  insert-IsDescending :
      (x : A) (ys : List A)
      → P x
      → All P ys
      → IsDescending value ys
      → IsDescending value (insert before x ys)
  unfolding insert
  insert-IsDescending x [] h hs d = (tt, tt)
  insert-IsDescending x (y ∷ ys) h (hy, hs) (dy, d) = elim (Bool-cases (before x y)) [
    | inl first ↦
        let le : value y ≤ value x = ground (arith, compares x y h hy) in
        rw first ((le, All-lower value (value y) (value x) ys le dy), (dy, d))
    | inr later ↦
        let le : value x ≤ value y = ground (arith, compares x y h hy) in
        rw later
          (All-insert before (λ z. value z ≤ value y) x ys le dy, insert-IsDescending x ys h hs d)
  ]

  pub sort-IsDescending : (xs : List A) → All P xs → IsDescending value (sort before xs)
  unfolding sort
  sort-IsDescending [] h = tt
  sort-IsDescending (x ∷ xs) (h, hs) =
      insert-IsDescending x (sort before xs) h (All-sort before P xs hs) (sort-IsDescending xs hs)

-- The first elements of an array
pub length-take-le : {A : Type 0} (n : ℕ) (xs : List A) → length (take n xs) ≤ n
length-take-le zero xs = omega arith
length-take-le (suc n) [] = omega arith
length-take-le (suc n) (x ∷ xs) = omega (arith, length-take-le n xs)

All-take : {A : Type 0} (P : A → Type 0) (n : ℕ) (xs : List A) → All P xs → All P (take n xs)
All-take P zero xs h = tt
All-take P (suc n) [] h = tt
All-take P (suc n) (x ∷ xs) (h, hs) = (h, All-take P n xs hs)

pub take-IsDescending :
    {A : Type 0} (value : A → ℕ) (n : ℕ) (xs : List A)
    → IsDescending value xs
    → IsDescending value (take n xs)
take-IsDescending value zero xs d = tt
take-IsDescending value (suc n) [] d = tt
take-IsDescending value (suc n) (x ∷ xs) (h, d) =
    (All-take (λ y. value y ≤ value x) n xs h, take-IsDescending value n xs d)

module _ {K A : Type 0} ⦃e : Eq K⦄ (key : A → K) where
  has-take :
      (k : K) (n : ℕ) (xs : List A)
      → has k (map key xs) ≡ false
      → has k (map key (take n xs)) ≡ false
  unfolding has
  has-take k zero xs h = refl
  has-take k (suc n) [] h = refl
  has-take k (suc n) (x ∷ xs) h = ground (arith, has-take k n xs)

  pub take-IsDistinct :
      (n : ℕ) (xs : List A) → IsDistinct (map key xs) → IsDistinct (map key (take n xs))
  take-IsDistinct zero xs d = tt
  take-IsDistinct (suc n) [] d = tt
  take-IsDistinct (suc n) (x ∷ xs) (new, d) = (has-take (key x) n xs new, take-IsDistinct n xs d)

  pub of_key-take :
      (k : K) (a : A) (n : ℕ) (xs : List A)
      → of_key key k (take n xs) ≡ some a
      → of_key key k xs ≡ some a
  unfolding find
  of_key-take k a zero xs h = absurd (ground (arith, h))
  of_key-take k a (suc n) [] h = h
  of_key-take k a (suc n) (x ∷ xs) h = ground (arith, h, of_key-take k a n xs)

  pub All-of_key :
      (P : A → Type 0) (k : K) (a : A) (xs : List A) → All P xs → of_key key k xs ≡ some a → P a
  unfolding find
  All-of_key P k a [] h p = absurd (ground (arith, p))
  All-of_key P k a (x ∷ xs) (h, hs) p = elim (Bool-cases (key x == k)) [
    | inl this ↦ subst P (ground (arith, p)) h
    | inr other ↦ All-of_key P k a xs hs (ground (arith, p))
  ]

  -- An element is among the first ones, or they are as many as are taken and none is lower.
  pub take-keeps :
      (value : A → ℕ) (k : K) (a : A) (n : ℕ) (xs : List A)
      → IsDescending value xs
      → of_key key k xs ≡ some a
      → (of_key key k (take n xs) ≡ some a)
        ⊎ ((length (take n xs) ≡ n) × All (λ x. value a ≤ value x) (take n xs))
  unfolding find
  take-keeps value k a zero xs d p = inr (refl, tt)
  take-keeps value k a (suc n) [] d p = absurd (ground (arith, p))
  take-keeps value k a (suc n) (x ∷ xs) (h, d) p = elim (Bool-cases (key x == k)) [
    | inl this ↦ inl (ground (arith, p))
    | inr other ↦
        let later : of_key key k xs ≡ some a = ground (arith, p) in
        elim (take-keeps value k a n xs d later) [
          | inl kept ↦ inl (ground (arith, kept))
          | inr (full, low) ↦
              inr (ap suc full, (All-of_key (λ y. value y ≤ value x) k a xs h later, low))
        ]
  ]
