-- ===== src/Prelude/Maps.antt =====
-- `Map`: the entries in the order in which their keys were first set, each key once.
use mathlib.Core.Path.{◌≡◌, refl, subst}
use mathlib.Core.Bool.{Bool, true, false, ◌||◌}
use mathlib.Core.Option.{Option, none, some}
use mathlib.Core.List.{List, [], ◌∷◌, map}
use native.Mathlib.Omega.{arith}
use mathlib.Core.Logic.{inl, inr}
use hubble_ui.Prelude.Lists.{All}
use hubble_ui.Prelude.Tests.{Eq, ◌==◌, eq_iff, Bool-cases, if◌then◌else◌}
use hubble_ui.Prelude.Sets.{has, IsDistinct}

module _ {ℓ κ} {K : Type ℓ} {V : Type κ} ⦃e : Eq K⦄ where
  -- `m.get(k)`
  unfoldable pub get : K → List (K × V) → Option V
  get k [] = none
  get k ((j, v) ∷ m) = if j == k then some v else get k m

  -- `m.set(k, v)`: an old key keeps its place.
  unfoldable pub put : K → V → List (K × V) → List (K × V)
  put k v [] = (k, v) ∷ []
  put k v ((j, w) ∷ m) = let rest = put k v m in if j == k then (j, v) ∷ m else (j, w) ∷ rest

  -- `m.delete(k)`: each key stands once.
  unfoldable pub delete : K → List (K × V) → List (K × V)
  delete k [] = []
  delete k ((j, v) ∷ m) = let rest = delete k m in if j == k then rest else (j, v) ∷ rest

module _ {ℓ κ} {K : Type ℓ} {V : Type κ} where
  abbrev pub keys : List (K × V) → List K
  keys = map (λ p. p.0)

  abbrev pub values : List (K × V) → List V
  values = map (λ p. p.1)

abbrev pub is_some {ℓ} : {A : Type ℓ} → Option A → Bool
is_some none = false
is_some (some _) = true

module _ {ℓ κ} {K : Type ℓ} {V : Type κ} ⦃e : Eq K⦄ where
  pub get-put :
      (k j : K) (v : V) (m : List (K × V))
      → get j (put k v m) ≡ (if k == j then some v else get j m)
  unfolding get put
  get-put k j v [] = refl
  get-put k j v ((i, w) ∷ m) = ground (arith, eq_iff k j, eq_iff i k, eq_iff i j, get-put k j v m)

  pub get-delete :
      (k j : K) (m : List (K × V)) → get j (delete k m) ≡ (if k == j then none else get j m)
  unfolding get delete
  get-delete k j [] = ground arith
  get-delete k j ((i, v) ∷ m) = ground (arith, eq_iff k j, eq_iff i k, eq_iff i j, get-delete k j m)

  -- `m.has(k)` agrees with `m.get(k) !== undefined`, and with the keys.
  pub has-keys : (k : K) (m : List (K × V)) → has k (keys m) ≡ is_some (get k m)
  unfolding get has
  has-keys k [] = refl
  has-keys k ((j, v) ∷ m) = ground (arith, has-keys k m)

  pub has-keys-put :
      (k j : K) (v : V) (m : List (K × V)) → has j (keys (put k v m)) ≡ ((k == j) || has j (keys m))
  unfolding put has
  has-keys-put k j v [] = refl
  has-keys-put k j v ((i, w) ∷ m) = ground (arith, eq_iff i k, has-keys-put k j v m)

  pub put-IsDistinct :
      (k : K) (v : V) (m : List (K × V)) → IsDistinct (keys m) → IsDistinct (keys (put k v m))
  unfolding put has
  put-IsDistinct k v [] d = (refl, tt)
  put-IsDistinct k v ((i, w) ∷ m) (new, d) =
      ground (arith, has-keys-put k i v m, eq_iff k i, eq_iff i k, put-IsDistinct k v m d)

module _ {ℓ κ μ} {K : Type ℓ} {V : Type κ} ⦃e : Eq K⦄ (Q : V → Type μ) where
  -- What holds of each value still holds after a value with it is set.
  pub All-put :
      (k : K) (v : V) (m : List (K × V)) → All (λ p. Q p.1) m → Q v → All (λ p. Q p.1) (put k v m)
  unfolding put
  All-put k v [] h q = (q, tt)
  All-put k v ((j, w) ∷ m) (h, hs) q = elim (Bool-cases (j == k)) [
    | inl same ↦ rw same (q, hs)
    | inr other ↦ rw other (h, All-put k v m hs q)
  ]

  pub All-get : (k : K) (v : V) (m : List (K × V)) → All (λ p. Q p.1) m → get k m ≡ some v → Q v
  unfolding get
  All-get k v [] h g = cc
  All-get k v ((j, w) ∷ m) (h, hs) g = elim (Bool-cases (j == k)) [
    | inl same ↦ subst Q (ground (arith, same)) h
    | inr other ↦ All-get k v m hs (ground (arith, other))
  ]
