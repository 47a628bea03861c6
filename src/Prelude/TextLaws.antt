-- ===== src/Prelude/TextLaws.antt =====
-- Laws of the text methods: what a text does not hold, splitting and joining.
use mathlib.Core.List.{reverse, reverse-cons}
use hubble_ui.Prelude.Tests.{nat_eq_iff, nat_eq, Bool-cases}
use hubble_ui.Prelude.Lists.{length, drop, All, All-append}
use hubble_ui.Prelude.Text.{
  Str, starts_with, index_of, split_by, split, join, remove_first, cons_head,
}
use Prim.Native.Nat.{ℕ, zero, suc}
use mathlib.Core.Path.{◌≡◌, refl, ap, ◌∙◌}
use mathlib.Core.Logic.{◌⊎◌, inl, inr, ◌≢◌, inl, inr}
use mathlib.Core.Bool.{Bool}
use mathlib.Core.Option.{none, some}
use mathlib.Core.List.{List, [], ◌∷◌, ◌++◌}
use native.Mathlib.Omega.{arith}

-- The text has no unit `c`.
abbrev pub Lacks : ℕ → Str → Type 0
Lacks c = All (λ d. d ≢ c)

module _ {κ} (P : ℕ → Type κ) where
  pub All-reverse : (s : Str) → All P s → All P (reverse s)
  All-reverse [] h = tt
  All-reverse (c ∷ s) (p, h) =
      rw (reverse-cons c s) (All-append P (reverse s) (c ∷ []) (All-reverse s h) (p, tt))

  pub All-drop : (n : ℕ) (s : Str) → All P s → All P (drop n s)
  All-drop zero s h = h
  All-drop (suc n) [] h = h
  All-drop (suc n) (c ∷ s) h = All-drop n s h.1

  pub All-remove_first : (part s : Str) → All P s → All P (remove_first part s)
  unfolding remove_first starts_with
  All-remove_first part [] h = h
  All-remove_first part (c ∷ s) h = elim (Bool-cases (starts_with (c ∷ s) part)) [
    | inl at_front ↦ rw at_front (All-drop (length part) (c ∷ s) h)
    | inr later ↦ rw later (h.0, All-remove_first part s h.1)
  ]

pub split_by-ne-nil : (sep : ℕ → Bool) (s : Str) → split_by sep s ≢ []
unfolding split_by
split_by-ne-nil sep [] e = cc
split_by-ne-nil sep (c ∷ s) e = ground (arith, split_by-ne-nil sep s)

join-cons_nil :
    (sep : Str) (parts : List Str) → parts ≢ [] → join sep ([] ∷ parts) ≡ sep ++ join sep parts
unfolding join
join-cons_nil sep [] ne = absurd (ne refl)
join-cons_nil sep (part ∷ parts) ne = refl

join-cons_head :
    (sep : Str) (c : ℕ) (parts : List Str)
    → parts ≢ []
    → join sep (cons_head c parts) ≡ c ∷ join sep parts
unfolding join
join-cons_head sep c [] ne = absurd (ne refl)
join-cons_head sep c (part ∷ []) ne = refl
join-cons_head sep c (part ∷ next ∷ parts) ne = refl

-- Joining what a separator split gives the text back.
pub join-split : (sep : ℕ) (s : Str) → join (sep ∷ []) (split sep s) ≡ s
unfolding split split_by
join-split sep [] = unfold join in refl
join-split sep (c ∷ s) =
    let ne = split_by-ne-nil (λ d. nat_eq d sep) s in
    ground (
      arith,
      join-cons_nil (sep ∷ []) (split sep s) ne,
      join-cons_head (sep ∷ []) c (split sep s) ne,
      join-split sep s,
    )

-- A text without the separator is its own only part.
pub split-Lacks : (sep : ℕ) (s : Str) → Lacks sep s → split sep s ≡ s ∷ []
unfolding split split_by
split-Lacks sep [] h = refl
split-Lacks sep (c ∷ s) (h, k) = ground (arith, split-Lacks sep s k)

-- The first separator ends the first part.
pub split-append : (sep : ℕ) (s t : Str) → Lacks sep s → split sep (s ++ sep ∷ t) ≡ s ∷ split sep t
unfolding split split_by
split-append sep [] t h = ground arith
split-append sep (c ∷ s) t (h, k) = ground (arith, split-append sep s t k)

pub index_of-append : (c : ℕ) (s t : Str) → Lacks c s → index_of c (s ++ c ∷ t) ≡ some (length s)
unfolding index_of
index_of-append c [] t h = ground arith
index_of-append c (d ∷ s) t (h, k) = ground (arith, index_of-append c s t k)

pub index_of-Lacks : (c : ℕ) (s : Str) → Lacks c s → index_of c s ≡ none
unfolding index_of
index_of-Lacks c [] h = refl
index_of-Lacks c (d ∷ s) (h, k) = ground (arith, index_of-Lacks c s k)

-- Either the text has no separator, or it is cut at the first.
pub split-cases :
    (sep : ℕ) (s : Str)
    → (Lacks sep s × (split sep s ≡ s ∷ []))
      ⊎ ((head tail : Str) × (s ≡ head ++ sep ∷ tail)
          × Lacks sep head
          × (split sep s ≡ head ∷ split sep tail))
split-cases sep [] = inl (tt, unfold split split_by in refl)
split-cases sep (c ∷ s) = elim (Bool-cases (nat_eq c sep)) [
  | inl same ↦
      inr ([], s, ground arith, tt, rw (← (nat_eq_iff c sep).0 same) (split-append c [] s tt))
  | inr other ↦ elim (split-cases sep s) [
    | inl (h, e) ↦ inl ((ground arith, h), split-Lacks sep (c ∷ s) (ground arith, h))
    | inr (head, tail, same, h, e) ↦ inr (
      c ∷ head,
      tail,
      ground arith,
      (ground arith, h),
      rw same (split-append sep (c ∷ head) tail (ground arith, h)),
    )
  ]
]

pub split-cons :
    (sep : ℕ) (s : Str) → (part : Str) × (parts : List Str) × (split sep s ≡ part ∷ parts)
split-cons sep s = elim (split-cases sep s) [
  | inl (h, e) ↦ (s, [], e)
  | inr (head, tail, same, h, e) ↦ (head, split sep tail, e)
]

-- Splitting what was joined gives the parts back, if none holds the separator.
pub split-join :
    (sep : ℕ) (part : Str) (parts : List Str)
    → Lacks sep part
    → All (Lacks sep) parts
    → split sep (join (sep ∷ []) (part ∷ parts)) ≡ part ∷ parts
unfolding join
split-join sep part [] h k = split-Lacks sep part h
split-join sep part (next ∷ parts) h (k, ks) =
    split-append sep part (join (sep ∷ []) (next ∷ parts)) h
    ∙ ap (◌∷◌ part) (split-join sep next parts k ks)

pub join-ne-nil : (sep part : Str) (parts : List Str) → part ≢ [] → join sep (part ∷ parts) ≢ []
unfolding join
join-ne-nil sep part [] ne e = ne e
join-ne-nil sep [] (next ∷ parts) ne e = ne refl
join-ne-nil sep (c ∷ part) (next ∷ parts) ne e = cc
