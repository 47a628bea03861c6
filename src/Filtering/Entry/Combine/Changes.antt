-- ===== src/Filtering/Entry/Combine/Changes.antt =====
-- When `combine` says that it changed the base.
use mathlib.Core.List.{append-nil, append_assoc}
use mathlib.Core.Path.{subst}
use hubble_ui.Prelude.{
  ◌<◌, true, false, ◌≡◌, ◌∙◌, sym, ap, ◌↔◌, ◌⊎◌, inl, inr, refl, List, [], ◌∷◌, ◌++◌, Str, str_Eq,
  str_eq_iff, arith, length, length-append,
}
use hubble_ui.Prelude.Sets.{has, from_list, IsDistinct, has-add, has-from_list}
use hubble_ui.Filtering.Entry.{FilterEntry, to_string}
use hubble_ui.Filtering.Entry.Combine.{
  Combining, push_entry, keep_base, keep_include, keep_bases, keep_includes, combine,
}
use hubble_ui.Filtering.Entry.Combine.Laws.{texts, combine_texts}

keep_base_cases :
    (c : Combining) (fe : FilterEntry)
    → ((has (to_string fe) c.hashes ≡ true) × (keep_base c fe ≡ record c { is_changed = true }))
      ⊎ ((has (to_string fe) c.hashes ≡ false) × (keep_base c fe ≡ push_entry c fe))
unfolding keep_base
keep_base_cases c fe = ground arith

keep_include_cases :
    (c : Combining) (fe : FilterEntry)
    → (keep_include c fe ≡ c) ⊎ (keep_include c fe ≡ record (push_entry c fe) { is_changed = true })
unfolding keep_include
keep_include_cases c fe = ground arith

-- A base loop that changed nothing has pushed each entry.
keep_bases_unchanged :
    (c : Combining) (fes : List FilterEntry)
    → (keep_bases c fes).is_changed ≡ false
    → (c.is_changed ≡ false) × ((keep_bases c fes).result ≡ c.result ++ fes)
unfolding keep_bases push_entry
keep_bases_unchanged c [] h = (h, sym (append-nil c.result))
keep_bases_unchanged c (fe ∷ fes) h =
    let (was, e) = keep_bases_unchanged (keep_base c fe) fes h in
    elim (keep_base_cases c fe) [
      | inl (old, same) ↦ absurd (ground arith)
      | inr (new, same) ↦ (ground arith, ground (arith, append_assoc c.result (fe ∷ []) fes))
    ]

-- New and distinct texts are all pushed.
keep_bases_distinct :
    (c : Combining) (fes : List FilterEntry)
    → IsDistinct (texts fes)
    → ((k : Str) → has k (texts fes) ≡ true → has k c.hashes ≡ false)
    → ((keep_bases c fes).is_changed ≡ c.is_changed) × ((keep_bases c fes).result ≡ c.result ++ fes)
unfolding keep_bases push_entry has
keep_bases_distinct c [] d h = (refl, sym (append-nil c.result))
keep_bases_distinct c (fe ∷ fes) (first, d) h = elim (keep_base_cases c fe) [
  | inl (old, same) ↦
      absurd (ground (arith, h (to_string fe), str_eq_iff (to_string fe) (to_string fe)))
  | inr (new, same) ↦
      let (unchanged, e) = keep_bases_distinct (push_entry c fe) fes d (λ k m.
        ground
          (arith, h k, m, has-add k (to_string fe) c.hashes, str_eq_iff (to_string fe) k, first)) in
      rw (same, keep_bases) (unchanged, ground (arith, e, append_assoc c.result (fe ∷ []) fes))
]

-- The loop over the included entries either does nothing, or adds some and says so.
keep_includes_grows :
    (c : Combining) (fes : List FilterEntry)
    → (((keep_includes c fes).is_changed ≡ c.is_changed)
        × ((keep_includes c fes).result ≡ c.result))
      ⊎ (((keep_includes c fes).is_changed ≡ true)
          × (length c.result < length (keep_includes c fes).result))
unfolding keep_includes push_entry
keep_includes_grows c [] = inl (refl, refl)
keep_includes_grows c (fe ∷ fes) =
    let rest = keep_includes_grows (keep_include c fe) fes in
    ground (arith, rest, keep_include_cases c fe, length-append c.result (fe ∷ []))

-- The flag that `combine` returns is false exactly when the list that it returns is the base.
pub combine_unchanged_iff :
    (base include exclude : List FilterEntry)
    → ((combine base include exclude).1 ≡ false) ↔ ((combine base include exclude).0 ≡ base)
unfolding combine
combine_unchanged_iff base include exclude = (to, from)
  where
    start : Combining
    start = record { hashes = from_list (texts exclude); result = []; is_changed = false }

    grows :
        (((combine base include exclude).1 ≡ (keep_bases start base).is_changed)
          × ((combine base include exclude).0 ≡ (keep_bases start base).result))
        ⊎ (((combine base include exclude).1 ≡ true)
            × (length (keep_bases start base).result < length (combine base include exclude).0))
    grows = keep_includes_grows (keep_bases start base) include

    to : (combine base include exclude).1 ≡ false → (combine base include exclude).0 ≡ base
    to h = elim grows [
      | inl (same, e) ↦ e ∙ (keep_bases_unchanged start base (sym same ∙ h)).1
      | inr (changed, longer) ↦ absurd (ground arith)
    ]

    from : (combine base include exclude).0 ≡ base → (combine base include exclude).1 ≡ false
    from h =
        let (distinct, known) = combine_texts base include exclude in
        let (unchanged, e) =
          keep_bases_distinct start base (subst (λ l. IsDistinct (texts l)) h distinct) (λ k m.
            ground
              (arith, has-from_list k (texts exclude), known k, ap (λ l. has k (texts l)) h, m)) in
        elim grows [
          | inl (same, _) ↦ same ∙ unchanged
          | inr (changed, longer) ↦ absurd (omega (arith, ap length e, ap length h))
        ]
