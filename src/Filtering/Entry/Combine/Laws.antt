-- ===== src/Filtering/Entry/Combine/Laws.antt =====
-- What `combine` returns, by the texts of the entries.
use hubble_ui.Prelude.{
  true, false, not, ◌&&◌, ◌||◌, ◌≡◌, inl, inr, refl, List, [], ◌∷◌, ◌++◌, map, Str, str_Eq,
  str_eq_iff, arith, Bool-cases, ◌==◌,
}
use hubble_ui.Prelude.Sets.{has, from_list, IsDistinct, has-add, has-from_list}
use hubble_ui.Filtering.Entry.{FilterEntry, to_string}
use hubble_ui.Filtering.Entry.Combine.{
  Combining, push_entry, keep_base, keep_include, keep_bases, keep_includes, combine,
}

-- The texts of entries
abbrev pub texts : List FilterEntry → List Str
texts = map to_string

texts-push :
    (es : List FilterEntry) (e : FilterEntry) (k : Str)
    → has k (texts (es ++ e ∷ [])) ≡ (has k (texts es) || to_string e == k)
unfolding has
texts-push [] e k = ground arith
texts-push (x ∷ es) e k = ground (arith, texts-push es e k)

push-IsDistinct :
    (es : List FilterEntry) (e : FilterEntry)
    → has (to_string e) (texts es) ≡ false
    → IsDistinct (texts es)
    → IsDistinct (texts (es ++ e ∷ []))
unfolding has
push-IsDistinct [] e new d = (refl, tt)
push-IsDistinct (x ∷ es) e new (first, d) = (
  ground (
    arith,
    texts-push es e (to_string x),
    str_eq_iff (to_string e) (to_string x),
    str_eq_iff (to_string x) (to_string e),
  ),
  push-IsDistinct es e (ground arith) d,
)

-- The hashes are the excluded texts and those of the result; the result has the texts met so far
-- that are not excluded, each once.
record IsCombining (exclude seen : List Str) (c : Combining) : Type 0 where
  hashes_known : (k : Str) → has k c.hashes ≡ (has k exclude || has k (texts c.result))
  result_seen : (k : Str) → has k (texts c.result) ≡ (not (has k exclude) && has k seen)
  distinct : IsDistinct (texts c.result)

module _ {exclude seen : List Str} {c : Combining} (v : IsCombining exclude seen c)
    (fe : FilterEntry) where
  push-IsCombining :
      has (to_string fe) c.hashes ≡ false
      → IsCombining exclude (to_string fe ∷ seen) (push_entry c fe)
  unfolding push_entry has
  push-IsCombining new = record {
    hashes_known = λ k.
        ground
          (arith, v.hashes_known k, has-add k (to_string fe) c.hashes, texts-push c.result fe k);
    result_seen = λ k. ground (
      arith,
      v.result_seen k,
      v.hashes_known k,
      texts-push c.result fe k,
      str_eq_iff (to_string fe) k,
      new,
    );
    distinct =
        push-IsDistinct c.result fe (ground (arith, v.hashes_known (to_string fe), new)) v.distinct;
  }

  -- A text that is known already adds nothing.
  skip-IsCombining :
      has (to_string fe) c.hashes ≡ true
      → (k : Str) → has k (texts c.result) ≡ (not (has k exclude) && has k (to_string fe ∷ seen))
  unfolding has
  skip-IsCombining old k =
      ground (arith, v.result_seen k, v.hashes_known k, str_eq_iff (to_string fe) k, old)

  keep_base-IsCombining : IsCombining exclude (to_string fe ∷ seen) (keep_base c fe)
  unfolding keep_base
  keep_base-IsCombining = elim (Bool-cases (has (to_string fe) c.hashes)) [
    | inl old ↦ rw old (record {
      hashes_known = v.hashes_known;
      result_seen = skip-IsCombining old;
      distinct = v.distinct;
    })
    | inr new ↦ rw new (push-IsCombining new)
  ]

  keep_include-IsCombining : IsCombining exclude (to_string fe ∷ seen) (keep_include c fe)
  unfolding keep_include
  keep_include-IsCombining = elim (Bool-cases (has (to_string fe) c.hashes)) [
    | inl old ↦ rw old (record {
      hashes_known = v.hashes_known;
      result_seen = skip-IsCombining old;
      distinct = v.distinct;
    })
    | inr new ↦ rw new (
        let p = push-IsCombining new in
        record {
          hashes_known = p.hashes_known;
          result_seen = p.result_seen;
          distinct = p.distinct;
        })
  ]

keep_bases-IsCombining :
    {exclude seen : List Str} (c : Combining) (fes : List FilterEntry)
    → IsCombining exclude seen c
    → (more : List Str) × IsCombining exclude more (keep_bases c fes)
      × ((k : Str) → has k more ≡ (has k seen || has k (texts fes)))
unfolding keep_bases has
keep_bases-IsCombining {seen} c [] v = (seen, v, λ k. ground arith)
keep_bases-IsCombining {seen = seen} c (fe ∷ fes) v =
    let (more, w, same) =
      keep_bases-IsCombining {seen = to_string fe ∷ seen} (keep_base c fe) fes
        (keep_base-IsCombining v fe) in
    (more, w, λ k. ground (arith, same k))

keep_includes-IsCombining :
    {exclude seen : List Str} (c : Combining) (fes : List FilterEntry)
    → IsCombining exclude seen c
    → (more : List Str) × IsCombining exclude more (keep_includes c fes)
      × ((k : Str) → has k more ≡ (has k seen || has k (texts fes)))
unfolding keep_includes has
keep_includes-IsCombining {seen} c [] v = (seen, v, λ k. ground arith)
keep_includes-IsCombining {seen = seen} c (fe ∷ fes) v =
    let (more, w, same) =
      keep_includes-IsCombining {seen = to_string fe ∷ seen} (keep_include c fe) fes
        (keep_include-IsCombining v fe) in
    (more, w, λ k. ground (arith, same k))

-- The combined list has each text at most once, and it has exactly the texts that stand in the
-- base or the included entries and not among the excluded ones.
pub combine_texts :
    (base include exclude : List FilterEntry)
    → let result = (combine base include exclude).0 in
      IsDistinct (texts result)
      × ((k : Str)
          → has k (texts result)
            ≡ (not (has k (texts exclude)) && (has k (texts base) || has k (texts include))))
unfolding combine has
combine_texts base include exclude =
    let start : Combining = record {
      hashes = from_list (texts exclude);
      result = [];
      is_changed = false;
    } in
    let fresh : IsCombining (texts exclude) [] start = record {
      hashes_known = λ k. ground (arith, has-from_list k (texts exclude));
      result_seen = λ k. ground arith;
      distinct = tt;
    } in
    let (seen, v, same) = keep_bases-IsCombining start base fresh in
    let (all_seen, w, all_same) = keep_includes-IsCombining (keep_bases start base) include v in
    (w.distinct, λ k. ground (arith, w.result_seen k, all_same k, same k))
