-- ===== src/Store/Flows/Laws.antt =====
-- src/store/stores/interaction.ts: which flows the interaction store keeps.
use hubble_ui.Prelude.{
  ℕ, ◌≤◌, ◌≡◌, refl, sym, subst, ◌∙◌, ◌⊎◌, true, Option, none, some, List, [], ◌∷◌, ◌++◌, map, Str,
  str_Eq, length, take, find, All, eq_iff, eq_refl, arith, leb,
}
use hubble_ui.Prelude.Sets.{has, IsDistinct}
use hubble_ui.Prelude.Doubles.{sub_double-sign}
use hubble_ui.Prelude.Sorting.{
  sort, of_key, IsDescending, sort-IsDistinct, of_key-sort, sort-IsDescending, length-take-le,
  take-IsDescending, take-IsDistinct, of_key-take, take-keeps, All-of_key,
}
use hubble_ui.Flow.{Runtime}
use hubble_ui.Helpers.Time.{Time}
use hubble_ui.Store.Flows.{
  TableFlow, FlowStore, add_flows, milliseconds, compare_times, compare, may_precede, id,
  merge_flows, flows_max_count, oldest_flow,
}

-- What the documentation of lodash says of `uniqBy`: of the elements with one key, the first is kept.
pub record IsUniqBy (uniq_by : (TableFlow → Str) → List TableFlow → List TableFlow) : Type 0 where
  pub distinct :
      (key : TableFlow → Str) (xs : List TableFlow) → IsDistinct (map key (uniq_by key xs))
  pub first :
      (key : TableFlow → Str) (k : Str) (xs : List TableFlow)
      → of_key key k (uniq_by key xs) ≡ of_key key k xs

-- The flow's time is known.
abbrev pub IsTimed : TableFlow → Type 0
IsTimed f = (t : Time) × (f.time ≡ some t)

-- The flow's time in milliseconds as the program compares it, 0 if it is not known
abbrev pub when : TableFlow → ℕ
when f = elim f.time [ none ↦ 0 | some t ↦ milliseconds t ]

module _ (key : TableFlow → Str) where
  has-of_key :
      (k : Str) (a : TableFlow) (xs : List TableFlow)
      → of_key key k xs ≡ some a
      → has k (map key xs) ≡ true
  unfolding find has
  has-of_key k a [] p = absurd (ground (arith, p))
  has-of_key k a (x ∷ xs) p = ground (arith, p, has-of_key k a xs)

  -- What holds of all that is found by a key holds of all elements.
  All-found :
      (P : TableFlow → Type 0) (xs : List TableFlow)
      → IsDistinct (map key xs)
      → ((k : Str) (a : TableFlow) → of_key key k xs ≡ some a → P a)
      → All P xs
  unfolding find has
  All-found P [] d h = tt
  All-found P (x ∷ xs) (new, d) h = (
    h (key x) x (ground (arith, eq_refl (key x))),
    All-found P xs d (λ k a p. h k a (ground (arith, p, has-of_key k a xs, new, eq_iff (key x) k))),
  )

may_precede-timed :
    (a b : TableFlow) → IsTimed a → IsTimed b → may_precede true a b ≡ leb (when b) (when a)
unfolding may_precede compare compare_times
may_precede-timed a b (s, p) (t, q) =
    rw (p, q, may_precede, compare, compare_times)
      (sub_double-sign (milliseconds t) (milliseconds s))

-- No flow is older than the last of the table.
abbrev pub IsOldest : Option TableFlow → List TableFlow → Type 0
IsOldest none flows = flows ≡ []
IsOldest (some f) flows = All (λ g. when f ≤ when g) flows

oldest_flow-last :
    (f : TableFlow) (fs : List TableFlow)
    → IsDescending when (f ∷ fs)
    → (g : TableFlow) × (oldest_flow (f ∷ fs) ≡ some g) × All (λ h. when g ≤ when h) (f ∷ fs)
unfolding oldest_flow
oldest_flow-last f [] d = (f, refl, (omega arith, tt))
oldest_flow-last f (g ∷ fs) ((le, _), d) =
    let (h, is_last, low) = oldest_flow-last g fs d in (h, is_last, (omega (arith, low.0), low))

oldest_flow-IsOldest :
    (flows : List TableFlow) → IsDescending when flows → IsOldest (oldest_flow flows) flows
oldest_flow-IsOldest [] d = unfold oldest_flow in refl
oldest_flow-IsOldest (f ∷ fs) d =
    let (h, is_last, low) = oldest_flow-last f fs d in
    subst (λ o. IsOldest o (f ∷ fs)) (sym is_last) low

-- `flows` are the newest of `given`, by their times in milliseconds as doubles: of each id the first
-- flow, of these at most 1024, the newest first, and a flow is missing only where they are 1024 and none
-- is older than it.
pub record IsNewest (id : TableFlow → Str) (given flows : List TableFlow) : Type 0 where
  pub bounded : length flows ≤ flows_max_count
  pub distinct : IsDistinct (map id flows)
  pub descending : IsDescending when flows
  pub oldest : IsOldest (oldest_flow flows) flows
  pub sound : (k : Str) (f : TableFlow) → of_key id k flows ≡ some f → of_key id k given ≡ some f
  pub complete :
      (k : Str) (f : TableFlow)
      → of_key id k given ≡ some f
      → (of_key id k flows ≡ some f)
        ⊎ ((length flows ≡ flows_max_count) × All (λ g. when f ≤ when g) flows)

module _ (to_text : ℕ → Str) (uniq_by : (TableFlow → Str) → List TableFlow → List TableFlow) where
  merge_flows-IsNewest :
      (new_flows flows : List TableFlow)
      → IsUniqBy uniq_by
      → All IsTimed (new_flows ++ flows)
      → IsNewest
          (id to_text)
          (new_flows ++ flows)
          (merge_flows to_text uniq_by true new_flows flows)
  unfolding merge_flows
  merge_flows-IsNewest new_flows flows u timed =
      let key = id to_text in
      let given = new_flows ++ flows in
      let unique = uniq_by key given in
      let sorted = sort (may_precede true) unique in
      let unique_timed : All IsTimed unique =
        All-found key IsTimed unique (u.distinct key given)
          (λ k a p. All-of_key key IsTimed k a given timed (sym (u.first key k given) ∙ p)) in
      let descending : IsDescending when sorted =
        sort-IsDescending (may_precede true) IsTimed when may_precede-timed unique unique_timed in
      let newest_first : IsDescending when (take flows_max_count sorted) =
        take-IsDescending when flows_max_count sorted descending in
      let same : (k : Str) → of_key key k sorted ≡ of_key key k given = λ k.
        of_key-sort (may_precede true) key k unique (u.distinct key given) ∙ u.first key k given in
      record {
        bounded = length-take-le flows_max_count sorted;
        distinct =
            take-IsDistinct key flows_max_count sorted
              (sort-IsDistinct (may_precede true) key unique (u.distinct key given));
        descending = newest_first;
        oldest = oldest_flow-IsOldest (take flows_max_count sorted) newest_first;
        sound = λ k f p. sym (same k) ∙ of_key-take key k f flows_max_count sorted p;
        complete = λ k f p. take-keeps key when k f flows_max_count sorted descending (same k ∙ p);
      }

  -- After flows are added, the newest first, the store has the newest of the new and the old ones, if
  -- the times of all are known; of two with one id, a new one is kept. The times are those that
  -- `compareTimes` subtracts, milliseconds as doubles. The total count is that of these flows.
  pub add_flows-IsNewest :
      (rt : Runtime) (now : ℕ) (new_flows : List TableFlow) (s : FlowStore)
      → IsUniqBy uniq_by
      → All IsTimed (new_flows ++ s.flows)
      → IsNewest
          (id to_text)
          (new_flows ++ s.flows)
          (add_flows rt to_text uniq_by now true new_flows s).0.flows
        × ((add_flows rt to_text uniq_by now true new_flows s).1.flows_total_count
            ≡ length (add_flows rt to_text uniq_by now true new_flows s).0.flows)
  unfolding add_flows
  add_flows-IsNewest rt now new_flows s u timed =
      (merge_flows-IsNewest new_flows s.flows u timed, refl)
