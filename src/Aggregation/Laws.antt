-- ===== src/Aggregation/Laws.antt =====
-- What equality of aggregations means, and what a toggle does.
use hubble_ui.Prelude.{
  ◌≡◌, refl, inl, inr, Bool, true, false, not, ◌↔◌, some, List, [], ◌∷◌, any, any-append, all,
  filter, length, length-filter-le, Str, str_Eq, str_eq, nat_eq, eq_refl, eq_iff, arith, Bool-cases,
}
use hubble_ui.Prelude.Sets.{
  has, from_list, IsDistinct, SameElements, same_set, same_set_iff, has-from_list,
}
use hubble_ui.Aggregation.{
  AggregatorType, Aggregator, Aggregation, type_text, change_text, keys_of, equals,
  has_aggregator_type, toggle_aggregator_type, parse_aggregator_type, unknown, connection, identity,
}

-- The text of a type is read as the type.
parse_aggregator_type-type_text :
    (t : AggregatorType) → parse_aggregator_type (type_text t) ≡ some t
unfolding parse_aggregator_type type_text str_eq
parse_aggregator_type-type_text unknown = refl
parse_aggregator_type-type_text connection = refl
parse_aggregator_type-type_text identity = refl

module _ {A : Type 0} (p : A → Bool) where
  any-filter : (xs : List A) → any p (filter (λ x. not (p x)) xs) ≡ false
  unfolding any filter
  any-filter [] = refl
  any-filter (x ∷ xs) = ground (arith, any-filter xs)

  -- Nothing is filtered out exactly if nothing has the property.
  length-filter :
      (xs : List A) → nat_eq (length (filter (λ x. not (p x)) xs)) (length xs) ≡ not (any p xs)
  unfolding any filter
  length-filter [] = refl
  length-filter (x ∷ xs) = ground (arith, length-filter xs, length-filter-le (λ x. not (p x)) xs)

-- Each toggle of a type changes whether the aggregation has it.
has_aggregator_type-toggle_aggregator_type :
    (a : Aggregation) (t : AggregatorType)
    → has_aggregator_type (toggle_aggregator_type a t) t ≡ not (has_aggregator_type a t)
unfolding has_aggregator_type toggle_aggregator_type
has_aggregator_type-toggle_aggregator_type a t = elim (Bool-cases (any is_t a.aggregators)) [
  | inl there ↦
      rw (toggle_aggregator_type, length-filter is_t a.aggregators, there)
        (any-filter is_t a.aggregators)
  | inr missing ↦
      rw (toggle_aggregator_type, length-filter is_t a.aggregators, missing)
        (ground
          (arith, any-append is_t (filter (λ agg. not (is_t agg)) a.aggregators) (added ∷ []), one))
]
  where
    is_t : Aggregator → Bool
    is_t agg = str_eq (type_text agg.kind) (type_text t)

    added : Aggregator
    added = record { kind = t; ignore_source_port = false }

    one : any is_t (added ∷ []) ≡ true
    one = unfold any in ground (arith, eq_refl (type_text t))

all-from_list : (xs ys : List Str) → all (λ k. has k (from_list xs)) ys ≡ all (λ k. has k xs) ys
unfolding all
all-from_list xs [] = refl
all-from_list xs (y ∷ ys) = ground (arith, all-from_list xs ys, has-from_list y xs)

-- Of aggregations whose aggregators are distinct, `equals` means the same change of state and the same
-- aggregators, in any order.
equals_iff_same :
    (a b : Aggregation)
    → IsDistinct (keys_of a)
    → IsDistinct (keys_of b)
    → (equals a b ≡ true) ↔ (
        (change_text a.state_change ≡ change_text b.state_change)
        × SameElements (keys_of b) (keys_of a))
unfolding equals
equals_iff_same a b da db = (
  λ h. (
    ground (arith, eq_iff (change_text a.state_change) (change_text b.state_change)),
    (same_set_iff (keys_of b) (keys_of a) db da).0 (unfold same_set in ground (arith, h, all_kept)),
  ),
  λ (change, same).
      let sets = (same_set_iff (keys_of b) (keys_of a) db da).1 same in
      unfold same_set in
      ground (arith, sets, all_kept, change, eq_refl (change_text b.state_change)),
)
  where
    all_kept :
        all (λ k. has k (from_list (keys_of a))) (keys_of b)
        ≡ all (λ k. has k (keys_of a)) (keys_of b)
    all_kept = all-from_list (keys_of a) (keys_of b)
