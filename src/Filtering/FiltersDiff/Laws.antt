-- ===== src/Filtering/FiltersDiff/Laws.antt =====
-- The difference of filters against their `equals`, of src/domain/filtering/filters-diff.ts.
use mathlib.Core.Path.{subst}
use hubble_ui.Prelude.{
  Bool, true, false, not, ◌&&◌, ◌≡◌, ◌∙◌, refl, sym, ap, Option, none, some, List, [], ◌∷◌, map,
  Str, str_Eq, str_eq_iff, bool_Eq, arith, Eq, ◌==◌, opt_eq, all, if◌then◌else◌,
}
use hubble_ui.Prelude.Sets.{has, IsDistinct, from_list, same_set, add_all}
use hubble_ui.Prelude.Maps.{is_some}
use hubble_ui.Hubble.{Verdict, verdict_Eq}
use hubble_ui.Diff
use hubble_ui.Diff.{Diff, Value}
use hubble_ui.Filtering.Entry.{FilterEntry, to_string}
use hubble_ui.Filtering.Filters
use hubble_ui.Filtering.Filters.{Filters, or_empty, fingerprints}
use hubble_ui.Filtering.Filters.Laws.{same_set-fingerprints_iff, equals_iff}
use hubble_ui.Filtering.FiltersDiff.{
  filter_entries_equal, verdicts_equal, FieldValues, new, changed, invert, diff,
}

-- A deep clone of a value is the same value.
abbrev pub Clones : {T : Type 0} → Value T → Type 0
Clones {T} lib = (a : T) → lib.clone_deep a ≡ a

-- Primitive values: lodash compares them by `===`, and they have no method `equals`.
pub record IsPrimitive {T : Type 0} ⦃e : Eq T⦄ (lib : Value T) : Type 0 where
  pub clones : Clones lib
  pub no_method : lib.equals_method ≡ none
  pub exact : (a b : T) → lib.is_equal a b ≡ (a == b)

module _ {T : Type 0} (lib : Value T) (clones : Clones lib) where
  clone_lem : (a : Option T) → Diff.clone lib a ≡ a
  clone_lem none = refl
  clone_lem (some a) = ap some (clones a)

  -- A difference made of one value and stepped to another compares the two.
  changed-step-new :
      (fn : Option (T → T → Bool)) (a b : Option T)
      → (Diff.changed lib (Diff.step lib (Diff.set_comparator (Diff.new lib a) fn) b)).0
        ≡ not (Diff.equals lib a b fn)
  unfolding Diff.changed Diff.compute_changed Diff.step Diff.set_comparator Diff.new
  changed-step-new fn a b = rw (clone_lem (Diff.clone lib a), clone_lem a, clone_lem b)

primitive_equals :
    {T : Type 0} ⦃e : Eq T⦄ (lib : Value T)
    → IsPrimitive lib
    → (a b : Option T) → Diff.equals lib a b none ≡ opt_eq a b
unfolding Diff.equals
primitive_equals lib p none none = refl
primitive_equals lib p none (some b) = refl
primitive_equals lib p (some a) none = refl
primitive_equals lib p (some a) (some b) = rw p.no_method (p.exact a b)

same_texts :
    (xs ys : List FilterEntry) (k : Str)
    → same_set (fingerprints xs) (fingerprints ys) ≡ true
    → has k (map to_string xs) ≡ has k (map to_string ys)
same_texts xs ys k h = (same_set-fingerprints_iff xs ys).0 h k

pub filter_entries_equal-same_set :
    (xs ys : List FilterEntry)
    → filter_entries_equal xs ys ≡ same_set (fingerprints xs) (fingerprints ys)
unfolding filter_entries_equal has
filter_entries_equal-same_set [] [] = unfold from_list add_all same_set all in refl
filter_entries_equal-same_set [] (y ∷ ys) =
    ground (arith, same_texts [] (y ∷ ys) (to_string y), str_eq_iff (to_string y) (to_string y))
filter_entries_equal-same_set (x ∷ xs) [] =
    ground (arith, same_texts (x ∷ xs) [] (to_string x), str_eq_iff (to_string x) (to_string x))
filter_entries_equal-same_set (x ∷ xs) (y ∷ ys) = refl

verdicts_equal-same_set : (xs ys : List Verdict) → verdicts_equal xs ys ≡ same_set xs ys
unfolding verdicts_equal same_set all
verdicts_equal-same_set [] [] = refl
verdicts_equal-same_set [] (y ∷ ys) = ground arith
verdicts_equal-same_set (x ∷ xs) [] = ground arith
verdicts_equal-same_set (x ∷ xs) (y ∷ ys) = refl

-- Either both values are there or both are missing.
abbrev pub SameShape : {A : Type 0} → Option A → Option A → Type 0
SameShape a b = is_some a ≡ is_some b

equals-verdicts :
    (lib : Value (List Verdict)) (a b : Option (List Verdict))
    → SameShape a b
    → Diff.equals lib a b (some verdicts_equal) ≡ same_set (or_empty a) (or_empty b)
unfolding Diff.equals
equals-verdicts lib none none h = unfold same_set all in refl
equals-verdicts lib none (some b) h = cc
equals-verdicts lib (some a) none h = cc
equals-verdicts lib (some a) (some b) h = verdicts_equal-same_set a b

equals-entries :
    (lib : Value (List FilterEntry)) (a b : Option (List FilterEntry))
    → SameShape a b
    → Diff.equals lib a b (some filter_entries_equal)
      ≡ same_set (fingerprints (or_empty a)) (fingerprints (or_empty b))
unfolding Diff.equals
equals-entries lib none none h = unfold from_list add_all same_set all in refl
equals-entries lib none (some b) h = cc
equals-entries lib (some a) none h = cc
equals-entries lib (some a) (some b) h = filter_entries_equal-same_set a b

-- What the library does with the fields: lists are cloned to equal lists, texts and flags are
-- primitive values.
pub record IsLawful (lib : FieldValues) : Type 0 where
  pub texts : IsPrimitive lib.texts
  pub verdict_sets : Clones lib.verdict_sets
  pub entry_lists : Clones lib.entry_lists
  pub flags : IsPrimitive lib.flags

primitive_changed :
    {T : Type 0} ⦃e : Eq T⦄ (lib : Value T)
    → IsPrimitive lib
    → (a b : Option T) → (Diff.changed lib (Diff.step lib (Diff.new lib a) b)).0 ≡ not (opt_eq a b)
unfolding Diff.set_comparator Diff.new
primitive_changed lib p a b =
    changed-step-new lib p.clones none a b ∙ ap not (primitive_equals lib p a b)

module _ (lib : FieldValues) (lawful : IsLawful lib) where
  verdicts_changed :
      (a b : Option (List Verdict))
      → SameShape a b
      → (Diff.changed lib.verdict_sets (
          Diff.step lib.verdict_sets
            (Diff.set_comparator (Diff.new lib.verdict_sets a) (some verdicts_equal))
            b)).0
        ≡ not (same_set (or_empty a) (or_empty b))
  verdicts_changed a b h =
      changed-step-new lib.verdict_sets lawful.verdict_sets (some verdicts_equal) a b
      ∙ ap not (equals-verdicts lib.verdict_sets a b h)

  entries_changed :
      (a b : Option (List FilterEntry))
      → SameShape a b
      → (Diff.changed lib.entry_lists (
          Diff.step lib.entry_lists
            (Diff.set_comparator (Diff.new lib.entry_lists a) (some filter_entries_equal))
            b)).0
        ≡ not (same_set (fingerprints (or_empty a)) (fingerprints (or_empty b)))
  entries_changed a b h =
      changed-step-new lib.entry_lists lawful.entry_lists (some filter_entries_equal) a b
      ∙ ap not (equals-entries lib.entry_lists a b h)

tests_agree :
    (ns vs http es host dns node app : Bool)
    → (if not ns
        then true
        else if not vs
        then true
        else if not http
        then true
        else if not es
        then true
        else if not host
        then true
        else if not dns
        then true
        else if not node
        then true
        else not app)
      ≡ not (if ns && http && host && dns && node && app then vs && es else false)
tests_agree ns vs http es host dns node app = ground arith

-- A difference from one set of filters to another answers that something changed exactly if
-- `equals` does not hold of the two, where both or neither have verdicts, both or neither have
-- entries, and lodash clones values to equal ones and compares texts and flags by `===`.
pub changed-new :
    (lib : FieldValues) (f g : Filters)
    → IsLawful lib
    → SameShape f.verdicts g.verdicts
    → SameShape f.filters g.filters
    → changed lib (new lib (some f) (some g)) ≡ not (Filters.equals f g)
unfolding changed new Filters.equals
changed-new lib f g lawful vs es =
    rw
      (
        primitive_changed lib.texts lawful.texts f.namespace g.namespace,
        verdicts_changed lib lawful f.verdicts g.verdicts vs,
        primitive_changed lib.texts lawful.texts f.http_status g.http_status,
        entries_changed lib lawful f.filters g.filters es,
        primitive_changed lib.flags lawful.flags f.skip_host g.skip_host,
        primitive_changed lib.flags lawful.flags f.skip_kube_dns g.skip_kube_dns,
        primitive_changed lib.flags lawful.flags f.skip_remote_node g.skip_remote_node,
        primitive_changed lib.flags lawful.flags f.skip_prometheus_app g.skip_prometheus_app,
      )
      (tests_agree (opt_eq f.namespace g.namespace)
        (same_set (or_empty f.verdicts) (or_empty g.verdicts)) (opt_eq f.http_status g.http_status)
        (same_set (fingerprints (or_empty f.filters)) (fingerprints (or_empty g.filters)))
        (opt_eq f.skip_host g.skip_host) (opt_eq f.skip_kube_dns g.skip_kube_dns)
        (opt_eq f.skip_remote_node g.skip_remote_node)
        (opt_eq f.skip_prometheus_app g.skip_prometheus_app))

missing_not_equal :
    {T : Type 0} (lib : Value T) (fn : Option (T → T → Bool)) (a : Option T) (b : T)
    → a ≡ none
    → Diff.equals lib a (some b) fn ≡ false
unfolding Diff.equals
missing_not_equal lib fn none b h = refl
missing_not_equal lib fn (some a) b h = cc

-- Filters without verdicts and the same filters with an empty set of verdicts are equal by
-- `equals`, and yet their difference answers that something changed, if lodash clones values to
-- equal ones and compares texts and flags by `===`.
equals_but_changed :
    (lib : FieldValues) (f : Filters)
    → IsLawful lib
    → f.verdicts ≡ none
    → let g = record f { verdicts = some [] } in
      (Filters.equals f g ≡ true) × (changed lib (new lib (some f) (some g)) ≡ true)
unfolding changed new Filters.equals
equals_but_changed lib f lawful h = (
  (equals_iff f g (subst (λ v. IsDistinct (or_empty v)) (sym h) tt) tt).1
      (refl, refl, refl, refl, refl, refl, (λ k. ap (λ v. has k (or_empty v)) h), λ k. refl),
  second_changed _ _ (
      changed-step-new lib.verdict_sets lawful.verdict_sets (some verdicts_equal) f.verdicts
        (some [])
      ∙ ap not (missing_not_equal lib.verdict_sets (some verdicts_equal) f.verdicts [] h)),
)
  where
    g : Filters
    g = record f { verdicts = some [] }

    second_changed :
        (a : Bool) {b : Bool} (rest : Bool)
        → b ≡ true
        → (if a then true else if b then true else rest) ≡ true
    second_changed a rest e = ground arith

module _ {T : Type 0} (lib : Value T) (clones : Clones lib) where
  invert-new : (a : Option T) → Diff.invert (Diff.new lib a) ≡ Diff.step lib (Diff.new lib a) none
  unfolding Diff.invert Diff.new Diff.step
  invert-new a = rw (clone_lem lib clones (Diff.clone lib a))

  invert-new_with :
      (fn : Option (T → T → Bool)) (a : Option T)
      → Diff.invert (Diff.set_comparator (Diff.new lib a) fn)
        ≡ Diff.step lib (Diff.set_comparator (Diff.new lib a) fn) none
  unfolding Diff.invert Diff.new Diff.step Diff.set_comparator
  invert-new_with fn a = rw (clone_lem lib clones (Diff.clone lib a))

-- The difference to no filters at all, which `diff` makes by inversion, is the difference that
-- stepping from the filters to none makes, if lodash clones values to equal ones.
diff-none :
    (lib : FieldValues) (f : Filters) → IsLawful lib → diff lib f none ≡ new lib (some f) none
unfolding diff new invert
diff-none lib f lawful = rw (
  invert-new lib.texts lawful.texts.clones f.namespace,
  invert-new_with lib.verdict_sets lawful.verdict_sets (some verdicts_equal) f.verdicts,
  invert-new lib.texts lawful.texts.clones f.http_status,
  invert-new_with lib.entry_lists lawful.entry_lists (some filter_entries_equal) f.filters,
  invert-new lib.flags lawful.flags.clones f.skip_host,
  invert-new lib.flags lawful.flags.clones f.skip_kube_dns,
  invert-new lib.flags lawful.flags.clones f.skip_remote_node,
  invert-new lib.flags lawful.flags.clones f.skip_prometheus_app,
)
