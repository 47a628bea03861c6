-- ===== src/Helpers/Workload/Laws.antt =====
-- The short name of a kind, and the comparison of workloads.
use hubble_ui.Prelude.{
  ℕ, Bool, true, false, ◌&&◌, ◌≡◌, refl, ◌∙◌, inl, inr, Option-cases, ◌↔◌, none, some, List, [],
  ◌∷◌, Str, arith, to_lower_case, lower, trim, all, ◌==◌, str_Eq, str_eq, str_eq_iff,
}
use mathlib.Core.Bool.{and-eq-true_iff}
use hubble_ui.Prelude.Maps.{get}
use hubble_ui.Helpers.Workload.{Workload, k8s_shorthands, get_kind_shorthand, equals}

to_lower_case_idem : (s : Str) → to_lower_case (to_lower_case s) ≡ to_lower_case s
unfolding to_lower_case lower
to_lower_case_idem [] = refl
to_lower_case_idem (c ∷ s) = ground (arith, to_lower_case_idem s)

-- What holds of each value of a table holds of what is looked up.
all-get :
    (p : Str → Bool) (table : List (Str × Str)) (k v : Str)
    → all (λ e. p e.1) table ≡ true
    → get k table ≡ some v
    → p v ≡ true
unfolding all get
all-get p [] k v h e = ground arith
all-get p ((j, w) ∷ table) k v h e = ground (arith, all-get p table k v)

-- A short name of the table is in lower case, and is itself no key.
abbrev is_final : Str → Bool
is_final v = to_lower_case v == v && elim (get v k8s_shorthands) [ none ↦ true | some _ ↦ false ]

shorthands_final : all (λ e. is_final e.1) k8s_shorthands ≡ true
unfolding all get k8s_shorthands to_lower_case lower str_eq
shorthands_final = refl

shorthand_missing :
    (kind : Str)
    → get (to_lower_case kind) k8s_shorthands ≡ none
    → get_kind_shorthand kind ≡ to_lower_case kind
unfolding get_kind_shorthand
shorthand_missing kind e = ground arith

shorthand_empty :
    (kind : Str)
    → get (to_lower_case kind) k8s_shorthands ≡ some []
    → get_kind_shorthand kind ≡ to_lower_case kind
unfolding get_kind_shorthand
shorthand_empty kind e = ground arith

shorthand_found :
    (kind : Str) (c : ℕ) (v : Str)
    → get (to_lower_case kind) k8s_shorthands ≡ some (c ∷ v)
    → get_kind_shorthand kind ≡ c ∷ v
unfolding get_kind_shorthand
shorthand_found kind c v e = ground arith

none_of :
    (v : Str)
    → (elim (get v k8s_shorthands) [ none ↦ true | some _ ↦ false ]) ≡ true
    → get v k8s_shorthands ≡ none
none_of v h = ground arith

-- Abbreviating a kind again changes nothing.
get_kind_shorthand_idem :
    (kind : Str) → get_kind_shorthand (get_kind_shorthand kind) ≡ get_kind_shorthand kind
get_kind_shorthand_idem kind = elim (Option-cases (get (to_lower_case kind) k8s_shorthands)) [
  | inl missing ↦ rw (shorthand_missing kind missing) (
      shorthand_missing (to_lower_case kind) (rw (to_lower_case_idem kind) missing)
      ∙ to_lower_case_idem kind)
  | inr ([], found) ↦ rw (shorthand_empty kind found) (
      shorthand_empty (to_lower_case kind) (rw (to_lower_case_idem kind) found)
      ∙ to_lower_case_idem kind)
  | inr (c ∷ v, found) ↦
      let (lowered, last) =
        (and-eq-true_iff _ _).0
          (all-get is_final k8s_shorthands _ (c ∷ v) shorthands_final found) in
      let same = (str_eq_iff (to_lower_case (c ∷ v)) (c ∷ v)).0 lowered in
      rw (shorthand_found kind c v found)
        (shorthand_missing (c ∷ v) (rw same (none_of (c ∷ v) last)) ∙ same)
]

-- Two workloads are equal exactly when their kinds have one short name and their names are one,
-- all trimmed and in lower case.
abbrev pub canonical : Workload → Str × Str
canonical w = (get_kind_shorthand (trim w.kind), to_lower_case (trim w.name))

pub equals-canonical :
    (lhs rhs : Workload) → ((equals lhs rhs ≡ true) ↔ (canonical lhs ≡ canonical rhs))
unfolding equals
equals-canonical lhs rhs = ground (
  arith,
  str_eq_iff (get_kind_shorthand (trim lhs.kind)) (get_kind_shorthand (trim rhs.kind)),
  str_eq_iff (to_lower_case (trim lhs.name)) (to_lower_case (trim rhs.name)),
)
