-- ===== src/Helpers/Verdict.antt =====
-- src/domain/helpers/verdict.ts: verdicts read from texts, and written as texts.
pub mod Laws
use hubble_ui.Prelude.{
  ℕ, ◌+◌, ◌-◌, Bool, true, false, Option, none, some, List, [], ◌∷◌, map, Str, codes, leb, find,
  nat_eq, join, split, starts_with, to_lower_case, is_empty, ◌==◌, nat_Eq, if◌then◌else◌,
}
use hubble_ui.Prelude.Sets.{from_list}
use hubble_ui.Hubble.{
  Verdict, unknown, forwarded, dropped, error, audit, redirected, traced, translated,
  verdict_number, verdict_Eq,
}

unfoldable pub verdict_from_number : ℕ → Option Verdict
unfolding find
verdict_from_number num =
    find (λ v. nat_eq (verdict_number v) num)
      (forwarded ∷ dropped ∷ error ∷ audit ∷ redirected ∷ traced ∷ translated ∷ unknown ∷ [])

-- The first row whose text the given text starts with
unfoldable pub first_prefix : List (Str × Verdict) → Str → Option Verdict
unfolding starts_with
first_prefix [] v = none
first_prefix ((prefix, verdict) ∷ rows) v =
    let rest = first_prefix rows v in if starts_with v prefix then some verdict else rest

unfoldable pub verdict_from_str : Str → Option Verdict
unfolding first_prefix to_lower_case
verdict_from_str v =
    if is_empty v
    then none
    else first_prefix
        ((codes "forward", forwarded)
          ∷ (codes "drop", dropped)
          ∷ (codes "err", error)
          ∷ (codes "audit", audit)
          ∷ (codes "redirect", redirected)
          ∷ (codes "trace", traced)
          ∷ (codes "translate", translated)
          ∷ (codes "unknown", unknown)
          ∷ [])
        (to_lower_case v)

-- `parse` of a text, where `to_number` is `+text` if that is a natural number. Texts of other
-- numbers start with none of the names, so that both ways return null for them.
unfoldable pub parse : (Str → Option ℕ) → Str → Option Verdict
unfolding verdict_from_number verdict_from_str
parse to_number v =
    if is_empty v
    then none
    else elim (to_number v) [ some num ↦ verdict_from_number num | none ↦ verdict_from_str v ]

unfoldable pub parse_each : (Str → Option ℕ) → List Str → List Verdict
unfolding parse
parse_each to_number [] = []
parse_each to_number (part ∷ parts) =
    let rest = parse_each to_number parts in
    elim (parse to_number part) [ none ↦ rest | some verdict ↦ verdict ∷ rest ]

-- `parseMany` of a text that may be null
unfoldable pub parse_many : (Str → Option ℕ) → Option Str → ℕ → List Verdict
unfolding parse_each split
parse_many to_number none sep = []
parse_many to_number (some v) sep = parse_each to_number (split sep v)

unfoldable pub parse_many_set : (Str → Option ℕ) → Option Str → ℕ → List Verdict
unfolding parse_many from_list
parse_many_set to_number v sep = from_list (parse_many to_number v sep)

-- A verdict's number has one digit.
abbrev pub number_text : Verdict → Str
number_text v = (48 + verdict_number v) ∷ []

-- `join` of verdicts that may be null
unfoldable pub join_verdicts : Option (List Verdict) → ℕ → Str
join_verdicts none sep = []
join_verdicts (some verdicts) sep = join (sep ∷ []) (map number_text verdicts)

-- The text before its first letter is made a capital
unfoldable pub name_of : Verdict → Bool → Str
name_of forwarded shorten = if shorten then codes "forward" else codes "forwarded"
name_of dropped shorten = if shorten then codes "drop" else codes "dropped"
name_of error shorten = codes "error"
name_of audit shorten = codes "audit"
name_of redirected shorten = if shorten then codes "redirect" else codes "redirected"
name_of traced shorten = if shorten then codes "trace" else codes "traced"
name_of translated shorten = if shorten then codes "translate" else codes "translated"
name_of unknown shorten = codes "unknown"

-- `str.charAt(0).toUpperCase() + str.slice(1)`
unfoldable pub capitalized : Str → Str
capitalized [] = []
capitalized (c ∷ s) = if (if leb 97 c then leb c 122 else false) then (c - 32) ∷ s else c ∷ s

unfoldable pub to_string : Verdict → Bool → Bool → Str
unfolding name_of capitalized
to_string verdict shorten capitalize_first_letter =
    if capitalize_first_letter
    then capitalized (name_of verdict shorten)
    else name_of verdict shorten
