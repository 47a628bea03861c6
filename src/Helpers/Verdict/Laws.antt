-- ===== src/Helpers/Verdict/Laws.antt =====
-- Printing and reading verdicts, of src/domain/helpers/verdict.ts.
use hubble_ui.Prelude.{
  ℕ, Bool, true, false, ◌≡◌, refl, Option, some, List, [], ◌∷◌, map, Str, arith, All, find,
  starts_with, to_lower_case, lower,
}
use hubble_ui.Prelude.TextLaws.{Lacks, split-join}
use hubble_ui.Hubble.{
  Verdict, unknown, forwarded, dropped, error, audit, redirected, traced, translated,
  verdict_number, verdict_Eq,
}
use hubble_ui.Helpers.Verdict.{
  verdict_from_number, verdict_from_str, parse, parse_each, parse_many, first_prefix, number_text,
  join_verdicts, name_of, capitalized, to_string,
}

-- What is printed of a verdict, shortened or not and with a capital or not, is read as the verdict.
pub verdict_from_str-to_string :
    (v : Verdict) (shorten capitalize : Bool)
    → verdict_from_str (to_string v shorten capitalize) ≡ some v
unfolding verdict_from_str to_string name_of capitalized first_prefix starts_with to_lower_case
    lower
verdict_from_str-to_string unknown true true = refl
verdict_from_str-to_string unknown true false = refl
verdict_from_str-to_string unknown false true = refl
verdict_from_str-to_string unknown false false = refl
verdict_from_str-to_string forwarded true true = refl
verdict_from_str-to_string forwarded true false = refl
verdict_from_str-to_string forwarded false true = refl
verdict_from_str-to_string forwarded false false = refl
verdict_from_str-to_string dropped true true = refl
verdict_from_str-to_string dropped true false = refl
verdict_from_str-to_string dropped false true = refl
verdict_from_str-to_string dropped false false = refl
verdict_from_str-to_string error true true = refl
verdict_from_str-to_string error true false = refl
verdict_from_str-to_string error false true = refl
verdict_from_str-to_string error false false = refl
verdict_from_str-to_string audit true true = refl
verdict_from_str-to_string audit true false = refl
verdict_from_str-to_string audit false true = refl
verdict_from_str-to_string audit false false = refl
verdict_from_str-to_string redirected true true = refl
verdict_from_str-to_string redirected true false = refl
verdict_from_str-to_string redirected false true = refl
verdict_from_str-to_string redirected false false = refl
verdict_from_str-to_string traced true true = refl
verdict_from_str-to_string traced true false = refl
verdict_from_str-to_string traced false true = refl
verdict_from_str-to_string traced false false = refl
verdict_from_str-to_string translated true true = refl
verdict_from_str-to_string translated true false = refl
verdict_from_str-to_string translated false true = refl
verdict_from_str-to_string translated false false = refl

-- `+text` reads a digit as its number.
abbrev pub ReadsDigits : (Str → Option ℕ) → Type 0
ReadsDigits to_number = (v : Verdict) → to_number (number_text v) ≡ some (verdict_number v)

parse-number_text :
    (to_number : Str → Option ℕ) (v : Verdict)
    → ReadsDigits to_number
    → parse to_number (number_text v) ≡ some v
unfolding parse verdict_from_number find
parse-number_text to_number v h = ground (arith, h v)

parse_each-map :
    (to_number : Str → Option ℕ) (vs : List Verdict)
    → ReadsDigits to_number
    → parse_each to_number (map number_text vs) ≡ vs
unfolding parse_each
parse_each-map to_number [] h = refl
parse_each-map to_number (v ∷ vs) h =
    ground (arith, parse-number_text to_number v h, parse_each-map to_number vs h)

texts-Lacks : (vs : List Verdict) → All (Lacks b'-') (map number_text vs)
texts-Lacks [] = tt
texts-Lacks (v ∷ vs) = ((ground arith, tt), texts-Lacks vs)

-- A list of one verdict or more, joined by hyphens, is read as the list.
pub parse_many-join_verdicts :
    (to_number : Str → Option ℕ) (v : Verdict) (vs : List Verdict)
    → ReadsDigits to_number
    → parse_many to_number (some (join_verdicts (some (v ∷ vs)) b'-')) b'-' ≡ v ∷ vs
unfolding parse_many join_verdicts
parse_many-join_verdicts to_number v vs h =
    rw (split-join b'-' (number_text v) (map number_text vs) (ground arith, tt) (texts-Lacks vs))
      (parse_each-map to_number (v ∷ vs) h)
