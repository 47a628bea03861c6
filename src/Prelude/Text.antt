-- ===== src/Prelude/Text.antt =====
-- Texts as lists of code units, with the methods of `String.prototype` that the program calls.
-- Letters are those of ASCII for `toLowerCase`.
use Prim.Native.Nat.{ℕ, suc, ◌+◌}
use Prim.Native.Char.{code}
use Prim.Native.String.{String}
use mathlib.Core.Path.{◌≡◌}
use mathlib.Core.Logic.{◌↔◌}
use mathlib.Core.Bool.{Bool, true, false, ◌&&◌, ◌||◌}
use mathlib.Core.Option
use mathlib.Core.Option.{Option, none, some}
use mathlib.Core.List.{List, [], ◌∷◌, ◌++◌, map, reverse}
use native.Mathlib.Omega.{arith}
use hubble_ui.Prelude.Tests.{nat_eq, nat_eq_iff, leb, Eq, if◌then◌else◌}
use hubble_ui.Prelude.Lists.{length, drop}

abbrev pub Str : Type 0
Str = List ℕ

-- The code points of a literal.
abbrev pub codes : String → Str
codes String.[] = []
codes (String.◌∷◌ c s) = code c ∷ codes s

unfoldable pub str_eq : Str → Str → Bool
str_eq [] [] = true
str_eq [] (d ∷ t) = false
str_eq (c ∷ s) [] = false
str_eq (c ∷ s) (d ∷ t) = nat_eq c d && str_eq s t

pub str_eq_iff : (s t : Str) → (str_eq s t ≡ true) ↔ (s ≡ t)
unfolding str_eq
str_eq_iff [] [] = ground arith
str_eq_iff [] (d ∷ t) = ground arith
str_eq_iff (c ∷ s) [] = ground arith
str_eq_iff (c ∷ s) (d ∷ t) = ground (arith, nat_eq_iff c d, str_eq_iff s t)

instance abbrev pub str_Eq : Eq Str
str_Eq = record { beq = str_eq; beq_iff = str_eq_iff }

-- `!s` is true of the empty text alone.
abbrev pub is_empty {ℓ} : {A : Type ℓ} → List A → Bool
is_empty [] = true
is_empty (_ ∷ _) = false

-- `s.startsWith(prefix)`
unfoldable pub starts_with : Str → Str → Bool
starts_with s [] = true
starts_with [] (d ∷ t) = false
starts_with (c ∷ s) (d ∷ t) = nat_eq c d && starts_with s t

-- `s.indexOf(c)`, with none for -1
unfoldable pub index_of : ℕ → Str → Option ℕ
index_of c [] = none
index_of c (d ∷ s) = if nat_eq d c then some 0 else Option.map suc (index_of c s)

-- One more unit in front of the first part.
abbrev pub cons_head : ℕ → List Str → List Str
cons_head c [] = (c ∷ []) ∷ []
cons_head c (part ∷ parts) = (c ∷ part) ∷ parts

-- `s.split(re)` for an expression that matches one unit
unfoldable pub split_by : (ℕ → Bool) → Str → List Str
split_by sep [] = [] ∷ []
split_by sep (c ∷ s) = let rest = split_by sep s in if sep c then [] ∷ rest else cons_head c rest

-- `s.split(sep)` for a separator of one unit
unfoldable pub split : ℕ → Str → List Str
unfolding split_by
split sep = split_by (λ c. nat_eq c sep)

-- `parts.join(sep)`
unfoldable pub join : Str → List Str → Str
join sep [] = []
join sep (part ∷ []) = part
join sep (part ∷ next ∷ parts) = part ++ (sep ++ join sep (next ∷ parts))

-- The white space and line ends that `trim` removes.
abbrev pub is_space : ℕ → Bool
is_space c =
    (leb 9 c && leb c 13)
    || (nat_eq c 32
        || nat_eq c 160
        || nat_eq c 5760
        || (leb 8192 c && leb c 8202)
        || nat_eq c 8232
        || nat_eq c 8233
        || nat_eq c 8239
        || nat_eq c 8287
        || nat_eq c 12288
        || nat_eq c 65279)

unfoldable pub trim_start : Str → Str
trim_start [] = []
trim_start (c ∷ s) = let rest = trim_start s in if is_space c then rest else c ∷ s

unfoldable pub trim : Str → Str
unfolding trim_start
trim s = reverse (trim_start (reverse (trim_start s)))

unfoldable pub lower : ℕ → ℕ
lower c = if leb 65 c && leb c 90 then c + 32 else c

-- `s.toLowerCase()`
unfoldable pub to_lower_case : Str → Str
unfolding lower
to_lower_case = map lower

-- `s.replace(part, '')`: the first occurrence goes, wherever it stands.
unfoldable pub remove_first : Str → Str → Str
unfolding starts_with
remove_first part [] = []
remove_first part (c ∷ s) =
    let rest = remove_first part s in
    if starts_with (c ∷ s) part then drop (length part) (c ∷ s) else c ∷ rest
