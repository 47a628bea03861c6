-- ===== src/Filtering/Entry/Printing.antt =====
-- What `parseParts` reads of a text that `toString` wrote.
use hubble_ui.Prelude.{Bool, true, false, ◌≡◌, refl, some, [], ◌++◌, Str, codes, if◌then◌else◌}
use hubble_ui.Filtering.Entry.{
  Kind, label, Direction, from, to, either, kind_text, direction_text, parse_parts,
}

-- The text of an entry, with `rest` for what stands behind the first equal sign
abbrev pub entry_text : Bool → Direction → Kind → Str → Str
entry_text negative direction kind rest =
    (if negative then codes "!" else [])
    ++ (direction_text direction ++ (codes ":" ++ (kind_text kind ++ (codes "=" ++ rest))))

pub parse_parts-entry_text :
    (negative : Bool) (direction : Direction) (kind : Kind) (rest : Str)
    → parse_parts (entry_text negative direction kind rest) ≡ some (direction, kind, rest, negative)
unfolding parse_parts
parse_parts-entry_text true from label rest = refl
parse_parts-entry_text true from _ rest = refl
parse_parts-entry_text true to label rest = refl
parse_parts-entry_text true to _ rest = refl
parse_parts-entry_text true either label rest = refl
parse_parts-entry_text true either _ rest = refl
parse_parts-entry_text false from label rest = refl
parse_parts-entry_text false from _ rest = refl
parse_parts-entry_text false to label rest = refl
parse_parts-entry_text false to _ rest = refl
parse_parts-entry_text false either label rest = refl
parse_parts-entry_text false either _ rest = refl
