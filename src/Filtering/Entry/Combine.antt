-- ===== src/Filtering/Entry/Combine.antt =====
-- src/domain/filtering/filter-entry.ts: `FilterEntry.combine` and `unique`. A list that may be null
-- is the empty list, as the code takes it.
pub mod Changes
pub mod Laws
use hubble_ui.Prelude.{Bool, true, false, List, [], ◌∷◌, ◌++◌, map, Str, str_Eq, if◌then◌else◌}
use hubble_ui.Prelude.Sets.{has, add, from_list}
use hubble_ui.Filtering.Entry.{FilterEntry, to_string}

-- The variables of `combine`: `excludeHashes`, `result`, `isChanged`
pub record Combining : Type 0 where
  pub hashes : List Str
  pub result : List FilterEntry
  pub is_changed : Bool

unfoldable pub push_entry : Combining → FilterEntry → Combining
push_entry c fe = record c { hashes = add (to_string fe) c.hashes; result = c.result ++ fe ∷ [] }

-- One round over the base
unfoldable pub keep_base : Combining → FilterEntry → Combining
keep_base c fe =
    if has (to_string fe) c.hashes then record c { is_changed = true } else push_entry c fe

-- One round over the included entries
unfoldable pub keep_include : Combining → FilterEntry → Combining
keep_include c fe =
    if has (to_string fe) c.hashes then c else record (push_entry c fe) { is_changed = true }

unfoldable pub keep_bases : Combining → List FilterEntry → Combining
keep_bases c [] = c
keep_bases c (fe ∷ fes) = keep_bases (keep_base c fe) fes

unfoldable pub keep_includes : Combining → List FilterEntry → Combining
keep_includes c [] = c
keep_includes c (fe ∷ fes) = keep_includes (keep_include c fe) fes

unfoldable pub combine :
    List FilterEntry → List FilterEntry → List FilterEntry → List FilterEntry × Bool
combine base include exclude =
    let start : Combining = record {
      hashes = from_list (map to_string exclude);
      result = [];
      is_changed = false;
    } in
    let c = keep_includes (keep_bases start base) include in (c.result, c.is_changed)

unfoldable pub unique : List FilterEntry → List FilterEntry
unique base = (combine base [] []).0
