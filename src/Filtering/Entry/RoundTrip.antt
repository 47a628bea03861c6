-- ===== src/Filtering/Entry/RoundTrip.antt =====
-- Parsing what `toString` prints, one entry and a whole list, as the location bar stores it.
use hubble_ui.Prelude.{
  Bool, true, false, ◌≡◌, ◌∙◌, sym, ap, ◌≢◌, ◌⊎◌, inl, inr, refl, none, some, List, [], ◌∷◌, ◌++◌,
  map, Str, codes, arith, join, trim, All, ◌==◌, if◌then◌else◌,
}
use hubble_ui.Prelude.TextLaws.{
  Lacks, join-split, split-append, split-join, join-ne-nil, split-cons,
}
use hubble_ui.Filtering.Entry.{
  Direction, from, to, either, Kind, workload, label, FilterEntry, kind_Eq, kind_eq_iff,
  parse_parts, parse_rest, parse_workload_query_and_meta, entry_of_parts, parse, parse_each,
  parse_many, to_string, meta_text,
}
use hubble_ui.Filtering.Entry.Printing.{entry_text, parse_parts-entry_text}

-- The meta is a kind without a colon for a workload, and missing for any other kind.
abbrev pub HasReadableMeta : FilterEntry → Type 0
HasReadableMeta e =
    ((e.kind ≢ workload) × (e.meta ≡ none))
    ⊎ ((m : Str) × (e.kind ≡ workload) × (e.meta ≡ some m) × Lacks b':' m)

parse_of_parts :
    (s : Str) {d : Direction × Kind × Str × Bool}
    → s ≢ []
    → parse_parts s ≡ some d
    → parse s ≡ some (entry_of_parts d)
unfolding parse
parse_of_parts [] ne e = absurd (ne refl)
parse_of_parts (c ∷ s) ne e = rw (e, parse)

parse_workload_query_and_meta_cut :
    (m q : Str) → Lacks b':' m → parse_workload_query_and_meta (m ++ b':' ∷ q) ≡ (q, some m)
unfolding parse_workload_query_and_meta
parse_workload_query_and_meta_cut m q h =
    let (part, parts, e) = split-cons b':' q in
    rw (split-append b':' m q h, parse_workload_query_and_meta, e)
      (ground (arith, join-split b':' q, e))

parse_rest_other : (kind : Kind) (s : Str) → kind ≢ workload → parse_rest kind s ≡ (s, none)
unfolding parse_rest
parse_rest_other label s h = refl
parse_rest_other workload s h = absurd (h refl)
parse_rest_other _ s h = refl

parse_rest-workload : (m q : Str) → Lacks b':' m → parse_rest workload (m ++ b':' ∷ q) ≡ (q, some m)
unfolding parse_rest
parse_rest-workload m q h = parse_workload_query_and_meta_cut m q h

-- What `toString` writes behind the equal sign
abbrev rest_text : FilterEntry → Str
rest_text e = if e.kind == workload then meta_text e.meta ++ (codes ":" ++ e.query) else e.query

to_string-entry_text :
    (e : FilterEntry) → to_string e ≡ entry_text e.negative e.direction e.kind (rest_text e)
unfolding to_string
to_string-entry_text e = refl

entry_text-ne-nil : (n : Bool) (d : Direction) (k : Kind) (rest : Str) → entry_text n d k rest ≢ []
entry_text-ne-nil true d k rest e = cc
entry_text-ne-nil false from k rest e = cc
entry_text-ne-nil false to k rest e = cc
entry_text-ne-nil false either k rest e = cc

-- An entry is what `parse` makes of its text, if the rest is read as its query and meta.
parse-entry_text :
    (e : FilterEntry)
    → parse_rest e.kind (rest_text e) ≡ (e.query, e.meta)
    → parse (to_string e) ≡ some e
unfolding entry_of_parts
parse-entry_text e h = rw (to_string-entry_text e) (
    parse_of_parts _ (entry_text-ne-nil e.negative e.direction e.kind (rest_text e))
      (parse_parts-entry_text e.negative e.direction e.kind (rest_text e))
    ∙ ap some (read h))
  where
    read :
        parse_rest e.kind (rest_text e) ≡ (e.query, e.meta)
        → entry_of_parts (e.direction, e.kind, rest_text e, e.negative) ≡ e
    read p = λ i. record {
      kind = e.kind;
      direction = e.direction;
      query = (p i).0;
      meta = (p i).1;
      negative = e.negative;
    }

-- The text that `toString` prints of an entry is parsed to the same entry, for every kind,
-- direction, query and sign, if the meta is a text without a colon for a workload and missing for
-- every other kind.
pub parse-to_string : (e : FilterEntry) → HasReadableMeta e → parse (to_string e) ≡ some e
parse-to_string e h = parse-entry_text e (elim h [
  | inl (other, missing) ↦
      ground (arith, parse_rest_other e.kind e.query other, kind_eq_iff e.kind workload, missing)
  | inr (m, same, given, lacks) ↦
      ground (arith, parse_rest-workload m e.query lacks, kind_eq_iff e.kind workload, same, given)
])

pub to_string-ne-nil : (e : FilterEntry) → to_string e ≢ []
to_string-ne-nil e p =
    entry_text-ne-nil e.negative e.direction e.kind (rest_text e) (sym (to_string-entry_text e) ∙ p)

-- The entry's text stands alone between commas: it has no comma, and no white space around it.
abbrev pub IsListable : FilterEntry → Type 0
IsListable e = HasReadableMeta e × Lacks b',' (to_string e) × (trim (to_string e) ≡ to_string e)

parse_each-map : (es : List FilterEntry) → All IsListable es → parse_each (map to_string es) ≡ es
unfolding parse_each
parse_each-map [] h = refl
parse_each-map (e ∷ es) ((meta, lacks, trimmed), h) =
    ground (arith, trimmed, parse-to_string e meta, to_string-ne-nil e, parse_each-map es h)

texts-Lacks : (es : List FilterEntry) → All IsListable es → All (Lacks b',') (map to_string es)
texts-Lacks [] h = tt
texts-Lacks (e ∷ es) (h, k) = (h.1, texts-Lacks es k)

-- A list of entries is read back from their texts, joined by commas.
pub parse_many-join :
    (e : FilterEntry) (es : List FilterEntry)
    → All IsListable (e ∷ es)
    → parse_many (some (join (codes ",") (map to_string (e ∷ es)))) b',' ≡ e ∷ es
unfolding parse_many
parse_many-join e es (h, k) = ground (
  arith,
  join-ne-nil (codes ",") (to_string e) (map to_string es) (to_string-ne-nil e),
  split-join b',' (to_string e) (map to_string es) h.1 (texts-Lacks es k),
  parse_each-map (e ∷ es) (h, k),
)
