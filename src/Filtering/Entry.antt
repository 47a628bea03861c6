-- ===== src/Filtering/Entry.antt =====
-- src/domain/filtering/filter-entry.ts: one entry of the flow filter, its parser and its printer.
-- The optional field `meta` is `Option Str`; a missing `negative` is false, as the constructor has
-- it. Methods that mutate and return `this` return the new entry.
pub mod Builders
pub mod Combine
pub mod Printing
pub mod RoundTrip
use hubble_ui.Prelude.{
  ℕ, suc, ◌+◌, ◌-◌, String, Bool, true, false, not, ◌&&◌, ◌||◌, ◌≡◌, ◌↔◌, Option, none, some, List,
  [], ◌∷◌, ◌++◌, Str, codes, arith, str_eq, str_Eq, index_of, split, join, trim, take, drop, find,
  nat_eq, Eq, ◌==◌, is_empty, if◌then◌else◌,
}
use hubble_ui.Prelude.Sets.{has}
use hubble_ui.Helpers.Workload.{Workload}
use hubble_ui.Labels.{ensure_k8s_prefix}

pub data Kind : Type 0 where
  label ip dns identity workload tcp_flag pod : Kind

pub data Direction : Type 0 where
  from to either : Direction

abbrev pub kind_text : Kind → Str
kind_text label = codes "label"
kind_text ip = codes "ip"
kind_text dns = codes "dns"
kind_text identity = codes "identity"
kind_text workload = codes "workload"
kind_text tcp_flag = codes "tcp-flag"
kind_text pod = codes "pod"

abbrev pub direction_text : Direction → Str
direction_text from = codes "from"
direction_text to = codes "to"
direction_text either = codes "either"

abbrev kind_tag : Kind → ℕ
kind_tag label = 0
kind_tag ip = 1
kind_tag dns = 2
kind_tag identity = 3
kind_tag workload = 4
kind_tag tcp_flag = 5
kind_tag pod = 6

-- `===` on kinds
abbrev pub kind_eq : Kind → Kind → Bool
kind_eq a b = nat_eq (kind_tag a) (kind_tag b)

pub kind_eq_iff : (a b : Kind) → (kind_eq a b ≡ true) ↔ (a ≡ b)
kind_eq_iff a b = ground arith

instance abbrev pub kind_Eq : Eq Kind
kind_Eq = record { beq = kind_eq; beq_iff = kind_eq_iff }

abbrev direction_tag : Direction → ℕ
direction_tag from = 0
direction_tag to = 1
direction_tag either = 2

-- `===` on directions
abbrev pub direction_eq : Direction → Direction → Bool
direction_eq a b = nat_eq (direction_tag a) (direction_tag b)

pub direction_eq_iff : (a b : Direction) → (direction_eq a b ≡ true) ↔ (a ≡ b)
direction_eq_iff a b = ground arith

instance abbrev pub direction_Eq : Eq Direction
direction_Eq = record { beq = direction_eq; beq_iff = direction_eq_iff }

pub record FilterEntry : Type 0 where
  pub kind : Kind
  pub direction : Direction
  pub query : Str
  pub meta : Option Str
  pub negative : Bool

unfoldable pub parse_direction : Str → Option Direction
unfolding find str_eq
parse_direction s = find (λ d. direction_text d == s) (from ∷ to ∷ either ∷ [])

unfoldable pub parse_kind : Str → Option Kind
unfolding find str_eq
parse_kind s =
    find (λ k. kind_text k == s) (label ∷ ip ∷ dns ∷ identity ∷ workload ∷ tcp_flag ∷ pod ∷ [])

-- The direction, and `firstColonIdx + 1`: 0 if there is no direction in front of a colon
unfoldable pub read_direction : Str → Direction × ℕ
unfolding index_of parse_direction
read_direction s = elim (index_of b':' s) [
  | none ↦ (either, 0)
  | some colon ↦ elim (parse_direction (take colon s)) [
    | none ↦ (either, 0)
    | some d ↦ (d, colon + 1)
  ]
]

-- The kind and the rest, from the direction's end on
unfoldable pub read_kind : Str → ℕ → Kind × Str
unfolding index_of parse_kind
read_kind s start = elim (index_of b'=' s) [
  | none ↦ (label, drop start s)
  | some equal ↦ elim (parse_kind (take (equal - start) (drop start s))) [
    | none ↦ (label, drop start s)
    | some k ↦ (k, drop (equal + 1) s)
  ]
]

-- `userInput[0] === '!'`
unfoldable pub is_negated : Str → Bool
is_negated [] = false
is_negated (c ∷ s) = nat_eq c b'!'

unfoldable pub parse_parts : Str → Option (Direction × Kind × Str × Bool)
unfolding read_direction read_kind is_negated
parse_parts user_input =
    let negative = is_negated user_input in
    let input = if negative then drop 1 user_input else user_input in
    let (direction, start) = read_direction input in
    let (kind, rest) = read_kind input start in some (direction, kind, rest, negative)

unfoldable pub parse_workload_query_and_meta : Str → Str × Option Str
unfolding split join
parse_workload_query_and_meta value = elim (split b':' value) [
  | kind ∷ name ∷ more ↦ (join (codes ":") (name ∷ more), some kind)
  | _ ↦ elim (split b'/' value) [
    | kind ∷ name ∷ more ↦ (join (codes "/") (name ∷ more), some kind)
    | _ ↦ (value, none)
  ]
]

unfoldable pub parse_rest : Kind → Str → Str × Option Str
parse_rest workload rest = parse_workload_query_and_meta rest
parse_rest _ rest = (rest, none)

-- The result of `parse` from the result of `parseParts`
unfoldable pub entry_of_parts : Direction × Kind × Str × Bool → FilterEntry
entry_of_parts (direction, kind, rest, negative) =
    let (query, meta) = parse_rest kind rest in
    record { kind = kind; direction = direction; query = query; meta = meta; negative = negative }

unfoldable pub parse : Str → Option FilterEntry
parse user_input =
    if is_empty user_input
    then none
    else elim (parse_parts user_input) [ none ↦ none | some parts ↦ some (entry_of_parts parts) ]

-- The reduction of `parseMany` over the parts
unfoldable pub parse_each : List Str → List FilterEntry
parse_each [] = []
parse_each (part ∷ parts) =
    let rest = parse_each parts in
    if is_empty (trim part)
    then rest
    else elim (parse (trim part)) [ none ↦ rest | some entry ↦ entry ∷ rest ]

-- A source that is null or empty gives no entry.
unfoldable pub parse_many : Option Str → ℕ → List FilterEntry
parse_many none sep = []
parse_many (some src) sep = if is_empty src then [] else parse_each (split sep src)

-- `new FilterEntry` for an entry in either direction
abbrev pub new_entry : Kind → Str → Option Str → FilterEntry
new_entry kind query meta = record {
  kind = kind;
  direction = either;
  query = query;
  meta = meta;
  negative = false;
}

unfoldable pub new_workload : Workload → FilterEntry
new_workload wl = new_entry workload wl.name (some wl.kind)

unfoldable pub new_pod : Str → FilterEntry
new_pod pod_name = new_entry pod pod_name (some [])

unfoldable pub set_meta : FilterEntry → Str → FilterEntry
set_meta fe meta = record fe { meta = some meta }

-- `ps.namespace || ''`
unfoldable pub new_pod_selector : Str → Option Str → FilterEntry
unfolding new_pod set_meta
new_pod_selector pod_name none = set_meta (new_pod pod_name) []
new_pod_selector pod_name (some namespace) = set_meta (new_pod pod_name) namespace

-- `${this.meta}` writes "undefined" for a meta that is missing.
abbrev pub meta_text : Option Str → Str
meta_text none = codes "undefined"
meta_text (some meta) = meta

unfoldable pub to_string : FilterEntry → Str
to_string e =
    (if e.negative then codes "!" else [])
    ++ (direction_text e.direction
        ++ (codes ":"
            ++ (kind_text e.kind
                ++ (codes "="
                    ++ (if e.kind == workload
                        then meta_text e.meta ++ (codes ":" ++ e.query)
                        else e.query)))))

unfoldable pub as_workload : FilterEntry → Option Workload
as_workload e = elim e.meta [
  | none ↦ none
  | some meta ↦
      if is_empty meta || is_empty e.query
      then none
      else some (record { kind = meta; name = e.query })
]

-- `meta` is not compared.
unfoldable pub equals : FilterEntry → FilterEntry → Bool
unfolding str_eq
equals e rhs =
    e.kind == rhs.kind
    && (e.direction == rhs.direction
        && (e.query == rhs.query && (if e.negative then rhs.negative else not rhs.negative)))

unfoldable pub from_required : FilterEntry → Bool
unfolding has
from_required e = has e.direction (either ∷ from ∷ [])

unfoldable pub to_required : FilterEntry → Bool
unfolding has
to_required e = has e.direction (either ∷ to ∷ [])

-- The key and the value of the query
unfoldable pub label_key_value : FilterEntry → Str × Str
unfolding split join
label_key_value e = elim (split b'=' e.query) [
  | [] ↦ ([], [])
  | key ∷ rest ↦ (key, join (codes "=") rest)
]

unfoldable pub prepare_label : FilterEntry → FilterEntry
unfolding ensure_k8s_prefix
prepare_label e = if e.kind == label then record e { query = ensure_k8s_prefix e.query } else e

unfoldable pub has_meta : FilterEntry → Bool
has_meta e = elim e.meta [ none ↦ false | some meta ↦ not (is_empty meta) ]

unfoldable pub pod_namespace : FilterEntry → Option Str
unfolding has_meta
pod_namespace e = if has_meta e then e.meta else none
