-- ===== src/Filtering/Entry/Builders.antt =====
-- src/domain/filtering/filter-entry.ts: the entries made of a query alone, the setters and the tests
-- of one field; and how an entry with any meta is read back.
use hubble_ui.Prelude.{
  ◌≡◌, ◌≢◌, ◌∙◌, refl, ap, inl, Bool, true, ◌==◌, str_Eq, eq_refl, none, some, [], Str, arith,
}
use hubble_ui.Filtering.Entry.{
  Direction, from, to, either, direction_Eq, Kind, label, ip, dns, identity, workload, tcp_flag,
  pod, kind_Eq, kind_eq_iff, FilterEntry, new_entry, parse, to_string, equals,
}
use hubble_ui.Filtering.Entry.RoundTrip.{parse-to_string}

unfoldable pub new_tcp_flag : Str → FilterEntry
new_tcp_flag flag = new_entry tcp_flag flag (some [])

unfoldable pub new_label : Str → FilterEntry
new_label text = new_entry label text (some [])

unfoldable pub new_identity : Str → FilterEntry
new_identity text = new_entry identity text (some [])

unfoldable pub new_dns : Str → FilterEntry
new_dns text = new_entry dns text (some [])

unfoldable pub new_ip : Str → FilterEntry
new_ip text = new_entry ip text (some [])

unfoldable pub set_query : FilterEntry → Str → FilterEntry
set_query e q = record e { query = q }

unfoldable pub set_direction : FilterEntry → Direction → FilterEntry
set_direction e dir = record e { direction = dir }

unfoldable pub set_kind : FilterEntry → Kind → FilterEntry
set_kind e kind = record e { kind = kind }

unfoldable pub clone : FilterEntry → FilterEntry
clone e = record {
  kind = e.kind;
  direction = e.direction;
  query = e.query;
  meta = e.meta;
  negative = e.negative;
}

unfoldable pub is_dns : FilterEntry → Bool
is_dns e = e.kind == dns

unfoldable pub is_identity : FilterEntry → Bool
is_identity e = e.kind == identity

unfoldable pub is_label : FilterEntry → Bool
is_label e = e.kind == label

unfoldable pub is_ip : FilterEntry → Bool
is_ip e = e.kind == ip

unfoldable pub is_tcp_flag : FilterEntry → Bool
is_tcp_flag e = e.kind == tcp_flag

unfoldable pub is_pod : FilterEntry → Bool
is_pod e = e.kind == pod

unfoldable pub is_workload : FilterEntry → Bool
is_workload e = e.kind == workload

unfoldable pub both_required : FilterEntry → Bool
both_required e = e.direction == either

unfoldable pub is_from : FilterEntry → Bool
is_from e = e.direction == from

unfoldable pub is_to : FilterEntry → Bool
is_to e = e.direction == to

to_string-meta :
    (e : FilterEntry) → e.kind ≢ workload → to_string e ≡ to_string (record e { meta = none })
unfolding to_string
to_string-meta e h = ground (arith, h, kind_eq_iff e.kind workload)

equals-meta : (e : FilterEntry) → equals (record e { meta = none }) e ≡ true
unfolding equals
equals-meta e = ground (arith, eq_refl e.kind, eq_refl e.direction, eq_refl e.query)

-- What `toString` prints of an entry that is not a workload, whatever its meta, is parsed to the
-- entry without its meta, which `equals` the entry.
parse-to_string_meta :
    (e : FilterEntry)
    → e.kind ≢ workload
    → (parse (to_string e) ≡ some (record e { meta = none }))
      × (equals (record e { meta = none }) e ≡ true)
parse-to_string_meta e h = (
  ap parse (to_string-meta e h) ∙ parse-to_string (record e { meta = none }) (inl (h, refl)),
  equals-meta e,
)
