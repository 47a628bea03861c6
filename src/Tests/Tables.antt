-- ===== src/Tests/Tables.antt =====
-- The theorems on the flows of the interaction store, at two flows of one node and one that repeats.
use hubble_ui.Prelude.{
  ℕ, ◌≡◌, refl, true, false, not, ◌&&◌, ◌||◌, any, none, some, List, [], ◌∷◌, map, Str, str_Eq,
  str_eq, codes, filter, find, length, ◌==◌, eq_iff, eq_refl, Bool-cases, inl, inr, arith,
}
use hubble_ui.Prelude.Sets.{has, IsDistinct}
use hubble_ui.Prelude.Sorting.{of_key}
use hubble_ui.Hubble.{Verdict, verdict_Eq}
use hubble_ui.Flow.{
  Flow, FlowType, Runtime, nan, l7_wrapped, destination_port, destination_service_id,
  destination_labels,
}
use hubble_ui.Labels.Detect.{detect}
use hubble_ui.Interactions.Endpoints.{http}
use hubble_ui.Interactions.Layer7.{
  kind_text, http_id_from_parts, extract_l7_info, get_http_verdicts,
}
use hubble_ui.Interactions.Layer7.Laws.{is_at, get_http_verdicts-extract_l7_info}
use hubble_ui.Prelude.Int.{pos}
use hubble_ui.Store.Flows.{TableFlow, milliseconds, compare_times, FlowStore, new, id, add_flows}
use hubble_ui.Store.Flows.Laws.{IsUniqBy, IsNewest, add_flows-IsNewest}

-- A function of lodash, as its documentation has it
unfoldable without : (TableFlow → Str) → Str → List TableFlow → List TableFlow
unfolding filter
without key k xs = filter (λ x. not (key x == k)) xs

unfoldable uniq_by : (TableFlow → Str) → List TableFlow → List TableFlow
unfolding without
uniq_by key [] = []
uniq_by key (x ∷ xs) = x ∷ without key (key x) (uniq_by key xs)

has-without :
    (key : TableFlow → Str) (h k : Str) (xs : List TableFlow)
    → has k (map key (without key h xs)) ≡ (has k (map key xs) && not (h == k))
unfolding without filter has
has-without key h k [] = refl
has-without key h k (x ∷ xs) =
    ground (arith, has-without key h k xs, eq_iff (key x) h, eq_iff (key x) k, eq_iff h k)

without-IsDistinct :
    (key : TableFlow → Str) (h : Str) (xs : List TableFlow)
    → IsDistinct (map key xs)
    → IsDistinct (map key (without key h xs))
unfolding without filter
without-IsDistinct key h [] d = tt
without-IsDistinct key h (x ∷ xs) (new, d) = elim (Bool-cases (key x == h)) [
  | inl gone ↦ rw gone (without-IsDistinct key h xs d)
  | inr kept ↦ rw kept (ground (arith, has-without key h (key x) xs), without-IsDistinct key h xs d)
]

of_key-without :
    (key : TableFlow → Str) (h k : Str) (xs : List TableFlow)
    → (h == k) ≡ false
    → of_key key k (without key h xs) ≡ of_key key k xs
unfolding without filter find
of_key-without key h k [] ne = refl
of_key-without key h k (x ∷ xs) ne =
    ground (arith, of_key-without key h k xs, eq_iff (key x) h, eq_iff (key x) k, eq_iff h k)

uniq_by-IsDistinct :
    (key : TableFlow → Str) (xs : List TableFlow) → IsDistinct (map key (uniq_by key xs))
unfolding uniq_by
uniq_by-IsDistinct key [] = tt
uniq_by-IsDistinct key (x ∷ xs) = (
  ground (arith, has-without key (key x) (key x) (uniq_by key xs), eq_refl (key x)),
  without-IsDistinct key (key x) (uniq_by key xs) (uniq_by-IsDistinct key xs),
)

of_key-uniq_by :
    (key : TableFlow → Str) (k : Str) (xs : List TableFlow)
    → of_key key k (uniq_by key xs) ≡ of_key key k xs
unfolding uniq_by find
of_key-uniq_by key k [] = refl
of_key-uniq_by key k (x ∷ xs) =
    ground (arith, of_key-without key (key x) k (uniq_by key xs), of_key-uniq_by key k xs)

uniq_by-IsUniqBy : IsUniqBy uniq_by
uniq_by-IsUniqBy = record { distinct = uniq_by-IsDistinct; first = of_key-uniq_by }

-- A number is written as that many strokes here.
abbrev to_text : ℕ → Str
to_text n = n ∷ []

abbrev engine : Runtime
engine = record {
  to_number = λ s. none;
  parse_int = λ s. nan;
  url_port = λ s. none;
  url_pathname = λ s. s;
}

abbrev hubble_flow : Flow
hubble_flow = record {
  flow_type = FlowType.l7_type;
  verdict = Verdict.forwarded;
  ip = none;
  tcp = some (record { source_port = 40000; destination_port = 80 });
  tcp_flags = [];
  udp = none;
  source = none;
  destination = none;
  source_names_list = [];
  destination_names_list = [];
  l7 = some (record {
    type_number = 1;
    dns = none;
    kafka = none;
    http = some (record { method = codes "GET"; code = 200; url = codes "/items" });
  });
}

-- A flow of a second
abbrev flow_at : ℕ → TableFlow
flow_at s = record {
  given_id = none;
  first_read = 0;
  time = some (record { seconds = s; nanos = 5 });
  node_name = codes "node-1";
  ref = hubble_flow;
}

abbrev store : FlowStore
store = record (new 10) { flows = flow_at 7 ∷ flow_at 3 ∷ [] }

-- A flow that repeats is there once, and the newest is the first.
merged :
    (add_flows engine to_text uniq_by 20 true (flow_at 3 ∷ flow_at 9 ∷ []) store).0.flows
    ≡ flow_at 9 ∷ flow_at 7 ∷ flow_at 3 ∷ []
unfolding add_flows uniq_by str_eq
merged = refl

add_flows-IsNewest_example :
    IsNewest
      (id to_text)
      (flow_at 3 ∷ flow_at 9 ∷ flow_at 7 ∷ flow_at 3 ∷ [])
      (add_flows engine to_text uniq_by 20 true (flow_at 3 ∷ flow_at 9 ∷ []) store).0.flows
    × ((add_flows engine to_text uniq_by 20 true
          (flow_at 3 ∷ flow_at 9 ∷ [])
          store).1.flows_total_count
        ≡ length
            (add_flows engine to_text uniq_by 20 true (flow_at 3 ∷ flow_at 9 ∷ []) store).0.flows)
add_flows-IsNewest_example =
    add_flows-IsNewest to_text uniq_by engine 20 (flow_at 3 ∷ flow_at 9 ∷ []) store uniq_by-IsUniqBy
      ((_, refl), ((_, refl), ((_, refl), ((_, refl), tt))))

-- The flow without a destination goes to the service `undefined`.
forwarded_get :
    get_http_verdicts
      (extract_l7_info engine to_text (hubble_flow ∷ []) [])
      (codes "undefined")
      (to_text 80)
      (codes "get")
      (codes "/items")
    ≡ Verdict.forwarded ∷ []
unfolding get_http_verdicts extract_l7_info l7_wrapped destination_port str_eq
    destination_service_id detect destination_labels
forwarded_get = refl

get_http_verdicts-extract_l7_info_example :
    has Verdict.forwarded (
      get_http_verdicts
        (extract_l7_info engine to_text (hubble_flow ∷ []) [])
        (codes "undefined")
        (to_text 80)
        (codes "get")
        (codes "/items"))
    ≡ (has Verdict.forwarded
          (get_http_verdicts [] (codes "undefined") (to_text 80) (codes "get") (codes "/items"))
        || any
            (λ f.
              is_at engine to_text
                (codes "undefined")
                (to_text 80)
                (kind_text http)
                (http_id_from_parts (codes "get") (codes "/items"))
                f
              && f.verdict == Verdict.forwarded)
            (hubble_flow ∷ []))
get_http_verdicts-extract_l7_info_example =
    get_http_verdicts-extract_l7_info engine to_text (hubble_flow ∷ []) [] (codes "undefined")
      (to_text 80) (codes "get") (codes "/items") Verdict.forwarded

-- The doubles of the program; at present dates 100 nanoseconds are lost in them.
far :
    milliseconds (record { seconds = 1_700_000_000; nanos = 123_456_789 })
    ≡ 8_028_023_021_461_405_056_811_285_771_976_704
unfolding milliseconds
far = refl

close :
    compare_times
      (some (record { seconds = 1_700_000_000; nanos = 0 }))
      (some (record { seconds = 1_700_000_000; nanos = 100 }))
    ≡ pos 0
unfolding compare_times
close = refl
