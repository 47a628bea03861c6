-- ===== src/Store/Flows.antt =====
-- src/store/stores/interaction.ts: the flows of the interaction store; with `id` and `compare` of
-- src/domain/flows/index.ts, and `compareTimes` of src/domain/helpers/time.ts.
pub mod Laws
use hubble_ui.Prelude.{
  ℕ, ◌+◌, ◌-◌, ◌*◌, ◌/◌, Bool, true, false, not, Option, none, some, List, [], ◌∷◌, ◌++◌, Str,
  codes, length, map, take, is_empty, leb, ltb, if◌then◌else◌,
}
use hubble_ui.Prelude.Int.{ℤ, pos, sub_ℕ, leb_ℤ}
use hubble_ui.Prelude.Doubles.{to_double, sub_double}
use hubble_ui.Prelude.Sorting.{sort}
use hubble_ui.Flow.{Flow, Runtime}
use hubble_ui.Interactions.Grouped.{Grouped}
use hubble_ui.Interactions.Layer7.{L7Endpoint, extract_l7_info}
use hubble_ui.Helpers.Time.{Time}

-- A flow of the table; `first_read` is the date at which the id of a flow without a time is read.
pub record TableFlow : Type 0 where
  pub given_id : Option Str
  pub first_read : ℕ
  pub time : Option Time
  pub node_name : Str
  pub ref : Flow

-- 2 ^ 72, of which a millisecond has that many units: `nanos / 1e6` is 0 or more than 2 ^ -20, so that
-- its double and all greater ones are multiples of 2 ^ -72.
abbrev pub unit : ℕ
unit = 4_722_366_482_869_645_213_696

-- `seconds * 1e3 + nanos / 1e6` in doubles, each operation with its rounding
unfoldable pub milliseconds : Time → ℕ
unfolding to_double
milliseconds t =
    to_double (to_double (t.seconds * 1000 * unit) 1 + to_double (t.nanos * unit) 1_000_000) 1

-- The difference of the doubles, in the same units
unfoldable pub compare_times : Option Time → Option Time → ℤ
unfolding milliseconds sub_double
compare_times none rhs = pos 0
compare_times (some l) none = pos 0
compare_times (some l) (some r) = sub_double (milliseconds l) (milliseconds r)

unfoldable pub compare : TableFlow → TableFlow → ℤ
unfolding compare_times
compare a b = compare_times a.time b.time

-- Whether `sort` lets `a` stand before `b`
unfoldable pub may_precede : Bool → TableFlow → TableFlow → Bool
unfolding compare
may_precede sort_desc a b = leb_ℤ (if sort_desc then compare b a else compare a b) (pos 0)

pub record FlowsInfo : Type 0 where
  pub last_time : ℕ
  pub flows_cnt : ℕ
  pub tmp_flows_cnt : ℕ
  pub check_cnt : ℕ

pub record FlowStore : Type 0 where
  pub flows : List TableFlow
  pub flows_info : FlowsInfo
  pub l7endpoints : Grouped L7Endpoint

unfoldable pub new : ℕ → FlowStore
new now = record {
  flows = [];
  flows_info = record { last_time = now; flows_cnt = 0; tmp_flows_cnt = 0; check_cnt = 0 };
  l7endpoints = [];
}

abbrev pub flows_max_count : ℕ
flows_max_count = 1024

unfoldable pub oldest_flow : List TableFlow → Option TableFlow
oldest_flow [] = none
oldest_flow (f ∷ []) = some f
oldest_flow (f ∷ g ∷ fs) = oldest_flow (g ∷ fs)

unfoldable pub clear_flows : FlowStore → FlowStore
clear_flows s = record s { flows = [] }

-- What `clear` does to the flows and the endpoints
unfoldable pub clear : FlowStore → FlowStore
unfolding clear_flows
clear s = record (clear_flows s) { l7endpoints = [] }

unfoldable pub set_flows : Bool → List TableFlow → FlowStore → FlowStore
unfolding sort may_precede
set_flows sorted flows s = record s {
  flows = if sorted then sort (may_precede true) flows else flows;
}

-- `Math.round(a / b)`
abbrev pub round_ratio : ℕ → ℕ → ℕ
round_ratio a b = (2 * a + b) / (2 * b)

-- The counters after some new flows, and whether the program warns of too many
unfoldable pub count_flows : ℕ → ℕ → FlowsInfo → FlowsInfo × Bool
count_flows now added info =
    let total = info.tmp_flows_cnt + added in
    if leb 1000 (now - info.last_time)
    then (
      record {
        last_time = now;
        flows_cnt = total;
        tmp_flows_cnt = total;
        check_cnt = info.check_cnt + 1;
      },
      ltb 500 (round_ratio total (info.check_cnt + 1)),
    )
    else (record info { tmp_flows_cnt = total }, false)

pub record FlowCounts : Type 0 where
  pub flows_total_count : ℕ
  pub flows_diff_count : ℕ

-- `String(n)`
module _ (to_text : ℕ → Str) where
  abbrev pub time_text : TableFlow → Str
  time_text f = elim f.time [
    | none ↦ to_text f.first_read
    | some t ↦ to_text t.seconds ++ (codes "." ++ to_text t.nanos)
  ]

  unfoldable pub id : TableFlow → Str
  id f =
      let made = time_text f ++ (codes "-" ++ f.node_name) in
      elim f.given_id [ none ↦ made | some given ↦ if is_empty given then made else given ]

-- lodash's `uniqBy`
module _ (to_text : ℕ → Str) (uniq_by : (TableFlow → Str) → List TableFlow → List TableFlow) where
  -- The chain of lodash in `addFlows`
  unfoldable pub merge_flows : Bool → List TableFlow → List TableFlow → List TableFlow
  unfolding id sort may_precede
  merge_flows sort_desc new_flows flows =
      take flows_max_count
        (sort (may_precede sort_desc) (uniq_by (id to_text) (new_flows ++ flows)))

-- `rt` is what the flows' getters take of the engine.
module _ (rt : Runtime) (to_text : ℕ → Str)
    (uniq_by : (TableFlow → Str) → List TableFlow → List TableFlow) where
  unfoldable pub add_flows : ℕ → Bool → List TableFlow → FlowStore → FlowStore × FlowCounts
  unfolding merge_flows count_flows extract_l7_info
  add_flows now sort_desc new_flows s =
      let merged = merge_flows to_text uniq_by sort_desc new_flows s.flows in
      (
        record {
          flows = merged;
          flows_info = (count_flows now (length new_flows) s.flows_info).0;
          l7endpoints = extract_l7_info rt to_text (map (λ f. f.ref) new_flows) s.l7endpoints;
        },
        record { flows_total_count = length merged; flows_diff_count = length new_flows },
      )

  -- The flows in `moveTo`: the other store with them, and `newFlows`
  unfoldable pub move_flows : ℕ → FlowStore → FlowStore → FlowStore × ℤ
  unfolding add_flows
  move_flows now s rhs =
      let (moved, counts) = add_flows now true s.flows rhs in
      (moved, sub_ℕ (length rhs.flows) counts.flows_total_count)
