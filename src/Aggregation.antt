-- ===== src/Aggregation.antt =====
-- src/domain/aggregation/index.ts: by what flows are aggregated, and for which changes of state.
pub mod Laws
use hubble_ui.Prelude.{
  ℕ, Bool, true, false, not, ◌&&◌, Option, none, some, List, [], ◌∷◌, ◌++◌, map, all, any, filter,
  length, Str, str_eq, str_Eq, codes, nat_eq, if◌then◌else◌,
}
use hubble_ui.Prelude.Sets.{has, from_list}

pub data AggregatorType : Type 0 where
  unknown connection identity : AggregatorType

pub data StateChange : Type 0 where
  unspec new established first_error error closed : StateChange

unfoldable pub type_text : AggregatorType → Str
type_text unknown = codes "unknown"
type_text connection = codes "connection"
type_text identity = codes "identity"

unfoldable pub change_text : StateChange → Str
change_text unspec = codes "unspecified"
change_text new = codes "new"
change_text established = codes "established"
change_text first_error = codes "first-error"
change_text error = codes "error"
change_text closed = codes "closed"

unfoldable pub parse_aggregator_type : Str → Option AggregatorType
unfolding type_text
parse_aggregator_type s =
    if str_eq s (type_text unknown)
    then some unknown
    else if str_eq s (type_text connection)
    then some connection
    else if str_eq s (type_text identity)
    then some identity
    else none

unfoldable pub parse_state_change : Str → Option StateChange
unfolding change_text
parse_state_change s =
    if str_eq s (change_text unspec)
    then some unspec
    else if str_eq s (change_text new)
    then some new
    else if str_eq s (change_text established)
    then some established
    else if str_eq s (change_text first_error)
    then some first_error
    else if str_eq s (change_text error)
    then some error
    else if str_eq s (change_text closed)
    then some closed
    else none

pub record Aggregator : Type 0 where
  pub kind : AggregatorType
  pub ignore_source_port : Bool

pub record Aggregation : Type 0 where
  pub aggregators : List Aggregator
  pub state_change : StateChange

unfoldable pub default : Aggregation
default = record {
  aggregators = record { kind = identity; ignore_source_port = false } ∷ [];
  state_change = new;
}

-- The text `${agg.type}/${agg.ignoreSourcePort}`
unfoldable pub key_of : Aggregator → Str
unfolding type_text
key_of a =
    type_text a.kind
    ++ (codes "/" ++ (if a.ignore_source_port then codes "true" else codes "false"))

abbrev pub keys_of : Aggregation → List Str
keys_of a = map key_of a.aggregators

unfoldable pub equals : Aggregation → Aggregation → Bool
unfolding change_text key_of
equals a rhs =
    str_eq (change_text a.state_change) (change_text rhs.state_change)
    && (nat_eq (length (keys_of a)) (length (keys_of rhs))
        && all (λ k. has k (from_list (keys_of a))) (keys_of rhs))

unfoldable pub set_state_change : Aggregation → StateChange → Aggregation
set_state_change a change = record a { state_change = change }

unfoldable pub set_aggregators : Aggregation → List Aggregator → Aggregation
set_aggregators a aggregators = record a { aggregators = aggregators }

unfoldable pub set_aggreator_types : Aggregation → List AggregatorType → Aggregation
set_aggreator_types a kinds = record a {
  aggregators = map (λ k. record { kind = k; ignore_source_port = false }) kinds;
}

unfoldable pub has_aggregator_type : Aggregation → AggregatorType → Bool
unfolding any type_text
has_aggregator_type a kind = any (λ agg. str_eq (type_text agg.kind) (type_text kind)) a.aggregators

unfoldable pub toggle_aggregator_type : Aggregation → AggregatorType → Aggregation
unfolding filter type_text
toggle_aggregator_type a kind =
    let others = filter (λ agg. not (str_eq (type_text agg.kind) (type_text kind))) a.aggregators in
    if nat_eq (length others) (length a.aggregators)
    then record a {
      aggregators = others ++ record { kind = kind; ignore_source_port = false } ∷ [];
    }
    else record a { aggregators = others }
