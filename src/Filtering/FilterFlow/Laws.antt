-- ===== src/Filtering/FilterFlow/Laws.antt =====
-- How the entries of the filters act on a flow.
use hubble_ui.Prelude.{
  ◌≡◌, refl, ◌==◌, str_Eq, to_lower_case, Bool, true, false, not, ◌||◌, ◌&&◌, Option, some, List,
  [], ◌∷◌, All, any, arith, Bool-cases,
}
use hubble_ui.Flow.{Flow, Runtime, has_tcp_flag}
use hubble_ui.Prelude.Sets.{has, IsDistinct}
use hubble_ui.Hubble.{verdict_Eq}
use hubble_ui.Filtering.Entry.{
  FilterEntry, from_required, to_required, to_string, label_key_value, as_workload, either, from,
  to,
}
use hubble_ui.Filtering.Filters
use hubble_ui.Filtering.Filters.{Filters, or_empty}
use hubble_ui.Filtering.Filters.Laws.{equals_iff}
use hubble_ui.Filtering.FilterFlow.{
  decide_entries, filter_flow_by_entry, filter_flow, passes_fields, matches_sender,
  matches_receiver,
}

matches_either-negated :
    (rt : Runtime) (f : Flow) (e : FilterEntry) (b : Bool)
    → (matches_sender rt f (record e { negative = b })
        || matches_receiver rt f (record e { negative = b }))
      ≡ (matches_sender rt f e || matches_receiver rt f e)
unfolding matches_sender matches_receiver from_required to_required has any label_key_value
    as_workload
matches_either-negated rt f e b = refl

-- An entry and its negation, alike in all but the exclamation mark, never give the same answer on
-- a flow.
filter_flow_by_entry-negated :
    (rt : Runtime) (f : Flow) (e : FilterEntry)
    → filter_flow_by_entry rt f (record e { negative = not e.negative })
      ≡ not (filter_flow_by_entry rt f e)
unfolding filter_flow_by_entry
filter_flow_by_entry-negated rt f e = ground (
  arith,
  matches_either-negated rt f e (not e.negative),
  Bool-cases (matches_sender rt f e || matches_receiver rt f e),
  Bool-cases (has_tcp_flag f (to_lower_case e.query)),
  Bool-cases e.negative,
)

abbrev pub Negative : FilterEntry → Type 0
Negative e = e.negative ≡ true

-- If every entry that the loop meets is negative, the loop is over without a match.
pub decide_entries-Negative :
    (pass : FilterEntry → Bool) (es : List FilterEntry)
    → All Negative es
    → decide_entries pass es ≡ false
unfolding decide_entries
decide_entries-Negative pass [] h = refl
decide_entries-Negative pass (e ∷ es) h =
    ground (arith, decide_entries-Negative pass es h.1, h.0, Bool-cases (pass e))

-- Filters with entries, all of them negative, keep no flow at all.
filter_flow-Negative :
    (rt : Runtime) (f : Flow) (fs : Filters) (e : FilterEntry) (es : List FilterEntry)
    → fs.filters ≡ some (e ∷ es)
    → All Negative (e ∷ es)
    → filter_flow rt f fs ≡ false
unfolding filter_flow
filter_flow-Negative rt f fs e es h hs =
    ground (arith, h, decide_entries-Negative (filter_flow_by_entry rt f) (e ∷ es) hs)

matches_sender-direction :
    (rt : Runtime) (f : Flow) (e : FilterEntry)
    → (matches_sender rt f (record e { direction = either })
        ≡ matches_sender rt f (record e { direction = from }))
      × (matches_sender rt f (record e { direction = to }) ≡ false)
unfolding matches_sender from_required has any label_key_value as_workload
matches_sender-direction rt f e = (refl, refl)

matches_receiver-direction :
    (rt : Runtime) (f : Flow) (e : FilterEntry)
    → (matches_receiver rt f (record e { direction = either })
        ≡ matches_receiver rt f (record e { direction = to }))
      × (matches_receiver rt f (record e { direction = from }) ≡ false)
unfolding matches_receiver to_required has any label_key_value as_workload
matches_receiver-direction rt f e = (refl, refl)

-- A positive entry in either direction keeps the flows that the entry keeps in the direction from, or in
-- the direction to.
filter_flow_by_entry-either :
    (rt : Runtime) (f : Flow) (e : FilterEntry)
    → e.negative ≡ false
    → filter_flow_by_entry rt f (record e { direction = either }) ≡ (
        filter_flow_by_entry rt f (record e { direction = from })
        || filter_flow_by_entry rt f (record e { direction = to }))
unfolding filter_flow_by_entry
filter_flow_by_entry-either rt f e h =
    ground (arith, h, matches_sender-direction rt f e, matches_receiver-direction rt f e)

abbrev pub Positive : FilterEntry → Type 0
Positive e = e.negative ≡ false

decide_entries-Positive :
    (pass : FilterEntry → Bool) (es : List FilterEntry)
    → All Positive es
    → decide_entries pass es ≡ any pass es
unfolding decide_entries any
decide_entries-Positive pass [] h = refl
decide_entries-Positive pass (e ∷ es) h =
    ground (arith, decide_entries-Positive pass es h.1, h.0, Bool-cases (pass e))

-- Filters with entries, none of them negative, keep the flows that meet the conditions on the
-- fields and that some entry keeps.
pub filter_flow-Positive :
    (rt : Runtime) (f : Flow) (fs : Filters) (e : FilterEntry) (es : List FilterEntry)
    → fs.filters ≡ some (e ∷ es)
    → All Positive (e ∷ es)
    → filter_flow rt f fs ≡ (passes_fields rt f fs && any (filter_flow_by_entry rt f) (e ∷ es))
unfolding filter_flow
filter_flow-Positive rt f fs e es h hs = ground (
  arith,
  h,
  decide_entries-Positive (filter_flow_by_entry rt f) (e ∷ es) hs,
  Bool-cases (passes_fields rt f fs),
)

passes_fields-filters :
    (rt : Runtime) (f : Flow) (fs : Filters) (es : Option (List FilterEntry))
    → passes_fields rt f (record fs { filters = es }) ≡ passes_fields rt f fs
unfolding passes_fields
passes_fields-filters rt f fs es = refl

-- A flow meets the conditions on the fields, a positive entry keeps it and a negative one does not.
-- Then the filters with the positive entry in front keep the flow, those with the negative entry in
-- front do not, and yet `equals` holds of the two.
pub filter_flow-order :
    (rt : Runtime) (f : Flow) (fs : Filters) (p n : FilterEntry)
    → IsDistinct (or_empty fs.verdicts)
    → passes_fields rt f fs ≡ true
    → p.negative ≡ false
    → filter_flow_by_entry rt f p ≡ true
    → n.negative ≡ true
    → filter_flow_by_entry rt f n ≡ false
    → let front = record fs { filters = some (p ∷ n ∷ []) } in
      let back = record fs { filters = some (n ∷ p ∷ []) } in
      (Filters.equals front back ≡ true)
      × (filter_flow rt f front ≡ true)
      × (filter_flow rt f back ≡ false)
unfolding filter_flow decide_entries
filter_flow-order rt f fs p n distinct fields positive kept negative dropped = (
  (equals_iff (record fs { filters = some (p ∷ n ∷ []) })
        (record fs { filters = some (n ∷ p ∷ []) }) distinct distinct).1
      (
        refl,
        refl,
        refl,
        refl,
        refl,
        refl,
        (λ k. refl),
        λ k.
            unfold has any in
            ground (arith, Bool-cases (to_string p == k), Bool-cases (to_string n == k)),
      ),
  ground (arith, passes_fields-filters rt f fs (some (p ∷ n ∷ [])), fields, positive, kept),
  ground (arith, passes_fields-filters rt f fs (some (n ∷ p ∷ [])), fields, negative, dropped),
)
