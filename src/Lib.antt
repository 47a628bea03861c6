-- ===== src/Lib.antt =====
-- The filters of Hubble UI, the browser program that shows the flows between the services of a
-- Kubernetes cluster: what the user filters by, how it is stored in the location and read again,
-- how a change of it is noticed, and which flows, links and services it keeps.
--
-- The router reads the filter entries and the verdicts from the location's search parameters and
-- stores them there. The entries are a part of the filters, with verdicts, a namespace and a few
-- flags; the control store keeps the filters, and tells its listeners of a change by a difference
-- of filters. The filters are tested on flows, links and services, whose labels and workloads the
-- label and workload functions read.
--
-- The stores keep what the filters are tested on: the links, the cards of the services, and the newest
-- flows, with the endpoints that these tell of. From the connections of the links the placement gives
-- each card its place on the map. The streams bring the data, with retries and timers, and the status
-- center logs what goes wrong on the way.
--
-- Which file models which part:
--   Prelude, Prelude/*: Boolean tests, lists, texts, sets and maps that the parts share.
--   Labels, Labels/Search, Labels/Detect (src/domain/labels.ts): `to_kv` is `toKV`, `normalize_key`
--     is `normalizeKey`, `detect` is `detect`, and so on; a method is named as in the source, in
--     snake case. Labels/Laws has the theorems.
--   Helpers/Workload (src/domain/helpers/workload.ts): `equals`, `includes`, `get_kind_shorthand`,
--     and the table `k8s_shorthands`.
--   Hubble (src/domain/hubble.ts): the verdicts, protocols and kinds of authentication.
--   Link (src/domain/link.ts): links. The counters of the HubbleLink objects that links share are a
--     heap, by the object's address.
--   Interactions/Endpoints, PartialConnections, Connections, LinkConnections, Grouped
--     (src/domain/interactions/endpoints.ts, new-connections.ts, connections.ts): the access points of
--     a service, and which link goes from which service to which other one.
--   ServiceMap/Card (src/domain/service-map/card.ts): the cards of the service map.
--   Flow (src/domain/flows/index.ts): the record of a flow and the getters that the filters call.
--   Filtering/Entry, Filtering/Entry/Builders (src/domain/filtering/filter-entry.ts): entries,
--     `parse`, `parse_many`, `to_string`, the builders and setters. Filtering/Entry/Combine is
--     `FilterEntry.combine`; its local variables are the record `Combining`, and each loop is a
--     function over the list.
--   Filtering/Filters (src/domain/filtering/filters.ts): the record of the filters, `equals`, `clone`.
--   Diff (src/domain/diff/index.ts, src/domain/misc.ts): one value before and after a change, with
--     the kept answer; each method that changes `this` returns the next state.
--   Filtering/FiltersDiff (src/domain/filtering/filters-diff.ts): a difference for each field.
--   Filtering/FilterFlow, Filtering/FilterLink, Filtering/FilterService
--     (src/domain/filtering/filter-flow.ts, filter-link.ts, filter-service.ts): which flows, links and
--     services the filters keep; `decide_entries` is the loop over the entries.
--   Filtering/MapFilter (src/domain/filtering/index.ts): the filter of the flows, links and cards.
--     What its callbacks fill are the records `Gathered` and `Kept`.
--   Store/Links, Store/Services, Store/Namespaces (src/store/stores/interaction.ts, service.ts,
--     namespace.ts): the stores of links, cards and namespaces. Store/Links/Invariant has the stores
--     that actions lead to.
--     Interactions/Layer7 (src/domain/interactions/endpoints.ts, src/domain/helpers/l7.ts): the
--     endpoints of layer 7 that the interaction store reads of the flows.
--     Store/Flows (interaction.ts): the flows that the store keeps.
--   Store/Controls (src/store/stores/controls.ts): what the user chose. Store/Frames (src/store/frame.ts,
--     src/store/stores/main.ts): the stores of a frame, and the current frame made of the global one.
--   Api/Stream (src/api/customprotocol-core/stream.ts): what a stream does on each reply.
--   Utils/Retries (src/utils/retry): the loop of `try`. Utils/Emitter (src/utils/emitter.ts): handlers
--     and the events kept for them. Utils/Options, Utils/Results (src/utils/option.ts, result.ts).
--   Utils/Timer (src/utils/timer.ts): timers and the timeouts that are active. Utils/Ticker
--     (src/utils/ticker.ts): named intervals.
--   Status/Center, Status/Entry, Status/Errors (src/ui-layer/status-center.ts, src/ui/status-center,
--     src/api/grpc/error.ts): the log of entries on a heap that the log, the pending and the keyed
--     entries share. Status/Notices (also src/domain/notifications): what is pushed into it.
--   Placement/Groups, Placement/Columns, Placement/Coordinates (src/ui-layer/service-map/coordinates/
--     placement.ts): the kinds and weights of the cards, their columns, and where they are placed.
--   Aggregation (src/domain/aggregation/index.ts): by what flows are aggregated.
--   Utils/Combinations (src/utils/iter-tools/combinations.ts): tuples of indices.
--   Helpers/Time (src/domain/helpers/time.ts, index.ts): dates, times and timestamps.
--   Helpers/Verdict (src/domain/helpers/verdict.ts): verdicts read from texts and written as texts.
--   Router, Router/Transactions (src/router/router.ts, transaction.ts, actions, utils.ts): the parameters
--     of the filter entries and of the verdicts, and the actions that a commit applies to the location.
--   Tests, Tests/*: the theorems at concrete data.
--
-- How the code is modelled. A text is its list of code units; `toLowerCase` is that of ASCII. A value
-- that may be null or undefined is an Option; where the two differ for the code, the definition says
-- so. A set is a list without repetitions, as it is made, and a map a list of keys with their values,
-- in the order of insertion. Loops are structural recursion over the list that they run over, and
-- need no fuel; the loops of `asArray`, `try` and `completeEntryDescendants` run on fuel, and their
-- theorems say how many rounds are enough. The times of flows are compared in doubles, which
-- Prelude/Doubles rounds as the language does: a double is a number of units of 2 ^ -72, and 1100
-- doublings of the unit reach beyond the greatest one. The arithmetic of delays, which are floating
-- point numbers, is a parameter. An
-- object that only one place refers to is a value that is replaced. Fields that keep a value
-- computed before are left out, but for the answer of a difference, which can be set. What is not in
-- the repository is a parameter: `parseInt`, the unary plus and the package url-parse are the record
-- `Runtime` of Flow, lodash's `cloneDeep` and `isEqual` the record `Value` of Diff,
-- its `uniqBy` and the parser of URLs arguments of the functions that call them.
--
-- Not modelled: the messages and clients of the API, and times with a fraction of a nanosecond.
-- Rectangles and arrows compute with floating point numbers; of these only the placement of cards
-- is modelled, with lengths as natural numbers of a unit in which its halves are exact. The components
-- are React views, and the backend is another program.
pub mod Prelude
pub mod Hubble
pub mod Labels
pub mod Diff
pub mod Flow
pub mod Helpers
pub mod Filtering
pub mod Router
pub mod Utils
pub mod Tests
pub mod Link
pub mod Interactions
pub mod ServiceMap
pub mod Status
pub mod Placement
pub mod Store
pub mod Api
pub mod Aggregation
