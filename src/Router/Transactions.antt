-- ===== src/Router/Transactions.antt =====
-- src/router/transaction.ts, src/router/actions, src/router/utils.ts and the rest of
-- src/router/router.ts: the actions that wait for a commit, and what a commit makes of the location.
-- Search parameters are a list of names with values, as in a URL, where a name can stand several
-- times. The parser of URLs, `new URL(path, base).pathname`, is the parameter `url_pathname`; no
-- path is the exception that it throws. The state parameters are recorded and not read.
pub mod Laws
use mathlib.Core.List.{reverse}
use hubble_ui.Prelude.{
  ℕ, Bool, true, false, not, Option, none, some, List, [], ◌∷◌, ◌++◌, map, Str, str_Eq, codes, ◌==◌,
  nat_eq, is_empty, starts_with, if◌then◌else◌,
}
use hubble_ui.Prelude.Maps.{get, put}
use hubble_ui.Hubble.{Verdict}
use hubble_ui.Filtering.Entry.{FilterEntry}
use hubble_ui.Router.{flow_filters_param, route_flow_filters, verdicts_param, route_verdicts}

abbrev pub Params : Type 0
Params = List (Str × Str)

-- `searchParams.delete(name)` removes every pair with the name.
unfoldable pub delete_param : Str → Params → Params
delete_param name [] = []
delete_param name ((n, v) ∷ ps) =
    let rest = delete_param name ps in if n == name then rest else (n, v) ∷ rest

-- `searchParams.set(name, value)`: the first pair with the name gets the value, the others go.
unfoldable pub set_param : Str → Str → Params → Params
unfolding delete_param
set_param name value [] = (name, value) ∷ []
set_param name value ((n, v) ∷ ps) =
    let rest = set_param name value ps in
    if n == name then (n, value) ∷ delete_param name ps else (n, v) ∷ rest

unfoldable pub drop_slashes : Str → Str
drop_slashes [] = []
drop_slashes (c ∷ s) = let rest = drop_slashes s in if nat_eq c b'/' then rest else c ∷ s

-- The two regular expressions of `extractPathname`
unfoldable pub one_leading_slash : Str → Str
unfolding starts_with drop_slashes
one_leading_slash s = if starts_with s (codes "//") then b'/' ∷ drop_slashes s else s

unfoldable pub without_trailing_slashes : Str → Str
unfolding drop_slashes
without_trailing_slashes s = reverse (drop_slashes (reverse s))

abbrev or_root : Str → Str
or_root s = if is_empty s then codes "/" else s

module _ (url_pathname : Str → Option Str → Option Str) where
  unfoldable pub extract_pathname : Str → Str → Str
  unfolding one_leading_slash without_trailing_slashes
  extract_pathname url_or_path path_base =
      let safe_path = one_leading_slash url_or_path in
      elim (url_pathname safe_path (some (codes "http://localhost" ++ path_base))) [
        | some pathname ↦ or_root (without_trailing_slashes pathname)
        | none ↦ elim (url_pathname safe_path none) [
          | some pathname ↦ or_root (without_trailing_slashes pathname)
          | none ↦ codes "/"
        ]
      ]

  -- The path of a RoutePathAction
  unfoldable pub action_path : Str → Str
  unfolding extract_pathname starts_with drop_slashes
  action_path path =
      let pathname = extract_pathname path [] in
      if starts_with path (codes "/") then pathname else drop_slashes pathname

-- A RouteAction has one of its four fields; a value that is null or undefined is none.
pub data RouteAction : Type 0 where
  param state_param : Str → Option Str → RouteAction
  path : Str → RouteAction
  drop_all : RouteAction

pub record Runner : Type 0 where
  pub location_path : Str
  pub search_params : Params
  pub state_params : List (Str × Option Str)

pub record Router : Type 0 where
  pub location : Option Str
  pub params : Params
  pub transaction : List RouteAction

unfoldable pub new_runner : Option Str → Params → Runner
new_runner location params = record {
  location_path = elim location [ none ↦ codes "/" | some p ↦ or_root p ];
  search_params = params;
  state_params = [];
}

unfoldable pub update_route_param : Router → Str → Option Str → Router
update_route_param r name value = record r { transaction = r.transaction ++ param name value ∷ [] }

unfoldable pub drop_search_params : Router → Router
drop_search_params r = record r { transaction = r.transaction ++ drop_all ∷ [] }

unfoldable pub search_params_updated : Router → Params → Router
search_params_updated r params = record r { params = params }

module _ (url_pathname : Str → Option Str → Option Str) where
  unfoldable pub do_action : Runner → RouteAction → Runner
  unfolding extract_pathname set_param delete_param put
  do_action t (path p) = record t {
    location_path = extract_pathname url_pathname p t.location_path;
  }
  do_action t (param name none) = record t { search_params = delete_param name t.search_params }
  do_action t (param name (some value)) = record t {
    search_params = set_param name value t.search_params;
  }
  do_action t drop_all = record t { search_params = [] }
  do_action t (state_param name value) = record t { state_params = put name value t.state_params }

  unfoldable pub do_many : Runner → List RouteAction → Runner
  unfolding do_action
  do_many t [] = t
  do_many t (a ∷ actions) = do_many (do_action t a) actions

  unfoldable pub goto : Router → Str → List (Str × Option Str) → Router
  unfolding action_path
  goto r p pairs = record r {
    transaction =
        r.transaction
        ++ path (action_path url_pathname p) ∷ map (λ pair. param pair.0 pair.1) pairs;
  }

  -- The path and the search parameters that a commit emits; nothing is emitted without actions.
  unfoldable pub commit : Router → Router × Option (Str × Params)
  unfolding new_runner do_many
  commit r =
      let t = do_many (new_runner r.location r.params) r.transaction in
      (
        record r { transaction = [] },
        if is_empty r.transaction then none else some (t.location_path, t.search_params),
      )

-- What `getRouteParams` reads
pub record RouteParams : Type 0 where
  pub namespace : Option Str
  pub verdicts : List Verdict
  pub http_status : Option Str
  pub flow_filters : List FilterEntry

-- `searchParams.get(name)`
unfoldable pub param_of : Str → Params → Option Str
unfolding get
param_of name params = get name params

unfoldable pub get_route_params : (Str → Option ℕ) → Router → RouteParams
unfolding param_of route_verdicts route_flow_filters
get_route_params to_number r = record {
  namespace = param_of (codes "namespace") r.params;
  verdicts = route_verdicts to_number (param_of (codes "verdicts") r.params);
  http_status = param_of (codes "http-status") r.params;
  flow_filters = route_flow_filters (param_of (codes "flows-filter") r.params);
}

-- The four handlers that the router puts on the controls, with the value after the change
unfoldable pub namespace_changed : Router → Option Str → Router
unfolding update_route_param
namespace_changed r after = update_route_param r (codes "namespace") after

unfoldable pub verdicts_changed : Router → Option (List Verdict) → Router
unfolding update_route_param verdicts_param
verdicts_changed r after = update_route_param r (codes "verdicts") (verdicts_param after)

unfoldable pub http_status_changed : Router → Option Str → Router
unfolding update_route_param
http_status_changed r after = update_route_param r (codes "http-status") after

unfoldable pub flow_filters_changed : Router → Option (List FilterEntry) → Router
unfolding update_route_param flow_filters_param
flow_filters_changed r after =
    update_route_param r (codes "flows-filter") (flow_filters_param after)
