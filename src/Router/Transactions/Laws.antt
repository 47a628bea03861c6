-- ===== src/Router/Transactions/Laws.antt =====
-- What stands in the location after a commit, and what the router reads from it.
use hubble_ui.Prelude.{
  ◌≡◌, refl, ap, ◌∙◌, ℕ, false, Option, none, some, List, [], ◌∷◌, ◌++◌, All, Str, str_Eq, codes,
  ◌==◌, eq_iff, arith, str_eq, is_empty, if◌then◌else◌,
}
use hubble_ui.Prelude.Maps.{get}
use hubble_ui.Prelude.Sets.{SameElements, has}
use hubble_ui.Hubble.{Verdict, verdict_Eq}
use hubble_ui.Filtering.Entry.{FilterEntry}
use hubble_ui.Filtering.Entry.RoundTrip.{IsListable}
use hubble_ui.Helpers.Verdict.Laws.{ReadsDigits}
use hubble_ui.Router.Laws.{route_flow_filters-flow_filters_param, route_verdicts-verdicts_param}
use hubble_ui.Router.{flow_filters_param, route_flow_filters, verdicts_param, route_verdicts}
use hubble_ui.Router.Transactions.{
  Params, delete_param, set_param, RouteAction, param, state_param, path, drop_all, Runner, Router,
  new_runner, update_route_param, search_params_updated, do_action, do_many, commit, param_of,
  get_route_params, namespace_changed, verdicts_changed, http_status_changed, flow_filters_changed,
}

param_of-delete_param :
    (name k : Str) (ps : Params)
    → param_of k (delete_param name ps) ≡ (if name == k then none else param_of k ps)
unfolding param_of delete_param get
param_of-delete_param name k [] = ground arith
param_of-delete_param name k ((n, v) ∷ ps) =
    ground (arith, param_of-delete_param name k ps, eq_iff n name, eq_iff n k, eq_iff name k)

param_of-set_param :
    (name value k : Str) (ps : Params)
    → param_of k (set_param name value ps) ≡ (if name == k then some value else param_of k ps)
unfolding param_of set_param get
param_of-set_param name value k [] = ground arith
param_of-set_param name value k ((n, v) ∷ ps) = ground (
  arith,
  param_of-set_param name value k ps,
  param_of-delete_param name k ps,
  eq_iff n name,
  eq_iff n k,
  eq_iff name k,
)

-- The value of a parameter after some actions: the last one that was given to it, unless all
-- parameters were dropped later.
abbrev pub last_value : Str → List RouteAction → Option Str → Option Str
last_value k [] before = before
last_value k (param name value ∷ actions) before =
    last_value k actions (if name == k then value else before)
last_value k (drop_all ∷ actions) before = last_value k actions none
last_value k (path p ∷ actions) before = last_value k actions before
last_value k (state_param name value ∷ actions) before = last_value k actions before

module _ (url_pathname : Str → Option Str → Option Str) where
  param_of-do_many :
      (k : Str) (actions : List RouteAction) (t : Runner)
      → param_of k (do_many url_pathname t actions).search_params
        ≡ last_value k actions (param_of k t.search_params)
  unfolding do_many do_action
  param_of-do_many k [] t = refl
  param_of-do_many k (param name none ∷ actions) t =
      param_of-do_many k actions _
      ∙ ap (last_value k actions) (param_of-delete_param name k t.search_params)
  param_of-do_many k (param name (some value) ∷ actions) t =
      param_of-do_many k actions _
      ∙ ap (last_value k actions) (param_of-set_param name value k t.search_params)
  param_of-do_many k (drop_all ∷ actions) t =
      param_of-do_many k actions _ ∙ ap (last_value k actions) (unfold param_of get in refl)
  param_of-do_many k (path p ∷ actions) t = param_of-do_many k actions _
  param_of-do_many k (state_param name value ∷ actions) t = param_of-do_many k actions _

last_value-append :
    (k : Str) (xs ys : List RouteAction) (before : Option Str)
    → last_value k (xs ++ ys) before ≡ last_value k ys (last_value k xs before)
last_value-append k [] ys before = refl
last_value-append k (param name value ∷ xs) ys before = last_value-append k xs ys _
last_value-append k (drop_all ∷ xs) ys before = last_value-append k xs ys none
last_value-append k (path p ∷ xs) ys before = last_value-append k xs ys before
last_value-append k (state_param name value ∷ xs) ys before = last_value-append k xs ys before

abbrev pub committed : Option (Str × Params) → Params
committed none = []
committed (some (p, params)) = params

-- After a commit of some actions, each parameter has the value that was given to it last.
param_of-commit :
    (url_pathname : Str → Option Str → Option Str) (r : Router) (k : Str)
    → is_empty r.transaction ≡ false
    → param_of k (committed (commit url_pathname r).1)
      ≡ last_value k r.transaction (param_of k r.params)
unfolding commit new_runner
param_of-commit url_pathname r k some_actions =
    rw some_actions (param_of-do_many url_pathname k r.transaction (new_runner r.location r.params))

is_empty-append :
    (xs : List RouteAction) (a : RouteAction) (ys : List RouteAction)
    → is_empty (xs ++ a ∷ ys) ≡ false
is_empty-append [] a ys = refl
is_empty-append (x ∷ xs) a ys = refl

append-each :
    (xs : List RouteAction) (a b c d : RouteAction)
    → (((xs ++ a ∷ []) ++ b ∷ []) ++ c ∷ []) ++ d ∷ [] ≡ xs ++ a ∷ b ∷ c ∷ d ∷ []
append-each [] a b c d = refl
append-each (x ∷ xs) a b c d = ap (◌∷◌ x) (append-each xs a b c d)

-- The router with the four changes that wait for a commit
abbrev pub pending : Router → Option Str → List Verdict → Option Str → List FilterEntry → Router
pending r ns vs status fs =
    flow_filters_changed
      (http_status_changed (verdicts_changed (namespace_changed r ns) (some vs)) status) (some fs)

-- After a namespace, verdicts, a status and filter entries are changed and committed, and the location
-- has the parameters that were emitted, the router reads from it that namespace, those verdicts, as a
-- set, that status and those entries, whatever the location and the waiting actions were before. The
-- entries are ones that a text can list, and `+text` reads digits.
pub get_route_params-commit :
    (url_pathname : Str → Option Str → Option Str) (to_number : Str → Option ℕ) (r : Router)
    (ns status : Option Str) (vs : List Verdict) (fs : List FilterEntry)
    → ReadsDigits to_number
    → All IsListable fs
    → let emitted = (commit url_pathname (pending r ns vs status fs)).1 in
      let read = get_route_params to_number (search_params_updated r (committed emitted)) in
      (read.namespace ≡ ns)
      × SameElements read.verdicts vs
      × (read.http_status ≡ status)
      × (read.flow_filters ≡ fs)
unfolding get_route_params search_params_updated
get_route_params-commit url_pathname to_number r ns status vs fs digits listable = (
  reads (codes "namespace") ns (unfold str_eq in refl),
  (λ v.
      ap (λ p. has v (route_verdicts to_number p))
        (reads (codes "verdicts") (verdicts_param (some vs)) (unfold str_eq in refl))
      ∙ route_verdicts-verdicts_param to_number vs digits v),
  reads (codes "http-status") status (unfold str_eq in refl),
  ap route_flow_filters
        (reads (codes "flows-filter") (flow_filters_param (some fs)) (unfold str_eq in refl))
      ∙ route_flow_filters-flow_filters_param fs listable,
)
  where
    waiting : Router
    waiting = pending r ns vs status fs

    actions : List RouteAction
    actions =
        param (codes "namespace") ns
        ∷ param (codes "verdicts") (verdicts_param (some vs))
        ∷ param (codes "http-status") status
        ∷ param (codes "flows-filter") (flow_filters_param (some fs))
        ∷ []

    waits : waiting.transaction ≡ r.transaction ++ actions
    waits =
        unfold flow_filters_changed http_status_changed verdicts_changed namespace_changed
          update_route_param in
        append-each r.transaction (param (codes "namespace") ns)
          (param (codes "verdicts") (verdicts_param (some vs))) (param (codes "http-status") status)
          (param (codes "flows-filter") (flow_filters_param (some fs)))

    before : (k : Str) → param_of k waiting.params ≡ param_of k r.params
    before k =
        unfold flow_filters_changed http_status_changed verdicts_changed namespace_changed
          update_route_param in
        refl

    reads :
        (k : Str) (value : Option Str)
        → last_value k actions (last_value k r.transaction (param_of k r.params)) ≡ value
        → param_of k (committed (commit url_pathname waiting).1) ≡ value
    reads k value h =
        param_of-commit url_pathname waiting k
          (ap is_empty waits ∙ is_empty-append r.transaction _ _)
        ∙ (ap (last_value k waiting.transaction) (before k)
            ∙ (ap (λ acts. last_value k acts (param_of k r.params)) waits
                ∙ (last_value-append k r.transaction actions (param_of k r.params) ∙ h)))
