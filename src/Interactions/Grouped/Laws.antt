-- ===== src/Interactions/Grouped/Laws.antt =====
-- What stands under four keys after an upsert.
use hubble_ui.Prelude.{◌≡◌, ◌&&◌, some, Str, str_Eq, ◌==◌, eq_iff, arith, if◌then◌else◌}
use hubble_ui.Prelude.Maps.{get, get-put}
use hubble_ui.Interactions.PartialConnections.{inner}
use hubble_ui.Interactions.PartialConnections.Laws.{updated}
use hubble_ui.Interactions.Connections
use hubble_ui.Interactions.Connections.Laws.{lookup-upsert}
use hubble_ui.Interactions.Grouped.{Grouped, endpoint_of, upsert}

module _ {E : Type 0} (update : E → E → E) where
  -- An upsert sets or updates the endpoint under its four keys, and leaves all others.
  pub endpoint_of-upsert :
      (g : Grouped E) (rid port kind eid r p k e : Str) (ep : E)
      → endpoint_of (upsert update g rid port kind eid ep).0 r p k e ≡ (
          if rid == r && (port == p && (kind == k && eid == e))
          then some (updated update ep (endpoint_of g rid port kind eid))
          else endpoint_of g r p k e)
  unfolding endpoint_of upsert
  endpoint_of-upsert g rid port kind eid r p k e ep = ground (
    arith,
    get-put rid r (Connections.upsert update (inner (get rid g)) port kind eid ep).0 g,
    lookup-upsert update (inner (get rid g)) port kind eid p k e ep,
    eq_iff rid r,
  )
