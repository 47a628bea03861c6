-- ===== src/Interactions/Connections.antt =====
-- src/domain/interactions/new-connections.ts: the class Connections, a map of PartialConnections.
pub mod Laws
use hubble_ui.Prelude.{Bool, Option, none, some, List, [], ◌∷◌, Str, str_Eq}
use hubble_ui.Prelude.Maps.{get, put, values}
use hubble_ui.Interactions.PartialConnections
use hubble_ui.Interactions.PartialConnections.{PartialConnections, inner, set_all, endpoint_map}

abbrev pub Connections : Type 0 → Type 0
Connections E = List (Str × PartialConnections E)

module _ {E : Type 0} where
  -- `c.get(sid)?.get(rid)?.get(eid)`
  unfoldable pub lookup : Connections E → Str → Str → Str → Option E
  unfolding get
  lookup c sid rid eid = get eid (inner (get rid (inner (get sid c))))

  unfoldable pub endpoint_map_from : List (Str × E) → Connections E → List (Str × E)
  unfolding set_all endpoint_map
  endpoint_map_from m [] = m
  endpoint_map_from m ((sid, partial) ∷ c) = endpoint_map_from (set_all m (endpoint_map partial)) c

  unfoldable pub endpoint_list : Connections E → List E
  unfolding endpoint_map_from
  endpoint_list c = values (endpoint_map_from [] c)

module _ {E : Type 0} (update : E → E → E) where
  -- `ensureSenderId` makes the sender's map where it is missing.
  unfoldable pub upsert : Connections E → Str → Str → Str → E → Connections E × Bool
  unfolding get put PartialConnections.upsert
  upsert c sid rid eid ep =
      let (partial, is_new) = PartialConnections.upsert update (inner (get sid c)) rid eid ep in
      (put sid partial c, is_new)

  unfoldable pub upsert_endpoints : Connections E → Str → Str → List (Str × E) → Connections E
  unfolding get put PartialConnections.upsert_map
  upsert_endpoints c sid rid eps =
      put sid (PartialConnections.upsert_map update (inner (get sid c)) rid eps) c

  -- The three loops of `getInversed`
  unfoldable pub inverse_endpoints : Connections E → Str → Str → List (Str × E) → Connections E
  inverse_endpoints inv sid rid [] = inv
  inverse_endpoints inv sid rid ((eid, ep) ∷ endpoints) =
      inverse_endpoints (upsert inv rid sid eid ep).0 sid rid endpoints

  unfoldable pub inverse_partial : Connections E → Str → PartialConnections E → Connections E
  inverse_partial inv sid [] = inv
  inverse_partial inv sid ((rid, endpoints) ∷ partial) =
      inverse_partial (inverse_endpoints inv sid rid endpoints) sid partial

  unfoldable pub inverse_from : Connections E → Connections E → Connections E
  inverse_from inv [] = inv
  inverse_from inv ((sid, partial) ∷ c) = inverse_from (inverse_partial inv sid partial) c

  unfoldable pub get_inversed : Connections E → Connections E
  get_inversed c = inverse_from [] c
