-- ===== src/Interactions/PartialConnections.antt =====
-- src/domain/interactions/new-connections.ts: the class PartialConnections, a map of maps. The
-- endpoints' optional method `update` is the argument `update`: what the stored endpoint becomes. For
-- endpoints without that method it returns the stored one.
pub mod Laws
use hubble_ui.Prelude.{Bool, not, Option, none, some, List, [], ◌∷◌, Str, str_Eq, length, ℕ}
use hubble_ui.Prelude.Maps.{get, put, is_some}
use hubble_ui.Prelude.Sets.{has}

abbrev pub PartialConnections : Type 0 → Type 0
PartialConnections E = List (Str × List (Str × E))

-- The map under a key, or a new one
abbrev pub inner {ℓ} : {V : Type ℓ} → Option (List V) → List V
inner none = []
inner (some m) = m

module _ {E : Type 0} where
  unfoldable pub size : PartialConnections E → ℕ
  size c = length c

  -- `has(rid, eid)`, where the endpoint may be left out
  unfoldable pub has_endpoint : PartialConnections E → Str → Option Str → Bool
  unfolding get
  has_endpoint c rid none = is_some (get rid c)
  has_endpoint c rid (some eid) = is_some (get eid (inner (get rid c)))

  unfoldable pub set_all : List (Str × E) → List (Str × E) → List (Str × E)
  unfolding put
  set_all m [] = m
  set_all m ((key, ep) ∷ endpoints) = set_all (put key ep m) endpoints

  unfoldable pub endpoint_map_from : List (Str × E) → PartialConnections E → List (Str × E)
  unfolding set_all
  endpoint_map_from m [] = m
  endpoint_map_from m ((rid, endpoints) ∷ c) = endpoint_map_from (set_all m endpoints) c

  unfoldable pub endpoint_map : PartialConnections E → List (Str × E)
  unfolding endpoint_map_from
  endpoint_map c = endpoint_map_from [] c

module _ {E : Type 0} (update : E → E → E) where
  -- The endpoint under a key is set, or updated with the given one.
  unfoldable pub upsert_endpoint : Str → E → List (Str × E) → List (Str × E)
  unfolding get put
  upsert_endpoint eid ep m = elim (get eid m) [
    | none ↦ put eid ep m
    | some old ↦ put eid (update old ep) m
  ]

  unfoldable pub upsert : PartialConnections E → Str → Str → E → PartialConnections E × Bool
  unfolding get put upsert_endpoint
  upsert c rid eid ep =
      let to_receiver = inner (get rid c) in
      (put rid (upsert_endpoint eid ep to_receiver) c, not (is_some (get eid to_receiver)))

  unfoldable pub upsert_each : List (Str × E) → List (Str × E) → List (Str × E)
  unfolding upsert_endpoint
  upsert_each m [] = m
  upsert_each m ((eid, ep) ∷ incomings) = upsert_each (upsert_endpoint eid ep m) incomings

  unfoldable pub upsert_map : PartialConnections E → Str → List (Str × E) → PartialConnections E
  unfolding get put upsert_each
  upsert_map c rid incomings = elim (get rid c) [
    | none ↦ put rid incomings c
    | some receiver_incomings ↦ put rid (upsert_each receiver_incomings incomings) c
  ]
