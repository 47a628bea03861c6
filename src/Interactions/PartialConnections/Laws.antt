-- ===== src/Interactions/PartialConnections/Laws.antt =====
-- What stands under two keys after an upsert.
use hubble_ui.Prelude.{
  ◌≡◌, inl, inr, ◌&&◌, Option, none, some, List, Str, str_Eq, ◌==◌, eq_iff, if◌then◌else◌, arith,
  Option-cases,
}
use hubble_ui.Prelude.Maps.{get, get-put}
use hubble_ui.Interactions.PartialConnections.{PartialConnections, inner, upsert_endpoint, upsert}

-- What an upsert leaves under its own key.
abbrev pub updated : {E : Type 0} → (E → E → E) → E → Option E → E
updated update ep none = ep
updated update ep (some old) = update old ep

module _ {E : Type 0} (update : E → E → E) where
  pub get-upsert_endpoint :
      (eid k : Str) (ep : E) (m : List (Str × E))
      → get k (upsert_endpoint update eid ep m)
        ≡ (if eid == k then some (updated update ep (get eid m)) else get k m)
  unfolding upsert_endpoint
  get-upsert_endpoint eid k ep m = elim (Option-cases (get eid m)) [
    | inl new ↦ ground (arith, new, get-put eid k ep m)
    | inr (old, found) ↦ ground (arith, found, get-put eid k (update old ep) m)
  ]

  pub get-upsert :
      (c : PartialConnections E) (rid eid r k : Str) (ep : E)
      → get k (inner (get r (upsert update c rid eid ep).0)) ≡ (
          if rid == r && eid == k
          then some (updated update ep (get eid (inner (get rid c))))
          else get k (inner (get r c)))
  unfolding upsert
  get-upsert c rid eid r k ep = ground (
    arith,
    get-put rid r (upsert_endpoint update eid ep (inner (get rid c))) c,
    get-upsert_endpoint eid k ep (inner (get rid c)),
    eq_iff rid r,
  )
