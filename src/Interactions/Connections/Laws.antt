-- ===== src/Interactions/Connections/Laws.antt =====
-- What stands under three keys after an upsert, and in the inversed connections.
use hubble_ui.Prelude.{
  ◌≡◌, refl, inl, inr, Bool, true, ◌&&◌, Option, none, some, List, [], ◌∷◌, All, Str, str_Eq, ◌==◌,
  eq_iff, eq_refl, if◌then◌else◌, arith, Option-cases,
}
use hubble_ui.Prelude.Maps.{get, put, keys, get-put, has-keys, put-IsDistinct, All-put, All-get}
use hubble_ui.Prelude.Sets.{has, IsDistinct}
use hubble_ui.Interactions.PartialConnections
use hubble_ui.Interactions.PartialConnections.{PartialConnections, inner}
use hubble_ui.Interactions.PartialConnections.Laws.{updated, get-upsert}
use hubble_ui.Interactions.Connections.{
  Connections, lookup, upsert, inverse_endpoints, inverse_partial, inverse_from, get_inversed,
}

-- Each key stands once, at each of the three levels.
abbrev pub IsWellKeyed : {E : Type 0} → Connections E → Type 0
IsWellKeyed c =
    IsDistinct (keys c) × All (λ p. IsDistinct (keys p.1) × All (λ q. IsDistinct (keys q.1)) p.1) c

-- The first of two values that is there
abbrev first_of : {E : Type 0} → Option E → Option E → Option E
first_of none b = b
first_of (some a) b = some a

abbrev only_if : {E : Type 0} → Bool → Option E → Option E
only_if b o = if b then o else none

module _ {E : Type 0} (update : E → E → E) where
  -- An upsert sets or updates the endpoint under its three keys, and leaves all others.
  pub lookup-upsert :
      (c : Connections E) (sid rid eid s r k : Str) (ep : E)
      → lookup (upsert update c sid rid eid ep).0 s r k ≡ (
          if sid == s && (rid == r && eid == k)
          then some (updated update ep (lookup c sid rid eid))
          else lookup c s r k)
  unfolding upsert lookup
  lookup-upsert c sid rid eid s r k ep = ground (
    arith,
    get-put sid s (PartialConnections.upsert update (inner (get sid c)) rid eid ep).0 c,
    get-upsert update (inner (get sid c)) rid eid r k ep,
    eq_iff sid s,
  )

  inverse_endpoints_lem :
      (inv : Connections E) (sid rid : Str) (eps : List (Str × E)) (s r k : Str)
      → IsDistinct (keys eps)
      → ((e : Str) → has e (keys eps) ≡ true → lookup inv rid sid e ≡ none)
      → lookup (inverse_endpoints update inv sid rid eps) r s k
        ≡ first_of (only_if (rid == r && sid == s) (get k eps)) (lookup inv r s k)
  unfolding inverse_endpoints get has
  inverse_endpoints_lem inv sid rid [] s r k d free = ground arith
  inverse_endpoints_lem inv sid rid ((eid, ep) ∷ eps) s r k (new, d) free =
      let ih =
        inverse_endpoints_lem (upsert update inv rid sid eid ep).0 sid rid eps s r k d free' in
      ground (
        arith,
        ih,
        lookup-upsert inv rid sid eid r s k ep,
        free eid (ground (arith, eq_refl eid)),
        has-keys eid eps,
        eq_iff eid k,
        eq_iff rid r,
        eq_iff sid s,
      )
    where
      free' :
          (e : Str)
          → has e (keys eps) ≡ true
          → lookup (upsert update inv rid sid eid ep).0 rid sid e ≡ none
      free' e h =
          ground
            (arith, lookup-upsert inv rid sid eid rid sid e ep, eq_iff eid e, free e (ground arith))

  inverse_partial_lem :
      (inv : Connections E) (sid : Str) (partial : PartialConnections E) (s r k : Str)
      → IsDistinct (keys partial)
      → All (λ q. IsDistinct (keys q.1)) partial
      → ((x e : Str) → has x (keys partial) ≡ true → lookup inv x sid e ≡ none)
      → lookup (inverse_partial update inv sid partial) r s k
        ≡ first_of (only_if (sid == s) (get k (inner (get r partial)))) (lookup inv r s k)
  unfolding inverse_partial get has
  inverse_partial_lem inv sid [] s r k d ds free = ground arith
  inverse_partial_lem inv sid ((rid, eps) ∷ partial) s r k (new, d) (e, ds) free =
      let ih =
        inverse_partial_lem (inverse_endpoints update inv sid rid eps) sid partial s r k d ds
          free' in
      ground (
        arith,
        ih,
        inverse_endpoints_lem inv sid rid eps s r k e
            (λ x h. free rid x (ground (arith, eq_refl rid))),
        has-keys rid partial,
        eq_iff rid r,
      )
    where
      free' :
          (x y : Str)
          → has x (keys partial) ≡ true
          → lookup (inverse_endpoints update inv sid rid eps) x sid y ≡ none
      free' x y h = ground (
        arith,
        inverse_endpoints_lem inv sid rid eps sid x y e
            (λ z h. free rid z (ground (arith, eq_refl rid))),
        eq_iff rid x,
        free x y (ground arith),
      )

  inverse_from_lem :
      (inv c : Connections E) (s r k : Str)
      → IsWellKeyed c
      → ((x y e : Str) → has x (keys c) ≡ true → lookup inv y x e ≡ none)
      → lookup (inverse_from update inv c) r s k ≡ first_of (lookup c s r k) (lookup inv r s k)
  unfolding inverse_from lookup get has
  inverse_from_lem inv [] s r k w free = ground arith
  inverse_from_lem inv ((sid, partial) ∷ c) s r k ((new, d), ((pd, pds), ws)) free =
      let ih = inverse_from_lem (inverse_partial update inv sid partial) c s r k (d, ws) free' in
      ground (
        arith,
        ih,
        inverse_partial_lem inv sid partial s r k pd pds
            (λ x e h. free sid x e (ground (arith, eq_refl sid))),
        has-keys sid c,
        eq_iff sid s,
      )
    where
      free' :
          (x y e : Str)
          → has x (keys c) ≡ true
          → lookup (inverse_partial update inv sid partial) y x e ≡ none
      free' x y e h = ground (
        arith,
        inverse_partial_lem inv sid partial x y e pd pds
            (λ x e h. free sid x e (ground (arith, eq_refl sid))),
        eq_iff sid x,
        free x y e (ground arith),
      )

  -- The inversed connections of well-keyed ones hold, for a receiver, a sender and an endpoint's
  -- key, just what the connections hold for that sender, receiver and key.
  pub lookup-get_inversed :
      (c : Connections E) (s r k : Str)
      → IsWellKeyed c
      → lookup (get_inversed update c) r s k ≡ lookup c s r k
  unfolding get_inversed
  lookup-get_inversed c s r k w =
      ground
        (arith, inverse_from_lem [] c s r k w (λ x y e h. unfold lookup get in refl), lookup_empty)
    where
      lookup_empty : lookup {E = E} [] r s k ≡ none
      lookup_empty = unfold lookup get in refl

  upsert_endpoint-IsDistinct :
      (eid : Str) (ep : E) (m : List (Str × E))
      → IsDistinct (keys m)
      → IsDistinct (keys (PartialConnections.upsert_endpoint update eid ep m))
  unfolding PartialConnections.upsert_endpoint
  upsert_endpoint-IsDistinct eid ep m d = elim (Option-cases (get eid m)) [
    | inl new ↦ rw (new, PartialConnections.upsert_endpoint) (put-IsDistinct eid ep m d)
    | inr (old, found) ↦
        rw (found, PartialConnections.upsert_endpoint) (put-IsDistinct eid (update old ep) m d)
  ]

  inner-IsDistinct :
      (p : PartialConnections E) (rid : Str)
      → All (λ q. IsDistinct (keys q.1)) p
      → IsDistinct (keys (inner (get rid p)))
  inner-IsDistinct p rid ds = elim (Option-cases (get rid p)) [
    | inl missing ↦ rw missing tt
    | inr (m, found) ↦ rw found (All-get (λ q. IsDistinct (keys q)) rid m p ds found)
  ]

  abbrev IsWellKeyedPartial : PartialConnections E → Type 0
  IsWellKeyedPartial p = IsDistinct (keys p) × All (λ q. IsDistinct (keys q.1)) p

  inner-IsWellKeyed :
      (c : Connections E) (sid : Str) → IsWellKeyed c → IsWellKeyedPartial (inner (get sid c))
  inner-IsWellKeyed c sid w = elim (Option-cases (get sid c)) [
    | inl missing ↦ rw missing (tt, tt)
    | inr (p, found) ↦ rw found (All-get IsWellKeyedPartial sid p c w.1 found)
  ]

  -- An upsert keeps the connections well-keyed.
  pub upsert-IsWellKeyed :
      (c : Connections E) (sid rid eid : Str) (ep : E)
      → IsWellKeyed c
      → IsWellKeyed (upsert update c sid rid eid ep).0
  unfolding upsert PartialConnections.upsert
  upsert-IsWellKeyed c sid rid eid ep w =
      let (d, ds) = inner-IsWellKeyed c sid w in
      let p = inner (get sid c) in
      let m = PartialConnections.upsert_endpoint update eid ep (inner (get rid p)) in
      let md = upsert_endpoint-IsDistinct eid ep (inner (get rid p)) (inner-IsDistinct p rid ds) in
      (
        put-IsDistinct sid (put rid m p) c w.0,
        All-put IsWellKeyedPartial sid (put rid m p) c w.1
            (put-IsDistinct rid m p d, All-put (λ q. IsDistinct (keys q)) rid m p ds md),
      )
