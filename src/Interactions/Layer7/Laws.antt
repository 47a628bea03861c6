-- ===== src/Interactions/Layer7/Laws.antt =====
-- src/store/stores/interaction.ts: which verdicts the endpoints of layer 7 have.
use hubble_ui.Prelude.{
  ℕ, ◌≡◌, refl, ap, ◌∙◌, inl, inr, Bool, false, ◌&&◌, ◌||◌, Option, none, some, List, [], ◌∷◌, Str,
  str_Eq, any, ◌==◌, eq_iff, arith, Option-cases, Bool-cases,
}
use hubble_ui.Prelude.Sets.{has, add, has-add_all}
use hubble_ui.Hubble.{Verdict, verdict_Eq}
use hubble_ui.Flow.{Flow, Layer7, Runtime, destination_port, destination_service_id, l7_wrapped}
use hubble_ui.Interactions.Endpoints.{http}
use hubble_ui.Interactions.Grouped
use hubble_ui.Interactions.PartialConnections.Laws.{updated}
use hubble_ui.Interactions.Grouped.{Grouped, endpoint_of}
use hubble_ui.Interactions.Grouped.Laws.{endpoint_of-upsert}
use hubble_ui.Interactions.Layer7.{
  L7Endpoint, kind_text, get_kind, get_endpoint_id, http_id_from_parts, new, add_verdict, update,
  extract_flow, extract_l7_info, verdicts_of, get_http_endpoint_by_parts, get_http_verdicts,
}

has-updated :
    (v : Verdict) (ep : L7Endpoint) (o : Option L7Endpoint)
    → has v (verdicts_of (some (updated update ep o)))
      ≡ (has v (verdicts_of o) || has v ep.verdicts)
unfolding update has
has-updated v ep none = refl
has-updated v ep (some old) = ground (arith, has-add_all v ep.verdicts old.verdicts)

has-new : (v w : Verdict) (l7 : Layer7) → has v (add_verdict w (new l7)).verdicts ≡ (w == v)
unfolding add_verdict new add has
has-new v w l7 = ground arith

upsert-verdicts :
    (g : Grouped L7Endpoint) (rid port kind eid r p k e : Str) (ep : L7Endpoint) (v : Verdict)
    → has v (verdicts_of (endpoint_of (Grouped.upsert update g rid port kind eid ep).0 r p k e)) ≡ (
        has v (verdicts_of (endpoint_of g r p k e))
        || ((rid == r && (port == p && (kind == k && eid == e))) && has v ep.verdicts))
upsert-verdicts g rid port kind eid r p k e ep v =
    elim (Bool-cases (rid == r && (port == p && (kind == k && eid == e)))) [
      | inl here ↦
          let same : endpoint_of g rid port kind eid ≡ endpoint_of g r p k e =
            ground (arith, eq_iff rid r, eq_iff port p, eq_iff kind k, eq_iff eid e) in
          let set : endpoint_of (Grouped.upsert update g rid port kind eid ep).0 r p k e
              ≡ some (updated update ep (endpoint_of g r p k e)) =
            ground (arith, endpoint_of-upsert update g rid port kind eid r p k e ep, here, same) in
          ground
            (arith, ap (λ o. has v (verdicts_of o)) set, has-updated v ep (endpoint_of g r p k e))
      | inr apart ↦
          let kept : endpoint_of (Grouped.upsert update g rid port kind eid ep).0 r p k e
              ≡ endpoint_of g r p k e =
            ground (arith, endpoint_of-upsert update g rid port kind eid r p k e ep, apart) in
          ground (arith, ap (λ o. has v (verdicts_of o)) kept, apart)
    ]

module _ (rt : Runtime) (to_text : ℕ → Str) where
  -- Whether a flow tells of an endpoint
  abbrev pub is_at : Str → Str → Str → Str → Flow → Bool
  is_at r p k e f = elim (l7_wrapped f) [
    | none ↦ false
    | some l7 ↦ elim (destination_port rt f) [
      | none ↦ false
      | some port ↦
          destination_service_id to_text f == r
          && (to_text port == p
              && (kind_text (get_kind l7) == k && get_endpoint_id rt to_text l7 == e))
    ]
  ]

  extract_flow-verdicts :
      (f : Flow) (g : Grouped L7Endpoint) (r p k e : Str) (v : Verdict)
      → has v (verdicts_of (endpoint_of (extract_flow rt to_text f g) r p k e))
        ≡ (has v (verdicts_of (endpoint_of g r p k e)) || (is_at r p k e f && f.verdict == v))
  unfolding extract_flow
  extract_flow-verdicts f g r p k e v = elim (Option-cases (l7_wrapped f)) [
    | inl bare ↦ rw (bare, extract_flow) (ground (arith))
    | inr (l7, told) ↦ elim (Option-cases (destination_port rt f)) [
      | inl unsent ↦ rw (told, unsent, extract_flow) (ground (arith))
      | inr (port, sent) ↦
          rw (told, sent, extract_flow)
            (upsert-verdicts g (destination_service_id to_text f) (to_text port)
                (kind_text (get_kind l7)) (get_endpoint_id rt to_text l7) r p k e
                (add_verdict f.verdict (new l7)) v
              ∙ ground (arith, has-new v f.verdict l7))
    ]
  ]

  extract_l7_info-verdicts :
      (fs : List Flow) (g : Grouped L7Endpoint) (r p k e : Str) (v : Verdict)
      → has v (verdicts_of (endpoint_of (extract_l7_info rt to_text fs g) r p k e)) ≡ (
          has v (verdicts_of (endpoint_of g r p k e))
          || any (λ f. is_at r p k e f && f.verdict == v) fs)
  unfolding extract_l7_info any
  extract_l7_info-verdicts [] g r p k e v = ground (arith)
  extract_l7_info-verdicts (f ∷ fs) g r p k e v =
      extract_l7_info-verdicts fs (extract_flow rt to_text f g) r p k e v
      ∙ ground (arith, extract_flow-verdicts f g r p k e v)

  -- After flows are read, the verdicts of an HTTP endpoint are those that it had and those of the
  -- flows that tell of it: of the flows to the service and the port, whose layer 7 is HTTP with the
  -- method and the path.
  pub get_http_verdicts-extract_l7_info :
      (fs : List Flow) (g : Grouped L7Endpoint) (receiver_id port method pathname : Str)
      (v : Verdict)
      → has v (get_http_verdicts (extract_l7_info rt to_text fs g) receiver_id port method pathname)
        ≡ (has v (get_http_verdicts g receiver_id port method pathname)
            || any
                (λ f.
                  is_at receiver_id port (kind_text http) (http_id_from_parts method pathname) f
                  && f.verdict == v)
                fs)
  unfolding get_http_verdicts get_http_endpoint_by_parts
  get_http_verdicts-extract_l7_info fs g receiver_id port method pathname v =
      extract_l7_info-verdicts fs g receiver_id port (kind_text http)
        (http_id_from_parts method pathname) v
