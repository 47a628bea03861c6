-- ===== src/Labels/Laws.antt =====
-- Detecting, printing, reading and normalising labels, of src/domain/labels.ts.
use hubble_ui.Prelude.{
  Bool, true, false, ◌||◌, ◌≡◌, refl, ◌∙◌, ◌≢◌, ◌⊎◌, inl, inr, some, List, [], ◌∷◌, ◌++◌, Str,
  arith, any, ◌==◌, str_Eq, str_eq_iff, join, All, Bool-cases, to_lower_case, lower,
}
use mathlib.Core.List.{reverse, append-nil}
use mathlib.Core.Path.{subst}
use hubble_ui.Prelude.TextLaws.{
  Lacks, All-reverse, All-remove_first, join-split, split-cases, split-Lacks, split-append,
}
use hubble_ui.Labels.{
  Kv, host, kube_apiserver, world, health, init, ingress, remote_node, kube_dns, prometheus_app,
  special_text, normalize_key, normalize_label, is_reserved, is_special, have_reserved, to_kv,
  concat_kv, ensure_k8s_prefix, drop_equal_signs, remove_each, prefixes,
}
use hubble_ui.Labels.Detect.{
  LabelsProps, no_props, detect_label, detect_from, detect, is_world, is_host, is_kube_apiserver,
  is_init, is_health, is_remote_node,
}

-- A flag that each round extends by a test of the label ends as the test over all labels.
module _ (flag : LabelsProps → Bool) (test : Kv → Bool)
    (round : (p : LabelsProps) (kv : Kv) → flag (detect_label p kv) ≡ (flag p || test kv)) where
  detect_from-flag :
      (p : LabelsProps) (labels : List Kv)
      → flag (detect_from p labels) ≡ (flag p || any (λ l. test (normalize_label l)) labels)
  unfolding detect_from any
  detect_from-flag p [] = ground arith
  detect_from-flag p (lbl ∷ labels) = ground (
    arith,
    round p (normalize_label lbl),
    detect_from-flag (detect_label p (normalize_label lbl)) labels,
  )

-- The one pass of `detect` sets each flag exactly when some label of the list, normalised, is the
-- reserved label that the flag is named for (host, kube-apiserver, world, remote-node, init,
-- health, ingress), as the separate finders do, or is the special label of kube-dns.
pub detect-finders :
    (labels : List Kv)
    → let p = detect labels in
      (p.is_host ≡ is_host labels)
      × (p.is_kube_apiserver ≡ is_kube_apiserver labels)
      × (p.is_world ≡ is_world labels)
      × (p.is_remote_node ≡ is_remote_node labels)
      × (p.is_init ≡ is_init labels)
      × (p.is_health ≡ is_health labels)
      × (p.is_ingress ≡ have_reserved labels (some ingress))
      × (p.is_kube_dns ≡ any (λ l. is_special (normalize_label l) (some kube_dns) true) labels)
unfolding detect is_host is_kube_apiserver is_world is_remote_node is_init is_health
detect-finders labels = (
  detect_from-flag (λ p. p.is_host) (λ kv. is_reserved kv (some host) false) (λ p kv. refl) no_props
      labels,
  detect_from-flag (λ p. p.is_kube_apiserver) (λ kv. is_reserved kv (some kube_apiserver) false)
      (λ p kv. refl) no_props labels,
  detect_from-flag (λ p. p.is_world) (λ kv. is_reserved kv (some world) false) (λ p kv. refl)
      no_props labels,
  detect_from-flag (λ p. p.is_remote_node) (λ kv. is_reserved kv (some remote_node) false)
      (λ p kv. refl) no_props labels,
  detect_from-flag (λ p. p.is_init) (λ kv. is_reserved kv (some init) false) (λ p kv. refl) no_props
      labels,
  detect_from-flag (λ p. p.is_health) (λ kv. is_reserved kv (some health) false) (λ p kv. refl)
      no_props labels,
  detect_from-flag (λ p. p.is_ingress) (λ kv. is_reserved kv (some ingress) false) (λ p kv. refl)
      no_props labels,
  detect_from-flag (λ p. p.is_kube_dns) (λ kv. is_special kv (some kube_dns) true) (λ p kv. refl)
      no_props labels,
)

All-map-lower : (s : Str) → Lacks b'=' s → Lacks b'=' (to_lower_case s)
unfolding to_lower_case lower
All-map-lower [] h = tt
All-map-lower (c ∷ s) (h, k) = (ground arith, All-map-lower s k)

Lacks-drop_equal_signs : (s : Str) → Lacks b'=' s → Lacks b'=' (drop_equal_signs s)
unfolding drop_equal_signs
Lacks-drop_equal_signs [] h = tt
Lacks-drop_equal_signs (c ∷ s) (h, k) = ground (arith, Lacks-drop_equal_signs s k)

Lacks-remove_each : (ps : List Str) (s : Str) → Lacks b'=' s → Lacks b'=' (remove_each ps s)
unfolding remove_each
Lacks-remove_each [] s h = h
Lacks-remove_each (p ∷ ps) s h = Lacks-remove_each ps _ (All-remove_first (λ d. d ≢ b'=') p s h)

-- A key without an equal sign keeps none when it is normalised.
Lacks-normalize_key : (key : Str) → Lacks b'=' key → Lacks b'=' (normalize_key key)
unfolding normalize_key
Lacks-normalize_key key h = Lacks-remove_each prefixes _ (
    All-reverse (λ d. d ≢ b'=') (drop_equal_signs (reverse (to_lower_case key)))
      (Lacks-drop_equal_signs _
        (All-reverse (λ d. d ≢ b'=') (to_lower_case key) (All-map-lower key h))))

not_prometheus : (key : Str) → Lacks b'=' key → (key == special_text prometheus_app) ≡ false
not_prometheus key h = elim (Bool-cases (key == special_text prometheus_app)) [
  | inl same ↦
      absurd (
        omega (arith, subst (Lacks b'=') ((str_eq_iff key (special_text prometheus_app)).0 same) h))
  | inr other ↦ other
]

any-false {ℓ} :
    {A : Type ℓ} (p : A → Bool) (xs : List A) → All (λ x. p x ≡ false) xs → any p xs ≡ false
unfolding any
any-false p [] h = refl
any-false p (x ∷ xs) (h, k) = ground (arith, any-false p xs k)

-- If no label has an equal sign in its key, `detect` never finds Prometheus: its test compares a
-- key with a text that holds one.
detect-never_prometheus :
    (labels : List Kv)
    → All (λ l. Lacks b'=' l.key) labels
    → (detect labels).is_prometheus_app ≡ false
unfolding detect
detect-never_prometheus labels h =
    detect_from-flag (λ p. p.is_prometheus_app) (λ kv. kv.key == special_text prometheus_app)
      (λ p kv. refl) no_props labels
    ∙ any-false _ labels (normalized labels h)
  where
    normalized :
        (ls : List Kv)
        → All (λ l. Lacks b'=' l.key) ls
        → All (λ l. (normalize_key l.key == special_text prometheus_app) ≡ false) ls
    normalized [] h = tt
    normalized (l ∷ ls) (h, k) =
        (not_prometheus (normalize_key l.key) (Lacks-normalize_key l.key h), normalized ls k)

-- A text with no equal sign is a key with no value.
pub to_kv_whole :
    (label : Str) → Lacks b'=' label → to_kv label false ≡ record { key = label; value = [] }
unfolding to_kv
to_kv_whole label h = rw (split-Lacks b'=' label h, to_kv) (unfold join in refl)

-- A text is cut at its first equal sign.
pub to_kv_cut :
    (head tail : Str)
    → Lacks b'=' head
    → to_kv (head ++ b'=' ∷ tail) false ≡ record { key = head; value = tail }
unfolding to_kv
to_kv_cut head tail h = rw (split-append b'=' head tail h, to_kv, join-split b'=' tail)

-- A label read from a text has no equal sign in its key.
pub to_kv-Lacks : (label : Str) → Lacks b'=' (to_kv label false).key
to_kv-Lacks label = elim (split-cases b'=' label) [
  | inl (h, e) ↦ rw (to_kv_whole label h) h
  | inr (head, tail, same, h, e) ↦ rw (same, to_kv_cut head tail h) h
]

not_Lacks : (head tail : Str) → Lacks b'=' (head ++ b'=' ∷ tail) → ⊥
not_Lacks [] tail (h, k) = h refl
not_Lacks (c ∷ head) tail (h, k) = not_Lacks head tail k

-- A label is printed as the text from which it was read, if the text has a value behind its first
-- equal sign, or has no equal sign.
concat_kv-to_kv :
    (label : Str)
    → ((to_kv label false).value ≢ []) ⊎ Lacks b'=' label
    → concat_kv (to_kv label false) false ≡ label
unfolding concat_kv
concat_kv-to_kv label h = elim (split-cases b'=' label) [
  | inl (lacks, e) ↦ rw (to_kv_whole label lacks) (append-nil label)
  | inr (head, [], same, lacks, e) ↦
      absurd (ground (arith, same, to_kv_cut head [] lacks, not_Lacks head []))
  | inr (head, c ∷ tail, same, lacks, e) ↦ rw (same, to_kv_cut head (c ∷ tail) lacks)
]

-- The prefix is put in front at most once.
ensure_k8s_prefix_idem : (s : Str) → ensure_k8s_prefix (ensure_k8s_prefix s) ≡ ensure_k8s_prefix s
unfolding ensure_k8s_prefix
ensure_k8s_prefix_idem s = ground arith
