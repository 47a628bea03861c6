-- ===== src/Labels.antt =====
-- src/domain/labels.ts and the type Kv of src/domain/misc.ts: Kubernetes labels, how they are read,
-- normalised and searched. `detect` is in Labels/Detect.antt.
pub mod Detect
pub mod Laws
pub mod Search
use mathlib.Core.List.{foldl, reverse}
use hubble_ui.Prelude.{
  ℕ, String, Bool, true, false, not, ◌&&◌, ◌||◌, Option, none, some, List, [], ◌∷◌, ◌++◌, map, Str,
  codes, split, split_by, join, nat_eq, to_lower_case, remove_first, starts_with, is_empty, any,
  all, ◌==◌, str_Eq, if◌then◌else◌,
}
use hubble_ui.Prelude.Sets.{has, from_list}

pub record Kv : Type 0 where
  pub key : Str
  pub value : Str

pub data ReservedLabel : Type 0 where
  host kube_apiserver world health init ingress remote_node unmanaged unknown : ReservedLabel

abbrev pub reserved_text : ReservedLabel → Str
reserved_text host = codes "reserved:host"
reserved_text kube_apiserver = codes "reserved:kube-apiserver"
reserved_text world = codes "reserved:world"
reserved_text health = codes "reserved:health"
reserved_text init = codes "reserved:init"
reserved_text ingress = codes "reserved:ingress"
reserved_text remote_node = codes "reserved:remote-node"
reserved_text unmanaged = codes "reserved:unmanaged"
reserved_text unknown = codes "reserved:unknown"

pub data SpecialLabel : Type 0 where
  kube_dns prometheus_app networks cnp_name cnp_uid : SpecialLabel

abbrev pub special_text : SpecialLabel → Str
special_text kube_dns = codes "k8s:k8s-app=kube-dns"
special_text prometheus_app = codes "k8s:app=prometheus"
special_text networks = codes "cni:com.isovalent.v1alpha1.network.attachment"
special_text cnp_name = codes "k8s:io.cilium.k8s.policy.name"
special_text cnp_uid = codes "k8s:io.cilium.k8s.policy.uid"

pub record KeyFindOptions : Type 0 where
  pub normalize_label : Bool
  pub normalize_target_keys : Bool

abbrev pub prefixes : List Str
prefixes =
    codes "any:"
    ∷ codes "k8s:"
    ∷ codes "cni:"
    ∷ codes "io.kubernetes.pod."
    ∷ codes "app.kubernetes.io/"
    ∷ codes "covalent.io/"
    ∷ []

abbrev pub app_name_normalized_keys : List Str
app_name_normalized_keys =
    codes "component" ∷ codes "app" ∷ codes "name" ∷ codes "functionname" ∷ codes "k8s-app" ∷ []

abbrev pub cilium_cluster_keys : List Str
cilium_cluster_keys = codes "io.cilium.k8s.policy.cluster" ∷ []

abbrev pub reserved_label_set : List Str
reserved_label_set = map reserved_text (
    host ∷ kube_apiserver ∷ world ∷ health ∷ init ∷ ingress ∷ remote_node ∷ unmanaged ∷ unknown
    ∷ [])

-- `/[-./=]/`
abbrev pub is_inner_separator : ℕ → Bool
is_inner_separator c = nat_eq c b'-' || nat_eq c b'.' || nat_eq c b'/' || nat_eq c b'='

unfoldable pub drop_equal_signs : Str → Str
drop_equal_signs [] = []
drop_equal_signs (c ∷ s) = let rest = drop_equal_signs s in if nat_eq c b'=' then rest else c ∷ s

-- `replace(/=+$/, '')`
unfoldable pub trim_equal_signs : Str → Str
unfolding drop_equal_signs
trim_equal_signs s = reverse (drop_equal_signs (reverse s))

unfoldable pub remove_each : List Str → Str → Str
unfolding remove_first
remove_each [] s = s
remove_each (p ∷ ps) s = remove_each ps (remove_first p s)

unfoldable pub normalize_key : Str → Str
unfolding trim_equal_signs to_lower_case remove_each
normalize_key key = remove_each prefixes (trim_equal_signs (to_lower_case key))

unfoldable pub to_kv : Str → Bool → Kv
unfolding split join normalize_key
to_kv label normalize = elim (split b'=' label) [
  | [] ↦ record { key = []; value = [] }
  | key ∷ rest ↦ record {
    key = if normalize then normalize_key key else key;
    value = join (codes "=") rest;
  }
]

unfoldable pub labels_to_kv : List Str → Bool → List Kv
unfolding to_kv
labels_to_kv labels normalize = map (λ l. to_kv l normalize) labels

unfoldable pub normalize_label : Kv → Kv
unfolding normalize_key
normalize_label lbl = record { key = normalize_key lbl.key; value = lbl.value }

-- `normalize ? Labels.normalizeLabel(lbl) : lbl`, as most methods begin
unfoldable pub normalize_label_to_string : Kv → Str
unfolding normalize_key
normalize_label_to_string lbl =
    let str = normalize_key lbl.key in
    if is_empty lbl.value then str else str ++ (codes "=" ++ lbl.value)

-- `key.toLowerCase()`, less the first occurrence of each of the four prefixes in turn
unfoldable pub normalize_namespace_label_key : Str → Str
unfolding remove_each to_lower_case
normalize_namespace_label_key key =
    remove_each
      (codes "k8s:io.kubernetes.pod.namespace.labels."
        ∷ codes "k8s:io.kubernetes.pod.namespace"
        ∷ codes "io.kubernetes.pod.namespace.labels."
        ∷ codes "io.kubernetes.pod.namespace"
        ∷ [])
      (to_lower_case key)

unfoldable pub normalized_if : Bool → Kv → Kv
unfolding normalize_label
normalized_if normalize lbl = if normalize then normalize_label lbl else lbl

unfoldable pub concat_kv : Kv → Bool → Str
unfolding normalize_key
concat_kv label normalize =
    let key = if normalize then normalize_key label.key else label.key in
    key ++ (if is_empty label.value then [] else codes "=" ++ label.value)

-- The target keys of `containsKey` and `prepareKeyPartsAndTarget`
unfoldable pub target_keys : List Str → KeyFindOptions → List Str
unfolding from_list normalize_key
target_keys nkeys opts =
    if opts.normalize_target_keys then from_list (map normalize_key nkeys) else from_list nkeys

unfoldable pub contains_key : Kv → List Str → KeyFindOptions → Bool
unfolding has target_keys normalized_if
contains_key lbl nkeys opts =
    has (normalized_if opts.normalize_label lbl).key (target_keys nkeys opts)

unfoldable pub key_parts : Kv → KeyFindOptions → List Str
unfolding split_by normalize_key
key_parts lbl opts =
    split_by is_inner_separator (if opts.normalize_label then normalize_key lbl.key else lbl.key)

unfoldable pub contains_key_part : Kv → List Str → KeyFindOptions → Bool
unfolding any has key_parts target_keys
contains_key_part lbl tkeys opts =
    let targets = target_keys tkeys opts in any (λ part. has part targets) (key_parts lbl opts)

unfoldable pub contains_all_key_parts : Kv → List Str → KeyFindOptions → Bool
unfolding all has key_parts target_keys
contains_all_key_parts lbl tkeys opts =
    let parts = from_list (key_parts lbl opts) in all (λ t. has t parts) (target_keys tkeys opts)

abbrev pub no_options : KeyFindOptions
no_options = record { normalize_label = false; normalize_target_keys = false }

unfoldable pub is_reserved_key : Str → Bool → Bool
unfolding has normalize_key
is_reserved_key key normalize =
    has (if normalize then normalize_key key else key) reserved_label_set

unfoldable pub is_reserved : Kv → Option ReservedLabel → Bool → Bool
unfolding is_reserved_key normalize_key
is_reserved lbl none normalize =
    is_reserved_key (if normalize then normalize_key lbl.key else lbl.key) false
is_reserved lbl (some reserved) normalize =
    (if normalize then normalize_key lbl.key else lbl.key) == reserved_text reserved

unfoldable pub have_reserved : List Kv → Option ReservedLabel → Bool
unfolding any is_reserved
have_reserved labels reserved = any (λ lbl. is_reserved lbl reserved true) labels

-- `Labels.specialLabelKeys`
abbrev pub special_label_keys : List Str
special_label_keys = from_list (
    map (λ s. normalize_key (to_kv (special_text s) false).key)
      (kube_dns ∷ prometheus_app ∷ networks ∷ cnp_name ∷ cnp_uid ∷ []))

unfoldable pub is_special_key : Str → Bool → Bool
unfolding has normalize_key
is_special_key k normalize = has (if normalize then normalize_key k else k) special_label_keys

unfoldable pub is_special : Kv → Option SpecialLabel → Bool → Bool
unfolding is_special_key normalized_if to_kv
is_special lbl none normalize = is_special_key (normalized_if normalize lbl).key false
is_special lbl (some special) normalize =
    let kv = normalized_if normalize lbl in
    let norm_special = normalized_if normalize (to_kv (special_text special) false) in
    kv.key == norm_special.key && (is_empty norm_special.value || kv.value == norm_special.value)

unfoldable pub ensure_k8s_prefix : Str → Str
unfolding starts_with is_reserved_key
ensure_k8s_prefix str =
    if starts_with str (codes "k8s:")
    then str
    else if is_reserved_key str true
    then str
    else codes "k8s:" ++ str
