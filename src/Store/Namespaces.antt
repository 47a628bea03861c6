-- ===== src/Store/Namespaces.antt =====
-- src/store/stores/namespace.ts: the namespaces that the relay has, and the current one.
pub mod Laws
use hubble_ui.Prelude.{Bool, true, Option, none, some, List, [], ◌∷◌, Str, str_Eq, if◌then◌else◌}
use hubble_ui.Prelude.Maps.{get, put, values, is_some}

-- The type NamespaceDescriptor of src/domain/namespaces
pub record NamespaceDescriptor : Type 0 where
  pub namespace : Str
  pub relay : Bool

pub record NamespaceStore : Type 0 where
  pub relay_namespaces : List (Str × NamespaceDescriptor)
  pub current_namespace : Option Str

unfoldable pub empty : NamespaceStore
empty = record { relay_namespaces = []; current_namespace = none }

unfoldable pub clear : NamespaceStore → NamespaceStore
clear s = record s { relay_namespaces = [] }

unfoldable pub descriptor : NamespaceStore → Option Str → Option NamespaceDescriptor
unfolding get
descriptor s none = none
descriptor s (some ns) =
    some (record { namespace = ns; relay = is_some (get ns s.relay_namespaces) })

unfoldable pub current : NamespaceStore → Option NamespaceDescriptor
unfolding descriptor
current s = descriptor s s.current_namespace

unfoldable pub is_set : NamespaceStore → Bool
unfolding current
is_set s = is_some (current s)

unfoldable pub set_current : NamespaceStore → Option Str → NamespaceStore × Bool
unfolding current
set_current s ns = let s' = record s { current_namespace = ns } in (s', is_some (current s'))

-- The flag is asked to be there, whether it is true or false.
unfoldable pub set : NamespaceStore → NamespaceDescriptor → Option Bool → NamespaceStore
unfolding put set_current
set s ns is_current =
    let s' =
      if ns.relay
      then record s { relay_namespaces = put ns.namespace ns s.relay_namespaces }
      else s in
    if is_some is_current then (set_current s' (some ns.namespace)).0 else s'

unfoldable pub has_namespace : NamespaceStore → NamespaceDescriptor → Bool
unfolding get
has_namespace s ns = is_some (get ns.namespace s.relay_namespaces)

unfoldable pub add : NamespaceStore → List NamespaceDescriptor → NamespaceStore
unfolding set
add s [] = s
add s (d ∷ ds) = add (set s d none) ds

unfoldable pub add_relay_namespaces : NamespaceStore → List Str → NamespaceStore
unfolding set
add_relay_namespaces s [] = s
add_relay_namespaces s (ns ∷ nss) =
    add_relay_namespaces (set s (record { namespace = ns; relay = true }) none) nss

-- The loop of `clone`, and then `setCurrent`
unfoldable pub clone : NamespaceStore → NamespaceStore
unfolding empty add set_current
clone s = (set_current (add empty (values s.relay_namespaces)) s.current_namespace).0
