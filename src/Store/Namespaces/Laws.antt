-- ===== src/Store/Namespaces/Laws.antt =====
-- The clone of the store of src/store/stores/namespace.ts.
use hubble_ui.Prelude.{
  ◌≡◌, refl, true, ◌||◌, ◌&&◌, Option, none, some, List, [], ◌∷◌, All, Str, str_Eq, ◌==◌, any,
  arith,
}
use hubble_ui.Prelude.Maps.{get, values, is_some, get-put}
use hubble_ui.Store.Namespaces.{
  NamespaceDescriptor, NamespaceStore, empty, descriptor, current, set_current, set, add, clone,
}

-- A namespace stands under its own name, and the relay has it.
abbrev pub IsWellKept : NamespaceStore → Type 0
IsWellKept s = All (λ p. (p.1.namespace ≡ p.0) × (p.1.relay ≡ true)) s.relay_namespaces

get-add :
    (s : NamespaceStore) (ds : List NamespaceDescriptor) (ns : Str)
    → is_some (get ns (add s ds).relay_namespaces)
      ≡ (is_some (get ns s.relay_namespaces) || any (λ d. d.relay && d.namespace == ns) ds)
unfolding add set any set_current
get-add s [] ns = ground arith
get-add s (d ∷ ds) ns =
    ground (arith, get-add (set s d none) ds ns, get-put d.namespace ns d s.relay_namespaces)

has-values :
    (m : List (Str × NamespaceDescriptor)) (ns : Str)
    → All (λ p. (p.1.namespace ≡ p.0) × (p.1.relay ≡ true)) m
    → any (λ d. d.relay && d.namespace == ns) (values m) ≡ is_some (get ns m)
unfolding any get
has-values [] ns w = refl
has-values ((k, d) ∷ m) ns ((same, relay), w) = ground (arith, has-values m ns w, same, relay)

-- A clone of a store in which each namespace stands under its own name and is the relay's has the
-- same current namespace, and describes each namespace as the store does.
descriptor-clone :
    (s : NamespaceStore) (ns : Option Str)
    → IsWellKept s
    → (descriptor (clone s) ns ≡ descriptor s ns) × (current (clone s) ≡ current s)
unfolding clone descriptor current set_current empty
descriptor-clone s ns w = (same ns, same s.current_namespace)
  where
    cloned : NamespaceStore
    cloned = clone s

    same : (ns : Option Str) → descriptor cloned ns ≡ descriptor s ns
    same none = refl
    same (some name) = ground (
      arith,
      get-add empty (values s.relay_namespaces) name,
      has-values s.relay_namespaces name w,
    )
