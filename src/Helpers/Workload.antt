-- ===== src/Helpers/Workload.antt =====
-- src/domain/helpers/workload.ts: workloads are compared by the short name of their kind and by
-- their name, both without regard to case and surrounding white space.
pub mod Laws
mod Shorthands
unfoldable pub use Shorthands.{k8s_shorthands}
use hubble_ui.Prelude.{
  Bool, ◌&&◌, Option, none, some, List, Str, trim, to_lower_case, any, is_empty, ◌==◌, str_Eq,
  if◌then◌else◌,
}
use hubble_ui.Prelude.Maps.{get}

-- The type Workload of src/domain/hubble.ts
pub record Workload : Type 0 where
  pub kind : Str
  pub name : Str

unfoldable pub get_kind_shorthand : Str → Str
unfolding get to_lower_case
get_kind_shorthand kind =
    let lowered = to_lower_case kind in
    elim (get lowered k8s_shorthands) [
      | none ↦ lowered
      | some short ↦ if is_empty short then lowered else short
    ]

unfoldable pub equals : Workload → Workload → Bool
unfolding get_kind_shorthand trim to_lower_case
equals lhs rhs =
    get_kind_shorthand (trim lhs.kind) == get_kind_shorthand (trim rhs.kind)
    && to_lower_case (trim lhs.name) == to_lower_case (trim rhs.name)

unfoldable pub includes : List Workload → Workload → Bool
unfolding any equals
includes arr target = any (λ elem. equals elem target) arr
