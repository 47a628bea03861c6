-- ===== src/Filtering/FilterService/Laws.antt =====
-- What the exclamation mark of an entry does to its answer on a service.
use hubble_ui.Prelude.{ℕ, ◌≡◌, refl, Bool, not, if◌then◌else◌, ◌==◌, Str, arith, Bool-cases}
use hubble_ui.Filtering.Entry.{FilterEntry, identity, kind_Eq, as_workload}
use hubble_ui.ServiceMap.Card.{Service}
use hubble_ui.Filtering.FilterService.{passes_service, filter_service_by_entry}

passes_service-negated :
    (s : Service) (e : FilterEntry) (b : Bool)
    → passes_service s (record e { negative = b }) ≡ passes_service s e
unfolding passes_service as_workload
passes_service-negated s e b = refl

-- An entry and its negation, alike in all but the exclamation mark, never give the same answer on a
-- service, but for an identity, where they always do.
filter_service_by_entry-negated :
    (to_text : ℕ → Str) (s : Service) (e : FilterEntry)
    → filter_service_by_entry to_text s (record e { negative = not e.negative }) ≡ (
        if e.kind == identity
        then filter_service_by_entry to_text s e
        else not (filter_service_by_entry to_text s e))
unfolding filter_service_by_entry
filter_service_by_entry-negated to_text s e = ground (
  arith,
  passes_service-negated s e (not e.negative),
  Bool-cases (passes_service s e),
  Bool-cases e.negative,
  Bool-cases (e.kind == identity),
)
