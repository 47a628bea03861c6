-- ===== src/Filtering/FilterLink/Laws.antt =====
-- How the entries of the filters act on a link.
use hubble_ui.Prelude.{◌≡◌, refl, true, not, ◌&&◌, List, [], ◌∷◌, any, arith, Bool-cases}
use hubble_ui.Link.{Link}
use hubble_ui.Filtering.Entry.{FilterEntry}
use hubble_ui.Filtering.FilterFlow.{decide_entries}
use hubble_ui.Filtering.FilterLink.{filter_link_by_entry}

-- A negative entry keeps every link, also one that it names.
filter_link_by_entry-negative :
    (l : Link) (e : FilterEntry) → e.negative ≡ true → filter_link_by_entry l e ≡ true
unfolding filter_link_by_entry
filter_link_by_entry-negative l e h = ground (arith, h)

-- The loop of the filters over a link asks if a positive entry keeps the link: the negative entries
-- have no part in the answer.
pub decide_entries-link :
    (l : Link) (es : List FilterEntry)
    → decide_entries (filter_link_by_entry l) es
      ≡ any (λ e. not e.negative && filter_link_by_entry l e) es
unfolding decide_entries any
decide_entries-link l [] = refl
decide_entries-link l (e ∷ es) = ground (
  arith,
  decide_entries-link l es,
  filter_link_by_entry-negative l e,
  Bool-cases e.negative,
  Bool-cases (filter_link_by_entry l e),
)
