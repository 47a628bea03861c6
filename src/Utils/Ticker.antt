-- ===== src/Utils/Ticker.antt =====
-- src/utils/ticker.ts: named intervals that emit their names. The intervals of the browser that are
-- active stand with the name that their callback emits; `setInterval` gives the number of a new one.
pub mod Laws
use hubble_ui.Prelude.{
  ℕ, ◌+◌, Option, none, some, List, [], ◌∷◌, Str, str_Eq, nat_Eq, ◌==◌, if◌then◌else◌,
}
use hubble_ui.Prelude.Maps.{get, put, delete}
use hubble_ui.Utils.Emitter.{Emitter, emit}

pub record TickDescriptor : Type 0 where
  pub name : Str
  pub timer_id : ℕ
  pub delay : ℕ

pub record Ticker : Type 0 where
  pub ticks : List (Str × TickDescriptor)
  pub intervals : List (ℕ × Str)
  pub next_number : ℕ

-- `clearInterval(timerId)`
unfoldable pub clear_interval : ℕ → List (ℕ × Str) → List (ℕ × Str)
clear_interval n [] = []
clear_interval n ((m, name) ∷ rest) =
    let left = clear_interval n rest in if m == n then left else (m, name) ∷ left

unfoldable pub new : Ticker
new = record { ticks = []; intervals = []; next_number = 0 }

unfoldable pub start : Ticker → Str → ℕ → Ticker
unfolding get put clear_interval
start t tick_name dur =
    let left : List (ℕ × Str) = elim (get tick_name t.ticks) [
      | none ↦ t.intervals
      | some current ↦ clear_interval current.timer_id t.intervals
    ] in
    record {
      ticks =
          put tick_name (record { name = tick_name; timer_id = t.next_number; delay = dur })
            t.ticks;
      intervals = (t.next_number, tick_name) ∷ left;
      next_number = t.next_number + 1;
    }

unfoldable pub stop : Ticker → Str → Ticker
unfolding get delete clear_interval
stop t tick_name = elim (get tick_name t.ticks) [
  | none ↦ t
  | some desc ↦ record t {
    ticks = delete tick_name t.ticks;
    intervals = clear_interval desc.timer_id t.intervals;
  }
]

unfoldable pub delay_of : Ticker → Str → Option ℕ
unfolding get
delay_of t tick_name = elim (get tick_name t.ticks) [ none ↦ none | some desc ↦ some desc.delay ]

-- The callback of an interval: `this.emit(tickName)`, with no arguments; an interval that is not
-- active does nothing.
unfoldable pub elapse : ℕ → Ticker → Emitter (Unit {0}) → Emitter (Unit {0}) × List (ℕ × (Unit {0}))
unfolding get emit
elapse n t em = elim (get n t.intervals) [ none ↦ (em, []) | some name ↦ emit em name tt ]
