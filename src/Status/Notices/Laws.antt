-- ===== src/Status/Notices/Laws.antt =====
-- src/ui-layer/status-center.ts: the entries of errors and of streams.
use hubble_ui.Prelude.{ℕ, ◌≡◌, Option, none, some, List, [], Str, arith, refl, str_Eq, str_eq}
use hubble_ui.Prelude.Maps.{get}
use hubble_ui.Prelude.Sets.{has, from_list, add_all, add}
use hubble_ui.Status.Errors.{Error}
use hubble_ui.Status.Entry.{StatusEntry}
use hubble_ui.Status.Center.{StatusCenter, NewEntryEvent}
use hubble_ui.Status.Center.Results.{push_new-completes}
use hubble_ui.Status.Center.Reach.{Reachable, Reachable-IsConsistent}
use hubble_ui.Status.Notices.{
  Texts, delay_details, failed_details, data_streams_reconnecting, change_reconnecting,
  push_streams_reconnected, push_streams_reconnecting_delay, push_streams_reconnect_failed,
}

module _ (t : Texts) (hash : ℕ → Str) where
  -- With no entry of the streams, nothing is changed.
  change_reconnecting-none :
      (change : StatusEntry → StatusEntry) (c : StatusCenter)
      → get data_streams_reconnecting c.keyed_entries ≡ none
      → change_reconnecting t hash change c ≡ some (c, [])
  unfolding change_reconnecting
  change_reconnecting-none change c g = ground (arith, g)

  -- Once the streams are told to be reconnected, in a center of the program with distinct hashes, delays of attempts and
  -- failed attempts are not told any more.
  pub push_streams_reconnected-quiet :
      (now delay_ms : ℕ) (err : Option Error) (c c' : StatusCenter)
      (calls : List (ℕ × NewEntryEvent))
      → ((a b : ℕ) → hash a ≡ hash b → a ≡ b)
      → Reachable hash c
      → push_streams_reconnected t hash now c ≡ some (c', calls)
      → (push_streams_reconnecting_delay t hash delay_ms c' ≡ some (c', []))
        × (push_streams_reconnect_failed t hash err c' ≡ some (c', []))
  unfolding push_streams_reconnected push_streams_reconnecting_delay push_streams_reconnect_failed
  push_streams_reconnected-quiet now delay_ms err c c' calls distinct r q =
      let gone : get data_streams_reconnecting c'.keyed_entries ≡ none =
        push_new-completes hash _ c c' calls data_streams_reconnecting distinct
          (Reachable-IsConsistent hash c distinct r) q
          (unfold has from_list add_all add str_eq in refl) in
      (
        change_reconnecting-none (delay_details t delay_ms) c' gone,
        change_reconnecting-none (failed_details t err) c' gone,
      )
