-- ===== src/Helpers/Time/Laws.antt =====
-- What the conversions of times keep, and where they overflow.
use hubble_ui.Prelude.{ℕ, ◌+◌, ◌-◌, ◌*◌, ◌/◌, ◌%◌, ◌<◌, ◌≤◌, ◌≡◌, arith}
use hubble_ui.Helpers.Time.{
  Time, date_to_time, time_to_date, normalize, pos, negsuc, to_int32, ms_to_pb_timestamp,
}

-- The nanoseconds of a time
abbrev pub total : Time → ℕ
total t = t.seconds * 1_000_000_000 + t.nanos

-- A normalised time is the same time, with less than a second of nanoseconds.
normalize_lem : (t : Time) → (total (normalize t) ≡ total t) × ((normalize t).nanos < 1_000_000_000)
unfolding normalize
normalize_lem t = (ground arith, ground arith)

-- A date goes to a time of as many nanoseconds, with less than a second of nanoseconds; and the date
-- of that time has lost the milliseconds behind the second.
date_to_time_lem :
    (ms : ℕ)
    → (total (date_to_time ms) ≡ ms * 1_000_000)
      × ((date_to_time ms).nanos < 1_000_000_000)
      × (time_to_date (date_to_time ms) ≡ ms - ms % 1000)
unfolding date_to_time time_to_date
date_to_time_lem ms = (omega arith, omega arith, omega arith)

-- Below 2 ^ 31 seconds the timestamp has the whole seconds and the rest of the milliseconds, less
-- than a second of nanoseconds.
pub ms_to_pb_timestamp-exact :
    (ms : ℕ)
    → ms < 2_147_483_648_000
    → let t = ms_to_pb_timestamp ms in
      (t.seconds ≡ pos (ms / 1000)) × (t.nanos ≡ ms % 1000 * 1_000_000) × (t.nanos < 1_000_000_000)
unfolding ms_to_pb_timestamp to_int32
ms_to_pb_timestamp-exact ms h = (ground arith, ground arith, ground arith)

-- From 2 ^ 31 seconds on, up to 2 ^ 32, the timestamp lies before 1970, and its nanoseconds are
-- at least 2 ^ 32 seconds' worth of them.
ms_to_pb_timestamp-overflow :
    (ms : ℕ)
    → 2_147_483_648_000 ≤ ms
    → ms < 4_294_967_296_000
    → let t = ms_to_pb_timestamp ms in
      (t.seconds ≡ negsuc (4_294_967_295 - ms / 1000)) × (4_294_967_296 * 1_000_000_000 ≤ t.nanos)
unfolding ms_to_pb_timestamp to_int32
ms_to_pb_timestamp-overflow ms h k = (ground arith, ground arith)
