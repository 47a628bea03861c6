-- ===== src/Tests/Numbers.antt =====
-- The theorems on times and on combinations, at concrete numbers.
use hubble_ui.Prelude.{◌+◌, ◌*◌, ◌/◌, ◌%◌, ◌<◌, ◌≡◌, arith, [], ◌∷◌, some}
use hubble_ui.Helpers.Time.{ms_to_pb_timestamp, pos}
use hubble_ui.Helpers.Time.Laws.{ms_to_pb_timestamp-exact}
use hubble_ui.Utils.Combinations.{new, product, as_array}
use hubble_ui.Utils.Combinations.Laws.{tuples, as_array-new}

ms_to_pb_timestamp-exact_example :
    let t = ms_to_pb_timestamp 1_500 in
    (t.seconds ≡ pos (1_500 / 1000))
    × (t.nanos ≡ 1_500 % 1000 * 1_000_000)
    × (t.nanos < 1_000_000_000)
ms_to_pb_timestamp-exact_example = ms_to_pb_timestamp-exact 1_500 (omega arith)

as_array-new_example :
    as_array (product (2 ∷ 3 ∷ []) + 1) (new (2 ∷ 3 ∷ [])) ≡ some (tuples (2 ∷ 3 ∷ []))
as_array-new_example = as_array-new 2 (3 ∷ [])
