-- ===== src/Utils/Results/Laws.antt =====
-- The methods of Result against a sum, of src/utils/result.ts.
use hubble_ui.Prelude.{◌≡◌, refl, inl, inr, ◌⊎◌, Option, none, some}
use hubble_ui.Utils.Options.{from_nullable}
use hubble_ui.Utils.Results.{Result, success, error, option, map, map_err}

-- The Result that stands for a value that is not null, or for an error
abbrev pub result_of : {T E : Type 0} → T ⊎ E → Result T E
result_of (inl d) = success (some d)
result_of (inr err) = error err

-- A callback that is given a value and gives one
abbrev pub strict : {T S : Type 0} → (T → S) → Option T → Option S
strict f none = none
strict f (some d) = some (f d)

abbrev pub map_left : {T S E : Type 0} → (T → S) → T ⊎ E → S ⊎ E
map_left f (inl d) = inl (f d)
map_left f (inr err) = inr err

abbrev pub map_right : {T E F : Type 0} → (E → F) → T ⊎ E → T ⊎ F
map_right f (inl d) = inl d
map_right f (inr err) = inr (f err)

abbrev pub left_of : {T E : Type 0} → T ⊎ E → Option T
left_of (inl d) = some d
left_of (inr err) = none

module _ {T S E F : Type 0} where
  -- On results of values that are not null and of errors, `map`, `mapErr` and `option` are those of
  -- the sum of the values and the errors.
  result_of-sum :
      (f : T → S) (g : E → F) (x : T ⊎ E)
      → (map (strict f) (result_of x) ≡ result_of (map_left f x))
        × (map_err (strict g) (result_of x) ≡ result_of (map_right g x))
        × (option (result_of x) ≡ from_nullable (left_of x))
  unfolding map map_err option success error from_nullable
  result_of-sum f g (inl d) = (refl, refl, refl)
  result_of-sum f g (inr err) = (refl, refl, refl)
