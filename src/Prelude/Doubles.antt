-- ===== src/Prelude/Doubles.antt =====
-- Numbers of JavaScript: doubles, which have 53 significant bits. A double that is not negative is
-- written as a natural number of some unit, a power of two of which it is a multiple.
use Prim.Native.Nat.{ℕ, ◌<◌, zero, suc, ◌+◌, ◌-◌, ◌*◌, ◌/◌, ◌%◌, ◌≤◌}
use mathlib.Core.Path.{◌≡◌, refl}
use mathlib.Core.Logic.{inl, inr}
use mathlib.Core.Bool.{true, false}
use native.Mathlib.Omega.{arith}
use native.Mathlib.Nat.{le-div_iff_mul-le}
use hubble_ui.Prelude.Tests.{leb, ltb, Bool-cases, if◌then◌else◌}
use hubble_ui.Prelude.Int.{ℤ, pos, negsuc, leb_ℤ}

-- n / m to the nearest number, of two the even one
unfoldable pub round_half_even : ℕ → ℕ → ℕ
round_half_even n m =
    let q = n / m in
    let r = n % m in if ltb (2 * r) m then q else if ltb m (2 * r) then q + 1 else q + q % 2

-- The double nearest to n / d, among the multiples of p: p is doubled until 53 bits are enough.
unfoldable pub nearest : ℕ → ℕ → ℕ → ℕ → ℕ
unfolding round_half_even
nearest zero p n d = round_half_even n (d * p) * p
nearest (suc fuel) p n d = elim (ltb (n / (d * p)) 9_007_199_254_740_992) [
  | true ↦ round_half_even n (d * p) * p
  | false ↦ nearest fuel (2 * p) n d
]

-- The unit after some doublings
abbrev doubled : ℕ → ℕ → ℕ
doubled zero p = p
doubled (suc fuel) p = doubled fuel (2 * p)

-- The steps are enough if 53 bits are enough after them.
nearest-fuel :
    (fuel p n d : ℕ)
    → n / (d * doubled fuel p) < 9_007_199_254_740_992
    → nearest fuel p n d ≡ nearest (suc fuel) p n d
unfolding nearest
nearest-fuel zero p n d fits =
    let stop : ltb (n / (d * p)) 9_007_199_254_740_992 ≡ true = ground arith in
    rw (stop, nearest) refl
nearest-fuel (suc fuel) p n d fits = elim (Bool-cases (ltb (n / (d * p)) 9_007_199_254_740_992)) [
  | inl stop ↦ rw (stop, nearest) refl
  | inr wide ↦ rw (wide, nearest) (nearest-fuel fuel (2 * p) n d fits)
]

-- The double nearest to n / d units, where that is a whole number or not less than 2 ^ 52. Doubles
-- are less than 2 ^ 1024, which the 1100 steps reach for units from 2 ^ -72 on; greater numbers, which
-- are infinite in the program, are left as they come.
unfoldable pub to_double : ℕ → ℕ → ℕ
unfolding nearest
to_double n d = nearest 1100 1 n d

abbrev minus : ℕ → ℤ
minus zero = pos 0
minus (suc n) = negsuc n

-- a - b
unfoldable pub sub_double : ℕ → ℕ → ℤ
unfolding to_double
sub_double a b = if leb b a then pos (to_double (a - b) 1) else minus (to_double (b - a) 1)

round_half_even-positive : (n m : ℕ) → 1 ≤ m → m ≤ n → 1 ≤ round_half_even n m
unfolding round_half_even
round_half_even-positive n m one le =
    let filled : 1 ≤ n / m = (le-div_iff_mul-le one).1 (omega arith) in ground (arith, filled)

nearest-positive : (fuel p n : ℕ) → 1 ≤ p → p ≤ n → 1 ≤ nearest fuel p n 1
unfolding nearest
nearest-positive zero p n one le =
    let r : 1 ≤ round_half_even n (1 * p) =
      round_half_even-positive n (1 * p) (omega arith) (omega arith) in
    grind arith
nearest-positive (suc fuel) p n one le =
    elim (Bool-cases (ltb (n / (1 * p)) 9_007_199_254_740_992)) [
      | inl fits ↦
          let r : 1 ≤ round_half_even n (1 * p) =
            round_half_even-positive n (1 * p) (omega arith) (omega arith) in
          rw (fits, nearest) (grind arith)
      | inr wide ↦
          let more : 9_007_199_254_740_992 * (1 * p) ≤ n =
            (le-div_iff_mul-le {k = 1 * p} {x = 9_007_199_254_740_992} {y = n} (omega arith)).0
              (ground arith) in
          rw (wide, nearest) (nearest-positive fuel (2 * p) n (omega arith) (omega arith))
    ]

to_double-positive : (n : ℕ) → 1 ≤ n → 1 ≤ to_double n 1
unfolding to_double
to_double-positive n le = nearest-positive 1100 1 n (omega arith) le

not_above : (m a b : ℕ) → 1 ≤ m → leb a b ≡ false → leb_ℤ (pos m) (pos 0) ≡ leb a b
not_above m a b le h = ground arith

below : (m a b : ℕ) → 1 ≤ m → leb b a ≡ false → leb_ℤ (minus m) (pos 0) ≡ leb a b
below zero a b le h = absurd (omega arith)
below (suc m) a b le h = ground arith

-- The sign of a difference is exact.
pub sub_double-sign : (a b : ℕ) → leb_ℤ (sub_double a b) (pos 0) ≡ leb a b
unfolding sub_double
sub_double-sign a b = elim (Bool-cases (leb b a)) [
  | inl down ↦ elim (Bool-cases (leb a b)) [
    | inl same ↦
        let none_left : a - b ≡ 0 = ground arith in rw (down, same, none_left, sub_double) refl
    | inr above ↦
        rw (down, sub_double)
          (not_above (to_double (a - b) 1) a b (to_double-positive (a - b) (ground arith)) above)
  ]
  | inr up ↦
      rw (up, sub_double)
        (below (to_double (b - a) 1) a b (to_double-positive (b - a) (ground arith)) up)
]
