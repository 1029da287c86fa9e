-- ===== src/Base/Bits.antt =====
-- Bitwise or of numbers whose digits do not meet is their sum. No code of the repository is modelled here.
use Prim.Native.Nat.{
  ℕ, zero, suc, ◌+◌, ◌*◌, ◌/◌, ◌%◌, ◌^◌, ◌≤◌, ◌<◌, max, digits, bit_or, bit_or-bitwise,
}
use mathlib.Core.Path.{◌≡◌, refl, ap}
use native.Mathlib.Nat.{pow-succ'}
use native.Mathlib.Omega.{arith}

-- The operation on at most `fuel` digits.
abbrev or_digits : ℕ → ℕ → ℕ → ℕ
or_digits fuel = digits (λ y. y) max fuel

-- More digits than the first number has change nothing.
or_digits-more :
    (x y fuel more : ℕ) → x ≤ fuel → fuel ≤ more → or_digits more x y ≡ or_digits fuel x y
or_digits-more zero y zero zero h k = refl
or_digits-more zero y zero (suc more) h k = refl
or_digits-more zero y (suc fuel) zero h k = absurd (omega arith)
or_digits-more zero y (suc fuel) (suc more) h k = refl
or_digits-more (suc x) y zero more h k = absurd (omega arith)
or_digits-more (suc x) y (suc fuel) zero h k = absurd (omega arith)
or_digits-more (suc x) y (suc fuel) (suc more) h k =
    omega (arith, or_digits-more (suc x / 2) (y / 2) fuel more (omega arith) (omega arith))

bit_or-zero_left : (y : ℕ) → bit_or 0 y ≡ y
bit_or-zero_left y = bit_or-bitwise 0 y

bit_or_step : (x y : ℕ) → bit_or x y ≡ bit_or (x / 2) (y / 2) * 2 + max (x % 2) (y % 2)
bit_or_step zero y = omega (arith, bit_or-zero_left y, bit_or-zero_left (y / 2))
bit_or_step (suc x) y =
    let here = bit_or-bitwise (suc x) y in
    let there = bit_or-bitwise (suc x / 2) (y / 2) in
    omega (
      arith,
      here,
      there,
      or_digits-more (suc x / 2) (y / 2) (suc x / 2) x (omega arith) (omega arith),
    )

power_suc : (a j : ℕ) → a * 2 ^ suc j ≡ a * 2 ^ j * 2
power_suc a j = rw (pow-succ' 2 j) (grind arith)

bit_or-zero_right : (fuel x : ℕ) → x ≤ fuel → bit_or x 0 ≡ x
bit_or-zero_right zero zero h = bit_or-zero_left 0
bit_or-zero_right zero (suc x) h = absurd (omega arith)
bit_or-zero_right (suc fuel) x h = omega (arith, bit_or_step x 0, bit_or-zero_right fuel (x / 2))

-- The digits of `y` lie below those of `a * 2 ^ j`.
pub bit_or-above : (j a y : ℕ) → y < 2 ^ j → bit_or (a * 2 ^ j) y ≡ a * 2 ^ j + y
bit_or-above zero a y h =
    let unit : a * 2 ^ 0 ≡ a = omega arith in
    let none_left : y ≡ 0 = omega arith in
    rw (unit, none_left) (omega (arith, bit_or-zero_right a a (omega arith)))
bit_or-above (suc j) a y h =
    let half : a * 2 ^ suc j / 2 ≡ a * 2 ^ j = omega (arith, power_suc a j) in
    let rest = bit_or-above j a (y / 2) (omega (arith, power_suc 1 j)) in
    let same = ap (λ x. bit_or x (y / 2)) half in
    omega (arith, power_suc a j, bit_or_step (a * 2 ^ suc j) y, same, rest)

pub bit_or-below : (j a x : ℕ) → x < 2 ^ j → bit_or x (a * 2 ^ j) ≡ a * 2 ^ j + x
bit_or-below zero a x h =
    let unit : a * 2 ^ 0 ≡ a = omega arith in
    let none_left : x ≡ 0 = omega arith in rw (unit, none_left) (omega (arith, bit_or-zero_left a))
bit_or-below (suc j) a x h =
    let half : a * 2 ^ suc j / 2 ≡ a * 2 ^ j = omega (arith, power_suc a j) in
    let rest = bit_or-below j a (x / 2) (omega (arith, power_suc 1 j)) in
    let same = ap (bit_or (x / 2)) half in
    omega (arith, power_suc a j, bit_or_step x (a * 2 ^ suc j), same, rest)

-- The digits of `low` lie below those of the two others, which are joined.
pub bit_or-split :
    (j x y low : ℕ) → low < 2 ^ j → bit_or (x * 2 ^ j + low) (y * 2 ^ j) ≡ bit_or x y * 2 ^ j + low
bit_or-split zero x y low h =
    let first : x * 2 ^ 0 + low ≡ x = omega arith in
    let second : y * 2 ^ 0 ≡ y = omega arith in rw (first, second) (omega arith)
bit_or-split (suc j) x y low h =
    let left = x * 2 ^ suc j + low in
    let first : left / 2 ≡ x * 2 ^ j + low / 2 = omega (arith, power_suc x j) in
    let second : y * 2 ^ suc j / 2 ≡ y * 2 ^ j = omega (arith, power_suc y j) in
    let rest = bit_or-split j x y (low / 2) (omega (arith, power_suc 1 j)) in
    let same : bit_or (left / 2) (y * 2 ^ suc j / 2) ≡ bit_or (x * 2 ^ j + low / 2) (y * 2 ^ j) =
      rw (first, second) refl in
    omega (
      arith,
      power_suc x j,
      power_suc y j,
      power_suc (bit_or x y) j,
      bit_or_step left (y * 2 ^ suc j),
      same,
      rest,
    )
