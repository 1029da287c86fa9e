-- ===== src/Programs/Prints.antt =====
-- What the number printing of proj/sparc-prog/prints.c writes.
use native.Mathlib.Nat.{pow-succ'}
use sparcy.Base.{
  ℕ, zero, suc, ◌+◌, ◌*◌, ◌/◌, ◌%◌, ◌^◌, ◌-◌, ◌≤◌, ◌<◌, ◌≡◌, ◌≢◌, refl, arith, inl, inr, ◌∙◌, ap,
  sym, some, List, [], ◌∷◌, ◌==◌, ltb, if◌then◌else◌, length, All, get_or, neg32, Bool-cases,
  if_taken, if_skipped, true, false, Bool, ◌&&◌, ◌||◌, not, ==_iff, is_neg32,
}
use sparcy.Programs.{
  split_digits, write_digits, print_number, print_udecimal, print_decimal, print_hex, dec_digits,
  hex_digits,
}

-- The number that a list of digits stands for, after `acc`.
abbrev pub value_of : ℕ → ℕ → List ℕ → ℕ
value_of base acc [] = acc
value_of base acc (d ∷ digits) = value_of base (acc * base + d) digits

-- The digit that a character stands for.
abbrev pub digit_of : ℕ → ℕ
digit_of c = if ltb c 58 then c - 48 else c - 55

abbrev pub number_in : ℕ → ℕ → List ℕ → ℕ
number_in base acc [] = acc
number_in base acc (c ∷ text) = number_in base (acc * base + digit_of c) text

-- What the loops use of a base.
record IsBase (base : ℕ) (table : List ℕ) : Type 0 where
  divides : (n : ℕ) → n / base * base + n % base ≡ n
  halves : (n : ℕ) → n / base ≤ n / 2
  digit : (n : ℕ) → n % base < base
  reads : (d : ℕ) → d < base → digit_of (get_or table d 0) ≡ d
  not_zero : (d : ℕ) → 0 < d → d < base → get_or table d 0 ≢ 48

-- The first of the digits or characters.
abbrev pub first : List ℕ → ℕ
first [] = 0
first (d ∷ _) = d

module _ (base : ℕ) (table : List ℕ) where
  -- The first loop ends, with digits that stand for the number.
  record Splits (fuel num : ℕ) (digits : List ℕ) (all : List ℕ) : Type 0 where
    value : value_of base 0 all ≡ value_of base num digits
    small : All (λ d. d < base) all
    few : length all ≤ fuel + length digits
    leads : 0 < num → first all ≢ 0

  some_fuel : (fuel n : ℕ) → 0 < n → n < 2 ^ fuel → 0 < fuel
  some_fuel zero n h k = absurd (omega arith)
  some_fuel (suc fuel) n h k = omega arith

  split_digits-Splits :
      (fuel num : ℕ) (digits : List ℕ)
      → IsBase base table
      → num < 2 ^ fuel
      → 0 < fuel
      → All (λ d. d < base) digits
      → (all : List ℕ) × (split_digits base fuel num digits ≡ some all) × Splits fuel num digits all
  unfolding split_digits
  split_digits-Splits zero num digits b small more fit = absurd (omega arith)
  split_digits-Splits (suc fuel) num digits b small more fit =
      let next = num % base ∷ digits in
      elim (Bool-cases (num / base == 0)) [
        | inl done ↦
            let zero_left : num / base ≡ 0 = ground arith in
            let alone : 0 * base + num % base ≡ num =
              ap (λ q. q * base + num % base) (sym zero_left) ∙ b.divides num in
            (
              next,
              if_taken (num / base == 0) _ _ done,
              record {
                value = ap (λ a. value_of base a digits) alone;
                small = (b.digit num, fit);
                few = omega arith;
                leads = λ pos none_left. absurd (omega (arith, alone));
              },
            )
        | inr on ↦
            let left : 0 < num / base = ground arith in
            let double : 2 ^ suc fuel ≡ 2 ^ fuel * 2 = rw (pow-succ' 2 fuel) (grind arith) in
            let half : num / base < 2 ^ fuel = omega (arith, double, b.halves num) in
            let more' : 0 < fuel = some_fuel fuel (num / base) left half in
            let (all, ran, a) =
              split_digits-Splits fuel (num / base) next b half more' (b.digit num, fit) in
            (
              all,
              if_skipped (num / base == 0) _ _ on ∙ ran,
              record {
                value = a.value ∙ ap (λ n. value_of base n digits) (b.divides num);
                small = a.small;
                few = omega (arith, a.few);
                leads = λ _. a.leads left;
              },
            )
      ]

  number_in-write_digits :
      (acc : ℕ) (digits : List ℕ)
      → IsBase base table
      → All (λ d. d < base) digits
      → number_in base acc (write_digits table digits) ≡ value_of base acc digits
  unfolding write_digits
  number_in-write_digits acc [] b small = refl
  number_in-write_digits acc (d ∷ digits) b (less, small) =
      ap (λ e. number_in base (acc * base + e) (write_digits table digits)) (b.reads d less)
      ∙ (number_in-write_digits (acc * base + d) digits b small)

  length-write_digits : (digits : List ℕ) → length (write_digits table digits) ≡ length digits
  unfolding write_digits
  length-write_digits [] = refl
  length-write_digits (d ∷ digits) = ap suc (length-write_digits digits)

  first-write_digits :
      (digits : List ℕ)
      → IsBase base table
      → All (λ d. d < base) digits
      → first digits ≢ 0
      → first (write_digits table digits) ≢ 48
  unfolding write_digits
  first-write_digits [] b small leads = absurd (leads refl)
  first-write_digits (d ∷ digits) b (less, small) leads = b.not_zero d (omega (arith, leads)) less

  print_number-writes :
      (num : ℕ)
      → IsBase base table
      → num < 2 ^ 32
      → (text : List ℕ) × (print_number base table num ≡ some text)
        × (number_in base 0 text ≡ num)
        × (length text ≤ 100)
        × (0 < num → first text ≢ 48)
  unfolding print_number
  print_number-writes num b fits =
      let (all, ran, a) = split_digits-Splits 100 num [] b (omega arith) (omega arith) tt in
      (
        write_digits table all,
        rw (print_number, ran) refl,
        number_in-write_digits 0 all b a.small ∙ a.value,
        omega (arith, length-write_digits all, a.few),
        λ pos. first-write_digits all b a.small (a.leads pos),
      )

-- A test that holds of every number below `n`.
abbrev all_below : ℕ → (ℕ → Bool) → Bool
all_below zero test = true
all_below (suc n) test = test n && all_below n test

all_below_lem :
    (n : ℕ) (test : ℕ → Bool) → all_below n test ≡ true → (d : ℕ) → d < n → test d ≡ true
all_below_lem zero test h d k = absurd (omega arith)
all_below_lem (suc n) test h d k =
    let parts : (test n ≡ true) × (all_below n test ≡ true) = ground arith in
    elim (Bool-cases (d == n)) [
      | inl e ↦ let same : d ≡ n = ground arith in rw same parts.0
      | inr e ↦ all_below_lem n test parts.1 d (ground arith)
    ]

abbrev reads_back : List ℕ → ℕ → Bool
reads_back table d = digit_of (get_or table d 0) == d

abbrev keeps_zero : List ℕ → ℕ → Bool
keeps_zero table d = d == 0 || not (get_or table d 0 == 48)

table_reads :
    (base : ℕ) (table : List ℕ)
    → all_below base (reads_back table) ≡ true
    → (d : ℕ) → d < base
    → digit_of (get_or table d 0) ≡ d
table_reads base table h d k =
    (==_iff (digit_of (get_or table d 0)) d).0 (all_below_lem base (reads_back table) h d k)

table_not_zero :
    (base : ℕ) (table : List ℕ)
    → all_below base (keeps_zero table) ≡ true
    → (d : ℕ) → 0 < d
    → d < base
    → get_or table d 0 ≢ 48
table_not_zero base table h d pos k e =
    let kept = all_below_lem base (keeps_zero table) h d k in ground arith

dec_digits-IsBase : IsBase 10 dec_digits
dec_digits-IsBase = record {
  divides = λ n. omega arith;
  halves = λ n. omega arith;
  digit = λ n. omega arith;
  reads = table_reads 10 dec_digits refl;
  not_zero = table_not_zero 10 dec_digits refl;
}

hex_digits-IsBase : IsBase 16 hex_digits
hex_digits-IsBase = record {
  divides = λ n. omega arith;
  halves = λ n. omega arith;
  digit = λ n. omega arith;
  reads = table_reads 16 hex_digits refl;
  not_zero = table_not_zero 16 hex_digits refl;
}

-- For every unsigned long, `print_udecimal` and `print_hex` end within their buffers of 100 digits and
-- write a text that, read as a decimal or a hexadecimal number, is that number; a number above 0 has no
-- leading zero.
pub print_udecimal-print_hex :
    (num : ℕ)
    → num < 2 ^ 32
    → ((text : List ℕ) × (print_udecimal num ≡ some text)
        × (number_in 10 0 text ≡ num)
        × (length text ≤ 100)
        × (0 < num → first text ≢ 48))
      × ((text : List ℕ) × (print_hex num ≡ some text)
          × (number_in 16 0 text ≡ num)
          × (length text ≤ 100)
          × (0 < num → first text ≢ 48))
unfolding print_udecimal print_hex
print_udecimal-print_hex num fits = (
  print_number-writes 10 dec_digits num dec_digits-IsBase fits,
  print_number-writes 16 hex_digits num hex_digits-IsBase fits,
)

-- A negative long is printed as its absolute value: `print_decimal` writes no sign, and what it writes
-- for -num is what it writes for num.
pub print_decimal_loses_sign :
    (num : ℕ) → 0 < num → num < 2 ^ 31 → print_decimal (neg32 num) ≡ print_decimal num
unfolding print_decimal
print_decimal_loses_sign num pos fits =
    let back : neg32 (neg32 num) ≡ num = omega arith in
    let below : is_neg32 (neg32 num) ≡ true = ground arith in
    let above : is_neg32 num ≡ false = ground arith in
    if_taken (is_neg32 (neg32 num)) _ _ below
    ∙ ap print_udecimal back
    ∙ sym (if_skipped (is_neg32 num) _ _ above)
