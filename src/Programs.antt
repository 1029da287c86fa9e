-- ===== src/Programs.antt =====
-- The number printing of proj/sparc-prog/prints.c, which the guest programs include. An unsigned long has
-- 32 bits there, and what is written to descriptor 1 is a list of bytes.
pub mod Deflate
pub mod Prints
pub mod Sample
pub mod Small
pub mod Spigot
use sparcy.Base.{
  ℕ, zero, suc, ◌+◌, ◌/◌, ◌%◌, Option, none, some, List, [], ◌∷◌, ◌==◌, if◌then◌else◌, is_neg32,
  neg32, get_or, map,
}

-- The first loop, on fuel: `digits` holds the lowest digit last.
unfoldable pub split_digits : ℕ → ℕ → ℕ → List ℕ → Option (List ℕ)
split_digits base zero num digits = none
split_digits base (suc fuel) num digits =
    let rest = split_digits base fuel (num / base) (num % base ∷ digits) in
    if num / base == 0 then some (num % base ∷ digits) else rest

-- The strings of `HEX_DIGITS`, and of `DEC_DIGITS` up to 9, have one character each.
abbrev pub hex_digits : List ℕ
hex_digits = 48 ∷ 49 ∷ 50 ∷ 51 ∷ 52 ∷ 53 ∷ 54 ∷ 55 ∷ 56 ∷ 57 ∷ 65 ∷ 66 ∷ 67 ∷ 68 ∷ 69 ∷ 70 ∷ []

abbrev pub dec_digits : List ℕ
dec_digits = 48 ∷ 49 ∷ 50 ∷ 51 ∷ 52 ∷ 53 ∷ 54 ∷ 55 ∷ 56 ∷ 57 ∷ []

-- The second loop, from the highest digit on.
unfoldable pub write_digits : List ℕ → List ℕ → List ℕ
write_digits table [] = []
write_digits table (d ∷ digits) = get_or table d 0 ∷ write_digits table digits

unfoldable pub print_number : ℕ → List ℕ → ℕ → Option (List ℕ)
unfolding split_digits write_digits
print_number base table num = elim (split_digits base 100 num []) [
  | none ↦ none
  | some digits ↦ some (write_digits table digits)
]

unfoldable pub print_udecimal : ℕ → Option (List ℕ)
unfolding print_number
print_udecimal num = print_number 10 dec_digits num

unfoldable pub print_decimal : ℕ → Option (List ℕ)
unfolding print_udecimal
print_decimal num = if is_neg32 num then print_udecimal (neg32 num) else print_udecimal num

unfoldable pub print_hex : ℕ → Option (List ℕ)
unfolding print_number
print_hex num = print_number 16 hex_digits num

-- What a program writes in several steps: without the first text there is none.
infixl 5 ◌>>=◌
unfoldable pub ◌>>=◌ : {A B : Type 0} → Option A → (A → Option B) → Option B
none >>= rest = none
some x >>= rest = rest x

-- "\n"
abbrev pub newline : List ℕ
newline = 10 ∷ []
