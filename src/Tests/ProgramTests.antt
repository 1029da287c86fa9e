-- ===== src/Tests/ProgramTests.antt =====
-- Tests of the number printing of proj/sparc-prog/prints.c.
use sparcy.Base.{
  ℕ, zero, suc, Option, none, get_or, ◌≡◌, ◌≢◌, ◌≤◌, ◌<◌, refl, some, List, [], ◌∷◌, length, neg32,
  arith,
}
use sparcy.Programs.{print_udecimal, print_decimal, print_hex}
use sparcy.Programs.Sample.{
  Miniz, Ended, compress_main, deflate_main, decompress, after_sizes, compare_result, same_bytes,
  sizes, s_p_str,
}
use sparcy.Programs.Small.{stack_dir_main, grows_lower}
use sparcy.Programs.Spigot.{checksum, int_mod, int_div}
use sparcy.Programs.Deflate.{Reports, deflate_main-Reports}
use sparcy.Programs.Prints.{number_in, first, print_udecimal-print_hex}

print_udecimal_2000 : print_udecimal 2000 ≡ some (50 ∷ 48 ∷ 48 ∷ 48 ∷ [])
unfolding print_udecimal
print_udecimal_2000 = refl

print_hex_zero : print_hex 0 ≡ some (48 ∷ [])
unfolding print_hex
print_hex_zero = refl

print_udecimal-print_hex_example :
    ((text : List ℕ) × (print_udecimal 0xbeef ≡ some text)
      × (number_in 10 0 text ≡ 0xbeef)
      × (length text ≤ 100)
      × (0 < 0xbeef → first text ≢ 48))
    × ((text : List ℕ) × (print_hex 0xbeef ≡ some text)
        × (number_in 16 0 text ≡ 0xbeef)
        × (length text ≤ 100)
        × (0 < 0xbeef → first text ≢ 48))
print_udecimal-print_hex_example = print_udecimal-print_hex 0xbeef (omega arith)

print_decimal_minus_42 : print_decimal (neg32 42) ≡ some (52 ∷ 50 ∷ [])
unfolding print_decimal
print_decimal_minus_42 = refl

int_div_rounds_to_zero : int_div (neg32 7) 2 ≡ neg32 3
unfolding int_div
int_div_rounds_to_zero = refl

int_mod_of_negative : int_mod (neg32 7) 2 ≡ neg32 1
unfolding int_mod
int_mod_of_negative = refl

abbrev zeros : ℕ → List ℕ
zeros zero = []
zeros (suc n) = 0 ∷ zeros n

checksum_of_pi : checksum (zeros 141) ≡ 43529
unfolding checksum
checksum_of_pi = refl

stack_goes_down : stack_dir_main (0xbeef ∷ 0xbeee ∷ []) ≡ some grows_lower
unfolding stack_dir_main
stack_goes_down = refl

-- A compressor that copies.
abbrev copying : Miniz
copying = record {
  mz_version = 49 ∷ [];
  compress_bound = λ n. n;
  compress = λ source dest_len. record {
    status = 0;
    stored_len = length source;
    bytes = λ i. get_or source i 0;
  };
  uncompress =
      λ source source_len dest_len. record { status = 0; stored_len = source_len; bytes = source };
}

abbrev status_of : Option Ended → ℕ
status_of none = 2
status_of (some ended) = ended.status

deflate_succeeds : status_of (deflate_main copying 0x1000 0x2000) ≡ 0
unfolding deflate_main decompress after_sizes compare_result same_bytes sizes s_p_str
deflate_succeeds = refl

deflate_without_memory : status_of (deflate_main copying 0x1000 0) ≡ 1
unfolding deflate_main
deflate_without_memory = refl

compress_succeeds : status_of (compress_main copying 0x1000 0x2000) ≡ 0
unfolding compress_main sizes s_p_str
compress_succeeds = refl

deflate_main-Reports_example :
    (ended : Ended) × (deflate_main copying 0x1000 0x2000 ≡ some ended)
    × Reports copying 0x1000 0x2000 ended
deflate_main-Reports_example = deflate_main-Reports copying 0x1000 0x2000
