-- ===== src/Programs/Spigot.antt =====
-- The guest program proj/sparc-prog/pi_checksum.c. An int has 32 bits and wraps; the array `r` holds what
-- the stack held before, of which its last element is read.
use sparcy.Base.{
  ℕ, zero, suc, ◌+◌, ◌-◌, ◌*◌, ◌/◌, ◌%◌, Option, some, List, [], ◌∷◌, ◌++◌, ◌==◌, ltb,
  if◌then◌else◌, u32, neg32, is_neg32, get_or,
}
use sparcy.Programs.{print_decimal, newline, ◌>>=◌}

abbrev pub num_digits : ℕ
num_digits = 140

-- An int divided by a positive one: the quotient is rounded towards 0, and the remainder has the sign of
-- the dividend.
unfoldable pub int_div : ℕ → ℕ → ℕ
int_div d b = if is_neg32 d then neg32 (neg32 d / b) else d / b

unfoldable pub int_mod : ℕ → ℕ → ℕ
int_mod d b = if is_neg32 d then neg32 (neg32 d % b) else d % b

unfoldable pub set_element : List ℕ → ℕ → ℕ → List ℕ
set_element [] i n = []
set_element (x ∷ r) zero n = n ∷ r
set_element (x ∷ r) (suc i) n = x ∷ set_element r i n

-- The first loop, for the first `n` elements.
unfoldable pub fill : ℕ → List ℕ → List ℕ
fill zero r = r
fill (suc n) [] = []
fill (suc n) (x ∷ r) = 2000 ∷ fill n r

-- The inner loop from `i` on, with what it leaves of `r` and `d`.
unfoldable pub divide_down : ℕ → List ℕ → ℕ → List ℕ × ℕ
unfolding int_div int_mod set_element
divide_down zero r d = (r, d)
divide_down (suc i) r d =
    let d' = u32 (d + get_or r (suc i) 0 * 10000) in
    let b = 2 * suc i - 1 in
    let r' = set_element r (suc i) (int_mod d' b) in
    let rest = divide_down i r' (u32 (int_div d' b * i)) in
    if i == 0 then (r', int_div d' b) else rest

-- The outer loop, on fuel: `res` and `c` are the variables of that name.
unfoldable pub add_groups : ℕ → ℕ → List ℕ → ℕ → ℕ → ℕ
unfolding int_div int_mod divide_down
add_groups zero k r c res = res
add_groups (suc fuel) k r c res =
    let left = divide_down k r 0 in
    let rest =
      add_groups fuel (k - 14) left.0 (int_mod left.1 10000)
        (u32 (res + (c + int_div left.1 10000))) in
    if ltb 0 k then rest else res

-- The value of `res` at the end, where `stack` is the first content of `r`.
unfoldable pub checksum : List ℕ → ℕ
unfolding fill add_groups
checksum stack = add_groups num_digits num_digits (fill num_digits stack) 0 0

-- "res is "
abbrev res_is : List ℕ
res_is = 114 ∷ 101 ∷ 115 ∷ 32 ∷ 105 ∷ 115 ∷ 32 ∷ []

-- `main`: what it writes.
unfoldable pub pi_main : List ℕ → Option (List ℕ)
unfolding checksum print_decimal ◌>>=◌
pi_main stack = do text ← print_decimal (checksum stack); some (res_is ++ (text ++ newline))
