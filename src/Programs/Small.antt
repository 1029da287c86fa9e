-- ===== src/Programs/Small.antt =====
-- The guest programs proj/sparc-prog/malloc.c and stack_dir.c. The addresses that malloc returns, and those
-- of the local variable `dummy`, are parameters.
use sparcy.Base.{
  ℕ, zero, suc, ◌==◌, Option, none, some, List, [], ◌∷◌, ◌++◌, ltb, neg32, is_neg32, if◌then◌else◌,
  not, ◌&&◌,
}
use sparcy.Programs.{print_hex, newline, ◌>>=◌}

-- "test is 0x"
abbrev test_is : List ℕ
test_is = 116 ∷ 101 ∷ 115 ∷ 116 ∷ 32 ∷ 105 ∷ 115 ∷ 32 ∷ 48 ∷ 120 ∷ []

-- The loop of malloc.c from the `i`-th block on, for `n` blocks: what it writes.
unfoldable pub print_blocks : (ℕ → ℕ) → ℕ → ℕ → Option (List ℕ)
unfolding print_hex ◌>>=◌
print_blocks malloc i zero = some []
print_blocks malloc i (suc n) = do
  text ← print_hex (malloc i)
  rest ← print_blocks malloc (suc i) n
  some (test_is ++ (text ++ (newline ++ rest)))

-- `main` of malloc.c
unfoldable pub malloc_main : (ℕ → ℕ) → Option (List ℕ)
unfolding print_blocks
malloc_main malloc = print_blocks malloc 0 10

-- `find_stack_direction`: `addr` is its static variable, and the list has the address of `dummy` in
-- each activation, the outermost first.
unfoldable pub find_stack_direction : ℕ → List ℕ → Option ℕ
find_stack_direction addr [] = none
find_stack_direction addr (dummy ∷ inner) =
    let rest = find_stack_direction dummy inner in
    if addr == 0 then rest else some (if ltb addr dummy then 1 else neg32 1)

-- "Stack grows towards higher addrs."
abbrev pub grows_higher : List ℕ
grows_higher =
    83 ∷ 116 ∷ 97 ∷ 99 ∷ 107 ∷ 32 ∷ 103 ∷ 114 ∷ 111 ∷ 119 ∷ 115 ∷ 32 ∷ 116 ∷ 111 ∷ 119 ∷ 97 ∷ 114
    ∷ 100 ∷ 115 ∷ 32 ∷ 104 ∷ 105 ∷ 103 ∷ 104 ∷ 101 ∷ 114 ∷ 32 ∷ 97 ∷ 100 ∷ 100 ∷ 114 ∷ 115 ∷ 46 ∷ 10
    ∷ []

-- "Stack grows towards lower addrs."
abbrev pub grows_lower : List ℕ
grows_lower =
    83 ∷ 116 ∷ 97 ∷ 99 ∷ 107 ∷ 32 ∷ 103 ∷ 114 ∷ 111 ∷ 119 ∷ 115 ∷ 32 ∷ 116 ∷ 111 ∷ 119 ∷ 97 ∷ 114
    ∷ 100 ∷ 115 ∷ 32 ∷ 108 ∷ 111 ∷ 119 ∷ 101 ∷ 114 ∷ 32 ∷ 97 ∷ 100 ∷ 100 ∷ 114 ∷ 115 ∷ 46 ∷ 10 ∷ []

-- `main` of stack_dir.c: what it writes.
unfoldable pub stack_dir_main : List ℕ → Option (List ℕ)
unfolding find_stack_direction ◌>>=◌
stack_dir_main dummies = do
  direction ← find_stack_direction 0 dummies
  some (if ltb 0 direction && not (is_neg32 direction) then grows_higher else grows_lower)
