-- ===== src/Driver/Line.antt =====
-- The eight words of a line in memory, as proj/system.cpp writes them in a burst and reads them at the
-- end of a read: the word at the address first.
use sparcy.Base.{
  ℕ, suc, ltb, if◌then◌else◌, ◌-◌, ◌+◌, ◌*◌, ◌/◌, ◌%◌, ◌≤◌, ◌<◌, ◌≡◌, refl, ap, ◌⊎◌, ◌∙◌, arith,
  List, [], ◌∷◌, map, u64, length,
}
use sparcy.Memory.{Memory, stq_be_p, ldq_be_p, bswap64}
use sparcy.Memory.Accessors.{ld_be_p-st_be_p}
use sparcy.Memory.Loads.{ldq_be_p-same, stq_he_p_outside}
use sparcy.Driver.{cse502_be64toh}
use sparcy.Driver.Bus.{word_in_line, fill_words}

-- What a burst means: the words `ws` at the places of the line of `addr` from the `k`-th on.
unfoldable pub store_words : Memory → ℕ → ℕ → ℕ → List ℕ → Memory
store_words m ram addr k [] = m
store_words m ram addr k (w ∷ ws) =
    store_words (stq_be_p m (ram + word_in_line addr (k * 8)) w) ram addr (suc k) ws

-- A word of the line from the `k`-th on does not hold byte `q`.
abbrev pub IsBeside : ℕ → ℕ → ℕ → ℕ → Type 0
IsBeside ram addr k q =
    (i : ℕ)
    → k ≤ i
    → i < 8
    → (q < ram + word_in_line addr (i * 8)) ⊎ (ram + word_in_line addr (i * 8) + 8 ≤ q)

pub store_words_beside :
    (m : Memory) (ram addr k : ℕ) (ws : List ℕ)
    → k + length ws ≤ 8
    → (q : ℕ) → IsBeside ram addr k q
    → store_words m ram addr k ws q ≡ m q
unfolding store_words stq_be_p
store_words_beside m ram addr k [] fits q h = refl
store_words_beside m ram addr k (w ∷ ws) fits q h =
    store_words_beside (stq_be_p m (ram + word_in_line addr (k * 8)) w) ram addr (suc k) ws
      (omega arith) q (λ i k' i'. h i (omega arith) i')
    ∙ stq_he_p_outside m (ram + word_in_line addr (k * 8)) (bswap64 w) q
        (h k (omega arith) (omega arith))

-- Two words of a line do not meet.
words_apart :
    (addr i k : ℕ)
    → addr % 8 ≡ 0
    → i < k
    → k < 8
    → (word_in_line addr (i * 8) + 8 ≤ word_in_line addr (k * 8))
      ⊎ (word_in_line addr (k * 8) + 8 ≤ word_in_line addr (i * 8))
unfolding word_in_line
words_apart addr i k aligned h h' = omega arith

-- A burst changes only the bytes of the line.
pub store_words_outside :
    (m : Memory) (ram addr : ℕ) (ws : List ℕ)
    → length ws ≤ 8
    → addr % 8 ≡ 0
    → (q : ℕ) → (q < ram + addr / 64 * 64) ⊎ (ram + addr / 64 * 64 + 64 ≤ q)
    → store_words m ram addr 0 ws q ≡ m q
store_words_outside m ram addr ws fits aligned q h =
    store_words_beside m ram addr 0 ws (omega arith) q
      (λ i _ i'. unfold word_in_line in omega arith)

-- The word stored first is still there at the end.
first_word :
    (m : Memory) (ram addr k w : ℕ) (ws : List ℕ)
    → addr % 8 ≡ 0
    → suc k + length ws ≤ 8
    → ldq_be_p
        (store_words (stq_be_p m (ram + word_in_line addr (k * 8)) w) ram addr (suc k) ws)
        (ram + word_in_line addr (k * 8))
      ≡ u64 w
first_word m ram addr k w ws aligned fits =
    ldq_be_p-same _ _ (ram + word_in_line addr (k * 8)) (λ q h h'.
      store_words_beside _ ram addr (suc k) ws fits q
        (λ i k' i'. omega (arith, words_apart addr k i aligned (omega arith) i')))
    ∙ (ld_be_p-st_be_p m (ram + word_in_line addr (k * 8)) w).2

-- What `dram_read_complete` reads from a line after a burst: the words of the burst, in their order.
pub fill_words-store_words :
    (m : Memory) (ram addr tag k : ℕ) (ws : List ℕ)
    → addr % 8 ≡ 0
    → k + length ws ≤ 8
    → fill_words (store_words m ram addr k ws) ram addr tag (k * 8) (length ws)
      ≡ map (λ w. (u64 w, tag)) ws
unfolding store_words fill_words cse502_be64toh ldq_be_p
fill_words-store_words m ram addr tag k [] aligned fits = refl
fill_words-store_words m ram addr tag k (w ∷ ws) aligned fits =
    let next : k * 8 + 8 ≡ suc k * 8 = omega arith in
    let here = first_word m ram addr k w ws aligned (omega arith) in
    rw
      (
        next,
        fill_words-store_words (stq_be_p m (ram + word_in_line addr (k * 8)) w) ram addr tag (suc k)
            ws aligned (omega arith),
      )
      (ap (λ x. (x, tag) ∷ map (λ w'. (u64 w', tag)) ws) here)

-- Where the word that is `k` words after the one at `addr` stands: after the end of the line of 64 bytes it
-- goes on at the line's start.
abbrev pub place_in_line : ℕ → ℕ → ℕ
place_in_line addr k = if ltb (addr % 64 + 8 * k) 64 then addr + 8 * k else addr + 8 * k - 64

-- The words `ws` as big-endian numbers, from the one at `k` on.
unfoldable pub store_line : Memory → ℕ → ℕ → ℕ → List ℕ → Memory
store_line m ram addr k [] = m
store_line m ram addr k (w ∷ ws) =
    store_line (stq_be_p m (ram + place_in_line addr k) w) ram addr (suc k) ws

word_in_line-place_in_line : (addr k : ℕ) → k < 8 → word_in_line addr (k * 8) ≡ place_in_line addr k
unfolding word_in_line
word_in_line-place_in_line addr k h = ground arith

pub store_words-store_line :
    (m : Memory) (ram addr k : ℕ) (ws : List ℕ)
    → k + length ws ≤ 8
    → store_words m ram addr k ws ≡ store_line m ram addr k ws
unfolding store_words store_line
store_words-store_line m ram addr k [] fits = refl
store_words-store_line m ram addr k (w ∷ ws) fits =
    rw (word_in_line-place_in_line addr k (omega arith)) (
      store_words-store_line (stq_be_p m (ram + place_in_line addr k) w) ram addr (suc k) ws
        (omega arith))
