-- ===== src/Convert/FdSet/Digits.antt =====
-- The bits of a set of descriptors in guest memory, as `copy_from_user_fdset` and `copy_to_user_fdset` of
-- proj/sparc-linux/syscall.c lay them out: descriptor `i` is bit `i % 32` of word `i / 32`.
use mathlib.Core.Path.{subst}
use sparcy.Base.{
  ℕ, zero, suc, ◌+◌, ◌*◌, ◌/◌, ◌%◌, ◌^◌, ◌<◌, ◌≡◌, refl, ap, sym, ◌∙◌, Bool, ◌==◌, if◌then◌else◌,
  arith,
}
use native.Mathlib.Nat.{pow-succ', div-div-eq-div-mul}
use sparcy.Memory.{Memory, ldl_be_p, bswap32}
use sparcy.Convert.FdSet.{FdSet}
use sparcy.Convert.FdSet.Bits.{low, low_bit, low_half}
use sparcy.Convert.FdSet.Words.{HoldsSet}

abbrev digit : ℕ → ℕ → Bool
digit x j = x / 2 ^ j % 2 == 1

abbrev pub in_set : Memory → ℕ → FdSet
in_set m p i = digit (ldl_be_p m (p + 4 * (i / 32))) (i % 32)

digit_next : (x j : ℕ) → digit x (suc j) ≡ digit (x / 2) j
digit_next x j =
    ap (λ y. x / y % 2 == 1) (pow-succ' 2 j)
    ∙ ap (λ y. y % 2 == 1) (sym (div-div-eq-div-mul x 2 (2 ^ j)))

digit-low : (n j k : ℕ) (fds : FdSet) → j < n → digit (low n k fds) j ≡ fds (k + j)
unfolding low
digit-low zero j k fds h = absurd (omega arith)
digit-low (suc n) zero k fds h =
    let x = (if fds k then 1 else 0) + 2 * low n (k + 1) fds in
    let whole : x / 1 ≡ x = omega arith in
    let here : k ≡ k + 0 = omega arith in
    ap (λ y. y % 2 == 1) whole ∙ (low_bit (fds k) (low n (k + 1) fds) ∙ ap fds here)
digit-low (suc n) (suc j) k fds h =
    let x = (if fds k then 1 else 0) + 2 * low n (k + 1) fds in
    let here : k + 1 + j ≡ k + suc j = omega arith in
    digit_next x j
    ∙ (ap (λ y. digit y j) (low_half (fds k) (low n (k + 1) fds))
        ∙ (digit-low n j (k + 1) fds (omega arith) ∙ ap fds here))

low-digit :
    (n k x : ℕ) (fds : FdSet)
    → x < 2 ^ n
    → ((j : ℕ) → j < n → fds (k + j) ≡ digit x j)
    → low n k fds ≡ x
unfolding low
low-digit zero k x fds h digits = omega arith
low-digit (suc n) k x fds h digits =
    let here : k ≡ k + 0 = omega arith in
    let lowest : fds k ≡ digit x 0 = ap fds here ∙ digits 0 (omega arith) in
    let small : x / 2 < 2 ^ n = omega (arith, h, pow-succ' 2 n) in
    let rest : low n (k + 1) fds ≡ x / 2 = low-digit n (k + 1) (x / 2) fds small λ j below.
      let next : k + 1 + j ≡ k + suc j = omega arith in
      ap fds next ∙ (digits (suc j) (omega arith) ∙ digit_next x j) in
    rw (lowest, rest) (ground arith)

word_of :
    (left : ℕ) (m : Memory) (p k w : ℕ) (fds : FdSet)
    → HoldsSet left m p k fds
    → w < left
    → ldl_be_p m (p + 4 * w) ≡ low 32 (k + 32 * w) fds
word_of zero m p k w fds holds h = absurd (omega arith)
word_of (suc left) m p k zero fds (here, rest) h =
    let address : p + 4 * 0 ≡ p = omega arith in
    let number : k + 32 * 0 ≡ k = omega arith in rw (address, number) here
word_of (suc left) m p k (suc w) fds (here, rest) h =
    let address : p + 4 * suc w ≡ p + 4 + 4 * w = omega arith in
    let number : k + 32 * suc w ≡ k + 32 + 32 * w = omega arith in
    rw (address, number) (word_of left m (p + 4) (k + 32) w fds rest (omega arith))

-- Words that hold a set have its descriptors as their bits.
pub HoldsSet-in_set :
    (left : ℕ) (m : Memory) (p i : ℕ) (fds : FdSet)
    → HoldsSet left m p 0 fds
    → i < 32 * left
    → in_set m p i ≡ fds i
HoldsSet-in_set left m p i fds holds h =
    let at : 0 + 32 * (i / 32) + i % 32 ≡ i = omega arith in
    ap (λ x. digit x (i % 32)) (word_of left m p 0 (i / 32) fds holds (omega arith))
    ∙ (digit-low 32 (i % 32) (0 + 32 * (i / 32)) fds (omega arith) ∙ ap fds at)

word-lt : (m : Memory) (p : ℕ) → ldl_be_p m p < 2 ^ 32
unfolding ldl_be_p bswap32
word-lt m p = omega arith

-- And any words hold the set of their bits.
words-HoldsSet :
    (left w : ℕ) (m : Memory) (p : ℕ) → HoldsSet left m (p + 4 * w) (32 * w) (in_set m p)
words-HoldsSet zero w m p = tt
words-HoldsSet (suc left) w m p =
    let address : p + 4 * w + 4 ≡ p + 4 * suc w = omega arith in
    let number : 32 * w + 32 ≡ 32 * suc w = omega arith in
    (
      sym (
          low-digit 32 (32 * w) (ldl_be_p m (p + 4 * w)) (in_set m p) (word-lt m (p + 4 * w)) λ j h.
            let word : (32 * w + j) / 32 ≡ w = omega arith in
            let place : (32 * w + j) % 32 ≡ j = omega arith in rw (word, place) refl),
      rw (address, number) (words-HoldsSet left (suc w) m p),
    )

pub in_set-HoldsSet : (left : ℕ) (m : Memory) (p : ℕ) → HoldsSet left m p 0 (in_set m p)
in_set-HoldsSet left m p =
    let start : p + 4 * 0 ≡ p = omega arith in
    subst (λ (q : ℕ). HoldsSet left m q 0 (in_set m p)) start (words-HoldsSet left 0 m p)
