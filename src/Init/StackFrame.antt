-- ===== src/Init/StackFrame.antt =====
-- The frame that `init_stack` of proj/sparc-linux/syscall.c builds above the stack pointer.
use sparcy.Base.{
  ℕ, ◌+◌, ◌*◌, ◌^◌, ◌≤◌, ◌<◌, ◌≡◌, refl, ◌⊎◌, arith, List, [], ◌∷◌, u32, length, ◌∙◌, ap,
}
use sparcy.Memory.{Memory, stl_be_p, ldl_be_p}
use sparcy.Memory.Accessors.{ld_be_p-st_be_p}
use sparcy.Memory.Loads.{ldl_be_p-same}
use sparcy.Memory.Ranges.{stl_be_p_outside}
use sparcy.Guest.{Target, g2h}
use sparcy.Init.{try_put, put_words}

-- Consecutive words of the guest from address `p` on.
abbrev pub Words : Target → Memory → ℕ → List ℕ → Type 0
Words t m p [] = Unit
Words t m p (x ∷ xs) = (ldl_be_p m (p + t.guest_base) ≡ u32 x) × Words t m (p + 4) xs

pub Words-keep :
    (t : Target) (m m' : Memory) (p : ℕ) (xs : List ℕ)
    → ((q : ℕ) → p + t.guest_base ≤ q → q < p + 4 * length xs + t.guest_base → m' q ≡ m q)
    → Words t m p xs
    → Words t m' p xs
Words-keep t m m' p [] k w = tt
Words-keep t m m' p (x ∷ xs) k (w, ws) = (
  ldl_be_p-same m m' (p + t.guest_base) (λ q h h'. k q (omega arith) (omega arith)) ∙ w,
  Words-keep t m m' (p + 4) xs (λ q h h'. k q (omega arith) (omega arith)) ws,
)

try_put_lem :
    (t : Target) (m : Memory) (x p : ℕ)
    → t.guest_base + 2 ^ 32 ≤ 2 ^ 64
    → 0 < p
    → p < 2 ^ 32
    → try_put t m x p ≡ stl_be_p m (p + t.guest_base) x
unfolding try_put g2h
try_put_lem t m x p fits pos small = ground arith

module _ (t : Target) where
  pub put_words_outside :
      (m : Memory) (p : ℕ) (xs : List ℕ)
      → t.guest_base + 2 ^ 32 ≤ 2 ^ 64
      → p + 4 * length xs < 2 ^ 32
      → (q : ℕ) → (q < p + t.guest_base) ⊎ (p + 4 * length xs + t.guest_base ≤ q)
      → put_words t m p xs q ≡ m q
  unfolding put_words try_put g2h
  put_words_outside m p [] fits small q h = refl
  put_words_outside m p (x ∷ xs) fits small q h =
      put_words_outside (try_put t m x p) (u32 (p + 4)) xs fits (omega arith) q (omega arith)
      ∙ ground (arith, stl_be_p_outside m (p + t.guest_base) x q)

  put_words_cons :
      (m : Memory) (p x : ℕ) (xs : List ℕ)
      → p + 4 < 2 ^ 32
      → put_words t m p (x ∷ xs) ≡ put_words t (try_put t m x p) (p + 4) xs
  unfolding put_words
  put_words_cons m p x xs small =
      let next_word : u32 (p + 4) ≡ p + 4 = omega arith in
      ap (λ q. put_words t (try_put t m x p) q xs) next_word

  -- Each word of the list is stored, and read back.
  pub put_words-Words :
      (m : Memory) (p : ℕ) (xs : List ℕ)
      → t.guest_base + 2 ^ 32 ≤ 2 ^ 64
      → 0 < p
      → p + 4 * length xs < 2 ^ 32
      → Words t (put_words t m p xs) p xs
  put_words-Words m p [] fits pos small = tt
  put_words-Words m p (x ∷ xs) fits pos small = (
    ldl_be_p-same (try_put t m x p) (put_words t m p (x ∷ xs)) (p + t.guest_base) (λ q h h'.
          same q
          ∙ put_words_outside (try_put t m x p) (p + 4) xs fits (omega arith) q (omega arith))
        ∙ rw (try_put_lem t m x p fits pos (omega arith))
            ((ld_be_p-st_be_p m (p + t.guest_base) x).1),
    Words-keep t (put_words t (try_put t m x p) (p + 4) xs) (put_words t m p (x ∷ xs)) (p + 4) xs
        (λ q h h'. same q)
        (put_words-Words (try_put t m x p) (p + 4) xs fits (omega arith) (omega arith)),
  )
    where
      same : (q : ℕ) → put_words t m p (x ∷ xs) q ≡ put_words t (try_put t m x p) (p + 4) xs q
      same q = ap (λ f. f q) (put_words_cons m p x xs (omega arith))
