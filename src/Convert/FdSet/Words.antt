-- ===== src/Convert/FdSet/Words.antt =====
-- The words of a set of descriptors in guest memory, written and read by the outer loops of
-- `copy_to_user_fdset` and `copy_from_user_fdset` in proj/sparc-linux/syscall.c.
use sparcy.Base.{
  ℕ, zero, suc, ◌+◌, ◌*◌, ◌/◌, ◌%◌, ◌^◌, ◌≤◌, ◌<◌, ◌≡◌, refl, ◌∙◌, inl, inr, Bool-cases, ltb, false,
  arith,
}
use sparcy.Memory.{Memory, stl_be_p, ldl_be_p}
use sparcy.Memory.Accessors.{ld_be_p-st_be_p}
use sparcy.Memory.Loads.{ldl_be_p-same}
use sparcy.Memory.Ranges.{stl_be_p_outside}
use sparcy.Guest.{Sys, next, ◌>>=◌, pure, get_long, put_long}
use sparcy.Convert.FdSet.{FdSet, set_bits, gather_bits, read_words, write_words}
use sparcy.Convert.FdSet.Bits.{
  low, low-lt, gather_bits-low, Found, before, inside, after, set_bits-Found,
}

-- What the loops do to the memory and the set.
abbrev pub stored : ℕ → Memory → ℕ → ℕ → FdSet → Memory
stored zero m p k fds = m
stored (suc left) m p k fds =
    stored left (stl_be_p m p (gather_bits 32 0 0 k fds)) (p + 4) (k + 32) fds

pub write_words-stored :
    (left p k : ℕ) (fds : FdSet) (s : Sys)
    → write_words left p k fds s ≡ (next tt, record s { memory = stored left s.memory p k fds })
unfolding write_words ◌>>=◌ put_long pure
write_words-stored zero p k fds s = refl
write_words-stored (suc left) p k fds s =
    write_words-stored left (p + 4) (k + 32) fds
      (record s { memory = stl_be_p s.memory p (gather_bits 32 0 0 k fds) })

abbrev pub loaded : ℕ → Memory → ℕ → ℕ → FdSet → FdSet
loaded zero m p k acc = acc
loaded (suc left) m p k acc = loaded left m (p + 4) (k + 32) (set_bits 32 (ldl_be_p m p) 0 k acc)

pub read_words-loaded :
    (left p k : ℕ) (acc : FdSet) (s : Sys)
    → read_words left p k acc s ≡ (next (loaded left s.memory p k acc), s)
unfolding read_words ◌>>=◌ get_long pure
read_words-loaded zero p k acc s = refl
read_words-loaded (suc left) p k acc s =
    read_words-loaded left (p + 4) (k + 32) (set_bits 32 (ldl_be_p s.memory p) 0 k acc) s

-- Words that hold the descriptors from `k` on.
abbrev pub HoldsSet : ℕ → Memory → ℕ → ℕ → FdSet → Type 0
HoldsSet zero m p k fds = Unit
HoldsSet (suc left) m p k fds = (ldl_be_p m p ≡ low 32 k fds) × HoldsSet left m (p + 4) (k + 32) fds

pub stored_outside :
    (left : ℕ) (m : Memory) (p k : ℕ) (fds : FdSet) (q : ℕ) → q < p → stored left m p k fds q ≡ m q
stored_outside zero m p k fds q h = refl
stored_outside (suc left) m p k fds q h =
    stored_outside left (stl_be_p m p (gather_bits 32 0 0 k fds)) (p + 4) (k + 32) fds q
      (omega arith)
    ∙ stl_be_p_outside m p (gather_bits 32 0 0 k fds) q (inl h)

pub stored_above :
    (left : ℕ) (m : Memory) (p k : ℕ) (fds : FdSet) (q : ℕ)
    → p + 4 * left ≤ q
    → stored left m p k fds q ≡ m q
stored_above zero m p k fds q h = refl
stored_above (suc left) m p k fds q h =
    stored_above left (stl_be_p m p (gather_bits 32 0 0 k fds)) (p + 4) (k + 32) fds q (omega arith)
    ∙ stl_be_p_outside m p (gather_bits 32 0 0 k fds) q (inr (omega arith))

word_value : (k : ℕ) (fds : FdSet) → gather_bits 32 0 0 k fds % 2 ^ 32 ≡ low 32 k fds
word_value k fds = omega (arith, gather_bits-low 32 0 0 k fds (omega arith), low-lt 32 k fds)

pub stored-HoldsSet :
    (left : ℕ) (m : Memory) (p k : ℕ) (fds : FdSet) → HoldsSet left (stored left m p k fds) p k fds
stored-HoldsSet zero m p k fds = tt
stored-HoldsSet (suc left) m p k fds =
    let m₁ = stl_be_p m p (gather_bits 32 0 0 k fds) in
    (
      ldl_be_p-same m₁ (stored left m₁ (p + 4) (k + 32) fds) p
            (λ q h h'. stored_outside left m₁ (p + 4) (k + 32) fds q h')
          ∙ ((ld_be_p-st_be_p m p (gather_bits 32 0 0 k fds)).1 ∙ word_value k fds),
      stored-HoldsSet left m₁ (p + 4) (k + 32) fds,
    )

-- One word more.
Found-word :
    (k n i : ℕ) (fds acc acc' found : FdSet)
    → Found k 32 i fds acc acc'
    → Found (k + 32) n i fds acc' found
    → Found k (32 + n) i fds acc found
Found-word k n i fds acc acc' found (before h e) (before h' e') = before h (e' ∙ e)
Found-word k n i fds acc acc' found (inside h h₂ e) (before h' e') = inside h (omega arith) (e' ∙ e)
Found-word k n i fds acc acc' found (after h e) (before h' e') = absurd (omega arith)
Found-word k n i fds acc acc' found w (inside h' h₂ e') = inside (omega arith) (omega arith) e'
Found-word k n i fds acc acc' found w (after h' e') = after (omega arith) e'

clear_after :
    (k i : ℕ) (fds acc acc' : FdSet) → Found k 32 i fds acc acc' → k + 32 ≤ i → acc' i ≡ false
clear_after k i fds acc acc' (before h e) more = absurd (omega arith)
clear_after k i fds acc acc' (inside h h' e) more = absurd (omega arith)
clear_after k i fds acc acc' (after h e) more = e

pub loaded-Found :
    (left : ℕ) (m : Memory) (p k i : ℕ) (fds acc : FdSet)
    → HoldsSet left m p k fds
    → ((q : ℕ) → k ≤ q → acc q ≡ false)
    → Found k (32 * left) i fds acc (loaded left m p k acc)
loaded-Found zero m p k i fds acc w clear = elim (Bool-cases (ltb i k)) [
  | inl less ↦ before (ground arith) refl
  | inr more ↦ after (ground arith) (clear i (ground arith))
]
loaded-Found (suc left) m p k i fds acc (w, ws) clear =
    let acc' = set_bits 32 (ldl_be_p m p) 0 k acc in
    let digits : ldl_be_p m p / 2 ^ 0 ≡ low 32 k fds = omega (arith, w) in
    let all : (q : ℕ) → Found k 32 q fds acc acc' =
      λ q. set_bits-Found 32 (ldl_be_p m p) 0 k q fds acc digits clear in
    let size : 32 * suc left ≡ 32 + 32 * left = omega arith in
    rw size (
      Found-word k (32 * left) i fds acc acc' (loaded left m (p + 4) (k + 32) acc') (all i) (
        loaded-Found left m (p + 4) (k + 32) i fds acc' ws
          (λ q h. clear_after k q fds acc acc' (all q) h)))
