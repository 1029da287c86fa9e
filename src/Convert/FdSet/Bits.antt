-- ===== src/Convert/FdSet/Bits.antt =====
-- The inner loops over a word of descriptors, of `copy_from_user_fdset` and `copy_to_user_fdset` in
-- proj/sparc-linux/syscall.c.
use sparcy.Base.{
  ℕ, zero, suc, ◌+◌, ◌*◌, ◌/◌, ◌%◌, ◌^◌, ◌≤◌, ◌<◌, ◌≡◌, refl, ap, ◌∙◌, Bool, true, false, ◌==◌,
  if◌then◌else◌, bit_or-below, arith, sym, ◌≢◌, inl, inr, Bool-cases, ltb,
}
use native.Mathlib.Nat.{pow-succ', div-div-eq-div-mul}
use sparcy.Convert.FdSet.{FdSet, fd_set, set_bits, gather_bits}

-- The `n` descriptors from `k` on as a number, the first one lowest.
unfoldable pub low : ℕ → ℕ → FdSet → ℕ
low zero k fds = 0
low (suc n) k fds = (if fds k then 1 else 0) + 2 * low n (k + 1) fds

power_next : (j : ℕ) → 2 ^ (j + 1) ≡ 2 * 2 ^ j
power_next j = let next_suc : j + 1 ≡ suc j = omega arith in rw next_suc (pow-succ' 2 j)

step_sum : (v b j x : ℕ) → b * 2 ^ j + v + 2 ^ (j + 1) * x ≡ v + 2 ^ j * (b + 2 * x)
step_sum v b j x = rw (power_next j) (grind arith)

step_lt : (v j : ℕ) (b : Bool) → v < 2 ^ j → (if b then 1 else 0) * 2 ^ j + v < 2 ^ (j + 1)
step_lt v j true h = rw (power_next j) (omega arith)
step_lt v j false h = rw (power_next j) (omega arith)

pub low-lt : (n k : ℕ) (fds : FdSet) → low n k fds < 2 ^ n
unfolding low
low-lt zero k fds = omega arith
low-lt (suc n) k fds =
    rw (pow-succ' 2 n) (twice_lt (fds k) (low n (k + 1) fds) (2 ^ n) (low-lt n (k + 1) fds))
  where
    twice_lt : (c : Bool) (x y : ℕ) → x < y → (if c then 1 else 0) + 2 * x < 2 * y
    twice_lt true x y h = omega arith
    twice_lt false x y h = omega arith

-- The way back gathers the number.
pub gather_bits-low :
    (left v j k : ℕ) (fds : FdSet)
    → v < 2 ^ j
    → gather_bits left v j k fds ≡ v + 2 ^ j * low left k fds
unfolding gather_bits low
gather_bits-low zero v j k fds h = omega arith
gather_bits-low (suc left) v j k fds h = rw (bit_or-below j (if fds k then 1 else 0) v h) (
    gather_bits-low left ((if fds k then 1 else 0) * 2 ^ j + v) (j + 1) (k + 1) fds
      (step_lt v j (fds k) h)
    ∙ step_sum v (if fds k then 1 else 0) j (low left (k + 1) fds))

half_again : (b j : ℕ) → b / 2 ^ (j + 1) ≡ b / 2 ^ j / 2
half_again b j =
    let swapped : 2 * 2 ^ j ≡ 2 ^ j * 2 = omega arith in
    rw (power_next j, swapped) (sym (div-div-eq-div-mul b (2 ^ j) 2))

pub low_bit : (c : Bool) (x : ℕ) → (((if c then 1 else 0) + 2 * x) % 2 == 1) ≡ c
low_bit true x = ground arith
low_bit false x = ground arith

pub low_half : (c : Bool) (x : ℕ) → ((if c then 1 else 0) + 2 * x) / 2 ≡ x
low_half true x = omega arith
low_half false x = omega arith

-- One descriptor entered, or not.
entered_other :
    (c : Bool) (k i : ℕ) (acc : FdSet) → i ≢ k → (if c then fd_set k acc else acc) i ≡ acc i
entered_other true k i acc h = ground arith
entered_other false k i acc h = refl

entered_same :
    (c : Bool) (k : ℕ) (acc : FdSet) → acc k ≡ false → (if c then fd_set k acc else acc) k ≡ c
entered_same true k acc h = ground arith
entered_same false k acc h = h

-- Where descriptor `i` stands in the set `found`, after the bits of the descriptors from `k` to `k + n`.
pub data Found (k n i : ℕ) (fds acc found : FdSet) : Type 0 where
  before : i < k → found i ≡ acc i → Found k n i fds acc found
  inside : k ≤ i → i < k + n → found i ≡ fds i → Found k n i fds acc found
  after : k + n ≤ i → found i ≡ false → Found k n i fds acc found

Found-step :
    (k left i : ℕ) (fds acc acc' found : FdSet)
    → (i ≢ k → acc' i ≡ acc i)
    → acc' k ≡ fds k
    → Found (k + 1) left i fds acc' found
    → Found k (suc left) i fds acc found
Found-step k left i fds acc acc' found other same (before h e) = elim (Bool-cases (i == k)) [
  | inl at ↦
      let is : i ≡ k = ground arith in
      inside (omega arith) (omega arith) (e ∙ (ap acc' is ∙ (same ∙ ap fds (sym is))))
  | inr off ↦ before (ground arith) (e ∙ other (ground arith))
]
Found-step k left i fds acc acc' found other same (inside h h' e) =
    inside (omega arith) (omega arith) e
Found-step k left i fds acc acc' found other same (after h e) = after (omega arith) e

-- A word whose digits from `j` on are the descriptors from `k` on enters them in the set.
pub set_bits-Found :
    (left b j k i : ℕ) (fds acc : FdSet)
    → b / 2 ^ j ≡ low left k fds
    → ((i : ℕ) → k ≤ i → acc i ≡ false)
    → Found k left i fds acc (set_bits left b j k acc)
unfolding set_bits low
set_bits-Found zero b j k i fds acc e clear = elim (Bool-cases (ltb i k)) [
  | inl less ↦ before (ground arith) refl
  | inr more ↦ after (ground arith) (clear i (ground arith))
]
set_bits-Found (suc left) b j k i fds acc e clear =
    let test : (b / 2 ^ j % 2 == 1) ≡ fds k =
      ap (λ x. x % 2 == 1) e ∙ low_bit (fds k) (low left (k + 1) fds) in
    let rest : b / 2 ^ (j + 1) ≡ low left (k + 1) fds =
      half_again b j ∙ (ap (λ x. x / 2) e ∙ low_half (fds k) (low left (k + 1) fds)) in
    let acc' : FdSet = if fds k then fd_set k acc else acc in
    rw test (
      Found-step k left i fds acc acc' _ (entered_other (fds k) k i acc)
        (entered_same (fds k) k acc (clear k (omega arith)))
        (set_bits-Found left b (j + 1) (k + 1) i fds acc' rest
          (λ q h. entered_other (fds k) k q acc (omega arith) ∙ clear q (omega arith))))
