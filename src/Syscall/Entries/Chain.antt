-- ===== src/Syscall/Entries/Chain.antt =====
-- What the loop of `getdents64` in `do_syscall` of proj/sparc-linux/syscall.c makes of the records that the
-- host has written.
use sparcy.Base.{
  ℕ, zero, suc, ◌+◌, ◌-◌, ◌^◌, ◌≤◌, ◌<◌, ◌≡◌, refl, sym, ◌∙◌, ◌⊎◌, some, arith, ltb, ◌==◌, ◌||◌,
  is_neg32, false,
}
use sparcy.Memory.{
  Memory, lduw_he_p, ldq_he_p, lduw_be_p, ldq_be_p, stw_he_p, stq_he_p, tswap16, tswap64,
}
use sparcy.Memory.Loads.{
  lduw_he_p-same, ldq_he_p-same, lduw_be_p-same, ldq_be_p-same, stw_he_p_outside, stq_he_p_outside,
  lduw_be_p-tswap16, ldq_be_p-tswap64,
}
use sparcy.Syscall.Entries.{swap_dirent64, swap_dirents}

-- `len` bytes of records from host address `p` on, each with its length at offset 16.
pub data Chain (m : Memory) : ℕ → ℕ → Type 0 where
  empty : {p : ℕ} → Chain m p 0
  entry :
      {p len : ℕ} (r : ℕ)
      → lduw_he_p m (p + 16) ≡ r
      → 18 ≤ r
      → r ≤ len
      → Chain m (p + r) (len - r)
      → Chain m p len

-- The guest reads in `m'` the fields that the host wrote in `m`.
pub record Converts (m m' : Memory) (p : ℕ) : Type 0 where
  pub inode : ldq_be_p m' p ≡ ldq_he_p m p
  pub offset : ldq_be_p m' (p + 8) ≡ ldq_he_p m (p + 8)
  pub reclen : lduw_be_p m' (p + 16) ≡ lduw_he_p m (p + 16)

-- So for all the records, and the types and names after the fields are as they were.
pub data ConvertsAll (m m' : Memory) : ℕ → ℕ → Type 0 where
  empty : {p : ℕ} → ConvertsAll m m' p 0
  entry :
      {p len : ℕ} (r : ℕ)
      → Converts m m' p
      → lduw_he_p m (p + 16) ≡ r
      → ((q : ℕ) → p + 18 ≤ q → q < p + r → m' q ≡ m q)
      → ConvertsAll m m' (p + r) (len - r)
      → ConvertsAll m m' p len

swap_dirent64_outside : (m : Memory) (p q : ℕ) → (q < p) ⊎ (p + 18 ≤ q) → swap_dirent64 m p q ≡ m q
unfolding swap_dirent64
swap_dirent64_outside m p q h =
    let m₁ = stw_he_p m (p + 16) (tswap16 (lduw_he_p m (p + 16))) in
    let m₂ = stq_he_p m₁ p (tswap64 (ldq_he_p m₁ p)) in
    stq_he_p_outside m₂ (p + 8) (tswap64 (ldq_he_p m₂ (p + 8))) q (omega arith)
    ∙ (stq_he_p_outside m₁ p (tswap64 (ldq_he_p m₁ p)) q (omega arith)
        ∙ stw_he_p_outside m (p + 16) (tswap16 (lduw_he_p m (p + 16))) q (omega arith))

swap_dirent64-Converts : (m : Memory) (p : ℕ) → Converts m (swap_dirent64 m p) p
unfolding swap_dirent64
swap_dirent64-Converts m p =
    let m₁ = stw_he_p m (p + 16) (tswap16 (lduw_he_p m (p + 16))) in
    let m₂ = stq_he_p m₁ p (tswap64 (ldq_he_p m₁ p)) in
    let m₃ = stq_he_p m₂ (p + 8) (tswap64 (ldq_he_p m₂ (p + 8))) in
    record {
      inode =
          ldq_be_p-same m₂ m₃ p (λ q h k. stq_he_p_outside m₂ (p + 8) _ q (omega arith))
          ∙ (ldq_be_p-tswap64 m₁ p
              ∙ ldq_he_p-same m m₁ p (λ q h k. stw_he_p_outside m (p + 16) _ q (omega arith)));
      offset =
          ldq_be_p-tswap64 m₂ (p + 8)
          ∙ ldq_he_p-same m m₂ (p + 8) (λ q h k.
            stq_he_p_outside m₁ p _ q (omega arith)
            ∙ stw_he_p_outside m (p + 16) _ q (omega arith));
      reclen =
          lduw_be_p-same m₁ m₃ (p + 16) (λ q h k.
            stq_he_p_outside m₂ (p + 8) _ q (omega arith) ∙ stq_he_p_outside m₁ p _ q (omega arith))
          ∙ lduw_be_p-tswap16 m (p + 16);
    }

-- Memory that is the same from `p` on has the same records there.
Chain-keep :
    (m m' : Memory) {p len : ℕ} → ((q : ℕ) → p ≤ q → m' q ≡ m q) → Chain m p len → Chain m' p len
Chain-keep m m' k empty = empty
Chain-keep m m' k (entry {p} {len} r e long fits rest) =
    entry r (lduw_he_p-same m m' (p + 16) (λ q h _. k q (omega arith)) ∙ e) long fits
      (Chain-keep m m' (λ q h. k q (omega arith)) rest)

-- Records that were read in other memory that is the same from `p` on.
ConvertsAll-from :
    (m₀ m m' : Memory) {p len : ℕ}
    → ((q : ℕ) → p ≤ q → m q ≡ m₀ q)
    → ConvertsAll m m' p len
    → ConvertsAll m₀ m' p len
ConvertsAll-from m₀ m m' k empty = empty
ConvertsAll-from m₀ m m' k (entry {p} {len} r c e names rest) =
    entry r
      (record {
        inode = c.inode ∙ ldq_he_p-same m₀ m p (λ q h _. k q h);
        offset = c.offset ∙ ldq_he_p-same m₀ m (p + 8) (λ q h _. k q (omega arith));
        reclen = c.reclen ∙ lduw_he_p-same m₀ m (p + 16) (λ q h _. k q (omega arith));
      })
      (sym (lduw_he_p-same m₀ m (p + 16) (λ q h _. k q (omega arith))) ∙ e)
      (λ q h below. names q h below ∙ k q (omega arith))
      (ConvertsAll-from m₀ m m' (λ q h. k q (omega arith)) rest)

-- Later changes above a record leave what the guest reads in it.
Converts-keep :
    (m m₁ m' : Memory) (p : ℕ)
    → ((q : ℕ) → q < p + 18 → m' q ≡ m₁ q)
    → Converts m m₁ p
    → Converts m m' p
Converts-keep m m₁ m' p k c = record {
  inode = ldq_be_p-same m₁ m' p (λ q _ h. k q (omega arith)) ∙ c.inode;
  offset = ldq_be_p-same m₁ m' (p + 8) (λ q _ h. k q (omega arith)) ∙ c.offset;
  reclen = lduw_be_p-same m₁ m' (p + 16) (λ q _ h. k q (omega arith)) ∙ c.reclen;
}

-- What the loop has done when it ends.
pub record SwapsAll (m m' : Memory) (p len : ℕ) : Type 0 where
  pub converts : ConvertsAll m m' p len
  pub rest_kept : (q : ℕ) → (q < p) ⊎ (p + len ≤ q) → m' q ≡ m q

-- One round of the loop, before the rounds of the later records.
swap_dirents-step :
    (fuel : ℕ) (m : Memory) (p len r : ℕ)
    → lduw_he_p m (p + 16) ≡ r
    → 18 ≤ r
    → r ≤ len
    → len < 2 ^ 31
    → swap_dirents swap_dirent64 (suc fuel) m p len
      ≡ swap_dirents swap_dirent64 fuel (swap_dirent64 m p) (p + r) (len - r)
unfolding swap_dirents
swap_dirents-step fuel m p len r e long fits small =
    let going : (len == 0 || is_neg32 len) ≡ false = ground arith in
    let whole : ltb len r ≡ false = ground arith in rw (e, going, whole) refl

-- The loop ends on records that fill the bytes which the host says it wrote, less than 2 GiB, given
-- more rounds than bytes. The guest then reads each number and length as the host wrote it, the
-- types and names and all other memory are unchanged.
pub swap_dirents-SwapsAll :
    (fuel : ℕ) (m : Memory) (p len : ℕ)
    → Chain m p len
    → len < 2 ^ 31
    → len < fuel
    → (m' : Memory) × (swap_dirents swap_dirent64 fuel m p len ≡ some m') × SwapsAll m m' p len
swap_dirents-SwapsAll zero m p len c small h = absurd (omega arith)
swap_dirents-SwapsAll (suc fuel) m p zero empty small h =
    (m, unfold swap_dirents in refl, record { converts = empty; rest_kept = λ q k. refl })
swap_dirents-SwapsAll (suc fuel) m p len (entry r e long fits rest) small h =
    let m₁ = swap_dirent64 m p in
    let after : (q : ℕ) → p + r ≤ q → m₁ q ≡ m q =
      λ q k. swap_dirent64_outside m p q (omega arith) in
    let (m', ran, s) =
      swap_dirents-SwapsAll fuel m₁ (p + r) (len - r) (Chain-keep m m₁ after rest) (omega arith)
        (omega arith) in
    (
      m',
      swap_dirents-step fuel m p len r e long fits small ∙ ran,
      record {
        converts =
            entry r
              (Converts-keep m m₁ m' p (λ q k. s.rest_kept q (omega arith))
                (swap_dirent64-Converts m p))
              e (λ q k k'. s.rest_kept q (omega arith) ∙ swap_dirent64_outside m p q (omega arith))
              (ConvertsAll-from m m₁ m' after s.converts);
        rest_kept = λ q k. s.rest_kept q (omega arith) ∙ swap_dirent64_outside m p q (omega arith);
      },
    )
