-- ===== src/Convert/Iovec/Entries.antt =====
-- What the loop of `lock_iovec` in proj/sparc-linux/syscall.c makes of the guest's entries.
use sparcy.Base.{
  ℕ, zero, suc, ◌+◌, ◌-◌, ◌≤◌, ◌<◌, ◌≡◌, ◌≢◌, refl, ◌⊎◌, inl, inr, List, [], ◌∷◌, Bool, true, false,
  Bool-cases, ltb, ◌==◌, ◌||◌, ◌&&◌, if◌then◌else◌, is_neg32, arith,
}
use sparcy.Errno.Host
use sparcy.Memory.{Memory, tswapal, tswap32, ldl_be_p}
use sparcy.Guest.{Target, g2h}
use sparcy.Convert.Iovec.{
  Iovec, Locked, locked, failed, cons_locked, clamp_len, lock_entries, max_len,
}

-- What the host is handed for the entries at host address `p`, where entries of `before` bytes have been
-- handed over and `bad` tells whether an address was NULL: no buffer for an entry of length 0; the guest's
-- buffer, with its whole length or what is left of the most bytes; and no bytes from the first address
-- that is NULL on the host on.
pub data HandsOver (t : Target) (m : Memory) : ℕ → ℕ → Bool → List Iovec → Type 0 where
  no_entry : {p before : ℕ} {bad : Bool} → HandsOver t m p before bad []
  empty_entry :
      {p before : ℕ} {bad : Bool} {vs : List Iovec}
      → ldl_be_p m (p + 4) ≡ 0
      → HandsOver t m (p + 8) before bad vs
      → HandsOver t m p before bad (record { iov_base = 0; iov_len = 0 } ∷ vs)
  whole_entry :
      {p before : ℕ} {vs : List Iovec}
      → 0 < ldl_be_p m (p + 4)
      → g2h t (ldl_be_p m p) ≢ 0
      → before + ldl_be_p m (p + 4) ≤ max_len
      → HandsOver t m (p + 8) (before + ldl_be_p m (p + 4)) false vs
      → HandsOver t m p before false
          (record { iov_base = g2h t (ldl_be_p m p); iov_len = ldl_be_p m (p + 4) } ∷ vs)
  cut_entry :
      {p before : ℕ} {vs : List Iovec}
      → g2h t (ldl_be_p m p) ≢ 0
      → max_len < before + ldl_be_p m (p + 4)
      → HandsOver t m (p + 8) max_len false vs
      → HandsOver t m p before false
          (record { iov_base = g2h t (ldl_be_p m p); iov_len = max_len - before } ∷ vs)
  bad_entry :
      {p before : ℕ} {bad : Bool} {vs : List Iovec}
      → 0 < ldl_be_p m (p + 4)
      → (bad ≡ true) ⊎ (g2h t (ldl_be_p m p) ≡ 0)
      → HandsOver t m (p + 8) before true vs
      → HandsOver t m p before bad (record { iov_base = g2h t (ldl_be_p m p); iov_len = 0 } ∷ vs)

-- What the loop leaves, where it fails or hands over the entries.
abbrev pub Hands : Target → Memory → ℕ → ℕ → Bool → Locked → Type 0
Hands t m p before bad (locked vs) = HandsOver t m p before bad vs
Hands t m p before bad (failed err) = Unit

cons-Hands :
    (t : Target) (m : Memory) (p before p' before' : ℕ) (bad bad' : Bool) (v : Iovec) (r : Locked)
    → ((vs : List Iovec) → HandsOver t m p' before' bad' vs → HandsOver t m p before bad (v ∷ vs))
    → Hands t m p' before' bad' r
    → Hands t m p before bad (cons_locked v r)
cons-Hands t m p before p' before' bad bad' v (locked vs) k h = k vs h
cons-Hands t m p before p' before' bad bad' v (failed err) k h = tt

-- An entry with the loop over the later ones, by the tests that the loop makes.
entry-Hands :
    (t : Target) (m : Memory) (p before : ℕ) (bad negative empty null_first : Bool)
    (skipped kept : Locked)
    → (empty ≡ true → Hands t m p before bad skipped)
    → (empty ≡ false → Hands t m p before bad kept)
    → Hands t m p before bad (
        if negative
        then failed Host.einval
        else (if empty then skipped else (if null_first then failed Host.efault else kept)))
entry-Hands t m p before bad true empty null_first skipped kept h k = tt
entry-Hands t m p before bad false true null_first skipped kept h k = h refl
entry-Hands t m p before bad false false true skipped kept h k = tt
entry-Hands t m p before bad false false false skipped kept h k = k refl

clamp_bad : (total_len len : ℕ) → clamp_len true total_len len ≡ 0
unfolding clamp_len
clamp_bad total_len len = ground arith

clamp_whole : (total_len len : ℕ) → total_len + len ≤ max_len → clamp_len false total_len len ≡ len
unfolding clamp_len
clamp_whole total_len len h = ground arith

clamp_cut :
    (total_len len : ℕ)
    → max_len < total_len + len
    → total_len ≤ max_len
    → clamp_len false total_len len ≡ max_len - total_len
unfolding clamp_len
clamp_cut total_len len h k = ground arith

-- An entry of some length.
kept-Hands :
    (t : Target) (m : Memory) (p total_len : ℕ) (bad : Bool) (rest : ℕ → Bool → Locked)
    → total_len ≤ max_len
    → 0 < ldl_be_p m (p + 4)
    → ((total' : ℕ) (b : Bool) → total' ≤ max_len → Hands t m (p + 8) total' b (rest total' b))
    → let base = g2h t (ldl_be_p m p) in
      let bad' : Bool = bad || base == 0 in
      let len' : ℕ = clamp_len bad' total_len (ldl_be_p m (p + 4)) in
      Hands t m p total_len bad
        (cons_locked (record { iov_base = base; iov_len = len' }) (rest (total_len + len') bad'))
kept-Hands t m p total_len bad rest h some_bytes later =
    let base = g2h t (ldl_be_p m p) in
    let len = ldl_be_p m (p + 4) in
    elim (Bool-cases (bad || base == 0)) [
      | inl is_bad ↦
          let why : (bad ≡ true) ⊎ (base ≡ 0) = ground arith in
          let same : total_len + 0 ≡ total_len = omega arith in
          rw (is_bad, clamp_bad total_len len, same)
            (cons-Hands t m p total_len (p + 8) total_len bad true _ (rest total_len true)
              (λ vs. bad_entry some_bytes why) (later total_len true h))
      | inr fine ↦
          let no_bad : bad ≡ false = ground arith in
          let there : base ≢ 0 = ground arith in
          elim (Bool-cases (ltb max_len (total_len + len))) [
            | inl over ↦
                let cut : max_len < total_len + len = ground arith in
                let full : total_len + (max_len - total_len) ≡ max_len = omega arith in
                rw (fine, clamp_cut total_len len cut h, full, no_bad)
                  (cons-Hands t m p total_len (p + 8) max_len false false _ (rest max_len false)
                    (λ vs. cut_entry there cut) (later max_len false (omega arith)))
            | inr fits ↦
                let whole : total_len + len ≤ max_len = ground arith in
                rw (fine, clamp_whole total_len len whole, no_bad)
                  (cons-Hands t m p total_len (p + 8) (total_len + len) false false _
                    (rest (total_len + len) false) (λ vs. whole_entry some_bytes there whole)
                    (later (total_len + len) false whole))
          ]
    ]

pub lock_entries-Hands :
    (t : Target) (m : Memory) (left p i total_len : ℕ) (bad : Bool)
    → total_len ≤ max_len
    → Hands t m p total_len bad (lock_entries t m left p i total_len bad)
unfolding lock_entries ldl_be_p tswapal tswap32
lock_entries-Hands t m zero p i total_len bad h = no_entry
lock_entries-Hands t m (suc left) p i total_len bad h =
    let base = g2h t (ldl_be_p m p) in
    let len = ldl_be_p m (p + 4) in
    let bad' : Bool = bad || base == 0 in
    let len' : ℕ = clamp_len bad' total_len len in
    let skipped = lock_entries t m left (p + 8) (suc i) total_len bad in
    let rest : ℕ → Bool → Locked = lock_entries t m left (p + 8) (suc i) in
    entry-Hands t m p total_len bad (is_neg32 len) (len == 0) (base == 0 && i == 0)
      (cons_locked (record { iov_base = 0; iov_len = 0 }) skipped)
      (cons_locked (record { iov_base = base; iov_len = len' }) (rest (total_len + len') bad'))
      (λ empty.
        cons-Hands t m p total_len (p + 8) total_len bad bad _ skipped
          (λ vs. empty_entry (ground arith))
          (lock_entries-Hands t m left (p + 8) (suc i) total_len bad h))
      (λ nonzero.
        kept-Hands t m p total_len bad rest h (ground arith)
          (λ total' b h'. lock_entries-Hands t m left (p + 8) (suc i) total' b h'))
