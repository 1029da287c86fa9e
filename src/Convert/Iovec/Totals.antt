-- ===== src/Convert/Iovec/Totals.antt =====
-- What `lock_iovec` of proj/sparc-linux/syscall.c gives to `readv` and `writev`.
use sparcy.Base.{
  ℕ, zero, suc, ◌+◌, ◌-◌, ◌≤◌, ◌≡◌, refl, ◌⊎◌, inl, inr, List, [], ◌∷◌, Option, none, some, Bool,
  true, false, Bool-cases, ltb, ◌==◌, ◌||◌, ◌&&◌, if◌then◌else◌, is_neg32, length, arith,
}
use sparcy.Errno.Host
use sparcy.Memory.{Memory, tswapal, ldl_he_p}
use sparcy.Guest.{
  Target, Sys, Flow, next, efault, unimplemented, hang, ◌>>=◌, pure, gets, set_errno, g2h,
  Host as HostSystem, HostFn, host_call,
}
use sparcy.Convert.Iovec.Entries.{HandsOver, Hands, lock_entries-Hands}
use sparcy.Convert.Iovec.{
  Iovec, Locked, locked, failed, cons_locked, clamp_len, lock_entries, lock_iovec, give, iov_max,
  max_len,
}

-- The bytes of a vector.
abbrev pub total : List Iovec → ℕ
total [] = 0
total (v ∷ vs) = v.iov_len + total vs

-- A vector of `count` entries with at most `space` bytes, or one of the two errors of the loop.
abbrev pub Bounded : ℕ → ℕ → Locked → Type 0
Bounded count space (locked vs) = (length vs ≡ count) × (total vs ≤ space)
Bounded count space (failed err) = (err ≡ Host.einval) ⊎ (err ≡ Host.efault)

cons-Bounded :
    (v : Iovec) (r : Locked) (count space left : ℕ)
    → v.iov_len + left ≤ space
    → Bounded count left r
    → Bounded (suc count) space (cons_locked v r)
cons-Bounded v (locked vs) count space left h b = omega arith
cons-Bounded v (failed err) count space left h b = b

clamp_len_lem : (bad : Bool) (total_len len : ℕ) → clamp_len bad total_len len ≤ max_len - total_len
unfolding clamp_len
clamp_len_lem true total_len len = ground arith
clamp_len_lem false total_len len = ground arith

-- An entry with the loop over the later ones, by the tests that the loop makes.
entry-Bounded :
    (negative empty null_first : Bool) (skipped kept : Locked) (count space : ℕ)
    → Bounded count space skipped
    → Bounded count space kept
    → Bounded count space (
        if negative
        then failed Host.einval
        else (if empty then skipped else (if null_first then failed Host.efault else kept)))
entry-Bounded true empty null_first skipped kept count space h k = inl refl
entry-Bounded false true null_first skipped kept count space h k = h
entry-Bounded false false true skipped kept count space h k = inr refl
entry-Bounded false false false skipped kept count space h k = k

lock_entries-Bounded :
    (t : Target) (m : Memory) (left p i total_len : ℕ) (bad : Bool)
    → total_len ≤ max_len
    → Bounded left (max_len - total_len) (lock_entries t m left p i total_len bad)
unfolding lock_entries
lock_entries-Bounded t m zero p i total_len bad h = (refl, omega arith)
lock_entries-Bounded t m (suc left) p i total_len bad h =
    let base = g2h t (tswapal (ldl_he_p m p)) in
    let bad' : Bool = bad || base == 0 in
    let len : ℕ = clamp_len bad' total_len (tswapal (ldl_he_p m (p + 4))) in
    let small : len ≤ max_len - total_len =
      clamp_len_lem bad' total_len (tswapal (ldl_he_p m (p + 4))) in
    let none_used : Iovec = record { iov_base = 0; iov_len = 0 } in
    let used : Iovec = record { iov_base = base; iov_len = len } in
    let skipped = lock_entries t m left (p + 8) (suc i) total_len bad in
    let kept = lock_entries t m left (p + 8) (suc i) (total_len + len) bad' in
    entry-Bounded (is_neg32 (tswapal (ldl_he_p m (p + 4)))) (tswapal (ldl_he_p m (p + 4)) == 0)
      (base == 0 && i == 0) (cons_locked none_used skipped) (cons_locked used kept) (suc left)
      (max_len - total_len)
      (cons-Bounded none_used skipped left (max_len - total_len) (max_len - total_len) (omega arith)
        (lock_entries-Bounded t m left (p + 8) (suc i) total_len bad h))
      (cons-Bounded used kept left (max_len - total_len) (max_len - (total_len + len)) (omega arith)
        (lock_entries-Bounded t m left (p + 8) (suc i) (total_len + len) bad' (omega arith)))

-- How a call ends: with a vector of the guest's entries, or with NULL and the error left in errno.
abbrev pub Locks : ℕ → ℕ → Flow (Option (List Iovec)) × Sys → Type 0
Locks target_addr count (next (some vec), s') =
    HandsOver s'.target s'.memory (g2h s'.target target_addr) 0 false vec
    × (length vec ≡ count)
    × (total vec ≤ max_len)
Locks target_addr count (next none, s') =
    ((count ≡ 0) × (s'.errno ≡ 0))
    ⊎ ((s'.errno ≡ Host.einval) ⊎ ((s'.errno ≡ Host.efault) ⊎ (s'.errno ≡ Host.enomem)))
Locks target_addr count (efault, s') = ⊥
Locks target_addr count (unimplemented, s') = ⊥
Locks target_addr count (hang, s') = ⊥

give-Locks :
    (target_addr count : ℕ) (r : Locked) (s : Sys)
    → Hands s.target s.memory (g2h s.target target_addr) 0 false r
    → Bounded count max_len r
    → Locks target_addr count (give r s)
unfolding give set_errno pure ◌>>=◌
give-Locks target_addr count (locked vec) s h b = (h, b.0, b.1)
give-Locks target_addr count (failed err) s h (inl e) = inr (inl e)
give-Locks target_addr count (failed err) s h (inr e) = inr (inr (inl e))

-- The part after the two tests of the count, where calloc has returned `vec`.
lock_valid-Locks :
    (vec target_addr count : ℕ) (s : Sys)
    → Locks target_addr count (
        (if vec == 0 then give (failed Host.enomem) else do
          target_vec ← gets (λ s. g2h s.target target_addr)
          if target_vec == 0 then give (failed Host.efault) else do
            found ← gets (λ s. lock_entries s.target s.memory count target_vec 0 0 false)
            give found)
          s)
unfolding give set_errno pure ◌>>=◌ gets
lock_valid-Locks vec target_addr count s = elim (Bool-cases (vec == 0)) [
  | inl e ↦ rw e (inr (inr (inr refl)))
  | inr got ↦ elim (Bool-cases (g2h s.target target_addr == 0)) [
    | inl z ↦ rw (got, z) (inr (inr (inl refl)))
    | inr valid ↦
        rw (got, valid)
          (give-Locks target_addr count
            (lock_entries s.target s.memory count (g2h s.target target_addr) 0 0 false) s
            (lock_entries-Hands s.target s.memory count (g2h s.target target_addr) 0 0 false
              (omega arith))
            (lock_entries-Bounded s.target s.memory count (g2h s.target target_addr) 0 0 false
              (omega arith)))
  ]
]

-- Whatever the guest's entries are, a vector that is handed to the host has one entry for each of them, at
-- the guest's buffer and with its length, up to 0x7ffff000 bytes together; an entry of length 0 has no
-- buffer, and from the first address that is NULL on the host on the others have no bytes. Otherwise the
-- call fails with EINVAL, EFAULT or ENOMEM, or with errno 0 for no entries.
pub lock_iovec-Locks :
    (host : HostSystem) (target_addr count : ℕ) (s : Sys)
    → Locks target_addr count (lock_iovec host target_addr count s)
unfolding lock_iovec give set_errno pure ◌>>=◌ host_call gets
lock_iovec-Locks host target_addr count s = elim (Bool-cases (count == 0)) [
  | inl e ↦ rw e (inl (ground arith, refl))
  | inr nonzero ↦ elim (Bool-cases (is_neg32 count || ltb iov_max count)) [
    | inl e ↦ rw (nonzero, e) (inr (inl refl))
    | inr fits ↦
        rw (nonzero, fits)
          (let (r, s') = host_call host HostFn.calloc (count ∷ 16 ∷ []) s in
            lock_valid-Locks
              (host s.trace s.memory
                (record { function = HostFn.calloc; args = count ∷ 16 ∷ [] })).result
              target_addr count s')
  ]
]
