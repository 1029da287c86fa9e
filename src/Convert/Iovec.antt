-- ===== src/Convert/Iovec.antt =====
-- The vectors of buffers that `readv` and `writev` take, in proj/sparc-linux/syscall.c.
pub mod Entries
pub mod Totals
use sparcy.Base.{
  ℕ, zero, suc, ◌+◌, ◌-◌, List, [], ◌∷◌, Option, none, some, Bool, false, ◌||◌, ◌&&◌, ltb, ◌==◌,
  if◌then◌else◌, is_neg32,
}
use sparcy.Errno.Host
use sparcy.Memory.{Memory, tswapal, ldl_he_p}
use sparcy.Guest.{
  M, Target, ◌>>=◌, ◌>>◌, pure, gets, set_errno, g2h, HostFn, Host as HostSystem, host_call,
}

-- struct iovec: the buffer's host address and its length
pub record Iovec : Type 0 where
  pub iov_base : ℕ
  pub iov_len : ℕ

abbrev pub iov_max : ℕ
iov_max = 1024

-- `0x7fffffff & TARGET_PAGE_MASK`
abbrev pub max_len : ℕ
max_len = 0x7fff_f000

-- How the loop over the entries ends: with the vector, or with an error.
pub data Locked : Type 0 where
  locked : List Iovec → Locked
  failed : ℕ → Locked

abbrev pub cons_locked : Iovec → Locked → Locked
cons_locked v (locked vs) = locked (v ∷ vs)
cons_locked v (failed err) = failed err

-- An entry cut to what is left of the total; 0 once an address was bad.
unfoldable pub clamp_len : Bool → ℕ → ℕ → ℕ
clamp_len bad_address total_len len =
    let len' : ℕ = if bad_address then 0 else len in
    if ltb (max_len - total_len) len' then max_len - total_len else len'

-- The loop with `left` entries to go from the one at host address `p`, number `i`.
unfoldable pub lock_entries : Target → Memory → ℕ → ℕ → ℕ → ℕ → Bool → Locked
unfolding clamp_len g2h
lock_entries t m zero p i total_len bad_address = locked []
lock_entries t m (suc left) p i total_len bad_address =
    let base = tswapal (ldl_he_p m p) in
    let len = tswapal (ldl_he_p m (p + 4)) in
    let host_base = g2h t base in
    let bad = bad_address || host_base == 0 in
    let len' = clamp_len bad total_len len in
    let empty =
      cons_locked (record { iov_base = 0; iov_len = 0 })
        (lock_entries t m left (p + 8) (suc i) total_len bad_address) in
    let rest =
      cons_locked (record { iov_base = host_base; iov_len = len' })
        (lock_entries t m left (p + 8) (suc i) (total_len + len') bad) in
    if is_neg32 len
    then failed Host.einval
    else if len == 0
    then empty
    else if host_base == 0 && i == 0
    then failed Host.efault
    else rest

-- What follows the loop: the vector, or NULL with `errno` set.
unfoldable pub give : Locked → M (Option (List Iovec))
unfolding pure set_errno ◌>>=◌
give (locked vec) = pure (some vec)
give (failed err) = set_errno err >> pure none

-- NULL, for an empty vector too, whose `errno` is then 0.
unfoldable pub lock_iovec : HostSystem → ℕ → ℕ → M (Option (List Iovec))
unfolding give lock_entries ◌>>=◌ gets host_call g2h
lock_iovec host target_addr count =
    if count == 0
    then give (failed 0)
    else if is_neg32 count || ltb iov_max count
    then give (failed Host.einval)
    else do
      vec ← host_call host HostFn.calloc (count ∷ 16 ∷ [])
      if vec.result == 0 then give (failed Host.enomem) else do
        target_vec ← gets (λ s. g2h s.target target_addr)
        if target_vec == 0 then give (failed Host.efault) else do
          found ← gets (λ s. lock_entries s.target s.memory count target_vec 0 0 false)
          give found

-- The fields of the vector that the host reads.
abbrev pub iovec_fields : List Iovec → List ℕ
iovec_fields [] = []
iovec_fields (v ∷ vs) = v.iov_base ∷ v.iov_len ∷ iovec_fields vs
