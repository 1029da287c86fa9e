-- ===== src/Syscall/Entries.antt =====
-- The cases `_llseek` to `poll` of `do_syscall` in proj/sparc-linux/syscall.c. HOST_LONG_BITS is defined
-- nowhere, so of the three branches of `getdents` the second, in place, is the one compiled.
pub mod Chain
pub mod Offset
use sparcy.Base.{
  ℕ, zero, suc, List, [], ◌∷◌, ◌==◌, if◌then◌else◌, sext64, u64, ◌+◌, ◌-◌, ◌*◌, ◌^◌, Option, none,
  some, bit_or, ltb, ◌||◌, is_neg32,
}
use sparcy.Nr
use sparcy.Guest.{
  Host, HostFn, M, ◌>>=◌, ◌>>◌, pure, gets, write_memory, lock_user, host_call, get_errno, is_error,
  put_user_s64, loop_forever,
}
use sparcy.Memory.{
  Memory, lduw_he_p, stw_he_p, ldl_he_p, stl_he_p, ldq_he_p, stq_he_p, tswap16, tswap32, tswap64,
}
use sparcy.Convert.FdSet.{do_select}
use sparcy.Syscall.Defs.{Handler, Case, missing}

-- One record at host address `p`, of which the length, at offset 16, is swapped, and the words at
-- offsets 0 and 8: by `tswapls` 32 bits of each, by `tswap64s` all 64.
unfoldable pub swap_dirent : Memory → ℕ → Memory
unfolding lduw_he_p stw_he_p ldl_he_p stl_he_p tswap16 tswap32
swap_dirent m p =
    let m₁ = stw_he_p m (p + 16) (tswap16 (lduw_he_p m (p + 16))) in
    let m₂ = stl_he_p m₁ p (tswap32 (ldl_he_p m₁ p)) in
    stl_he_p m₂ (p + 8) (tswap32 (ldl_he_p m₂ (p + 8)))

unfoldable pub swap_dirent64 : Memory → ℕ → Memory
unfolding lduw_he_p stw_he_p ldq_he_p stq_he_p tswap16 tswap64
swap_dirent64 m p =
    let m₁ = stw_he_p m (p + 16) (tswap16 (lduw_he_p m (p + 16))) in
    let m₂ = stq_he_p m₁ p (tswap64 (ldq_he_p m₁ p)) in
    stq_he_p m₂ (p + 8) (tswap64 (ldq_he_p m₂ (p + 8)))

-- The loop over the records, `len` bytes from `p` on, with fuel. `none` means that it does not end,
-- as happens at a record of length 0. A negative `len` ends it at once.
unfoldable pub swap_dirents : (Memory → ℕ → Memory) → ℕ → Memory → ℕ → ℕ → Option Memory
unfolding lduw_he_p
swap_dirents swap zero m p len = none
swap_dirents swap (suc fuel) m p len =
    let reclen = lduw_he_p m (p + 16) in
    let rest = swap_dirents swap fuel (swap m p) (p + reclen) (len - reclen) in
    if len == 0 || is_neg32 len then some m else if ltb len reclen then some m else rest

unfoldable pub store_dirents : Option Memory → M (Unit {0})
unfolding write_memory loop_forever
store_dirents none = loop_forever
store_dirents (some m) = write_memory (λ _. m)

module _ (host : Host) where
  -- `lseek(arg1, ((uint64_t)arg2 << 32) | arg3, arg5)`, where arg3 is an abi_long whose sign is extended.
  unfoldable pub llseek : Handler
  unfolding ◌>>=◌ host_call get_errno put_user_s64
  llseek a = do
    r ←
        host_call host HostFn.lseek
          (a.arg1 ∷ bit_or (u64 (a.arg2 * 2 ^ 32)) (sext64 a.arg3) ∷ a.arg5 ∷ [])
    if r.result == 2 ^ 64 - 1 then get_errno r.result else (put_user_s64 r.result a.arg4 >> pure 0)

  unfoldable pub directory_entries : HostFn → (Memory → ℕ → Memory) → Handler
  unfolding ◌>>=◌ lock_user host_call get_errno is_error swap_dirents store_dirents gets
  directory_entries f swap a = do
    dirp ← lock_user a.arg2
    r ← host_call host f (a.arg1 ∷ dirp ∷ a.arg3 ∷ [])
    ret ← get_errno r.result
    m ← gets (λ s. swap_dirents swap (suc ret) s.memory dirp ret)
    if is_error ret then pure tt else store_dirents m
    pure ret

  unfoldable getdents64_cases : List Case
  unfolding llseek directory_entries swap_dirent swap_dirent64 do_select
  getdents64_cases =
      (Nr.getdents64, directory_entries HostFn.getdents64 swap_dirent64)
      ∷ (Nr.newselect, λ a. do_select host a.arg1 a.arg2 a.arg3 a.arg4 a.arg5)
      ∷ missing Nr.poll
      ∷ missing Nr.ppoll
      ∷ []

  unfoldable pub entry_cases : List Case
  unfolding getdents64_cases llseek directory_entries swap_dirent swap_dirent64 do_select
  entry_cases =
      (Nr.llseek, llseek)
      ∷ (Nr.getdents, directory_entries HostFn.getdents swap_dirent)
      ∷ getdents64_cases
