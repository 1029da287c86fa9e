-- ===== src/Convert/FdSet.antt =====
-- Sets of file descriptors and `do_select` of proj/sparc-linux/syscall.c.
pub mod Bits
pub mod Words
pub mod RoundTrip
pub mod Digits
pub mod Copies
use sparcy.Base.{
  ℕ, zero, suc, ◌+◌, ◌-◌, ◌*◌, ◌/◌, ◌%◌, ◌^◌, List, [], ◌∷◌, ◌++◌, Option, none, some, Bool, true,
  false, ◌==◌, if◌then◌else◌, is_neg32, u32, bit_or, get_or,
}
use sparcy.Guest.{
  M, ◌>>=◌, ◌>>◌, pure, lock_user, get_long, put_long, Host, HostFn, host_call, get_errno, is_error,
}
use sparcy.Convert.Time.{Timeval, timeval_at, copy_from_user_timeval, copy_to_user_timeval}

-- An fd_set: which descriptors are in it. It has FD_SETSIZE bits: the functions below are the source's for
-- at most that many descriptors, and what `FD_SET` and `FD_ISSET` do past the set is not modelled.
abbrev pub fd_setsize : ℕ
fd_setsize = 1024

abbrev pub FdSet : Type 0
FdSet = ℕ → Bool

abbrev pub fd_zero : FdSet
fd_zero k = false

abbrev pub fd_set : ℕ → FdSet → FdSet
fd_set k fds i = if i == k then true else fds i

-- The words that hold `n` descriptors, an int; none where the sum is negative.
unfoldable pub words_for : ℕ → ℕ
words_for n = let sum = u32 (n + 32 - 1) in if is_neg32 sum then 0 else sum / 32

-- The inner loop: `left` bits of the word `b` from bit `j` on, for the descriptors from `k` on.
unfoldable pub set_bits : ℕ → ℕ → ℕ → ℕ → FdSet → FdSet
set_bits zero b j k fds = fds
set_bits (suc left) b j k fds =
    set_bits left b (j + 1) (k + 1) (if b / 2 ^ j % 2 == 1 then fd_set k fds else fds)

-- The outer loop: `left` words from the one at host address `p` on.
unfoldable pub read_words : ℕ → ℕ → ℕ → FdSet → M FdSet
unfolding set_bits ◌>>=◌ get_long
read_words zero p k fds = pure fds
read_words (suc left) p k fds = do
  b ← get_long p
  read_words left (p + 4) (k + 32) (set_bits 32 b 0 k fds)

unfoldable pub copy_from_user_fdset : ℕ → ℕ → M FdSet
unfolding read_words words_for lock_user ◌>>=◌
copy_from_user_fdset target_fds_addr n = do
  p ← lock_user target_fds_addr
  read_words (words_for n) p 0 fd_zero

-- NULL for no set.
unfoldable pub copy_from_user_fdset_ptr : ℕ → ℕ → M (Option FdSet)
unfolding copy_from_user_fdset ◌>>=◌
copy_from_user_fdset_ptr target_fds_addr n =
    if target_fds_addr == 0
    then pure none
    else (copy_from_user_fdset target_fds_addr n >>= λ fds. pure (some fds))

-- The inner loop of the way back, which gathers a word.
unfoldable pub gather_bits : ℕ → ℕ → ℕ → ℕ → FdSet → ℕ
gather_bits zero v j k fds = v
gather_bits (suc left) v j k fds =
    gather_bits left (bit_or v ((if fds k then 1 else 0) * 2 ^ j)) (j + 1) (k + 1) fds

unfoldable pub write_words : ℕ → ℕ → ℕ → FdSet → M (Unit {0})
unfolding gather_bits ◌>>=◌ put_long
write_words zero p k fds = pure tt
write_words (suc left) p k fds =
    put_long p (gather_bits 32 0 0 k fds) >> write_words left (p + 4) (k + 32) fds

unfoldable pub copy_to_user_fdset : ℕ → FdSet → ℕ → M (Unit {0})
unfolding write_words words_for lock_user ◌>>=◌
copy_to_user_fdset target_fds_addr fds n = do
  p ← lock_user target_fds_addr
  write_words (words_for n) p 0 fds

-- A set as the host reads it, and a set that it left: 1024 fields of 0 and 1.
abbrev pub fields_of : ℕ → ℕ → FdSet → List ℕ
fields_of zero k fds = []
fields_of (suc left) k fds = (if fds k then 1 else 0) ∷ fields_of left (k + 1) fds

abbrev pub set_at : List ℕ → ℕ → FdSet
set_at out i k = get_or out (i + k) 0 == 1

abbrev pub pointer_fields : Option FdSet → List ℕ
pointer_fields none = 0 ∷ []
pointer_fields (some fds) = 1 ∷ fields_of 1024 0 fds

abbrev pub timeval_fields : Option Timeval → List ℕ
timeval_fields none = 0 ∷ []
timeval_fields (some tv) = 1 ∷ tv.tv_sec ∷ tv.tv_usec ∷ []

unfoldable pub copy_from_user_timeval_ptr : ℕ → M (Option Timeval)
unfolding copy_from_user_timeval ◌>>=◌
copy_from_user_timeval_ptr addr =
    if addr == 0 then pure none else (copy_from_user_timeval addr >>= λ tv. pure (some tv))

-- After the call the sets and the time are copied back to those of the addresses that are not 0.
unfoldable pub copy_back : ℕ → ℕ → ℕ → ℕ → ℕ → List ℕ → M (Unit {0})
unfolding copy_to_user_fdset copy_to_user_timeval ◌>>=◌
copy_back n rfd_addr wfd_addr efd_addr target_tv_addr out = do
  if rfd_addr == 0 then pure tt else copy_to_user_fdset rfd_addr (set_at out 0) n
  if wfd_addr == 0 then pure tt else copy_to_user_fdset wfd_addr (set_at out 1024) n
  if efd_addr == 0 then pure tt else copy_to_user_fdset efd_addr (set_at out 2048) n
  if target_tv_addr == 0 then pure tt else copy_to_user_timeval target_tv_addr (timeval_at out 3072)

unfoldable pub do_select : Host → ℕ → ℕ → ℕ → ℕ → ℕ → M ℕ
unfolding copy_from_user_fdset_ptr copy_from_user_timeval_ptr copy_back ◌>>=◌ host_call get_errno
    is_error
do_select host n rfd_addr wfd_addr efd_addr target_tv_addr = do
  rfds ← copy_from_user_fdset_ptr rfd_addr n
  wfds ← copy_from_user_fdset_ptr wfd_addr n
  efds ← copy_from_user_fdset_ptr efd_addr n
  tv ← copy_from_user_timeval_ptr target_tv_addr
  r ← host_call host HostFn.select (
      n
      ∷ (pointer_fields rfds
          ++ (pointer_fields wfds ++ (pointer_fields efds ++ timeval_fields tv))))
  ret ← get_errno r.result
  if is_error ret then pure tt else copy_back n rfd_addr wfd_addr efd_addr target_tv_addr r.out
  pure ret
