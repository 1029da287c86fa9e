-- ===== src/Convert/Limits.antt =====
-- Resource limits and resource usage in proj/sparc-linux/syscall.c.
mod Target
mod Rlimit
use sparcy.Base.{
  ℕ, ◌+◌, ◌-◌, ◌^◌, List, [], ◌∷◌, zero, suc, ◌==◌, ◌||◌, not, if◌then◌else◌, u32, u64, sext64,
  get_or,
}
use sparcy.Memory.{tswapal}
use sparcy.Guest.{M, ◌>>=◌, ◌>>◌, lock_user, swap_stores}
use Target
use Rlimit

-- The labels of a `switch` with the value that each returns, in order.
abbrev pub choose : List (ℕ × ℕ) → ℕ → ℕ
choose [] code = code
choose ((label, v) ∷ l) code = if code == label then v else choose l code

unfoldable pub target_to_host_resource : ℕ → ℕ
target_to_host_resource = choose (
    (Target.address_space, Rlimit.address_space)
    ∷ (Target.core, Rlimit.core)
    ∷ (Target.cpu, Rlimit.cpu)
    ∷ (Target.data_size, Rlimit.data_size)
    ∷ (Target.fsize, Rlimit.fsize)
    ∷ (Target.locks, Rlimit.locks)
    ∷ (Target.memlock, Rlimit.memlock)
    ∷ (Target.msgqueue, Rlimit.msgqueue)
    ∷ (Target.nice, Rlimit.nice)
    ∷ (Target.nofile, Rlimit.nofile)
    ∷ (Target.nproc, Rlimit.nproc)
    ∷ (Target.rss, Rlimit.rss)
    ∷ (Target.rtprio, Rlimit.rtprio)
    ∷ (Target.sigpending, Rlimit.sigpending)
    ∷ (Target.stack, Rlimit.stack)
    ∷ [])

-- RLIM_INFINITY is the host's largest unsigned long.
abbrev pub rlim_infinity : ℕ
rlim_infinity = 2 ^ 64 - 1

abbrev pub target_rlim_infinity : ℕ
target_rlim_infinity = 0x7fff_ffff

-- A 32-bit value always fits the host's rlim_t, so the second test of the source never holds.
unfoldable pub target_to_host_rlim : ℕ → ℕ
target_to_host_rlim target_rlim =
    let swapped = tswapal target_rlim in
    if swapped == target_rlim_infinity
    then rlim_infinity
    else if not (swapped == u64 swapped)
    then rlim_infinity
    else swapped

-- `rlim != (abi_long)rlim` compares with the sign extension of the low 32 bits.
unfoldable pub host_to_target_rlim : ℕ → ℕ
host_to_target_rlim rlim = tswapal (
    if rlim == rlim_infinity || not (rlim == sext64 (u32 rlim))
    then target_rlim_infinity
    else u32 rlim)

-- The first `n` fields that the host filled in, 0 where it left out some.
abbrev pub fields : ℕ → List ℕ → List ℕ
fields zero out = []
fields (suc n) [] = 0 ∷ fields n []
fields (suc n) (x ∷ out) = x ∷ fields n out

-- The two times and the fourteen counters, each cut to an abi_long.
unfoldable pub host_to_target_rusage : ℕ → List ℕ → M (Unit {0})
unfolding ◌>>=◌ lock_user swap_stores
host_to_target_rusage target_addr rusage = do
  p ← lock_user target_addr
  swap_stores p (fields 18 rusage)
