-- ===== src/Convert/Numbers.antt =====
-- Round trips of the numbers that proj/sparc-linux/syscall.c converts: users, groups and limits.
use sparcy.Base.{
  ℕ, ◌-◌, ◌^◌, ◌≤◌, ◌<◌, ◌≡◌, ◌⊎◌, arith, u32, neg32, sext64, ◌==◌, ◌||◌, not, if◌then◌else◌,
}
use sparcy.Memory.{tswapal, tswap32}
use sparcy.Memory.Accessors.{bswap32-bswap32}
use sparcy.Convert.Uid.{high2lowuid, high2lowgid, low2highuid, low2highgid}
use sparcy.Convert.Limits.{
  rlim_infinity, target_rlim_infinity, target_to_host_rlim, host_to_target_rlim,
}

-- Of the user and group numbers of the host that are not negative, one below 65535 comes back from the
-- guest's 16 bits as it was, a larger one than 65535 as 65534, and 65535, the -1 of 16 bits, as -1.
pub low2highuid-high2lowuid :
    (id : ℕ)
    → id < 2 ^ 31
    → (((id < 65535) × (low2highuid (high2lowuid id) ≡ id) × (low2highgid (high2lowgid id) ≡ id))
        ⊎ ((id ≡ 65535)
            × (low2highuid (high2lowuid id) ≡ neg32 1)
            × (low2highgid (high2lowgid id) ≡ neg32 1))
        ⊎ ((65535 < id)
            × (low2highuid (high2lowuid id) ≡ 65534)
            × (low2highgid (high2lowgid id) ≡ 65534)))
unfolding low2highuid high2lowuid low2highgid high2lowgid
low2highuid-high2lowuid id small = ground arith

tswapal-tswapal : (x : ℕ) → x < 2 ^ 32 → tswapal (tswapal x) ≡ x
unfolding tswapal tswap32
tswapal-tswapal x small = bswap32-bswap32 x small

-- The guest's number before it is swapped.
abbrev guest_rlim : ℕ → ℕ
guest_rlim rlim =
    if rlim == rlim_infinity || not (rlim == sext64 (u32 rlim))
    then target_rlim_infinity
    else u32 rlim

guest_rlim-lt : (rlim : ℕ) → guest_rlim rlim < 2 ^ 32
guest_rlim-lt rlim = ground arith

-- A limit of the host below 2 ^ 31 - 1 comes back from the guest as it was, and every other one below
-- 2 ^ 64 - 2 ^ 31 as no limit.
pub target_to_host_rlim-host_to_target_rlim :
    (rlim : ℕ)
    → rlim < 2 ^ 64 - 2 ^ 31
    → ((rlim < 2 ^ 31 - 1) × (target_to_host_rlim (host_to_target_rlim rlim) ≡ rlim))
      ⊎ ((2 ^ 31 - 1 ≤ rlim) × (target_to_host_rlim (host_to_target_rlim rlim) ≡ rlim_infinity))
unfolding target_to_host_rlim host_to_target_rlim
target_to_host_rlim-host_to_target_rlim rlim small =
    rw (tswapal-tswapal (guest_rlim rlim) (guest_rlim-lt rlim)) (ground arith)
