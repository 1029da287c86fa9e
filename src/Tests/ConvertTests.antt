-- ===== src/Tests/ConvertTests.antt =====
-- Tests of the conversions of proj/sparc-linux/syscall.c.
use sparcy.Base.{
  ℕ, ◌⊎◌, inl, ◌<◌, ◌≤◌, ◌-◌, neg32, ◌≡◌, refl, arith, none, ◌==◌, if◌then◌else◌, some, ◌^◌, ◌+◌,
  ◌*◌, [], ◌∷◌,
}
use sparcy.Guest.{g2h, Host, HostFn, next}
use sparcy.Convert.Uid.{low2highuid, high2lowuid, low2highgid, high2lowgid}
use sparcy.Convert.Time.{Timeval, copy_to_user_timeval, copy_from_user_timeval}
use sparcy.Convert.Time.RoundTrip.{copy_from_user_timeval-copy_to_user_timeval}
use sparcy.Convert.Limits.{rlim_infinity, target_to_host_rlim, host_to_target_rlim}
use sparcy.Convert.Numbers.{target_to_host_rlim-host_to_target_rlim, low2highuid-high2lowuid}
use sparcy.Memory.{Memory, tswapal, tswap32, bswap32, ldl_he_p, lduw_he_p, ldub_p}
use sparcy.Convert.Iovec.{lock_iovec}
use sparcy.Convert.Iovec.Totals.{Locks, lock_iovec-Locks}
use sparcy.Syscall.Entries.{swap_dirents, swap_dirent64, llseek}
use sparcy.Syscall.Entries.Offset.{llseek-trace}
use sparcy.Syscall.Entries.Chain.{Chain, empty, entry, SwapsAll, swap_dirents-SwapsAll}
use sparcy.Tests.Fixtures.{small_sys, quiet_host, call_with}

-- A host with memory to give. The guest's entries are two buffers of 0x7070707 bytes.
abbrev giving_host : Host
giving_host trace m call = record { result = 0x7000; error = none; memory = m; out = [] }

lock_iovec-Locks_example : Locks 0x9000 2 (lock_iovec giving_host 0x9000 2 small_sys)
lock_iovec-Locks_example = lock_iovec-Locks giving_host 0x9000 2 small_sys

both_buffers :
    (lock_iovec giving_host 0x9000 2 small_sys).0
    ≡ next (
        some (
          record { iov_base = 0x7080707; iov_len = 0x707_0707 }
          ∷ record { iov_base = 0x7080707; iov_len = 0x707_0707 }
          ∷ []))
unfolding lock_iovec tswapal tswap32 bswap32 ldl_he_p
both_buffers = refl

-- One record of 24 bytes at 0x100.
abbrev one_record : Memory
one_record q = if q == 0x110 then 24 else 0

one_record-Chain : Chain one_record 0x100 24
unfolding lduw_he_p ldub_p
one_record-Chain = entry 24 refl (omega arith) (omega arith) empty

swap_dirents-SwapsAll_example :
    (m' : Memory) × (swap_dirents swap_dirent64 25 one_record 0x100 24 ≡ some m')
    × SwapsAll one_record m' 0x100 24
swap_dirents-SwapsAll_example =
    swap_dirents-SwapsAll 25 one_record 0x100 24 one_record-Chain (omega arith) (omega arith)

uid_comes_back : low2highuid (high2lowuid 1000) ≡ 1000
unfolding low2highuid high2lowuid
uid_comes_back = refl

uid_too_large : low2highuid (high2lowuid 70000) ≡ 65534
unfolding low2highuid high2lowuid
uid_too_large = refl

llseek-trace_example :
    (llseek quiet_host (call_with 236 4 1) small_sys).1.trace
    ≡ (record { function = HostFn.lseek; args = 4 ∷ (1 * 2 ^ 32 + 3) ∷ 0xffff_ffff ∷ [] } ∷ [])
llseek-trace_example =
    llseek-trace quiet_host (call_with 236 4 1) small_sys (omega arith) (omega arith)

abbrev some_time : Timeval
some_time = record { tv_sec = 1000; tv_usec = 999_999 }

copy_from_user_timeval-copy_to_user_timeval_example :
    let (r, s') = copy_to_user_timeval 0x9000 some_time small_sys in
    (r ≡ next tt) × (copy_from_user_timeval 0x9000 s' ≡ (next some_time, s'))
copy_from_user_timeval-copy_to_user_timeval_example =
    copy_from_user_timeval-copy_to_user_timeval 0x9000 some_time small_sys
      (unfold g2h in omega arith) (inl (omega arith)) (inl (omega arith))

target_to_host_rlim-host_to_target_rlim_example :
    ((8192 < 2 ^ 31 - 1) × (target_to_host_rlim (host_to_target_rlim 8192) ≡ 8192))
    ⊎ ((2 ^ 31 - 1 ≤ 8192) × (target_to_host_rlim (host_to_target_rlim 8192) ≡ rlim_infinity))
target_to_host_rlim-host_to_target_rlim_example =
    target_to_host_rlim-host_to_target_rlim 8192 (omega arith)

low2highuid-high2lowuid_example :
    let id : ℕ = 70000 in
    ((id < 65535) × (low2highuid (high2lowuid id) ≡ id) × (low2highgid (high2lowgid id) ≡ id))
    ⊎ ((id ≡ 65535)
        × (low2highuid (high2lowuid id) ≡ neg32 1)
        × (low2highgid (high2lowgid id) ≡ neg32 1))
    ⊎ ((65535 < id)
        × (low2highuid (high2lowuid id) ≡ 65534)
        × (low2highgid (high2lowgid id) ≡ 65534))
low2highuid-high2lowuid_example = low2highuid-high2lowuid 70000 (omega arith)
