-- ===== src/Syscall/Errors.antt =====
-- What a call of the host gives to the guest: `get_errno(f(args))` in proj/sparc-linux/syscall.c.
use sparcy.Base.{ℕ, List, ◌-◌, ◌^◌, ◌<◌, ◌≡◌, refl, arith, some, true, false, u32, neg32}
use sparcy.Errno.{errno_table_size}
use sparcy.Errno.Table.{host_to_target_errno-identity}
use sparcy.Guest.{Host, HostFn, Reply, Sys, next, ◌>>=◌, host_call, gets, get_errno, is_error}
use sparcy.Syscall.{sys}

-- How a call of a Linux host fails and succeeds: with -1 and an error in errno that the table of 1200
-- numbers has a place for, or with a result that is below the top 4096 values of 32 bits.
pub data Answers (r : Reply) : Type 0 where
  fails :
      (e : ℕ) → u32 r.result ≡ neg32 1 → r.error ≡ some e → 0 < e → e < errno_table_size → Answers r
  succeeds : r.result < 2 ^ 32 - 4096 → Answers r

-- What the guest sees of the answer `r` in the value `ret`.
pub data Reports (r : Reply) (ret : ℕ) : Type 0 where
  reports_error : (e : ℕ) → r.error ≡ some e → ret ≡ neg32 e → is_error ret ≡ true → Reports r ret
  reports_value : ret ≡ r.result → is_error ret ≡ false → Reports r ret

error_value : (e : ℕ) → 0 < e → e < errno_table_size → is_error (neg32 e) ≡ true
unfolding is_error
error_value e pos small = ground arith

plain_value : (ret : ℕ) → ret < 2 ^ 32 - 4096 → is_error ret ≡ false
unfolding is_error
plain_value ret small = ground arith

-- A failure of the host with an error from 1 to 1199 reaches the guest as the negated number of the
-- error, which the guest takes for an error; a result below 2 ^ 32 - 4096 reaches it unchanged, and it
-- takes it for none. Memory is as the host left it, and the target's globals stay.
pub sys-Reports :
    (host : Host) (f : HostFn) (args : List ℕ) (s : Sys)
    → let r = host s.trace s.memory (record { function = f; args = args }) in
      Answers r
      → (ret : ℕ) × ((sys host f args s).0 ≡ next ret)
        × Reports r ret
        × ((sys host f args s).1.memory ≡ r.memory)
        × ((sys host f args s).1.target ≡ s.target)
unfolding sys ◌>>=◌ host_call get_errno gets
sys-Reports host f args s (fails e minus_one set pos small) = (
  neg32 e,
  rw (minus_one, set, host_to_target_errno-identity) refl,
  reports_error e set refl (error_value e pos small),
  refl,
  refl,
)
sys-Reports host f args s (succeeds small) = (
  (host s.trace s.memory (record { function = f; args = args })).result,
  ground arith,
  reports_value refl (plain_value _ small),
  refl,
  refl,
)
