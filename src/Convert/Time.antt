-- ===== src/Convert/Time.antt =====
-- The copies of times and time zones in proj/sparc-linux/syscall.c. Where the source's copy returns
-- -TARGET_EFAULT its callers jump to `efault` or return that value, which comes to the same.
pub mod RoundTrip
use sparcy.Base.{ℕ, ◌+◌, List, sext64, get_or}
use sparcy.Guest.{M, ◌>>=◌, ◌>>◌, pure, lock_user, get_long, put_long, swap_load, swap_store}

-- struct timeval, and struct timespec with nanoseconds for microseconds
pub record Timeval : Type 0 where
  pub tv_sec : ℕ
  pub tv_usec : ℕ

pub record Timespec : Type 0 where
  pub tv_sec : ℕ
  pub tv_nsec : ℕ

pub record Itimerspec : Type 0 where
  pub it_interval : Timespec
  pub it_value : Timespec

pub record Timezone : Type 0 where
  pub tz_minuteswest : ℕ
  pub tz_dsttime : ℕ

-- A timeval among the fields that the host filled in, from field `i` on.
abbrev pub timeval_at : List ℕ → ℕ → Timeval
timeval_at out i = record { tv_sec = get_or out i 0; tv_usec = get_or out (i + 1) 0 }

unfoldable pub copy_from_user_timezone : ℕ → M Timezone
unfolding ◌>>=◌ lock_user get_long
copy_from_user_timezone target_tz_addr = do
  p ← lock_user target_tz_addr
  w ← get_long p
  d ← get_long (p + 4)
  pure (record { tz_minuteswest = w; tz_dsttime = d })

unfoldable pub copy_to_user_timeval : ℕ → Timeval → M (Unit {0})
unfolding ◌>>=◌ lock_user put_long
copy_to_user_timeval target_tv_addr tv = do
  p ← lock_user target_tv_addr
  put_long p tv.tv_sec
  put_long (p + 4) tv.tv_usec

-- The guest's 32-bit fields are assigned to the host's 64-bit ones.
unfoldable pub copy_from_user_timeval : ℕ → M Timeval
unfolding ◌>>=◌ lock_user get_long
copy_from_user_timeval target_tv_addr = do
  p ← lock_user target_tv_addr
  s ← get_long p
  u ← get_long (p + 4)
  pure (record { tv_sec = sext64 s; tv_usec = sext64 u })

-- `tswapal` gives an unsigned value, which is assigned without its sign.
unfoldable pub target_to_host_timespec : ℕ → M Timespec
unfolding ◌>>=◌ lock_user swap_load
target_to_host_timespec target_addr = do
  p ← lock_user target_addr
  s ← swap_load p
  n ← swap_load (p + 4)
  pure (record { tv_sec = s; tv_nsec = n })

unfoldable pub host_to_target_timespec : ℕ → Timespec → M (Unit {0})
unfolding ◌>>=◌ lock_user swap_store
host_to_target_timespec target_addr ts = do
  p ← lock_user target_addr
  swap_store p ts.tv_sec
  swap_store (p + 4) ts.tv_nsec

unfoldable pub target_to_host_itimerspec : ℕ → M Itimerspec
unfolding ◌>>=◌ lock_user swap_load
target_to_host_itimerspec target_addr = do
  p ← lock_user target_addr
  is ← swap_load p
  ins ← swap_load (p + 4)
  vs ← swap_load (p + 8)
  vns ← swap_load (p + 12)
  pure (record {
    it_interval = record { tv_sec = is; tv_nsec = ins };
    it_value = record { tv_sec = vs; tv_nsec = vns };
  })

unfoldable pub host_to_target_itimerspec : ℕ → Itimerspec → M (Unit {0})
unfolding ◌>>=◌ lock_user swap_store
host_to_target_itimerspec target_addr its = do
  p ← lock_user target_addr
  swap_store p its.it_interval.tv_sec
  swap_store (p + 4) its.it_interval.tv_nsec
  swap_store (p + 8) its.it_value.tv_sec
  swap_store (p + 12) its.it_value.tv_nsec

unfoldable pub host_to_target_clock_t : ℕ → ℕ
host_to_target_clock_t ticks = ticks
