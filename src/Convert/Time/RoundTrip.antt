-- ===== src/Convert/Time/RoundTrip.antt =====
-- Times that proj/sparc-linux/syscall.c writes to the guest and reads back.
use sparcy.Base.{ℕ, ◌+◌, ◌^◌, ◌<◌, ◌≤◌, ◌-◌, ◌≡◌, ◌≢◌, refl, ap, ◌∙◌, ◌⊎◌, inl, arith, u32, sext64}
use sparcy.Memory.{Memory, stl_be_p, ldl_be_p}
use sparcy.Memory.Accessors.{ld_be_p-st_be_p}
use sparcy.Memory.Loads.{ldl_be_p-same}
use sparcy.Memory.Ranges.{stl_be_p_outside}
use sparcy.Guest.{Sys, next, ◌>>=◌, pure, gets, get_long, put_long, write_memory, g2h}
use sparcy.Guest.Valid.{lock_user_lem}
use sparcy.Convert.Time.{Timeval, copy_from_user_timeval, copy_to_user_timeval}

-- The memory after the two stores at host address `p`.
abbrev both : Memory → ℕ → Timeval → Memory
both m p tv = stl_be_p (stl_be_p m p tv.tv_sec) (p + 4) tv.tv_usec

copy_to_lem :
    (addr : ℕ) (tv : Timeval) (s : Sys)
    → g2h s.target addr ≢ 0
    → copy_to_user_timeval addr tv s
      ≡ (next tt, record s { memory = both s.memory (g2h s.target addr) tv })
unfolding copy_to_user_timeval ◌>>=◌ put_long write_memory
copy_to_lem addr tv s h = rw (lock_user_lem addr s h) refl

copy_from_lem :
    (addr : ℕ) (s : Sys)
    → g2h s.target addr ≢ 0
    → copy_from_user_timeval addr s ≡ (
      next (record {
        tv_sec = sext64 (ldl_be_p s.memory (g2h s.target addr));
        tv_usec = sext64 (ldl_be_p s.memory (g2h s.target addr + 4));
      }),
      s,
    )
unfolding copy_from_user_timeval ◌>>=◌ get_long gets pure
copy_from_lem addr s h = rw (lock_user_lem addr s h) refl

sec_stored : (m : Memory) (p : ℕ) (tv : Timeval) → ldl_be_p (both m p tv) p ≡ u32 tv.tv_sec
sec_stored m p tv =
    ldl_be_p-same (stl_be_p m p tv.tv_sec) (both m p tv) p
      (λ q h k. stl_be_p_outside (stl_be_p m p tv.tv_sec) (p + 4) tv.tv_usec q (inl k))
    ∙ (ld_be_p-st_be_p m p tv.tv_sec).1

usec_stored : (m : Memory) (p : ℕ) (tv : Timeval) → ldl_be_p (both m p tv) (p + 4) ≡ u32 tv.tv_usec
usec_stored m p tv = (ld_be_p-st_be_p (stl_be_p m p tv.tv_sec) (p + 4) tv.tv_usec).1

-- A long that a 32-bit field holds comes back.
fits_long : (x : ℕ) → (x < 2 ^ 31) ⊎ ((2 ^ 64 - 2 ^ 31 ≤ x) × (x < 2 ^ 64)) → sext64 (u32 x) ≡ x
fits_long x h = ground arith

-- A time of the host whose fields, taken as signed, fit 32 bits is read back as it was after it has
-- been written to the guest, where the address is not NULL on the host.
pub copy_from_user_timeval-copy_to_user_timeval :
    (addr : ℕ) (tv : Timeval) (s : Sys)
    → g2h s.target addr ≢ 0
    → (tv.tv_sec < 2 ^ 31) ⊎ ((2 ^ 64 - 2 ^ 31 ≤ tv.tv_sec) × (tv.tv_sec < 2 ^ 64))
    → (tv.tv_usec < 2 ^ 31) ⊎ ((2 ^ 64 - 2 ^ 31 ≤ tv.tv_usec) × (tv.tv_usec < 2 ^ 64))
    → let (r, s') = copy_to_user_timeval addr tv s in
      (r ≡ next tt) × (copy_from_user_timeval addr s' ≡ (next tv, s'))
copy_from_user_timeval-copy_to_user_timeval addr tv s h sec usec = rw (copy_to_lem addr tv s h) (
    let p = g2h s.target addr in
    let s' = record s { memory = both s.memory p tv } in
    let same_sec = ap sext64 (sec_stored s.memory p tv) ∙ fits_long tv.tv_sec sec in
    let same_usec = ap sext64 (usec_stored s.memory p tv) ∙ fits_long tv.tv_usec usec in
    (refl, copy_from_lem addr s' h ∙ rw (same_sec, same_usec) refl))
