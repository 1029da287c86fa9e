-- ===== src/Convert/Keeps.antt =====
-- The conversions of proj/sparc-linux/syscall.c leave the target's globals alone.
use sparcy.Base.{ℕ, zero, suc, ◌+◌, List}
use sparcy.Guest.{Target, Host, put_long, get_long}
use sparcy.Guest.Keeps.{Keeps, keeps_rules, Keeps-bind, Keeps-pure, Keeps-put_long, Keeps-get_long}
use sparcy.Convert.Time.{
  Timeval, copy_from_user_timezone, copy_to_user_timeval, copy_from_user_timeval,
}
use sparcy.Convert.FdSet.{
  FdSet, set_bits, gather_bits, read_words, write_words, copy_from_user_fdset, copy_to_user_fdset,
  copy_from_user_fdset_ptr, copy_from_user_timeval_ptr, copy_back, do_select,
}
use sparcy.Convert.Limits.{host_to_target_rusage}
use sparcy.Convert.Stat.{
  host_to_target_stat, host_to_target_stat64, host_to_target_statfs, host_to_target_statfs64,
  host_to_target_sysinfo,
}
use sparcy.Convert.Iovec.{lock_iovec, give, Locked, locked, failed}

module _ {Q : Target → Type 0} where
  pub Keeps-timezone : (a : ℕ) → Keeps Q (copy_from_user_timezone a)
  Keeps-timezone a = unfold copy_from_user_timezone in search keeps_rules depth 12

  pub Keeps-to_timeval : (a : ℕ) (tv : Timeval) → Keeps Q (copy_to_user_timeval a tv)
  Keeps-to_timeval a tv = unfold copy_to_user_timeval in search keeps_rules depth 12

  pub Keeps-from_timeval : (a : ℕ) → Keeps Q (copy_from_user_timeval a)
  Keeps-from_timeval a = unfold copy_from_user_timeval in search keeps_rules depth 12

  pub Keeps-rusage : (a : ℕ) (r : List ℕ) → Keeps Q (host_to_target_rusage a r)
  Keeps-rusage a r = unfold host_to_target_rusage in search keeps_rules depth 12

  pub Keeps-stat : (a : ℕ) (r : List ℕ) → Keeps Q (host_to_target_stat a r)
  Keeps-stat a r = unfold host_to_target_stat in search keeps_rules depth 40

  pub Keeps-stat64 : (a : ℕ) (r : List ℕ) → Keeps Q (host_to_target_stat64 a r)
  Keeps-stat64 a r = unfold host_to_target_stat64 in search keeps_rules depth 40

  pub Keeps-statfs : (a : ℕ) (r : List ℕ) → Keeps Q (host_to_target_statfs a r)
  Keeps-statfs a r = unfold host_to_target_statfs in search keeps_rules depth 40

  pub Keeps-statfs64 : (a : ℕ) (r : List ℕ) → Keeps Q (host_to_target_statfs64 a r)
  Keeps-statfs64 a r = unfold host_to_target_statfs64 in search keeps_rules depth 40

  pub Keeps-sysinfo : (a : ℕ) (r : List ℕ) → Keeps Q (host_to_target_sysinfo a r)
  Keeps-sysinfo a r = unfold host_to_target_sysinfo in search keeps_rules depth 40

  Keeps-read_words : (n p k : ℕ) (fds : FdSet) → Keeps Q (read_words n p k fds)
  unfolding read_words
  Keeps-read_words zero p k fds = Keeps-pure fds
  Keeps-read_words (suc n) p k fds =
      Keeps-bind (get_long p) (λ b. read_words n (p + 4) (k + 32) (set_bits 32 b 0 k fds))
        (Keeps-get_long p) (λ b. Keeps-read_words n (p + 4) (k + 32) (set_bits 32 b 0 k fds))

  Keeps-write_words : (n p k : ℕ) (fds : FdSet) → Keeps Q (write_words n p k fds)
  unfolding write_words
  Keeps-write_words zero p k fds = Keeps-pure tt
  Keeps-write_words (suc n) p k fds =
      Keeps-bind (put_long p (gather_bits 32 0 0 k fds)) (λ _. write_words n (p + 4) (k + 32) fds)
        (Keeps-put_long p (gather_bits 32 0 0 k fds))
        (λ _. Keeps-write_words n (p + 4) (k + 32) fds)

  pub Keeps-from_fdset : (a n : ℕ) → Keeps Q (copy_from_user_fdset a n)
  Keeps-from_fdset a n =
      unfold copy_from_user_fdset in search (keeps_rules, Keeps-read_words) depth 12

  pub Keeps-to_fdset : (a : ℕ) (fds : FdSet) (n : ℕ) → Keeps Q (copy_to_user_fdset a fds n)
  Keeps-to_fdset a fds n =
      unfold copy_to_user_fdset in search (keeps_rules, Keeps-write_words) depth 12

  pub Keeps-fdset_ptr : (a n : ℕ) → Keeps Q (copy_from_user_fdset_ptr a n)
  Keeps-fdset_ptr a n =
      unfold copy_from_user_fdset_ptr in search (keeps_rules, Keeps-from_fdset) depth 12

  pub Keeps-timeval_ptr : (a : ℕ) → Keeps Q (copy_from_user_timeval_ptr a)
  Keeps-timeval_ptr a =
      unfold copy_from_user_timeval_ptr in search (keeps_rules, Keeps-from_timeval) depth 12

  Keeps-copy_back : (n r w e t : ℕ) (out : List ℕ) → Keeps Q (copy_back n r w e t out)
  Keeps-copy_back n r w e t out =
      unfold copy_back in search (keeps_rules, Keeps-to_fdset, Keeps-to_timeval) depth 12

  pub Keeps-do_select : (host : Host) (n r w e t : ℕ) → Keeps Q (do_select host n r w e t)
  Keeps-do_select host n r w e t =
      unfold do_select in
      search (keeps_rules, Keeps-fdset_ptr, Keeps-timeval_ptr, Keeps-copy_back) depth 20

  Keeps-give : (l : Locked) → Keeps Q (give l)
  unfolding give
  Keeps-give (locked vec) = search keeps_rules
  Keeps-give (failed err) = search keeps_rules

  pub Keeps-lock_iovec : (host : Host) (a n : ℕ) → Keeps Q (lock_iovec host a n)
  Keeps-lock_iovec host a n = unfold lock_iovec in search (keeps_rules, Keeps-give) depth 20

-- The rules for the statements and the conversions.
pub ruleset convert_rules = (
  keeps_rules, Keeps-timezone, Keeps-to_timeval, Keeps-from_timeval, Keeps-rusage, Keeps-stat,
  Keeps-stat64, Keeps-statfs, Keeps-statfs64, Keeps-sysinfo, Keeps-do_select, Keeps-lock_iovec,
)
