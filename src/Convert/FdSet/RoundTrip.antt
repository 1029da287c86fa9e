-- ===== src/Convert/FdSet/RoundTrip.antt =====
-- `copy_to_user_fdset` and `copy_from_user_fdset` of proj/sparc-linux/syscall.c, one after the other.
use sparcy.Base.{ℕ, ◌*◌, ◌≤◌, ◌<◌, ◌≡◌, ◌≢◌, refl, arith}
use sparcy.Guest.{Sys, next, ◌>>=◌, g2h}
use sparcy.Guest.Valid.{lock_user_lem}
use sparcy.Convert.FdSet.{
  FdSet, fd_setsize, fd_zero, words_for, copy_from_user_fdset, copy_to_user_fdset,
}
use sparcy.Convert.FdSet.Bits.{Found, before, inside, after}
use sparcy.Convert.FdSet.Words.{
  stored, write_words-stored, loaded, read_words-loaded, stored-HoldsSet, loaded-Found,
}

pub words_for-le : (n : ℕ) → n ≤ fd_setsize → n ≤ 32 * words_for n
unfolding words_for
words_for-le n h = ground arith

pub copy_to_lem :
    (addr n : ℕ) (fds : FdSet) (s : Sys)
    → g2h s.target addr ≢ 0
    → copy_to_user_fdset addr fds n s
      ≡ (next tt, record s { memory = stored (words_for n) s.memory (g2h s.target addr) 0 fds })
unfolding copy_to_user_fdset ◌>>=◌
copy_to_lem addr n fds s h =
    rw (lock_user_lem addr s h) (write_words-stored (words_for n) (g2h s.target addr) 0 fds s)

pub copy_from_lem :
    (addr n : ℕ) (s : Sys)
    → g2h s.target addr ≢ 0
    → copy_from_user_fdset addr n s
      ≡ (next (loaded (words_for n) s.memory (g2h s.target addr) 0 fd_zero), s)
unfolding copy_from_user_fdset ◌>>=◌
copy_from_lem addr n s h =
    rw (lock_user_lem addr s h) (read_words-loaded (words_for n) (g2h s.target addr) 0 fd_zero s)

pub same_below :
    (n i : ℕ) (fds found : FdSet)
    → i < n
    → n ≤ 32 * words_for n
    → Found 0 (32 * words_for n) i fds fd_zero found
    → found i ≡ fds i
same_below n i fds found h k (before b e) = absurd (omega arith)
same_below n i fds found h k (inside a b e) = e
same_below n i fds found h k (after a e) = absurd (omega arith)

-- The first `n` descriptors of a set that is written to the guest and read back are those of the
-- set, where the guest's address is not NULL on the host and `n` is at most 1024.
pub copy_from_user_fdset-copy_to_user_fdset :
    (addr n : ℕ) (fds : FdSet) (s : Sys)
    → g2h s.target addr ≢ 0
    → n ≤ fd_setsize
    → let (r, s') = copy_to_user_fdset addr fds n s in
      (r ≡ next tt)
      × (fds' : FdSet) × (copy_from_user_fdset addr n s' ≡ (next fds', s'))
      × ((i : ℕ) → i < n → fds' i ≡ fds i)
copy_from_user_fdset-copy_to_user_fdset addr n fds s h small = rw (copy_to_lem addr n fds s h) (
    let m = stored (words_for n) s.memory (g2h s.target addr) 0 fds in
    (
      refl,
      loaded (words_for n) m (g2h s.target addr) 0 fd_zero,
      copy_from_lem addr n (record s { memory = m }) h,
      λ i below. same_below n i fds _ below (words_for-le n small) (
          loaded-Found (words_for n) m (g2h s.target addr) 0 i fds fd_zero
            (stored-HoldsSet (words_for n) s.memory (g2h s.target addr) 0 fds) (λ q _. refl)),
    ))
