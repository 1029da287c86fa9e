-- ===== src/Convert/FdSet/Copies.antt =====
-- The sets that `do_select` of proj/sparc-linux/syscall.c reads from the guest and copies back to it.
use sparcy.Base.{
  ℕ, ◌+◌, ◌*◌, ◌/◌, ◌%◌, ◌^◌, ◌≤◌, ◌<◌, ◌≡◌, ◌≢◌, refl, ap, ◌⊎◌, inl, inr, Option, none, some,
  false, ◌==◌, if◌then◌else◌, Bool-cases, arith,
}
use sparcy.Memory.{Memory}
use sparcy.Memory.Loads.{ldl_be_p-same}
use sparcy.Guest.{Sys, Target, M, next, pure, g2h}
use sparcy.Guest.Valid.{seq_lem}
use sparcy.Convert.FdSet.{
  fd_setsize, FdSet, fd_zero, words_for, copy_from_user_fdset, copy_from_user_fdset_ptr,
  copy_to_user_fdset,
}
use sparcy.Convert.FdSet.Words.{
  stored, loaded, loaded-Found, stored-HoldsSet, stored_outside, stored_above,
}
use sparcy.Convert.FdSet.RoundTrip.{words_for-le, copy_to_lem, copy_from_lem, same_below}
use sparcy.Convert.FdSet.Digits.{in_set, HoldsSet-in_set, in_set-HoldsSet}

-- An address that is 0 for no set, and else not NULL on the host.
abbrev pub IsSetAddress : Target → ℕ → Type 0
IsSetAddress t addr = addr ≢ 0 → g2h t addr ≢ 0

-- The set at the guest's address, for `n` descriptors.
pub data IsAsked (m : Memory) (t : Target) (n addr : ℕ) (set : Option FdSet) : Type 0 where
  no_set : addr ≡ 0 → set ≡ none → IsAsked m t n addr set
  a_set :
      (fds : FdSet)
      → addr ≢ 0
      → set ≡ some fds
      → ((i : ℕ) → i < n → fds i ≡ in_set m (g2h t addr) i)
      → IsAsked m t n addr set

pub copy_from_user_fdset_ptr-IsAsked :
    (addr n : ℕ) (s : Sys)
    → n ≤ fd_setsize
    → IsSetAddress s.target addr
    → (set : Option FdSet) × (copy_from_user_fdset_ptr addr n s ≡ (next set, s))
      × IsAsked s.memory s.target n addr set
unfolding copy_from_user_fdset_ptr pure
copy_from_user_fdset_ptr-IsAsked addr n s small valid = elim (Bool-cases (addr == 0)) [
  | inl null ↦ (none, rw null refl, no_set (ground arith) refl)
  | inr there ↦
      let p = g2h s.target addr in
      let present : addr ≢ 0 = ground arith in
      let left = words_for n in
      let fds = loaded left s.memory p 0 fd_zero in
      (
        some fds,
        rw there (
            seq_lem (copy_from_user_fdset addr n) (λ (fds' : FdSet). pure (some fds'))
              (copy_from_lem addr n s (valid present))),
        a_set fds present refl λ i below.
            same_below n i (in_set s.memory p) fds below (words_for-le n small) (
              loaded-Found left s.memory p 0 i (in_set s.memory p) fd_zero
                (in_set-HoldsSet left s.memory p) λ q _. refl),
      )
]

-- The memory after a set is copied back.
abbrev pub put_set : Target → ℕ → ℕ → FdSet → Memory → Memory
put_set t n addr fds m = if addr == 0 then m else stored (words_for n) m (g2h t addr) 0 fds

-- The statement of `copy_back` for it.
abbrev pub put_back : ℕ → ℕ → FdSet → M (Unit {0})
put_back n addr fds = if addr == 0 then pure tt else copy_to_user_fdset addr fds n

pub put_set_lem :
    (addr n : ℕ) (fds : FdSet) (s : Sys)
    → IsSetAddress s.target addr
    → put_back n addr fds s ≡ (next tt, record s { memory = put_set s.target n addr fds s.memory })
unfolding pure
put_set_lem addr n fds s valid = elim (Bool-cases (addr == 0)) [
  | inl null ↦ rw null refl
  | inr there ↦ rw there (copy_to_lem addr n fds s (valid (ground arith)))
]

-- The guest finds the set at its address.
pub put_set-in_set :
    (t : Target) (n addr i : ℕ) (fds : FdSet) (m : Memory)
    → n ≤ fd_setsize
    → addr ≢ 0
    → i < n
    → in_set (put_set t n addr fds m) (g2h t addr) i ≡ fds i
put_set-in_set t n addr i fds m small there below =
    let test : (addr == 0) ≡ false = ground arith in
    let enough = words_for-le n small in
    rw test (
      HoldsSet-in_set (words_for n) (stored (words_for n) m (g2h t addr) 0 fds) (g2h t addr) i fds
        (stored-HoldsSet (words_for n) m (g2h t addr) 0 fds) (omega arith))

-- Two sets, where both are there, do not share bytes.
abbrev pub AreApart : Target → ℕ → ℕ → ℕ → Type 0
AreApart t n a b =
    a ≢ 0 → b ≢ 0 → (g2h t a + 4 * words_for n ≤ g2h t b) ⊎ (g2h t b + 4 * words_for n ≤ g2h t a)

pub put_set_other :
    (t : Target) (n addr other i : ℕ) (fds : FdSet) (m : Memory)
    → n ≤ fd_setsize
    → AreApart t n addr other
    → addr ≢ 0
    → i < n
    → in_set (put_set t n other fds m) (g2h t addr) i ≡ in_set m (g2h t addr) i
put_set_other t n addr other i fds m small apart there below = elim (Bool-cases (other == 0)) [
  | inl null ↦ rw null refl
  | inr second ↦
      let p = g2h t addr in
      let word = p + 4 * (i / 32) in
      let left = words_for n in
      let enough = words_for-le n small in
      let m' = stored left m (g2h t other) 0 fds in
      let same : (q : ℕ) → word ≤ q → q < word + 4 → m' q ≡ m q = λ q from to.
        elim (apart there (ground arith)) [
          | inl before ↦ stored_outside left m (g2h t other) 0 fds q (omega arith)
          | inr after ↦ stored_above left m (g2h t other) 0 fds q (omega arith)
        ] in
      rw second (ap (λ x. x / 2 ^ (i % 32) % 2 == 1) (ldl_be_p-same m m' word same))
]
