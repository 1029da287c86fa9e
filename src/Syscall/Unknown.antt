-- ===== src/Syscall/Unknown.antt =====
-- Numbers for which `do_syscall` of proj/sparc-linux/syscall.c has no case.
use sparcy.Base.{
  Bool, true, false, ◌&&◌, ℕ, List, [], ◌∷◌, ◌≡◌, refl, ◌≢◌, ◌≤◌, ltb, ◌==◌, arith, some, neg32,
  All,
}
use sparcy.Errno.Target
use sparcy.Guest.{Host, Sys, raise_unimplemented}
use sparcy.Syscall.{Args, Case, do_syscall, syscall_cases, switch, finish}
use sparcy.Syscall.Basic.{basic_cases}
use sparcy.Syscall.Files.{file_cases}
use sparcy.Syscall.Signals.{signal_cases}
use sparcy.Syscall.Times.{time_cases}
use sparcy.Syscall.Mapping.{mapping_cases}
use sparcy.Syscall.Network.{network_cases}
use sparcy.Syscall.Info.{info_cases}
use sparcy.Syscall.Entries.{entry_cases}
use sparcy.Syscall.Vectors.{vector_cases}
use sparcy.Syscall.Control.{control_cases}
use sparcy.Syscall.Users.{user_cases}
use sparcy.Syscall.Wide.{wide_cases}
use sparcy.Syscall.Rest.{rest_cases}

-- The labels of a list of cases.
abbrev pub labels : List Case → List ℕ
labels [] = []
labels ((label, body) ∷ l) = label ∷ labels l

-- A number with no label goes to `default`.
switch_default :
    (l : List Case) (num : ℕ) (a : Args)
    → All (λ label. num ≢ label) (labels l)
    → switch l num a ≡ raise_unimplemented
unfolding switch
switch_default [] num a h = refl
switch_default ((label, body) ∷ l) num a (h, rest) =
    let other : (num == label) ≡ false = ground arith in rw other (switch_default l num a rest)

-- Labels below a bound, tested.
abbrev below : ℕ → List ℕ → Bool
below n [] = true
below n (x ∷ l) = ltb x n && below n l

below-All : (n num : ℕ) (l : List ℕ) → n ≤ num → below n l ≡ true → All (λ x. num ≢ x) l
below-All n num [] h e = tt
below-All n num (x ∷ l) h e = (ground arith, below-All n num l h (ground arith))

labels_below : (host : Host) → below 400 (labels (syscall_cases host)) ≡ true
unfolding syscall_cases basic_cases file_cases signal_cases time_cases mapping_cases network_cases
    info_cases entry_cases vector_cases control_cases user_cases wide_cases rest_cases
labels_below host = refl

-- A number from 400 on is answered with -ENOSYS, and the call changes nothing.
pub do_syscall_unknown :
    (host : Host) (a : Args) (s : Sys)
    → 400 ≤ a.num
    → do_syscall host a s ≡ (some (neg32 Target.enosys), s)
unfolding do_syscall finish raise_unimplemented
do_syscall_unknown host a s h =
    rw
      (switch_default (syscall_cases host) a.num a
        (below-All 400 a.num (labels (syscall_cases host)) h (labels_below host)))
      refl
