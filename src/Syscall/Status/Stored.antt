-- ===== src/Syscall/Status/Stored.antt =====
-- The statements of `do_syscall` in proj/sparc-linux/syscall.c that store the structures of stat and statfs.
use sparcy.Base.{ℕ, ◌≡◌, ◌≢◌, refl, ap, sym, ◌∙◌, inl, inr, neg32, if◌then◌else◌, List, Bool}
use sparcy.Memory.{Memory}
use sparcy.Guest.{HostFn, Sys, M, next, efault, ◌>>=◌, ◌>>◌, pure, is_error, g2h}
use sparcy.Convert.Stat.{
  host_to_target_stat, host_to_target_stat64, host_to_target_statfs, host_to_target_statfs64,
}
use sparcy.Convert.Stat.Fields.{Fills, host_to_target_stat_null}
use sparcy.Convert.Stat.ReadBack.{Gives, host_to_target_stat-Gives}
use sparcy.Errno.Target
use sparcy.Guest.Valid.{null_or_not, seq_lem, seq_efault}
use sparcy.Syscall.Defs.{finish}
use sparcy.Syscall.Info.{do_stat}
use sparcy.Syscall.Control.{do_stat64}
use sparcy.Syscall.Mapping.{convert_statfs, convert_statfs64}
use sparcy.Syscall.Errors.{reports_error, reports_value}
use sparcy.Syscall.Status.{
  StatCall, stat, lstat, fstat, stat64, lstat64, fstat64, statfs, fstatfs, statfs64, fstatfs64,
  file, file64, file_system, file_system64, Described, described, failed, no_structure, filled,
  Stores,
}

-- The structure is stored where the call has succeeded.
unless_failed : (ℕ → ℕ) → (ℕ → List ℕ → M (Unit {0})) → ℕ → List ℕ → ℕ → M ℕ
unless_failed value statement addr out ret =
    if is_error ret then pure ret else (statement addr out >> pure (value ret))

unless_failed-Stores :
    (d : Described) (statement : ℕ → List ℕ → M (Unit {0})) (fill : ℕ → List ℕ → ℕ → M ℕ)
    → ((addr : ℕ) (out : List ℕ) (ret : ℕ) (s : Sys)
        → fill addr out ret s ≡ unless_failed d.value statement addr out ret s)
    → ((addr : ℕ) (out : List ℕ) (s : Sys)
        → g2h s.target addr ≢ 0
        → Gives (statement addr out) s (g2h s.target addr) d.structure d.slots out)
    → ((addr : ℕ) (out : List ℕ) (s : Sys)
        → g2h s.target addr ≡ 0
        → statement addr out s ≡ (efault, s))
    → Stores d fill
unfolding Stores pure Fills finish unless_failed
unless_failed-Stores d statement fill code gives null addr r ret s same
      (reports_error e set value error) =
    let run : unless_failed d.value statement addr r.out ret s ≡ (next ret, s) = rw error refl in
    (ret, s.memory, ap finish (code addr r.out ret s ∙ run), failed e set value error same)
unless_failed-Stores d statement fill code gives null addr r ret s same
      (reports_value value plain) =
    let k : Unit {0} → M ℕ = λ _. pure (d.value ret) in
    let success = ap is_error (sym value) ∙ plain in
    let run : unless_failed d.value statement addr r.out ret s ≡ (statement addr r.out >>= k) s =
      rw plain refl in
    let start = code addr r.out ret s ∙ run in
    elim (null_or_not (g2h s.target addr)) [
      | inl p ↦ (
        neg32 Target.efault,
        s.memory,
        ap finish (start ∙ seq_efault (statement addr r.out) k (null addr r.out s p)),
        no_structure p success refl same,
      )
      | inr p ↦
          let g = gives addr r.out s p in
          (
            d.value ret,
            g.after,
            ap finish (start ∙ seq_lem (statement addr r.out) k g.fills),
            filled p success (ap d.value value) g.reads
                λ q h. g.outside q h ∙ ap (λ (m : Memory). m q) same,
          )
    ]

-- What the statements at the call's label do with the host's answer.
abbrev pub fill_of : StatCall → ℕ → List ℕ → ℕ → M ℕ
fill_of stat = do_stat
fill_of lstat = do_stat
fill_of fstat = do_stat
fill_of stat64 = do_stat64
fill_of lstat64 = do_stat64
fill_of fstat64 = do_stat64
fill_of statfs = convert_statfs
fill_of fstatfs = convert_statfs
fill_of statfs64 = convert_statfs64
fill_of fstatfs64 = convert_statfs64

do_stat-Stores : (n : ℕ) (f : HostFn) (by_path : Bool) → Stores (file n f by_path) do_stat
unfolding do_stat unless_failed
do_stat-Stores n f by_path =
    unless_failed-Stores (file n f by_path) host_to_target_stat do_stat (λ addr out ret s. refl)
      (λ addr out s valid. (host_to_target_stat-Gives addr out s valid).0)
      (λ addr out s null. (host_to_target_stat_null addr out s null).0)

do_stat64-Stores : (n : ℕ) (f : HostFn) (by_path : Bool) → Stores (file64 n f by_path) do_stat64
unfolding do_stat64 unless_failed
do_stat64-Stores n f by_path =
    unless_failed-Stores (file64 n f by_path) host_to_target_stat64 do_stat64
      (λ addr out ret s. refl) (λ addr out s valid. (host_to_target_stat-Gives addr out s valid).1)
      (λ addr out s null. (host_to_target_stat_null addr out s null).1)

convert_statfs-Stores :
    (n : ℕ) (f : HostFn) (by_path : Bool) → Stores (file_system n f by_path) convert_statfs
unfolding convert_statfs unless_failed
convert_statfs-Stores n f by_path =
    unless_failed-Stores (file_system n f by_path) host_to_target_statfs convert_statfs
      (λ addr out ret s. refl) (λ addr out s valid. (host_to_target_stat-Gives addr out s valid).2)
      (λ addr out s null. (host_to_target_stat_null addr out s null).2)

convert_statfs64-Stores :
    (n : ℕ) (f : HostFn) (by_path : Bool) → Stores (file_system64 n f by_path) convert_statfs64
unfolding convert_statfs64 unless_failed
convert_statfs64-Stores n f by_path =
    unless_failed-Stores (file_system64 n f by_path) host_to_target_statfs64 convert_statfs64
      (λ addr out ret s. refl) (λ addr out s valid. (host_to_target_stat-Gives addr out s valid).3)
      (λ addr out s null. (host_to_target_stat_null addr out s null).3)

pub fill_of-Stores : (c : StatCall) → Stores (described c) (fill_of c)
fill_of-Stores stat = do_stat-Stores _ _ _
fill_of-Stores lstat = do_stat-Stores _ _ _
fill_of-Stores fstat = do_stat-Stores _ _ _
fill_of-Stores stat64 = do_stat64-Stores _ _ _
fill_of-Stores lstat64 = do_stat64-Stores _ _ _
fill_of-Stores fstat64 = do_stat64-Stores _ _ _
fill_of-Stores statfs = convert_statfs-Stores _ _ _
fill_of-Stores fstatfs = convert_statfs-Stores _ _ _
fill_of-Stores statfs64 = convert_statfs64-Stores _ _ _
fill_of-Stores fstatfs64 = convert_statfs64-Stores _ _ _
