-- ===== src/Syscall/Status/Whole.antt =====
-- The calls of `do_syscall` in proj/sparc-linux/syscall.c about a file or a file system as a whole.
use mathlib.Core.Path.{subst}
use sparcy.Base.{ℕ, ◌≡◌, ◌≢◌, refl, ap, sym, ◌∙◌, inl, inr, true, false, Option, List, [], ◌∷◌}
use sparcy.Guest.{
  Host, HostFn, Sys, Flow, M, bind_flow, ◌>>=◌, host_call, gets, get_errno, g2h, lock_user,
}
use sparcy.Guest.Valid.{lock_user_lem, lock_user_null, null_or_not}
use sparcy.Syscall.{Args, Handler, do_syscall, syscall_cases, sys, finish}
use sparcy.Syscall.Basic.{basic_cases}
use sparcy.Syscall.Files.{file_cases}
use sparcy.Syscall.Signals.{signal_cases}
use sparcy.Syscall.Times.{time_cases}
use sparcy.Syscall.Mapping.{mapping_cases, stat_fs, fstat_fs, stat_fs64, fstat_fs64}
use sparcy.Syscall.Network.{network_cases}
use sparcy.Syscall.Info.{info_cases, stat_path, stat_file}
use sparcy.Syscall.Entries.{entry_cases}
use sparcy.Syscall.Vectors.{vector_cases}
use sparcy.Syscall.Control.{control_cases, stat_path64, stat_file64}
use sparcy.Syscall.Dispatch.{Has, Has_at, do_syscall-Has}
use sparcy.Syscall.Errors.{Answers, sys-Reports}
use sparcy.Syscall.Status.{
  StatCall, stat, lstat, fstat, stat64, lstat64, fstat64, statfs, fstatfs, statfs64, fstatfs64,
  described, asked, StatEnds, stat_ends, no_path, Stores,
}
use sparcy.Syscall.Status.Stored.{fill_of, fill_of-Stores}

module _ (host : Host) where
  -- `get_errno(f(args))`, and then the structure.
  abbrev then_fill : (ℕ → List ℕ → ℕ → M ℕ) → HostFn → List ℕ → ℕ → M ℕ
  then_fill fill f args addr = do
    r ← host_call host f args
    ret ← get_errno r.result
    fill addr r.out ret

  then_fill-StatEnds :
      (c : StatCall) (a : Args) (s : Sys)
      → let d = described c in
        let r = host s.trace s.memory (asked d a s) in
        (d.by_path ≡ true → g2h s.target a.arg1 ≢ 0)
        → Answers r
        → StatEnds d
            (finish (then_fill (fill_of c) d.function (asked d a s).args (d.address a) s))
            a
            s
            r
  unfolding ◌>>=◌ host_call get_errno gets sys finish Stores
  then_fill-StatEnds c a s path answers =
      let d = described c in
      let args = (asked d a s).args in
      let r = host s.trace s.memory (asked d a s) in
      let s' = (host_call host d.function args s).1 in
      let fill = fill_of c (d.address a) r.out in
      let (ret, value, reports, same, _) = sys-Reports host d.function args s answers in
      let (ret', m, ends, status) = fill_of-Stores c (d.address a) r ret s' same reports in
      let whole = ap (λ (flow : Flow ℕ). finish (bind_flow flow fill s')) value ∙ ends in
      subst (λ (ended : Option ℕ × Sys). StatEnds d ended a s r) (sym whole)
        (stat_ends path ret' refl refl refl status)

  -- The statements at the label.
  abbrev body : StatCall → Handler
  body stat = stat_path host HostFn.stat
  body lstat = stat_path host HostFn.lstat
  body fstat = stat_file host
  body stat64 = stat_path64 host HostFn.stat
  body lstat64 = stat_path64 host HostFn.lstat
  body fstat64 = stat_file64 host
  body statfs = stat_fs host
  body fstatfs = fstat_fs host
  body statfs64 = stat_fs64 host
  body fstatfs64 = fstat_fs64 host

  by_a_path :
      (c : StatCall) (a : Args) (s : Sys)
      → let d = described c in
        let r = host s.trace s.memory (asked d a s) in
        let rest : ℕ → M ℕ = λ p. then_fill (fill_of c) d.function (p ∷ []) (d.address a) in
        d.by_path ≡ true → Answers r → StatEnds d (finish ((lock_user a.arg1 >>= rest) s)) a s r
  unfolding ◌>>=◌ finish
  by_a_path c a s by_path answers =
      let d = described c in
      let r = host s.trace s.memory (asked d a s) in
      let rest : ℕ → M ℕ = λ p. then_fill (fill_of c) d.function (p ∷ []) (d.address a) in
      let own : (asked d a s).args ≡ g2h s.target a.arg1 ∷ [] = rw by_path refl in
      elim (null_or_not (g2h s.target a.arg1)) [
        | inl p ↦ no_path by_path p (
            ap (λ (run : Flow ℕ × Sys). finish (bind_flow run.0 rest run.1))
              (lock_user_null a.arg1 s p))
        | inr p ↦
            subst (λ (run : Flow ℕ × Sys). StatEnds d (finish (bind_flow run.0 rest run.1)) a s r)
              (sym (lock_user_lem a.arg1 s p))
              (subst
                (λ (args : List ℕ).
                  StatEnds d (finish (then_fill (fill_of c) d.function args (d.address a) s)) a s r)
                own (then_fill-StatEnds c a s (λ _. p) answers))
      ]

  by_a_number :
      (c : StatCall) (a : Args) (s : Sys)
      → let d = described c in
        let r = host s.trace s.memory (asked d a s) in
        d.by_path ≡ false
        → Answers r
        → StatEnds d
            (finish (then_fill (fill_of c) d.function (asked d a s).args (d.address a) s))
            a
            s
            r
  by_a_number c a s number answers =
      then_fill-StatEnds c a s (λ (by_path : (described c).by_path ≡ true). absurd cc) answers

  body-StatEnds :
      (c : StatCall) (a : Args) (s : Sys)
      → let d = described c in
        let r = host s.trace s.memory (asked d a s) in
        Answers r → StatEnds d (finish (body c a s)) a s r
  unfolding stat_path stat_file stat_path64 stat_file64 stat_fs fstat_fs stat_fs64 fstat_fs64
  body-StatEnds stat a s answers = by_a_path stat a s refl answers
  body-StatEnds lstat a s answers = by_a_path lstat a s refl answers
  body-StatEnds fstat a s answers = by_a_number fstat a s refl answers
  body-StatEnds stat64 a s answers = by_a_path stat64 a s refl answers
  body-StatEnds lstat64 a s answers = by_a_path lstat64 a s refl answers
  body-StatEnds fstat64 a s answers = by_a_number fstat64 a s refl answers
  body-StatEnds statfs a s answers = by_a_path statfs a s refl answers
  body-StatEnds fstatfs a s answers = by_a_number fstatfs a s refl answers
  body-StatEnds statfs64 a s answers = by_a_path statfs64 a s refl answers
  body-StatEnds fstatfs64 a s answers = by_a_number fstatfs64 a s refl answers

  body-Has : (c : StatCall) → Has ((described c).number, body c) (syscall_cases host)
  unfolding syscall_cases basic_cases file_cases signal_cases time_cases mapping_cases network_cases
      info_cases entry_cases vector_cases control_cases
  body-Has stat = Has_at _ 130 refl
  body-Has lstat = Has_at _ 131 refl
  body-Has fstat = Has_at _ 132 refl
  body-Has stat64 = Has_at _ 191 refl
  body-Has lstat64 = Has_at _ 192 refl
  body-Has fstat64 = Has_at _ 193 refl
  body-Has statfs = Has_at _ 107 refl
  body-Has fstatfs = Has_at _ 108 refl
  body-Has statfs64 = Has_at _ 109 refl
  body-Has fstatfs64 = Has_at _ 110 refl

  -- A guest that asks for a file or a file system, by stat, lstat, fstat, statfs, fstatfs or one of the
  -- five calls that end in 64, of a host whose call fails with an error from 1 to 1199 or succeeds with a
  -- result below 2 ^ 32 - 4096. It finds the host's error in the value returned, or the host's values in
  -- the fields of the structure, cut to the fields' widths. The host is called once, the target's globals
  -- stay, and outside the structure memory is as the host left it. Where the path's address or, after a
  -- success, the structure's is NULL on the host, the guest finds EFAULT, and for the path the host is not
  -- called.
  pub do_syscall-StatEnds :
      (c : StatCall) (a : Args) (s : Sys)
      → let d = described c in
        let r = host s.trace s.memory (asked d a s) in
        a.num ≡ d.number → Answers r → StatEnds d (do_syscall host a s) a s r
  do_syscall-StatEnds c a s e answers =
      let d = described c in
      subst (λ ended. StatEnds d ended a s (host s.trace s.memory (asked d a s)))
        (sym (do_syscall-Has host (d.number, body c) a s (body-Has c) e))
        (body-StatEnds c a s answers)
