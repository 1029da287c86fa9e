-- ===== src/Syscall/Select.antt =====
-- The call _newselect of `do_syscall` in proj/sparc-linux/syscall.c without a timeout.
mod Steps
pub mod Whole
use mathlib.Core.Path.{subst}
use sparcy.Base.{
  ℕ, ◌^◌, ◌<◌, ◌≡◌, ◌≢◌, refl, ap, sym, ◌∙◌, true, false, ◌==◌, if◌then◌else◌, Option, none, some,
  List, ◌∷◌, ◌++◌, neg32,
}
use sparcy.Nr
use sparcy.Memory.{Memory}
use sparcy.Guest.{
  Host, HostFn, HostCall, Reply, Sys, Flow, Target, M, next, bind_flow, ◌>>=◌, ◌>>◌, pure,
  host_call, get_errno, gets, is_error, g2h,
}
use sparcy.Guest.Valid.{seq_lem}
use sparcy.Convert.Time.{Timeval}
use sparcy.Convert.FdSet.{
  FdSet, set_at, pointer_fields, timeval_fields, copy_from_user_fdset_ptr,
  copy_from_user_timeval_ptr, copy_to_user_fdset, copy_back, do_select,
}
use sparcy.Convert.FdSet.Digits.{in_set}
use sparcy.Convert.FdSet.Copies.{
  IsSetAddress, IsAsked, copy_from_user_fdset_ptr-IsAsked, put_set, put_set_lem, put_back,
  put_set-in_set, put_set_other, AreApart,
}
use sparcy.Syscall.Basic.{basic_cases}
use sparcy.Syscall.Files.{file_cases}
use sparcy.Syscall.Signals.{signal_cases}
use sparcy.Syscall.Times.{time_cases}
use sparcy.Syscall.Mapping.{mapping_cases}
use sparcy.Syscall.Network.{network_cases}
use sparcy.Syscall.Info.{info_cases}
use sparcy.Syscall.Entries.{entry_cases}
use sparcy.Syscall.Dispatch.{Has, Has_at, do_syscall-Has}
use sparcy.Syscall.Errors.{Answers, Reports, reports_error, reports_value, sys-Reports}

-- The host's call for the sets of descriptors to be read, written, and in an exceptional state.
abbrev pub select_call : ℕ → Option FdSet → Option FdSet → Option FdSet → HostCall
select_call n rfds wfds efds = record {
  function = HostFn.select;
  args =
      n
      ∷ (pointer_fields rfds
          ++ (pointer_fields wfds ++ (pointer_fields efds ++ timeval_fields none)));
}

-- The guest finds at `addr`, unless it is 0, the host's set of `n` descriptors from `offset` on.
abbrev pub IsBack : ℕ → Target → Memory → List ℕ → ℕ → ℕ → Type 0
IsBack n t m out addr offset =
    addr ≢ 0 → (i : ℕ) → i < n → in_set m (g2h t addr) i ≡ set_at out offset i

-- What the guest sees of the host's answer: its error, and its sets as it left them; or the value of the
-- success and the host's sets.
pub data Selected (n r w e : ℕ) (t : Target) (reply : Reply) (ret : ℕ) (m : Memory) : Type 0 where
  select_failed :
      (err : ℕ)
      → reply.error ≡ some err
      → ret ≡ neg32 err
      → is_error ret ≡ true
      → m ≡ reply.memory
      → Selected n r w e t reply ret m
  selected :
      ret ≡ reply.result
      → is_error ret ≡ false
      → IsBack n t m reply.out r 0
      → IsBack n t m reply.out w 1024
      → IsBack n t m reply.out e 2048
      → Selected n r w e t reply ret m

-- The call has ended, after one call of the host with the guest's sets.
pub record SelectEnds (host : Host) (n r w e : ℕ) (s : Sys) (ended : Option ℕ × Sys) : Type 0 where
  pub rfds : Option FdSet
  pub wfds : Option FdSet
  pub efds : Option FdSet
  pub asks_read : IsAsked s.memory s.target n r rfds
  pub asks_write : IsAsked s.memory s.target n w wfds
  pub asks_except : IsAsked s.memory s.target n e efds
  pub ret : ℕ
  pub value : ended.0 ≡ some ret
  pub trace : ended.1.trace ≡ select_call n rfds wfds efds ∷ s.trace
  pub target : ended.1.target ≡ s.target
  pub result :
      Selected n r w e s.target
        (host s.trace s.memory (select_call n rfds wfds efds))
        ret
        ended.1.memory

-- The sets' addresses: 0, or not NULL on the host; and the sets do not share bytes.
pub record AreSets (t : Target) (n r w e : ℕ) : Type 0 where
  pub read_valid : IsSetAddress t r
  pub write_valid : IsSetAddress t w
  pub except_valid : IsSetAddress t e
  pub read_write : AreApart t n r w
  pub read_except : AreApart t n r e
  pub write_except : AreApart t n w e
