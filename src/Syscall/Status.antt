-- ===== src/Syscall/Status.antt =====
-- The calls of `do_syscall` in proj/sparc-linux/syscall.c that give the guest a structure about a file or
-- a file system: stat, lstat, fstat, statfs and fstatfs, and the five that end in 64.
mod Stored
pub mod Whole
use sparcy.Base.{
  ℕ, ◌+◌, ◌≤◌, ◌<◌, ◌≡◌, ◌≢◌, ◌⊎◌, Bool, true, false, if◌then◌else◌, some, Option, List, [], ◌∷◌,
  All, neg32,
}
use sparcy.Nr
use sparcy.Errno.Target
use sparcy.Memory.{Memory}
use sparcy.Guest.{HostFn, HostCall, Reply, Sys, M, is_error, g2h}
use sparcy.Structs.{CType, sizeof}
use sparcy.Structs.Files.{target_stat, target_stat64, target_statfs, target_statfs64}
use sparcy.Structs.Tables.{Slot, Reads}
use sparcy.Convert.Stat.Fields.{stat_slots, stat64_slots, statfs_slots}
use sparcy.Syscall.Defs.{Args, finish}
use sparcy.Syscall.Errors.{Reports}

pub data StatCall : Type 0 where
  stat lstat fstat stat64 lstat64 fstat64 statfs fstatfs statfs64 fstatfs64 : StatCall

-- A call's number; the host's function, and whether it takes the path at `arg1` or the descriptor `arg1`;
-- where the guest wants the structure, its type and its fields; and the value returned, from that of the host,
-- on success.
pub record Described : Type 0 where
  pub number : ℕ
  pub function : HostFn
  pub by_path : Bool
  pub address : Args → ℕ
  pub structure : CType
  pub slots : List Slot
  pub value : ℕ → ℕ

abbrev pub file : ℕ → HostFn → Bool → Described
file n f by_path = record {
  number = n;
  function = f;
  by_path = by_path;
  address = λ a. a.arg2;
  structure = target_stat;
  slots = stat_slots;
  value = λ ret. ret;
}

abbrev pub file64 : ℕ → HostFn → Bool → Described
file64 n f by_path = record {
  number = n;
  function = f;
  by_path = by_path;
  address = λ a. a.arg2;
  structure = target_stat64;
  slots = stat64_slots;
  value = λ ret. 0;
}

abbrev pub file_system : ℕ → HostFn → Bool → Described
file_system n f by_path = record {
  number = n;
  function = f;
  by_path = by_path;
  address = λ a. a.arg2;
  structure = target_statfs;
  slots = statfs_slots;
  value = λ ret. ret;
}

abbrev pub file_system64 : ℕ → HostFn → Bool → Described
file_system64 n f by_path = record {
  number = n;
  function = f;
  by_path = by_path;
  address = λ a. a.arg3;
  structure = target_statfs64;
  slots = statfs_slots;
  value = λ ret. ret;
}

abbrev pub described : StatCall → Described
described stat = file Nr.stat HostFn.stat true
described lstat = file Nr.lstat HostFn.lstat true
described fstat = file Nr.fstat HostFn.fstat false
described stat64 = file64 Nr.stat64 HostFn.stat true
described lstat64 = file64 Nr.lstat64 HostFn.lstat true
described fstat64 = file64 Nr.fstat64 HostFn.fstat false
described statfs = file_system Nr.statfs HostFn.statfs true
described fstatfs = file_system Nr.fstatfs HostFn.fstatfs false
described statfs64 = file_system64 Nr.statfs64 HostFn.statfs true
described fstatfs64 = file_system64 Nr.fstatfs64 HostFn.fstatfs false

-- The call of the host: the path's address on the host or the descriptor is its argument.
abbrev pub asked : Described → Args → Sys → HostCall
asked d a s = record {
  function = d.function;
  args = (if d.by_path then g2h s.target a.arg1 else a.arg1) ∷ [];
}

-- What the guest sees of the host's answer `r` in the value `ret`: the host's error; EFAULT, where the
-- address `p` for the structure is NULL; or the value of the success, and the fields of the structure at
-- `p`, memory being as the host left it elsewhere.
pub data Status (d : Described) (r : Reply) (p : ℕ) (ret : ℕ) (m : Memory) : Type 0 where
  failed :
      (e : ℕ)
      → r.error ≡ some e
      → ret ≡ neg32 e
      → is_error ret ≡ true
      → m ≡ r.memory
      → Status d r p ret m
  no_structure :
      p ≡ 0
      → is_error r.result ≡ false
      → ret ≡ neg32 Target.efault
      → m ≡ r.memory
      → Status d r p ret m
  filled :
      p ≢ 0
      → is_error r.result ≡ false
      → ret ≡ d.value r.result
      → All (Reads m p d.structure r.out) d.slots
      → ((q : ℕ) → (q < p) ⊎ (p + sizeof d.structure ≤ q) → m q ≡ r.memory q)
      → Status d r p ret m

-- How a call ends: with EFAULT and nothing done, where it takes a path and the address of it is NULL; or
-- with `ret`, after one call of the host, with the target's globals as they were.
pub data StatEnds (d : Described) (ended : Option ℕ × Sys) (a : Args) (s : Sys) (r : Reply)
    : Type 0 where
  no_path :
      d.by_path ≡ true
      → g2h s.target a.arg1 ≡ 0
      → ended ≡ (some (neg32 Target.efault), s)
      → StatEnds d ended a s r
  stat_ends :
      (d.by_path ≡ true → g2h s.target a.arg1 ≢ 0)
      → (ret : ℕ) → ended.0 ≡ some ret
      → ended.1.trace ≡ asked d a s ∷ s.trace
      → ended.1.target ≡ s.target
      → Status d r (g2h s.target (d.address a)) ret ended.1.memory
      → StatEnds d ended a s r

-- The statements after `get_errno`, for every answer of the host.
pub Stores : Described → (ℕ → List ℕ → ℕ → M ℕ) → Type 0
Stores d fill =
    (addr : ℕ) (r : Reply) (ret : ℕ) (s : Sys)
    → s.memory ≡ r.memory
    → Reports r ret
    → (ret' : ℕ) × (m : Memory) × (finish (fill addr r.out ret s)
        ≡ (some ret', record s { memory = m }))
      × Status d r (g2h s.target addr) ret' m
