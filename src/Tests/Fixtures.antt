-- ===== src/Tests/Fixtures.antt =====
-- A small guest and a host for the tests of the model of proj/sparc-linux/syscall.c.
use sparcy.Base.{
  ℕ, ◌==◌, if◌then◌else◌, refl, inl, inr, Bool, Bool-cases, true, false, [], ◌∷◌, none,
}
use sparcy.Driver.{MemorySystem}
use sparcy.Driver.Outstanding.{IsMemorySystem}
use sparcy.Guest.{Target, Sys, Host}
use sparcy.Syscall.{Args}

-- 1 MiB of guest memory at host address 0x10000, with a heap that begins at 0x8000.
abbrev pub small_target : Target
small_target = record {
  target_brk = 0x8000;
  target_brk_limit = 0x40000;
  target_cur_mmap_ptr = 0x40000;
  target_mmap_limit = 0x80000;
  target_sp = 0xff000;
  target_exit_called = 0;
  guest_base = 0x10000;
  guest_max_mem = 0x100000;
}

-- Every byte of memory is 7.
abbrev pub small_sys : Sys
small_sys = record { target = small_target; errno = 0; memory = λ _. 7; trace = [] }

-- Every call succeeds with 0 and writes nothing.
abbrev pub quiet_host : Host
quiet_host trace m call = record { result = 0; error = none; memory = m; out = [] }

abbrev pub call_with : ℕ → ℕ → ℕ → Args
call_with num arg1 arg2 = record {
  num = num;
  arg1 = arg1;
  arg2 = arg2;
  arg3 = 3;
  arg4 = 0x22;
  arg5 = 0xffff_ffff;
  arg6 = 0;
  arg7 = 0;
  arg8 = 0;
  ret = 0xdead_beef;
}

-- A DRAM simulator that takes every transaction, and ends only reads of address 0x40.
abbrev pub near_dram : MemorySystem (ℕ → Bool)
near_dram = record {
  will_accept_transaction = λ d. true;
  add_transaction = λ d w a. (true, if w then d else λ b. if b == a then true else d b);
  update = λ d. if d 0x40 then (0x40 ∷ [], λ a. if a == 0x40 then false else d a) else ([], d);
}

abbrev pub is_pending : (ℕ → Bool) → ℕ → Bool
is_pending d a = d a

pub near_dram-IsMemorySystem : IsMemorySystem near_dram is_pending
near_dram-IsMemorySystem = record {
  drains =
      λ d. elim (Bool-cases (d 0x40)) [ inl e ↦ rw e (e, λ a. refl) | inr e ↦ rw e (λ a. refl) ];
  keeps_accepting = λ d _. refl;
  accepts = λ d w a _. refl;
  adds_read = λ d a b. refl;
  adds_write = λ d a b. refl;
}
