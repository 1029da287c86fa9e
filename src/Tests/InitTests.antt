-- ===== src/Tests/InitTests.antt =====
-- Tests of `sl_init` and `init_stack` of proj/sparc-linux/syscall.c.
use sparcy.Base.{[], ◌∷◌, ◌≡◌, refl, ◌==◌, if◌then◌else◌, ◌≤◌, ◌/◌, inl, arith}
use sparcy.Memory.{Memory}
use sparcy.Layout.{IsLaidOut}
use sparcy.Init.{Copied, started, copy_string, sl_init, init_target}
use sparcy.Init.Arguments.{IsArgument, CopiesString, copy_string-CopiesString}
use sparcy.Init.Begins.{HasRoom, HoldsArguments, sl_init-IsLaidOut}
use sparcy.Syscall.{do_syscall}
use sparcy.Syscall.Reach.{Reaches, start, call, Reaches-bounds}
use sparcy.Nr
use sparcy.Tests.Fixtures.{small_target, small_sys, quiet_host, call_with}

-- A string of two bytes at 0x5000, and one of 15 at 0x6000.
abbrev host_memory : Memory
host_memory q = if q == 0x5002 then 0 else if q == 0x600f then 0 else 7

abbrev at_top : Copied
at_top = record { memory = host_memory; guest_ptr = 0x100000; new_argv = [] }

short-IsArgument : IsArgument 20 small_target host_memory 0x5000 3
short-IsArgument = record {
  not_null = omega arith;
  not_empty = omega arith;
  in_fuel = omega arith;
  ends = refl;
  no_earlier = λ i lt. ground arith;
  apart = inl (omega arith);
}

small_HasRoom : HasRoom 20 small_target ((0x5000, 3) ∷ []) host_memory
small_HasRoom = record {
  host_fits = omega arith;
  below_4g = omega arith;
  whole_slots = refl;
  frame_fits = omega arith;
  arguments = ((short-IsArgument, omega arith), tt);
}

copy_string-CopiesString_example :
    CopiesString small_target 0x5000 3 at_top (copy_string small_target 0x5000 3 at_top)
copy_string-CopiesString_example =
    copy_string-CopiesString small_target 0x5000 3 at_top (omega arith) (omega arith) (omega arith)
      refl (inl (omega arith))

sl_init-IsLaidOut_example :
    (m' : Memory) × (sl_init 20 0x8000 0xff000 0x10000 0x100000 (0x5000 ∷ []) host_memory
      ≡ started (init_target 0x8000 0xff000 0x10000 0x100000, m'))
    × IsLaidOut 0x8000 (init_target 0x8000 0xff000 0x10000 0x100000)
    × HoldsArguments (init_target 0x8000 0xff000 0x10000 0x100000) ((0x5000, 3) ∷ []) host_memory m'
unfolding init_target
sl_init-IsLaidOut_example =
    sl_init-IsLaidOut 20 0x8000 0xff000 0x10000 0x100000 ((0x5000, 3) ∷ []) host_memory
      (omega arith) small_HasRoom

-- A call of brk after the start.
grown : Reaches quiet_host small_sys (do_syscall quiet_host (call_with Nr.brk 0x8010 0) small_sys).1
grown = call (call_with Nr.brk 0x8010 0) (omega arith) start

Reaches-bounds_example :
    let t = (do_syscall quiet_host (call_with Nr.brk 0x8010 0) small_sys).1.target in
    (0x8000 ≤ t.target_brk)
    × (t.target_brk ≤ 0x100000 / 4)
    × (0x100000 / 4 ≤ t.target_cur_mmap_ptr)
    × (t.target_cur_mmap_ptr ≤ 0x100000 / 2)
unfolding init_target
Reaches-bounds_example =
    Reaches-bounds quiet_host 0x8000 0xff000 0x10000 0x100000 small_sys _ (omega arith)
      (omega arith) (omega arith) refl grown
