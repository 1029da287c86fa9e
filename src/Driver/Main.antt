-- ===== src/Driver/Main.antt =====
-- The loop of `main` in proj/main.cpp that runs the circuit, whose evaluation is a parameter.
use sparcy.Base.{
  ℕ, zero, suc, ◌+◌, ◌-◌, ◌*◌, ◌/◌, ◌%◌, ◌^◌, Bool, true, false, not, ◌&&◌, Option, none, some,
  List, ◌==◌, ltb, if◌then◌else◌, u64,
}
use sparcy.Guest.{Target, Sys, Host, HostCall}
use sparcy.Syscall.{do_syscall}
use sparcy.Syscall.Exit.{sl_exit_called}
use sparcy.Driver.{Vtop, MemorySystem, System, ps_per_clock, mega, giga}
use sparcy.Driver.Bus.{tick, then_run}

abbrev pub ram_size : ℕ
ram_size = 1 * giga

abbrev pub init_stack_offset : ℕ
init_stack_offset = 4 * mega

abbrev pub init_stack_pointer : ℕ
init_stack_pointer = ram_size - init_stack_offset

-- `be32tole`, at a uint32_t
unfoldable pub be32tole : ℕ → ℕ
be32tole x =
    x % 256 * 2 ^ 24 + x / 2 ^ 8 % 256 * 2 ^ 16 + x / 2 ^ 16 % 256 * 2 ^ 8 + x / 2 ^ 24 % 256

-- `syscall_cse502` and `sl_syscall`, which pass their arguments on.
unfoldable pub syscall_cse502 : Host → ℕ → ℕ → ℕ → ℕ → ℕ → ℕ → ℕ → ℕ → Sys → Option ℕ × Sys
unfolding do_syscall
syscall_cse502 host g1 o0 o1 o2 o3 o4 o5 ret = do_syscall host (record {
  num = g1;
  arg1 = o0;
  arg2 = o1;
  arg3 = o2;
  arg4 = o3;
  arg5 = o4;
  arg6 = o5;
  arg7 = 0;
  arg8 = 0;
  ret = ret;
})

-- The circuit with its hidden states `V`: one evaluation may change its ports, and calls the emulation
-- through `syscall_cse502`; `$finish` has been run.
pub record Circuit (V : Type 0) : Type 0 where
  pub eval : V → Vtop → Sys → V × Vtop × Sys
  pub got_finish : V → Bool

-- Everything that the loop of `main` works on. The memory is the one of the system.
pub record Machine (D V : Type 0) : Type 0 where
  pub system : System D
  pub hidden : V
  pub target : Target
  pub errno : ℕ
  pub trace : List HostCall
  pub main_time : ℕ

module _ {D V : Type 0} where
  abbrev pub sys_of : Machine D V → Sys
  sys_of m = record {
    target = m.target;
    errno = m.errno;
    memory = m.system.memory;
    trace = m.trace;
  }

  -- `top.eval()`, and a quarter of a clock later
  unfoldable pub eval : Circuit V → Machine D V → Machine D V
  eval circuit m =
      let (v, top, sys) = circuit.eval m.hidden m.system.top (sys_of m) in
      record m {
        hidden = v;
        system = record m.system { top = top; memory = sys.memory };
        target = sys.target;
        errno = sys.errno;
        trace = sys.trace;
      }

  unfoldable pub quarter_later : Machine D V → Machine D V
  quarter_later m = record m { main_time = u64 (m.main_time + ps_per_clock / 4) }

  unfoldable pub flip_clk : Machine D V → Machine D V
  flip_clk m = record m {
    system = record m.system { top = record m.system.top { clk = not m.system.top.clk } };
  }

  unfoldable pub set_reset : Bool → Machine D V → Machine D V
  set_reset b m = record m { system = record m.system { top = record m.system.top { reset = b } } }

-- The loop has ended, an assertion failed, or the fuel was used up.
pub data Outcome (A : Type 0) : Type 0 where
  finished : A → Outcome A
  aborted out_of_fuel : Outcome A

module _ {A B : Type 0} where
  abbrev pub after_tick : Option A → (A → Outcome B) → Outcome B
  after_tick (some a) f = f a
  after_tick none f = aborted

module _ {D V : Type 0} (circuit : Circuit V) (dram : MemorySystem D) (getch : ℕ → Option ℕ) where
  -- The first half of `TICK()`, up to the call of `tick`.
  unfoldable pub before_tick : Machine D V → Machine D V
  unfolding flip_clk eval quarter_later
  before_tick m = quarter_later (eval circuit (flip_clk m))

  -- `TICK()`; the traces that it dumps are left out.
  unfoldable pub tick_once : Machine D V → Option (Machine D V)
  unfolding before_tick tick
  tick_once m =
      let m1 = before_tick m in
      then_run (tick dram m1.main_time (getch m1.main_time) m1.system m1.system.top.clk)
        (λ s. some (quarter_later (eval circuit (record m1 { system = s }))))

  -- The condition of the loop.
  unfoldable pub goes_on : Machine D V → Bool
  unfolding sl_exit_called
  goes_on m =
      ltb (m.main_time / ps_per_clock) (2000 * mega)
      && not (circuit.got_finish m.hidden)
      && sl_exit_called m.target == 0

  unfoldable pub run_loop : ℕ → Machine D V → Outcome (Machine D V)
  unfolding tick_once goes_on
  run_loop zero m = if goes_on m then out_of_fuel else finished m
  run_loop (suc fuel) m =
      if goes_on m then after_tick (tick_once m) (λ m'. run_loop fuel m') else finished m

  -- The ticks in reset.
  unfoldable pub reset_ticks : Machine D V → Option (Machine D V)
  unfolding set_reset tick_once
  reset_ticks m =
      let m0 = set_reset true m in
      let m1 : Machine D V = record m0 {
        system = record m0.system { top = record m0.system.top { clk = false } };
      } in
      then_run (tick_once m1) (λ m2. then_run (tick_once m2) (λ m3.
        then_run (tick_once m3) (λ m4. then_run (tick_once m4) (λ m5. some (set_reset false m5)))))
