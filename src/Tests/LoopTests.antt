-- ===== src/Tests/LoopTests.antt =====
-- Tests of the loop of proj/main.cpp.
use sparcy.Tests.BootTests.{
  new_system, small_file, small_file-IsProgram, new_system-HasRoom, quiet_host_leaves,
}
use sparcy.Driver.Whole.{returned, main_program}
use sparcy.Driver.Returns.{main_program-returns}
use mathlib.Core.Path.{subst}
use sparcy.Base.{
  true, ap, inl, ◌%◌, ◌∷◌, ℕ, ◌+◌, ◌-◌, ◌/◌, ◌≤◌, ◌≡◌, refl, Bool, false, none, Option, [], arith,
  ltb,
}
use sparcy.Init.{init_target}
use sparcy.Tests.Fixtures.{
  small_target, near_dram, is_pending, near_dram-IsMemorySystem, quiet_host, call_with,
}
use sparcy.Driver.Main.{
  Circuit, Machine, finished, run_loop, before_tick, eval, quarter_later, flip_clk, set_reset,
  Outcome,
}
use sparcy.Syscall.{do_syscall}
use sparcy.Syscall.Reach.{call, start}
use sparcy.Nr
use sparcy.Driver.Reach.{OnlyCalls, run_loop-bounds}
use sparcy.Driver.Ends.{Behaves, tick_once_ran, Stops, last_time}

-- A circuit that asks for a read at each evaluation, eight bytes further each time, from the address that
-- is its hidden state on.
abbrev reading_circuit : Circuit ℕ
reading_circuit = record {
  eval =
      λ v top sys. (v + 8, record top { bus_reqcyc = true; bus_req = v; bus_reqtag = 0x1105 }, sys);
  got_finish = λ v. ltb 800 v;
}

abbrev no_key : ℕ → Option ℕ
no_key time = none

-- The address is one of a word.
abbrev AtWord : Machine (ℕ → Bool) ℕ → Type 0
AtWord m = m.hidden % 8 ≡ 0

next_word : (v : ℕ) → v % 8 ≡ 0 → (v + 8 + 8) % 8 ≡ 0
next_word v h = omega arith

reading_circuit-Behaves : Behaves reading_circuit near_dram no_key is_pending AtWord
unfolding before_tick eval quarter_later flip_clk
reading_circuit-Behaves = record {
  law = near_dram-IsMemorySystem;
  keeps = λ m at_word. record {
    accepted = λ _. refl;
    aligned = λ _ _. at_word;
    known = λ _ _. inl refl;
    inside = λ _ _ devices. absurd (omega arith);
  };
  again = λ m m' at_word ran.
      let (s, _, same) = tick_once_ran reading_circuit near_dram no_key m m' ran in
      subst AtWord same (next_word m.hidden at_word);
}

-- A thousand picoseconds before the end.
abbrev late_machine : Machine (ℕ → Bool) (ℕ × ℕ)
late_machine = record {
  system = new_system;
  hidden = (0x8010, 0);
  target = small_target;
  errno = 0;
  trace = [];
  main_time = last_time - 1000;
}

main_program-returns_example :
    (m' : Machine (ℕ → Bool) ℕ) × (main_program reading_circuit near_dram no_key 20 4194304000
        quiet_host 0 0
        (λ _. small_file)
        (0x5000 ∷ [])
        0
        new_system
      ≡ returned m')
    × Stops reading_circuit near_dram no_key m'
unfolding set_reset
main_program-returns_example =
    main_program-returns reading_circuit near_dram no_key is_pending AtWord 20 4194304000 quiet_host
      0 0 (λ _. small_file) 0x5000 3 [] 0 new_system (omega arith) small_file-IsProgram
      (omega arith) new_system-HasRoom (λ a. refl) quiet_host_leaves reading_circuit-Behaves
      (λ m _ at_first _ _ _. ap (λ v. v % 8) at_first) (λ m at_word. at_word) (omega arith)

-- A circuit that asks for the heap's end to be at its hidden address at each evaluation, and counts these.
abbrev brk_circuit : Circuit (ℕ × ℕ)
brk_circuit = record {
  eval = λ (b, n) top sys. (
    (b, n + 1),
    record top { bus_reqcyc = false },
    (do_syscall quiet_host (call_with Nr.brk b 0) sys).1,
  );
  got_finish = λ (b, n). ltb 0 n;
}

-- The address is not beyond the memory.
abbrev IsSmall : Machine (ℕ → Bool) (ℕ × ℕ) → Type 0
IsSmall m = m.hidden.0 ≤ 0x100000

brk_circuit_calls : OnlyCalls brk_circuit near_dram no_key quiet_host IsSmall
unfolding before_tick eval quarter_later flip_clk
brk_circuit_calls = record {
  first_half = λ m small. call (call_with Nr.brk m.hidden.0 0) (omega arith) start;
  second_half = λ m s small _. call (call_with Nr.brk m.hidden.0 0) (omega arith) start;
  stays = λ m m' small ran.
      let (s, _, same) = tick_once_ran brk_circuit near_dram no_key m m' ran in
      subst IsSmall same small;
}

-- It finishes after one tick.
one_tick_later : Machine (ℕ → Bool) (ℕ × ℕ)
one_tick_later = outcome_of (run_loop brk_circuit near_dram no_key 1 late_machine)
  where
    outcome_of : Outcome (Machine (ℕ → Bool) (ℕ × ℕ)) → Machine (ℕ → Bool) (ℕ × ℕ)
    outcome_of (finished m) = m
    outcome_of _ = late_machine

one_tick_later_lem : run_loop brk_circuit near_dram no_key 1 late_machine ≡ finished one_tick_later
unfolding one_tick_later run_loop
one_tick_later_lem = refl

run_loop-bounds_example :
    let t = one_tick_later.target in
    (0x8000 ≤ t.target_brk)
    × (t.target_brk ≤ 0x100000 / 4)
    × (0x100000 / 4 ≤ t.target_cur_mmap_ptr)
    × (t.target_cur_mmap_ptr ≤ 0x100000 / 2)
unfolding init_target
run_loop-bounds_example =
    run_loop-bounds brk_circuit near_dram no_key quiet_host 1 0x8000 0xff000 0x10000 0x100000
      IsSmall late_machine one_tick_later (omega arith) (omega arith) (omega arith)
      brk_circuit_calls (omega arith) refl one_tick_later_lem
