-- ===== src/Driver/Returns.antt =====
-- `main` of proj/main.cpp returns.
use sparcy.Base.{
  ℕ, suc, ◌*◌, ◌≤◌, ◌≡◌, ◌≢◌, refl, ◌∙◌, sym, ap, arith, Bool, true, false, Option, some, List, [],
  ◌∷◌, map, length, ◌==◌,
}
use sparcy.Memory.{Memory}
use sparcy.Guest.{Host, Sys, Target}
use sparcy.Init.{started, init_target}
use sparcy.Init.Begins.{HasRoom, length-map_first}
use sparcy.Driver.{MemorySystem, System}
use sparcy.Driver.Bus.{is_outstanding, find_tag}
use sparcy.Driver.Elf.{ElfFile, loaded}
use sparcy.Driver.Start.{ram_elf, construct, start_emulation, print_arguments}
use sparcy.Driver.Main.{Circuit, Machine, reset_ticks, set_reset, ram_size, init_stack_pointer}
use sparcy.Driver.Outstanding.{Serves}
use sparcy.Driver.Ends.{Behaves, Stops, last_time, one_tick, run_loop-finishes}
use sparcy.Driver.Arguments.{LeavesMemory, print_arguments-written}
use sparcy.Driver.Boot.{IsProgram, start_emulation-construct}
use sparcy.Driver.Whole.{Ended, returned, simulate, print_and_simulate, main_program, machine_of}

module _ {D V : Type 0} (circuit : Circuit V) (dram : MemorySystem D) (getch : ℕ → Option ℕ)
    (pending : D → ℕ → Bool) (J : Machine D V → Type 0) where
  -- The state in which the ticks in reset begin.
  abbrev pub in_reset : Machine D V → Machine D V
  in_reset m =
      let m0 = set_reset true m in
      record m0 { system = record m0.system { top = record m0.system.top { clk = false } } }

  reset_ticks_end :
      (m : Machine D V)
      → Behaves circuit dram getch pending J
      → ((m' : Machine D V) → J m' → J (set_reset false m'))
      → J (in_reset m)
      → Serves pending m.system
      → m.main_time ≡ 0
      → (m' : Machine D V) × (reset_ticks circuit dram getch m ≡ some m')
        × J m'
        × Serves pending m'.system
  unfolding reset_ticks set_reset
  reset_ticks_end m b released j v new =
      let v1 : Serves pending (in_reset m).system = record {
        map_of_tags = v.map_of_tags;
        same_reads = v.same_reads;
        at_most_eight = v.at_most_eight;
      } in
      let tick = one_tick circuit dram getch pending J in
      let (m2, r2, j2, v2, t2) = tick (in_reset m) b j v1 (omega (arith, new)) in
      let (m3, r3, j3, v3, t3) = tick m2 b j2 v2 (omega (arith, new, t2)) in
      let (m4, r4, j4, v4, t4) = tick m3 b j3 v3 (omega (arith, new, t2, t3)) in
      let (m5, r5, j5, v5, t5) = tick m4 b j4 v4 (omega (arith, new, t2, t3, t4)) in
      (
        set_reset false m5,
        rw (r2, r3, r4, r5) refl,
        released m5 j5,
        record {
          map_of_tags = v5.map_of_tags;
          same_reads = v5.same_reads;
          at_most_eight = v5.at_most_eight;
        },
      )

  simulate-returns :
      (loop_fuel : ℕ) (m : Machine D V)
      → Behaves circuit dram getch pending J
      → ((m' : Machine D V) → J m' → J (set_reset false m'))
      → J (in_reset m)
      → Serves pending m.system
      → m.main_time ≡ 0
      → last_time ≤ 250 * loop_fuel
      → (m' : Machine D V) × (simulate circuit dram getch loop_fuel m ≡ returned m')
        × Stops circuit dram getch m'
  unfolding simulate
  simulate-returns loop_fuel m b released j v new long =
      let (m1, ran, j1, v1) = reset_ticks_end m b released j v new in
      let (m2, ran', _, stops) =
        run_loop-finishes circuit dram getch pending J loop_fuel m1 b j1 v1 (omega (arith, long)) in
      (m2, rw (ran, ran') refl, stops)

  module _ (fuel loop_fuel : ℕ) (host : Host) (ret errno : ℕ) where
    main_program_ran :
        (files : ℕ → ElfFile) (arg : ℕ) (argv : List ℕ) (v : V) (s s' : System D)
        (r : Target × Memory) (sys : Sys) (out : Ended (Machine D V))
        → (arg == 0) ≡ false
        → construct (some (files arg)) s ≡ loaded s'
        → start_emulation fuel s'.max_elf_addr s'.ram (arg ∷ argv) s'.memory ≡ started r
        → print_arguments fuel host ret 1
            (length (arg ∷ argv))
            (record { target = r.0; errno = errno; memory = r.1; trace = [] })
          ≡ started sys
        → simulate circuit dram getch loop_fuel
            (machine_of circuit dram getch fuel loop_fuel host ret errno v s' sys)
          ≡ out
        → main_program circuit dram getch fuel loop_fuel host ret errno files (arg ∷ argv) v s ≡ out
    unfolding main_program print_and_simulate ram_elf
    main_program_ran files arg argv v s s' r sys out named e1 e2 e3 e4 =
        let name : ram_elf files (arg ∷ argv) ≡ some (files arg) = rw (ram_elf, named) refl in
        let printed : print_and_simulate circuit dram getch fuel loop_fuel host ret errno v s'
              (arg ∷ argv) r
            ≡ out =
          rw (print_and_simulate, e3) e4 in
        rw (main_program, name, e1, e2) printed

    -- `main` with a program and its arguments. `malloc` gives the memory; the program's parts of the file
    -- end in the first quarter of it; its arguments have room above the stack pointer, and the size of
    -- none, its NUL included, is a multiple of 16; no read is pending when the DRAM simulator is made, and
    -- it ends each read once; the host's write leaves the memory alone; and the circuit keeps the protocol
    -- of the bus in the states `J`, which hold when the reset begins and which the ticks and the end of the
    -- reset keep. With fuel for the strings and for the simulated time `main` returns: no assertion fails,
    -- and the time is over, the circuit has run `$finish`, or the program has exited.
    pub main_program-returns :
        (files : ℕ → ElfFile) (arg len : ℕ) (l : List (ℕ × ℕ)) (v : V) (s : System D)
        → arg ≢ 0
        → IsProgram (files arg)
        → s.ram ≢ 0
        → HasRoom fuel (init_target 0 init_stack_pointer s.ram ram_size) ((arg, len) ∷ l) s.memory
        → ((a : ℕ) → pending s.dramsim a ≡ false)
        → LeavesMemory fuel host ret
        → Behaves circuit dram getch pending J
        → ((m : Machine D V)
            → m.main_time ≡ 0
            → m.hidden ≡ v
            → m.system.dramsim ≡ s.dramsim
            → m.system.rx_count ≡ 0
            → m.system.addr_to_tag ≡ []
            → J (in_reset m))
        → ((m : Machine D V) → J m → J (set_reset false m))
        → last_time ≤ 250 * loop_fuel
        → (m' : Machine D V) × (main_program circuit dram getch fuel loop_fuel host ret errno files
              (arg ∷ map (λ x. x.0) l)
              v
              s
            ≡ returned m')
          × Stops circuit dram getch m'
    unfolding is_outstanding find_tag init_target
    main_program-returns files arg len l v s named p made h none_pending leaves b begins released
          long =
        let args = (arg, len) ∷ l in
        let (s', m', boot) = start_emulation-construct (files arg) fuel s args p made h in
        let t = init_target s'.max_elf_addr init_stack_pointer s'.ram ram_size in
        let sys : Sys = record { target = t; errno = errno; memory = m'; trace = [] } in
        let (sys', ran, memory', target', trace') =
          print_arguments-written fuel host ret args s'.memory sys boot.room refl leaves
            boot.arguments in
        let v1 : Serves pending s' = record {
          map_of_tags = rw boot.idle.no_reads tt;
          same_reads = λ a. rw (boot.idle.no_reads, boot.idle.same_dramsim) (sym (none_pending a));
          at_most_eight = omega (arith, boot.idle.no_beats);
        } in
        let found : (arg == 0) ≡ false = ground (arith, named) in
        let m1 = machine_of circuit dram getch fuel loop_fuel host ret errno v s' sys' in
        let (m2, ran', stops) =
          simulate-returns loop_fuel m1 b released
            (begins m1 refl refl boot.idle.same_dramsim boot.idle.no_beats boot.idle.no_reads)
            (record {
              map_of_tags = v1.map_of_tags;
              same_reads = v1.same_reads;
              at_most_eight = v1.at_most_eight;
            })
            refl long in
        (
          m2,
          main_program_ran files arg (map (λ x. x.0) l) v s s' (t, m') sys' (returned m2) found
              boot.constructed boot.emulation
              (ap (λ n. print_arguments fuel host ret 1 (suc n) sys) (length-map_first l) ∙ ran)
              ran',
          stops,
        )
