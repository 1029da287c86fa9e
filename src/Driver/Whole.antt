-- ===== src/Driver/Whole.antt =====
-- `main` of proj/main.cpp from its first statement to its last.
use sparcy.Base.{ℕ, none, some, Option, List, [], length}
use sparcy.Guest.{Host, Sys, Target}
use sparcy.Memory.{Memory}
use sparcy.Init.{started, exited, unterminated}
use sparcy.Driver.{MemorySystem, System}
use sparcy.Driver.Elf.{ElfFile, Load, loaded, asserted}
use sparcy.Driver.Elf
use sparcy.Driver.Start.{ram_elf, construct, start_emulation, print_arguments}
use sparcy.Driver.Main.{Circuit, Machine, finished, aborted, out_of_fuel, reset_ticks, run_loop}

-- `main` returns 0, the process ends by `exit(-1)`, an assertion fails, or the fuel does not do.
pub data Ended (A : Type 0) : Type 0 where
  returned : A → Ended A
  exit_failure assertion_failed no_end : Ended A

module _ {D V : Type 0} (circuit : Circuit V) (dram : MemorySystem D) (getch : ℕ → Option ℕ) where
  -- From the ticks in reset on.
  unfoldable pub simulate : ℕ → Machine D V → Ended (Machine D V)
  unfolding reset_ticks run_loop
  simulate loop_fuel m = elim (reset_ticks circuit dram getch m) [
    | none ↦ assertion_failed
    | some m' ↦ elim (run_loop circuit dram getch loop_fuel m') [
      | finished m'' ↦ returned m''
      | aborted ↦ assertion_failed
      | out_of_fuel ↦ no_end
    ]
  ]

  module _ (fuel loop_fuel : ℕ) (host : Host) (ret errno : ℕ) where
    -- The machine when the arguments have been printed; `v` is the circuit's first state.
    abbrev pub machine_of : V → System D → Sys → Machine D V
    machine_of v s sys = record {
      system = record s { memory = sys.memory };
      hidden = v;
      target = sys.target;
      errno = sys.errno;
      trace = sys.trace;
      main_time = 0;
    }

    unfoldable pub print_and_simulate :
        V → System D → List ℕ → Target × Memory → Ended (Machine D V)
    unfolding print_arguments simulate
    print_and_simulate v s argv started_emulation =
        elim (print_arguments fuel host ret 1 (length argv) (record {
          target = started_emulation.0;
          errno = errno;
          memory = started_emulation.1;
          trace = [];
        })) [
          | started sys ↦ simulate loop_fuel (machine_of v s sys)
          | exited ↦ exit_failure
          | unterminated ↦ no_end
        ]

    -- `argv` holds `argv[1]` and the arguments after it.
    unfoldable pub main_program : (ℕ → ElfFile) → List ℕ → V → System D → Ended (Machine D V)
    unfolding ram_elf construct start_emulation print_and_simulate
    main_program files argv v s0 = elim (construct (ram_elf files argv) s0) [
      | asserted ↦ assertion_failed
      | sparcy.Driver.Elf.exited ↦ exit_failure
      | loaded s ↦ elim (start_emulation fuel s.max_elf_addr s.ram argv s.memory) [
        | started r ↦ print_and_simulate v s argv r
        | exited ↦ exit_failure
        | unterminated ↦ no_end
      ]
    ]
