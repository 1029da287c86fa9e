-- ===== src/Driver/Start.antt =====
-- The boot in `main` of proj/main.cpp: the constructor of `System` in proj/system.cpp, the start of the
-- emulation, and the arguments printed through it.
use sparcy.Base.{
  ℕ, zero, suc, ◌+◌, ◌*◌, Option, none, some, List, [], ◌∷◌, ◌==◌, if◌then◌else◌, u32,
}
use sparcy.Memory.{Memory, ldl_he_p}
use sparcy.Guest.{Target, Sys, Host}
use sparcy.Init.{Start, started, then_start, string_size, sl_init}
use sparcy.Syscall.{do_syscall}
use sparcy.Driver.{System, giga}
use sparcy.Driver.Elf.{ElfFile, Load, loaded, asserted, then_load, load_elf}
use sparcy.Driver.Main.{ram_size, init_stack_pointer, be32tole}

-- The name of the program, where there is one; `files` is what libelf and the host say of each.
unfoldable pub ram_elf : (ℕ → ElfFile) → List ℕ → Option ElfFile
ram_elf files [] = none
ram_elf files (arg ∷ _) = if arg == 0 then none else some (files arg)

module _ {D : Type 0} where
  -- The constructor, where `s` holds what `malloc` and the DRAM simulator gave, and the members that are
  -- not initialised.
  unfoldable pub construct : Option ElfFile → System D → Load (System D)
  unfolding load_elf
  construct elf s =
      let fresh : System D = record s {
        ramsize = 1 * giga;
        max_elf_addr = 0;
        rx_count = 0;
        keys = [];
        addr_to_tag = [];
        tx_queue = [];
      } in
      if s.ram == 0 then asserted else elim elf [
        | none ↦ loaded fresh
        | some file ↦
            then_load
              (load_elf file s.ram (1 * giga) (record { memory = s.memory; max_elf_addr = 0 }))
              (λ r. loaded (record fresh {
                memory = r.0.memory;
                max_elf_addr = r.0.max_elf_addr;
                top = record s.top { entry = r.1 };
              }))
      ]

-- The call of `sl_init`, whose first two parameters have 32 bits.
unfoldable pub start_emulation : ℕ → ℕ → ℕ → List ℕ → Memory → Start (Target × Memory)
unfolding sl_init
start_emulation fuel max_elf_addr ram argv m =
    sl_init fuel (u32 max_elf_addr) (u32 init_stack_pointer) ram ram_size argv m

-- `(argc, argv) sanity check`: the pointer of the `j`-th argument is read from the frame, the string is
-- measured, and written by the guest's own call; `ret` is what `do_syscall` does not initialise.
unfoldable pub print_argument : ℕ → Host → ℕ → ℕ → Sys → Start Sys
unfolding be32tole string_size do_syscall
print_argument fuel host ret j s =
    let ram = s.target.guest_base in
    let val = be32tole (ldl_he_p s.memory (ram + (init_stack_pointer + 16 * 4 + j * 4))) in
    then_start (string_size fuel s.memory (ram + val) 0) (λ len.
      started
        (do_syscall host
          (record {
            num = 4;
            arg1 = 2;
            arg2 = val;
            arg3 = u32 len;
            arg4 = 0;
            arg5 = 0;
            arg6 = 0;
            arg7 = 0;
            arg8 = 0;
            ret = ret;
          })
          s).1)

unfoldable pub print_arguments : ℕ → Host → ℕ → ℕ → ℕ → Sys → Start Sys
unfolding print_argument
print_arguments fuel host ret j zero s = started s
print_arguments fuel host ret j (suc rounds) s =
    then_start (print_argument fuel host ret j s) (print_arguments fuel host ret (suc j) rounds)
