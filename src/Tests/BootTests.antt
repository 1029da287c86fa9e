-- ===== src/Tests/BootTests.antt =====
-- Tests of the boot of proj/main.cpp.
use sparcy.Base.{
  ℕ, ◌+◌, ◌*◌, ◌%◌, ◌≤◌, ◌<◌, ◌≡◌, refl, inl, inr, Bool, true, false, some, [], ◌∷◌, ◌==◌,
  if◌then◌else◌, arith, All,
}
use sparcy.Memory.{Memory, memset}
use sparcy.Guest.{Sys}
use sparcy.Brk.{do_brk, page_align}
use sparcy.Layout.{IsLaidOut}
use sparcy.Init.{started, init_target}
use sparcy.Init.Begins.{HasRoom}
use sparcy.Tests.Fixtures.{small_target, small_sys, quiet_host}
use sparcy.Driver.{Vtop, System}
use sparcy.Driver.Elf.{Phdr, ElfFile, loaded, pt_load, Image, put_bytes, load_elf}
use sparcy.Driver.Segments.{IsLoadable, segment, passed, IsOutside, AreApart, HasSegment}
use sparcy.Driver.Program.{load_elf-HasSegments}
use sparcy.Driver.Bss.{do_brk-load_elf_erases}
use sparcy.Driver.Boot.{IsProgram, Boots, start_emulation-construct}
use sparcy.Driver.Start.{print_arguments}
use sparcy.Driver.Arguments.{LeavesMemory, print_arguments-written, written}
use sparcy.Driver.Main.{ram_size, init_stack_pointer}

-- A segment of three bytes and zeros up to 0x3000, and a note.
abbrev code : Phdr
code = record { p_type = 1; p_vaddr = 0x1000; p_memsz = 0x2000; p_offset = 0x34; p_filesz = 3 }

abbrev note : Phdr
note = record { p_type = 4; p_vaddr = 0; p_memsz = 0; p_offset = 0; p_filesz = 0 }

abbrev pub small_file : ElfFile
small_file = record {
  version_known = true;
  opens = true;
  begins = true;
  is_elf = true;
  phdrs = code ∷ note ∷ [];
  e_entry = 0x1000;
  read_at = λ offset size. some (1 ∷ 2 ∷ 3 ∷ []);
}

code-IsLoadable : IsLoadable small_file 0x40000000 code
code-IsLoadable = segment (1 ∷ 2 ∷ 3 ∷ []) refl (omega arith) (omega arith) refl refl

note-IsLoadable : IsLoadable small_file 0x40000000 note
note-IsLoadable = passed (inr refl)

small_file-AreApart : AreApart (code ∷ note ∷ [])
small_file-AreApart = ((λ _ e. absurd (omega arith), tt), (tt, tt))

load_elf-HasSegments_example :
    (image' : Image) × (load_elf small_file 0x10000 0x40000000
        (record { memory = λ _. 7; max_elf_addr = 0 })
      ≡ loaded (image', 0x1000))
    × All (HasSegment small_file 0x10000 image'.memory) (code ∷ note ∷ [])
    × ((q : ℕ) → All (IsOutside 0x10000 q) (code ∷ note ∷ []) → image'.memory q ≡ 7)
    × (image'.max_elf_addr % 4096 ≡ 0)
    × All
        (λ h. h.p_type ≡ pt_load → h.p_vaddr + h.p_filesz ≤ image'.max_elf_addr)
        (code ∷ note ∷ [])
    × ((page : ℕ)
        → All (λ h. h.p_type ≡ pt_load → h.p_vaddr + h.p_filesz ≤ page * 4096) (code ∷ note ∷ [])
        → image'.max_elf_addr ≤ page * 4096)
load_elf-HasSegments_example =
    load_elf-HasSegments small_file 0x10000 0x40000000
      (record { memory = λ _. 7; max_elf_addr = 0 }) (omega arith) refl refl refl refl refl
      (code-IsLoadable, (note-IsLoadable, tt)) small_file-AreApart

pub small_file-IsProgram : IsProgram small_file
small_file-IsProgram = record {
  version_known = refl;
  opens = refl;
  begins = refl;
  is_elf = refl;
  loadable = (code-IsLoadable, (note-IsLoadable, tt));
  apart = small_file-AreApart;
  below_stack = (λ _. omega arith, (λ _. omega arith, tt));
  in_quarter = (λ _. omega arith, (λ _. omega arith, tt));
}

abbrev quiet : Vtop
quiet = record {
  reset = false;
  clk = false;
  entry = 0;
  bus_reqcyc = false;
  bus_req = 0;
  bus_reqtag = 0;
  bus_reqack = false;
  bus_respcyc = false;
  bus_resp = 0;
  bus_resptag = 0;
  bus_respack = true;
}

-- What `malloc` gave, with a string of two bytes at 0x5000 of the host's memory.
abbrev pub new_system : System (ℕ → Bool)
new_system = record {
  top = quiet;
  memory = λ q. if q == 0x5002 then 0 else 7;
  ram = 0x10000;
  ramsize = 0;
  max_elf_addr = 9;
  interrupts = 9;
  keys = [];
  cmd = 9;
  rx_count = 0;
  xfer_addr = 9;
  addr_to_tag = [];
  tx_queue = [];
  dramsim = λ a. false;
}

pub new_system-HasRoom :
    HasRoom 20
      (init_target 0 init_stack_pointer 0x10000 ram_size)
      ((0x5000, 3) ∷ [])
      new_system.memory
unfolding init_target
new_system-HasRoom = record {
  host_fits = omega arith;
  below_4g = omega arith;
  whole_slots = refl;
  frame_fits = omega arith;
  arguments = (
    (
      record {
        not_null = omega arith;
        not_empty = omega arith;
        in_fuel = omega arith;
        ends = refl;
        no_earlier = λ i lt. ground arith;
        apart = inl (omega arith);
      },
      omega arith,
    ),
    tt,
  );
}

start_emulation-construct_example :
    (s' : System (ℕ → Bool)) × (m' : Memory) × Boots small_file 20
      ((0x5000, 3) ∷ [])
      new_system
      s'
      m'
start_emulation-construct_example =
    start_emulation-construct small_file 20 new_system ((0x5000, 3) ∷ []) small_file-IsProgram
      (omega arith) new_system-HasRoom

-- Three bytes just below a page boundary, and zeros that go over it.
abbrev crossing : Phdr
crossing = record { p_type = 1; p_vaddr = 0x1ff0; p_memsz = 0x20; p_offset = 0x34; p_filesz = 3 }

abbrev crossing_file : ElfFile
crossing_file = record small_file { phdrs = crossing ∷ [] }

abbrev blank : Image
blank = record { memory = λ _. 7; max_elf_addr = 0 }

abbrev crossing_image : Image
crossing_image = record {
  memory = put_bytes (memset (λ _. 7) 0x11ff0 0 0x20) 0x11ff0 (1 ∷ 2 ∷ 3 ∷ []);
  max_elf_addr = 0x2000;
}

crossing_loads : load_elf crossing_file 0x10000 0x40000000 blank ≡ loaded (crossing_image, 0x1000)
unfolding load_elf
crossing_loads = refl

-- The program has used the byte at 0x2000, as every other one.
abbrev used_sys : Sys
used_sys = record small_sys { target = record small_target { target_brk = 0x2000 } }

used_sys-IsLaidOut : IsLaidOut 0x2000 used_sys.target
used_sys-IsLaidOut = record {
  above_floor = omega arith;
  heap_fits = omega arith;
  blocks_above = omega arith;
  blocks_fit = omega arith;
  half_of_memory = omega arith;
  host_fits = omega arith;
}

used_sys_fits : page_align 0x2001 ≤ 0x40000
unfolding page_align
used_sys_fits = omega arith

do_brk-load_elf_erases_example :
    (0x1ff0 ≤ 0x2000) × (0x2000 < 0x2010) × ((do_brk 0x2001 used_sys).1.memory 0x12000 ≡ 0)
do_brk-load_elf_erases_example =
    do_brk-load_elf_erases crossing_file 0x10000 0x40000000 blank crossing_image crossing
      (1 ∷ 2 ∷ 3 ∷ []) 0x2001 used_sys (omega arith) refl refl refl refl refl refl refl
      (omega arith) (omega arith) refl refl (omega arith) crossing_loads used_sys-IsLaidOut refl
      refl (omega arith) (omega arith) used_sys_fits

-- The state and the memory that this boot leaves.
booted :
    (s' : System (ℕ → Bool)) × (m' : Memory) × Boots small_file 20
      ((0x5000, 3) ∷ [])
      new_system
      s'
      m'
booted =
    start_emulation-construct small_file 20 new_system ((0x5000, 3) ∷ []) small_file-IsProgram
      (omega arith) new_system-HasRoom

abbrev booted_sys : Sys
booted_sys = record {
  target = init_target booted.0.max_elf_addr init_stack_pointer booted.0.ram ram_size;
  errno = 0;
  memory = booted.1;
  trace = [];
}

pub quiet_host_leaves : LeavesMemory 20 quiet_host 0
quiet_host_leaves trace m args = refl

print_arguments-written_example :
    (s' : Sys) × (print_arguments 20 quiet_host 0 1 1 booted_sys ≡ started s')
    × (s'.memory ≡ booted.1)
    × (s'.target ≡ booted_sys.target)
    × (s'.trace
        ≡ written 20 quiet_host 0 booted_sys.target.guest_base []
            ((0x5000, 3) ∷ [])
            booted.2.arguments.pointers)
print_arguments-written_example =
    print_arguments-written 20 quiet_host 0 ((0x5000, 3) ∷ []) booted.0.memory booted_sys
      booted.2.room sp quiet_host_leaves booted.2.arguments
  where
    sp : booted_sys.target.target_sp ≡ init_stack_pointer
    sp = unfold init_target in refl
