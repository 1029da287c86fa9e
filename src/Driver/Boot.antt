-- ===== src/Driver/Boot.antt =====
-- What the boot in `main` of proj/main.cpp has done before the circuit runs.
use sparcy.Base.{
  ℕ, ◌+◌, ◌*◌, ◌^◌, ◌≤◌, ◌<◌, ◌≡◌, ◌≢◌, refl, arith, ◌⊎◌, ◌∙◌, ap, true, false, some, List, [], ◌∷◌,
  All, All-weaken, map, u32, ◌==◌, if_skipped,
}
use sparcy.Memory.{Memory}
use sparcy.Layout.{IsLaidOut}
use sparcy.Init.{started, init_target}
use sparcy.Init.Begins.{HasRoom, HoldsArguments, HasRoom-keep, sl_init-IsLaidOut}
use sparcy.Driver.{System, giga}
use sparcy.Driver.Elf.{Phdr, ElfFile, loaded, then_load, pt_load, Image}
use sparcy.Driver.Segments.{IsLoadable, AreApart, HasSegment, IsOutside}
use sparcy.Driver.Program.{HasSegment-keep, load_elf-HasSegments}
use sparcy.Driver.Main.{ram_size, init_stack_pointer}
use sparcy.Driver.Start.{construct, start_emulation}

HasSegments-keep :
    (file : ElfFile) (ram top : ℕ) (m m' : Memory) (hs : List Phdr)
    → ((q : ℕ) → q < ram + top → m' q ≡ m q)
    → All (λ h. h.p_type ≡ pt_load → h.p_vaddr + h.p_memsz ≤ top) hs
    → All (HasSegment file ram m) hs
    → All (HasSegment file ram m') hs
HasSegments-keep file ram top m m' [] same below a = tt
HasSegments-keep file ram top m m' (h ∷ hs) same (low, below) (s, a) = (
  HasSegment-keep file ram m m' h
      (λ i is_load inside. same (ram + h.p_vaddr + i) (omega (arith, low is_load))) s,
  HasSegments-keep file ram top m m' hs same below a,
)

-- A file that libelf reads, whose headers can be loaded, whose segments do not meet, lie below the
-- stack pointer, and take their parts of the file from the first quarter of memory.
pub record IsProgram (file : ElfFile) : Type 0 where
  pub version_known : file.version_known ≡ true
  pub opens : file.opens ≡ true
  pub begins : file.begins ≡ true
  pub is_elf : file.is_elf ≡ true
  pub loadable : All (IsLoadable file (1 * giga)) file.phdrs
  pub apart : AreApart file.phdrs
  pub below_stack :
      All (λ h. h.p_type ≡ pt_load → h.p_vaddr + h.p_memsz ≤ init_stack_pointer) file.phdrs
  pub in_quarter : All (λ h. h.p_type ≡ pt_load → h.p_vaddr + h.p_filesz ≤ 2 ^ 28) file.phdrs

-- No read and no write is under way, and the DRAM simulator has not been asked anything.
pub record IsIdle {D : Type 0} (s s' : System D) : Type 0 where
  pub no_reads : s'.addr_to_tag ≡ []
  pub no_beats : s'.rx_count ≡ 0
  pub same_dramsim : s'.dramsim ≡ s.dramsim

-- What a boot that finds `s` has done when it leaves the system `s'` and the memory `m'`, with the
-- arguments `l`.
pub record Boots {D : Type 0} (file : ElfFile) (fuel : ℕ) (l : List (ℕ × ℕ)) (s s' : System D)
    (m' : Memory) : Type 0 where
  pub constructed : construct (some file) s ≡ loaded s'
  pub emulation :
      start_emulation fuel s'.max_elf_addr s'.ram (map (λ x. x.0) l) s'.memory
      ≡ started (init_target s'.max_elf_addr init_stack_pointer s'.ram ram_size, m')
  pub entry : s'.top.entry ≡ file.e_entry
  pub segments : All (HasSegment file s'.ram m') file.phdrs
  pub laid_out :
      IsLaidOut s'.max_elf_addr (init_target s'.max_elf_addr init_stack_pointer s'.ram ram_size)
  pub arguments :
      HoldsArguments (init_target s'.max_elf_addr init_stack_pointer s'.ram ram_size) l s'.memory m'
  pub room :
      HasRoom fuel (init_target s'.max_elf_addr init_stack_pointer s'.ram ram_size) l s'.memory
  pub idle : IsIdle s s'

module _ {D : Type 0} (file : ElfFile) where
  construct-HasSegments :
      (s : System D)
      → IsProgram file
      → s.ram ≢ 0
      → (s' : System D) × (construct (some file) s ≡ loaded s')
        × (s'.ram ≡ s.ram)
        × (s'.top.entry ≡ file.e_entry)
        × All (HasSegment file s.ram s'.memory) file.phdrs
        × ((q : ℕ) → (q < s.ram) ⊎ (s.ram + 2 ^ 32 ≤ q) → s'.memory q ≡ s.memory q)
        × (s'.max_elf_addr ≤ 2 ^ 28)
        × IsIdle s s'
  unfolding construct
  construct-HasSegments s p made =
      let image : Image = record { memory = s.memory; max_elf_addr = 0 } in
      let (image', ran, has, outside, _, _, bound) =
        load_elf-HasSegments file s.ram (1 * giga) image (omega arith) refl p.version_known p.opens
          p.begins p.is_elf p.loadable p.apart in
      let found : (s.ram == 0) ≡ false = ground (arith, made) in
      (
        built s image',
        if_skipped (s.ram == 0) _ _ found
            ∙ ap
                (λ x.
                  then_load x
                    (λ r. loaded (record (built s r.0) { top = record s.top { entry = r.1 } })))
                ran,
        refl,
        refl,
        has,
        λ q far. outside q (
            All-weaken _ (IsOutside s.ram q) file.phdrs
              (λ h low is_load. omega (arith, low is_load, far)) p.below_stack),
        bound 65536 p.in_quarter,
        record { no_reads = refl; no_beats = refl; same_dramsim = refl },
      )
    where
      built : System D → Image → System D
      built s image = record s {
        ramsize = 1 * giga;
        rx_count = 0;
        keys = [];
        addr_to_tag = [];
        tx_queue = [];
        memory = image.memory;
        max_elf_addr = image.max_elf_addr;
        top = record s.top { entry = file.e_entry };
      }

  -- The boot of a program whose parts of the file end in the first quarter of memory, which `malloc` gives,
  -- and whose arguments have room above the stack pointer and sizes, their NUL included, that are no
  -- multiples of 16: the constructor loads it and the emulation starts. The circuit gets its entry point;
  -- the segments stand in memory; the heap begins at `max_elf_addr`, and the heap and the mapped blocks
  -- have their shares; the program finds its arguments; and the bus is idle.
  pub start_emulation-construct :
      (fuel : ℕ) (s : System D) (l : List (ℕ × ℕ))
      → IsProgram file
      → s.ram ≢ 0
      → HasRoom fuel (init_target 0 init_stack_pointer s.ram ram_size) l s.memory
      → (s' : System D) × (m' : Memory) × Boots file fuel l s s' m'
  unfolding start_emulation init_target
  start_emulation-construct fuel s l p made h =
      let (s', ran, base, entry, has, outside, low, idle) = construct-HasSegments s p made in
      let h' : HasRoom fuel (init_target s'.max_elf_addr init_stack_pointer s'.ram ram_size) l
          s'.memory =
        rw base (
          HasRoom-keep fuel 0 s'.max_elf_addr init_stack_pointer s.ram ram_size s.memory s'.memory l
            outside h) in
      let (m', ran', laid, holds) =
        sl_init-IsLaidOut fuel s'.max_elf_addr init_stack_pointer s'.ram ram_size l s'.memory
          (omega (arith, low)) h' in
      let whole : u32 s'.max_elf_addr ≡ s'.max_elf_addr = omega (arith, low) in
      (
        s',
        m',
        record {
          constructed = ran;
          emulation = rw whole ran';
          entry = entry;
          segments = rw base (
              HasSegments-keep file s.ram init_stack_pointer s'.memory m' file.phdrs
                (λ q below. holds.below_kept q (omega (arith, base))) p.below_stack has);
          laid_out = laid;
          arguments = holds;
          room = h';
          idle = idle;
        },
      )
