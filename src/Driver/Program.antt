-- ===== src/Driver/Program.antt =====
-- A whole program as `System::load_elf` of proj/system.cpp loads it.
use sparcy.Base.{
  ℕ, ◌+◌, ◌*◌, ◌/◌, ◌%◌, ◌^◌, ◌≤◌, ◌<◌, ◌≡◌, refl, arith, ◌∙◌, ap, true, List, [], ◌∷◌, u64, All,
  All-weaken,
}
use sparcy.Memory.{Memory}
use sparcy.Driver.Elf.{Phdr, ElfFile, loaded, then_load, pt_load, Image, load_headers, load_elf}
use sparcy.Driver.Segments.{
  IsLoadable, segment, passed, IsOutside, AreApart, HasSegment, load_header-Adds,
}

pub HasSegment-keep :
    (file : ElfFile) (ram : ℕ) (m m' : Memory) (h : Phdr)
    → ((i : ℕ)
        → h.p_type ≡ pt_load
        → i < h.p_memsz
        → m' (ram + h.p_vaddr + i) ≡ m (ram + h.p_vaddr + i))
    → HasSegment file ram m h
    → HasSegment file ram m' h
HasSegment-keep file ram m m' h same a = record {
  file_part = a.file_part;
  from_file = λ bytes i is_load found inside.
      same i is_load (omega (arith, a.file_part is_load))
      ∙ a.from_file bytes i is_load found inside;
  zeros = λ i is_load past inside. same i is_load inside ∙ a.zeros i is_load past inside;
}

-- What the headers add to an image.
pub record AddsAll (file : ElfFile) (ram : ℕ) (image : Image) (hs : List Phdr) (image' : Image)
    : Type 0 where
  pub has : All (HasSegment file ram image'.memory) hs
  pub outside : (q : ℕ) → All (IsOutside ram q) hs → image'.memory q ≡ image.memory q
  pub not_lower : image.max_elf_addr ≤ image'.max_elf_addr
  pub covers : All (λ h. h.p_type ≡ pt_load → h.p_vaddr + h.p_filesz ≤ image'.max_elf_addr) hs
  pub bounded :
      (b : ℕ)
      → image.max_elf_addr ≤ b
      → All (λ h. h.p_type ≡ pt_load → h.p_vaddr + h.p_filesz ≤ b) hs
      → image'.max_elf_addr ≤ b

module _ (file : ElfFile) (ram ramsize : ℕ) where
  load_headers-AddsAll :
      (image : Image) (hs : List Phdr)
      → ramsize < 2 ^ 32
      → All (IsLoadable file ramsize) hs
      → AreApart hs
      → (image' : Image) × (load_headers file ram ramsize image hs ≡ loaded image')
        × AddsAll file ram image hs image'
  unfolding load_headers
  load_headers-AddsAll image [] small fit apart = (
    image,
    refl,
    record {
      has = tt;
      outside = λ q _. refl;
      not_lower = omega arith;
      covers = tt;
      bounded = λ b below _. below;
    },
  )
  load_headers-AddsAll image (h ∷ hs) small (fits, fit) (away, apart) =
      let (image1, ran, a) = load_header-Adds file ram ramsize image h small fits in
      let (image2, ran', b) = load_headers-AddsAll image1 hs small fit apart in
      let kept : (i : ℕ)
          → h.p_type ≡ pt_load
          → i < h.p_memsz
          → image2.memory (ram + h.p_vaddr + i) ≡ image1.memory (ram + h.p_vaddr + i) =
        λ i is_load inside. b.outside (ram + h.p_vaddr + i) (
          All-weaken _ (IsOutside ram (ram + h.p_vaddr + i)) hs
            (λ h' far also. omega (arith, far is_load also)) away) in
      (
        image2,
        ap (λ x. then_load x (λ image'. load_headers file ram ramsize image' hs)) ran ∙ ran',
        record {
          has = (HasSegment-keep file ram image1.memory image2.memory h kept a.has, b.has);
          outside = λ q (out, outs). b.outside q outs ∙ a.outside q out;
          not_lower = omega (arith, a.not_lower, b.not_lower);
          covers = (λ is_load. omega (arith, a.covers is_load, b.not_lower), b.covers);
          bounded = λ top below (end, ends). b.bounded top (a.bounded top below end) ends;
        },
      )

  -- A file that libelf reads, whose headers can be loaded and whose segments do not meet, is loaded: each
  -- segment holds its bytes of the file and zeros after them, no other byte has changed, and
  -- `max_elf_addr` is the first page boundary at or above every segment's part of the file.
  pub load_elf-HasSegments :
      (image : Image)
      → ramsize < 2 ^ 32
      → image.max_elf_addr ≡ 0
      → file.version_known ≡ true
      → file.opens ≡ true
      → file.begins ≡ true
      → file.is_elf ≡ true
      → All (IsLoadable file ramsize) file.phdrs
      → AreApart file.phdrs
      → (image' : Image) × (load_elf file ram ramsize image ≡ loaded (image', file.e_entry))
        × All (HasSegment file ram image'.memory) file.phdrs
        × ((q : ℕ) → All (IsOutside ram q) file.phdrs → image'.memory q ≡ image.memory q)
        × (image'.max_elf_addr % 4096 ≡ 0)
        × All (λ h. h.p_type ≡ pt_load → h.p_vaddr + h.p_filesz ≤ image'.max_elf_addr) file.phdrs
        × ((page : ℕ)
            → All (λ h. h.p_type ≡ pt_load → h.p_vaddr + h.p_filesz ≤ page * 4096) file.phdrs
            → image'.max_elf_addr ≤ page * 4096)
  unfolding load_elf
  load_elf-HasSegments image small fresh version opens begins elf fit apart =
      let (image1, ran, a) = load_headers-AddsAll image file.phdrs small fit apart in
      let ends : All (λ h. h.p_type ≡ pt_load → h.p_vaddr + h.p_filesz ≤ ramsize) file.phdrs =
        All-weaken (IsLoadable file ramsize) _ file.phdrs ends_in_ram fit in
      let below = a.bounded ramsize (omega (arith, fresh)) ends in
      (
        record image1 { max_elf_addr = u64 (image1.max_elf_addr + 4095) / 4096 * 4096 },
        rw (version, opens, begins, elf, ran) refl,
        a.has,
        a.outside,
        omega arith,
        All-weaken _ _ file.phdrs (λ h end is_load. omega (arith, end is_load, below)) a.covers,
        λ page ends'. omega (arith, a.bounded (page * 4096) (omega (arith, fresh)) ends', below),
      )
    where
      ends_in_ram :
          (h : Phdr)
          → IsLoadable file ramsize h
          → h.p_type ≡ pt_load
          → h.p_vaddr + h.p_filesz ≤ ramsize
      ends_in_ram h (segment bytes _ fits in_memory _ _) is_load = omega arith
      ends_in_ram h (passed other) is_load = absurd (ground arith)
