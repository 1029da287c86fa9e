-- ===== src/Driver/Segments.antt =====
-- What `System::load_elf` of proj/system.cpp leaves in memory.
use mathlib.Core.Option.{some-injective}
use sparcy.Base.{
  ℕ, zero, suc, ◌+◌, ◌^◌, ◌≤◌, ◌<◌, ◌≡◌, refl, arith, ◌⊎◌, ◌∙◌, sym, ap, true, some, List, [], ◌∷◌,
  ◌==◌, ltb, u8, u64, length, get_or, All, if_taken, if_skipped, false,
}
use sparcy.Memory.{Memory, stb_p, memset}
use sparcy.Memory.Ranges.{memset_outside, memset_inside}
use sparcy.Driver.Elf.{
  Phdr, ElfFile, loaded, pt_load, pt_gnu_stack, pt_note, Image, put_bytes, raise_end, load_segment,
  load_header,
}

put_bytes_outside :
    (m : Memory) (p : ℕ) (bytes : List ℕ) (q : ℕ)
    → (q < p) ⊎ (p + length bytes ≤ q)
    → put_bytes m p bytes q ≡ m q
unfolding put_bytes
put_bytes_outside m p [] q h = refl
put_bytes_outside m p (b ∷ bytes) q h =
    ground (arith, put_bytes_outside (stb_p m p b) (p + 1) bytes q)

put_bytes_inside :
    (m : Memory) (p : ℕ) (bytes : List ℕ) (i : ℕ)
    → i < length bytes
    → put_bytes m p bytes (p + i) ≡ u8 (get_or bytes i 0)
unfolding put_bytes
put_bytes_inside m p [] i h = absurd (omega arith)
put_bytes_inside m p (b ∷ bytes) zero h =
    put_bytes_outside (stb_p m p b) (p + 1) bytes (p + 0) (omega arith) ∙ stored
  where
    stored : stb_p m p b (p + 0) ≡ u8 b
    stored = unfold stb_p in ground arith
put_bytes_inside m p (b ∷ bytes) (suc i) h =
    let next : p + suc i ≡ p + 1 + i = omega arith in
    rw next (put_bytes_inside (stb_p m p b) (p + 1) bytes i (omega arith))

-- What the loader asks of a header: a segment to load lies in the memory, is no smaller than its part of
-- the file, and the file has that part; a header of another kind is one that is passed over.
pub data IsLoadable (file : ElfFile) (ramsize : ℕ) (h : Phdr) : Type 0 where
  segment :
      (bytes : List ℕ)
      → h.p_type ≡ pt_load
      → h.p_vaddr + h.p_memsz ≤ ramsize
      → h.p_filesz ≤ h.p_memsz
      → file.read_at h.p_offset h.p_filesz ≡ some bytes
      → length bytes ≡ h.p_filesz
      → IsLoadable file ramsize h
  passed : (h.p_type ≡ pt_gnu_stack) ⊎ (h.p_type ≡ pt_note) → IsLoadable file ramsize h

-- A byte at `q` is not in the segment of a header.
abbrev pub IsOutside : ℕ → ℕ → Phdr → Type 0
IsOutside ram q h = h.p_type ≡ pt_load → (q < ram + h.p_vaddr) ⊎ (ram + h.p_vaddr + h.p_memsz ≤ q)

-- No two segments meet.
abbrev pub AreApart : List Phdr → Type 0
AreApart [] = Unit
AreApart (h ∷ hs) =
    All
      (λ h'.
        h.p_type ≡ pt_load
        → h'.p_type ≡ pt_load
        → (h.p_vaddr + h.p_memsz ≤ h'.p_vaddr) ⊎ (h'.p_vaddr + h'.p_memsz ≤ h.p_vaddr))
      hs
    × AreApart hs

-- The segment of a header stands in memory: the bytes of the file, and zeros after them.
pub record HasSegment (file : ElfFile) (ram : ℕ) (m : Memory) (h : Phdr) : Type 0 where
  pub file_part : h.p_type ≡ pt_load → h.p_filesz ≤ h.p_memsz
  pub from_file :
      (bytes : List ℕ) (i : ℕ)
      → h.p_type ≡ pt_load
      → file.read_at h.p_offset h.p_filesz ≡ some bytes
      → i < h.p_filesz
      → m (ram + h.p_vaddr + i) ≡ u8 (get_or bytes i 0)
  pub zeros :
      (i : ℕ) → h.p_type ≡ pt_load → h.p_filesz ≤ i → i < h.p_memsz → m (ram + h.p_vaddr + i) ≡ 0

-- What a header adds to an image.
pub record Adds (file : ElfFile) (ram : ℕ) (image : Image) (h : Phdr) (image' : Image)
    : Type 0 where
  pub has : HasSegment file ram image'.memory h
  pub outside : (q : ℕ) → IsOutside ram q h → image'.memory q ≡ image.memory q
  pub not_lower : image.max_elf_addr ≤ image'.max_elf_addr
  pub covers : h.p_type ≡ pt_load → h.p_vaddr + h.p_filesz ≤ image'.max_elf_addr
  pub bounded :
      (b : ℕ)
      → image.max_elf_addr ≤ b
      → (h.p_type ≡ pt_load → h.p_vaddr + h.p_filesz ≤ b)
      → image'.max_elf_addr ≤ b

module _ (file : ElfFile) (ram ramsize : ℕ) where
  pub load_segment_ran :
      (image : Image) (h : Phdr) (bytes : List ℕ)
      → ramsize < 2 ^ 32
      → h.p_type ≡ pt_load
      → h.p_vaddr + h.p_memsz ≤ ramsize
      → file.read_at h.p_offset h.p_filesz ≡ some bytes
      → length bytes ≡ h.p_filesz
      → load_header file ram ramsize image h
        ≡ loaded (record {
          memory =
              put_bytes (memset image.memory (ram + h.p_vaddr) 0 h.p_memsz) (ram + h.p_vaddr) bytes;
          max_elf_addr = raise_end image.max_elf_addr (u64 (h.p_vaddr + h.p_filesz));
        })
  unfolding load_header load_segment
  load_segment_ran image h bytes small is_load fits found whole =
      let to_load : (h.p_type == pt_load) ≡ true = ground arith in
      let room : ltb ramsize (u64 (h.p_vaddr + h.p_memsz)) ≡ false = ground arith in
      let enough : (length bytes == h.p_filesz) ≡ true = ground arith in
      if_taken (h.p_type == pt_load) _ _ to_load
      ∙ if_skipped (ltb ramsize (u64 (h.p_vaddr + h.p_memsz))) _ _ room
      ∙ rw found (if_taken (length bytes == h.p_filesz) _ _ enough)

  pub load_header-Adds :
      (image : Image) (h : Phdr)
      → ramsize < 2 ^ 32
      → IsLoadable file ramsize h
      → (image' : Image) × (load_header file ram ramsize image h ≡ loaded image')
        × Adds file ram image h image'
  unfolding load_header load_segment
  load_header-Adds image h small (passed other) = (
    image,
    ground arith,
    record {
      has = record {
        file_part = λ is_load. absurd (ground arith);
        from_file = λ bytes i is_load _ _. absurd (ground arith);
        zeros = λ i is_load _ _. absurd (ground arith);
      };
      outside = λ q _. refl;
      not_lower = omega arith;
      covers = λ is_load. absurd (ground arith);
      bounded = λ b h' _. h';
    },
  )
  load_header-Adds image h small (segment bytes is_load fits in_memory found whole) =
      let m1 = memset image.memory (ram + h.p_vaddr) 0 h.p_memsz in
      let m2 = put_bytes m1 (ram + h.p_vaddr) bytes in
      let end = u64 (h.p_vaddr + h.p_filesz) in
      (
        record { memory = m2; max_elf_addr = raise_end image.max_elf_addr end },
        load_segment_ran image h bytes small is_load fits found whole,
        record {
          has = record {
            file_part = λ _. in_memory;
            from_file = λ bytes' i _ found' inside.
                put_bytes_inside m1 (ram + h.p_vaddr) bytes i (omega (arith, whole))
                ∙ ap (λ l. u8 (get_or l i 0)) (some-injective bytes bytes' (sym found ∙ found'));
            zeros = λ i _ past inside.
                put_bytes_outside m1 (ram + h.p_vaddr) bytes (ram + h.p_vaddr + i)
                  (omega (arith, whole))
                ∙ memset_inside image.memory (ram + h.p_vaddr) 0 h.p_memsz (ram + h.p_vaddr + i)
                    (omega arith) (omega arith);
          };
          outside = λ q away.
              put_bytes_outside m1 (ram + h.p_vaddr) bytes q (omega (arith, away is_load, whole))
              ∙ memset_outside image.memory (ram + h.p_vaddr) 0 h.p_memsz q (away is_load);
          not_lower = unfold raise_end in ground arith;
          covers = λ _. unfold raise_end in ground arith;
          bounded = λ b below ends. unfold raise_end in ground (arith, ends is_load);
        },
      )
