-- ===== src/Driver/Bss.antt =====
-- Where the heap begins after `System::load_elf` of proj/system.cpp, for a program whose zeros reach over
-- a page boundary.
use sparcy.Base.{
  ℕ, ◌+◌, ◌*◌, ◌/◌, ◌^◌, ◌-◌, ◌≤◌, ◌<◌, ◌≡◌, arith, ◌∙◌, sym, ap, true, some, List, [], ◌∷◌, length,
}
use sparcy.Guest.{Sys}
use sparcy.Brk.{do_brk, page_align}
use sparcy.Layout.{IsLaidOut}
use sparcy.Layout.Heap.{do_brk_zeroes}
use sparcy.Driver.Elf.{
  Phdr, ElfFile, loaded, pt_load, Image, raise_end, Load, exited, asserted, load_headers, load_elf,
}
use sparcy.Driver.Segments.{load_segment_ran}

-- `max_elf_addr` after a load, or 0.
abbrev end_of : Load (Image × ℕ) → ℕ
end_of (loaded (image, _)) = image.max_elf_addr
end_of exited = 0
end_of asserted = 0

module _ (file : ElfFile) (ram ramsize : ℕ) where
  load_elf_end :
      (image : Image) (h : Phdr) (bytes : List ℕ)
      → ramsize < 2 ^ 32
      → image.max_elf_addr ≡ 0
      → file.version_known ≡ true
      → file.opens ≡ true
      → file.begins ≡ true
      → file.is_elf ≡ true
      → file.phdrs ≡ h ∷ []
      → h.p_type ≡ pt_load
      → h.p_vaddr + h.p_memsz ≤ ramsize
      → h.p_filesz ≤ h.p_memsz
      → file.read_at h.p_offset h.p_filesz ≡ some bytes
      → length bytes ≡ h.p_filesz
      → end_of (load_elf file ram ramsize image) ≡ (h.p_vaddr + h.p_filesz + 4095) / 4096 * 4096
  unfolding load_elf load_headers raise_end
  load_elf_end image h bytes small fresh version opens begins elf one is_load fits in_memory found
        whole =
      let ran = load_segment_ran file ram ramsize image h bytes small is_load fits found whole in
      rw (version, opens, begins, elf, one, ran) (ground arith)

  -- A program of one segment is loaded whose zeros go past the page in which its part of the file ends.
  -- Then `max_elf_addr` lies inside the segment; and with the heap that begins there, the first request
  -- of the program for more of it, where it is granted, erases the byte there, which is a variable of the
  -- program.
  pub do_brk-load_elf_erases :
      (image image' : Image) (h : Phdr) (bytes : List ℕ) (b : ℕ) (s : Sys)
      → ramsize < 2 ^ 32
      → image.max_elf_addr ≡ 0
      → file.version_known ≡ true
      → file.opens ≡ true
      → file.begins ≡ true
      → file.is_elf ≡ true
      → file.phdrs ≡ h ∷ []
      → h.p_type ≡ pt_load
      → h.p_vaddr + h.p_memsz ≤ ramsize
      → h.p_filesz ≤ h.p_memsz
      → file.read_at h.p_offset h.p_filesz ≡ some bytes
      → length bytes ≡ h.p_filesz
      → (h.p_vaddr + h.p_filesz + 4095) / 4096 * 4096 < h.p_vaddr + h.p_memsz
      → load_elf file ram ramsize image ≡ loaded (image', file.e_entry)
      → IsLaidOut image'.max_elf_addr s.target
      → s.target.target_brk ≡ image'.max_elf_addr
      → s.target.guest_base ≡ ram
      → image'.max_elf_addr < b
      → b ≤ 2 ^ 32 - 4096
      → page_align b ≤ s.target.target_brk_limit
      → (h.p_vaddr ≤ image'.max_elf_addr)
        × (image'.max_elf_addr < h.p_vaddr + h.p_memsz)
        × ((do_brk b s).1.memory (ram + image'.max_elf_addr) ≡ 0)
  do_brk-load_elf_erases image image' h bytes b s small fresh version opens begins elf one is_load
        fits in_memory found whole over ran laid at_end base more below granted =
      let end =
        ap end_of (sym ran)
        ∙ load_elf_end image h bytes small fresh version opens begins elf one is_load fits in_memory
            found whole in
      let place : s.target.target_brk + s.target.guest_base ≡ ram + image'.max_elf_addr =
        omega (arith, at_end, base) in
      let erased : (do_brk b s).1.memory (ram + image'.max_elf_addr) ≡ 0 =
        rw (← place) (do_brk_zeroes b s laid (omega (arith, at_end)) below granted) in
      (omega (arith, end), omega (arith, end), erased)
