-- ===== src/Driver/Elf.antt =====
-- `System::load_elf` of proj/system.cpp, which copies the segments of a program into memory. libelf and
-- the file system are parameters.
use sparcy.Base.{
  ℕ, ◌+◌, ◌*◌, ◌/◌, Bool, not, Option, none, some, List, [], ◌∷◌, ◌==◌, ltb, ◌||◌, if◌then◌else◌,
  u64, length,
}
use sparcy.Memory.{Memory, stb_p, memset}

-- `GElf_Phdr`, as far as it is read.
pub record Phdr : Type 0 where
  pub p_type : ℕ
  pub p_vaddr : ℕ
  pub p_memsz : ℕ
  pub p_offset : ℕ
  pub p_filesz : ℕ

-- What libelf and the host say of the file: whether the version of the library is known, the file opens,
-- `elf_begin` succeeds, and it is an ELF object; its headers; and what `lseek` to an offset and `read` of
-- a number of bytes give, or none where `lseek` fails.
pub record ElfFile : Type 0 where
  pub version_known : Bool
  pub opens : Bool
  pub begins : Bool
  pub is_elf : Bool
  pub phdrs : List Phdr
  pub e_entry : ℕ
  pub read_at : ℕ → ℕ → Option (List ℕ)

-- The program is loaded, `exit(-1)` is called, or an assertion fails.
pub data Load (A : Type 0) : Type 0 where
  loaded : A → Load A
  exited asserted : Load A

module _ {A B : Type 0} where
  abbrev pub then_load : Load A → (A → Load B) → Load B
  then_load (loaded a) f = f a
  then_load exited f = exited
  then_load asserted f = asserted

-- `PT_LOAD`, `PT_GNU_STACK`, and the type that the code gives as 0x4
abbrev pub pt_load : ℕ
pt_load = 1

abbrev pub pt_gnu_stack : ℕ
pt_gnu_stack = 1685382481

abbrev pub pt_note : ℕ
pt_note = 4

-- The memory, and the highest end of a segment so far.
pub record Image : Type 0 where
  pub memory : Memory
  pub max_elf_addr : ℕ

-- What `read` leaves at `ptr`.
unfoldable pub put_bytes : Memory → ℕ → List ℕ → Memory
unfolding stb_p
put_bytes m ptr [] = m
put_bytes m ptr (b ∷ bytes) = put_bytes (stb_p m ptr b) (ptr + 1) bytes

unfoldable pub raise_end : ℕ → ℕ → ℕ
raise_end max_elf_addr end = if ltb max_elf_addr end then end else max_elf_addr

module _ (file : ElfFile) (ram ramsize : ℕ) where
  unfoldable pub load_segment : Image → Phdr → Load Image
  unfolding memset put_bytes raise_end
  load_segment image phdr =
      if ltb ramsize (u64 (phdr.p_vaddr + phdr.p_memsz))
      then exited
      else elim (file.read_at phdr.p_offset phdr.p_filesz) [
        | none ↦ asserted
        | some bytes ↦
            if length bytes == phdr.p_filesz
            then loaded (record {
              memory =
                  put_bytes (memset image.memory (ram + phdr.p_vaddr) 0 phdr.p_memsz)
                    (ram + phdr.p_vaddr) bytes;
              max_elf_addr = raise_end image.max_elf_addr (u64 (phdr.p_vaddr + phdr.p_filesz));
            })
            else asserted
      ]

  unfoldable pub load_header : Image → Phdr → Load Image
  unfolding load_segment
  load_header image phdr =
      if phdr.p_type == pt_load
      then load_segment image phdr
      else if phdr.p_type == pt_gnu_stack || phdr.p_type == pt_note
      then loaded image
      else exited

  unfoldable pub load_headers : Image → List Phdr → Load Image
  unfolding load_header
  load_headers image [] = loaded image
  load_headers image (phdr ∷ phdrs) =
      then_load (load_header image phdr) (λ image'. load_headers image' phdrs)

  unfoldable pub load_elf : Image → Load (Image × ℕ)
  unfolding load_headers
  load_elf image =
      if not file.version_known
      then exited
      else if not file.opens
      then asserted
      else if not file.begins || not file.is_elf
      then exited
      else then_load (load_headers image file.phdrs) (λ image'. loaded (
        record image' { max_elf_addr = u64 (image'.max_elf_addr + 4095) / 4096 * 4096 },
        file.e_entry,
      ))
