-- ===== src/Structs.antt =====
-- The structures of proj/sparc-linux/syscall_defs.h, as the compiler of the host lays them out. The types
-- that abitypes.h declares have the target's alignments.
pub mod Constants
pub mod Ioctl
pub mod Messages
pub mod Placement
pub mod Signals
pub mod Stores
pub mod Tables
pub mod Terminals
pub mod Files
pub mod Sockets
pub mod Calls
pub mod Times
use Prim.Native.String.{String}
use text.Mathlib.Text as Text
use sparcy.Base.{ℕ, zero, suc, ◌+◌, ◌-◌, ◌*◌, ◌/◌, Option, none, some, leb, if◌then◌else◌}

infixr 6 ◌⦂◌▹◌
-- The types of fields: integers by their width, arrays, and what a declaration puts together. Signed and
-- unsigned integers are placed alike.
mutual
  pub data CType : Type 0 where
    int8 int16 int32 int64 : CType
    array : CType → ℕ → CType
    struct union packed : Fields → CType

  pub data Fields : Type 0 where
    end : Fields
    ◌⦂◌▹◌ : String → CType → Fields → Fields

pub data Align : Type 0 where
  one two four eight : Align

abbrev pub bytes : Align → ℕ
bytes one = 1
bytes two = 2
bytes four = 4
bytes eight = 8

abbrev pub stricter : Align → Align → Align
stricter a b = if leb (bytes a) (bytes b) then b else a

abbrev pub align_up : ℕ → Align → ℕ
align_up n a = (n + (bytes a - 1)) / bytes a * bytes a

abbrev larger : ℕ → ℕ → ℕ
larger a b = if leb a b then b else a

unfoldable mutual
  pub alignof : CType → Align
  alignof int8 = one
  alignof int16 = two
  alignof int32 = four
  alignof int64 = eight
  alignof (array t n) = alignof t
  alignof (struct fs) = fields_align fs
  alignof (union fs) = fields_align fs
  alignof (packed fs) = one

  pub fields_align : Fields → Align
  fields_align end = one
  fields_align (name ⦂ t ▹ fs) = stricter (alignof t) (fields_align fs)

-- `sizeof`; the second is the end of a structure's fields, where `n` bytes are before them.
unfoldable mutual
  unfolding alignof fields_align

  pub sizeof : CType → ℕ
  sizeof int8 = 1
  sizeof int16 = 2
  sizeof int32 = 4
  sizeof int64 = 8
  sizeof (array t n) = n * sizeof t
  sizeof (struct fs) = align_up (end_of fs 0) (fields_align fs)
  sizeof (union fs) = align_up (largest fs) (fields_align fs)
  sizeof (packed fs) = packed_end fs 0

  pub end_of : Fields → ℕ → ℕ
  end_of end n = n
  end_of (name ⦂ t ▹ fs) n = end_of fs (align_up n (alignof t) + sizeof t)

  pub largest : Fields → ℕ
  largest end = 0
  largest (name ⦂ t ▹ fs) = larger (sizeof t) (largest fs)

  pub packed_end : Fields → ℕ → ℕ
  packed_end end n = n
  packed_end (name ⦂ t ▹ fs) n = packed_end fs (n + sizeof t)

-- `offsetof` a field of a structure, with its type.
unfoldable pub find : Fields → String → ℕ → Option (ℕ × CType)
unfolding alignof sizeof
find end wanted n = none
find (name ⦂ t ▹ fs) wanted n =
    let rest = find fs wanted (align_up n (alignof t) + sizeof t) in
    if Text.◌==◌ wanted name then some (align_up n (alignof t), t) else rest
