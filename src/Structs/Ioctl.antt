-- ===== src/Structs/Ioctl.antt =====
-- The numbers of ioctl requests in proj/sparc-linux/syscall_defs.h and termbits.h.
pub mod Parts
pub mod Requests
pub mod Numbers
pub mod Sound
use sparcy.Base.{ℕ, ◌+◌, ◌-◌, ◌*◌, ◌^◌, bit_or}
use sparcy.Structs.{CType, sizeof}

abbrev pub target_ioc_nrbits : ℕ
target_ioc_nrbits = 8

abbrev pub target_ioc_typebits : ℕ
target_ioc_typebits = 8

abbrev pub target_ioc_sizebits : ℕ
target_ioc_sizebits = 13

abbrev pub target_ioc_dirbits : ℕ
target_ioc_dirbits = 3

abbrev pub target_ioc_none : ℕ
target_ioc_none = 1

abbrev pub target_ioc_read : ℕ
target_ioc_read = 2

abbrev pub target_ioc_write : ℕ
target_ioc_write = 4

abbrev pub target_ioc_sizemask : ℕ
target_ioc_sizemask = 2 ^ target_ioc_sizebits - 1

abbrev pub target_ioc_nrshift : ℕ
target_ioc_nrshift = 0

abbrev pub target_ioc_typeshift : ℕ
target_ioc_typeshift = target_ioc_nrshift + target_ioc_nrbits

abbrev pub target_ioc_sizeshift : ℕ
target_ioc_sizeshift = target_ioc_typeshift + target_ioc_typebits

abbrev pub target_ioc_dirshift : ℕ
target_ioc_dirshift = target_ioc_sizeshift + target_ioc_sizebits

unfoldable pub target_ioc : ℕ → ℕ → ℕ → ℕ → ℕ
target_ioc dir type nr size =
    bit_or
      (bit_or (bit_or (dir * 2 ^ target_ioc_dirshift) (type * 2 ^ target_ioc_typeshift))
        (nr * 2 ^ target_ioc_nrshift))
      (size * 2 ^ target_ioc_sizeshift)

unfoldable pub target_io : ℕ → ℕ → ℕ
unfolding target_ioc
target_io type nr = target_ioc target_ioc_none type nr 0

unfoldable pub target_ior : ℕ → ℕ → CType → ℕ
unfolding target_ioc sizeof
target_ior type nr t = target_ioc target_ioc_read type nr (sizeof t)

unfoldable pub target_iow : ℕ → ℕ → CType → ℕ
unfolding target_ioc sizeof
target_iow type nr t = target_ioc target_ioc_write type nr (sizeof t)

unfoldable pub target_iowr : ℕ → ℕ → CType → ℕ
unfolding target_ioc sizeof
target_iowr type nr t = target_ioc (bit_or target_ioc_read target_ioc_write) type nr (sizeof t)

unfoldable pub target_ioru : ℕ → ℕ → ℕ
unfolding target_ioc
target_ioru type nr = target_ioc target_ioc_read type nr target_ioc_sizemask

unfoldable pub target_iowu : ℕ → ℕ → ℕ
unfolding target_ioc
target_iowu type nr = target_ioc target_ioc_write type nr target_ioc_sizemask

unfoldable pub target_iowru : ℕ → ℕ → ℕ
unfolding target_ioc
target_iowru type nr =
    target_ioc (bit_or target_ioc_read target_ioc_write) type nr target_ioc_sizemask
