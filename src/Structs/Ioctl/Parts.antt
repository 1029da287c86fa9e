-- ===== src/Structs/Ioctl/Parts.antt =====
-- What stands in an ioctl number of proj/sparc-linux/syscall_defs.h.
use sparcy.Base.{
  ℕ, ◌+◌, ◌*◌, ◌/◌, ◌%◌, ◌^◌, ◌<◌, ◌≡◌, ap, ◌∙◌, arith, bit_or, bit_or-above, bit_or-split,
}
use sparcy.Structs.Ioctl.{
  target_ioc, target_ioc_nrbits, target_ioc_typebits, target_ioc_sizebits, target_ioc_dirbits,
  target_ioc_nrshift, target_ioc_typeshift, target_ioc_sizeshift, target_ioc_dirshift,
}

-- The `bits` digits of a number from the `shift`-th on.
abbrev pub digits_at : ℕ → ℕ → ℕ → ℕ
digits_at shift bits n = n / 2 ^ shift % 2 ^ bits

-- Numbers that fit their parts of an ioctl number.
pub record Fit (dir type nr size : ℕ) : Type 0 where
  pub dir_fits : dir < 2 ^ target_ioc_dirbits
  pub type_fits : type < 2 ^ target_ioc_typebits
  pub nr_fits : nr < 2 ^ target_ioc_nrbits
  pub size_fits : size < 2 ^ target_ioc_sizebits

target_ioc_sum :
    (dir type nr size : ℕ)
    → Fit dir type nr size
    → target_ioc dir type nr size ≡ dir * 2 ^ 29 + size * 2 ^ 16 + type * 2 ^ 8 + nr
unfolding target_ioc
target_ioc_sum dir type nr size f =
    let low = type * 2 ^ 8 + nr in
    let unit : nr * 2 ^ 0 ≡ nr = omega arith in
    let first : bit_or (dir * 2 ^ 29) (type * 2 ^ 8) ≡ dir * 2 ^ 29 + type * 2 ^ 8 =
      bit_or-above 29 dir (type * 2 ^ 8) (omega (arith, f.type_fits)) in
    let joined : bit_or (dir * 2 ^ 29 + type * 2 ^ 8) nr ≡ dir * 2 ^ 29 + low =
      ap (λ (x : ℕ). bit_or x nr) (omega arith)
      ∙ bit_or-above 8 (dir * 2 ^ 21 + type) nr (omega (arith, f.nr_fits))
      ∙ omega arith in
    let last : bit_or (dir * 2 ^ 29 + low) (size * 2 ^ 16)
        ≡ bit_or (dir * 2 ^ 13) size * 2 ^ 16 + low =
      ap (λ (x : ℕ). bit_or x (size * 2 ^ 16)) (omega arith)
      ∙ bit_or-split 16 (dir * 2 ^ 13) size low (omega (arith, f.type_fits, f.nr_fits)) in
    rw (unit, first, joined, last) (omega (arith, bit_or-above 13 dir size f.size_fits))

-- The four parts of an ioctl number are found again in it, each in its place, where they fit.
pub digits_at-target_ioc :
    (dir type nr size : ℕ)
    → Fit dir type nr size
    → (digits_at target_ioc_dirshift target_ioc_dirbits (target_ioc dir type nr size) ≡ dir)
      × (digits_at target_ioc_typeshift target_ioc_typebits (target_ioc dir type nr size) ≡ type)
      × (digits_at target_ioc_nrshift target_ioc_nrbits (target_ioc dir type nr size) ≡ nr)
      × (digits_at target_ioc_sizeshift target_ioc_sizebits (target_ioc dir type nr size) ≡ size)
      × (target_ioc dir type nr size < 2 ^ 32)
digits_at-target_ioc dir type nr size f = rw (target_ioc_sum dir type nr size f) (
  omega (arith, f.dir_fits, f.type_fits, f.nr_fits, f.size_fits),
  omega (arith, f.dir_fits, f.type_fits, f.nr_fits, f.size_fits),
  omega (arith, f.dir_fits, f.type_fits, f.nr_fits, f.size_fits),
  omega (arith, f.dir_fits, f.type_fits, f.nr_fits, f.size_fits),
  omega (arith, f.dir_fits, f.type_fits, f.nr_fits, f.size_fits),
)
