-- ===== src/Init/Arguments.antt =====
-- Where `init_stack` of proj/sparc-linux/syscall.c puts the arguments of the program.
use sparcy.Base.{
  ℕ, zero, suc, ◌+◌, ◌-◌, ◌%◌, ◌^◌, ◌≤◌, ◌<◌, ◌≡◌, refl, ◌⊎◌, arith, ◌∷◌, u8, ◌≢◌, ap, sym, ◌∙◌,
}
use sparcy.Memory.{Memory, stb_p, memcpy, ldub_p}
use sparcy.Memory.Ranges.{memcpy_outside}
use sparcy.Guest.{Target, g2h}
use sparcy.Init.{started, Copied, string_size, slot_below, copy_string}

-- A copy between places that do not overlap.
memcpy_inside :
    (m : Memory) (to from n i : ℕ)
    → (to + n ≤ from) ⊎ (from + n ≤ to)
    → i < n
    → memcpy m to from n (to + i) ≡ u8 (m (from + i))
unfolding memcpy
memcpy_inside m to from zero i apart h = absurd (omega arith)
memcpy_inside m to from (suc n) zero apart h =
    ground (arith, memcpy_outside (stb_p m to (m from)) (to + 1) (from + 1) n (to + 0))
memcpy_inside m to from (suc n) (suc i) apart h =
    ground (arith, memcpy_inside (stb_p m to (m from)) (to + 1) (from + 1) n i)

slot_below_lem :
    (p len : ℕ)
    → len + 15 ≤ p
    → p < 2 ^ 32
    → p % 16 ≡ 0
    → (slot_below p len + len ≤ p) × (p ≤ slot_below p len + len + 15) × (slot_below p len % 16 ≡ 0)
unfolding slot_below
slot_below_lem p len h k = omega arith

-- `len` bytes at host address `arg`, the last of them the only NUL, away from the guest's memory.
pub record IsArgument (fuel : ℕ) (t : Target) (m : Memory) (arg len : ℕ) : Type 0 where
  pub not_null : arg ≢ 0
  pub not_empty : 0 < len
  pub in_fuel : len ≤ fuel
  pub ends : u8 (m (arg + (len - 1))) ≡ 0
  pub no_earlier : (i : ℕ) → i + 1 < len → u8 (m (arg + i)) ≢ 0
  pub apart : (arg + len < t.guest_base) ⊎ (t.guest_base + 2 ^ 32 ≤ arg)

-- The search from byte `done` on finds the size.
pub string_size_lem :
    (fuel : ℕ) (m : Memory) (arg left done : ℕ)
    → left < fuel
    → u8 (m (arg + left)) ≡ 0
    → ((i : ℕ) → i < left → u8 (m (arg + i)) ≢ 0)
    → string_size fuel m arg done ≡ started (done + left + 1)
unfolding string_size ldub_p
string_size_lem zero m arg left done h e k = absurd (omega arith)
string_size_lem (suc fuel) m arg zero done h e k = ground arith
string_size_lem (suc fuel) m arg (suc left) done h e k = ground (
  arith,
  k 0,
  string_size_lem fuel m (arg + 1) left (done + 1) (omega arith) (ground (arith, e))
      (λ i lt. ground (arith, k (i + 1))),
)

-- What one round does to the memory and the pointer.
pub record CopiesString (t : Target) (arg len : ℕ) (c c' : Copied) : Type 0 where
  pub below : c'.guest_ptr + len ≤ c.guest_ptr
  pub close : c.guest_ptr ≤ c'.guest_ptr + len + 15
  pub aligned : c'.guest_ptr % 16 ≡ 0
  pub content :
      (i : ℕ) → i ≤ len → c'.memory (c'.guest_ptr + t.guest_base + i) ≡ u8 (c.memory (arg + i))
  pub rest_kept :
      (q : ℕ)
      → (q < c'.guest_ptr + t.guest_base) ⊎ (c'.guest_ptr + t.guest_base + len < q)
      → c'.memory q ≡ c.memory q
  pub pointers : c'.new_argv ≡ (c'.guest_ptr ∷ c.new_argv)

-- A string of `len` bytes, its NUL included, goes to the highest multiple of 16 that leaves room for it
-- below the pointer. The byte after it is copied too, and no other byte changes: it lies below the old
-- pointer unless `len` is a multiple of 16, when it overwrites the first byte above.
pub copy_string-CopiesString :
    (t : Target) (arg len : ℕ) (c : Copied)
    → t.guest_base + 2 ^ 32 ≤ 2 ^ 64
    → len + 15 ≤ c.guest_ptr
    → c.guest_ptr < 2 ^ 32
    → c.guest_ptr % 16 ≡ 0
    → (arg + len < t.guest_base) ⊎ (t.guest_base + 2 ^ 32 ≤ arg)
    → CopiesString t arg len c (copy_string t arg len c)
unfolding copy_string g2h
copy_string-CopiesString t arg len c fits room small aligned apart = record {
  below = slot.0;
  close = slot.1;
  aligned = slot.2;
  content = λ i h.
      rw start
        (memcpy_inside c.memory (p + t.guest_base) arg (len + 1) i (omega arith) (omega arith));
  rest_kept =
      λ q h. rw start (memcpy_outside c.memory (p + t.guest_base) arg (len + 1) q (omega arith));
  pointers = refl;
}
  where
    p : ℕ
    p = slot_below c.guest_ptr len

    slot : (p + len ≤ c.guest_ptr) × (c.guest_ptr ≤ p + len + 15) × (p % 16 ≡ 0)
    slot = slot_below_lem c.guest_ptr len room small aligned

    start : g2h t p ≡ p + t.guest_base
    start = omega (arith, slot)

-- A string whose size, its NUL included, is a multiple of 16 fills its slot, and the byte after it is
-- copied over the byte above: for the last argument that is the first byte after the guest's memory.
pub copy_string_overruns :
    (t : Target) (arg len : ℕ) (c : Copied)
    → t.guest_base + 2 ^ 32 ≤ 2 ^ 64
    → len + 15 ≤ c.guest_ptr
    → c.guest_ptr < 2 ^ 32
    → c.guest_ptr % 16 ≡ 0
    → (arg + len < t.guest_base) ⊎ (t.guest_base + 2 ^ 32 ≤ arg)
    → len % 16 ≡ 0
    → (copy_string t arg len c).memory (c.guest_ptr + t.guest_base) ≡ u8 (c.memory (arg + len))
copy_string_overruns t arg len c fits room small aligned apart whole =
    let h = copy_string-CopiesString t arg len c fits room small aligned apart in
    let full : (copy_string t arg len c).guest_ptr + len ≡ c.guest_ptr =
      omega (arith, h.below, h.close, h.aligned) in
    let place : (copy_string t arg len c).guest_ptr + t.guest_base + len
        ≡ c.guest_ptr + t.guest_base =
      omega (arith, full) in
    ap (copy_string t arg len c).memory (sym place) ∙ h.content len (omega arith)
