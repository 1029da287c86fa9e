-- ===== src/Structs/Tables.antt =====
-- Tables of the fields of a structure of proj/sparc-linux/syscall_defs.h with the values that are stored in
-- them.
use Prim.Native.String.{String}
use sparcy.Base.{
  &&_both, ℕ, ◌+◌, ◌≡◌, refl, Bool, true, false, ◌&&◌, List, [], ◌∷◌, All, Option, some, none, ltb,
  if◌then◌else◌, get_or, ◌*◌,
}
use sparcy.Memory.{Memory}
use sparcy.Structs.{CType, Fields, int16, int32, int64, array, struct, find, sizeof, end, ◌⦂◌▹◌}
use sparcy.Structs.Stores.{Width, half, long, quad, Store, cut, load, AllRead}

-- The offset and width of an integer of type `t` at offset `o`: for an array of them, of element `k`; a
-- structure with one field is its field.
abbrev place : CType → ℕ → ℕ → Option (ℕ × Width)
unfolding sizeof
place int16 o k = some (o, half)
place int32 o k = some (o, long)
place int64 o k = some (o, quad)
place (array t n) o k = if ltb k n then place t (o + k * sizeof t) 0 else none
place (struct (name ⦂ t ▹ end)) o k = place t o k
place t o k = none

abbrev pub fields_of : CType → Fields
fields_of (struct fs) = fs
fields_of t = end

-- Where element `k` of a field stands.
unfoldable pub field_place : CType → String → ℕ → Option (ℕ × Width)
unfolding find sizeof
field_place t name k = elim (find (fields_of t) name 0) [ none ↦ none | some (o, u) ↦ place u o k ]

-- A field, an element of it, and the number of the host's value that goes there.
abbrev pub Slot : Type 0
Slot = String × ℕ × ℕ

abbrev store_at : Option (ℕ × Width) → ℕ → List Store → List Store
store_at none v ss = ss
store_at (some (o, w)) v ss = record { offset = o; width = w; stored = v } ∷ ss

-- The stores that a table of fields stands for.
unfoldable pub stores_of : CType → List Slot → List ℕ → List Store
unfolding field_place
stores_of t [] values = []
stores_of t ((name, k, i) ∷ slots) values =
    store_at (field_place t name k) (get_or values i 0) (stores_of t slots values)

-- The guest that reads the field by its declaration finds the host's value, cut to the field's width.
abbrev pub Reads : Memory → ℕ → CType → List ℕ → Slot → Type 0
Reads m p t values (name, k, i) =
    (o : ℕ) × (w : Width) × (field_place t name k ≡ some (o, w))
    × (load m (p + o) w ≡ cut w (get_or values i 0))

abbrev is_some : Option (ℕ × Width) → Bool
is_some none = false
is_some (some _) = true

abbrev pub all_placed : CType → List Slot → Bool
all_placed t [] = true
all_placed t ((name, k, i) ∷ slots) = is_some (field_place t name k) && all_placed t slots

slot_reads :
    (m : Memory) (p : ℕ) (slot : Option (ℕ × Width)) (v : ℕ) (ss : List Store)
    → is_some slot ≡ true
    → AllRead m p (store_at slot v ss)
    → ((o : ℕ) × (w : Width) × (slot ≡ some (o, w)) × (load m (p + o) w ≡ cut w v)) × AllRead m p ss
slot_reads m p none v ss h reads = absurd (cc)
slot_reads m p (some (o, w)) v ss h reads = ((o, w, refl, reads.0), reads.1)

pub stores_of-Reads :
    (m : Memory) (p : ℕ) (t : CType) (slots : List Slot) (values : List ℕ)
    → all_placed t slots ≡ true
    → AllRead m p (stores_of t slots values)
    → All (Reads m p t values) slots
unfolding stores_of
stores_of-Reads m p t [] values h reads = tt
stores_of-Reads m p t ((name, k, i) ∷ slots) values h reads =
    let both = &&_both (is_some (field_place t name k)) (all_placed t slots) h in
    let here =
      slot_reads m p (field_place t name k) (get_or values i 0) (stores_of t slots values) both.0
        reads in
    (here.0, stores_of-Reads m p t slots values both.1 here.1)
