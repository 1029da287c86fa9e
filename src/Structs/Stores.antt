-- ===== src/Structs/Stores.antt =====
-- What the guest reads in a structure of proj/sparc-linux/syscall_defs.h after `__put_user` has stored its
-- fields one after the other.
use sparcy.Base.{
  zero, suc, &&_both, ℕ, ◌+◌, ◌^◌, ◌%◌, ◌≤◌, ◌<◌, ◌≡◌, refl, ap, ◌∙◌, ◌⊎◌, Bool, true, ◌&&◌, ◌||◌,
  leb, List, [], ◌∷◌, All, arith,
}
use sparcy.Memory.{Memory, stw_be_p, stl_be_p, stq_be_p, lduw_be_p, ldl_be_p, ldq_be_p}
use sparcy.Memory.Accessors.{ld_be_p-st_be_p}
use sparcy.Memory.Loads.{
  lduw_be_p-same, ldl_be_p-same, ldq_be_p-same, stw_he_p_outside, stq_he_p_outside,
}
use sparcy.Memory.Ranges.{stl_be_p_outside}

pub data Width : Type 0 where
  half long quad : Width

abbrev pub size : Width → ℕ
size half = 2
size long = 4
size quad = 8

-- A number cut to a width.
abbrev pub cut : Width → ℕ → ℕ
cut half v = v % 2 ^ 16
cut long v = v % 2 ^ 32
cut quad v = v % 2 ^ 64

-- One store: its offset in the structure, its width and what is stored.
pub record Store : Type 0 where
  pub offset : ℕ
  pub width : Width
  pub stored : ℕ

abbrev pub put : Memory → ℕ → Width → ℕ → Memory
put m q half v = stw_be_p m q v
put m q long v = stl_be_p m q v
put m q quad v = stq_be_p m q v

abbrev pub load : Memory → ℕ → Width → ℕ
load m q half = lduw_be_p m q
load m q long = ldl_be_p m q
load m q quad = ldq_be_p m q

-- The stores to the structure at `p`, the first one first.
abbrev pub put_all : Memory → ℕ → List Store → Memory
put_all m p [] = m
put_all m p (s ∷ ss) = put_all (put m (p + s.offset) s.width s.stored) p ss

-- The same, where the first field is at `p` itself.
abbrev at : ℕ → ℕ → ℕ
at p zero = p
at p (suc o) = p + suc o

abbrev pub put_each : Memory → ℕ → List Store → Memory
put_each m p [] = m
put_each m p (s ∷ ss) = put_each (put m (at p s.offset) s.width s.stored) p ss

at_lem : (p o : ℕ) → at p o ≡ p + o
at_lem p zero = omega arith
at_lem p (suc o) = refl

pub put_each-put_all : (m : Memory) (p : ℕ) (ss : List Store) → put_each m p ss ≡ put_all m p ss
put_each-put_all m p [] = refl
put_each-put_all m p (s ∷ ss) =
    ap (λ q. put_each (put m q s.width s.stored) p ss) (at_lem p s.offset)
    ∙ put_each-put_all (put m (p + s.offset) s.width s.stored) p ss

put_outside :
    (m : Memory) (q : ℕ) (w : Width) (v r : ℕ) → (r < q) ⊎ (q + size w ≤ r) → put m q w v r ≡ m r
unfolding stw_be_p stq_be_p
put_outside m q half v r h = stw_he_p_outside m q _ r h
put_outside m q long v r h = stl_be_p_outside m q v r h
put_outside m q quad v r h = stq_he_p_outside m q _ r h

load-put : (m : Memory) (q : ℕ) (w : Width) (v : ℕ) → load (put m q w v) q w ≡ cut w v
load-put m q half v = (ld_be_p-st_be_p m q v).0
load-put m q long v = (ld_be_p-st_be_p m q v).1
load-put m q quad v = (ld_be_p-st_be_p m q v).2

load-same :
    (m m' : Memory) (q : ℕ) (w : Width)
    → ((r : ℕ) → q ≤ r → r < q + size w → m' r ≡ m r)
    → load m' q w ≡ load m q w
load-same m m' q half h = lduw_be_p-same m m' q h
load-same m m' q long h = ldl_be_p-same m m' q h
load-same m m' q quad h = ldq_be_p-same m m' q h

-- Two stores meet in no byte.
abbrev apart : Store → Store → Bool
apart a b = leb (a.offset + size a.width) b.offset || leb (b.offset + size b.width) a.offset

abbrev apart_from : Store → List Store → Bool
apart_from a [] = true
apart_from a (b ∷ bs) = apart a b && apart_from a bs

abbrev pub all_apart : List Store → Bool
all_apart [] = true
all_apart (a ∷ ss) = apart_from a ss && all_apart ss

-- All stores lie below `n`.
abbrev pub all_below : ℕ → List Store → Bool
all_below n [] = true
all_below n (a ∷ ss) = leb (a.offset + size a.width) n && all_below n ss

-- A byte of one store is none of the other's.
beside :
    (p : ℕ) (a b : Store) (r : ℕ)
    → apart a b ≡ true
    → p + a.offset ≤ r
    → r < p + a.offset + size a.width
    → (r < p + b.offset) ⊎ (p + b.offset + size b.width ≤ r)
beside p a b r h above below = ground arith

-- The stores, for memory `m`, are read back.
abbrev pub AllRead : Memory → ℕ → List Store → Type 0
AllRead m p ss = All (λ a. load m (p + a.offset) a.width ≡ cut a.width a.stored) ss

put_all_keeps :
    (m : Memory) (p : ℕ) (a : Store) (ss : List Store)
    → apart_from a ss ≡ true
    → load (put_all m p ss) (p + a.offset) a.width ≡ load m (p + a.offset) a.width
put_all_keeps m p a [] h = refl
put_all_keeps m p a (b ∷ bs) h =
    let both : (apart a b ≡ true) × (apart_from a bs ≡ true) = ground arith in
    let next = put m (p + b.offset) b.width b.stored in
    put_all_keeps next p a bs both.1
    ∙ load-same m next (p + a.offset) a.width λ r above below.
      put_outside m (p + b.offset) b.width b.stored r (beside p a b r both.0 above below)

-- Each store is read back.
pub put_all_lem :
    (m : Memory) (p : ℕ) (ss : List Store) → all_apart ss ≡ true → AllRead (put_all m p ss) p ss
put_all_lem m p [] h = tt
put_all_lem m p (a ∷ ss) h =
    let both : (apart_from a ss ≡ true) × (all_apart ss ≡ true) = ground arith in
    let next = put m (p + a.offset) a.width a.stored in
    (
      put_all_keeps next p a ss both.0 ∙ load-put m (p + a.offset) a.width a.stored,
      put_all_lem next p ss both.1,
    )

pub put_all_outside :
    (m : Memory) (p n : ℕ) (ss : List Store) (r : ℕ)
    → all_below n ss ≡ true
    → (r < p) ⊎ (p + n ≤ r)
    → put_all m p ss r ≡ m r
put_all_outside m p n [] r h k = refl
put_all_outside m p n (a ∷ ss) r h k =
    let both : (leb (a.offset + size a.width) n ≡ true) × (all_below n ss ≡ true) = ground arith in
    put_all_outside (put m (p + a.offset) a.width a.stored) p n ss r both.1 k
    ∙ put_outside m (p + a.offset) a.width a.stored r (ground arith)

-- A change of the bytes from the `n`-th on leaves what is read below.
pub AllRead-below :
    (m m' : Memory) (p n : ℕ) (ss : List Store)
    → all_below n ss ≡ true
    → ((r : ℕ) → r < p + n → m' r ≡ m r)
    → AllRead m p ss
    → AllRead m' p ss
AllRead-below m m' p n [] h same reads = tt
AllRead-below m m' p n (a ∷ ss) h same reads =
    let both = &&_both (leb (a.offset + size a.width) n) (all_below n ss) h in
    let under : a.offset + size a.width ≤ n = ground arith in
    (
      load-same m m' (p + a.offset) a.width (λ r _ below. same r (omega (arith, under, below)))
          ∙ reads.0,
      AllRead-below m m' p n ss both.1 same reads.1,
    )
