-- ===== src/Structs/Placement.antt =====
-- How the fields of a structure of proj/sparc-linux/syscall_defs.h lie in it.
use Prim.Native.String.{String}
use text.Mathlib.TextEquality.{eq_iff}
use text.Mathlib.Text as Text
use mathlib.Core.Path.{subst}
use sparcy.Base.{
  ℕ, ◌+◌, ◌%◌, ◌≤◌, ◌≡◌, ◌≢◌, sym, ◌∙◌, ◌⊎◌, inl, inr, some, true, false, Bool-cases, arith,
  if_taken, if_skipped,
}
use sparcy.Structs.{
  CType, Fields, end, ◌⦂◌▹◌, struct, Align, one, two, four, eight, bytes, stricter, align_up,
  alignof, fields_align, sizeof, end_of, find,
}

align_up-le : (n : ℕ) (a : Align) → n ≤ align_up n a
align_up-le n one = omega arith
align_up-le n two = omega arith
align_up-le n four = omega arith
align_up-le n eight = omega arith

align_up-multiple : (n : ℕ) (a : Align) → align_up n a % bytes a ≡ 0
align_up-multiple n one = omega arith
align_up-multiple n two = omega arith
align_up-multiple n four = omega arith
align_up-multiple n eight = omega arith

-- A multiple of the stricter alignment is one of both.
stricter-multiple :
    (a b : Align) (n : ℕ) → n % bytes (stricter a b) ≡ 0 → (n % bytes a ≡ 0) × (n % bytes b ≡ 0)
stricter-multiple one b n h = grind arith
stricter-multiple two b n h = grind arith
stricter-multiple four b n h = grind arith
stricter-multiple eight b n h = grind arith

end_of-le : (fs : Fields) (n : ℕ) → n ≤ end_of fs n
unfolding sizeof
end_of-le end n = omega arith
end_of-le (name ⦂ t ▹ fs) n =
    omega (arith, align_up-le n (alignof t), end_of-le fs (align_up n (alignof t) + sizeof t))

-- A field that is found lies after the bytes before the fields and before their end, at a multiple of
-- its alignment.
pub record IsPlaced (fs : Fields) (n o : ℕ) (t : CType) : Type 0 where
  pub starts : n ≤ o
  pub ends : o + sizeof t ≤ end_of fs n
  pub own_multiple : o % bytes (alignof t) ≡ 0
  pub fits_struct : (b : ℕ) → b % bytes (fields_align fs) ≡ 0 → b % bytes (alignof t) ≡ 0

head-IsPlaced :
    (name : String) (u : CType) (fs : Fields) (n : ℕ)
    → IsPlaced (name ⦂ u ▹ fs) n (align_up n (alignof u)) u
unfolding sizeof
head-IsPlaced name u fs n = record {
  starts = align_up-le n (alignof u);
  ends = end_of-le fs (align_up n (alignof u) + sizeof u);
  own_multiple = align_up-multiple n (alignof u);
  fits_struct = λ b h. (stricter-multiple (alignof u) (fields_align fs) b h).0;
}

tail-IsPlaced :
    (name : String) (u : CType) (fs : Fields) (n o : ℕ) (t : CType)
    → IsPlaced fs (align_up n (alignof u) + sizeof u) o t
    → IsPlaced (name ⦂ u ▹ fs) n o t
unfolding sizeof
tail-IsPlaced name u fs n o t p = record {
  starts = omega (arith, p.starts, align_up-le n (alignof u));
  ends = p.ends;
  own_multiple = p.own_multiple;
  fits_struct = λ b h. p.fits_struct b (stricter-multiple (alignof u) (fields_align fs) b h).1;
}

-- The first of the fields is found, or another.
find_cases :
    (wanted name : String) (u : CType) (fs : Fields) (n o : ℕ) (t : CType)
    → find (name ⦂ u ▹ fs) wanted n ≡ some (o, t)
    → ((wanted ≡ name) × ◌≡◌ {A = ℕ × CType} (align_up n (alignof u), u) (o, t))
      ⊎ (find fs wanted (align_up n (alignof u) + sizeof u) ≡ some (o, t))
unfolding find
find_cases wanted name u fs n o t h = elim (Bool-cases (Text.◌==◌ wanted name)) [
  | inl here ↦
      let found = sym (if_taken (Text.◌==◌ wanted name) _ _ here) ∙ h in
      inl ((eq_iff wanted name).0 here, cc)
  | inr later ↦ inr (sym (if_skipped (Text.◌==◌ wanted name) _ _ later) ∙ h)
]

find-IsPlaced :
    (wanted : String) (fs : Fields) (n o : ℕ) (t : CType)
    → find fs wanted n ≡ some (o, t)
    → IsPlaced fs n o t
unfolding find
find-IsPlaced wanted end n o t h = absurd (cc)
find-IsPlaced wanted (name ⦂ u ▹ fs) n o t h = elim (find_cases wanted name u fs n o t h) [
  | inl (_, here) ↦
      subst (λ (p : ℕ × CType). IsPlaced (name ⦂ u ▹ fs) n p.0 p.1) here (head-IsPlaced name u fs n)
  | inr later ↦
      tail-IsPlaced name u fs n o t
        (find-IsPlaced wanted fs (align_up n (alignof u) + sizeof u) o t later)
]

-- Two fields lie one before the other.
Apart : (o : ℕ) (t : CType) (p : ℕ) (u : CType) → Type 0
Apart o t p u = (o + sizeof t ≤ p) ⊎ (p + sizeof u ≤ o)

find_apart :
    (a b : String) (fs : Fields) (n o p : ℕ) (t u : CType)
    → find fs a n ≡ some (o, t)
    → find fs b n ≡ some (p, u)
    → a ≢ b
    → Apart o t p u
unfolding Apart find
find_apart a b end n o p t u h k differ = absurd (cc)
find_apart a b (name ⦂ v ▹ fs) n o p t u h k differ =
    let after = align_up n (alignof v) + sizeof v in
    elim (find_cases a name v fs n o t h) [
      | inl (is_a, here) ↦ elim (find_cases b name v fs n p u k) [
        | inl (is_b, _) ↦ absurd (differ (is_a ∙ sym is_b))
        | inr later ↦
            let q = find-IsPlaced b fs after p u later in
            subst (λ (r : ℕ × CType). Apart r.0 r.1 p u) here (inl q.starts)
      ]
      | inr later ↦ elim (find_cases b name v fs n p u k) [
        | inl (_, here) ↦
            let q = find-IsPlaced a fs after o t later in
            subst (λ (r : ℕ × CType). Apart o t r.0 r.1) here (inr q.starts)
        | inr later' ↦ find_apart a b fs after o p t u later later' differ
      ]
    ]

add-multiple : (a : Align) (x y : ℕ) → x % bytes a ≡ 0 → y % bytes a ≡ 0 → (x + y) % bytes a ≡ 0
add-multiple one x y h k = omega arith
add-multiple two x y h k = omega arith
add-multiple four x y h k = omega arith
add-multiple eight x y h k = omega arith

true_is_not_false : ¬ (true ≡ false)
true_is_not_false h = ground arith

-- Any two fields of any structure: each ends within `sizeof` the structure, and lies at a multiple of its
-- own alignment where the structure lies at a multiple of the structure's; they have the same name or
-- share no byte; and `sizeof` is a multiple of the alignment, so the elements of an array of structures
-- are aligned too.
pub find-sizeof :
    (a b : String) (fs : Fields) (o p base : ℕ) (t u : CType)
    → find fs a 0 ≡ some (o, t)
    → find fs b 0 ≡ some (p, u)
    → base % bytes (alignof (struct fs)) ≡ 0
    → (o + sizeof t ≤ sizeof (struct fs))
      × ((base + o) % bytes (alignof t) ≡ 0)
      × ((a ≡ b) ⊎ (o + sizeof t ≤ p) ⊎ (p + sizeof u ≤ o))
      × (sizeof (struct fs) % bytes (alignof (struct fs)) ≡ 0)
unfolding sizeof alignof Apart
find-sizeof a b fs o p base t u h k multiple =
    let placed = find-IsPlaced a fs 0 o t h in
    (
      omega (arith, placed.ends, align_up-le (end_of fs 0) (fields_align fs)),
      add-multiple (alignof t) base o (placed.fits_struct base multiple) placed.own_multiple,
      elim (Bool-cases (Text.◌==◌ a b)) [
        | inl same ↦ inl ((eq_iff a b).0 same)
        | inr differ ↦
            let apart : a ≢ b = λ e. true_is_not_false (sym ((eq_iff a b).1 e) ∙ differ) in
            inr (find_apart a b fs 0 o p t u h k apart)
      ],
      align_up-multiple (end_of fs 0) (fields_align fs),
    )
