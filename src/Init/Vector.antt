-- ===== src/Init/Vector.antt =====
-- All the arguments that `init_stack` of proj/sparc-linux/syscall.c copies.
use sparcy.Base.{
  ℕ, ◌+◌, ◌-◌, ◌%◌, ◌^◌, ◌≤◌, ◌<◌, ◌≡◌, ◌≢◌, refl, ◌⊎◌, arith, List, [], ◌∷◌, u8, ◌==◌, false, map,
  ap, ◌∙◌,
}
use sparcy.Memory.{Memory}
use sparcy.Guest.{Target}
use sparcy.Init.{started, Copied, string_size, copy_string, copy_argument, copy_arguments}
use sparcy.Init.Arguments.{IsArgument, CopiesString, string_size_lem, copy_string-CopiesString}

-- One argument: its string is found, and copied.
copy_argument_lem :
    (fuel : ℕ) (t : Target) (arg len : ℕ) (c : Copied)
    → IsArgument fuel t c.memory arg len
    → copy_argument fuel t arg c ≡ started (copy_string t arg len c)
unfolding copy_argument
copy_argument_lem fuel t arg len c a = rw (not_null, size) refl
  where
    not_null : (arg == 0) ≡ false
    not_null = ground (arith, a.not_null)

    size : string_size fuel c.memory arg 0 ≡ started len
    size = ground (
      arith,
      string_size_lem fuel c.memory arg (len - 1) 0 (omega (arith, a.not_empty, a.in_fuel)) a.ends
          (λ i lt. a.no_earlier i (omega arith)),
    )

-- At each pointer stands the string of its argument, above `low`.
abbrev pub Placed : Target → Memory → Memory → ℕ → List (ℕ × ℕ) → List ℕ → Type 0
Placed t m m' low [] [] = Unit
Placed t m m' low [] (p ∷ ps) = ⊥
Placed t m m' low (x ∷ l) [] = ⊥
Placed t m m' low ((arg, len) ∷ l) (p ∷ ps) =
    ((low ≤ p)
      × (p < 2 ^ 32)
      × (p % 16 ≡ 0)
      × ((i : ℕ) → i < len → m' (p + t.guest_base + i) ≡ u8 (m (arg + i))))
    × Placed t m m' low l ps

-- Memory that is the same from `low` on.
pub Placed-keep :
    (t : Target) (m m₁ m₂ : Memory) (low low₂ : ℕ) (l : List (ℕ × ℕ)) (ps : List ℕ)
    → low₂ ≤ low
    → ((q : ℕ) → low + t.guest_base ≤ q → m₂ q ≡ m₁ q)
    → Placed t m m₁ low l ps
    → Placed t m m₂ low₂ l ps
Placed-keep t m m₁ m₂ low low₂ [] [] h k p = tt
Placed-keep t m m₁ m₂ low low₂ [] (p ∷ ps) h k b = absurd b
Placed-keep t m m₁ m₂ low low₂ (x ∷ l) [] h k b = absurd b
Placed-keep t m m₁ m₂ low low₂ ((arg, len) ∷ l) (p ∷ ps) h k
      ((above, small, aligned, content), rest) =
    (
      (omega arith, small, aligned, λ i lt. k (p + t.guest_base + i) (omega arith) ∙ content i lt),
      Placed-keep t m m₁ m₂ low low₂ l ps h k rest,
    )

-- Room for the strings, each rounded up to 16 bytes.
abbrev pub room : List (ℕ × ℕ) → ℕ
room [] = 0
room ((arg, len) ∷ l) = room l + (len + 15)

-- The arguments of a list of strings with their sizes, of which none is a multiple of 16.
abbrev pub AreArguments : ℕ → Target → Memory → List (ℕ × ℕ) → Type 0
AreArguments fuel t m [] = Unit
AreArguments fuel t m ((arg, len) ∷ l) =
    (IsArgument fuel t m arg len × (len % 16 ≢ 0)) × AreArguments fuel t m l

-- What the loop leaves.
pub record CopiesAll (t : Target) (l : List (ℕ × ℕ)) (c c' : Copied) : Type 0 where
  pub placed : Placed t c.memory c'.memory c'.guest_ptr l c'.new_argv
  pub aligned : c'.guest_ptr % 16 ≡ 0
  pub below : c'.guest_ptr ≤ c.guest_ptr
  pub close : c.guest_ptr ≤ c'.guest_ptr + room l
  pub rest_kept :
      (q : ℕ)
      → (q < c'.guest_ptr + t.guest_base) ⊎ (c.guest_ptr + t.guest_base ≤ q)
      → c'.memory q ≡ c.memory q

-- The copying of some arguments leaves another one's string where it is.
pub IsArgument-keep :
    (fuel : ℕ) (t : Target) (m m' : Memory) (arg len : ℕ)
    → ((q : ℕ) → (q < t.guest_base) ⊎ (t.guest_base + 2 ^ 32 ≤ q) → m' q ≡ m q)
    → IsArgument fuel t m arg len
    → IsArgument fuel t m' arg len
IsArgument-keep fuel t m m' arg len k a = record {
  not_null = a.not_null;
  not_empty = a.not_empty;
  in_fuel = a.in_fuel;
  ends = rw (k (arg + (len - 1)) (omega (arith, a.apart, a.not_empty))) a.ends;
  no_earlier = λ i lt. rw (k (arg + i) (omega (arith, a.apart))) (a.no_earlier i lt);
  apart = a.apart;
}

module _ (fuel : ℕ) (t : Target) where
  CopiesAll-step :
      (arg len : ℕ) (l : List (ℕ × ℕ)) (c c₁ c' : Copied)
      → c.guest_ptr < 2 ^ 32
      → c.guest_ptr % 16 ≡ 0
      → len % 16 ≢ 0
      → (arg + len < t.guest_base) ⊎ (t.guest_base + 2 ^ 32 ≤ arg)
      → CopiesAll t l c c₁
      → CopiesString t arg len c₁ c'
      → CopiesAll t ((arg, len) ∷ l) c c'
  CopiesAll-step arg len l c c₁ c' small top odd apart a b = record {
    placed = rw b.pointers (
      (
        omega arith,
        omega (arith, a.below, b.below),
        b.aligned,
        λ i lt. b.content i (omega arith) ∙ ap u8 (a.rest_kept (arg + i) (omega arith)),
      ),
      Placed-keep t c.memory c₁.memory c'.memory c₁.guest_ptr c'.guest_ptr l c₁.new_argv
          (omega arith) (λ q h. b.rest_kept q (omega arith)) a.placed,
    );
    aligned = b.aligned;
    below = omega arith;
    close = omega arith;
    rest_kept = λ q h. b.rest_kept q (omega arith) ∙ a.rest_kept q (omega arith);
  }

  -- The round for one argument after the loop over the later ones.
  copy_arguments-step :
      (arg len : ℕ) (l : List (ℕ × ℕ)) (c c₁ : Copied)
      → t.guest_base + 2 ^ 32 ≤ 2 ^ 64
      → c.guest_ptr < 2 ^ 32
      → c.guest_ptr % 16 ≡ 0
      → room l + (len + 15) ≤ c.guest_ptr
      → IsArgument fuel t c.memory arg len
      → len % 16 ≢ 0
      → CopiesAll t l c c₁
      → (c' : Copied) × (copy_argument fuel t arg c₁ ≡ started c')
        × CopiesAll t ((arg, len) ∷ l) c c'
  copy_arguments-step arg len l c c₁ fits small top enough first odd a = (
    copy_string t arg len c₁,
    copy_argument_lem fuel t arg len c₁ (
        IsArgument-keep fuel t c.memory c₁.memory arg len (λ q h. a.rest_kept q (omega arith))
          first),
    CopiesAll-step arg len l c c₁ (copy_string t arg len c₁) small top odd first.apart a (
        copy_string-CopiesString t arg len c₁ fits (omega arith) (omega arith) a.aligned
          first.apart),
  )

  -- Room for the list, and arguments away from the guest's memory, none of which fills its slot of a
  -- multiple of 16 bytes: the loop ends, and each pointer is that of its own string.
  pub copy_arguments-CopiesAll :
      (l : List (ℕ × ℕ)) (c : Copied)
      → t.guest_base + 2 ^ 32 ≤ 2 ^ 64
      → c.guest_ptr < 2 ^ 32
      → c.guest_ptr % 16 ≡ 0
      → c.new_argv ≡ []
      → room l ≤ c.guest_ptr
      → AreArguments fuel t c.memory l
      → (c' : Copied) × (copy_arguments fuel t (map (λ x. x.0) l) c ≡ started c')
        × CopiesAll t l c c'
  unfolding copy_arguments
  copy_arguments-CopiesAll [] c fits small top empty enough args = (
    c,
    refl,
    record {
      placed = rw empty tt;
      aligned = top;
      below = omega arith;
      close = omega arith;
      rest_kept = λ q h. refl;
    },
  )
  copy_arguments-CopiesAll ((arg, len) ∷ l) c fits small top empty enough ((first, odd), others) =
      let (c₁, ran, a) = copy_arguments-CopiesAll l c fits small top empty (omega arith) others in
      rw ran (copy_arguments-step arg len l c c₁ fits small top enough first odd a)
