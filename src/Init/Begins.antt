-- ===== src/Init/Begins.antt =====
-- What `sl_init` of proj/sparc-linux/syscall.c leaves to the program.
use sparcy.Base.{
  ℕ, suc, ◌∙◌, ◌+◌, ◌*◌, ◌/◌, ◌%◌, ◌^◌, ◌≤◌, ◌<◌, ◌≡◌, ◌⊎◌, refl, arith, List, [], ◌∷◌, ◌++◌, u32,
  length, map, length-append, ap,
}
use sparcy.Memory.{Memory}
use sparcy.Guest.{Target}
use sparcy.Layout.{IsLaidOut}
use sparcy.Init.{started, Copied, init_target, init_stack, sl_init, put_words, copy_arguments}
use sparcy.Init.Vector.{
  Placed, Placed-keep, room, IsArgument-keep, AreArguments, CopiesAll, copy_arguments-CopiesAll,
}
use sparcy.Init.StackFrame.{Words, put_words-Words, put_words_outside}

-- The globals that `sl_init` sets divide the memory, where the program ends in its first quarter.
pub init_target-IsLaidOut :
    (brk sp gb gm : ℕ)
    → brk ≤ gm / 4
    → gm ≤ 2 ^ 32
    → gb + 2 ^ 32 ≤ 2 ^ 64
    → IsLaidOut brk (init_target brk sp gb gm)
unfolding init_target
init_target-IsLaidOut brk sp gb gm small whole fits = omega arith

Placed-length :
    (t : Target) (m m' : Memory) (low : ℕ) (l : List (ℕ × ℕ)) (ps : List ℕ)
    → Placed t m m' low l ps
    → length ps ≡ length l
Placed-length t m m' low [] [] p = refl
Placed-length t m m' low [] (p ∷ ps) b = absurd b
Placed-length t m m' low (x ∷ l) [] b = absurd b
Placed-length t m m' low ((arg, len) ∷ l) (p ∷ ps) (_, rest) =
    ap suc (Placed-length t m m' low l ps rest)

pub length-map_first : (l : List (ℕ × ℕ)) → length (map (λ x. x.0) l) ≡ length l
length-map_first [] = refl
length-map_first (x ∷ l) = ap suc (length-map_first l)

-- What the guest's memory holds at the start: above the register window that the stack pointer points
-- to stand the number of arguments, a pointer to the string of each, and a 0. Below it nothing has
-- changed.
pub record HoldsArguments (t : Target) (l : List (ℕ × ℕ)) (m m' : Memory) : Type 0 where
  pub pointers : List ℕ
  pub lowest : ℕ
  pub frame : Words t m' (t.target_sp + 64) (length l ∷ (pointers ++ (0 ∷ [])))
  pub strings : Placed t m m' lowest l pointers
  pub above_frame : t.target_sp + 64 + 4 * (length l + 2) ≤ lowest
  pub below_kept : (q : ℕ) → q < t.target_sp + 64 + t.guest_base → m' q ≡ m q

-- What `init_stack` needs: memory below 4 GiB in multiples of 16 bytes, room above the stack pointer
-- for the frame and the strings, fuel to find each NUL, and no argument whose size, its NUL included, is
-- a multiple of 16: the byte that is copied past such a one can lie in the string before it.
pub record HasRoom (fuel : ℕ) (t : Target) (l : List (ℕ × ℕ)) (m : Memory) : Type 0 where
  pub host_fits : t.guest_base + 2 ^ 32 ≤ 2 ^ 64
  pub below_4g : t.guest_max_mem < 2 ^ 32
  pub whole_slots : t.guest_max_mem % 16 ≡ 0
  pub frame_fits : t.target_sp + 64 + 4 * (length l + 2) + room l ≤ t.guest_max_mem
  pub arguments : AreArguments fuel t m l

module _ (fuel : ℕ) (t : Target) where
  frame_after :
      (l : List (ℕ × ℕ)) (m : Memory) (c' : Copied)
      → HasRoom fuel t l m
      → CopiesAll t l (record { memory = m; guest_ptr = t.guest_max_mem; new_argv = [] }) c'
      → HoldsArguments t l m
          (put_words t c'.memory (t.target_sp + 64) (length l ∷ (c'.new_argv ++ (0 ∷ []))))
  frame_after l m c' h a = record {
    pointers = c'.new_argv;
    lowest = c'.guest_ptr;
    frame =
        put_words-Words t c'.memory (t.target_sp + 64) words h.host_fits (omega (arith, count))
          (omega (arith, count));
    strings =
        Placed-keep t m c'.memory (put_words t c'.memory (t.target_sp + 64) words) c'.guest_ptr
          c'.guest_ptr l c'.new_argv (omega (arith, count))
          (λ q k.
            put_words_outside t c'.memory (t.target_sp + 64) words h.host_fits
              (omega (arith, count)) q (omega (arith, count)))
          a.placed;
    above_frame = omega (arith, a.close, h.frame_fits);
    below_kept = λ q k.
        put_words_outside t c'.memory (t.target_sp + 64) words h.host_fits (omega (arith, count)) q
          (omega arith)
        ∙ a.rest_kept q (omega (arith, count));
  }
    where
      words : List ℕ
      words = length l ∷ (c'.new_argv ++ (0 ∷ []))

      count : length words ≡ length l + 2
      count = omega (
        arith,
        length-append c'.new_argv (0 ∷ []),
        Placed-length t m c'.memory c'.guest_ptr l c'.new_argv a.placed,
      )

  init_stack_ran :
      (l : List (ℕ × ℕ)) (m : Memory) (c' : Copied)
      → HasRoom fuel t l m
      → copy_arguments fuel t
          (map (λ x. x.0) l)
          (record { memory = m; guest_ptr = t.guest_max_mem; new_argv = [] })
        ≡ started c'
      → init_stack fuel t (map (λ x. x.0) l) m
        ≡ started (put_words t c'.memory (t.target_sp + 64) (length l ∷ (c'.new_argv ++ (0 ∷ []))))
  unfolding init_stack
  init_stack_ran l m c' h ran =
      let whole : u32 t.guest_max_mem ≡ t.guest_max_mem = omega arith in
      let above : u32 (t.target_sp + 64) ≡ t.target_sp + 64 = omega arith in
      rw (whole, ran, above, length-map_first l) refl

  -- Enough fuel to find each NUL, and room: `init_stack` ends, the program finds its arguments, and nothing
  -- below its frame has changed.
  pub init_stack-HoldsArguments :
      (l : List (ℕ × ℕ)) (m : Memory)
      → HasRoom fuel t l m
      → (m' : Memory) × (init_stack fuel t (map (λ x. x.0) l) m ≡ started m')
        × HoldsArguments t l m m'
  init_stack-HoldsArguments l m h =
      let c : Copied = record { memory = m; guest_ptr = t.guest_max_mem; new_argv = [] } in
      let (c', ran, a) =
        copy_arguments-CopiesAll fuel t l c h.host_fits (omega arith) h.whole_slots refl
          (omega arith) h.arguments in
      (
        put_words t c'.memory (t.target_sp + 64) (length l ∷ (c'.new_argv ++ (0 ∷ []))),
        init_stack_ran l m c' h ran,
        frame_after l m c' h a,
      )

-- Where the program ends in the first quarter of memory, its arguments have room, and the size of none
-- of them, its NUL included, is a multiple of 16, `sl_init` ends: the heap and the mapped blocks have
-- their shares, the program finds its arguments, and nothing below its frame has changed.
pub sl_init-IsLaidOut :
    (fuel brk sp gb gm : ℕ) (l : List (ℕ × ℕ)) (m : Memory)
    → brk ≤ gm / 4
    → HasRoom fuel (init_target brk sp gb gm) l m
    → (m' : Memory) × (sl_init fuel brk sp gb gm (map (λ x. x.0) l) m
        ≡ started (init_target brk sp gb gm, m'))
      × IsLaidOut brk (init_target brk sp gb gm)
      × HoldsArguments (init_target brk sp gb gm) l m m'
unfolding sl_init init_target
sl_init-IsLaidOut fuel brk sp gb gm l m ends h =
    let (m', ran, holds) = init_stack-HoldsArguments fuel (init_target brk sp gb gm) l m h in
    (m', rw ran refl, init_target-IsLaidOut brk sp gb gm ends (omega arith) (omega arith), holds)

AreArguments-keep :
    (fuel : ℕ) (t t' : Target) (m m' : Memory) (l : List (ℕ × ℕ))
    → t'.guest_base ≡ t.guest_base
    → ((q : ℕ) → (q < t.guest_base) ⊎ (t.guest_base + 2 ^ 32 ≤ q) → m' q ≡ m q)
    → AreArguments fuel t m l
    → AreArguments fuel t' m' l
AreArguments-keep fuel t t' m m' [] base k a = tt
AreArguments-keep fuel t t' m m' ((arg, len) ∷ l) base k ((is_argument, odd), a) =
    let b = IsArgument-keep fuel t m m' arg len k is_argument in
    (
      (
        record {
          not_null = b.not_null;
          not_empty = b.not_empty;
          in_fuel = b.in_fuel;
          ends = b.ends;
          no_earlier = b.no_earlier;
          apart = omega (arith, b.apart, base);
        },
        odd,
      ),
      AreArguments-keep fuel t t' m m' l base k a,
    )

-- Memory that changes only where the guest's is, under another break.
pub HasRoom-keep :
    (fuel brk brk' sp gb gm : ℕ) (m m' : Memory) (l : List (ℕ × ℕ))
    → ((q : ℕ) → (q < gb) ⊎ (gb + 2 ^ 32 ≤ q) → m' q ≡ m q)
    → HasRoom fuel (init_target brk sp gb gm) l m
    → HasRoom fuel (init_target brk' sp gb gm) l m'
unfolding init_target
HasRoom-keep fuel brk brk' sp gb gm m m' l k h = record {
  host_fits = h.host_fits;
  below_4g = h.below_4g;
  whole_slots = h.whole_slots;
  frame_fits = h.frame_fits;
  arguments =
      AreArguments-keep fuel (init_target brk sp gb gm) (init_target brk' sp gb gm) m m' l refl k
        h.arguments;
}
