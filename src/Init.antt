-- ===== src/Init.antt =====
-- `sl_init` and `init_stack` of proj/sparc-linux/syscall.c: the first state of the target, and the
-- arguments of its program in its memory.
pub mod Arguments
pub mod Vector
pub mod StackFrame
pub mod Begins
use sparcy.Base.{
  ℕ, zero, suc, ◌+◌, ◌-◌, ◌*◌, ◌/◌, ◌%◌, ◌^◌, List, [], ◌∷◌, ◌++◌, ◌==◌, if◌then◌else◌, u32, length,
}
use sparcy.Memory.{Memory, memcpy, ldub_p, stl_be_p}
use sparcy.Guest.{Target, g2h}

-- What becomes of the start: the arguments stand in the memory, the process ends since a pointer
-- of `argv` is NULL, or the search for a NUL does not end within the fuel.
pub data Start (A : Type 0) : Type 0 where
  started : A → Start A
  exited unterminated : Start A

module _ {A B : Type 0} where
  abbrev pub then_start : Start A → (A → Start B) → Start B
  then_start (started a) f = f a
  then_start exited f = exited
  then_start unterminated f = unterminated

-- `while (*tmp++);`: the bytes of the string at host address `p`, its NUL included, after `len` bytes.
unfoldable pub string_size : ℕ → Memory → ℕ → ℕ → Start ℕ
unfolding ldub_p
string_size zero m p len = unterminated
string_size (suc fuel) m p len =
    let rest = string_size fuel m (p + 1) (len + 1) in
    if ldub_p m p == 0 then started (len + 1) else rest

-- The next address below `guest_ptr` for a string of `len` bytes, in steps of 16.
unfoldable pub slot_below : ℕ → ℕ → ℕ
slot_below guest_ptr len = u32 (guest_ptr + (2 ^ 32 - u32 ((len + 15) / 16 * 16)))

-- The memory, the pointer, and the pointers to the arguments copied so far, the lowest first.
pub record Copied : Type 0 where
  pub memory : Memory
  pub guest_ptr : ℕ
  pub new_argv : List ℕ

-- One round: `len + 1` bytes are copied, although `len` counts the NUL.
unfoldable pub copy_string : Target → ℕ → ℕ → Copied → Copied
unfolding slot_below g2h memcpy
copy_string t arg len c =
    let guest_ptr = slot_below c.guest_ptr len in
    record {
      memory = memcpy c.memory (g2h t guest_ptr) arg (len + 1);
      guest_ptr = guest_ptr;
      new_argv = guest_ptr ∷ c.new_argv;
    }

unfoldable pub copy_argument : ℕ → Target → ℕ → Copied → Start Copied
unfolding string_size copy_string
copy_argument fuel t arg c =
    if arg == 0
    then exited
    else then_start (string_size fuel c.memory arg 0) (λ len. started (copy_string t arg len c))

-- The loop from the last argument to the first.
unfoldable pub copy_arguments : ℕ → Target → List ℕ → Copied → Start Copied
unfolding copy_argument
copy_arguments fuel t [] c = started c
copy_arguments fuel t (arg ∷ argv) c =
    then_start (copy_arguments fuel t argv c) (copy_argument fuel t arg)

-- `put_user_ual`, where a bad address is passed over.
unfoldable pub try_put : Target → Memory → ℕ → ℕ → Memory
unfolding g2h stl_be_p
try_put t m x gaddr = if g2h t gaddr == 0 then m else stl_be_p m (g2h t gaddr) x

unfoldable pub put_words : Target → Memory → ℕ → List ℕ → Memory
unfolding try_put
put_words t m guest_ptr [] = m
put_words t m guest_ptr (x ∷ xs) = put_words t (try_put t m x guest_ptr) (u32 (guest_ptr + 4)) xs

-- The frame: argc, the pointers and a 0, one register window above the stack pointer.
unfoldable pub init_stack : ℕ → Target → List ℕ → Memory → Start Memory
unfolding copy_arguments put_words
init_stack fuel t argv m =
    then_start
      (copy_arguments fuel t argv
        (record { memory = m; guest_ptr = u32 t.guest_max_mem; new_argv = [] }))
      (λ c. started (
        put_words t c.memory (u32 (t.target_sp + 16 * 4)) (length argv ∷ (c.new_argv ++ (0 ∷ [])))))

-- The globals that `sl_init` sets. Its table of errors is in Errno.
unfoldable pub init_target : ℕ → ℕ → ℕ → ℕ → Target
init_target brk init_stack_pointer gb gm = record {
  target_brk = brk;
  target_brk_limit = u32 (gm / 4);
  target_cur_mmap_ptr = u32 (gm / 4);
  target_mmap_limit = u32 (gm / 2);
  target_sp = init_stack_pointer;
  target_exit_called = 0;
  guest_base = gb;
  guest_max_mem = gm;
}

-- `argv` holds the host addresses of the `argc` arguments.
unfoldable pub sl_init : ℕ → ℕ → ℕ → ℕ → ℕ → List ℕ → Memory → Start (Target × Memory)
unfolding init_target init_stack
sl_init fuel brk init_stack_pointer gb gm argv m =
    let t = init_target brk init_stack_pointer gb gm in
    then_start (init_stack fuel t argv m) (λ m'. started (t, m'))
