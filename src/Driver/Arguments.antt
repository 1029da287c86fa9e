-- ===== src/Driver/Arguments.antt =====
-- The arguments that `main` of proj/main.cpp prints through the emulation before the circuit runs.
use sparcy.Base.{
  ℕ, suc, ◌+◌, ◌-◌, ◌*◌, ◌^◌, ◌≤◌, ◌<◌, ◌≡◌, refl, ◌∙◌, sym, ap, arith, false, List, [], ◌∷◌, ◌++◌,
  ◌==◌, u8, u32, sext64, length,
}
use sparcy.Memory.{Memory, ldl_be_p, bswap32, bswap16, ldl_he_p}
use sparcy.Guest.{Sys, Host, HostFn, HostCall, g2h, host_call, lock_user}
use sparcy.Init.{started, then_start, string_size}
use sparcy.Init.Arguments.{IsArgument, string_size_lem}
use sparcy.Init.Vector.{Placed, AreArguments}
use sparcy.Init.StackFrame.{Words}
use sparcy.Init.Begins.{HasRoom, HoldsArguments}
use sparcy.Syscall.{Args, do_syscall, syscall_cases}
use sparcy.Syscall.Basic.{basic_cases}
use sparcy.Driver.Main.{init_stack_pointer, be32tole}
use sparcy.Driver.Start.{print_argument, print_arguments}

-- The guest's call that prints a string of `len` bytes at guest address `val`.
abbrev pub write_args : ℕ → ℕ → ℕ → Args
write_args ret val len = record {
  num = 4;
  arg1 = 2;
  arg2 = val;
  arg3 = u32 len;
  arg4 = 0;
  arg5 = 0;
  arg6 = 0;
  arg7 = 0;
  arg8 = 0;
  ret = ret;
}

do_syscall-write :
    (host : Host) (ret val len : ℕ) (s : Sys)
    → (g2h s.target val == 0) ≡ false
    → (do_syscall host (write_args ret val len) s).1
      ≡ (host_call host HostFn.write (2 ∷ g2h s.target val ∷ sext64 (u32 len) ∷ []) s).1
unfolding do_syscall host_call lock_user syscall_cases basic_cases
do_syscall-write host ret val len s found = rw found refl

be32tole-bswap32 : (x : ℕ) → be32tole x ≡ bswap32 x
unfolding be32tole bswap32 bswap16
be32tole-bswap32 x = omega arith

ldl_be_p_lem : (m : Memory) (q : ℕ) → ldl_be_p m q ≡ bswap32 (ldl_he_p m q)
unfolding ldl_be_p
ldl_be_p_lem m q = refl

order : (gb p i : ℕ) → gb + p + i ≡ p + gb + i
order gb p i = omega arith

module _ (fuel : ℕ) (host : Host) (ret : ℕ) where
  -- The call that prints a string of `len` bytes at guest address `p`.
  abbrev write_call : ℕ → ℕ → ℕ → HostCall
  write_call gb p len = record {
    function = HostFn.write;
    args = 2 ∷ (p + gb) ∷ sext64 (u32 len) ∷ [];
  }

  print_argument_lem :
      (j p arg len : ℕ) (m : Memory) (s : Sys)
      → s.target.guest_base + 2 ^ 32 ≤ 2 ^ 64
      → 0 < p
      → p < 2 ^ 32
      → ldl_be_p s.memory (init_stack_pointer + 64 + 4 * j + s.target.guest_base) ≡ u32 p
      → ((i : ℕ) → i < len → s.memory (p + s.target.guest_base + i) ≡ u8 (m (arg + i)))
      → IsArgument fuel s.target m arg len
      → print_argument fuel host ret j s
        ≡ started
            (host_call host HostFn.write
              (2 ∷ (p + s.target.guest_base) ∷ sext64 (u32 len) ∷ [])
              s).1
  unfolding print_argument
  print_argument_lem j p arg len m s fits pos small word string a =
      let gb = s.target.guest_base in
      let place : gb + (init_stack_pointer + 16 * 4 + j * 4)
          ≡ init_stack_pointer + 64 + 4 * j + gb =
        omega arith in
      let val : be32tole (ldl_he_p s.memory (gb + (init_stack_pointer + 16 * 4 + j * 4))) ≡ p =
        be32tole-bswap32 _
        ∙ ap (λ x. bswap32 (ldl_he_p s.memory x)) place
        ∙ sym (ldl_be_p_lem s.memory (init_stack_pointer + 64 + 4 * j + gb))
        ∙ word
        ∙ omega arith in
      let byte : (i : ℕ) → i < len → u8 (s.memory (gb + p + i)) ≡ u8 (m (arg + i)) = λ i inside.
        ap (λ q. u8 (s.memory q)) (order gb p i) ∙ ap u8 (string i inside) ∙ omega arith in
      let size : string_size fuel s.memory (gb + p) 0 ≡ started len =
        string_size_lem fuel s.memory (gb + p) (len - 1) 0 (omega (arith, a.not_empty, a.in_fuel))
          (byte (len - 1) (omega (arith, a.not_empty)) ∙ a.ends)
          (λ i lt e. a.no_earlier i (omega arith) (sym (byte i (omega arith)) ∙ e))
        ∙ ap started (omega (arith, a.not_empty)) in
      let place' : g2h s.target p ≡ p + gb = unfold g2h in omega arith in
      let found : (g2h s.target p == 0) ≡ false = ground (arith, place') in
      rw (val, size)
        (ap started (
          do_syscall-write host ret p len s found
          ∙ ap (λ q. (host_call host HostFn.write (2 ∷ q ∷ sext64 (u32 len) ∷ []) s).1) place'))

  -- The calls after those of `trace`, the last one first.
  abbrev pub written : ℕ → List HostCall → List (ℕ × ℕ) → List ℕ → List HostCall
  written gb trace [] ps = trace
  written gb trace (x ∷ l) [] = trace
  written gb trace ((arg, len) ∷ l) (p ∷ ps) = written gb (write_call gb p len ∷ trace) l ps

  -- The host's write leaves the memory as it is.
  abbrev pub LeavesMemory : Type 0
  LeavesMemory =
      (trace : List HostCall) (m : Memory) (args : List ℕ)
      → (host trace m (record { function = HostFn.write; args = args })).memory ≡ m

  print_arguments_lem :
      (j low : ℕ) (l : List (ℕ × ℕ)) (ps rest : List ℕ) (m : Memory) (s : Sys)
      → s.target.guest_base + 2 ^ 32 ≤ 2 ^ 64
      → 0 < low
      → LeavesMemory
      → Words s.target s.memory (init_stack_pointer + 64 + 4 * j) (ps ++ rest)
      → Placed s.target m s.memory low l ps
      → AreArguments fuel s.target m l
      → (s' : Sys) × (print_arguments fuel host ret j (length l) s ≡ started s')
        × (s'.memory ≡ s.memory)
        × (s'.target ≡ s.target)
        × (s'.trace ≡ written s.target.guest_base s.trace l ps)
  unfolding print_arguments
  print_arguments_lem j low [] ps rest m s fits pos leaves ws placed a = (s, refl, refl, refl, refl)
  print_arguments_lem j low (x ∷ l) [] rest m s fits pos leaves ws placed a = absurd placed
  print_arguments_lem j low ((arg, len) ∷ l) (p ∷ ps) rest m s fits pos leaves (w, ws)
        ((above, small, _, content), placed) ((is_argument, _), a) =
      let gb = s.target.guest_base in
      let s1 = (host_call host HostFn.write (2 ∷ (p + gb) ∷ sext64 (u32 len) ∷ []) s).1 in
      let kept : s1.memory ≡ s.memory =
        unfold host_call in leaves s.trace s.memory (2 ∷ (p + gb) ∷ sext64 (u32 len) ∷ []) in
      let target' : s1.target ≡ s.target = unfold host_call in refl in
      let trace' : s1.trace ≡ (write_call gb p len ∷ s.trace) = unfold host_call in refl in
      let ran = print_argument_lem j p arg len m s fits (omega arith) small w content is_argument in
      let next : init_stack_pointer + 64 + 4 * j + 4 ≡ init_stack_pointer + 64 + 4 * suc j =
        omega arith in
      let (s2, ran', memory2, target2, trace2) =
        print_arguments_lem (suc j) low l ps rest m s1 (rw target' fits) pos leaves
          (rw (target', kept, ← next) ws) (rw (target', kept) placed) (rw target' a) in
      (
        s2,
        ap (λ o. then_start o (print_arguments fuel host ret (suc j) (length l))) ran ∙ ran',
        memory2 ∙ kept,
        target2 ∙ target',
        trace2
            ∙ ap (λ t. written t.guest_base s1.trace l ps) target'
            ∙ ap (λ trace. written gb trace l ps) trace',
      )

  -- Where the program finds its arguments on its stack, each with a size, its NUL included, that is no
  -- multiple of 16 and for whose NUL the fuel is enough, they have room in the memory, and the host's
  -- write leaves the memory alone, the check of the arguments ends, and it has written each of them to descriptor 2, its NUL included, in
  -- their order and with nothing else; the memory and the globals of the emulation are as before.
  pub print_arguments-written :
      (l : List (ℕ × ℕ)) (m : Memory) (s : Sys)
      → HasRoom fuel s.target l m
      → s.target.target_sp ≡ init_stack_pointer
      → LeavesMemory
      → (h : HoldsArguments s.target l m s.memory)
      → (s' : Sys) × (print_arguments fuel host ret 1 (length l) s ≡ started s')
        × (s'.memory ≡ s.memory)
        × (s'.target ≡ s.target)
        × (s'.trace ≡ written s.target.guest_base s.trace l h.pointers)
  print_arguments-written l m s room sp leaves h =
      let first : s.target.target_sp + 64 + 4 ≡ init_stack_pointer + 64 + 4 * 1 =
        omega (arith, sp) in
      print_arguments_lem 1 h.lowest l h.pointers (0 ∷ []) m s room.host_fits
        (omega (arith, h.above_frame)) leaves (rw (← first) h.frame.1) h.strings room.arguments
