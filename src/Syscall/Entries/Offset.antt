-- ===== src/Syscall/Entries/Offset.antt =====
-- The offset that `_llseek` of `do_syscall` in proj/sparc-linux/syscall.c asks the host for.
use sparcy.Base.{
  ℕ, [], ◌∷◌, ◌+◌, ◌-◌, ◌*◌, ◌^◌, ◌<◌, ◌≡◌, refl, ap, ◌∙◌, bit_or, bit_or-above, u64, sext64,
  if◌then◌else◌, arith, Bool, true, false, Bool-cases, inl, inr, ◌==◌,
}
use sparcy.Guest.{
  Host, HostFn, HostCall, Sys, Flow, next, efault, unimplemented, hang, ◌>>=◌, ◌>>◌, bind_flow,
  pure, gets, raise_efault, write_memory, lock_user, host_call, get_errno, put_quad, put_user_s64,
  g2h,
}
use sparcy.Syscall.{Args}
use sparcy.Syscall.Entries.{llseek}

put_user_s64-trace : (x gaddr : ℕ) (s : Sys) → (put_user_s64 x gaddr s).1.trace ≡ s.trace
unfolding put_user_s64 lock_user put_quad ◌>>=◌ gets pure raise_efault write_memory
put_user_s64-trace x gaddr s = elim (Bool-cases (g2h s.target gaddr == 0)) [
  | inl null ↦ rw null refl
  | inr valid ↦ rw valid refl
]

then_zero-trace :
    (r : Flow (Unit {0})) (s : Sys) → (bind_flow {B = ℕ} r (λ _. pure 0) s).1.trace ≡ s.trace
unfolding pure
then_zero-trace (next u) s = refl
then_zero-trace efault s = refl
then_zero-trace unimplemented s = refl
then_zero-trace hang s = refl

-- After the call the host is asked nothing more.
answer-trace :
    (failed : Bool) (r addr : ℕ) (s : Sys)
    → ((if failed then get_errno r else (put_user_s64 r addr >> pure 0)) s).1.trace ≡ s.trace
unfolding get_errno gets ◌>>=◌
answer-trace true r addr s = refl
answer-trace false r addr s =
    then_zero-trace (put_user_s64 r addr s).0 (put_user_s64 r addr s).1
    ∙ put_user_s64-trace r addr s

-- Below 2 GiB the low half is joined to the high half as it is meant to be.
offset_value :
    (high low : ℕ)
    → high < 2 ^ 32
    → low < 2 ^ 31
    → bit_or (u64 (high * 2 ^ 32)) (sext64 low) ≡ high * 2 ^ 32 + low
offset_value high low h l =
    let fits : u64 (high * 2 ^ 32) ≡ high * 2 ^ 32 = omega arith in
    let positive : sext64 low ≡ low = ground arith in
    rw (fits, positive) (bit_or-above 32 high low (omega arith))

-- With a low half below 2 GiB the host is asked, once, for the offset of which the guest gave the two
-- halves.
pub llseek-trace :
    (host : Host) (a : Args) (s : Sys)
    → a.arg2 < 2 ^ 32
    → a.arg3 < 2 ^ 31
    → (llseek host a s).1.trace ≡ (
        record { function = HostFn.lseek; args = a.arg1 ∷ (a.arg2 * 2 ^ 32 + a.arg3) ∷ a.arg5 ∷ [] }
        ∷ s.trace)
unfolding llseek ◌>>=◌ host_call
llseek-trace host a s h l =
    let offset = bit_or (u64 (a.arg2 * 2 ^ 32)) (sext64 a.arg3) in
    let request : ℕ → HostCall =
      λ o. record { function = HostFn.lseek; args = a.arg1 ∷ o ∷ a.arg5 ∷ [] } in
    let r = host s.trace s.memory (request offset) in
    answer-trace (r.result == 2 ^ 64 - 1) r.result a.arg4
      (host_call host HostFn.lseek (a.arg1 ∷ offset ∷ a.arg5 ∷ []) s).1
    ∙ ap (λ o. request o ∷ s.trace) (offset_value a.arg2 a.arg3 h l)
