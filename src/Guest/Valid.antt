-- ===== src/Guest/Valid.antt =====
-- `lock_user` of proj/sparc-linux/syscall.c at an address that is NULL on the host, or is not.
use sparcy.Base.{ℕ, zero, suc, ◌≡◌, ◌≢◌, refl, ap, ◌==◌, true, false, arith, ◌⊎◌, inl, inr}
use sparcy.Guest.{
  Sys, M, Flow, bind_flow, next, efault, ◌>>=◌, pure, gets, raise_efault, lock_user, g2h,
}

pub lock_user_lem :
    (addr : ℕ) (s : Sys) → g2h s.target addr ≢ 0 → lock_user addr s ≡ (next (g2h s.target addr), s)
unfolding lock_user ◌>>=◌ gets pure raise_efault
lock_user_lem addr s h =
    let valid : (g2h s.target addr == 0) ≡ false = ground (arith, h) in rw valid refl

pub lock_user_null : (addr : ℕ) (s : Sys) → g2h s.target addr ≡ 0 → lock_user addr s ≡ (efault, s)
unfolding lock_user ◌>>=◌ gets pure raise_efault
lock_user_null addr s h =
    let null : (g2h s.target addr == 0) ≡ true = ground (arith, h) in rw null refl

pub null_or_not : (p : ℕ) → (p ≡ 0) ⊎ (p ≢ 0)
null_or_not zero = inl refl
null_or_not (suc p) = inr (omega arith)

-- A statement whose first part ends, or goes to `efault`.
pub seq_lem :
    {A B : Type 0} (m : M A) (k : A → M B) {x : A} {s s' : Sys}
    → m s ≡ (next x, s')
    → (m >>= k) s ≡ k x s'
unfolding ◌>>=◌
seq_lem {A = A} m k e = ap (λ (run : Flow A × Sys). bind_flow run.0 k run.1) e

pub seq_efault :
    {A B : Type 0} (m : M A) (k : A → M B) {s s' : Sys}
    → m s ≡ (efault, s')
    → (m >>= k) s ≡ (efault, s')
unfolding ◌>>=◌
seq_efault {A = A} m k e = ap (λ (run : Flow A × Sys). bind_flow run.0 k run.1) e
