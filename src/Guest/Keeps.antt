-- ===== src/Guest/Keeps.antt =====
-- Properties of the target's globals (proj/sparc-linux/syscall.c) that a statement keeps: one rule
-- for each way to build a statement. Only assignments to the globals need a proof of their own.
use sparcy.Base.{ℕ, ◌+◌, Bool, true, false, if◌then◌else◌, List, [], ◌∷◌}
use sparcy.Memory.{Memory}
use sparcy.Guest.Calls.{HostFn, Host}
use sparcy.Guest.Run.{
  Target, Sys, Flow, next, efault, unimplemented, hang, M, pure, raise_efault, raise_unimplemented,
  loop_forever, gets, set_errno, write_memory, ◌>>=◌, bind_flow, lock_user, host_call, get_errno,
}
use sparcy.Guest.Access.{
  get_long, put_half, put_long, put_quad, swap_load, swap_store, swap_stores, get_user_sal,
  put_user_ual, put_user_u16, put_user_s64,
}

-- `m` keeps `Q`, wherever control goes on.
pub record Keeps {A : Type 0} (Q : Target → Type 0) (m : M A) : Type 0 where
  pub at : (s : Sys) → Q s.target → Q (m s).1.target

module _ {A : Type 0} {Q : Target → Type 0} where
  pub Keeps-pure : (a : A) → Keeps Q (pure a)
  unfolding pure
  Keeps-pure a = record { at = λ s h. h }

  pub Keeps-efault : Keeps Q (raise_efault {A = A})
  unfolding raise_efault
  Keeps-efault = record { at = λ s h. h }

  pub Keeps-unimplemented : Keeps Q (raise_unimplemented {A = A})
  unfolding raise_unimplemented
  Keeps-unimplemented = record { at = λ s h. h }

  pub Keeps-forever : Keeps Q (loop_forever {A = A})
  unfolding loop_forever
  Keeps-forever = record { at = λ s h. h }

  pub Keeps-gets : (f : Sys → A) → Keeps Q (gets f)
  unfolding gets
  Keeps-gets f = record { at = λ s h. h }

  pub Keeps-if :
      (test : Bool) (one other : M A)
      → Keeps Q one
      → Keeps Q other
      → Keeps Q (if test then one else other)
  Keeps-if true one other kept _ = kept
  Keeps-if false one other _ kept = kept

module _ {A B : Type 0} {Q : Target → Type 0} where
  Keeps-bind_flow :
      (r : Flow A) (f : A → M B) (s : Sys)
      → ((a : A) → Keeps Q (f a))
      → Q s.target
      → Q (bind_flow r f s).1.target
  Keeps-bind_flow (next a) f s k h = (k a).at s h
  Keeps-bind_flow efault f s k h = h
  Keeps-bind_flow unimplemented f s k h = h
  Keeps-bind_flow hang f s k h = h

  pub Keeps-bind :
      (first : M A) (rest : A → M B)
      → Keeps Q first
      → ((a : A) → Keeps Q (rest a))
      → Keeps Q (first >>= rest)
  unfolding ◌>>=◌
  Keeps-bind first rest kept k = record {
    at = λ s h. Keeps-bind_flow (first s).0 rest (first s).1 k (kept.at s h);
  }

module _ {Q : Target → Type 0} where
  pub Keeps-set_errno : (e : ℕ) → Keeps Q (set_errno e)
  unfolding set_errno
  Keeps-set_errno e = record { at = λ s h. h }

  pub Keeps-write_memory : (f : Memory → Memory) → Keeps Q (write_memory f)
  unfolding write_memory
  Keeps-write_memory f = record { at = λ s h. h }

  pub Keeps-host_call : (host : Host) (f : HostFn) (args : List ℕ) → Keeps Q (host_call host f args)
  unfolding host_call
  Keeps-host_call host f args = record { at = λ s h. h }

-- The rules for the statements above.
pub ruleset basic_rules = (
  Keeps-pure, Keeps-efault, Keeps-unimplemented, Keeps-forever, Keeps-gets, Keeps-if, Keeps-bind,
  Keeps-set_errno, Keeps-write_memory, Keeps-host_call,
)

module _ {Q : Target → Type 0} where
  pub Keeps-lock_user : (a : ℕ) → Keeps Q (lock_user a)
  Keeps-lock_user a = unfold lock_user in search basic_rules

  pub Keeps-get_errno : (r : ℕ) → Keeps Q (get_errno r)
  Keeps-get_errno r = unfold get_errno in search basic_rules

  pub Keeps-get_long : (p : ℕ) → Keeps Q (get_long p)
  Keeps-get_long p = unfold get_long in search basic_rules

  pub Keeps-put_half : (p x : ℕ) → Keeps Q (put_half p x)
  Keeps-put_half p x = unfold put_half in search basic_rules

  pub Keeps-put_long : (p x : ℕ) → Keeps Q (put_long p x)
  Keeps-put_long p x = unfold put_long in search basic_rules

  pub Keeps-put_quad : (p x : ℕ) → Keeps Q (put_quad p x)
  Keeps-put_quad p x = unfold put_quad in search basic_rules

  pub Keeps-swap_load : (p : ℕ) → Keeps Q (swap_load p)
  Keeps-swap_load p = unfold swap_load in search basic_rules

  pub Keeps-swap_store : (p x : ℕ) → Keeps Q (swap_store p x)
  Keeps-swap_store p x = unfold swap_store in search basic_rules

  pub Keeps-swap_stores : (p : ℕ) (xs : List ℕ) → Keeps Q (swap_stores p xs)
  unfolding swap_stores
  Keeps-swap_stores p [] = Keeps-pure tt
  Keeps-swap_stores p (x ∷ xs) =
      Keeps-bind (swap_store p x) (λ _. swap_stores (p + 4) xs) (Keeps-swap_store p x)
        (λ _. Keeps-swap_stores (p + 4) xs)

pub ruleset access_rules = (
  basic_rules, Keeps-lock_user, Keeps-get_errno, Keeps-get_long, Keeps-put_half, Keeps-put_long,
  Keeps-put_quad, Keeps-swap_load, Keeps-swap_store, Keeps-swap_stores,
)

module _ {Q : Target → Type 0} where
  pub Keeps-get_user_sal : (a : ℕ) → Keeps Q (get_user_sal a)
  Keeps-get_user_sal a = unfold get_user_sal in search access_rules

  pub Keeps-put_user_ual : (x a : ℕ) → Keeps Q (put_user_ual x a)
  Keeps-put_user_ual x a = unfold put_user_ual in search access_rules

  pub Keeps-put_user_u16 : (x a : ℕ) → Keeps Q (put_user_u16 x a)
  Keeps-put_user_u16 x a = unfold put_user_u16 in search access_rules

  pub Keeps-put_user_s64 : (x a : ℕ) → Keeps Q (put_user_s64 x a)
  Keeps-put_user_s64 x a = unfold put_user_s64 in search access_rules

pub ruleset keeps_rules =
    (access_rules, Keeps-get_user_sal, Keeps-put_user_ual, Keeps-put_user_u16, Keeps-put_user_s64)
