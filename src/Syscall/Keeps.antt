-- ===== src/Syscall/Keeps.antt =====
-- Every case of `do_syscall` in proj/sparc-linux/syscall.c but those that move the heap's end, hand
-- out a block or exit leaves the target's globals alone. The rules for lists of cases.
pub mod Groups
pub mod Whole
use sparcy.Base.{ℕ, List, [], ◌∷◌, ◌++◌, ◌==◌, ==_iff, if◌then◌else◌, Bool, true, false, ◌≡◌, refl}
use sparcy.Guest.{Target, Host, HostFn, M}
use sparcy.Guest.Keeps.{Keeps, Keeps-unimplemented}
use sparcy.Convert.Keeps.{convert_rules}
use sparcy.Syscall.Defs.{Args, Case, switch, sys, with_path, with_paths}

-- Each case of the list whose label is the number in `a` keeps `Q` there.
pub data KeepsCases (Q : Target → Type 0) (a : Args) : List Case → Type 0 where
  nil : KeepsCases Q a []
  cons :
      {c : Case} {l : List Case}
      → (a.num ≡ c.0 → Keeps Q (c.1 a))
      → KeepsCases Q a l
      → KeepsCases Q a (c ∷ l)

module _ {Q : Target → Type 0} where
  Keeps-choose :
      (b : Bool) (m n : M ℕ) → (b ≡ true → Keeps Q m) → Keeps Q n → Keeps Q (if b then m else n)
  Keeps-choose true m n h k = h refl
  Keeps-choose false m n h k = k

module _ {Q : Target → Type 0} {a : Args} where
  pub KeepsCases-append :
      {l k : List Case} → KeepsCases Q a l → KeepsCases Q a k → KeepsCases Q a (l ++ k)
  KeepsCases-append nil g = g
  KeepsCases-append (cons h r) g = cons h (KeepsCases-append r g)

  -- The `switch` keeps what all its cases keep; `default` changes nothing.
  pub Keeps-switch : {l : List Case} → KeepsCases Q a l → Keeps Q (switch l a.num a)
  unfolding switch
  Keeps-switch nil = Keeps-unimplemented
  Keeps-switch (cons {c} {l} h r) =
      Keeps-choose (a.num == c.0) (c.1 a) (switch l a.num a) (λ e. h ((==_iff a.num c.0).0 e))
        (Keeps-switch r)

module _ {Q : Target → Type 0} where
  pub Keeps-sys : (host : Host) (f : HostFn) (args : List ℕ) → Keeps Q (sys host f args)
  Keeps-sys host f args = unfold sys in search convert_rules depth 12

  pub Keeps-with_path :
      (host : Host) (addr : ℕ) (f : HostFn) (args : ℕ → List ℕ)
      → Keeps Q (with_path host addr f args)
  Keeps-with_path host addr f args = unfold with_path in search (convert_rules, Keeps-sys) depth 12

  pub Keeps-with_paths :
      (host : Host) (addr addr2 : ℕ) (f : HostFn) (args : ℕ → ℕ → List ℕ)
      → Keeps Q (with_paths host addr addr2 f args)
  Keeps-with_paths host addr addr2 f args =
      unfold with_paths in search (convert_rules, Keeps-sys) depth 12

pub ruleset case_rules = (convert_rules, Keeps-sys, Keeps-with_path, Keeps-with_paths, nil, cons)
