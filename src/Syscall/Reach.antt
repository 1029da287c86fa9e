-- ===== src/Syscall/Reach.antt =====
-- The states that a program reaches by system calls, from the state in which `sl_init` of
-- proj/sparc-linux/syscall.c leaves it.
use sparcy.Base.{ℕ, ◌+◌, ◌^◌, ◌/◌, ◌≤◌, ◌≡◌, ap, arith}
use sparcy.Guest.{Target, Host, Sys}
use sparcy.Layout.{IsLaidOut}
use sparcy.Init.{init_target}
use sparcy.Init.Begins.{init_target-IsLaidOut}
use sparcy.Syscall.{Args, do_syscall}
use sparcy.Syscall.Frame.{IsModest, do_syscall-IsLaidOut}
use sparcy.Syscall.Exit.{SameShares, do_syscall-SameShares}

-- One call after the other; between two of them the program changes the memory as it likes.
pub data Reaches (host : Host) (s : Sys) : Sys → Type 0 where
  start : Reaches host s s
  call :
      {s' : Sys} (a : Args)
      → IsModest a
      → Reaches host s s'
      → Reaches host s (do_syscall host a s').1
  store : {s' : Sys} (m : ℕ → ℕ) → Reaches host s s' → Reaches host s (record s' { memory = m })

module _ (host : Host) (floor : ℕ) where
  Reaches-IsLaidOut :
      {s s' : Sys} → Reaches host s s' → IsLaidOut floor s.target → IsLaidOut floor s'.target
  Reaches-IsLaidOut start l = l
  Reaches-IsLaidOut (call {s'} a modest r) l =
      do_syscall-IsLaidOut host floor a s' modest (Reaches-IsLaidOut r l)
  Reaches-IsLaidOut (store m r) l = Reaches-IsLaidOut r l

module _ (host : Host) where
  Reaches-SameShares : {s s' : Sys} → Reaches host s s' → SameShares s.target s'.target
  Reaches-SameShares start = omega arith
  Reaches-SameShares {s} (call {s'} a modest r) =
      SameShares-trans s.target s'.target (do_syscall host a s').1.target (Reaches-SameShares r)
        (do_syscall-SameShares host a s')
    where
      SameShares-trans : (t u v : Target) → SameShares t u → SameShares u v → SameShares t v
      SameShares-trans t u v h k = omega (arith, h, k)
  Reaches-SameShares (store m r) = Reaches-SameShares r

-- From the state that `sl_init` sets up, with a program that ends in the first quarter of its memory,
-- no calls for sizes below the bounds of IsModest, whatever the host answers and the program stores,
-- take the heap out of the first quarter or the mapped blocks out of the second.
pub Reaches-bounds :
    (host : Host) (brk sp gb gm : ℕ) (s s' : Sys)
    → brk ≤ gm / 4
    → gm ≤ 2 ^ 32
    → gb + 2 ^ 32 ≤ 2 ^ 64
    → s.target ≡ init_target brk sp gb gm
    → Reaches host s s'
    → (brk ≤ s'.target.target_brk)
      × (s'.target.target_brk ≤ gm / 4)
      × (gm / 4 ≤ s'.target.target_cur_mmap_ptr)
      × (s'.target.target_cur_mmap_ptr ≤ gm / 2)
unfolding init_target
Reaches-bounds host brk sp gb gm s s' ends whole fits e r =
    omega (arith, laid_out, shares, ap Target.target_brk_limit e, ap Target.target_mmap_limit e)
  where
    laid_out : IsLaidOut brk s'.target
    laid_out =
        Reaches-IsLaidOut host brk r (rw e (init_target-IsLaidOut brk sp gb gm ends whole fits))

    shares : SameShares s.target s'.target
    shares = Reaches-SameShares host r

pub Reaches-trans :
    (host : Host) {s s' s'' : Sys} → Reaches host s s' → Reaches host s' s'' → Reaches host s s''
Reaches-trans host r start = r
Reaches-trans host r (call a modest q) = call a modest (Reaches-trans host r q)
Reaches-trans host r (store m q) = store m (Reaches-trans host r q)
