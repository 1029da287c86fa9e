-- ===== src/Syscall/Keeps/Groups.antt =====
-- The groups of cases of `do_syscall` in proj/sparc-linux/syscall.c that leave the target's globals
-- alone, whatever the arguments.
use sparcy.Base.{List, Option, none, some}
use sparcy.Memory.{Memory}
use sparcy.Guest.{Target, Host, HostFn}
use sparcy.Guest.Keeps.{Keeps}
use sparcy.Convert.Iovec.{Iovec}
use sparcy.Syscall.Defs.{Args}
use sparcy.Syscall.Keeps.{KeepsCases, case_rules}
use sparcy.Syscall.Files.{file_cases}
use sparcy.Syscall.Signals.{signal_cases}
use sparcy.Syscall.Times.{time_cases}
use sparcy.Syscall.Network.{network_cases}
use sparcy.Syscall.Entries.{entry_cases, store_dirents}
use sparcy.Syscall.Vectors.{vector_cases, with_vector}
use sparcy.Syscall.Control.{control_cases}
use sparcy.Syscall.Users.{user_cases}
use sparcy.Syscall.Wide.{wide_cases}
use sparcy.Syscall.Rest.{rest_cases}

module _ {Q : Target → Type 0} where
  Keeps-store_dirents : (m : Option Memory) → Keeps Q (store_dirents m)
  unfolding store_dirents
  Keeps-store_dirents none = search case_rules
  Keeps-store_dirents (some m) = search case_rules

  Keeps-with_vector :
      (host : Host) (f : HostFn) (a : Args) (vec : Option (List Iovec))
      → Keeps Q (with_vector host f a vec)
  unfolding with_vector
  Keeps-with_vector host f a none = search case_rules
  Keeps-with_vector host f a (some vec) = search case_rules

module _ {Q : Target → Type 0} (host : Host) (a : Args) where
  pub file_cases-Keeps : KeepsCases Q a (file_cases host)
  file_cases-Keeps = unfold file_cases in search case_rules depth 80 fits 20000

  pub signal_cases-Keeps : KeepsCases Q a (signal_cases host)
  signal_cases-Keeps = unfold signal_cases in search case_rules depth 80 fits 20000

  pub time_cases-Keeps : KeepsCases Q a (time_cases host)
  time_cases-Keeps = unfold time_cases in search case_rules depth 80 fits 20000

  pub network_cases-Keeps : KeepsCases Q a (network_cases host)
  network_cases-Keeps = unfold network_cases in search case_rules depth 80 fits 20000

  pub entry_cases-Keeps : KeepsCases Q a (entry_cases host)
  entry_cases-Keeps =
      unfold entry_cases in search (case_rules, Keeps-store_dirents) depth 80 fits 20000

  pub vector_cases-Keeps : KeepsCases Q a (vector_cases host)
  vector_cases-Keeps =
      unfold vector_cases in search (case_rules, Keeps-with_vector) depth 80 fits 20000

  pub control_cases-Keeps : KeepsCases Q a (control_cases host)
  control_cases-Keeps = unfold control_cases in search case_rules depth 80 fits 20000

  pub user_cases-Keeps : KeepsCases Q a (user_cases host)
  user_cases-Keeps = unfold user_cases in search case_rules depth 80 fits 20000

  pub wide_cases-Keeps : KeepsCases Q a (wide_cases host)
  wide_cases-Keeps = unfold wide_cases in search case_rules depth 80 fits 20000

  pub rest_cases-Keeps : KeepsCases Q a (rest_cases host)
  rest_cases-Keeps = unfold rest_cases in search case_rules depth 80 fits 20000
