-- ===== src/Syscall/Dispatch.antt =====
-- Each case of the `switch` of `do_syscall` in proj/sparc-linux/syscall.c is reached by its own label.
use mathlib.Core.Path.{subst}
use sparcy.Base.{
  ℕ, zero, suc, List, [], ◌∷◌, ◌≡◌, ◌≢◌, refl, ap, ◌∙◌, ◌==◌, ◌&&◌, not, get_elem?, some, Bool,
  true, false, arith,
}
use sparcy.Guest.{Host, Sys}
use sparcy.Syscall.{Args, Case, do_syscall, syscall_cases, switch, finish}
use sparcy.Syscall.Unknown.{labels}
use sparcy.Syscall.Basic.{basic_cases}
use sparcy.Syscall.Files.{file_cases}
use sparcy.Syscall.Signals.{signal_cases}
use sparcy.Syscall.Times.{time_cases}
use sparcy.Syscall.Mapping.{mapping_cases}
use sparcy.Syscall.Network.{network_cases}
use sparcy.Syscall.Info.{info_cases}
use sparcy.Syscall.Entries.{entry_cases}
use sparcy.Syscall.Vectors.{vector_cases}
use sparcy.Syscall.Control.{control_cases}
use sparcy.Syscall.Users.{user_cases}
use sparcy.Syscall.Wide.{wide_cases}
use sparcy.Syscall.Rest.{rest_cases}

-- A case is one of the list.
pub data Has (c : Case) : List Case → Type 0 where
  first : {l : List Case} → Has c (c ∷ l)
  later : {d : Case} {l : List Case} → Has c l → Has c (d ∷ l)

-- The case at a place of the list, counted from 0.
pub Has_at : {c : Case} (l : List Case) (n : ℕ) → get_elem? l n ≡ some c → Has c l
Has_at [] n h = absurd cc
Has_at (d ∷ l) zero h = subst (λ (x : Case). Has x (d ∷ l)) (cc) first
Has_at (d ∷ l) (suc n) h = later (Has_at l n h)

abbrev lacks : ℕ → List ℕ → Bool
lacks x [] = true
lacks x (y ∷ l) = not (y == x) && lacks x l

abbrev distinct : List ℕ → Bool
distinct [] = true
distinct (x ∷ l) = lacks x l && distinct l

Has-lacks : (x : ℕ) (c : Case) {l : List Case} → lacks x (labels l) ≡ true → Has c l → c.0 ≢ x
Has-lacks x (label, body) h first = ground arith
Has-lacks x c h (later {d = (label, body)} m) = Has-lacks x c (ground arith) m

switch_own :
    (c : Case) (a : Args) {l : List Case}
    → distinct (labels l) ≡ true
    → Has c l
    → switch l c.0 a ≡ c.1 a
unfolding switch
switch_own (label, body) a h first = let own : (label == label) ≡ true = ground arith in rw own refl
switch_own c a h (later {d = (label, body)} m) =
    let absent = Has-lacks label c (ground arith) m in
    let other : (c.0 == label) ≡ false = ground (arith, absent) in
    rw other (switch_own c a (ground arith) m)

labels-distinct : (host : Host) → distinct (labels (syscall_cases host)) ≡ true
unfolding syscall_cases basic_cases file_cases signal_cases time_cases mapping_cases network_cases
    info_cases entry_cases vector_cases control_cases user_cases wide_cases rest_cases
labels-distinct host = refl

-- A call whose number is the label of a case runs the statements of that case and no other, and ends
-- as they do.
pub do_syscall-Has :
    (host : Host) (c : Case) (a : Args) (s : Sys)
    → Has c (syscall_cases host)
    → a.num ≡ c.0
    → do_syscall host a s ≡ finish (c.1 a s)
unfolding do_syscall
do_syscall-Has host c a s m e =
    ap (λ n. finish (switch (syscall_cases host) n a s)) e
    ∙ ap (λ run. finish (run s)) (switch_own c a (labels-distinct host) m)
