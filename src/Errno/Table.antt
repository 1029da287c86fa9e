-- ===== src/Errno/Table.antt =====
-- What the error translation of proj/sparc-linux/syscall.c comes to on a Linux host.
use sparcy.Base.{
  ℕ, zero, suc, ◌+◌, ◌≤◌, ◌<◌, ◌≡◌, ◌≢◌, refl, List, [], ◌∷◌, inl, inr, ◌⊎◌, ◌==◌, if◌then◌else◌,
  arith,
}
use sparcy.Errno.{
  host_to_target_errno, errno_table_size, host_to_target_errno_table, entry, fill_target_to_host,
  target_to_host_errno_table,
}

-- Every entry of the list stands at its own number.
abbrev AllSame : List (ℕ × ℕ) → Type 0
AllSame [] = Unit
AllSame ((j, v) ∷ l) = (j ≡ v) × AllSame l

entry-AllSame : (l : List (ℕ × ℕ)) (e : ℕ) → AllSame l → (entry l e ≡ 0) ⊎ (entry l e ≡ e)
entry-AllSame [] e h = inl refl
entry-AllSame (x ∷ l) e h = ground (arith, entry-AllSame l e h.1)

table-AllSame : AllSame host_to_target_errno_table
unfolding host_to_target_errno_table
table-AllSame = omega arith

-- As much, of the table.
entry_cases :
    (e : ℕ) → (entry host_to_target_errno_table e ≡ 0) ⊎ (entry host_to_target_errno_table e ≡ e)
entry_cases e = entry-AllSame host_to_target_errno_table e table-AllSame

-- The choice of `host_to_target_errno`, at an entry `t`.
same_or_zero : (e t : ℕ) → (t ≡ 0) ⊎ (t ≡ e) → (if t == 0 then e else t) ≡ e
same_or_zero e t h = ground arith

-- On a Linux host with the generic error numbers the translation is the identity.
pub host_to_target_errno-identity : (e : ℕ) → host_to_target_errno e ≡ e
unfolding host_to_target_errno
host_to_target_errno-identity e =
    same_or_zero e (entry host_to_target_errno_table e) (entry_cases e)

-- One round of the loop at `i`, whose table entry is `t`.
keeps_inverse :
    (e i n t old : ℕ)
    → e ≢ 0
    → (t ≡ 0) ⊎ (t ≡ i)
    → (i ≡ e → t ≡ e)
    → ((i ≤ e) × (e < i + suc n)) ⊎ (old ≡ e)
    → ((i + 1 ≤ e) × (e < i + 1 + n)) ⊎ ((if e == t then i else old) ≡ e)
keeps_inverse e i n t old h c k cover = ground arith

-- A round whose table entry is not `e` leaves the inverse table's entry at `e`; no later round
-- has it, since the entry at `i` is 0 or `i`.
fill_target_to_host_lem :
    (e : ℕ)
    → e ≢ 0
    → entry host_to_target_errno_table e ≡ e
    → (n i : ℕ) (table : ℕ → ℕ) → ((i ≤ e) × (e < i + n)) ⊎ (table e ≡ e)
    → fill_target_to_host n i table e ≡ e
unfolding fill_target_to_host
fill_target_to_host_lem e h k zero i table (inl c) = absurd (omega arith)
fill_target_to_host_lem e h k zero i table (inr c) = c
fill_target_to_host_lem e h k (suc n) i table c = fill_target_to_host_lem e h k n (i + 1) _ (
    keeps_inverse e i n (entry host_to_target_errno_table i) (table e) h (entry_cases i)
      (λ p. rw p k) c)

-- The table that `sl_init` builds inverts the translation at each error that the list names.
pub target_to_host_errno_table-inverts :
    (e : ℕ)
    → e < errno_table_size
    → e ≢ 0
    → entry host_to_target_errno_table e ≢ 0
    → target_to_host_errno_table (host_to_target_errno e) ≡ e
target_to_host_errno_table-inverts e small h listed = rw host_to_target_errno-identity (
    unfold target_to_host_errno_table in
    fill_target_to_host_lem e h (listed_same (entry_cases e)) errno_table_size 0 (λ _. 0)
      (inl (omega arith)))
  where
    listed_same :
        (entry host_to_target_errno_table e ≡ 0) ⊎ (entry host_to_target_errno_table e ≡ e)
        → entry host_to_target_errno_table e ≡ e
    listed_same (inl zero_entry) = absurd (listed zero_entry)
    listed_same (inr same) = same
