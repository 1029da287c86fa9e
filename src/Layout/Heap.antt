-- ===== src/Layout/Heap.antt =====
-- What `do_brk` of proj/sparc-linux/syscall.c does to the heap.
use sparcy.Base.{
  ℕ, ◌+◌, ◌-◌, ◌^◌, ◌≤◌, ◌<◌, ◌≡◌, refl, ◌⊎◌, inl, inr, arith, ltb, leb, ◌==◌, Bool-cases,
}
use sparcy.Memory.Ranges.{memset_inside, memset_outside}
use sparcy.Guest.{Sys, Target, Flow, next, efault, unimplemented, hang, g2h}
use sparcy.Brk.{page_align, set_brk, do_brk}
use sparcy.Layout.{IsLaidOut}
use sparcy.Layout.Align.{page_align_bounds, page_align_wraps}

-- Guest addresses stay in order on the host.
g2h_lem :
    {floor : ℕ} (t : Target) (x : ℕ) → IsLaidOut floor t → x < 2 ^ 32 → g2h t x ≡ x + t.guest_base
unfolding g2h
g2h_lem t x l h = omega arith

-- What a call that found the heap of `s` has done when it leaves `r` and `s'`.
pub record Grows (s : Sys) (r : ℕ) (s' : Sys) : Type 0 where
  pub returns_break : r ≡ s'.target.target_brk
  pub never_down : s.target.target_brk ≤ r
  pub zeroed :
      (a : ℕ)
      → s.target.target_brk + s.target.guest_base ≤ a
      → a < r + s.target.guest_base
      → s'.memory a ≡ 0
  pub rest_kept :
      (a : ℕ)
      → (a < s.target.target_brk + s.target.guest_base) ⊎ (r + s.target.guest_base ≤ a)
      → s'.memory a ≡ s.memory a

same-Grows : (s : Sys) → Grows s s.target.target_brk s
same-Grows s = record {
  returns_break = refl;
  never_down = omega arith;
  zeroed = λ a h k. absurd (omega arith);
  rest_kept = λ a h. refl;
}

set_brk-Grows :
    {floor : ℕ} (b : ℕ) (s : Sys)
    → IsLaidOut floor s.target
    → s.target.target_brk ≤ b
    → b ≤ s.target.target_brk_limit
    → Grows s b (set_brk b s)
unfolding set_brk
set_brk-Grows b s l up fits = record {
  returns_break = refl;
  never_down = up;
  zeroed = λ a h k.
      ground (arith, start, memset_inside s.memory (g2h t t.target_brk) 0 (b - t.target_brk) a);
  rest_kept = λ a h.
      ground (arith, start, memset_outside s.memory (g2h t t.target_brk) 0 (b - t.target_brk) a);
}
  where
    t : Target
    t = s.target

    start : g2h s.target s.target.target_brk ≡ s.target.target_brk + s.target.guest_base
    start = g2h_lem s.target s.target.target_brk l (omega arith)

set_brk-IsLaidOut :
    {floor : ℕ} (b : ℕ) (s : Sys)
    → IsLaidOut floor s.target
    → s.target.target_brk ≤ b
    → b ≤ s.target.target_brk_limit
    → IsLaidOut floor (set_brk b s).target
unfolding set_brk
set_brk-IsLaidOut b s l up fits = omega arith

-- How a call of `brk` ends: the heap has grown, and the layout is kept.
abbrev pub Ends : ℕ → Sys → Flow ℕ × Sys → Type 0
Ends floor s (next r, s') = Grows s r s' × IsLaidOut floor s'.target
Ends floor s (efault, s') = ⊥
Ends floor s (unimplemented, s') = ⊥
Ends floor s (hang, s') = ⊥

-- A request that lies below the last page returns the break, old or new, and never moves it down.
-- What the heap gains reads as zero, no other byte changes, and the layout of the memory is kept.
pub do_brk-Ends :
    (floor b : ℕ) (s : Sys)
    → IsLaidOut floor s.target
    → b ≤ 2 ^ 32 - 4096
    → Ends floor s (do_brk b s)
unfolding do_brk
do_brk-Ends floor b s l small = elim (Bool-cases (b == 0)) [
  | inl query ↦ rw query (same-Grows s, l)
  | inr asks ↦ elim (Bool-cases (ltb b s.target.target_brk)) [
    | inl down ↦ rw (asks, down) (same-Grows s, l)
    | inr up ↦ elim (Bool-cases (leb (page_align b) s.target.target_brk_limit)) [
      | inl fits ↦
          rw (asks, up, fits)
            (
              set_brk-Grows (page_align b) s l (ground (arith, page_align_bounds b)) (ground arith),
              set_brk-IsLaidOut (page_align b) s l (ground (arith, page_align_bounds b))
                  (ground arith),
            )
      | inr full ↦ rw (asks, up, full) (same-Grows s, l)
    ]
  ]
]

-- A request at or above the break is granted exactly when its page end lies in the heap's share.
-- Then the break is that page end; otherwise the old break is returned and nothing changes.
pub do_brk_grants :
    (b : ℕ) (s : Sys)
    → 0 < b
    → s.target.target_brk ≤ b
    → ((page_align b ≤ s.target.target_brk_limit)
        × (do_brk b s ≡ (next (page_align b), set_brk (page_align b) s)))
      ⊎ ((s.target.target_brk_limit < page_align b) × (do_brk b s ≡ (next s.target.target_brk, s)))
unfolding do_brk
do_brk_grants b s h up = ground arith

-- A request in the last page of the address space that is not below the break wraps to 0 before it is
-- compared: the emulation returns 0 and takes 0 for the heap's end.
pub do_brk_wraps :
    (b : ℕ) (s : Sys)
    → 2 ^ 32 - 4096 < b
    → b < 2 ^ 32
    → s.target.target_brk ≤ b
    → ((do_brk b s).0 ≡ next 0) × ((do_brk b s).1.target.target_brk ≡ 0)
unfolding do_brk set_brk
do_brk_wraps b s h k up = ground (arith, page_align_wraps b h k)

-- The first byte of what a granted request gains.
pub do_brk_zeroes :
    {floor : ℕ} (b : ℕ) (s : Sys)
    → IsLaidOut floor s.target
    → s.target.target_brk < b
    → b ≤ 2 ^ 32 - 4096
    → page_align b ≤ s.target.target_brk_limit
    → (do_brk b s).1.memory (s.target.target_brk + s.target.guest_base) ≡ 0
do_brk_zeroes b s l more small fits =
    let up : b ≤ page_align b = (page_align_bounds b small).0 in
    elim (do_brk_grants b s (omega arith) (omega arith)) [
      | inl (_, e) ↦ rw e (
          (set_brk-Grows (page_align b) s l (omega arith) fits).zeroed
            (s.target.target_brk + s.target.guest_base) (omega arith) (omega arith))
      | inr (full, _) ↦ absurd (omega arith)
    ]
