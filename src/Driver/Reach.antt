-- ===== src/Driver/Reach.antt =====
-- The emulation in the loop of `main` in proj/main.cpp: between the boot and the end its state changes by
-- calls of the program and stores in memory only.
use mathlib.Core.Option.{some-injective}
use sparcy.Base.{
  ℕ, zero, suc, ◌+◌, ◌/◌, ◌^◌, ◌≤◌, ◌≡◌, refl, ◌∙◌, sym, ap, arith, inl, inr, Option, none, some,
  Bool-cases, Option-cases, not, if_taken, if_skipped,
}
use sparcy.Guest.{Host}
use sparcy.Init.{init_target}
use sparcy.Syscall.Reach.{Reaches, start, store, Reaches-trans, Reaches-bounds}
use sparcy.Driver.{MemorySystem, System}
use sparcy.Driver.Bus.{then_run, tick}
use sparcy.Driver.Main.{
  Circuit, Machine, Outcome, finished, aborted, out_of_fuel, after_tick, before_tick, tick_once,
  goes_on, run_loop, eval, quarter_later, flip_clk, sys_of,
}

abbrev outcome_or : {A : Type 0} → A → Outcome A → A
outcome_or a (finished b) = b
outcome_or a aborted = a
outcome_or a out_of_fuel = a

module _ {D V : Type 0} (circuit : Circuit V) (dram : MemorySystem D) (getch : ℕ → Option ℕ)
    (host : Host) where
  -- In the states `J` that the loop runs through, the circuit changes the state of the emulation by calls
  -- and stores only, in both of its evaluations of a tick.
  pub record OnlyCalls (J : Machine D V → Type 0) : Type 0 where
    pub first_half :
        (m : Machine D V)
        → J m
        → Reaches host
            (sys_of m)
            (circuit.eval m.hidden
              (record m.system.top { clk = not m.system.top.clk })
              (sys_of m)).2
    pub second_half :
        (m : Machine D V) (s : System D)
        → J m
        → let m1 = before_tick circuit dram getch m in
          tick dram m1.main_time (getch m1.main_time) m1.system m1.system.top.clk ≡ some s
          → Reaches host
              (sys_of (record m1 { system = s }))
              (circuit.eval m1.hidden s.top (sys_of (record m1 { system = s }))).2
    pub stays : (m m' : Machine D V) → J m → tick_once circuit dram getch m ≡ some m' → J m'

  after_Reaches :
      (m1 m' : Machine D V) (o : Option (System D))
      → ((s : System D)
          → o ≡ some s
          → Reaches host
              (sys_of (record m1 { system = s }))
              (circuit.eval m1.hidden s.top (sys_of (record m1 { system = s }))).2)
      → then_run o (λ s. some (quarter_later (eval circuit (record m1 { system = s })))) ≡ some m'
      → Reaches host (sys_of m1) (sys_of m')
  unfolding eval quarter_later
  after_Reaches m1 m' none only e = absurd (ground arith)
  after_Reaches m1 m' (some s) only e =
      let m2 = quarter_later (eval circuit (record m1 { system = s })) in
      let same : m2 ≡ m' = some-injective m2 m' e in
      let reached : Reaches host (sys_of m1) (sys_of m2) =
        Reaches-trans host (store s.memory start) (only s refl) in
      coe 0 1 (i. Reaches host (sys_of m1) (sys_of (same i))) reached

  ended : (m m' : Machine D V) → finished m ≡ finished m' → Reaches host (sys_of m) (sys_of m')
  ended m m' e = coe 0 1 (i. Reaches host (sys_of m) (sys_of (outcome_or m (e i)))) start

  module _ (J : Machine D V → Type 0) (only : OnlyCalls J) where
    tick_once-Reaches :
        (m m' : Machine D V)
        → J m
        → tick_once circuit dram getch m ≡ some m'
        → Reaches host (sys_of m) (sys_of m')
    unfolding tick_once before_tick eval quarter_later flip_clk
    tick_once-Reaches m m' j e =
        let m1 = before_tick circuit dram getch m in
        let first : Reaches host (sys_of m) (sys_of m1) = only.first_half m j in
        Reaches-trans host first (
          after_Reaches m1 m'
            (tick dram m1.main_time (getch m1.main_time) m1.system m1.system.top.clk)
            (λ s ran. only.second_half m s j ran) e)

    run_loop-Reaches :
        (fuel : ℕ) (m m' : Machine D V)
        → J m
        → run_loop circuit dram getch fuel m ≡ finished m'
        → Reaches host (sys_of m) (sys_of m')
    unfolding run_loop
    run_loop-Reaches zero m m' j e = elim (Bool-cases (goes_on circuit dram getch m)) [
      | inl on ↦ absurd (ground (arith, on, e))
      | inr off ↦ ended m m' (sym (if_skipped (goes_on circuit dram getch m) _ _ off) ∙ e)
    ]
    run_loop-Reaches (suc fuel) m m' j e = elim (Bool-cases (goes_on circuit dram getch m)) [
      | inl on ↦ elim (Option-cases (tick_once circuit dram getch m)) [
        | inl failed ↦ absurd (ground (arith, on, failed, e))
        | inr (m1, ran) ↦ Reaches-trans host (tick_once-Reaches m m1 j ran) (
            run_loop-Reaches fuel m1 m' (only.stays m m1 j ran) (
              sym (ap (λ o. after_tick o (run_loop circuit dram getch fuel)) ran)
              ∙ sym (if_taken (goes_on circuit dram getch m) _ _ on)
              ∙ e))
      ]
      | inr off ↦ ended m m' (sym (if_skipped (goes_on circuit dram getch m) _ _ off) ∙ e)
    ]

  -- From the state in which `sl_init` leaves the emulation, for a program that ends in the first quarter of
  -- its memory of at most 4 GiB, and a circuit that, in the states `J` that the loop runs through, changes
  -- the emulation by modest calls and by stores only: whatever the host answers and the bus stores, when
  -- the loop ends the heap has stayed in the first quarter and the mapped blocks in the second.
  pub run_loop-bounds :
      (fuel brk sp gb gm : ℕ) (J : Machine D V → Type 0) (m m' : Machine D V)
      → brk ≤ gm / 4
      → gm ≤ 2 ^ 32
      → gb + 2 ^ 32 ≤ 2 ^ 64
      → OnlyCalls J
      → J m
      → m.target ≡ init_target brk sp gb gm
      → run_loop circuit dram getch fuel m ≡ finished m'
      → (brk ≤ m'.target.target_brk)
        × (m'.target.target_brk ≤ gm / 4)
        × (gm / 4 ≤ m'.target.target_cur_mmap_ptr)
        × (m'.target.target_cur_mmap_ptr ≤ gm / 2)
  run_loop-bounds fuel brk sp gb gm J m m' ends whole fits only j begins ran =
      Reaches-bounds host brk sp gb gm (sys_of m) (sys_of m') ends whole fits begins
        (run_loop-Reaches J only fuel m m' j ran)
