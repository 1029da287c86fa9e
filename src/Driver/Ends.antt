-- ===== src/Driver/Ends.antt =====
-- The loop of `main` in proj/main.cpp ends.
use mathlib.Core.Option.{some-injective, none-ne-some}
use sparcy.Base.{
  ℕ, zero, suc, ◌+◌, ◌*◌, ◌≤◌, ◌<◌, ◌≡◌, ◌≢◌, refl, arith, Bool, true, false, ◌⊎◌, inl, inr, ◌∙◌,
  ap, Option, none, some, Bool-cases, Option-cases, sym, if_taken, if_skipped,
}
use sparcy.Driver.{MemorySystem, System, mega}
use sparcy.Driver.Bus.{tick, then_run}
use sparcy.Driver.Outstanding.{Serves-same, IsMemorySystem, Serves}
use sparcy.Driver.Protocol.{Runs, KeepsProtocol, tick-Serves}
use sparcy.Driver.Main.{
  Circuit, Machine, finished, after_tick, before_tick, tick_once, goes_on, run_loop, eval,
  quarter_later, flip_clk,
}

-- The simulated time, in picoseconds, at which the loop stops at the latest.
abbrev pub last_time : ℕ
last_time = 2000 * mega * 500

pub Runs-some :
    {A : Type 0} (P : A → Type 0) (o : Option A) → Runs P o → (a : A) × (o ≡ some a) × P a
Runs-some P none h = absurd h
Runs-some P (some a) h = (a, refl, h)

module _ {D V : Type 0} (circuit : Circuit V) (dram : MemorySystem D) (getch : ℕ → Option ℕ) where
  -- The tick that a machine has gone through.
  pub tick_once_ran :
      (m m' : Machine D V)
      → tick_once circuit dram getch m ≡ some m'
      → let m1 = before_tick circuit dram getch m in
        (s : System D) × (tick dram m1.main_time (getch m1.main_time) m1.system m1.system.top.clk
          ≡ some s)
        × (quarter_later (eval circuit (record m1 { system = s })) ≡ m')
  unfolding tick_once
  tick_once_ran m m' e =
      let m1 = before_tick circuit dram getch m in
      let o = tick dram m1.main_time (getch m1.main_time) m1.system m1.system.top.clk in
      let f : System D → Option (Machine D V) =
        λ s. some (quarter_later (eval circuit (record m1 { system = s }))) in
      elim (Option-cases o) [
        | inl failed ↦ absurd (none-ne-some m' (sym (ap (λ x. then_run x f) failed) ∙ e))
        | inr (s, ran) ↦ (s, ran, some-injective _ m' (sym (ap (λ x. then_run x f) ran) ∙ e))
      ]

  -- What the parts around the driver promise: the DRAM simulator ends each read once, and the circuit,
  -- in the states `J` that it runs through, keeps the protocol of the bus.
  pub record Behaves (pending : D → ℕ → Bool) (J : Machine D V → Type 0) : Type 0 where
    pub law : IsMemorySystem dram pending
    pub keeps :
        (m : Machine D V) → J m → KeepsProtocol dram (before_tick circuit dram getch m).system
    pub again : (m m' : Machine D V) → J m → tick_once circuit dram getch m ≡ some m' → J m'

  -- Why the loop stops: the time is over, the circuit has run `$finish`, or the program has exited.
  abbrev pub Stops : Machine D V → Type 0
  Stops m =
      (last_time ≤ m.main_time)
      ⊎ (circuit.got_finish m.hidden ≡ true)
      ⊎ (m.target.target_exit_called ≢ 0)

  goes_on-Stops : (m : Machine D V) → goes_on circuit dram getch m ≡ false → Stops m
  unfolding goes_on
  goes_on-Stops m h = ground arith

  goes_on_early : (m : Machine D V) → goes_on circuit dram getch m ≡ true → m.main_time < last_time
  unfolding goes_on
  goes_on_early m h = ground arith

  module _ (pending : D → ℕ → Bool) (J : Machine D V → Type 0) where
    pub one_tick :
        (m : Machine D V)
        → Behaves pending J
        → J m
        → Serves pending m.system
        → m.main_time < last_time
        → (m' : Machine D V) × (tick_once circuit dram getch m ≡ some m')
          × J m'
          × Serves pending m'.system
          × (m'.main_time ≡ m.main_time + 250)
    unfolding tick_once before_tick eval quarter_later flip_clk
    one_tick m b j v early =
        let m1 = before_tick circuit dram getch m in
        let v1 : Serves pending m1.system = (Serves-same v refl refl refl) in
        let (s, ran, v2) =
          Runs-some (Serves pending)
            (tick dram m1.main_time (getch m1.main_time) m1.system m1.system.top.clk)
            (tick-Serves dram pending m1.main_time (getch m1.main_time) m1.system m1.system.top.clk
              b.law (b.keeps m j) v1) in
        let m' = quarter_later (eval circuit (record m1 { system = s })) in
        let ran' : tick_once circuit dram getch m ≡ some m' =
          ap
            (λ o.
              then_run o (λ s'. some (quarter_later (eval circuit (record m1 { system = s' })))))
            ran in
        (m', ran', b.again m m' j ran', (Serves-same v2 refl refl refl), omega arith)

    -- Where they do, no assertion fails, and with fuel for the simulated time that is left the loop ends:
    -- the time is over, the circuit has run `$finish`, or the program has exited.
    pub run_loop-finishes :
        (fuel : ℕ) (m : Machine D V)
        → Behaves pending J
        → J m
        → Serves pending m.system
        → last_time ≤ m.main_time + 250 * fuel
        → (m' : Machine D V) × (run_loop circuit dram getch fuel m ≡ finished m')
          × Serves pending m'.system
          × Stops m'
    unfolding run_loop
    run_loop-finishes zero m b j v late = elim (Bool-cases (goes_on circuit dram getch m)) [
      | inl on ↦ absurd (omega (arith, goes_on_early m on))
      | inr off ↦ (m, if_skipped (goes_on circuit dram getch m) _ _ off, v, goes_on-Stops m off)
    ]
    run_loop-finishes (suc fuel) m b j v late = elim (Bool-cases (goes_on circuit dram getch m)) [
      | inl on ↦
          let (m1, ran, j1, v1, time) = one_tick m b j v (goes_on_early m on) in
          let (m2, ran', v2, stops) = run_loop-finishes fuel m1 b j1 v1 (omega (arith, time)) in
          (
            m2,
            if_taken (goes_on circuit dram getch m) _ _ on
                ∙ ap (λ o. after_tick o (run_loop circuit dram getch fuel)) ran
                ∙ ran',
            v2,
            stops,
          )
      | inr off ↦ (m, if_skipped (goes_on circuit dram getch m) _ _ off, v, goes_on-Stops m off)
    ]
