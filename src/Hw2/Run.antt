-- ===== src/Hw2/Run.antt =====
-- The constructor of hw2/system.cpp, `System::tick`, and `main` of hw2/main.cpp.
use sparcy.Base.{
  ℕ, zero, suc, ◌+◌, ◌*◌, ◌/◌, Bool, true, false, not, ◌&&◌, Option, none, some, [], ◌==◌, ltb,
  if◌then◌else◌, u64,
}
use sparcy.Memory.{memset}
use sparcy.Driver.{MemorySystem}
use sparcy.Driver.Bus.{then_run}
use sparcy.Driver.Main.{Outcome, finished, out_of_fuel, after_tick}
use sparcy.Hw2.{Top, System, proc_tick, kilo}
use sparcy.Hw2.Bus.{ram_tick}

abbrev pub hw2_ram_size : ℕ
hw2_ram_size = 1 * 1024 * 1024

abbrev pub hw2_ps_per_clock : ℕ
hw2_ps_per_clock = 500

-- The circuit of the cache, with its hidden states `V`.
pub record Cache (V : Type 0) : Type 0 where
  pub eval : V → Top → V × Top
  pub got_finish : V → Bool

-- What the loop of `main` works on; `calls` counts the calls of `rand`.
pub record Run (D V : Type 0) : Type 0 where
  pub system : System D
  pub hidden : V
  pub calls : ℕ
  pub main_time : ℕ

-- The constructor, where `s` holds what `malloc` and the DRAM simulator gave, and the members that are
-- not initialised.
unfoldable pub build : {D : Type 0} → ℕ → System D → Option (System D)
unfolding memset
build ramsize s =
    if s.ram == 0
    then none
    else some (record s {
      ramsize = ramsize;
      rx_count = 0;
      memory = memset s.memory s.ram 0 ramsize;
      addr_to_tag = [];
      tx_queue = [];
    })

module _ {D V : Type 0} (cache : Cache V) (dram : MemorySystem D) (rand : ℕ → ℕ) where
  unfoldable pub eval_cache : Run D V → Run D V
  eval_cache r =
      let (v, top) = cache.eval r.hidden r.system.top in
      record r { hidden = v; system = record r.system { top = top } }

  unfoldable pub later : Run D V → Run D V
  later r = record r { main_time = u64 (r.main_time + hw2_ps_per_clock / 4) }

  -- `System::tick`: the processor, then the memory.
  unfoldable pub both_ticks : Run D V → Option (Run D V)
  unfolding proc_tick ram_tick
  both_ticks r =
      let (top, calls) = proc_tick rand r.system.ramsize r.calls r.system.top in
      then_run (ram_tick dram (record r.system { top = top }) r.system.top.clk)
        (λ s. some (record r { system = s; calls = calls }))

  -- `TICK()`
  unfoldable pub run_tick : Run D V → Option (Run D V)
  unfolding eval_cache later both_ticks
  run_tick r =
      let flipped = record r {
        system = record r.system { top = record r.system.top { clk = not r.system.top.clk } };
      } in
      then_run (both_ticks (eval_cache flipped)) (λ r'. some (later (eval_cache (later r'))))

  unfoldable pub in_reset : Bool → Run D V → Run D V
  in_reset b r = record r { system = record r.system { top = record r.system.top { reset = b } } }

  -- The two ticks in reset and the two after it.
  unfoldable pub first_ticks : Run D V → Option (Run D V)
  unfolding run_tick in_reset
  first_ticks r =
      let held = in_reset true r in
      let low : Run D V = record held {
        system = record held.system { top = record held.system.top { clk = false } };
      } in
      then_run (run_tick low) (λ r1.
        then_run (run_tick r1) (λ r2. then_run (run_tick (in_reset false r2)) (λ r3. run_tick r3)))

  unfoldable pub runs_on : Run D V → Bool
  runs_on r = ltb (r.main_time / hw2_ps_per_clock) (200 * kilo) && not (cache.got_finish r.hidden)

  unfoldable pub run_cache : ℕ → Run D V → Outcome (Run D V)
  unfolding run_tick runs_on
  run_cache zero r = if runs_on r then out_of_fuel else finished r
  run_cache (suc fuel) r =
      if runs_on r then after_tick (run_tick r) (λ r'. run_cache fuel r') else finished r

  -- `main`, after Verilator has read its arguments: `s` is the driver before its constructor, and `v` the
  -- cache's hidden state.
  unfoldable pub main_cache : ℕ → System D → V → Outcome (Run D V)
  unfolding build first_ticks run_cache
  main_cache fuel s v = after_tick (build hw2_ram_size s) (λ s'.
      after_tick (first_ticks (record { system = s'; hidden = v; calls = 0; main_time = 0 }))
        (run_cache fuel))
