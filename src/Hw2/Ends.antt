-- ===== src/Hw2/Ends.antt =====
-- The loop of `main` in hw2/main.cpp ends.
use mathlib.Core.Option.{some-injective, none-ne-some}
use sparcy.Base.{
  sym, Option, Option-cases, refl, ℕ, zero, suc, ◌+◌, ◌*◌, ◌/◌, ◌%◌, ◌≤◌, ◌<◌, ◌≡◌, ◌⊎◌, inl, inr,
  ap, ◌∙◌, Bool, Bool-cases, true, false, not, none, some, [], if_taken, if_skipped, arith,
}
use sparcy.Driver
use sparcy.Driver.{MemorySystem, tag_memory}
use sparcy.Driver.Bus.{then_run, tick}
use sparcy.Driver.Outstanding.{Serves-same, IsMemorySystem, Serves}
use sparcy.Driver.Protocol.{KeepsProtocol, tick-Serves}
use sparcy.Driver.Ends.{Runs-some}
use sparcy.Driver.Main.{finished, after_tick}
use sparcy.Hw2.{System, proc_tick, kilo}
use sparcy.Hw2.Bus.{ram_tick}
use sparcy.Hw2.Run.{Cache, Run, eval_cache, later, both_ticks, run_tick, runs_on, run_cache}
use sparcy.Hw2.Same.{without_devices, each}
use sparcy.Hw2.Tick.{ram_tick-tick}

-- The simulated time, in picoseconds, at which the loop stops at the latest.
abbrev pub stop_time : ℕ
stop_time = 200 * kilo * 500

module _ {D : Type 0} where
  -- The driver with the devices of the project, at rest.
  abbrev pub with_devices : System D → sparcy.Driver.System D
  with_devices s = record {
    top = record {
      reset = s.top.reset;
      clk = s.top.clk;
      entry = 0;
      bus_reqcyc = s.top.bus_reqcyc;
      bus_req = s.top.bus_req;
      bus_reqtag = s.top.bus_reqtag;
      bus_reqack = s.top.bus_reqack;
      bus_respcyc = s.top.bus_respcyc;
      bus_resp = s.top.bus_resp;
      bus_resptag = s.top.bus_resptag;
      bus_respack = s.top.bus_respack;
    };
    memory = s.memory;
    ram = s.ram;
    ramsize = s.ramsize;
    max_elf_addr = 0;
    interrupts = 0;
    keys = [];
    cmd = s.cmd;
    rx_count = s.rx_count;
    xfer_addr = s.xfer_addr;
    addr_to_tag = s.addr_to_tag;
    tx_queue = s.tx_queue;
    dramsim = s.dramsim;
  }

  -- What the cache owes the driver at an edge: it asks only where the simulator takes transactions, and for
  -- an aligned address of the memory.
  pub record CacheKeeps (dram : MemorySystem D) (s : System D) : Type 0 where
    pub accepted : s.top.bus_reqcyc ≡ true → dram.will_accept_transaction s.dramsim ≡ true
    pub aligned : s.top.bus_reqcyc ≡ true → s.rx_count ≡ 0 → s.top.bus_req % 8 ≡ 0
    pub memory_only : s.top.bus_reqcyc ≡ true → s.top.bus_reqtag / 256 % 16 ≡ tag_memory

  ram_tick-Serves :
      (dram : MemorySystem D) (pending : D → ℕ → Bool) (s : System D) (clk : Bool)
      → IsMemorySystem dram pending
      → CacheKeeps dram s
      → Serves pending (with_devices s)
      → (s' : System D) × (ram_tick dram s clk ≡ some s') × Serves pending (with_devices s')
  ram_tick-Serves dram pending s clk law k v =
      let protocol : KeepsProtocol dram (with_devices s) = record {
        accepted = k.accepted;
        aligned = k.aligned;
        known = λ asked _. inl (k.memory_only asked);
        inside = λ asked _ devices. let memory = k.memory_only asked in absurd (omega arith);
      } in
      let (t, ran, served) =
        Runs-some (Serves pending) (tick dram 0 none (with_devices s) clk)
          (tick-Serves dram pending 0 none (with_devices s) clk law protocol v) in
      (
        without_devices s.top t,
        ram_tick-tick s.top dram 0 (with_devices s) clk k.memory_only ∙ ap (each s.top) ran,
        (Serves-same served refl refl refl),
      )

module _ {D V : Type 0} (cache : Cache V) (dram : MemorySystem D) (rand : ℕ → ℕ) where
  -- The driver at the call of `ramTick` in a tick.
  abbrev pub at_ram_tick : Run D V → System D
  at_ram_tick r =
      let flipped = record r {
        system = record r.system { top = record r.system.top { clk = not r.system.top.clk } };
      } in
      let evaluated = eval_cache cache dram rand flipped in
      record evaluated.system {
        top = (proc_tick rand evaluated.system.ramsize evaluated.calls evaluated.system.top).0;
      }

  -- The driver and the cache at the end of a tick whose `ramTick` has left `s`.
  abbrev pub after_ram_tick : Run D V → System D → Run D V
  after_ram_tick r s =
      let flipped = record r {
        system = record r.system { top = record r.system.top { clk = not r.system.top.clk } };
      } in
      let evaluated = eval_cache cache dram rand flipped in
      let calls =
        (proc_tick rand evaluated.system.ramsize evaluated.calls evaluated.system.top).1 in
      later cache dram rand (
        eval_cache cache dram rand
          (later cache dram rand (record evaluated { system = s; calls = calls })))

  -- The tick that a run has gone through.
  pub run_tick_ran :
      (r r' : Run D V)
      → run_tick cache dram rand r ≡ some r'
      → (s : System D) × (after_ram_tick r s ≡ r')
  unfolding run_tick both_ticks eval_cache later
  run_tick_ran r r' e =
      let flipped = record r {
        system = record r.system { top = record r.system.top { clk = not r.system.top.clk } };
      } in
      let evaluated = eval_cache cache dram rand flipped in
      let calls =
        (proc_tick rand evaluated.system.ramsize evaluated.calls evaluated.system.top).1 in
      let o = ram_tick dram (at_ram_tick r) evaluated.system.top.clk in
      let whole : Option (System D) → Option (Run D V) = λ x.
        then_run (then_run x (λ s. some (record evaluated { system = s; calls = calls }))) (λ r1.
          some (later cache dram rand (eval_cache cache dram rand (later cache dram rand r1)))) in
      elim (Option-cases o) [
        | inl failed ↦ absurd (none-ne-some r' (sym (ap whole failed) ∙ e))
        | inr (s, ran) ↦ (s, some-injective _ r' (sym (ap whole ran) ∙ e))
      ]

  -- What the parts around the driver promise: the DRAM simulator ends each read once, and the cache, in
  -- the states `J` that it runs through, keeps the protocol of the bus.
  pub record CacheBehaves (pending : D → ℕ → Bool) (J : Run D V → Type 0) : Type 0 where
    pub law : IsMemorySystem dram pending
    pub keeps : (r : Run D V) → J r → CacheKeeps dram (at_ram_tick r)
    pub again : (r r' : Run D V) → J r → run_tick cache dram rand r ≡ some r' → J r'

  runs_on_early : (r : Run D V) → runs_on cache dram rand r ≡ true → r.main_time < stop_time
  unfolding runs_on
  runs_on_early r h = ground arith

  -- Why the loop stops.
  abbrev pub CacheStops : Run D V → Type 0
  CacheStops r = (stop_time ≤ r.main_time) ⊎ (cache.got_finish r.hidden ≡ true)

  runs_on-CacheStops : (r : Run D V) → runs_on cache dram rand r ≡ false → CacheStops r
  unfolding runs_on
  runs_on-CacheStops r h = ground arith

  module _ (pending : D → ℕ → Bool) (J : Run D V → Type 0) where
    pub one_cache_tick :
        (r : Run D V)
        → CacheBehaves pending J
        → J r
        → Serves pending (with_devices r.system)
        → r.main_time < stop_time
        → (r' : Run D V) × (run_tick cache dram rand r ≡ some r')
          × J r'
          × Serves pending (with_devices r'.system)
          × (r'.main_time ≡ r.main_time + 250)
    unfolding run_tick both_ticks eval_cache later
    one_cache_tick r b j v early =
        let evaluated = eval_cache cache dram rand (record r {
          system = record r.system { top = record r.system.top { clk = not r.system.top.clk } };
        }) in
        let (top, calls) =
          proc_tick rand evaluated.system.ramsize evaluated.calls evaluated.system.top in
        let (s', ran, v2) =
          ram_tick-Serves dram pending (at_ram_tick r) evaluated.system.top.clk b.law (b.keeps r j)
            ((Serves-same v refl refl refl)) in
        let after : System D → Run D V = λ s. later cache dram rand (
          eval_cache cache dram rand
            (later cache dram rand (record evaluated { system = s; calls = calls }))) in
        let ran' : run_tick cache dram rand r ≡ some (after s') =
          ap
            (λ o.
              then_run (then_run o (λ s. some (record evaluated { system = s; calls = calls })))
                (λ r1.
                  some (
                    later cache dram rand (eval_cache cache dram rand (later cache dram rand r1)))))
            ran in
        (after s', ran', b.again r (after s') j ran', (Serves-same v2 refl refl refl), omega arith)

    -- Where the DRAM simulator ends each read once and the cache keeps the protocol of the bus, no
    -- assertion fails in the loop of the second homework, and with fuel for the simulated time that is left
    -- it ends: the time is over, or the circuit has run `$finish`.
    pub run_cache-finishes :
        (fuel : ℕ) (r : Run D V)
        → CacheBehaves pending J
        → J r
        → Serves pending (with_devices r.system)
        → stop_time ≤ r.main_time + 250 * fuel
        → (r' : Run D V) × (run_cache cache dram rand fuel r ≡ finished r')
          × Serves pending (with_devices r'.system)
          × CacheStops r'
    unfolding run_cache
    run_cache-finishes zero r b j v late = elim (Bool-cases (runs_on cache dram rand r)) [
      | inl on ↦ absurd (omega (arith, runs_on_early r on))
      | inr off ↦ (r, if_skipped (runs_on cache dram rand r) _ _ off, v, runs_on-CacheStops r off)
    ]
    run_cache-finishes (suc fuel) r b j v late = elim (Bool-cases (runs_on cache dram rand r)) [
      | inl on ↦
          let (r1, ran, j1, v1, time) = one_cache_tick r b j v (runs_on_early r on) in
          let (r2, ran', v2, stops) = run_cache-finishes fuel r1 b j1 v1 (omega (arith, time)) in
          (
            r2,
            if_taken (runs_on cache dram rand r) _ _ on
                ∙ ap (λ o. after_tick o (run_cache cache dram rand fuel)) ran
                ∙ ran',
            v2,
            stops,
          )
      | inr off ↦ (r, if_skipped (runs_on cache dram rand r) _ _ off, v, runs_on-CacheStops r off)
    ]
