-- ===== src/Hw2/Returns.antt =====
-- `main` of hw2/main.cpp as a whole.
use sparcy.Base.{
  ℕ, Bool, ◌<◌, ◌*◌, ◌≤◌, ◌≡◌, ◌≢◌, refl, ap, sym, ◌∙◌, false, true, [], some, ◌==◌, arith,
  if_skipped,
}
use sparcy.Driver.{MemorySystem}
use sparcy.Driver.Bus.{is_outstanding, find_tag, then_run}
use sparcy.Driver.Outstanding.{Serves-same, Serves}
use sparcy.Driver.Main.{Outcome, finished, after_tick}
use sparcy.Hw2.{System}
use sparcy.Hw2.Run.{
  Cache, Run, hw2_ram_size, build, in_reset, run_tick, first_ticks, run_cache, main_cache,
}
use sparcy.Hw2.Ends.{
  stop_time, with_devices, CacheBehaves, CacheStops, one_cache_tick, run_cache-finishes,
}

module _ {D V : Type 0} (cache : Cache V) (dram : MemorySystem D) (rand : ℕ → ℕ) where
  -- The state before the first tick: in reset, with the clock low.
  abbrev pub held : System D → V → Run D V
  held s v =
      let r : Run D V = record { system = s; hidden = v; calls = 0; main_time = 0 } in
      let r' = in_reset cache dram rand true r in
      record r' { system = record r'.system { top = record r'.system.top { clk = false } } }

  build_lem :
      (s : System D)
      → s.ram ≢ 0
      → (s' : System D) × (build hw2_ram_size s ≡ some s')
        × (s'.addr_to_tag ≡ [])
        × (s'.rx_count ≡ 0)
        × (s'.dramsim ≡ s.dramsim)
  unfolding build
  build_lem s h =
      let there : (s.ram == 0) ≡ false = ground (arith, h) in
      (_, if_skipped (s.ram == 0) _ _ there, refl, refl, refl)

  module _ (pending : D → ℕ → Bool) (J : Run D V → Type 0) where
    -- The four ticks.
    first_ticks-Serves :
        (s : System D) (v : V)
        → CacheBehaves cache dram rand pending J
        → J (held s v)
        → ((r : Run D V) → J r → J (in_reset cache dram rand false r))
        → Serves pending (with_devices s)
        → (r : Run D V) × (first_ticks cache dram rand
              (record { system = s; hidden = v; calls = 0; main_time = 0 })
            ≡ some r)
          × J r
          × Serves pending (with_devices r.system)
    unfolding first_ticks in_reset
    first_ticks-Serves s v b j released served =
        let tick =
          λ (r : Run D V) (j' : J r) (sv : Serves pending (with_devices r.system))
              (t : r.main_time < stop_time).
            one_cache_tick cache dram rand pending J r b j' sv t in
        let same : Serves pending (with_devices (held s v).system) =
          (Serves-same served refl refl refl) in
        let (r1, ran1, j1, v1, t1) = tick (held s v) j same (omega arith) in
        let (r2, ran2, j2, v2, t2) = tick r1 j1 v1 (omega (arith, t1)) in
        let out = in_reset cache dram rand false r2 in
        let v2' : Serves pending (with_devices out.system) = (Serves-same v2 refl refl refl) in
        let (r3, ran3, j3, v3, t3) = tick out (released r2 j2) v2' (omega (arith, t1, t2)) in
        let (r4, ran4, j4, v4, t4) = tick r3 j3 v3 (omega (arith, t1, t2, t3)) in
        let run = run_tick cache dram rand in
        let out_of = in_reset cache dram rand false in
        let steps =
          ap (λ o. then_run o (λ a. then_run (run a) (λ c. then_run (run (out_of c)) run))) ran1
          ∙ (ap (λ o. then_run o (λ c. then_run (run (out_of c)) run)) ran2
              ∙ (ap (λ o. then_run o run) ran3 ∙ ran4)) in
        (r4, steps, j4, v4)

    -- `main` of the second homework, where `malloc` gives the memory, no read is under way in the DRAM
    -- simulator, which ends each read once, and the cache keeps the protocol of the bus in the states `J`,
    -- which hold when the reset begins and which the ticks and the end of the reset keep: no assertion
    -- fails, and with fuel for the simulated time the program ends, because the time is over or the circuit
    -- has run `$finish`.
    pub main_cache-returns :
        (fuel : ℕ) (s : System D) (v : V)
        → CacheBehaves cache dram rand pending J
        → ((s' : System D) → build hw2_ram_size s ≡ some s' → J (held s' v))
        → ((r : Run D V) → J r → J (in_reset cache dram rand false r))
        → s.ram ≢ 0
        → ((a : ℕ) → pending s.dramsim a ≡ false)
        → stop_time ≤ 250 * fuel
        → (r : Run D V) × (main_cache cache dram rand fuel s v ≡ finished r)
          × CacheStops cache dram rand r
    unfolding main_cache is_outstanding find_tag
    main_cache-returns fuel s v b j released there idle enough =
        let (s', built, no_tags, no_beats, same_dram) = build_lem s there in
        let served : Serves pending (with_devices s') = record {
          map_of_tags = rw no_tags tt;
          same_reads = λ a. rw (no_tags, same_dram) (sym (idle a));
          at_most_eight = omega (arith, no_beats);
        } in
        let (r, ran, jr, vr) = first_ticks-Serves s' v b (j s' built) released served in
        let (r', ran', _, stops) =
          run_cache-finishes cache dram rand pending J fuel r b jr vr (omega arith) in
        let ticks : (s : System D) → Outcome (Run D V) = λ s1.
          after_tick
            (first_ticks cache dram rand
              (record { system = s1; hidden = v; calls = 0; main_time = 0 }))
            (run_cache cache dram rand fuel) in
        (
          r',
          ap (λ o. after_tick o ticks) built
              ∙ (ap (λ o. after_tick o (run_cache cache dram rand fuel)) ran ∙ ran'),
          stops,
        )
