-- ===== src/Hw2/Tick.antt =====
-- For a circuit that only asks for memory, the bus of hw2/system.cpp does what that of proj/system.cpp
-- does.
use sparcy.Base.{
  ℕ, ◌/◌, ◌%◌, ◌≡◌, refl, ◌∙◌, sym, ap, arith, Bool, true, ◌&&◌, Option, none, some, List, [], ◌∷◌,
}
use sparcy.Driver
use sparcy.Driver.{MemorySystem, Vtop, tag_memory, cse502_be64toh}
use sparcy.Driver.Bus.{
  then_run, tick, dram_read_complete, complete_reads, pop_taken, drive_response, serve_request,
  rising_edge, poll_keyboard,
}
use sparcy.Hw2.{Top}
use sparcy.Hw2.Bus.{ram_tick, pop_response, send_response, serve}
use sparcy.Hw2.Same.{
  without_devices, each, pop_same, send_same, answer_same, serve_same, reads_complete_same,
  then_run-each, each_if,
}

module _ {D : Type 0} (c : Top) where
  -- The ports are those of `s`, where no assertion has failed.
  abbrev SamePorts : sparcy.Driver.System D → Option (sparcy.Driver.System D) → Type 0
  SamePorts s none = Unit
  SamePorts s (some s') = s'.top ≡ s.top

  dram_read_complete-SamePorts :
      (s : sparcy.Driver.System D) (x : ℕ) → SamePorts s (dram_read_complete s x)
  unfolding dram_read_complete
  dram_read_complete-SamePorts s x = ground arith

  then_run-SamePorts :
      (s : sparcy.Driver.System D) (o : Option (sparcy.Driver.System D))
      (f : sparcy.Driver.System D → Option (sparcy.Driver.System D))
      → SamePorts s o
      → ((s' : sparcy.Driver.System D) → SamePorts s' (f s'))
      → SamePorts s (then_run o f)
  then_run-SamePorts s none f h k = tt
  then_run-SamePorts s (some s') f h k = rw (← h) (k s')

  complete_reads-SamePorts :
      (s : sparcy.Driver.System D) (xs : List ℕ) → SamePorts s (complete_reads s xs)
  unfolding complete_reads
  complete_reads-SamePorts s [] = refl
  complete_reads-SamePorts s (x ∷ xs) =
      then_run-SamePorts s (dram_read_complete s x) (λ s'. complete_reads s' xs)
        (dram_read_complete-SamePorts s x) (λ s'. complete_reads-SamePorts s' xs)

  reached_ports :
      (s s' : sparcy.Driver.System D) (xs : List ℕ) → complete_reads s xs ≡ some s' → s'.top ≡ s.top
  reached_ports s s' xs e = coe 0 1 (i. SamePorts s (e i)) (complete_reads-SamePorts s xs)

  asked_kept :
      (s : sparcy.Driver.System D)
      → ((drive_response (pop_taken s)).top.bus_reqcyc ≡ s.top.bus_reqcyc)
        × ((drive_response (pop_taken s)).top.bus_reqtag ≡ s.top.bus_reqtag)
  unfolding drive_response pop_taken
  asked_kept s = (ground arith, ground arith)

  after_front_same :
      (dram : MemorySystem D) (s s' : sparcy.Driver.System D)
      → (s.top.bus_reqcyc ≡ true → s.top.bus_reqtag / 256 % 16 ≡ tag_memory)
      → s'.top ≡ s.top
      → serve dram (send_response (pop_response (without_devices c s')))
        ≡ each c (serve_request dram (drive_response (pop_taken s')))
  after_front_same dram s s' known e =
      let s2 = drive_response (pop_taken s') in
      let asked : s2.top.bus_reqcyc ≡ s.top.bus_reqcyc =
        (asked_kept s').0 ∙ ap (λ t. t.bus_reqcyc) e in
      let tag : s2.top.bus_reqtag ≡ s.top.bus_reqtag =
        (asked_kept s').1 ∙ ap (λ t. t.bus_reqtag) e in
      ap (serve dram) (ap send_response (pop_same c s') ∙ send_same c (pop_taken s'))
      ∙ serve_same c dram s2 (λ h. rw tag (known (sym asked ∙ h)))

  -- Where the circuit asks for memory only, each edge of the earlier bus leaves what the same edge of the
  -- later one leaves, at any time and without a key: the same assertions fail, and otherwise the states
  -- agree in all that the earlier driver has.
  pub ram_tick-tick :
      (dram : MemorySystem D) (time : ℕ) (s : sparcy.Driver.System D) (clk : Bool)
      → (s.top.bus_reqcyc ≡ true → s.top.bus_reqtag / 256 % 16 ≡ tag_memory)
      → ram_tick dram (without_devices c s) clk ≡ each c (tick dram time none s clk)
  unfolding ram_tick tick rising_edge poll_keyboard
  ram_tick-tick dram time s clk known =
      let d = dram.update s.dramsim in
      each_if c (s.top.reset && s.top.bus_reqcyc) _ _ _ _ refl (
        each_if c clk _ _ _ _
          (ap (λ o. then_run o (λ s'. serve dram (send_response (pop_response s'))))
              (reads_complete_same c (record s { dramsim = d.1 }) d.0)
            ∙ then_run-each c (complete_reads (record s { dramsim = d.1 }) d.0)
                (λ s'. serve_request dram (drive_response (pop_taken s')))
                (λ s'. serve dram (send_response (pop_response s')))
                (λ s' e.
                  after_front_same dram s s' known
                    (reached_ports (record s { dramsim = d.1 }) s' d.0 e)))
          (answer_same c dram s))
