-- ===== src/Tests/Hw2Tests.antt =====
-- Tests of the driver of hw2.
use mathlib.Core.Path.{subst}
use sparcy.Base.{
  ap, ◌∙◌, ◌/◌, ◌%◌, ℕ, Bool, not, ltb, arith, ◌+◌, ◌*◌, ◌≡◌, refl, true, false, none,
}
use sparcy.Driver.Bus.{tick}
use sparcy.Hw2.{Top, System, proc_tick, new_request}
use sparcy.Hw2.Run.{Cache, Run, in_reset, eval_cache, later, main_cache}
use sparcy.Hw2.Ends.{run_tick_ran, CacheBehaves, CacheStops}
use sparcy.Hw2.Returns.{main_cache-returns}
use sparcy.Driver.Main.{finished}
use sparcy.Hw2.Requests.{Keeps, proc_tick-Keeps}
use sparcy.Hw2.Bus.{ram_tick}
use sparcy.Hw2.Same.{without_devices, each}
use sparcy.Hw2.Tick.{ram_tick-tick}
use sparcy.Tests.DriverTests.{busy_system}
use sparcy.Tests.Fixtures.{near_dram, is_pending, near_dram-IsMemorySystem}

abbrev cache_ports : Top
cache_ports = record {
  reset = false;
  clk = false;
  bus_reqcyc = false;
  bus_req = 0;
  bus_reqtag = 0;
  bus_reqack = false;
  bus_respcyc = false;
  bus_resp = 0;
  bus_resptag = 0;
  bus_respack = false;
  c_ack = true;
  c_req = true;
  c_read_write_n = 1;
  c_line_addr = 0;
  c_data_in = 7;
  c_word_select = 3;
}

-- The request that was answered is followed by a read of line 5.
next_request :
    proc_tick (λ i. 129 + i * 100) 0x1000 0 cache_ports
    ≡ (record cache_ports { c_line_addr = 5; c_word_select = 13 }, 4)
unfolding proc_tick
next_request = refl

ram_tick-tick_example :
    ram_tick near_dram (without_devices cache_ports busy_system) true
    ≡ each cache_ports (tick near_dram 500 none busy_system true)
ram_tick-tick_example = ram_tick-tick cache_ports near_dram 500 busy_system true (λ _. refl)

proc_tick-Keeps_example :
    Keeps 0x1000 0 cache_ports (proc_tick (λ i. 129 + i * 100) 0x1000 0 cache_ports)
proc_tick-Keeps_example =
    proc_tick-Keeps (λ i. 129 + i * 100) 0x1000 0 cache_ports (omega arith)
      (record { line = omega arith; word = omega arith; kind = omega arith })

-- A cache that asks for a read at each evaluation, eight bytes further each time, from the address that is
-- its hidden state on.
abbrev reading_cache : Cache ℕ
reading_cache = record {
  eval = λ v top. (v + 8, record top { bus_reqcyc = true; bus_req = v; bus_reqtag = 0x1105 });
  got_finish = λ v. ltb 800 v;
}

abbrev requests : ℕ → ℕ
requests i = 129 + i * 100

asks_on :
    (ramsize calls : ℕ) (top : Top)
    → ((proc_tick requests ramsize calls top).0.bus_req ≡ top.bus_req)
      × ((proc_tick requests ramsize calls top).0.bus_reqtag ≡ top.bus_reqtag)
unfolding proc_tick new_request
asks_on ramsize calls top = ground arith

-- The address is one of a word.
abbrev AtWord : Run (ℕ → Bool) ℕ → Type 0
AtWord r = r.hidden % 8 ≡ 0

next_word : (v : ℕ) → v % 8 ≡ 0 → (v + 8 + 8) % 8 ≡ 0
next_word v h = omega arith

reading_cache-CacheBehaves : CacheBehaves reading_cache near_dram requests is_pending AtWord
unfolding eval_cache later
reading_cache-CacheBehaves = record {
  law = near_dram-IsMemorySystem;
  keeps = λ r at_word.
      let low = record r.system.top { clk = not r.system.top.clk } in
      let top = (reading_cache.eval r.hidden low).1 in
      let (address, tag) = asks_on r.system.ramsize r.calls top in
      record {
        accepted = λ _. refl;
        aligned = λ _ _. ap (λ x. x % 8) address ∙ at_word;
        memory_only = λ _. ap (λ x. x / 256 % 16) tag;
      };
  again = λ r r' at_word ran.
      let (s, same) = run_tick_ran reading_cache near_dram requests r r' ran in
      subst AtWord same (next_word r.hidden at_word);
}

abbrev before_main : System (ℕ → Bool)
before_main = record (without_devices cache_ports busy_system) { dramsim = λ a. false }

main_cache-returns_example :
    (r : Run (ℕ → Bool) ℕ) × (main_cache reading_cache near_dram requests 409600 before_main 0
      ≡ finished r)
    × CacheStops reading_cache near_dram requests r
unfolding in_reset
main_cache-returns_example =
    main_cache-returns reading_cache near_dram requests is_pending AtWord 409600 before_main 0
      reading_cache-CacheBehaves (λ s' _. refl) (λ r at_word. at_word) (omega arith) (λ a. refl)
      (omega arith)
