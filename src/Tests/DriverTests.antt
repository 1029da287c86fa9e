-- ===== src/Tests/DriverTests.antt =====
-- Tests of the bus of proj/system.cpp.
use sparcy.Base.{
  ℕ, ◌%◌, ◌≤◌, ◌<◌, ◌≡◌, ◌⊎◌, refl, ◌∙◌, sym, inl, ap, Bool, true, false, none, some, List, [], ◌∷◌,
  ◌++◌, ◌==◌, arith, u64, map,
}
use sparcy.Tests.Fixtures.{near_dram, is_pending, near_dram-IsMemorySystem}
use sparcy.Driver.{Vtop, System}
use sparcy.Driver.Bus.{tick, find_tag, erase_tag, dram_read_complete, is_outstanding}
use sparcy.Driver.Line.{store_line}
use sparcy.Driver.Outstanding.{Serves}
use sparcy.Driver.Protocol.{Runs, KeepsProtocol, tick-Serves}
use sparcy.Driver.Burst.{Beat, send_beats}
use sparcy.Driver.Lines.{send_beats-stores_line, dram_read_complete-send_beats, words}

-- The ports with a request to read the line at 0x80: tag 0x1105 is a read of memory.
abbrev asking : Vtop
asking = record {
  reset = false;
  clk = true;
  entry = 0;
  bus_reqcyc = true;
  bus_req = 0x80;
  bus_reqtag = 0x1105;
  bus_reqack = true;
  bus_respcyc = false;
  bus_resp = 0;
  bus_resptag = 0;
  bus_respack = false;
}

-- An idle driver, with a read of 0x40 that has not ended.
abbrev pub busy_system : System (ℕ → Bool)
busy_system = record {
  top = asking;
  memory = λ q. q % 7;
  ram = 0x10000;
  ramsize = 0x1000;
  max_elf_addr = 0;
  interrupts = 0;
  keys = [];
  cmd = 0;
  rx_count = 0;
  xfer_addr = 0;
  addr_to_tag = (0x40, 0x1103) ∷ [];
  tx_queue = [];
  dramsim = λ a. a == 0x40;
}

busy_system-Serves : Serves is_pending busy_system
unfolding is_outstanding find_tag
busy_system-Serves = record {
  map_of_tags = (refl, tt);
  same_reads = λ a. ground arith;
  at_most_eight = omega arith;
}

busy_system-KeepsProtocol : KeepsProtocol near_dram busy_system
busy_system-KeepsProtocol = record {
  accepted = λ _. refl;
  aligned = λ _ _. refl;
  known = λ _ _. inl refl;
  inside = λ _ more _. absurd (omega arith);
}

tick-Serves_example : Runs (Serves is_pending) (tick near_dram 500 (some 97) busy_system true)
tick-Serves_example =
    tick-Serves near_dram is_pending 500 (some 97) busy_system true near_dram-IsMemorySystem
      busy_system-KeepsProtocol busy_system-Serves

-- A request to write the line at 0x80 from its third word on, and eight beats.
abbrev beat : ℕ → Beat
beat w = record { time = 1000; key = none; word = w; respack = true }

abbrev eight_beats : List Beat
eight_beats =
    beat 11
    ∷ beat 22
    ∷ beat 33
    ∷ beat 44
    ∷ beat 55
    ∷ beat 66
    ∷ beat 77
    ∷ beat (0xffff_ffff_ffff_ffff)
    ∷ []

send_beats-stores_line_example :
    (s' : System (ℕ → Bool)) × (send_beats near_dram 0x105 (beat 0x90 ∷ eight_beats) busy_system
      ≡ some s')
    × Serves is_pending s'
    × (s'.memory ≡ store_line (λ q. q % 7) 0x10000 0x90 0 (words eight_beats))
    × ((q : ℕ) → (q < 0x10080) ⊎ (0x100c0 ≤ q) → s'.memory q ≡ q % 7)
    × (s'.rx_count ≡ 0)
    × (s'.ram ≡ 0x10000)
send_beats-stores_line_example =
    send_beats-stores_line near_dram is_pending 0x105 (beat 0x90) eight_beats busy_system
      near_dram-IsMemorySystem busy_system-Serves refl refl refl refl refl refl

-- The state that those edges lead to.
after_write : System (ℕ → Bool)
after_write = elim (send_beats near_dram 0x105 (beat 0x90 ∷ eight_beats) busy_system) [
  | some s ↦ s
  | none ↦ busy_system
]

-- A read of 0x90 is under way then.
abbrev reading : System (ℕ → Bool)
reading = record after_write { addr_to_tag = (0x90, 0x1107) ∷ (0x40, 0x1103) ∷ [] }

after_write_lem :
    send_beats near_dram 0x105 (beat 0x90 ∷ eight_beats) busy_system ≡ some after_write
unfolding after_write
after_write_lem =
    let (s', ran, _, _, _, _, _) =
      send_beats-stores_line near_dram is_pending 0x105 (beat 0x90) eight_beats busy_system
        near_dram-IsMemorySystem busy_system-Serves refl refl refl refl refl refl in
    ran ∙ sym (ap (λ o. some (elim o [ some s ↦ s | none ↦ busy_system ])) ran)

reading_found : find_tag 0x90 reading.addr_to_tag ≡ some 0x1107
unfolding find_tag
reading_found = refl

dram_read_complete-send_beats_example :
    dram_read_complete reading 0x90
    ≡ some (record reading {
      tx_queue = reading.tx_queue ++ map (λ b. (u64 b.word, 0x1107)) eight_beats;
      addr_to_tag = erase_tag 0x90 reading.addr_to_tag;
    })
dram_read_complete-send_beats_example =
    dram_read_complete-send_beats near_dram is_pending 0x105 0x1107 (beat 0x90) eight_beats
      busy_system after_write reading near_dram-IsMemorySystem busy_system-Serves refl refl refl
      refl refl refl after_write_lem refl refl reading_found
