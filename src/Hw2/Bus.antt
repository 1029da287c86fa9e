-- ===== src/Hw2/Bus.antt =====
-- `System::ramTick` of hw2/system.cpp, and the callback by which the DRAM simulator ends a read. A failed
-- assertion is `none`.
use sparcy.Base.{
  ℕ, zero, suc, ◌+◌, ◌-◌, ◌*◌, ◌/◌, ◌%◌, Bool, true, false, ◌&&◌, ◌||◌, Option, none, some, List,
  [], ◌∷◌, ◌++◌, ◌==◌, if◌then◌else◌,
}
use sparcy.Memory.{Memory, bswap64, ldq_he_p, stq_he_p}
use sparcy.Driver.{MemorySystem}
use sparcy.Driver.Bus.{assert, then_run}
use sparcy.Hw2.{System}

-- Bus request tag fields
abbrev pub hw2_write : ℕ
hw2_write = 0

abbrev pub hw2_memory : ℕ
hw2_memory = 1

abbrev pub hw2_mmio : ℕ
hw2_mmio = 3

unfoldable pub hw2_be64toh : ℕ → ℕ
hw2_be64toh = bswap64

unfoldable pub tag_of : ℕ → List (ℕ × ℕ) → Option ℕ
tag_of address [] = none
tag_of address ((a, tag) ∷ tags) = if a == address then some tag else tag_of address tags

unfoldable pub has_tag : ℕ → List (ℕ × ℕ) → Bool
has_tag address tags = elim (tag_of address tags) [ some _ ↦ true | none ↦ false ]

unfoldable pub drop_tag : ℕ → List (ℕ × ℕ) → List (ℕ × ℕ)
drop_tag address [] = []
drop_tag address ((a, tag) ∷ tags) = if a == address then tags else (a, tag) ∷ drop_tag address tags

unfoldable pub line_offset : ℕ → ℕ → ℕ
line_offset addr offset = addr / 64 * 64 + (addr + offset) % 64

unfoldable pub line_words : Memory → ℕ → ℕ → ℕ → ℕ → ℕ → List (ℕ × ℕ)
unfolding hw2_be64toh
line_words m ram address tag offset zero = []
line_words m ram address tag offset (suc rounds) =
    (hw2_be64toh (ldq_he_p m (ram + line_offset address offset)), tag)
    ∷ line_words m ram address tag (offset + 8) rounds

module _ {D : Type 0} where
  unfoldable pub read_complete : System D → ℕ → Option (System D)
  read_complete s address = elim (tag_of address s.addr_to_tag) [
    | none ↦ none
    | some tag ↦ some (record s {
      tx_queue = s.tx_queue ++ line_words s.memory s.ram address tag 0 8;
      addr_to_tag = drop_tag address s.addr_to_tag;
    })
  ]

  unfoldable pub reads_complete : System D → List ℕ → Option (System D)
  unfolding read_complete
  reads_complete s [] = some s
  reads_complete s (address ∷ rest) =
      then_run (read_complete s address) (λ s'. reads_complete s' rest)

  unfoldable pub pop_response : System D → System D
  pop_response s = elim s.tx_queue [
    | [] ↦ s
    | _ ∷ rest ↦ if s.top.bus_respack then record s { tx_queue = rest } else s
  ]

  unfoldable pub send_response : System D → System D
  send_response s = elim s.tx_queue [
    | [] ↦ record s {
      top = record s.top {
        bus_respcyc = false;
        bus_resp = 12297829382473034410;
        bus_resptag = 43690;
      };
    }
    | response ∷ _ ↦ record s {
      top = record s.top { bus_respcyc = true; bus_resp = response.0; bus_resptag = response.1 };
    }
  ]

  unfoldable pub take_beat : ℕ → System D → Option (System D)
  take_beat rx s =
      if s.cmd == hw2_memory
      then some (record s {
        memory =
            stq_he_p s.memory (s.ram + line_offset s.xfer_addr ((8 - rx) * 8))
              (hw2_be64toh s.top.bus_req);
        rx_count = rx - 1;
      })
      else none

  unfoldable pub writes : System D → Bool
  writes s = s.top.bus_reqtag / 4096 % 2 == hw2_write

  unfoldable pub beats_after : System D → ℕ
  beats_after s =
      if s.cmd == hw2_memory && writes s then 8 else if s.cmd == hw2_mmio && writes s then 1 else 0

  unfoldable pub ask_memory : MemorySystem D → System D → Option (System D)
  ask_memory dram s =
      if has_tag s.xfer_addr s.addr_to_tag
      then some s
      else let added = dram.add_transaction s.dramsim (writes s) s.xfer_addr in
        assert added.0 (
          some (
            if writes s then record s { dramsim = added.1 } else record s {
              dramsim = added.1;
              addr_to_tag = (s.xfer_addr, s.top.bus_reqtag) ∷ s.addr_to_tag;
            }))

  unfoldable pub take_request : MemorySystem D → System D → Option (System D)
  unfolding beats_after
  take_request dram s =
      if s.cmd == hw2_memory
      then assert (s.top.bus_req % 8 == 0)
          (ask_memory dram (record s { rx_count = beats_after s; xfer_addr = s.top.bus_req }))
      else none

  unfoldable pub serve : MemorySystem D → System D → Option (System D)
  unfolding take_beat take_request
  serve dram s =
      if s.top.bus_reqcyc
      then with_cmd (record s { cmd = s.top.bus_reqtag / 256 % 16 })
      else some (record s { rx_count = 0; top = record s.top { bus_reqack = false } })
    where
      with_cmd : System D → Option (System D)
      with_cmd s' = if s.rx_count == 0 then take_request dram s' else take_beat s.rx_count s'

  unfoldable pub answer : MemorySystem D → System D → Option (System D)
  answer dram s =
      if s.top.bus_reqcyc
      then assert (s.rx_count == 0 || ack)
          (some (record s { top = record s.top { bus_reqack = ack } }))
      else some s
    where
      ack : Bool
      ack = dram.will_accept_transaction s.dramsim

  unfoldable pub ram_tick : MemorySystem D → System D → Bool → Option (System D)
  unfolding reads_complete pop_response send_response serve answer
  ram_tick dram s clk =
      if s.top.reset && s.top.bus_reqcyc
      then some s
      else if clk
      then then_run
          (reads_complete (record s { dramsim = (dram.update s.dramsim).1 })
            (dram.update s.dramsim).0)
          (λ s'. serve dram (send_response (pop_response s')))
      else answer dram s
