-- ===== src/Driver/Bus.antt =====
-- `System::tick` of proj/system.cpp, which serves the bus on each edge of the clock, and the callback
-- by which the DRAM simulator ends a read. A failed assertion is `none`.
use sparcy.Base.{
  ℕ, zero, suc, ◌+◌, ◌-◌, ◌*◌, ◌/◌, ◌%◌, Bool, true, false, ◌&&◌, ◌||◌, Option, none, some, List,
  [], ◌∷◌, ◌++◌, ◌==◌, ltb, if◌then◌else◌, u8, bit_and, bit_or,
}
use sparcy.Memory.{Memory, ldq_he_p, stq_he_p}
use sparcy.Driver.{
  MemorySystem, System, cse502_be64toh, tag_write, tag_memory, tag_mmio, tag_irq, irq_kbd,
  irq_kbd_flag, ps_per_clock,
}

-- `assert(b)` before the rest
abbrev pub assert {ℓ} : {A : Type ℓ} → Bool → Option A → Option A
assert b rest = if b then rest else none

module _ {A B : Type 0} where
  abbrev pub then_run : Option A → (A → Option B) → Option B
  then_run (some a) f = f a
  then_run none f = none

-- `addr_to_tag.find`
unfoldable pub find_tag : ℕ → List (ℕ × ℕ) → Option ℕ
find_tag address [] = none
find_tag address ((a, tag) ∷ tags) = if a == address then some tag else find_tag address tags

unfoldable pub is_outstanding : ℕ → List (ℕ × ℕ) → Bool
is_outstanding address tags = elim (find_tag address tags) [ some _ ↦ true | none ↦ false ]

-- `addr_to_tag.erase`
unfoldable pub erase_tag : ℕ → List (ℕ × ℕ) → List (ℕ × ℕ)
erase_tag address [] = []
erase_tag address ((a, tag) ∷ tags) =
    if a == address then tags else (a, tag) ∷ erase_tag address tags

-- `(addr & ~63) + ((addr + offset) & 63)`: the words of a line, from that of `addr` on, round to it.
unfoldable pub word_in_line : ℕ → ℕ → ℕ
word_in_line addr offset = addr / 64 * 64 + (addr + offset) % 64

-- The eight rounds of the loop, from `offset` on.
unfoldable pub fill_words : Memory → ℕ → ℕ → ℕ → ℕ → ℕ → List (ℕ × ℕ)
unfolding cse502_be64toh
fill_words m ram address tag offset zero = []
fill_words m ram address tag offset (suc rounds) =
    (cse502_be64toh (ldq_he_p m (ram + word_in_line address offset)), tag)
    ∷ fill_words m ram address tag (offset + 8) rounds

module _ {D : Type 0} where
  unfoldable pub dram_read_complete : System D → ℕ → Option (System D)
  dram_read_complete s address = elim (find_tag address s.addr_to_tag) [
    | none ↦ none
    | some tag ↦ some (record s {
      tx_queue = s.tx_queue ++ fill_words s.memory s.ram address tag 0 8;
      addr_to_tag = erase_tag address s.addr_to_tag;
    })
  ]

  unfoldable pub complete_reads : System D → List ℕ → Option (System D)
  unfolding dram_read_complete
  complete_reads s [] = some s
  complete_reads s (address ∷ rest) =
      then_run (dram_read_complete s address) (λ s'. complete_reads s' rest)

  -- The keyboard, looked at every thousand clocks: `ch` is what `getch` gives, or none at ERR.
  unfoldable pub poll_keyboard : ℕ → Option ℕ → System D → System D
  poll_keyboard main_time none s = s
  poll_keyboard main_time (some ch) s =
      if main_time % (ps_per_clock * 1000) == 0
      then if bit_and s.interrupts irq_kbd_flag == 0
        then record s {
          interrupts = bit_or s.interrupts irq_kbd_flag;
          tx_queue = s.tx_queue ++ ((irq_kbd, tag_irq) ∷ []);
          keys = s.keys ++ (u8 ch ∷ []);
        }
        else s
      else s

  -- `tx_queue.pop_front()`, where the circuit has taken the response
  unfoldable pub pop_taken : System D → System D
  pop_taken s = elim s.tx_queue [
    | [] ↦ s
    | _ ∷ rest ↦ if s.top.bus_respack then record s { tx_queue = rest } else s
  ]

  unfoldable pub drive_response : System D → System D
  drive_response s = elim s.tx_queue [
    | [] ↦ record s {
      top = record s.top {
        bus_respcyc = false;
        bus_resp = 12297829382473034410;
        bus_resptag = 43690;
      };
    }
    | response ∷ _ ↦ record s {
      top = record s.top { bus_respcyc = true; bus_resp = response.0; bus_resptag = response.1 };
    }
  ]

  -- A beat of a write in progress. What the console draws is left out.
  unfoldable pub receive_beat : ℕ → System D → Option (System D)
  receive_beat rx s =
      let taken : System D = record s { rx_count = rx - 1 } in
      if s.cmd == tag_memory
      then some (record taken {
        memory =
            stq_he_p s.memory (s.ram + word_in_line s.xfer_addr ((8 - rx) * 8))
              (cse502_be64toh s.top.bus_req);
      })
      else if s.cmd == tag_mmio
      then assert (ltb s.xfer_addr s.ramsize)
          (some (record taken { memory = stq_he_p s.memory (s.ram + s.xfer_addr) s.top.bus_req }))
      else some taken

  unfoldable pub is_write : System D → Bool
  is_write s = s.top.bus_reqtag / 4096 % 2 == tag_write

  -- The beats that follow a request.
  unfoldable pub beats_of : System D → ℕ
  beats_of s =
      if s.cmd == tag_memory && is_write s
      then 8
      else if s.cmd == tag_mmio && is_write s
      then 1
      else 0

  unfoldable pub request_memory : MemorySystem D → System D → Option (System D)
  request_memory dram s =
      if is_outstanding s.xfer_addr s.addr_to_tag
      then some s
      else let added = dram.add_transaction s.dramsim (is_write s) s.xfer_addr in
        assert added.0 (
          some (
            if is_write s then record s { dramsim = added.1 } else record s {
              dramsim = added.1;
              addr_to_tag = (s.xfer_addr, s.top.bus_reqtag) ∷ s.addr_to_tag;
            }))

  unfoldable pub request_mmio : System D → System D
  request_mmio s = if is_write s then s else record s {
    tx_queue = s.tx_queue ++ ((ldq_he_p s.memory (s.ram + s.xfer_addr), s.top.bus_reqtag) ∷ []);
  }

  unfoldable pub accept_request : MemorySystem D → System D → Option (System D)
  unfolding beats_of
  accept_request dram s =
      let s' : System D = record s { rx_count = beats_of s; xfer_addr = s.top.bus_req } in
      if s.cmd == tag_memory
      then assert (s.top.bus_req % 8 == 0) (request_memory dram s')
      else if s.cmd == tag_mmio
      then assert (s.top.bus_req % 8 == 0) (some (request_mmio s'))
      else none

  unfoldable pub serve_request : MemorySystem D → System D → Option (System D)
  unfolding receive_beat accept_request
  serve_request dram s =
      if s.top.bus_reqcyc
      then with_cmd (record s { cmd = s.top.bus_reqtag / 256 % 16 })
      else some (record s { rx_count = 0; top = record s.top { bus_reqack = false } })
    where
      with_cmd : System D → Option (System D)
      with_cmd s' = if s.rx_count == 0 then accept_request dram s' else receive_beat s.rx_count s'

  -- The falling edge: the answer whether a request can be taken.
  unfoldable pub acknowledge : MemorySystem D → System D → Option (System D)
  acknowledge dram s =
      if s.top.bus_reqcyc
      then assert (s.rx_count == 0 || ack)
          (some (record s { top = record s.top { bus_reqack = ack } }))
      else some s
    where
      ack : Bool
      ack = dram.will_accept_transaction s.dramsim

  -- The rising edge.
  unfoldable pub rising_edge : MemorySystem D → ℕ → Option ℕ → System D → Option (System D)
  unfolding complete_reads poll_keyboard pop_taken drive_response serve_request
  rising_edge dram main_time ch s =
      let updated = dram.update s.dramsim in
      then_run
        (complete_reads (record (poll_keyboard main_time ch s) { dramsim = updated.1 }) updated.0)
        (λ s'. serve_request dram (drive_response (pop_taken s')))

  unfoldable pub tick : MemorySystem D → ℕ → Option ℕ → System D → Bool → Option (System D)
  unfolding acknowledge rising_edge
  tick dram main_time ch s clk =
      if s.top.reset && s.top.bus_reqcyc
      then some s
      else if clk
      then rising_edge dram main_time ch s
      else acknowledge dram s
