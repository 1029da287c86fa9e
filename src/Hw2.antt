-- ===== src/Hw2.antt =====
-- The driver of the second homework, hw2/system.h, hw2/system.cpp and hw2/main.cpp: a processor that makes
-- random requests of a cache, and an earlier bus without devices. The cache's circuit, the DRAM simulator
-- and `rand` are parameters.
pub mod Bus
pub mod Requests
pub mod Ends
pub mod Returns
pub mod Run
pub mod Same
pub mod Tick
use sparcy.Base.{
  ℕ, suc, ◌+◌, ◌*◌, ◌/◌, ◌%◌, ◌&&◌, not, Bool, false, true, ◌==◌, if◌then◌else◌, List,
}
use sparcy.Memory.{Memory}

abbrev pub kilo : ℕ
kilo = 1024

-- The ports of the cache: those of the bus, and those of the processor.
pub record Top : Type 0 where
  pub reset : Bool
  pub clk : Bool
  pub bus_reqcyc : Bool
  pub bus_req : ℕ
  pub bus_reqtag : ℕ
  pub bus_reqack : Bool
  pub bus_respcyc : Bool
  pub bus_resp : ℕ
  pub bus_resptag : ℕ
  pub bus_respack : Bool
  pub c_ack : Bool
  pub c_req : Bool
  pub c_read_write_n : ℕ
  pub c_line_addr : ℕ
  pub c_data_in : ℕ
  pub c_word_select : ℕ

-- The class `System`.
pub record System (D : Type 0) : Type 0 where
  pub top : Top
  pub memory : Memory
  pub ram : ℕ
  pub ramsize : ℕ
  pub cmd : ℕ
  pub rx_count : ℕ
  pub xfer_addr : ℕ
  pub addr_to_tag : List (ℕ × ℕ)
  pub tx_queue : List (ℕ × ℕ)
  pub dramsim : D

-- `rand() % 5 == 0` and what follows it: `calls` calls of `rand` have been made before, and their number
-- is returned with the ports.
unfoldable pub new_request : (ℕ → ℕ) → ℕ → ℕ → Top → Top × ℕ
new_request rand ramsize calls top = if rand calls % 5 == 0 then (top, calls + 1) else (
  record top {
    c_req = true;
    c_read_write_n = rand (calls + 1) % 2;
    c_line_addr = rand (calls + 2) % ramsize / 64;
    c_word_select = rand (calls + 3) % 16;
    c_data_in = if rand (calls + 1) % 2 == 0 then rand (calls + 4) else top.c_data_in;
  },
  if rand (calls + 1) % 2 == 0 then calls + 5 else calls + 4,
)

-- `System::procTick`, on the ports.
unfoldable pub proc_tick : (ℕ → ℕ) → ℕ → ℕ → Top → Top × ℕ
unfolding new_request
proc_tick rand ramsize calls top =
    if top.reset
    then (top, calls)
    else if top.c_req && not top.c_ack
    then (top, calls)
    else if top.clk
    then (top, calls)
    else new_request rand ramsize calls (if top.c_ack then record top { c_req = false } else top)
