-- ===== src/Driver.antt =====
-- The simulation driver, proj/system.h, proj/system.cpp and proj/main.cpp: it loads the program, starts
-- the emulation of the system calls, and serves the bus of the processor. The circuit that Verilator
-- generates, the DRAM simulator, libelf and the terminal are parameters.
pub mod Bus
pub mod Line
pub mod Outstanding
pub mod Arguments
pub mod Boot
pub mod Bss
pub mod Burst
pub mod Elf
pub mod Ends
pub mod Front
pub mod LineWrite
pub mod Main
pub mod Start
pub mod Lines
pub mod Program
pub mod Protocol
pub mod Reach
pub mod Segments
pub mod Whole
pub mod Returns
use sparcy.Base.{ℕ, ◌*◌, Bool, Option, List}
use sparcy.Memory.{Memory, bswap64}

-- Bus request tag fields
abbrev pub tag_write : ℕ
tag_write = 0

abbrev pub tag_memory : ℕ
tag_memory = 1

abbrev pub tag_mmio : ℕ
tag_mmio = 3

abbrev pub tag_irq : ℕ
tag_irq = 14

-- `IRQ_KBD`, and its bit in `interrupts`
abbrev pub irq_kbd : ℕ
irq_kbd = 1

abbrev pub irq_kbd_flag : ℕ
irq_kbd_flag = 2

abbrev pub ps_per_clock : ℕ
ps_per_clock = 500

abbrev pub mega : ℕ
mega = 1024 * 1024

abbrev pub giga : ℕ
giga = 1024 * 1024 * 1024

-- Two swapped halves, the low one first.
unfoldable pub cse502_be64toh : ℕ → ℕ
unfolding bswap64
cse502_be64toh = bswap64

-- The ports of the circuit that the driver reads or sets. One line carries a bit.
pub record Vtop : Type 0 where
  pub reset : Bool
  pub clk : Bool
  pub entry : ℕ
  pub bus_reqcyc : Bool
  pub bus_req : ℕ
  pub bus_reqtag : ℕ
  pub bus_reqack : Bool
  pub bus_respcyc : Bool
  pub bus_resp : ℕ
  pub bus_resptag : ℕ
  pub bus_respack : Bool

-- The DRAM simulator, with states `D`: a transaction is a write or not, and an address; `update`
-- completes reads, for each of which it calls `dram_read_complete`, in this order.
pub record MemorySystem (D : Type 0) : Type 0 where
  pub will_accept_transaction : D → Bool
  pub add_transaction : D → Bool → ℕ → Bool × D
  pub update : D → List ℕ × D

-- The class `System`; `ram` is the host address of the memory, and a key of the map `addr_to_tag`
-- stands in the list at most once.
pub record System (D : Type 0) : Type 0 where
  pub top : Vtop
  pub memory : Memory
  pub ram : ℕ
  pub ramsize : ℕ
  pub max_elf_addr : ℕ
  pub interrupts : ℕ
  pub keys : List ℕ
  pub cmd : ℕ
  pub rx_count : ℕ
  pub xfer_addr : ℕ
  pub addr_to_tag : List (ℕ × ℕ)
  pub tx_queue : List (ℕ × ℕ)
  pub dramsim : D
