-- ===== src/Hw2/Requests.antt =====
-- The requests that `System::procTick` of hw2/system.cpp makes.
use sparcy.Base.{
  ℕ, if◌then◌else◌, Bool-cases, if_taken, if_skipped, ◌+◌, ◌*◌, ◌≤◌, ◌<◌, ◌≡◌, ◌⊎◌, inl, inr, refl,
  true, false, not, ◌&&◌, arith,
}
use sparcy.Hw2.{Top, proc_tick, new_request}

-- The last request is for a word of a line that begins in the memory.
pub record InMemory (ramsize : ℕ) (top : Top) : Type 0 where
  pub line : top.c_line_addr * 64 < ramsize
  pub word : top.c_word_select < 16
  pub kind : top.c_read_write_n < 2

-- The ports that the processor does not drive.
pub record SamePorts (top top' : Top) : Type 0 where
  pub same_reset : top'.reset ≡ top.reset
  pub same_clk : top'.clk ≡ top.clk
  pub same_bus_reqcyc : top'.bus_reqcyc ≡ top.bus_reqcyc
  pub same_bus_req : top'.bus_req ≡ top.bus_req
  pub same_bus_reqtag : top'.bus_reqtag ≡ top.bus_reqtag
  pub same_bus_reqack : top'.bus_reqack ≡ top.bus_reqack
  pub same_bus_respcyc : top'.bus_respcyc ≡ top.bus_respcyc
  pub same_bus_resp : top'.bus_resp ≡ top.bus_resp
  pub same_bus_resptag : top'.bus_resptag ≡ top.bus_resptag
  pub same_bus_respack : top'.bus_respack ≡ top.bus_respack
  pub same_c_ack : top'.c_ack ≡ top.c_ack

-- What a tick does: nothing; or, where the circuit is out of reset, the clock is low and no request waits
-- for its answer, it withdraws the request that was answered, or makes the next one.
abbrev pub Moves : Top → ℕ → Top × ℕ → Type 0
Moves top calls (top', calls') =
    ((top' ≡ top) × (calls' ≡ calls))
    ⊎ ((top.reset ≡ false)
        × (top.clk ≡ false)
        × ((top.c_req && not top.c_ack) ≡ false)
        × (((top' ≡ record top { c_req = false }) × (calls' ≡ calls + 1))
            ⊎ ((top'.c_req ≡ true) × (calls + 4 ≤ calls') × (calls' ≤ calls + 5))))

-- What a tick keeps.
pub record Keeps (ramsize calls : ℕ) (top : Top) (r : Top × ℕ) : Type 0 where
  pub in_memory : InMemory ramsize r.0
  pub same_ports : SamePorts top r.0
  pub moves : Moves top calls r

new_request-Keeps :
    (rand : ℕ → ℕ) (ramsize calls : ℕ) (top : Top)
    → 0 < ramsize
    → InMemory ramsize top
    → InMemory ramsize (new_request rand ramsize calls top).0
      × SamePorts top (new_request rand ramsize calls top).0
unfolding new_request
new_request-Keeps rand ramsize calls top pos h = (ground arith, ground arith)

unchanged :
    (ramsize calls : ℕ) (top : Top) → InMemory ramsize top → Keeps ramsize calls top (top, calls)
unchanged ramsize calls top h = record {
  in_memory = h;
  same_ports = ground arith;
  moves = inl (refl, refl);
}

-- The request that was answered is withdrawn; where none was made, there is nothing to withdraw.
withdrawn :
    (top : Top)
    → (top.c_req && not top.c_ack) ≡ false
    → (if top.c_ack then record top { c_req = false } else top) ≡ record top { c_req = false }
withdrawn top idle = ground arith

new_request-Moves :
    (rand : ℕ → ℕ) (ramsize calls : ℕ) (top : Top)
    → let (top', calls') = new_request rand ramsize calls top in
      ((top' ≡ top) × (calls' ≡ calls + 1))
      ⊎ ((top'.c_req ≡ true) × (calls + 4 ≤ calls') × (calls' ≤ calls + 5))
unfolding new_request
new_request-Moves rand ramsize calls top = ground arith

asks-Keeps :
    (rand : ℕ → ℕ) (ramsize calls : ℕ) (top : Top)
    → 0 < ramsize
    → InMemory ramsize top
    → top.reset ≡ false
    → top.clk ≡ false
    → (top.c_req && not top.c_ack) ≡ false
    → Keeps ramsize calls top (new_request rand ramsize calls (record top { c_req = false }))
asks-Keeps rand ramsize calls top pos h on low idle =
    let free : Top = record top { c_req = false } in
    let kept = new_request-Keeps rand ramsize calls free pos (ground arith) in
    record {
      in_memory = kept.0;
      same_ports = record {
        same_reset = kept.1.same_reset;
        same_clk = kept.1.same_clk;
        same_bus_reqcyc = kept.1.same_bus_reqcyc;
        same_bus_req = kept.1.same_bus_req;
        same_bus_reqtag = kept.1.same_bus_reqtag;
        same_bus_reqack = kept.1.same_bus_reqack;
        same_bus_respcyc = kept.1.same_bus_respcyc;
        same_bus_resp = kept.1.same_bus_resp;
        same_bus_resptag = kept.1.same_bus_resptag;
        same_bus_respack = kept.1.same_bus_respack;
        same_c_ack = kept.1.same_c_ack;
      };
      moves = inr (on, low, idle, new_request-Moves rand ramsize calls free);
    }

-- Every tick of the processor keeps the last request inside the memory, which is not empty, and drives no
-- port but the processor's. It changes nothing; or, where the circuit is out of reset, the clock is low and
-- no request waits for its answer, it withdraws the last request, after one call of `rand`, or makes
-- another, after four or five.
pub proc_tick-Keeps :
    (rand : ℕ → ℕ) (ramsize calls : ℕ) (top : Top)
    → 0 < ramsize
    → InMemory ramsize top
    → Keeps ramsize calls top (proc_tick rand ramsize calls top)
unfolding proc_tick
proc_tick-Keeps rand ramsize calls top pos h = elim (Bool-cases top.reset) [
  | inl reset ↦ rw (if_taken top.reset _ _ reset) (unchanged ramsize calls top h)
  | inr on ↦ rw (if_skipped top.reset _ _ on) (elim (Bool-cases (top.c_req && not top.c_ack)) [
    | inl waits ↦
        rw (if_taken (top.c_req && not top.c_ack) _ _ waits) (unchanged ramsize calls top h)
    | inr idle ↦ rw (if_skipped (top.c_req && not top.c_ack) _ _ idle) (elim (Bool-cases top.clk) [
      | inl high ↦ rw (if_taken top.clk _ _ high) (unchanged ramsize calls top h)
      | inr low ↦
          rw (if_skipped top.clk _ _ low)
            (rw (withdrawn top idle) (asks-Keeps rand ramsize calls top pos h on low idle))
    ])
  ])
]
