-- ===== src/Driver/LineWrite.antt =====
-- The request that begins a write of a line over the bus of proj/system.cpp.
use sparcy.Base.{ℕ, ◌/◌, ◌%◌, ◌≡◌, refl, arith, Bool, true, Option, none, some, ◌==◌, inl, ◌∙◌}
use sparcy.Memory.{Memory}
use sparcy.Driver.{MemorySystem, System, tag_memory, tag_write}
use sparcy.Driver.Bus.{
  tick, serve_request, request_memory, is_outstanding, accept_request, beats_of, is_write,
}
use sparcy.Driver.Outstanding.{Serves-same, IsMemorySystem, Serves}
use sparcy.Driver.Front.{rising_front}
use sparcy.Driver.Protocol.{Runs, Runs-if, KeepsProtocol, serve_request-Serves, front-KeepsProtocol}
use sparcy.Driver.Burst.{Beat, drive_beat}

Runs-both :
    {A : Type 0} (P Q : A → Type 0) (o : Option A)
    → Runs P o
    → Runs Q o
    → (a : A) × (o ≡ some a) × P a × Q a
Runs-both P Q none h k = absurd h
Runs-both P Q (some a) h k = (a, refl, h, k)

-- A state that expects the eight words of a line at `addr`.
pub record Expects {D : Type 0} (m : Memory) (ram addr : ℕ) (s' : System D) : Type 0 where
  pub same_memory : s'.memory ≡ m
  pub same_ram : s'.ram ≡ ram
  pub eight : s'.rx_count ≡ 8
  pub at_addr : s'.xfer_addr ≡ addr

module _ {D : Type 0} (dram : MemorySystem D) (pending : D → ℕ → Bool) where
  request_memory-Expects :
      (s : System D) (addr : ℕ)
      → dram.will_accept_transaction s.dramsim ≡ true
      → IsMemorySystem dram pending
      → is_write s ≡ true
      → s.rx_count ≡ 8
      → s.xfer_addr ≡ addr
      → Runs (Expects s.memory s.ram addr) (request_memory dram s)
  unfolding request_memory
  request_memory-Expects s addr accepted law writes eight at =
      let P : System D → Type 0 = Expects s.memory s.ram addr in
      Runs-if P (is_outstanding s.xfer_addr s.addr_to_tag) _ _
        (λ _. record { same_memory = refl; same_ram = refl; eight = eight; at_addr = at })
        (λ _.
          rw (law.accepts s.dramsim (is_write s) s.xfer_addr accepted, writes)
            (record { same_memory = refl; same_ram = refl; eight = eight; at_addr = at }))

  serve_request-Expects :
      (s : System D)
      → IsMemorySystem dram pending
      → dram.will_accept_transaction s.dramsim ≡ true
      → s.top.bus_reqcyc ≡ true
      → s.rx_count ≡ 0
      → s.top.bus_reqtag / 256 % 16 ≡ tag_memory
      → s.top.bus_reqtag / 4096 % 2 ≡ tag_write
      → s.top.bus_req % 8 ≡ 0
      → Runs (Expects s.memory s.ram s.top.bus_req) (serve_request dram s)
  unfolding serve_request accept_request
  serve_request-Expects s law accepted asked idle is_memory writes aligned =
      let s0 : System D = record s { cmd = s.top.bus_reqtag / 256 % 16 } in
      let s' : System D = record s0 { rx_count = beats_of s0; xfer_addr = s.top.bus_req } in
      let writes' : is_write s' ≡ true = unfold is_write in ground arith in
      let eight : beats_of s0 ≡ 8 = unfold beats_of is_write in ground arith in
      let P : System D → Type 0 = Expects s.memory s.ram s.top.bus_req in
      Runs-if P s.top.bus_reqcyc _ _
        (λ _.
          Runs-if P (s.rx_count == 0) _ _
            (λ _.
              Runs-if P (s.top.bus_reqtag / 256 % 16 == tag_memory) _ _
                (λ _.
                  Runs-if P (s.top.bus_req % 8 == 0) _ _
                    (λ _. request_memory-Expects s' s.top.bus_req accepted law writes' eight refl)
                    (λ e. ground arith))
                (λ e. ground arith))
            (λ e. ground arith))
        (λ e. ground arith)

  pub request_write :
      (tag : ℕ) (b : Beat) (s : System D)
      → IsMemorySystem dram pending
      → Serves pending s
      → dram.will_accept_transaction s.dramsim ≡ true
      → s.rx_count ≡ 0
      → tag / 256 % 16 ≡ tag_memory
      → tag / 4096 % 2 ≡ tag_write
      → b.word % 8 ≡ 0
      → (s' : System D) × (tick dram b.time b.key (drive_beat tag b s) true ≡ some s')
        × Serves pending s'
        × Expects s.memory s.ram b.word s'
  unfolding tick drive_beat
  request_write tag b s law v accepted idle is_memory writes aligned =
      let driven = drive_beat tag b s in
      let v0 : Serves pending driven = (Serves-same v refl refl refl) in
      let k0 : KeepsProtocol dram driven = record {
        accepted = λ _. accepted;
        aligned = λ _ _. aligned;
        known = λ _ _. inl is_memory;
        inside = λ _ more _. absurd (omega arith);
      } in
      let (s1, ran, same, v1, updated) = rising_front dram pending b.time b.key driven law v0 in
      let k1 = front-KeepsProtocol dram pending driven s1 law same updated k0 in
      let (s2, ran', v2, expects) =
        Runs-both (Serves pending) (Expects s1.memory s1.ram s1.top.bus_req) (serve_request dram s1)
          (serve_request-Serves dram pending s1 law k1 v1)
          (serve_request-Expects s1 law (k1.accepted same.same_reqcyc) same.same_reqcyc
            (same.same_rx_count ∙ idle) (rw same.same_reqtag is_memory) (rw same.same_reqtag writes)
            (rw same.same_req aligned)) in
      (
        s2,
        ran ∙ ran',
        v2,
        record {
          same_memory = expects.same_memory ∙ same.same_memory;
          same_ram = expects.same_ram ∙ same.same_ram;
          eight = expects.eight;
          at_addr = expects.at_addr ∙ same.same_req;
        },
      )
