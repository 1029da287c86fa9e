-- ===== src/Driver/Protocol.antt =====
-- `System::tick` of proj/system.cpp where the circuit keeps the protocol of the bus.
use sparcy.Base.{
  ℕ, ◌/◌, ◌%◌, ◌≤◌, ◌<◌, ◌≡◌, refl, arith, Bool, true, ◌&&◌, ◌||◌, false, Option, none, some, ◌==◌,
  if◌then◌else◌, ◌⊎◌, inl, inr, ◌∙◌, sym, ap, Bool-cases,
}
use sparcy.Driver.{MemorySystem, System, tag_memory, tag_mmio}
use sparcy.Driver.Bus.{
  rising_edge, serve_request, tick, acknowledge, is_outstanding, accept_request, receive_beat,
  request_memory, request_mmio, is_write, beats_of,
}
use sparcy.Driver.Front.{rising_front}
use sparcy.Driver.Outstanding.{
  Serves-same, IsMemorySystem, Serves, SameTransfer, is_outstanding_cons,
}

-- What the circuit owes the driver at an edge: it asks only where the simulator takes transactions, for
-- an aligned address, in memory or among the devices, and it writes to a device inside the memory.
pub record KeepsProtocol {D : Type 0} (dram : MemorySystem D) (s : System D) : Type 0 where
  pub accepted : s.top.bus_reqcyc ≡ true → dram.will_accept_transaction s.dramsim ≡ true
  pub aligned : s.top.bus_reqcyc ≡ true → s.rx_count ≡ 0 → s.top.bus_req % 8 ≡ 0
  pub known :
      s.top.bus_reqcyc ≡ true
      → s.rx_count ≡ 0
      → (s.top.bus_reqtag / 256 % 16 ≡ tag_memory) ⊎ (s.top.bus_reqtag / 256 % 16 ≡ tag_mmio)
  pub inside :
      s.top.bus_reqcyc ≡ true
      → 0 < s.rx_count
      → s.top.bus_reqtag / 256 % 16 ≡ tag_mmio
      → s.xfer_addr < s.ramsize

-- No assertion failed, and `P` holds of what is left.
abbrev pub Runs : {A : Type 0} → (A → Type 0) → Option A → Type 0
Runs P none = ⊥
Runs P (some a) = P a

pub Runs-if :
    {A : Type 0} (P : A → Type 0) (b : Bool) (x y : Option A)
    → (b ≡ true → Runs P x)
    → (b ≡ false → Runs P y)
    → Runs P (if b then x else y)
Runs-if P true x y h k = h refl
Runs-if P false x y h k = k refl

module _ {D : Type 0} (dram : MemorySystem D) (pending : D → ℕ → Bool) where
  receive_beat-Serves :
      (rx : ℕ) (s : System D)
      → rx ≤ 8
      → (s.cmd ≡ tag_mmio → s.xfer_addr < s.ramsize)
      → Serves pending s
      → Runs (Serves pending) (receive_beat rx s)
  unfolding receive_beat
  receive_beat-Serves rx s bound inside v = ground arith

  request_memory-Serves :
      (s : System D)
      → IsMemorySystem dram pending
      → dram.will_accept_transaction s.dramsim ≡ true
      → Serves pending s
      → Runs (Serves pending) (request_memory dram s)
  unfolding request_memory
  request_memory-Serves s law accepted v =
      elim (Bool-cases (is_outstanding s.xfer_addr s.addr_to_tag)) [
        | inl e ↦ rw e v
        | inr e ↦
            rw (e, law.accepts s.dramsim (is_write s) s.xfer_addr accepted)
              (elim (Bool-cases (is_write s)) [
                | inl w ↦ rw w (record {
                  map_of_tags = v.map_of_tags;
                  same_reads = λ a. v.same_reads a ∙ sym (law.adds_write s.dramsim s.xfer_addr a);
                  at_most_eight = v.at_most_eight;
                })
                | inr w ↦ rw w (record {
                  map_of_tags = (e, v.map_of_tags);
                  same_reads = λ a.
                      is_outstanding_cons s.xfer_addr a s.top.bus_reqtag s.addr_to_tag
                      ∙ ap (λ b. if a == s.xfer_addr then true else b) (v.same_reads a)
                      ∙ sym (law.adds_read s.dramsim s.xfer_addr a);
                  at_most_eight = v.at_most_eight;
                })
              ])
      ]

  request_mmio-Serves : (s : System D) → Serves pending s → Serves pending (request_mmio s)
  unfolding request_mmio
  request_mmio-Serves s v = ground arith

  accept_request-Serves :
      (s : System D)
      → IsMemorySystem dram pending
      → dram.will_accept_transaction s.dramsim ≡ true
      → s.top.bus_req % 8 ≡ 0
      → (s.cmd ≡ tag_memory) ⊎ (s.cmd ≡ tag_mmio)
      → Serves pending s
      → Runs (Serves pending) (accept_request dram s)
  unfolding accept_request request_mmio
  accept_request-Serves s law accepted aligned known v =
      let s' : System D = record s { rx_count = beats_of s; xfer_addr = s.top.bus_req } in
      let v' : Serves pending s' = record {
        map_of_tags = v.map_of_tags;
        same_reads = v.same_reads;
        at_most_eight = unfold beats_of in ground arith;
      } in
      let rest = request_memory-Serves s' law accepted v' in
      Runs-if (Serves pending) (s.cmd == tag_memory) _ _
        (λ _. Runs-if (Serves pending) (s.top.bus_req % 8 == 0) _ _ (λ _. rest) (λ e. ground arith))
        (λ e.
          Runs-if (Serves pending) (s.cmd == tag_mmio) _ _
            (λ _.
              Runs-if (Serves pending) (s.top.bus_req % 8 == 0) _ _ (λ _. request_mmio-Serves s' v')
                (λ e'. ground arith))
            (λ e'. ground arith))

  pub serve_request-Serves :
      (s : System D)
      → IsMemorySystem dram pending
      → KeepsProtocol dram s
      → Serves pending s
      → Runs (Serves pending) (serve_request dram s)
  unfolding serve_request
  serve_request-Serves s law k v =
      let s' : System D = record s { cmd = s.top.bus_reqtag / 256 % 16 } in
      let v' : Serves pending s' = (Serves-same v refl refl refl) in
      Runs-if (Serves pending) s.top.bus_reqcyc _ _
        (λ asked.
          Runs-if (Serves pending) (s.rx_count == 0) _ _
            (λ e.
              let new : s.rx_count ≡ 0 = ground arith in
              accept_request-Serves s' law (k.accepted asked) (k.aligned asked new)
                (k.known asked new) v')
            (λ e.
              receive_beat-Serves s.rx_count s' v.at_most_eight (k.inside asked (ground arith)) v'))
        (λ _. record {
          map_of_tags = v.map_of_tags;
          same_reads = v.same_reads;
          at_most_eight = omega arith;
        })

  acknowledge-Serves :
      (s : System D)
      → KeepsProtocol dram s
      → Serves pending s
      → Runs (Serves pending) (acknowledge dram s)
  unfolding acknowledge
  acknowledge-Serves s k v =
      Runs-if (Serves pending) s.top.bus_reqcyc _ _
        (λ asked. rw (k.accepted asked) (
          Runs-if (Serves pending) (s.rx_count == 0 || true) _ _
            (λ _. (Serves-same v refl refl refl)) (λ e. ground arith)))
        (λ _. v)

  pub front-KeepsProtocol :
      (s s' : System D)
      → IsMemorySystem dram pending
      → SameTransfer s s'
      → s'.dramsim ≡ (dram.update s.dramsim).1
      → KeepsProtocol dram s
      → KeepsProtocol dram s'
  front-KeepsProtocol s s' law same updated k = record {
    accepted =
        λ h. rw updated (law.keeps_accepting s.dramsim (k.accepted (sym same.same_reqcyc ∙ h)));
    aligned = λ h h'.
        rw same.same_req (k.aligned (sym same.same_reqcyc ∙ h) (sym same.same_rx_count ∙ h'));
    known = λ h h'.
        rw same.same_reqtag (k.known (sym same.same_reqcyc ∙ h) (sym same.same_rx_count ∙ h'));
    inside = λ h h' h''.
        rw (same.same_xfer_addr, same.same_ramsize)
          (k.inside (sym same.same_reqcyc ∙ h) (omega (arith, same.same_rx_count))
            (rw (← same.same_reqtag) h''));
  }

  rising_edge-Serves :
      (time : ℕ) (ch : Option ℕ) (s : System D)
      → IsMemorySystem dram pending
      → KeepsProtocol dram s
      → Serves pending s
      → Runs (Serves pending) (rising_edge dram time ch s)
  rising_edge-Serves time ch s law k v =
      let (s', ran, same, v', updated) = rising_front dram pending time ch s law v in
      rw ran (serve_request-Serves s' law (front-KeepsProtocol s s' law same updated k) v')

  -- Where the simulator ends each read once and the circuit keeps the protocol of the bus, no assertion
  -- of `tick` fails, on either edge, and the map of tags goes on to hold exactly the reads that have not
  -- ended.
  pub tick-Serves :
      (time : ℕ) (ch : Option ℕ) (s : System D) (clk : Bool)
      → IsMemorySystem dram pending
      → KeepsProtocol dram s
      → Serves pending s
      → Runs (Serves pending) (tick dram time ch s clk)
  unfolding tick
  tick-Serves time ch s clk law k v =
      Runs-if (Serves pending) (s.top.reset && s.top.bus_reqcyc) _ _ (λ _. v)
        (λ _.
          Runs-if (Serves pending) clk _ _ (λ _. rising_edge-Serves time ch s law k v)
            (λ _. acknowledge-Serves s k v))
