-- ===== src/Driver/Front.antt =====
-- What a rising edge of `System::tick` of proj/system.cpp does before it looks at the circuit's request:
-- the keyboard, the ended reads, and the response.
use sparcy.Base.{ℕ, ◌≡◌, arith, Bool, Option, ◌∙◌, sym, ap}
use sparcy.Driver.{MemorySystem, System}
use sparcy.Driver.Bus.{
  poll_keyboard, pop_taken, drive_response, rising_edge, serve_request, then_run, is_outstanding,
}
use sparcy.Driver.Outstanding.{
  IsMemorySystem, Serves, SameTransfer, SameTransfer-trans, complete_reads-SameTransfer,
  Drains-same,
}

-- A step that touches neither a transfer nor the reads.
record Aside {D : Type 0} (s s' : System D) : Type 0 where
  same_transfer : SameTransfer s s'
  same_tags : s'.addr_to_tag ≡ s.addr_to_tag
  same_dramsim : s'.dramsim ≡ s.dramsim

module _ {D : Type 0} where
  poll_keyboard-Aside :
      (time : ℕ) (ch : Option ℕ) (s : System D) → Aside s (poll_keyboard time ch s)
  unfolding poll_keyboard
  poll_keyboard-Aside time ch s = ground arith

  pop_taken-Aside : (s : System D) → Aside s (pop_taken s)
  unfolding pop_taken
  pop_taken-Aside s = ground arith

  drive_response-Aside : (s : System D) → Aside s (drive_response s)
  unfolding drive_response
  drive_response-Aside s = ground arith

  dramsim-SameTransfer : (s : System D) (d : D) → SameTransfer s (record s { dramsim = d })
  dramsim-SameTransfer s d = ground arith

  Aside-trans : {s s' s'' : System D} → Aside s s' → Aside s' s'' → Aside s s''
  Aside-trans a b = record {
    same_transfer = SameTransfer-trans a.same_transfer b.same_transfer;
    same_tags = b.same_tags ∙ a.same_tags;
    same_dramsim = b.same_dramsim ∙ a.same_dramsim;
  }

  Aside-Serves :
      (pending : D → ℕ → Bool) (s s' : System D) → Aside s s' → Serves pending s → Serves pending s'
  Aside-Serves pending s s' a v = record {
    map_of_tags = rw a.same_tags v.map_of_tags;
    same_reads = λ q. rw (a.same_tags, a.same_dramsim) (v.same_reads q);
    at_most_eight = omega (arith, v.at_most_eight, a.same_transfer.same_rx_count);
  }

module _ {D : Type 0} (dram : MemorySystem D) (pending : D → ℕ → Bool) where
  -- What a rising edge does before it looks at the circuit's request leaves the transfer alone.
  pub rising_front :
      (time : ℕ) (ch : Option ℕ) (s : System D)
      → IsMemorySystem dram pending
      → Serves pending s
      → (s' : System D) × (rising_edge dram time ch s ≡ serve_request dram s')
        × SameTransfer s s'
        × Serves pending s'
        × (s'.dramsim ≡ (dram.update s.dramsim).1)
  unfolding rising_edge
  rising_front time ch s law v =
      let updated = dram.update s.dramsim in
      let s1 : System D = record (poll_keyboard time ch s) { dramsim = updated.1 } in
      let polled = poll_keyboard-Aside time ch s in
      let same_before : SameTransfer s s1 =
        SameTransfer-trans polled.same_transfer
          (dramsim-SameTransfer (poll_keyboard time ch s) updated.1) in
      let (s2, ran, same, kept, map', reads) =
        complete_reads-SameTransfer s1 updated.0 (pending updated.1)
          (rw polled.same_tags v.map_of_tags)
          (Drains-same (pending s.dramsim) (λ a. is_outstanding a s1.addr_to_tag)
            (pending updated.1) updated.0 (λ a. rw polled.same_tags (v.same_reads a))
            (law.drains s.dramsim)) in
      let s3 = drive_response (pop_taken s2) in
      let last : Aside s2 s3 =
        Aside-trans (pop_taken-Aside s2) (drive_response-Aside (pop_taken s2)) in
      (
        s3,
        ap (λ o. then_run o (λ s'. serve_request dram (drive_response (pop_taken s')))) ran,
        SameTransfer-trans same_before (SameTransfer-trans same last.same_transfer),
        Aside-Serves pending s2 s3 last (record {
          map_of_tags = map';
          same_reads = λ a. rw kept (sym (reads a));
          at_most_eight =
              omega (arith, same_before.same_rx_count, same.same_rx_count, v.at_most_eight);
        }),
        last.same_dramsim ∙ kept,
      )
