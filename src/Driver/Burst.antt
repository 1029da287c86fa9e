-- ===== src/Driver/Burst.antt =====
-- A line goes to memory and comes back by the bus of proj/system.cpp: the beats that follow a request to
-- write, and the end of a read.
use sparcy.Base.{
  ℕ, suc, ◌+◌, ◌-◌, ◌*◌, ◌/◌, ◌%◌, ◌<◌, ◌≡◌, refl, arith, Bool, true, false, Option, some, List, [],
  ◌∷◌, ◌==◌, ◌∙◌, ap, map, length, if_taken, if_skipped,
}
use sparcy.Memory.{stq_be_p}
use sparcy.Driver.{MemorySystem, System, cse502_be64toh, tag_memory}
use sparcy.Driver.Bus.{word_in_line, then_run, tick, serve_request, receive_beat}
use sparcy.Driver.Line.{store_words}
use sparcy.Driver.Outstanding.{Serves-same, IsMemorySystem, Serves}
use sparcy.Driver.Front.{rising_front}

-- What the circuit and the keyboard give at the rising edge of a beat.
pub record Beat : Type 0 where
  pub time : ℕ
  pub key : Option ℕ
  pub word : ℕ
  pub respack : Bool

module _ {D : Type 0} where
  -- The ports at a beat: a word of a write, under the tag of its request.
  unfoldable pub drive_beat : ℕ → Beat → System D → System D
  drive_beat tag b s = record s {
    top = record s.top {
      reset = false;
      bus_reqcyc = true;
      bus_req = b.word;
      bus_reqtag = tag;
      bus_respack = b.respack;
    };
  }

  -- Rising edges at which the circuit sends the words of a line.
  unfoldable pub send_beats : MemorySystem D → ℕ → List Beat → System D → Option (System D)
  unfolding drive_beat tick
  send_beats dram tag [] s = some s
  send_beats dram tag (b ∷ bs) s =
      then_run (tick dram b.time b.key (drive_beat tag b s) true) (send_beats dram tag bs)

module _ {D : Type 0} (dram : MemorySystem D) (pending : D → ℕ → Bool) where
  -- The state after a beat of a write to memory.
  abbrev after_beat : System D → System D
  after_beat s = record s {
    cmd = s.top.bus_reqtag / 256 % 16;
    rx_count = s.rx_count - 1;
    memory =
        stq_be_p s.memory (s.ram + word_in_line s.xfer_addr ((8 - s.rx_count) * 8)) s.top.bus_req;
  }

  serve_request_beat :
      (s : System D)
      → s.top.bus_reqcyc ≡ true
      → 0 < s.rx_count
      → s.top.bus_reqtag / 256 % 16 ≡ tag_memory
      → serve_request dram s ≡ some (after_beat s)
  unfolding serve_request receive_beat cse502_be64toh stq_be_p
  serve_request_beat s asked more is_memory =
      let busy : (s.rx_count == 0) ≡ false = ground arith in
      let to_memory : (s.top.bus_reqtag / 256 % 16 == tag_memory) ≡ true = ground arith in
      if_taken s.top.bus_reqcyc _ _ asked
      ∙ if_skipped (s.rx_count == 0) _ _ busy
      ∙ if_taken (s.top.bus_reqtag / 256 % 16 == tag_memory) _ _ to_memory

  pub one_beat :
      (tag : ℕ) (b : Beat) (s : System D)
      → IsMemorySystem dram pending
      → Serves pending s
      → tag / 256 % 16 ≡ tag_memory
      → 0 < s.rx_count
      → (s' : System D) × (tick dram b.time b.key (drive_beat tag b s) true ≡ some s')
        × Serves pending s'
        × (s'.memory
            ≡ stq_be_p s.memory (s.ram + word_in_line s.xfer_addr ((8 - s.rx_count) * 8)) b.word)
        × (s'.rx_count + 1 ≡ s.rx_count)
        × (s'.xfer_addr ≡ s.xfer_addr)
        × (s'.ram ≡ s.ram)
  unfolding tick drive_beat
  one_beat tag b s law v is_memory more =
      let driven = drive_beat tag b s in
      let v0 : Serves pending driven = (Serves-same v refl refl refl) in
      let (s1, ran, same, v1, updated) = rising_front dram pending b.time b.key driven law v0 in
      let count : s1.rx_count ≡ s.rx_count = same.same_rx_count in
      let served =
        serve_request_beat s1 same.same_reqcyc (omega (arith, count))
          (rw same.same_reqtag is_memory) in
      (
        after_beat s1,
        ran ∙ served,
        record {
          map_of_tags = v1.map_of_tags;
          same_reads = v1.same_reads;
          at_most_eight = omega (arith, v1.at_most_eight);
        },
        rw (same.same_memory, same.same_ram, same.same_xfer_addr, count, same.same_req) refl,
        omega (arith, count),
        same.same_xfer_addr,
        same.same_ram,
      )

  pub send_beats-store_words :
      (tag k : ℕ) (bs : List Beat) (s : System D)
      → IsMemorySystem dram pending
      → Serves pending s
      → tag / 256 % 16 ≡ tag_memory
      → k + length bs ≡ 8
      → s.rx_count ≡ length bs
      → (s' : System D) × (send_beats dram tag bs s ≡ some s')
        × Serves pending s'
        × (s'.memory ≡ store_words s.memory s.ram s.xfer_addr k (map (λ b. b.word) bs))
        × (s'.rx_count ≡ 0)
        × (s'.ram ≡ s.ram)
  unfolding send_beats store_words
  send_beats-store_words tag k [] s law v is_memory whole left = (s, refl, v, refl, left, refl)
  send_beats-store_words tag k (b ∷ bs) s law v is_memory whole left =
      let (s1, ran, v1, stored, count, place, base) =
        one_beat tag b s law v is_memory (omega (arith, left)) in
      let (s2, ran', v2, stored', done, base') =
        send_beats-store_words tag (suc k) bs s1 law v1 is_memory (omega arith)
          (omega (arith, left, count)) in
      let here : 8 - s.rx_count ≡ k = omega (arith, left) in
      let same_place =
        ap (λ i. stq_be_p s.memory (s.ram + word_in_line s.xfer_addr (i * 8)) b.word) here in
      (
        s2,
        ap (λ o. then_run o (send_beats dram tag bs)) ran ∙ ran',
        v2,
        stored'
            ∙ rw (base, place, stored)
                (ap (λ m. store_words m s.ram s.xfer_addr (suc k) (map (λ b'. b'.word) bs))
                  same_place),
        done,
        base' ∙ base,
      )
