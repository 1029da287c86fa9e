-- ===== src/Hw2/Same.antt =====
-- The steps of the bus of hw2/system.cpp beside those of proj/system.cpp, without devices.
use sparcy.Base.{
  ℕ, zero, suc, ◌+◌, ◌/◌, ◌%◌, ◌≡◌, refl, ◌∙◌, sym, ap, arith, Bool, true, false, Option, none,
  some, List, [], ◌∷◌, ◌++◌, ◌==◌, if◌then◌else◌, Bool-cases, if_taken, if_skipped, Option-cases,
  inl, inr,
}
use sparcy.Memory.{Memory, ldq_he_p}
use sparcy.Driver
use sparcy.Driver.{MemorySystem, Vtop, tag_memory, cse502_be64toh}
use sparcy.Driver.Bus.{
  then_run, find_tag, erase_tag, is_outstanding, word_in_line, fill_words, dram_read_complete,
  complete_reads, pop_taken, drive_response, receive_beat, accept_request, request_memory,
  serve_request, acknowledge, is_write, beats_of,
}
use sparcy.Hw2.{Top, System}
use sparcy.Hw2.Bus.{
  tag_of, drop_tag, has_tag, line_offset, line_words, read_complete, reads_complete, pop_response,
  send_response, take_beat, take_request, ask_memory, serve, answer, writes, beats_after,
  hw2_be64toh,
}

module _ {D : Type 0} (c : Top) where
  -- The state of the earlier driver: the same bus, with the cache's other ports as in `c`.
  abbrev pub without_devices : sparcy.Driver.System D → System D
  without_devices s = record {
    top = record c {
      reset = s.top.reset;
      clk = s.top.clk;
      bus_reqcyc = s.top.bus_reqcyc;
      bus_req = s.top.bus_req;
      bus_reqtag = s.top.bus_reqtag;
      bus_reqack = s.top.bus_reqack;
      bus_respcyc = s.top.bus_respcyc;
      bus_resp = s.top.bus_resp;
      bus_resptag = s.top.bus_resptag;
      bus_respack = s.top.bus_respack;
    };
    memory = s.memory;
    ram = s.ram;
    ramsize = s.ramsize;
    cmd = s.cmd;
    rx_count = s.rx_count;
    xfer_addr = s.xfer_addr;
    addr_to_tag = s.addr_to_tag;
    tx_queue = s.tx_queue;
    dramsim = s.dramsim;
  }

  abbrev pub each : Option (sparcy.Driver.System D) → Option (System D)
  each none = none
  each (some s) = some (without_devices s)

  pub pop_same :
      (s : sparcy.Driver.System D)
      → pop_response (without_devices s) ≡ without_devices (pop_taken s)
  unfolding pop_response pop_taken
  pop_same s = ground arith

  pub send_same :
      (s : sparcy.Driver.System D)
      → send_response (without_devices s) ≡ without_devices (drive_response s)
  unfolding send_response drive_response
  send_same s = ground arith

  pub answer_same :
      (dram : MemorySystem D) (s : sparcy.Driver.System D)
      → answer dram (without_devices s) ≡ each (acknowledge dram s)
  unfolding answer acknowledge
  answer_same dram s = ground arith

  take_beat_same :
      (rx : ℕ) (s : sparcy.Driver.System D)
      → s.cmd ≡ tag_memory
      → take_beat rx (without_devices s) ≡ each (receive_beat rx s)
  unfolding take_beat receive_beat line_offset word_in_line hw2_be64toh cse502_be64toh
  take_beat_same rx s e = ground arith

tag_of-same : (a : ℕ) (tags : List (ℕ × ℕ)) → tag_of a tags ≡ find_tag a tags
unfolding tag_of find_tag
tag_of-same a [] = refl
tag_of-same a ((b, tag) ∷ tags) = ap (λ o. if b == a then some tag else o) (tag_of-same a tags)

drop_tag-same : (a : ℕ) (tags : List (ℕ × ℕ)) → drop_tag a tags ≡ erase_tag a tags
unfolding drop_tag erase_tag
drop_tag-same a [] = refl
drop_tag-same a ((b, tag) ∷ tags) =
    ap (λ l. if b == a then tags else (b, tag) ∷ l) (drop_tag-same a tags)

line_words-same :
    (m : Memory) (ram address tag offset rounds : ℕ)
    → line_words m ram address tag offset rounds ≡ fill_words m ram address tag offset rounds
unfolding line_words fill_words line_offset word_in_line hw2_be64toh cse502_be64toh
line_words-same m ram address tag offset zero = refl
line_words-same m ram address tag offset (suc rounds) =
    ap (λ l. (cse502_be64toh (ldq_he_p m (ram + word_in_line address offset)), tag) ∷ l)
      (line_words-same m ram address tag (offset + 8) rounds)

has_tag-same : (a : ℕ) (tags : List (ℕ × ℕ)) → has_tag a tags ≡ is_outstanding a tags
unfolding has_tag is_outstanding
has_tag-same a tags = ap (λ o. elim o [ some _ ↦ true | none ↦ false ]) (tag_of-same a tags)

module _ {D : Type 0} (c : Top) where
  read_complete_found :
      (s : System D) (a tag : ℕ)
      → tag_of a s.addr_to_tag ≡ some tag
      → read_complete s a
        ≡ some (record s {
          tx_queue = s.tx_queue ++ fill_words s.memory s.ram a tag 0 8;
          addr_to_tag = erase_tag a s.addr_to_tag;
        })
  unfolding read_complete
  read_complete_found s a tag e =
      rw (read_complete, e, line_words-same s.memory s.ram a tag 0 8, drop_tag-same a s.addr_to_tag)
        refl

  read_complete_lost :
      (s : System D) (a : ℕ) → tag_of a s.addr_to_tag ≡ none → read_complete s a ≡ none
  unfolding read_complete
  read_complete_lost s a e = rw (read_complete, e) refl

  read_complete_same :
      (s : sparcy.Driver.System D) (a : ℕ)
      → read_complete (without_devices c s) a ≡ each c (dram_read_complete s a)
  unfolding dram_read_complete
  read_complete_same s a = elim (Option-cases (find_tag a s.addr_to_tag)) [
    | inl e ↦
        read_complete_lost (without_devices c s) a (tag_of-same a s.addr_to_tag ∙ e)
        ∙ rw (dram_read_complete, e) refl
    | inr (tag, e) ↦
        read_complete_found (without_devices c s) a tag (tag_of-same a s.addr_to_tag ∙ e)
        ∙ rw (dram_read_complete, e) refl
  ]

  pub then_run-each :
      (o : Option (sparcy.Driver.System D))
      (f : sparcy.Driver.System D → Option (sparcy.Driver.System D))
      (g : System D → Option (System D))
      → ((s : sparcy.Driver.System D) → o ≡ some s → g (without_devices c s) ≡ each c (f s))
      → then_run (each c o) g ≡ each c (then_run o f)
  then_run-each none f g h = refl
  then_run-each (some s) f g h = h s refl

  pub reads_complete_same :
      (s : sparcy.Driver.System D) (xs : List ℕ)
      → reads_complete (without_devices c s) xs ≡ each c (complete_reads s xs)
  unfolding reads_complete complete_reads
  reads_complete_same s [] = refl
  reads_complete_same s (x ∷ xs) =
      ap (λ o. then_run o (λ s'. reads_complete s' xs)) (read_complete_same s x)
      ∙ then_run-each (dram_read_complete s x) (λ s'. complete_reads s' xs)
          (λ s'. reads_complete s' xs) (λ s' _. reads_complete_same s' xs)

  ask_memory_same :
      (dram : MemorySystem D) (s : sparcy.Driver.System D)
      → ask_memory dram (without_devices c s) ≡ each c (request_memory dram s)
  unfolding ask_memory request_memory writes is_write
  ask_memory_same dram s = ground (arith, has_tag-same s.xfer_addr s.addr_to_tag)

  take_request_same :
      (dram : MemorySystem D) (s : sparcy.Driver.System D)
      → s.cmd ≡ tag_memory
      → take_request dram (without_devices c s) ≡ each c (accept_request dram s)
  unfolding take_request accept_request beats_after beats_of writes is_write
  take_request_same dram s e =
      let s' : sparcy.Driver.System D = record s {
        rx_count = beats_of s;
        xfer_addr = s.top.bus_req;
      } in
      ground (arith, ask_memory_same dram s')

  pub each_if :
      (b : Bool) (x y : Option (System D)) (x' y' : Option (sparcy.Driver.System D))
      → x ≡ each c x'
      → y ≡ each c y'
      → (if b then x else y) ≡ each c (if b then x' else y')
  each_if true x y x' y' e e' = e
  each_if false x y x' y' e e' = e'

  pub serve_same :
      (dram : MemorySystem D) (s : sparcy.Driver.System D)
      → (s.top.bus_reqcyc ≡ true → s.top.bus_reqtag / 256 % 16 ≡ tag_memory)
      → serve dram (without_devices c s) ≡ each c (serve_request dram s)
  unfolding serve serve_request
  serve_same dram s known =
      let s' : sparcy.Driver.System D = record s { cmd = s.top.bus_reqtag / 256 % 16 } in
      elim (Bool-cases s.top.bus_reqcyc) [
        | inl asked ↦
            if_taken s.top.bus_reqcyc _ _ asked
            ∙ each_if (s.rx_count == 0) _ _ _ _ (take_request_same dram s' (known asked))
                (take_beat_same c s.rx_count s' (known asked))
            ∙ ap (each c) (sym (if_taken s.top.bus_reqcyc _ _ asked))
        | inr quiet ↦
            if_skipped s.top.bus_reqcyc _ _ quiet
            ∙ ap (each c) (sym (if_skipped s.top.bus_reqcyc _ _ quiet))
      ]
