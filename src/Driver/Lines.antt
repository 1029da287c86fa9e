-- ===== src/Driver/Lines.antt =====
-- Whole lines over the bus of proj/system.cpp: what a write leaves in memory, and what a read of it
-- sends back.
use mathlib.Core.Option.{some-injective}
use sparcy.Base.{
  ℕ, suc, ◌+◌, ◌*◌, ◌/◌, ◌%◌, ◌≤◌, ◌<◌, ◌≡◌, refl, arith, Bool, true, some, List, [], ◌∷◌, ◌++◌,
  ◌⊎◌, ◌∙◌, sym, ap, u64, map, length,
}
use sparcy.Driver.{MemorySystem, System, tag_memory, tag_write}
use sparcy.Driver.Bus.{fill_words, find_tag, then_run, erase_tag, dram_read_complete}
use sparcy.Driver.Line.{
  store_words, store_line, store_words-store_line, store_words_outside, fill_words-store_words,
}
use sparcy.Driver.Outstanding.{IsMemorySystem, Serves, dram_read_complete_known}
use sparcy.Driver.Burst.{Beat, send_beats, send_beats-store_words}
use sparcy.Driver.LineWrite.{request_write}

abbrev pub words : List Beat → List ℕ
words bs = map (λ b. b.word) bs

length-words : (bs : List Beat) → length (words bs) ≡ length bs
length-words [] = refl
length-words (b ∷ bs) = ap suc (length-words bs)

map-words :
    (tag : ℕ) (bs : List Beat)
    → map {B = ℕ × ℕ} (λ w. (u64 w, tag)) (words bs) ≡ map {B = ℕ × ℕ} (λ b. (u64 b.word, tag)) bs
map-words tag [] = refl
map-words tag (b ∷ bs) = ap (λ l. (u64 b.word, tag) ∷ l) (map-words tag bs)

module _ {D : Type 0} (dram : MemorySystem D) (pending : D → ℕ → Bool) where
  -- An idle driver, whose simulator takes transactions and ends each read once, is sent a request to write
  -- a line, at an aligned address, and eight beats: each edge runs, the memory is that in which the words
  -- were stored one after the other in the target's order from the address on, and after the end of the
  -- line from its start on, and no byte outside the line has changed; the driver is idle again.
  pub send_beats-stores_line :
      (tag : ℕ) (request : Beat) (bs : List Beat) (s : System D)
      → IsMemorySystem dram pending
      → Serves pending s
      → dram.will_accept_transaction s.dramsim ≡ true
      → s.rx_count ≡ 0
      → tag / 256 % 16 ≡ tag_memory
      → tag / 4096 % 2 ≡ tag_write
      → request.word % 8 ≡ 0
      → length bs ≡ 8
      → (s' : System D) × (send_beats dram tag (request ∷ bs) s ≡ some s')
        × Serves pending s'
        × (s'.memory ≡ store_line s.memory s.ram request.word 0 (words bs))
        × ((q : ℕ)
            → (q < s.ram + request.word / 64 * 64) ⊎ (s.ram + request.word / 64 * 64 + 64 ≤ q)
            → s'.memory q ≡ s.memory q)
        × (s'.rx_count ≡ 0)
        × (s'.ram ≡ s.ram)
  unfolding send_beats
  send_beats-stores_line tag request bs s law v accepted idle is_memory writes aligned eight =
      let (s1, ran, v1, expects) =
        request_write dram pending tag request s law v accepted idle is_memory writes aligned in
      let (s2, ran', v2, stored, done, base) =
        send_beats-store_words dram pending tag 0 bs s1 law v1 is_memory (omega (arith, eight))
          (omega (arith, eight, expects.eight)) in
      let few : 0 + length (words bs) ≤ 8 = omega (arith, length-words bs, eight) in
      let whole : s2.memory ≡ store_words s.memory s.ram request.word 0 (words bs) =
        stored ∙ rw (expects.same_memory, expects.same_ram, expects.at_addr) refl in
      (
        s2,
        ap (λ o. then_run o (send_beats dram tag bs)) ran ∙ ran',
        v2,
        whole ∙ store_words-store_line s.memory s.ram request.word 0 (words bs) few,
        λ q h.
            ap (λ m. m q) whole
            ∙ store_words_outside s.memory s.ram request.word (words bs) (omega (arith, few))
                aligned q h,
        done,
        base ∙ expects.same_ram,
      )

  -- After that write, the end of a read of the same address sends the eight words, cut to 64 bits and in
  -- the order in which they were written, under the tag of the read, and forgets the read.
  pub dram_read_complete-send_beats :
      (tag read_tag : ℕ) (request : Beat) (bs : List Beat) (s s' s'' : System D)
      → IsMemorySystem dram pending
      → Serves pending s
      → dram.will_accept_transaction s.dramsim ≡ true
      → s.rx_count ≡ 0
      → tag / 256 % 16 ≡ tag_memory
      → tag / 4096 % 2 ≡ tag_write
      → request.word % 8 ≡ 0
      → length bs ≡ 8
      → send_beats dram tag (request ∷ bs) s ≡ some s'
      → s''.memory ≡ s'.memory
      → s''.ram ≡ s'.ram
      → find_tag request.word s''.addr_to_tag ≡ some read_tag
      → dram_read_complete s'' request.word
        ≡ some (record s'' {
          tx_queue = s''.tx_queue ++ map (λ b. (u64 b.word, read_tag)) bs;
          addr_to_tag = erase_tag request.word s''.addr_to_tag;
        })
  dram_read_complete-send_beats tag read_tag request bs s s' s'' law v accepted idle is_memory
        writes aligned eight ran same base found =
      let (s1, ran', _, stored, _, _, base') =
        send_beats-stores_line tag request bs s law v accepted idle is_memory writes aligned
          eight in
      let few : 0 + length (words bs) ≤ 8 = omega (arith, length-words bs, eight) in
      let reached : s' ≡ s1 = some-injective s' s1 (sym ran ∙ ran') in
      let memory' : s''.memory ≡ store_words s.memory s.ram request.word 0 (words bs) =
        same
        ∙ ap (λ x. x.memory) reached
        ∙ stored
        ∙ sym (store_words-store_line s.memory s.ram request.word 0 (words bs) few) in
      let ram' : s''.ram ≡ s.ram = base ∙ ap (λ x. x.ram) reached ∙ base' in
      let count : 8 ≡ length (words bs) = omega (arith, length-words bs, eight) in
      let sent : fill_words s''.memory s''.ram request.word read_tag 0 8
          ≡ map (λ b. (u64 b.word, read_tag)) bs =
        rw (memory', ram', count)
          (fill_words-store_words s.memory s.ram request.word read_tag 0 (words bs) aligned
            (omega (arith, count)))
        ∙ map-words read_tag bs in
      dram_read_complete_known s'' request.word read_tag found
      ∙ ap
          (λ l. some (record s'' {
            tx_queue = s''.tx_queue ++ l;
            addr_to_tag = erase_tag request.word s''.addr_to_tag;
          }))
          sent
