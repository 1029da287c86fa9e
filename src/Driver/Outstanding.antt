-- ===== src/Driver/Outstanding.antt =====
-- The reads that `addr_to_tag` of proj/system.cpp keeps are those that the DRAM simulator has not
-- ended: no assertion of the driver fails where the circuit keeps the protocol of the bus.
use sparcy.Base.{
  ℕ, ◌≤◌, ◌≡◌, refl, arith, Bool, true, false, some, List, [], ◌∷◌, ◌++◌, ◌==◌, if◌then◌else◌, inl,
  inr, ◌∙◌, sym, ap, Option-cases,
}
use sparcy.Driver.{MemorySystem, System}
use sparcy.Driver.Bus.{
  is_outstanding, find_tag, erase_tag, dram_read_complete, complete_reads, fill_words, then_run,
}

-- The reads of a list end one after the other: each is pending then, and is not any more.
abbrev pub Drains : (ℕ → Bool) → List ℕ → (ℕ → Bool) → Type 0
Drains before [] after = (a : ℕ) → after a ≡ before a
Drains before (x ∷ xs) after =
    (before x ≡ true) × Drains (λ a. if a == x then false else before a) xs after

-- What the DRAM simulator promises, where `pending` tells the reads that it has not ended.
pub record IsMemorySystem {D : Type 0} (dram : MemorySystem D) (pending : D → ℕ → Bool)
    : Type 0 where
  pub drains : (d : D) → Drains (pending d) (dram.update d).0 (pending (dram.update d).1)
  pub keeps_accepting :
      (d : D)
      → dram.will_accept_transaction d ≡ true
      → dram.will_accept_transaction (dram.update d).1 ≡ true
  pub accepts :
      (d : D) (w : Bool) (a : ℕ)
      → dram.will_accept_transaction d ≡ true
      → (dram.add_transaction d w a).0 ≡ true
  pub adds_read :
      (d : D) (a b : ℕ)
      → pending (dram.add_transaction d false a).1 b ≡ (if b == a then true else pending d b)
  pub adds_write : (d : D) (a b : ℕ) → pending (dram.add_transaction d true a).1 b ≡ pending d b

-- No address stands twice in the list.
abbrev pub IsMap : List (ℕ × ℕ) → Type 0
IsMap [] = Unit
IsMap ((a, _) ∷ tags) = (is_outstanding a tags ≡ false) × IsMap tags

pub is_outstanding_cons :
    (a b tag : ℕ) (tags : List (ℕ × ℕ))
    → is_outstanding b ((a, tag) ∷ tags) ≡ (if b == a then true else is_outstanding b tags)
unfolding is_outstanding find_tag
is_outstanding_cons a b tag tags = ground arith

find_tag-is_outstanding :
    (a : ℕ) (tags : List (ℕ × ℕ))
    → is_outstanding a tags ≡ true
    → (tag : ℕ) × (find_tag a tags ≡ some tag)
unfolding is_outstanding
find_tag-is_outstanding a tags h = elim (Option-cases (find_tag a tags)) [
  | inl e ↦ absurd (ground arith)
  | inr (tag, e) ↦ (tag, e)
]

is_outstanding-erase_tag :
    (x : ℕ) (tags : List (ℕ × ℕ))
    → IsMap tags
    → (a : ℕ)
    → is_outstanding a (erase_tag x tags) ≡ (if a == x then false else is_outstanding a tags)
unfolding erase_tag is_outstanding find_tag
is_outstanding-erase_tag x [] h a = ground arith
is_outstanding-erase_tag x ((b, tag) ∷ tags) (new, h) a =
    let same : a ≡ b → is_outstanding a tags ≡ is_outstanding b tags =
      λ e. ap (λ c. is_outstanding c tags) e in
    ground (
      arith,
      same,
      new,
      is_outstanding_cons b a tag tags,
      is_outstanding_cons b a tag (erase_tag x tags),
      is_outstanding-erase_tag x tags h a,
    )

erase_tag-IsMap : (x : ℕ) (tags : List (ℕ × ℕ)) → IsMap tags → IsMap (erase_tag x tags)
unfolding erase_tag
erase_tag-IsMap x [] h = tt
erase_tag-IsMap x ((b, tag) ∷ tags) (new, h) =
    ground (arith, new, h, is_outstanding-erase_tag x tags h b, erase_tag-IsMap x tags h)

pub Drains-same :
    (p p' after : ℕ → Bool) (xs : List ℕ)
    → ((a : ℕ) → p' a ≡ p a)
    → Drains p xs after
    → Drains p' xs after
Drains-same p p' after [] same h = λ a. h a ∙ sym (same a)
Drains-same p p' after (x ∷ xs) same (known, h) = (
  same x ∙ known,
  Drains-same (λ a. if a == x then false else p a) (λ a. if a == x then false else p' a) after xs
      (λ a. ap (λ b. if a == x then false else b) (same a)) h,
)

-- What holds between two edges: the map keeps the reads that have not ended, and at most eight beats
-- are to come.
pub record Serves {D : Type 0} (pending : D → ℕ → Bool) (s : System D) : Type 0 where
  pub map_of_tags : IsMap s.addr_to_tag
  pub same_reads : (a : ℕ) → is_outstanding a s.addr_to_tag ≡ pending s.dramsim a
  pub at_most_eight : s.rx_count ≤ 8

-- A state with the same reads under way and the same count of beats.
pub Serves-same :
    {D : Type 0} {pending : D → ℕ → Bool} {s t : System D}
    → Serves pending s
    → t.addr_to_tag ≡ s.addr_to_tag
    → t.dramsim ≡ s.dramsim
    → t.rx_count ≡ s.rx_count
    → Serves pending t
Serves-same v tags dram beats = record {
  map_of_tags = rw tags v.map_of_tags;
  same_reads = λ a. rw (tags, dram) (v.same_reads a);
  at_most_eight = rw beats v.at_most_eight;
}

-- What a step leaves of a transfer: the circuit's requests, and where the next beat goes.
pub record SameTransfer {D : Type 0} (s s' : System D) : Type 0 where
  pub same_memory : s'.memory ≡ s.memory
  pub same_ram : s'.ram ≡ s.ram
  pub same_ramsize : s'.ramsize ≡ s.ramsize
  pub same_rx_count : s'.rx_count ≡ s.rx_count
  pub same_xfer_addr : s'.xfer_addr ≡ s.xfer_addr
  pub same_reqcyc : s'.top.bus_reqcyc ≡ s.top.bus_reqcyc
  pub same_req : s'.top.bus_req ≡ s.top.bus_req
  pub same_reqtag : s'.top.bus_reqtag ≡ s.top.bus_reqtag

module _ {D : Type 0} where
  pub SameTransfer-trans :
      {s s' s'' : System D} → SameTransfer s s' → SameTransfer s' s'' → SameTransfer s s''
  SameTransfer-trans a b = record {
    same_memory = b.same_memory ∙ a.same_memory;
    same_ram = b.same_ram ∙ a.same_ram;
    same_ramsize = b.same_ramsize ∙ a.same_ramsize;
    same_rx_count = b.same_rx_count ∙ a.same_rx_count;
    same_xfer_addr = b.same_xfer_addr ∙ a.same_xfer_addr;
    same_reqcyc = b.same_reqcyc ∙ a.same_reqcyc;
    same_req = b.same_req ∙ a.same_req;
    same_reqtag = b.same_reqtag ∙ a.same_reqtag;
  }

  completed-SameTransfer :
      (s : System D) (q tags : List (ℕ × ℕ))
      → SameTransfer s (record s { tx_queue = q; addr_to_tag = tags })
  completed-SameTransfer s q tags = record {
    same_memory = refl;
    same_ram = refl;
    same_ramsize = refl;
    same_rx_count = refl;
    same_xfer_addr = refl;
    same_reqcyc = refl;
    same_req = refl;
    same_reqtag = refl;
  }

  pub dram_read_complete_known :
      (s : System D) (x tag : ℕ)
      → find_tag x s.addr_to_tag ≡ some tag
      → dram_read_complete s x
        ≡ some (record s {
          tx_queue = s.tx_queue ++ fill_words s.memory s.ram x tag 0 8;
          addr_to_tag = erase_tag x s.addr_to_tag;
        })
  unfolding dram_read_complete
  dram_read_complete_known s x tag e = rw (dram_read_complete, e) refl

  pub complete_reads-SameTransfer :
      (s : System D) (xs : List ℕ) (after : ℕ → Bool)
      → IsMap s.addr_to_tag
      → Drains (λ a. is_outstanding a s.addr_to_tag) xs after
      → (s' : System D) × (complete_reads s xs ≡ some s')
        × SameTransfer s s'
        × (s'.dramsim ≡ s.dramsim)
        × IsMap s'.addr_to_tag
        × ((a : ℕ) → after a ≡ is_outstanding a s'.addr_to_tag)
  unfolding complete_reads
  complete_reads-SameTransfer s [] after h k =
      (s, refl, completed-SameTransfer s s.tx_queue s.addr_to_tag, refl, h, k)
  complete_reads-SameTransfer s (x ∷ xs) after h (known, k) =
      let (tag, e) = find_tag-is_outstanding x s.addr_to_tag known in
      let q = s.tx_queue ++ fill_words s.memory s.ram x tag 0 8 in
      let erased = erase_tag x s.addr_to_tag in
      let (s', ran, same, kept, map', reads) =
        complete_reads-SameTransfer (record s { tx_queue = q; addr_to_tag = erased }) xs after
          (erase_tag-IsMap x s.addr_to_tag h)
          (Drains-same (λ a. if a == x then false else is_outstanding a s.addr_to_tag)
            (λ a. is_outstanding a erased) after xs (is_outstanding-erase_tag x s.addr_to_tag h)
            k) in
      (
        s',
        ap (λ o. then_run o (λ s''. complete_reads s'' xs)) (dram_read_complete_known s x tag e)
            ∙ ran,
        SameTransfer-trans (completed-SameTransfer s q erased) same,
        kept,
        map',
        reads,
      )
