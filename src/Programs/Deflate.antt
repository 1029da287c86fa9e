-- ===== src/Programs/Deflate.antt =====
-- When the guest program proj/sparc-prog/deflate.c reports success.
use sparcy.Base.{
  &&_both, ℕ, zero, suc, ◌+◌, ◌<◌, ◌≡◌, ◌≢◌, refl, sym, ap, ◌∙◌, arith, inl, inr, true, false, not,
  some, List, [], ◌∷◌, ◌++◌, ◌==◌, ==_iff, Bool-cases, if_taken, if_skipped, length, get_or, u32,
}
use sparcy.Programs.{print_udecimal, ◌>>=◌}
use sparcy.Programs.Sample
use sparcy.Programs.Prints.{print_udecimal-print_hex}
use sparcy.Programs.Sample.{
  Miniz, Written, Ended, compressed, uncompressed, allocated, ends, s_p_str, sizes, same_bytes,
  compare_result, after_sizes, decompress, deflate_main, greeting, decompression_failed,
  out_of_memory, compress_failed, uncompress_failed, decompressed_from, to_text, bytes_text,
}

-- The bytes of a buffer from the `start`-th on are a text.
pub Equals : (ℕ → ℕ) → ℕ → List ℕ → Type 0
Equals buffer start text = (i : ℕ) → i < length text → buffer (start + i) ≡ get_or text i 0

same_bytes-Equals :
    (buffer : ℕ → ℕ) (start : ℕ) (text : List ℕ)
    → same_bytes buffer start text ≡ true
    → Equals buffer start text
unfolding same_bytes Equals
same_bytes-Equals buffer start [] h i k = absurd (omega arith)
same_bytes-Equals buffer start (c ∷ text) h zero k =
    let at : start + 0 ≡ start = omega arith in
    let here : buffer start ≡ c = ground arith in ap buffer at ∙ here
same_bytes-Equals buffer start (c ∷ text) h (suc i) k =
    let at : start + suc i ≡ suc start + i = omega arith in
    let later : same_bytes buffer (suc start) text ≡ true = ground arith in
    ap buffer at ∙ (same_bytes-Equals buffer (suc start) text later i (omega arith))

Equals-same_bytes :
    (buffer : ℕ → ℕ) (start : ℕ) (text : List ℕ)
    → Equals buffer start text
    → same_bytes buffer start text ≡ true
unfolding same_bytes Equals
Equals-same_bytes buffer start [] h = refl
Equals-same_bytes buffer start (c ∷ text) h =
    let here : buffer start ≡ c = ap buffer (omega arith) ∙ h 0 (omega arith) in
    let later : same_bytes buffer (suc start) text ≡ true =
      Equals-same_bytes buffer (suc start) text
        λ i k. ap buffer (omega arith) ∙ h (suc i) (omega arith) in
    ground arith

print_udecimal_written : (n : ℕ) → (text : List ℕ) × (print_udecimal (u32 n) ≡ some text)
print_udecimal_written n =
    let written = (print_udecimal-print_hex (u32 n) (omega arith)).0 in (written.0, written.1)

sizes_written : (what : List ℕ) (src dst : ℕ) → (text : List ℕ) × (sizes what src dst ≡ some text)
unfolding sizes ◌>>=◌
sizes_written what src dst =
    let (from, ran) = print_udecimal_written src in
    let (into, ran') = print_udecimal_written dst in
    (what ++ (from ++ (to_text ++ (into ++ bytes_text))), rw (ran, ran') refl)

disagrees : ¬ (true ≡ false)
disagrees h = ground arith

module _ (mz : Miniz) (p_cmp p_uncomp : ℕ) where
  -- Both blocks are there, both calls of miniz succeed, and the second gives the text back.
  pub record Restores : Type 0 where
    pub has_cmp : p_cmp ≢ 0
    pub has_uncomp : p_uncomp ≢ 0
    pub compresses : (compressed mz p_cmp p_uncomp).status ≡ 0
    pub uncompresses : (uncompressed mz p_cmp p_uncomp).status ≡ 0
    pub same_len : (uncompressed mz p_cmp p_uncomp).stored_len ≡ length s_p_str
    pub same_text : Equals (uncompressed mz p_cmp p_uncomp).bytes 0 s_p_str

  -- How `main` ends.
  pub record Reports (ended : Ended) : Type 0 where
    pub success : ended.status ≡ 0 → Restores
    pub failure : ended.status ≢ 0 → ended.status ≡ 1 × ¬ Restores
    pub frees : p_cmp ≢ 0 → p_uncomp ≢ 0 → ended.freed ≡ p_cmp ∷ p_uncomp ∷ []

  fails :
      (ended : Ended)
      → ended.status ≡ 1
      → ¬ Restores
      → (p_cmp ≢ 0 → p_uncomp ≢ 0 → ended.freed ≡ p_cmp ∷ p_uncomp ∷ [])
      → Reports ended
  fails ended one broken frees = record {
    success = λ zero_status. absurd (omega (arith, one, zero_status));
    failure = λ _. (one, broken);
    frees = frees;
  }

  -- The two tests of the last comparison.
  compare_result_iff :
      (compare_result mz p_cmp p_uncomp ≡ true
        → ((uncompressed mz p_cmp p_uncomp).stored_len ≡ length s_p_str)
          × Equals (uncompressed mz p_cmp p_uncomp).bytes 0 s_p_str)
      × ((uncompressed mz p_cmp p_uncomp).stored_len ≡ length s_p_str
          → Equals (uncompressed mz p_cmp p_uncomp).bytes 0 s_p_str
          → compare_result mz p_cmp p_uncomp ≡ true)
  unfolding compare_result
  compare_result_iff =
      let bytes = (uncompressed mz p_cmp p_uncomp).bytes in
      let len = (uncompressed mz p_cmp p_uncomp).stored_len in
      (
        λ same.
            let tests = &&_both (len == length s_p_str) (same_bytes bytes 0 s_p_str) same in
            ((==_iff len (length s_p_str)).0 tests.0, same_bytes-Equals bytes 0 s_p_str tests.1),
        λ same_len same_text.
            rw
              (
                (==_iff len (length s_p_str)).1 same_len,
                Equals-same_bytes bytes 0 s_p_str same_text,
              )
              refl,
      )

  after_sizes-Reports :
      (text : List ℕ)
      → p_cmp ≢ 0
      → p_uncomp ≢ 0
      → (compressed mz p_cmp p_uncomp).status ≡ 0
      → (uncompressed mz p_cmp p_uncomp).status ≡ 0
      → Reports (after_sizes mz p_cmp p_uncomp text)
  unfolding after_sizes
  after_sizes-Reports text cmp uncomp done undone =
      let same_result = compare_result mz p_cmp p_uncomp in
      let failed =
        ends mz p_cmp p_uncomp 1 (text ++ decompression_failed) (p_cmp ∷ p_uncomp ∷ []) in
      let passed = ends mz p_cmp p_uncomp 0 (text ++ Sample.success) (p_cmp ∷ p_uncomp ∷ []) in
      let restored : same_result ≡ true → Restores = λ same.
        let (same_len, same_text) = compare_result_iff.0 same in
        record {
          has_cmp = cmp;
          has_uncomp = uncomp;
          compresses = done;
          uncompresses = undone;
          same_len = same_len;
          same_text = same_text;
        } in
      let matches : Restores → same_result ≡ true =
        λ r. compare_result_iff.1 r.same_len r.same_text in
      elim (Bool-cases (compare_result mz p_cmp p_uncomp)) [
        | inl same ↦ rw (if_skipped (not same_result) failed passed (ap not same)) (record {
          success = λ _. restored same;
          failure = λ not_zero. absurd (not_zero refl);
          frees = λ _ _. refl;
        })
        | inr differs ↦
            rw (if_taken (not same_result) failed passed (ap not differs))
              (fails failed refl (λ r. disagrees (sym (matches r) ∙ differs)) λ _ _. refl)
      ]

  allocated_iff :
      (allocated mz p_cmp p_uncomp ≡ true → (p_cmp ≢ 0) × (p_uncomp ≢ 0))
      × (p_cmp ≢ 0 → p_uncomp ≢ 0 → allocated mz p_cmp p_uncomp ≡ true)
  allocated_iff = (λ got. (ground arith, ground arith), λ cmp uncomp. ground arith)

  decompress-Reports :
      p_cmp ≢ 0
      → p_uncomp ≢ 0
      → (compressed mz p_cmp p_uncomp).status ≡ 0
      → (ended : Ended) × (decompress mz p_cmp p_uncomp ≡ some ended) × Reports ended
  unfolding decompress ◌>>=◌
  decompress-Reports cmp uncomp done =
      let succeeds = (uncompressed mz p_cmp p_uncomp).status == 0 in
      let failure = ends mz p_cmp p_uncomp 1 uncompress_failed (p_cmp ∷ p_uncomp ∷ []) in
      elim (Bool-cases succeeds) [
        | inr failed ↦ (
          failure,
          if_taken (not succeeds) _ _ (ap not failed),
          fails failure refl (λ r. ground (arith, r.uncompresses)) λ _ _. refl,
        )
        | inl undone ↦
            let (text, ran) =
              sizes_written decompressed_from (compressed mz p_cmp p_uncomp).stored_len
                (uncompressed mz p_cmp p_uncomp).stored_len in
            (
              after_sizes mz p_cmp p_uncomp text,
              if_skipped (not succeeds) _ _ (ap not undone) ∙ rw ran refl,
              after_sizes-Reports text cmp uncomp done (ground arith),
            )
      ]

  -- Whatever miniz and malloc return, `main` of deflate.c ends. Its status is 0 exactly where both blocks
  -- were allocated, both calls of miniz succeeded and the second gave back the text's length and its
  -- bytes, and 1 elsewhere; where both blocks were allocated, they are freed on every way out.
  pub deflate_main-Reports :
      (ended : Ended) × (deflate_main mz p_cmp p_uncomp ≡ some ended) × Reports ended
  unfolding deflate_main
  deflate_main-Reports =
      let got = allocated mz p_cmp p_uncomp in
      let first_status = (compressed mz p_cmp p_uncomp).status in
      let succeeds = first_status == 0 in
      let fail : List ℕ → List ℕ → Ended = ends mz p_cmp p_uncomp 1 in
      elim (Bool-cases got) [
        | inr lacking ↦ (
          fail out_of_memory [],
          if_taken (not got) _ _ (ap not lacking),
          fails (fail out_of_memory []) refl
              (λ r. disagrees (sym (allocated_iff.1 r.has_cmp r.has_uncomp) ∙ lacking))
              λ cmp uncomp. absurd (disagrees (sym (allocated_iff.1 cmp uncomp) ∙ lacking)),
        )
        | inl both ↦
            let past = if_skipped (not got) _ _ (ap not both) in
            let (cmp, uncomp) = allocated_iff.0 both in
            elim (Bool-cases succeeds) [
              | inr failed ↦ (
                fail compress_failed (p_cmp ∷ p_uncomp ∷ []),
                past ∙ if_taken (not succeeds) _ _ (ap not failed),
                fails (fail compress_failed (p_cmp ∷ p_uncomp ∷ [])) refl
                    (λ r. ground (arith, r.compresses)) λ _ _. refl,
              )
              | inl done ↦
                  let (ended, ran, reports) =
                    decompress-Reports cmp uncomp ((==_iff first_status 0).0 done) in
                  (ended, past ∙ if_skipped (not succeeds) _ _ (ap not done) ∙ ran, reports)
            ]
      ]
