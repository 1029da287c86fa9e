-- ===== src/Programs/Sample.antt =====
-- The guest programs proj/sparc-prog/compress.c and deflate.c, which call miniz. An unsigned long has 32
-- bits there; miniz and the addresses that malloc returns are parameters.
use sparcy.Base.{
  ℕ, zero, suc, Bool, true, not, ◌&&◌, ◌||◌, Option, some, List, [], ◌∷◌, ◌++◌, ◌==◌, u32,
  if◌then◌else◌, length,
}
use sparcy.Programs.{print_udecimal, newline, ◌>>=◌}

-- What a call of miniz leaves: its status, the length it stores and the destination's bytes.
pub record Written : Type 0 where
  pub status : ℕ
  pub stored_len : ℕ
  pub bytes : ℕ → ℕ

pub record Miniz : Type 0 where
  pub mz_version : List ℕ
  pub compress_bound : ℕ → ℕ
  pub compress : List ℕ → ℕ → Written
  pub uncompress : (ℕ → ℕ) → ℕ → ℕ → Written

-- A program's exit status, what it writes to descriptor 1, and the blocks it frees.
pub record Ended : Type 0 where
  pub status : ℕ
  pub output : List ℕ
  pub freed : List ℕ

-- "Good morning Dr. Chandra. This is Hal. I am ready for my first lesson."
abbrev sentence : List ℕ
sentence =
    71 ∷ 111 ∷ 111 ∷ 100 ∷ 32 ∷ 109 ∷ 111 ∷ 114 ∷ 110 ∷ 105 ∷ 110 ∷ 103 ∷ 32 ∷ 68 ∷ 114 ∷ 46 ∷ 32
    ∷ 67 ∷ 104 ∷ 97 ∷ 110 ∷ 100 ∷ 114 ∷ 97 ∷ 46 ∷ 32 ∷ 84 ∷ 104 ∷ 105 ∷ 115 ∷ 32 ∷ 105 ∷ 115 ∷ 32
    ∷ 72 ∷ 97 ∷ 108 ∷ 46 ∷ 32 ∷ 73 ∷ 32 ∷ 97 ∷ 109 ∷ 32 ∷ 114 ∷ 101 ∷ 97 ∷ 100 ∷ 121 ∷ 32 ∷ 102
    ∷ 111 ∷ 114 ∷ 32 ∷ 109 ∷ 121 ∷ 32 ∷ 102 ∷ 105 ∷ 114 ∷ 115 ∷ 116 ∷ 32 ∷ 108 ∷ 101 ∷ 115 ∷ 115
    ∷ 111 ∷ 110 ∷ 46 ∷ []

abbrev copies : ℕ → List ℕ
copies zero = []
copies (suc n) = sentence ++ copies n

unfoldable pub s_p_str : List ℕ
s_p_str = copies 7

-- "miniz.c version: "
abbrev pub version_text : List ℕ
version_text =
    109 ∷ 105 ∷ 110 ∷ 105 ∷ 122 ∷ 46 ∷ 99 ∷ 32 ∷ 118 ∷ 101 ∷ 114 ∷ 115 ∷ 105 ∷ 111 ∷ 110 ∷ 58 ∷ 32
    ∷ []

-- "Out of memory!\n"
abbrev pub out_of_memory : List ℕ
out_of_memory =
    79 ∷ 117 ∷ 116 ∷ 32 ∷ 111 ∷ 102 ∷ 32 ∷ 109 ∷ 101 ∷ 109 ∷ 111 ∷ 114 ∷ 121 ∷ 33 ∷ 10 ∷ []

-- "compress() failed!\n"
abbrev pub compress_failed : List ℕ
compress_failed =
    99 ∷ 111 ∷ 109 ∷ 112 ∷ 114 ∷ 101 ∷ 115 ∷ 115 ∷ 40 ∷ 41 ∷ 32 ∷ 102 ∷ 97 ∷ 105 ∷ 108 ∷ 101 ∷ 100
    ∷ 33 ∷ 10 ∷ []

-- "uncompress failed!\n"
abbrev pub uncompress_failed : List ℕ
uncompress_failed =
    117 ∷ 110 ∷ 99 ∷ 111 ∷ 109 ∷ 112 ∷ 114 ∷ 101 ∷ 115 ∷ 115 ∷ 32 ∷ 102 ∷ 97 ∷ 105 ∷ 108 ∷ 101 ∷ 100
    ∷ 33 ∷ 10 ∷ []

-- "Decompression failed!\n"
abbrev pub decompression_failed : List ℕ
decompression_failed =
    68 ∷ 101 ∷ 99 ∷ 111 ∷ 109 ∷ 112 ∷ 114 ∷ 101 ∷ 115 ∷ 115 ∷ 105 ∷ 111 ∷ 110 ∷ 32 ∷ 102 ∷ 97 ∷ 105
    ∷ 108 ∷ 101 ∷ 100 ∷ 33 ∷ 10 ∷ []

-- "Compressed from "
abbrev pub compressed_from : List ℕ
compressed_from =
    67 ∷ 111 ∷ 109 ∷ 112 ∷ 114 ∷ 101 ∷ 115 ∷ 115 ∷ 101 ∷ 100 ∷ 32 ∷ 102 ∷ 114 ∷ 111 ∷ 109 ∷ 32 ∷ []

-- "Decompressed from "
abbrev pub decompressed_from : List ℕ
decompressed_from =
    68 ∷ 101 ∷ 99 ∷ 111 ∷ 109 ∷ 112 ∷ 114 ∷ 101 ∷ 115 ∷ 115 ∷ 101 ∷ 100 ∷ 32 ∷ 102 ∷ 114 ∷ 111 ∷ 109
    ∷ 32 ∷ []

-- " to "
abbrev pub to_text : List ℕ
to_text = 32 ∷ 116 ∷ 111 ∷ 32 ∷ []

-- " bytes\n"
abbrev pub bytes_text : List ℕ
bytes_text = 32 ∷ 98 ∷ 121 ∷ 116 ∷ 101 ∷ 115 ∷ 10 ∷ []

-- "Success.\n"
abbrev pub success : List ℕ
success = 83 ∷ 117 ∷ 99 ∷ 99 ∷ 101 ∷ 115 ∷ 115 ∷ 46 ∷ 10 ∷ []

unfoldable pub greeting : Miniz → List ℕ
greeting mz = version_text ++ (mz.mz_version ++ newline)

-- "<what> src to dst bytes"
unfoldable pub sizes : List ℕ → ℕ → ℕ → Option (List ℕ)
unfolding print_udecimal ◌>>=◌
sizes what src dst = do
  from ← print_udecimal (u32 src)
  into ← print_udecimal (u32 dst)
  some (what ++ (from ++ (to_text ++ (into ++ bytes_text))))

-- `memcmp(buffer, text, length of text)` is 0; `i` bytes of the buffer are past.
unfoldable pub same_bytes : (ℕ → ℕ) → ℕ → List ℕ → Bool
same_bytes buffer i [] = true
same_bytes buffer i (c ∷ text) =
    let rest = same_bytes buffer (suc i) text in (buffer i == c) && rest

module _ (mz : Miniz) (p_cmp p_uncomp : ℕ) where
  abbrev pub cmp_len : ℕ
  cmp_len = u32 (mz.compress_bound (length s_p_str))

  abbrev pub compressed : Written
  compressed = mz.compress s_p_str cmp_len

  abbrev pub allocated : Bool
  allocated = not (p_cmp == 0 || p_uncomp == 0)

  -- `main` ends with this status and last message, when `freed` is freed and `before` is written.
  abbrev pub ends : ℕ → List ℕ → List ℕ → Ended
  ends status before freed = record {
    status = status;
    output = greeting mz ++ before;
    freed = freed;
  }

  abbrev pub blocks : List ℕ
  blocks = p_cmp ∷ p_uncomp ∷ []

  -- `main` of compress.c
  unfoldable pub compress_main : Option Ended
  unfolding ◌>>=◌
  compress_main =
      if not allocated
      then some (ends 1 out_of_memory [])
      else if not (compressed.status == 0)
      then some (ends 1 compress_failed blocks)
      else do
        text ← sizes compressed_from (length s_p_str) compressed.stored_len
        some (ends 0 (text ++ success) blocks)

  abbrev pub uncompressed : Written
  uncompressed = mz.uncompress compressed.bytes compressed.stored_len (length s_p_str)

  -- The last test of deflate.c, and the texts after it.
  unfoldable pub compare_result : Bool
  compare_result =
      (uncompressed.stored_len == length s_p_str) && same_bytes uncompressed.bytes 0 s_p_str

  unfoldable pub after_sizes : List ℕ → Ended
  after_sizes text =
      if not compare_result
      then ends 1 (text ++ decompression_failed) blocks
      else ends 0 (text ++ success) blocks

  -- `main` of deflate.c from the second call of miniz on, and as a whole.
  unfoldable pub decompress : Option Ended
  unfolding ◌>>=◌
  decompress = if not (uncompressed.status == 0) then some (ends 1 uncompress_failed blocks) else do
    text ← sizes decompressed_from compressed.stored_len uncompressed.stored_len
    some (after_sizes text)

  unfoldable pub deflate_main : Option Ended
  deflate_main =
      if not allocated
      then some (ends 1 out_of_memory [])
      else if not (compressed.status == 0)
      then some (ends 1 compress_failed blocks)
      else decompress
