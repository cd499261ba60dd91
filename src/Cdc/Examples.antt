-- ===== src/Cdc/Examples.antt =====
-- The theorems on cdc.go at concrete inputs: chunks of two to four bytes.
use kvfs.Base.{ℕ, ◌≤◌, min, none, some, List, [], ◌∷◌, ◌≡◌, All}
use kvfs.Base.Text.{Bytes}
use kvfs.Base.Int.{pos}
use kvfs.Chunker.{Chunk}
use kvfs.Chunker.Splits.{bodies}
use kvfs.Cdc.{CdcConfig, params_of, new_cdc_reader, cutpoint, read_all}
use kvfs.Cdc.Cutpoint.{params_of-IsUsable, cutpoint-le}
use kvfs.Cdc.Reading.{IsPiece, read_all-bodies}

-- The byte is its own contribution, and the hash is its input.
abbrev toy_gear : ℕ → ℕ
toy_gear b = b

abbrev toy_hash : Bytes → Bytes
toy_hash s = s

abbrev text : Bytes
text = b'k' ∷ b'v' ∷ b'f' ∷ b's' ∷ b'!' ∷ []

abbrev small : CdcConfig
small = record {
  min_size = pos 2;
  normal_size = pos 3;
  max_size = pos 4;
  mask_bits_strict = pos 2;
  mask_bits_loose = pos 1;
  mask_bits_relax = pos 0;
}

cutpoint-le_example :
    (min (params_of small).min_size 5 ≤ cutpoint toy_gear (params_of small) text)
    × (cutpoint toy_gear (params_of small) text ≤ min (params_of small).max_size 5)
cutpoint-le_example = cutpoint-le toy_gear (params_of small) text (params_of-IsUsable small)

read_all-bodies_example :
    (cs : List Chunk) × (read_all toy_gear toy_hash 6
        (new_cdc_reader (record { rest = text; fault = none }) small)
      ≡ some cs)
    × (bodies cs ≡ text)
    × All (IsPiece toy_gear toy_hash (params_of small).max_size) cs
read_all-bodies_example = read_all-bodies toy_gear toy_hash text small
