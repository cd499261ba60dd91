-- ===== src/Chunker/Examples.antt =====
-- The theorems on the chunker at a concrete body: three bytes in chunks of two.
use kvfs.Base.{none, some, List, [], ◌∷◌, map, ◌≡◌, ◌↔◌, refl, length, arith}
use kvfs.Base.Text.{Bytes}
use kvfs.Base.Int.{pos}
use kvfs.Base.Call.{Call, ok}
use kvfs.Chunker.{Chunk, joined, join, split, split_from, slice, new_reader, read_all}
use kvfs.Chunker.Splits.{bodies, IsCut, split-IsCut, read_all-split, split-total_lem}
use kvfs.Chunker.Joining.{spec_of, Fetched, concat, join-joined_iff, join-split}

-- A hash that is its input.
abbrev toy_hash : Bytes → Bytes
toy_hash s = s

abbrev abc : Bytes
abc = b'a' ∷ b'b' ∷ b'c' ∷ []

abbrev chunks : List Chunk
chunks =
    record { body = b'a' ∷ b'b' ∷ []; id = b'a' ∷ b'b' ∷ []; size = pos 2 }
    ∷ record { body = b'c' ∷ []; id = b'c' ∷ []; size = pos 1 }
    ∷ []

chunks_of_abc : split toy_hash abc (pos 2) ≡ some chunks
unfolding split split_from slice
chunks_of_abc = refl

-- A store that gives each identifier as the body.
abbrev fetch : Bytes → Call Bytes
fetch id = ok id

split-IsCut_example : (bodies chunks ≡ abc) × IsCut toy_hash 2 chunks
split-IsCut_example = split-IsCut toy_hash abc 1 chunks chunks_of_abc

read_all-split_example :
    read_all toy_hash 5 (new_reader (record { rest = abc; fault = none }) (pos 2)) ≡ some chunks
read_all-split_example = read_all-split toy_hash abc 1 chunks chunks_of_abc

split-total_lem_example : (cs : List Chunk) × (split toy_hash abc (pos 2) ≡ some cs)
split-total_lem_example = split-total_lem toy_hash abc 1 (omega arith)

join-joined_iff_example : (join toy_hash (map spec_of chunks) (pos 3) fetch ≡ joined abc) ↔ (
    (fetched : List Bytes) × Fetched toy_hash fetch (map spec_of chunks) fetched
    × (abc ≡ concat toy_hash fetch fetched)
    × (pos (length abc) ≡ pos 3))
join-joined_iff_example = join-joined_iff toy_hash fetch (map spec_of chunks) (pos 3) abc

join-split_example : join toy_hash (map spec_of chunks) (pos 3) fetch ≡ joined abc
join-split_example = join-split toy_hash fetch abc 1 chunks chunks_of_abc (refl, (refl, tt))
