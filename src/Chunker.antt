-- ===== src/Chunker.antt =====
-- internal/chunker/chunker.go and the Reader of internal/chunker/stream.go: an object cut into
-- chunks of one size, and joined again. SHA-256 in hexadecimal is a parameter. A body is shorter
-- than 2 ^ 62 bytes, so that offsets do not overflow. The pool of scratch buffers is left out.
pub mod Cuts
pub mod Splits
pub mod Joining
mod Examples
use kvfs.Base.{
  ℕ, zero, suc, ◌+◌, ◌-◌, ◌*◌, ◌/◌, ◌^◌, min, Bool, true, false, Option, none, some, List, [], ◌∷◌,
  ◌++◌, if◌then◌else◌, length, take, drop, ltb, ◌||◌,
}
use kvfs.Base.Text.{Bytes, beq}
use kvfs.Base.Int.{ℤ, pos, negsuc, ltb_ℤ, wrap}
use kvfs.Base.Call.{Call, ok, failed}

-- Also the StreamPiece of stream.go.
pub record Chunk : Type 0 where
  pub body : Bytes
  pub id : Bytes
  pub size : ℤ

pub record JoinSpec : Type 0 where
  pub chunk_id : Bytes
  pub size : ℤ

abbrev default_chunk_size : ℕ
default_chunk_size = 4 * 1024 * 1024

-- body[off:end]
unfoldable pub slice : ℕ → ℕ → Bytes → Bytes
slice off end body = take (end - off) (drop off body)

-- The quotient of an int, rounded to zero, by a positive one is negative: make panics.
abbrev has_negative_quotient : ℤ → ℕ → Bool
has_negative_quotient (pos n) d = false
has_negative_quotient (negsuc n) d = ltb 0 (suc n / d)

-- What is wrong with a chunk that Join has fetched, or with the whole.
pub data JoinError : Type 0 where
  fetch_failed : Bytes → JoinError
  integrity wrong_size joined_size : JoinError

pub data Joined : Type 0 where
  joined : Bytes → Joined
  refused : JoinError → Joined

-- What is left of an io.Reader, and the error after it, where it is not the end.
pub record Source : Type 0 where
  pub rest : Bytes
  pub fault : Option Bytes

-- The reader; its scratch buffer has chunk_size bytes until it is closed.
pub record Reader : Type 0 where
  pub src : Source
  pub chunk_size : ℕ
  pub done : Bool

pub data Next : Type 0 where
  piece : Chunk → Next
  eof : Next
  read_failed : Bytes → Next

unfoldable pub new_reader : Source → ℤ → Reader
new_reader src chunk_size = record {
  src = src;
  chunk_size = elim chunk_size [
    | pos zero ↦ default_chunk_size
    | pos (suc n) ↦ suc n
    | negsuc n ↦ default_chunk_size
  ];
  done = false;
}

unfoldable pub close : Reader → Reader
close r = record r { done = true }

-- What a caller has after a call of Next and, if that gives a piece, the calls after it.
unfoldable pub and_then : Next → Option (List Chunk) → Option (List Chunk)
and_then (piece c) none = none
and_then (piece c) (some cs) = some (c ∷ cs)
and_then eof rest = some []
and_then (read_failed e) rest = none

module _ (sha256_hex : Bytes → Bytes) where
  -- The chunk of some bytes, as Split and newStreamPiece make it.
  unfoldable pub chunk_of : Bytes → Chunk
  chunk_of body = record { body = body; id = sha256_hex body; size = pos (length body) }

  -- The loop of Split from an offset on; fuel bounds its rounds.
  unfoldable pub split_from : ℕ → Bytes → ℕ → ℕ → List Chunk
  split_from zero body chunk_size off = []
  split_from (suc fuel) body chunk_size off =
      let rest = split_from fuel body chunk_size (off + chunk_size) in
      let end = if ltb (length body) (off + chunk_size) then length body else off + chunk_size in
      if ltb off (length body)
      then record {
        body = slice off end body;
        id = sha256_hex (slice off end body);
        size = pos (end - off);
      }
        ∷ rest
      else []

  -- Split; none is a panic.
  unfoldable pub split : Bytes → ℤ → Option (List Chunk)
  split body (negsuc n) = none
  split body (pos zero) = none
  split [] (pos (suc n)) = some []
  split (b ∷ body) (pos (suc n)) =
      if has_negative_quotient (wrap (pos (length (b ∷ body) + n))) (suc n)
      then none
      else some (split_from (length (b ∷ body)) (b ∷ body) (suc n) 0)

  -- The loop of Join, with what it has so far.
  unfoldable pub join_from : (Bytes → Call Bytes) → List JoinSpec → Bytes → Joined
  join_from fetch [] out = joined out
  join_from fetch (s ∷ specs) out = elim (fetch s.chunk_id) [
    | failed e ↦ refused (fetch_failed e)
    | ok body ↦
        let rest = join_from fetch specs (out ++ body) in
        if beq (sha256_hex body) s.chunk_id
        then (if ltb_ℤ (pos (length body)) s.size || ltb_ℤ s.size (pos (length body))
            then refused wrong_size
            else rest)
        else refused integrity
  ]

  check_size : ℤ → Joined → Joined
  check_size total (refused e) = refused e
  check_size total (joined out) =
      if ltb_ℤ (pos (length out)) total || ltb_ℤ total (pos (length out))
      then refused joined_size
      else joined out

  -- Join. A negative total, for which the program's make panics, is refused here.
  unfoldable pub join : List JoinSpec → ℤ → (Bytes → Call Bytes) → Joined
  unfolding check_size
  join specs total fetch = check_size total (join_from fetch specs [])

  -- Reader.Next. io.ReadFull fills the buffer, or takes what is left with the reason.
  unfoldable pub next : Reader → Reader × Next
  next r =
      if r.done
      then (r, eof)
      else if ltb (length r.src.rest) r.chunk_size
      then short_read r.src.fault
      else (
        record r { src = record r.src { rest = drop r.chunk_size r.src.rest } },
        piece (chunk_of (take r.chunk_size r.src.rest)),
      )
    where
      short_read : Option Bytes → Reader × Next
      short_read (some e) = (record r { src = record r.src { rest = [] } }, read_failed e)
      short_read none = (
        record r { src = record r.src { rest = [] }; done = true },
        elim r.src.rest [ [] ↦ eof | b ∷ rest ↦ piece (chunk_of (b ∷ rest)) ],
      )

  -- A caller's loop until the end: the pieces, if no read fails.
  unfoldable pub read_all : ℕ → Reader → Option (List Chunk)
  unfolding and_then
  read_all zero r = none
  read_all (suc fuel) r = and_then (next r).1 (read_all fuel (next r).0)
