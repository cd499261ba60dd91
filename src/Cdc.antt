-- ===== src/Cdc.antt =====
-- internal/chunker/cdc.go: chunks whose ends are found in the content (FastCDC). The gear table is
-- a parameter. A test against a mask of n low bits is a division by 2 ^ n; a mask of 64 bits or
-- more is that of 64. The pool of scratch buffers is left out.
pub mod Cutpoint
pub mod Reading
mod Examples
use kvfs.Base.{
  ℕ, zero, suc, ◌+◌, ◌-◌, ◌*◌, ◌/◌, ◌%◌, ◌^◌, min, Bool, true, false, Option, none, some, List, [],
  ◌∷◌, ◌++◌, if◌then◌else◌, length, take, drop, ltb, leb, ◌==◌, ◌||◌, ◌&&◌,
}
use kvfs.Base.Text.{Bytes, is_empty}
use kvfs.Base.Int.{ℤ, pos, negsuc}
use kvfs.Chunker.{Chunk, Source, Next, piece, eof, read_failed, chunk_of, and_then}

pub record CdcConfig : Type 0 where
  pub min_size : ℤ
  pub normal_size : ℤ
  pub max_size : ℤ
  pub mask_bits_strict : ℤ
  pub mask_bits_loose : ℤ
  pub mask_bits_relax : ℤ

abbrev pub default_cdc_config : CdcConfig
default_cdc_config = record {
  min_size = pos (1 * 1024 * 1024);
  normal_size = pos (4 * 1024 * 1024);
  max_size = pos (16 * 1024 * 1024);
  mask_bits_strict = pos 22;
  mask_bits_loose = pos 20;
  mask_bits_relax = pos 0;
}

-- The configuration of a reader, of natural numbers; the masks by their numbers of bits.
pub record Params : Type 0 where
  pub min_size : ℕ
  pub normal_size : ℕ
  pub max_size : ℕ
  pub bits_strict : ℕ
  pub bits_loose : ℕ
  pub bits_relax : ℕ

-- A number that is not positive is 0.
abbrev positive : ℤ → ℕ
positive (pos n) = n
positive (negsuc n) = 0

unfoldable pub is_usable : CdcConfig → Bool
is_usable cfg =
    ltb 0 (positive cfg.min_size)
    && leb (positive cfg.min_size) (positive cfg.normal_size)
    && leb (positive cfg.normal_size) (positive cfg.max_size)

unfoldable pub params_from : CdcConfig → Params
params_from cfg = record {
  min_size = positive cfg.min_size;
  normal_size = positive cfg.normal_size;
  max_size = positive cfg.max_size;
  bits_strict = if positive cfg.mask_bits_strict == 0 then 22 else positive cfg.mask_bits_strict;
  bits_loose = if positive cfg.mask_bits_loose == 0 then 20 else positive cfg.mask_bits_loose;
  bits_relax = positive cfg.mask_bits_relax;
}

-- The checks of NewCDCReader.
unfoldable pub params_of : CdcConfig → Params
params_of cfg = if is_usable cfg then params_from cfg else params_from default_cdc_config

pub record CdcReader : Type 0 where
  pub src : Source
  pub cfg : Params
  pub buf : Bytes
  pub done : Bool

unfoldable pub new_cdc_reader : Source → CdcConfig → CdcReader
new_cdc_reader src cfg = record { src = src; cfg = params_of cfg; buf = []; done = false }

unfoldable pub close : CdcReader → CdcReader
close c = record c { buf = []; done = true }

-- What a phase of the scan ends with: a cut, or the fingerprint and the bytes that are left.
pub data Scan : Type 0 where
  cut : ℕ → Scan
  passed : ℕ → Bytes → Scan

-- fp & mask == 0 for a mask of the low bits
unfoldable pub low_bits_zero : ℕ → ℕ → Bool
low_bits_zero bits fp = fp % 2 ^ min bits 64 == 0

module _ (gear : ℕ → ℕ) where
  unfoldable pub roll : ℕ → ℕ → ℕ
  roll fp b = (fp * 2 + gear b) % 2 ^ 64

  -- Phase 1, over the first bytes.
  unfoldable pub warm : ℕ → ℕ → Bytes → Scan
  warm fp zero rest = passed fp rest
  warm fp (suc k) [] = passed fp []
  warm fp (suc k) (b ∷ rest) = warm (roll fp b) k rest

  -- A phase with a mask of some bits, from the offset i to a stop.
  unfoldable pub scan : ℕ → ℕ → ℕ → ℕ → Bytes → Scan
  scan bits stop i fp [] = passed fp []
  scan bits stop i fp (b ∷ rest) =
      let later = scan bits stop (suc i) (roll fp b) rest in
      if ltb i stop
      then (if low_bits_zero bits (roll fp b) then cut (suc i) else later)
      else passed fp (b ∷ rest)

  -- The next phase, if the one before found no cut.
  unfoldable pub then_scan : ℕ → ℕ → ℕ → Scan → Scan
  then_scan bits i stop (cut n) = cut n
  then_scan bits i stop (passed fp rest) = scan bits stop i fp rest

  unfoldable pub cut_or : ℕ → Scan → ℕ
  cut_or limit (cut n) = n
  cut_or limit (passed fp rest) = limit

  -- The start of phase 4, for sizes whose sum does not overflow.
  unfoldable pub relax_start : Params → ℕ → ℕ → ℕ
  relax_start cfg normal limit =
      let middle = (cfg.normal_size + cfg.max_size) / 2 in
      let low = if ltb limit middle then limit else middle in
      if cfg.bits_relax == 0 then limit else if ltb low normal then normal else low

  unfoldable pub cutpoint : Params → Bytes → ℕ
  cutpoint cfg body =
      let limit = if ltb cfg.max_size (length body) then cfg.max_size else length body in
      let normal = if ltb limit cfg.normal_size then limit else cfg.normal_size in
      let relax = relax_start cfg normal limit in
      if leb (length body) cfg.min_size
      then length body
      else cut_or limit (
          then_scan cfg.bits_relax relax limit (
            then_scan cfg.bits_loose normal relax
              (then_scan cfg.bits_strict cfg.min_size normal (warm 0 cfg.min_size body))))

-- fillBuf; a Read gives at least one byte or an error. The second part is its error.
unfoldable pub fill_buf : CdcReader → CdcReader × Next
fill_buf c =
    let room = c.cfg.max_size - length c.buf in
    if c.done || leb c.cfg.max_size (length c.buf)
    then (c, eof)
    else if ltb (length c.src.rest) room
    then elim c.src.fault [
      | none ↦ (
        record c { buf = c.buf ++ c.src.rest; src = record c.src { rest = [] }; done = true },
        eof,
      )
      | some e ↦
          (record c { buf = c.buf ++ c.src.rest; src = record c.src { rest = [] } }, read_failed e)
    ]
    else (
      record c {
        buf = c.buf ++ take room c.src.rest;
        src = record c.src { rest = drop room c.src.rest };
      },
      eof,
    )

module _ (gear : ℕ → ℕ) (sha256_hex : Bytes → Bytes) where
  -- The end of Next, with the error of fillBuf for an empty buffer.
  unfoldable pub emit : CdcReader × Next → CdcReader × Next
  emit (c, err) =
      let n = cutpoint gear c.cfg c.buf in
      if is_empty c.buf
      then (c, err)
      else (record c { buf = drop n c.buf }, piece (chunk_of sha256_hex (take n c.buf)))

  unfoldable pub next : CdcReader → CdcReader × Next
  next c = emit (fill_buf c)

  unfoldable pub read_all : ℕ → CdcReader → Option (List Chunk)
  read_all zero c = none
  read_all (suc fuel) c = and_then (next c).1 (read_all fuel (next c).0)
