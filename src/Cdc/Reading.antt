-- ===== src/Cdc/Reading.antt =====
-- Reading a body to its end with the CDCReader of cdc.go.
use kvfs.Base.{
  append_nil, append_assoc, ℕ, zero, suc, ◌-◌, ◌≤◌, ◌<◌, min, true, false, none, some, List, [],
  ◌∷◌, ◌++◌, ◌≡◌, ◌≢◌, ◌⊎◌, inl, inr, refl, sym, ◌∙◌, ap, ◌||◌, length, take, drop, ltb, leb, arith,
  Bool-cases, subst, All, length-append, length-take, take-append-drop,
}
use kvfs.Base.Text.{Bytes, is_empty→eq, is_empty}
use kvfs.Chunker.{Chunk, Next, piece, eof, chunk_of, and_then}
use kvfs.Chunker.Splits.{bodies}
use kvfs.Cdc.{
  Params, CdcConfig, CdcReader, params_of, new_cdc_reader, cutpoint, fill_buf, emit, next, read_all,
}
use kvfs.Cdc.Cutpoint.{IsUsable, params_of-IsUsable, cutpoint-le}

-- What a reader has still to give.
abbrev content : CdcReader → Bytes
content c = c.buf ++ c.src.rest

-- A reader of a source without a fault: where it has seen the end, the source is empty.
record IsReading (c : CdcReader) : Type 0 where
  usable : IsUsable c.cfg
  no_fault : c.src.fault ≡ none
  drained : c.done ≡ true → c.src.rest ≡ []

-- What a filled buffer is: empty only at the end.
record IsFilled (c : CdcReader) (r : CdcReader × Next) : Type 0 where
  same : content r.0 ≡ content c
  reading : IsReading r.0
  same_cfg : r.0.cfg ≡ c.cfg
  ended : r.0.buf ≡ [] → (content c ≡ []) × (r.1 ≡ eof)

length-pos : (xs : Bytes) → is_empty xs ≡ false → 0 < length xs
unfolding is_empty
length-pos [] h = absurd (cc h)
length-pos (x ∷ xs) h = omega arith

length-ne_nil : (xs : Bytes) → 0 < length xs → xs ≢ []
length-ne_nil [] h e = omega (arith, h)
length-ne_nil (x ∷ xs) h e = cc e

-- The cases of fillBuf: nothing to read, the end of the source, a full buffer.
at_end : CdcReader → CdcReader
at_end c = record c { buf = c.buf ++ c.src.rest; src = record c.src { rest = [] }; done = true }

topped_up : CdcReader → CdcReader
topped_up c = record c {
  buf = c.buf ++ take (c.cfg.max_size - length c.buf) c.src.rest;
  src = record c.src { rest = drop (c.cfg.max_size - length c.buf) c.src.rest };
}

fill_buf-cases :
    (c : CdcReader) (P : CdcReader × Next → Type 0)
    → c.src.fault ≡ none
    → ((c.done || leb c.cfg.max_size (length c.buf)) ≡ true → P (c, eof))
    → (c.done ≡ false → P (at_end c, eof))
    → (c.done ≡ false
        → length c.buf < c.cfg.max_size
        → (c.cfg.max_size - length c.buf) ≤ length c.src.rest
        → P (topped_up c, eof))
    → P (fill_buf c)
unfolding fill_buf at_end topped_up
fill_buf-cases c P no_fault idle ends tops =
    elim (Bool-cases (c.done || leb c.cfg.max_size (length c.buf))) [
      | inl e ↦ rw e (idle e)
      | inr e ↦ elim (Bool-cases (ltb (length c.src.rest) (c.cfg.max_size - length c.buf))) [
        | inl f ↦ rw (e, f, no_fault) (ends (ground (arith, e)))
        | inr f ↦ rw (e, f) (tops (ground (arith, e)) (ground (arith, e)) (ground (arith, f)))
      ]
    ]

fill_buf-IsFilled : (c : CdcReader) → IsReading c → IsFilled c (fill_buf c)
unfolding at_end topped_up
fill_buf-IsFilled c w =
    fill_buf-cases c (IsFilled c) w.no_fault
      (λ e. record {
        same = refl;
        reading = w;
        same_cfg = refl;
        ended = λ z. (nothing_left e z, refl);
      })
      (λ e. record {
        same = append_nil (c.buf ++ c.src.rest);
        reading = record { usable = w.usable; no_fault = w.no_fault; drained = λ d. refl };
        same_cfg = refl;
        ended = λ z. (z, refl);
      })
      (λ e room more. record {
        same =
            append_assoc c.buf (take (c.cfg.max_size - length c.buf) c.src.rest)
              (drop (c.cfg.max_size - length c.buf) c.src.rest)
            ∙ ap (λ l. c.buf ++ l) (take-append-drop (c.cfg.max_size - length c.buf) c.src.rest);
        reading = record {
          usable = w.usable;
          no_fault = w.no_fault;
          drained = λ d. absurd (cc (d, e));
        };
        same_cfg = refl;
        ended = λ z. absurd (not_empty room more z);
      })
  where
    nothing_left :
        (c.done || leb c.cfg.max_size (length c.buf)) ≡ true → c.buf ≡ [] → content c ≡ []
    nothing_left e z =
        let done : c.done ≡ true =
          ground (
            arith,
            e,
            ap length z,
            w.usable.some_bytes,
            w.usable.min_normal,
            w.usable.normal_max,
          ) in
        rw (z, w.drained done) refl

    not_empty :
        length c.buf < c.cfg.max_size
        → (c.cfg.max_size - length c.buf) ≤ length c.src.rest
        → (c.buf ++ take (c.cfg.max_size - length c.buf) c.src.rest) ≢ []
    not_empty room more z =
        let sizes = ap length z in
        omega (
          arith,
          room,
          more,
          sym (length-append c.buf (take (c.cfg.max_size - length c.buf) c.src.rest)) ∙ sizes,
          length-take (c.cfg.max_size - length c.buf) c.src.rest,
        )

module _ (gear : ℕ → ℕ) (sha256_hex : Bytes → Bytes) where
  -- The end of a call: the end of the content, or its first piece.
  abbrev Emitted : CdcReader → CdcReader × Next → Type 0
  Emitted c r =
      ((content c ≡ []) × (r.1 ≡ eof))
      ⊎ ((body : Bytes) × (r.1 ≡ piece (chunk_of sha256_hex body))
          × IsReading r.0
          × (r.0.cfg ≡ c.cfg)
          × (body ++ content r.0 ≡ content c)
          × (0 < length body)
          × (length body ≤ c.cfg.max_size))

  emit-Emitted :
      (c : CdcReader) (r : CdcReader × Next) → IsFilled c r → Emitted c (emit gear sha256_hex r)
  unfolding emit
  emit-Emitted c (d, err) filled = elim (Bool-cases (is_empty d.buf)) [
    | inl e ↦ rw e (inl (filled.ended (is_empty→eq d.buf e)))
    | inr e ↦
        let n = cutpoint gear d.cfg d.buf in
        let (low, high) = cutpoint-le gear d.cfg d.buf filled.reading.usable in
        rw e (
          inr (
            take n d.buf,
            refl,
            record {
              usable = filled.reading.usable;
              no_fault = filled.reading.no_fault;
              drained = filled.reading.drained;
            },
            filled.same_cfg,
            sym (append_assoc (take n d.buf) (drop n d.buf) d.src.rest)
                ∙ ap (λ l. l ++ d.src.rest) (take-append-drop n d.buf)
                ∙ filled.same,
            rw (length-take n d.buf) (some_taken e low),
            rw (length-take n d.buf) (few_taken high),
          ))
  ]
    where
      some_taken :
          is_empty d.buf ≡ false
          → min d.cfg.min_size (length d.buf) ≤ cutpoint gear d.cfg d.buf
          → 0 < min (cutpoint gear d.cfg d.buf) (length d.buf)
      some_taken e low = ground (arith, low, length-pos d.buf e, filled.reading.usable.some_bytes)

      few_taken :
          cutpoint gear d.cfg d.buf ≤ min d.cfg.max_size (length d.buf)
          → min (cutpoint gear d.cfg d.buf) (length d.buf) ≤ c.cfg.max_size
      few_taken high = ground (arith, high, ap (λ (p : Params). p.max_size) filled.same_cfg)

  next-Emitted : (c : CdcReader) → IsReading c → Emitted c (next gear sha256_hex c)
  unfolding next
  next-Emitted c w = emit-Emitted c (fill_buf c) (fill_buf-IsFilled c w)

  -- A chunk that a reader gives: named after its bytes, not empty, not too long.
  abbrev pub IsPiece : ℕ → Chunk → Type 0
  IsPiece max_size ch =
      (ch ≡ chunk_of sha256_hex ch.body) × (0 < length ch.body) × (length ch.body ≤ max_size)

  read_all-content :
      (fuel : ℕ) (c : CdcReader)
      → IsReading c
      → length (content c) < fuel
      → (cs : List Chunk) × (read_all gear sha256_hex fuel c ≡ some cs)
        × (bodies cs ≡ content c)
        × All (IsPiece c.cfg.max_size) cs
  unfolding read_all and_then chunk_of
  read_all-content zero c w h = absurd (omega (arith, h))
  read_all-content (suc fuel) c w h = elim (next-Emitted c w) [
    | inl (z, e) ↦ ([], rw e refl, sym z, tt)
    | inr (body, e, w', cfg, split, at_least, few) ↦
        let (cs, r, whole, all) = read_all-content fuel (next gear sha256_hex c).0 w' (
          omega (
            arith,
            h,
            at_least,
            ap length split,
            length-append body (content (next gear sha256_hex c).0),
          )) in
        (
          chunk_of sha256_hex body ∷ cs,
          rw (e, r) refl,
          ap (λ l. body ++ l) whole ∙ split,
          ((refl, at_least, few), subst (λ (p : Params). All (IsPiece p.max_size) cs) cfg all),
        )
  ]

  -- Reading a body to its end gives chunks that join to the body, each named by the SHA-256 of its
  -- bytes, not empty and at most of the maximal size, whatever the configuration: one round more
  -- than the body has bytes is enough.
  pub read_all-bodies :
      (body : Bytes) (cfg : CdcConfig)
      → (cs : List Chunk) × (read_all gear sha256_hex
            (suc (length body))
            (new_cdc_reader (record { rest = body; fault = none }) cfg)
          ≡ some cs)
        × (bodies cs ≡ body)
        × All (IsPiece (params_of cfg).max_size) cs
  unfolding new_cdc_reader
  read_all-bodies body cfg =
      read_all-content (suc (length body))
        (record {
          src = record { rest = body; fault = none };
          cfg = params_of cfg;
          buf = [];
          done = false;
        })
        (record { usable = params_of-IsUsable cfg; no_fault = refl; drained = λ d. absurd (cc d) })
        (omega arith)
