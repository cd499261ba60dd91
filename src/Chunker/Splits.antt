-- ===== src/Chunker/Splits.antt =====
-- What Split of the chunker returns, and that Reader returns the same.
use kvfs.Base.{
  ℕ, zero, suc, ◌+◌, ◌≤◌, ◌<◌, ◌^◌, Bool, true, false, none, some, List, [], ◌∷◌, ◌++◌, ◌≡◌, ◌⊎◌,
  inl, inr, refl, sym, ◌∙◌, ap, if◌then◌else◌, length, take, drop, ltb, arith, Bool-cases,
  length-take, length-drop, take-append-drop,
}
use kvfs.Base.Text.{Bytes}
use kvfs.Base.Int.{wrap_small, pos, wrap}
use kvfs.Chunker.{Chunk, chunk_of, split_from, split, new_reader, read_all, has_negative_quotient}
use kvfs.Chunker.Cuts.{pieces, pieces_nil, drop_all, split_from-pieces, read_all-pieces}

-- The bytes of the chunks, in order.
abbrev pub bodies : List Chunk → Bytes
bodies [] = []
bodies (c ∷ cs) = c.body ++ bodies cs

some-injective : {A : Type 0} {x y : A} → some x ≡ some y → x ≡ y
some-injective h = cc h

module _ (sha256_hex : Bytes → Bytes) where
  -- Each chunk is named after its bytes and is not empty; all but the last have n bytes, and the
  -- last has no more.
  abbrev pub IsCut : ℕ → List Chunk → Type 0
  IsCut n [] = Unit
  IsCut n (c ∷ cs) =
      (c ≡ chunk_of sha256_hex c.body)
      × (0 < length c.body)
      × (length c.body ≤ n)
      × ((cs ≡ []) ⊎ (length c.body ≡ n))
      × IsCut n cs

  length-drop_lt :
      (fuel n : ℕ) (rest : Bytes) (b : ℕ)
      → length (b ∷ rest) ≤ suc fuel
      → length (drop (suc n) (b ∷ rest)) ≤ fuel
  length-drop_lt fuel n rest b h = rw (length-drop (suc n) (b ∷ rest)) (omega (arith, h))

  pieces-fuel_suc :
      (fuel n : ℕ) (rest : Bytes)
      → length rest ≤ fuel
      → pieces sha256_hex (suc fuel) (suc n) rest ≡ pieces sha256_hex fuel (suc n) rest
  pieces-fuel_suc fuel n [] h = sym (pieces_nil sha256_hex fuel (suc n))
  pieces-fuel_suc zero n (b ∷ rest) h = absurd (omega (arith, h))
  pieces-fuel_suc (suc fuel) n (b ∷ rest) h =
      ap (λ cs. chunk_of sha256_hex (take (suc n) (b ∷ rest)) ∷ cs)
        (pieces-fuel_suc fuel n (drop (suc n) (b ∷ rest)) (length-drop_lt fuel n rest b h))

  bodies-pieces :
      (fuel n : ℕ) (rest : Bytes)
      → length rest ≤ fuel
      → bodies (pieces sha256_hex fuel (suc n) rest) ≡ rest
  unfolding chunk_of
  bodies-pieces fuel n [] h = rw (pieces_nil sha256_hex fuel (suc n)) refl
  bodies-pieces zero n (b ∷ rest) h = absurd (omega (arith, h))
  bodies-pieces (suc fuel) n (b ∷ rest) h =
      rw (bodies-pieces fuel n (drop (suc n) (b ∷ rest)) (length-drop_lt fuel n rest b h))
        (take-append-drop (suc n) (b ∷ rest))

  last_or_full :
      (fuel n : ℕ) (rest : Bytes)
      → (pieces sha256_hex fuel (suc n) (drop n rest) ≡ []) ⊎ (suc (length (take n rest)) ≡ suc n)
  last_or_full fuel n rest = elim (Bool-cases (ltb n (length rest))) [
    | inl e ↦ inr (rw (length-take n rest) (ground (arith, e)))
    | inr e ↦ inl (rw (drop_all n rest (ground (arith, e))) (pieces_nil sha256_hex fuel (suc n)))
  ]

  pieces-IsCut :
      (fuel n : ℕ) (rest : Bytes)
      → length rest ≤ fuel
      → IsCut (suc n) (pieces sha256_hex fuel (suc n) rest)
  unfolding chunk_of
  pieces-IsCut fuel n [] h = rw (pieces_nil sha256_hex fuel (suc n)) tt
  pieces-IsCut zero n (b ∷ rest) h = absurd (omega (arith, h))
  pieces-IsCut (suc fuel) n (b ∷ rest) h = (
    refl,
    omega arith,
    rw (length-take n rest) (omega arith),
    last_or_full fuel n rest,
    pieces-IsCut fuel n (drop n rest) (length-drop_lt fuel n rest b h),
  )

  split-pieces :
      (body : Bytes) (n : ℕ) (cs : List Chunk)
      → split sha256_hex body (pos (suc n)) ≡ some cs
      → cs ≡ pieces sha256_hex (length body) (suc n) body
  unfolding split
  split-pieces [] n cs h = cc h
  split-pieces (b ∷ body) n cs h =
      by_test (has_negative_quotient (wrap (pos (length (b ∷ body) + n))) (suc n)) h
    where
      by_test :
          (t : Bool)
          → (if t
              then none
              else some (split_from sha256_hex (length (b ∷ body)) (b ∷ body) (suc n) 0))
            ≡ some cs
          → cs ≡ pieces sha256_hex (length (b ∷ body)) (suc n) (b ∷ body)
      by_test true k = absurd (cc k)
      by_test false k =
          some-injective (sym k)
          ∙ split_from-pieces sha256_hex (length (b ∷ body)) (b ∷ body) (suc n) 0

  -- The chunks that Split returns join to the body, each with the SHA-256 of its bytes, none empty,
  -- all but the last of chunk_size bytes, and the last of no more.
  pub split-IsCut :
      (body : Bytes) (n : ℕ) (cs : List Chunk)
      → split sha256_hex body (pos (suc n)) ≡ some cs
      → (bodies cs ≡ body) × IsCut (suc n) cs
  split-IsCut body n cs h =
      let e = split-pieces body n cs h in
      rw e (
        bodies-pieces (length body) n body (omega arith),
        pieces-IsCut (length body) n body (omega arith),
      )

  -- Reading a body to its end with a Reader gives the chunks of Split, without a failure: two more
  -- rounds than the body has bytes are enough.
  pub read_all-split :
      (body : Bytes) (n : ℕ) (cs : List Chunk)
      → split sha256_hex body (pos (suc n)) ≡ some cs
      → read_all sha256_hex
          (suc (suc (length body)))
          (new_reader (record { rest = body; fault = none }) (pos (suc n)))
        ≡ some cs
  unfolding new_reader
  read_all-split body n cs h =
      read_all-pieces sha256_hex (suc (length body)) n body (omega arith)
      ∙ ap some
          (pieces-fuel_suc (length body) n body (omega arith) ∙ sym (split-pieces body n cs h))

  -- Split does not panic on a positive size that, added to the length of the body, fits an int.
  pub split-total_lem :
      (body : Bytes) (n : ℕ)
      → length body + n < 2 ^ 63
      → (cs : List Chunk) × (split sha256_hex body (pos (suc n)) ≡ some cs)
  unfolding split
  split-total_lem [] n h = ([], refl)
  split-total_lem (b ∷ body) n h = (
    split_from sha256_hex (length (b ∷ body)) (b ∷ body) (suc n) 0,
    rw (wrap_small (length (b ∷ body) + n) h) refl,
  )
