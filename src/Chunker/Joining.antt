-- ===== src/Chunker/Joining.antt =====
-- What Join of the chunker returns, and that it undoes Split.
use kvfs.Base.{
  append_nil, append_assoc, ℕ, false, some, List, [], ◌∷◌, ◌++◌, map, ◌≡◌, ◌↔◌, refl, sym, ◌∙◌, ap,
  ◌||◌, length, arith, All, subst, suc,
}
use kvfs.Base.Text.{Bytes, beq_iff}
use kvfs.Base.Int.{ℤ, pos, negsuc, ltb_ℤ}
use kvfs.Base.Call.{Call, ok, failed}
use kvfs.Chunker.{
  Chunk, JoinSpec, Joined, joined, refused, check_size, join_from, join, split, chunk_of,
}
use kvfs.Chunker.Splits.{bodies, IsCut, split-IsCut}

equal-size : (n : ℕ) (z : ℤ) → (ltb_ℤ (pos n) z || ltb_ℤ z (pos n)) ≡ false → pos n ≡ z
equal-size n (pos m) h = ap pos (ground (arith, h))
equal-size n (negsuc m) h = absurd (ground (arith, h))

size_refl : (n : ℕ) → (ltb_ℤ (pos n) (pos n) || ltb_ℤ (pos n) (pos n)) ≡ false
size_refl n = ground arith

joined-injective : {a b : Bytes} → joined a ≡ joined b → a ≡ b
joined-injective h = cc h

-- What a caller asks Join for, from the chunks of Split.
abbrev pub spec_of : Chunk → JoinSpec
spec_of c = record { chunk_id = c.id; size = c.size }

module _ (sha256_hex : Bytes → Bytes) (fetch : Bytes → Call Bytes) where
  -- The fetched bodies: each is there, has the hash that it is asked by and the size that is told.
  abbrev pub Fetched : List JoinSpec → List Bytes → Type 0
  Fetched [] [] = Unit
  Fetched (s ∷ specs) (body ∷ rest) =
      (fetch s.chunk_id ≡ ok body)
      × (sha256_hex body ≡ s.chunk_id)
      × (pos (length body) ≡ s.size)
      × Fetched specs rest
  Fetched _ _ = ⊥

  abbrev pub concat : List Bytes → Bytes
  concat [] = []
  concat (body ∷ rest) = body ++ concat rest

  -- A round of the loop that goes on.
  join_from-cons :
      (s : JoinSpec) (specs : List JoinSpec) (out body : Bytes)
      → join_from sha256_hex fetch (s ∷ specs) out ≡ joined body
      → (x : Bytes) × (fetch s.chunk_id ≡ ok x)
        × (sha256_hex x ≡ s.chunk_id)
        × (pos (length x) ≡ s.size)
        × (join_from sha256_hex fetch specs (out ++ x) ≡ joined body)
  unfolding join_from
  join_from-cons s specs out body h = by_fetch (fetch s.chunk_id) refl
    where
      by_fetch :
          (r : Call Bytes)
          → fetch s.chunk_id ≡ r
          → (x : Bytes) × (fetch s.chunk_id ≡ ok x)
            × (sha256_hex x ≡ s.chunk_id)
            × (pos (length x) ≡ s.size)
            × (join_from sha256_hex fetch specs (out ++ x) ≡ joined body)
      by_fetch (failed e) f = absurd (ground (arith, h, f))
      by_fetch (ok x) f = (
        x,
        f,
        ground (arith, h, f, beq_iff (sha256_hex x) s.chunk_id),
        equal-size (length x) s.size (ground (arith, h, f)),
        ground (arith, h, f),
      )

  join_from-Fetched :
      (specs : List JoinSpec) (out body : Bytes)
      → join_from sha256_hex fetch specs out ≡ joined body
      → (fetched : List Bytes) × Fetched specs fetched × (body ≡ out ++ concat fetched)
  join_from-Fetched [] out body h = ([], tt, same (unfold join_from in h))
    where
      same : joined out ≡ joined body → body ≡ out ++ []
      same k = sym (joined-injective k) ∙ sym (append_nil out)
  join_from-Fetched (s ∷ specs) out body h =
      let (x, f, hash, size, k) = join_from-cons s specs out body h in
      let (rest, all, e) = join_from-Fetched specs (out ++ x) body k in
      (x ∷ rest, (f, hash, size, all), e ∙ append_assoc out x (concat rest))

  join_from_step :
      (s : JoinSpec) (specs : List JoinSpec) (out x : Bytes)
      → fetch s.chunk_id ≡ ok x
      → sha256_hex x ≡ s.chunk_id
      → pos (length x) ≡ s.size
      → join_from sha256_hex fetch (s ∷ specs) out ≡ join_from sha256_hex fetch specs (out ++ x)
  unfolding join_from
  join_from_step s specs out x f hash size = ground (
    arith,
    f,
    (beq_iff (sha256_hex x) s.chunk_id).1 hash,
    subst (λ z. (ltb_ℤ (pos (length x)) z || ltb_ℤ z (pos (length x))) ≡ false) size
        (size_refl (length x)),
  )

  join_from_complete :
      (specs : List JoinSpec) (out : Bytes) (fetched : List Bytes)
      → Fetched specs fetched
      → join_from sha256_hex fetch specs out ≡ joined (out ++ concat fetched)
  join_from_complete [] out [] h = unfold join_from in ap joined (sym (append_nil out))
  join_from_complete [] out (x ∷ l) h = absurd h
  join_from_complete (s ∷ specs) out [] h = absurd h
  join_from_complete (s ∷ specs) out (body ∷ rest) (f, hash, size, all) =
      join_from_step s specs out body f hash size
      ∙ join_from_complete specs (out ++ body) rest all
      ∙ ap joined (append_assoc out body (concat rest))

  -- Join gives a body exactly when every chunk can be fetched, has the SHA-256 that it is named by
  -- and the size that is told of it, the body is the chunks in order and it has the total size.
  pub join-joined_iff :
      (specs : List JoinSpec) (total : ℤ) (body : Bytes)
      → (join sha256_hex specs total fetch ≡ joined body) ↔ (
          (fetched : List Bytes) × Fetched specs fetched
          × (body ≡ concat fetched)
          × (pos (length body) ≡ total))
  unfolding join check_size
  join-joined_iff specs total body = (
    λ h. by_joined (join_from sha256_hex fetch specs []) refl h,
    λ (fetched, all, e, size).
        ap (check_size sha256_hex total)
          (join_from_complete specs [] fetched all ∙ ap joined (sym e))
        ∙ sized size,
  )
    where
      by_joined :
          (r : Joined)
          → join_from sha256_hex fetch specs [] ≡ r
          → check_size sha256_hex total r ≡ joined body
          → (fetched : List Bytes) × Fetched specs fetched
            × (body ≡ concat fetched)
            × (pos (length body) ≡ total)
      by_joined (refused e) f h = absurd (cc h)
      by_joined (joined out) f h =
          let same : out ≡ body = joined-injective (ground (arith, h)) in
          let size : pos (length out) ≡ total = equal-size (length out) total (ground (arith, h)) in
          let (fetched, all, e) = join_from-Fetched specs [] out f in
          (fetched, all, sym same ∙ e, ap (λ (l : Bytes). pos (length l)) (sym same) ∙ size)

      sized : pos (length body) ≡ total → check_size sha256_hex total (joined body) ≡ joined body
      sized size =
          subst (λ z. check_size sha256_hex z (joined body) ≡ joined body) size
            (rw (size_refl (length body)) refl)

  Fetched-specs :
      (n : ℕ) (cs : List Chunk)
      → IsCut sha256_hex n cs
      → All (λ (c : Chunk). fetch c.id ≡ ok c.body) cs
      → Fetched (map spec_of cs) (map (λ (c : Chunk). c.body) cs)
        × (concat (map (λ (c : Chunk). c.body) cs) ≡ bodies cs)
  unfolding chunk_of
  Fetched-specs n [] cut h = (tt, refl)
  Fetched-specs n (c ∷ cs) (e, _, _, _, cut) (f, h) =
      let (all, same) = Fetched-specs n cs cut h in
      (
        (f, ap (λ (d : Chunk). d.id) (sym e), ap (λ (d : Chunk). d.size) (sym e), all),
        ap (λ l. c.body ++ l) same,
      )

  -- Join of what Split made of a body gives the body back, where every chunk is fetched as it was.
  pub join-split :
      (body : Bytes) (n : ℕ) (cs : List Chunk)
      → split sha256_hex body (pos (suc n)) ≡ some cs
      → All (λ (c : Chunk). fetch c.id ≡ ok c.body) cs
      → join sha256_hex (map spec_of cs) (pos (length body)) fetch ≡ joined body
  join-split body n cs h found =
      let (whole, cut) = split-IsCut sha256_hex body n cs h in
      let (all, same) = Fetched-specs (suc n) cs cut found in
      (join-joined_iff (map spec_of cs) (pos (length body)) body).1
        (map (λ (c : Chunk). c.body) cs, all, sym whole ∙ sym same, refl)
