-- ===== src/Chunker/Cuts.antt =====
-- Split and Reader of the chunker cut a body in the same way: from the front, one chunk at a time.
use kvfs.Base.{
  ℕ, zero, suc, ◌+◌, ◌≤◌, ◌<◌, min, Bool, true, false, none, some, List, [], ◌∷◌, ◌≡◌, inl, inr,
  refl, sym, ◌∙◌, ap, if◌then◌else◌, length, take, drop, ltb, arith, Bool-cases, length-take,
  length-drop,
}
use kvfs.Base.Text.{Bytes}
use kvfs.Base.Int.{pos}
use kvfs.Chunker.{Chunk, Reader, Next, piece, eof, slice, chunk_of, split_from, next, read_all}

take-min : {A : Type 0} (m k : ℕ) (xs : List A) → m ≡ min k (length xs) → take m xs ≡ take k xs
take-min zero zero xs h = refl
take-min zero (suc k) [] h = refl
take-min zero (suc k) (x ∷ xs) h = absurd (omega (arith, h))
take-min (suc m) zero xs h = absurd (omega (arith, h))
take-min (suc m) (suc k) [] h = refl
take-min (suc m) (suc k) (x ∷ xs) h = ap (λ l. x ∷ l) (take-min m k xs (omega (arith, h)))

drop_nil : {A : Type 0} (k : ℕ) → drop {A = A} k [] ≡ []
drop_nil zero = refl
drop_nil (suc k) = refl

drop-drop : {A : Type 0} (m k : ℕ) (xs : List A) → drop k (drop m xs) ≡ drop (m + k) xs
drop-drop zero k xs = ap (λ n. drop n xs) (omega arith)
drop-drop (suc m) k [] = drop_nil k ∙ sym (drop_nil (suc m + k))
drop-drop (suc m) k (x ∷ xs) = drop-drop m k xs ∙ ap (λ n. drop n (x ∷ xs)) (suc_add m k)
  where
    suc_add : (m k : ℕ) → suc (m + k) ≡ suc m + k
    suc_add m k = omega arith

take_all : {A : Type 0} (k : ℕ) (xs : List A) → length xs ≤ k → take k xs ≡ xs
take_all zero [] h = refl
take_all zero (x ∷ xs) h = absurd (omega (arith, h))
take_all (suc k) [] h = refl
take_all (suc k) (x ∷ xs) h = ap (λ l. x ∷ l) (take_all k xs (omega (arith, h)))

pub drop_all : {A : Type 0} (k : ℕ) (xs : List A) → length xs ≤ k → drop k xs ≡ []
drop_all zero [] h = refl
drop_all zero (x ∷ xs) h = absurd (omega (arith, h))
drop_all (suc k) [] h = refl
drop_all (suc k) (x ∷ xs) h = drop_all k xs (omega (arith, h))

module _ (sha256_hex : Bytes → Bytes) where
  -- The chunks of a body, cut from the front.
  abbrev pub pieces : ℕ → ℕ → Bytes → List Chunk
  pieces zero chunk_size rest = []
  pieces (suc fuel) chunk_size [] = []
  pieces (suc fuel) chunk_size (b ∷ rest) =
      chunk_of sha256_hex (take chunk_size (b ∷ rest))
      ∷ pieces fuel chunk_size (drop chunk_size (b ∷ rest))

  pub pieces_nil : (fuel chunk_size : ℕ) → pieces fuel chunk_size [] ≡ []
  pieces_nil zero chunk_size = refl
  pieces_nil (suc fuel) chunk_size = refl

  pieces_step :
      (fuel chunk_size : ℕ) (rest : Bytes)
      → pieces (suc fuel) chunk_size rest ≡ (
          if ltb 0 (length rest)
          then chunk_of sha256_hex (take chunk_size rest)
            ∷ pieces fuel chunk_size (drop chunk_size rest)
          else [])
  pieces_step fuel chunk_size [] = refl
  pieces_step fuel chunk_size (b ∷ rest) = rw (ltb_suc (length rest)) refl
    where
      ltb_suc : (n : ℕ) → ltb 0 (suc n) ≡ true
      ltb_suc n = ground arith

  chunk_eq :
      (x y : Bytes) (n : ℕ)
      → x ≡ y
      → n ≡ length y
      → record { body = x; id = sha256_hex x; size = pos n } ≡ chunk_of sha256_hex y
  unfolding chunk_of
  chunk_eq x y n e f = rw (e, f) refl

  -- One round of the loop, with the bytes that are left in place of the offsets.
  split_from_step :
      (fuel : ℕ) (body : Bytes) (chunk_size off : ℕ)
      → split_from sha256_hex (suc fuel) body chunk_size off ≡ (
          if ltb off (length body)
          then chunk_of sha256_hex (take chunk_size (drop off body))
            ∷ split_from sha256_hex fuel body chunk_size (off + chunk_size)
          else [])
  unfolding split_from slice
  split_from_step fuel body chunk_size off = elim (Bool-cases (ltb off (length body))) [
    | inr e ↦ rw e refl
    | inl e ↦ rw e (
        ap (λ c. c ∷ split_from sha256_hex fuel body chunk_size (off + chunk_size))
          (chunk_eq _ _ _
            (take-min _ chunk_size (drop off body) (rw (length-drop off body) (ground (arith, e))))
            (rw (length-take chunk_size (drop off body), length-drop off body)
              (ground (arith, e)))))
  ]

  pub split_from-pieces :
      (fuel : ℕ) (body : Bytes) (chunk_size off : ℕ)
      → split_from sha256_hex fuel body chunk_size off ≡ pieces fuel chunk_size (drop off body)
  split_from-pieces zero body chunk_size off = unfold split_from in refl
  split_from-pieces (suc fuel) body chunk_size off =
      rw
        (
          split_from_step fuel body chunk_size off,
          pieces_step fuel chunk_size (drop off body),
          split_from-pieces fuel body chunk_size (off + chunk_size),
          drop-drop off chunk_size body,
          length-drop off body,
        )
        (ground arith)

  read_all_piece :
      (fuel : ℕ) (r after : Reader) (c : Chunk) (cs : List Chunk)
      → next sha256_hex r ≡ (after, piece c)
      → read_all sha256_hex fuel after ≡ some cs
      → read_all sha256_hex (suc fuel) r ≡ some (c ∷ cs)
  unfolding read_all
  read_all_piece fuel r after c cs e f =
      rw (ap (λ (p : Reader × Next). p.1) e, ap (λ (p : Reader × Next). p.0) e, f) refl

  read_all_eof :
      (fuel : ℕ) (r after : Reader)
      → next sha256_hex r ≡ (after, eof)
      → read_all sha256_hex (suc fuel) r ≡ some []
  unfolding read_all
  read_all_eof fuel r after e = rw (ap (λ (p : Reader × Next). p.1) e) refl

  -- The reader of a body that can be read to its end.
  abbrev reader_of : Bytes → ℕ → Bool → Reader
  reader_of rest chunk_size done = record {
    src = record { rest = rest; fault = none };
    chunk_size = chunk_size;
    done = done;
  }

  pub read_all-pieces :
      (fuel n : ℕ) (rest : Bytes)
      → length rest < fuel
      → read_all sha256_hex (suc fuel) (reader_of rest (suc n) false)
        ≡ some (pieces fuel (suc n) rest)
  read_all-pieces zero n rest h = absurd (omega (arith, h))
  read_all-pieces (suc fuel) n [] h =
      read_all_eof (suc fuel) (reader_of [] (suc n) false) (reader_of [] (suc n) true)
        (unfold next in ground arith)
  read_all-pieces (suc fuel) n (b ∷ rest) h = elim (Bool-cases (ltb (length (b ∷ rest)) (suc n))) [
    | inl e ↦
        read_all_piece (suc fuel) (reader_of (b ∷ rest) (suc n) false) (reader_of [] (suc n) true)
          (chunk_of sha256_hex (take (suc n) (b ∷ rest))) _
          (unfold next in rw (e, take_all (suc n) (b ∷ rest) (ground (arith, e))) refl)
          (rw (drop_all (suc n) (b ∷ rest) (ground (arith, e))) (
            read_all_eof fuel (reader_of [] (suc n) true) (reader_of [] (suc n) true)
              (unfold next in refl)
            ∙ ap some (sym (pieces_nil fuel (suc n)))))
    | inr e ↦
        read_all_piece (suc fuel) (reader_of (b ∷ rest) (suc n) false)
          (reader_of (drop (suc n) (b ∷ rest)) (suc n) false)
          (chunk_of sha256_hex (take (suc n) (b ∷ rest))) _ (unfold next in rw e refl)
          (read_all-pieces fuel n (drop (suc n) (b ∷ rest))
            (rw (length-drop (suc n) (b ∷ rest)) (omega (arith, h))))
  ]
