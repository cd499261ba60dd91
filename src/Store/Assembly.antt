-- ===== src/Store/Assembly.antt =====
-- What CompleteMultipartUpload of store.go makes of the parts.
use kvfs.Base.{
  true, false, none, some, List, [], ◌∷◌, ◌++◌, ◌≡◌, ◌⊎◌, inl, inr, refl, sym, ap, ◌∙◌, subst, ◌&&◌,
  not, arith, Bool-cases, Option-cases, append_nil, append_assoc,
}
use kvfs.Base.Text.{Bytes, beq, is_empty, beq→eq, eq→beq, is_empty→eq}
use kvfs.Base.Int.{ℤ, ltb_ℤ, ◌+₆₄◌}
use kvfs.Store.{ChunkRef, PartMeta, CompletePart, Result, done, fail}
use kvfs.Store.Results.{done-injective}
use kvfs.Store.Multipart.{validate_part_number, part_at}
use kvfs.Store.Complete.{Assembly, add_part, assemble}

-- The stored parts that a request names: in its order, with strictly ascending numbers from 1 to
-- 10000, each with the ETag that the request gives, where it gives one.
pub data IsChosen (parts : List (ℤ × PartMeta))
    : ℤ → List CompletePart → List PartMeta → Type 0 where
  nothing : (prev : ℤ) → IsChosen parts prev [] []
  next :
      (prev : ℤ) (want : CompletePart) (wanted : List CompletePart) (got : PartMeta)
      (chosen : List PartMeta)
      → validate_part_number want.part_number ≡ none
      → ltb_ℤ prev want.part_number ≡ true
      → part_at want.part_number parts ≡ some got
      → (want.etag ≡ []) ⊎ (want.etag ≡ got.etag)
      → IsChosen parts want.part_number wanted chosen
      → IsChosen parts prev (want ∷ wanted) (got ∷ chosen)

unfoldable pub all_chunks : List PartMeta → List ChunkRef
all_chunks [] = []
all_chunks (p ∷ parts) = p.chunks ++ all_chunks parts

unfoldable pub all_etags : List PartMeta → Bytes
all_etags [] = []
all_etags (p ∷ parts) = p.etag ++ all_etags parts

unfoldable pub total_size : ℤ → List PartMeta → ℤ
total_size size [] = size
total_size size (p ∷ parts) = total_size (size +₆₄ p.size) parts

-- What a round adds, in the terms of the parts chosen.
unfoldable pub Gathered : Assembly → List PartMeta → Assembly → Type 0
Gathered a chosen b =
    (b.chunks ≡ a.chunks ++ all_chunks chosen)
    × (b.etags ≡ a.etags ++ all_etags chosen)
    × (b.size ≡ total_size a.size chosen)
    × (b.completed ≡ a.completed ++ chosen)

etag_test : (w g : Bytes) → (not (is_empty w) && not (beq w g)) ≡ false → (w ≡ []) ⊎ (w ≡ g)
etag_test w g h = elim (Bool-cases (is_empty w)) [
  | inl e ↦ inl (is_empty→eq w e)
  | inr e ↦ inr (beq→eq w g (ground (arith, e, h)))
]

-- A round that succeeds.
add_part-done :
    (parts : List (ℤ × PartMeta)) (want : CompletePart) (a b : Assembly)
    → add_part parts want a ≡ done b
    → (got : PartMeta) × (validate_part_number want.part_number ≡ none)
      × (ltb_ℤ a.prev_part want.part_number ≡ true)
      × (part_at want.part_number parts ≡ some got)
      × ((want.etag ≡ []) ⊎ (want.etag ≡ got.etag))
      × (b ≡ record {
        prev_part = want.part_number;
        chunks = a.chunks ++ got.chunks;
        size = a.size +₆₄ got.size;
        etags = a.etags ++ got.etag;
        completed = a.completed ++ got ∷ [];
      })
unfolding add_part
add_part-done parts want a b h = elim (Option-cases (validate_part_number want.part_number)) [
  | inr (x, v) ↦ absurd (cc (rw (v, add_part) at h))
  | inl v ↦ elim (Bool-cases (ltb_ℤ a.prev_part want.part_number)) [
    | inr o ↦ absurd (cc (rw (v, o, add_part) at h))
    | inl o ↦ elim (Option-cases (part_at want.part_number parts)) [
      | inl g ↦ absurd (cc (rw g at (rw (v, o, add_part) at h)))
      | inr (got, g) ↦
          elim (Bool-cases (not (is_empty want.etag) && not (beq want.etag got.etag))) [
            | inl t ↦ absurd (cc (rw t at (rw g at (rw (v, o, add_part) at h))))
            | inr t ↦ (
              got,
              v,
              o,
              g,
              etag_test want.etag got.etag t,
              sym (done-injective _ _ (rw t at (rw g at (rw (v, o, add_part) at h)))),
            )
          ]
    ]
  ]
]

-- A loop that succeeds has Gathered parts that were chosen.
pub assemble-done :
    (parts : List (ℤ × PartMeta)) (wanted : List CompletePart) (a b : Assembly)
    → assemble parts wanted a ≡ done b
    → (chosen : List PartMeta) × IsChosen parts a.prev_part wanted chosen × Gathered a chosen b
unfolding assemble Gathered all_chunks all_etags total_size
assemble-done parts [] a b h =
    let e : a ≡ b = done-injective a b h in
    (
      [],
      nothing a.prev_part,
      rw (append_nil a.chunks, append_nil a.etags, append_nil a.completed)
          (
            ap (λ x. x.chunks) (sym e),
            ap (λ x. x.etags) (sym e),
            ap (λ x. x.size) (sym e),
            ap (λ x. x.completed) (sym e),
          ),
    )
assemble-done parts (want ∷ wanted) a b h =
    by_round (λ c e. assemble-done parts wanted c b e) (add_part parts want a) refl
  where
    by_round :
        ((c : Assembly)
          → assemble parts wanted c ≡ done b
          → (chosen : List PartMeta) × IsChosen parts c.prev_part wanted chosen
            × Gathered c chosen b)
        → (r : Result Assembly) → add_part parts want a ≡ r
        → (chosen : List PartMeta) × IsChosen parts a.prev_part (want ∷ wanted) chosen
          × Gathered a chosen b
    by_round ih (fail x) e = absurd (cc (rw (e, assemble) at h))
    by_round ih (done c) e =
        let (got, v, o, g, t, c_is) = add_part-done parts want a c e in
        let (chosen, is, (chunks, etags, size, completed)) = ih c (rw (e, assemble) at h) in
        (
          got ∷ chosen,
          next a.prev_part want wanted got chosen v o g t
              (subst (λ x. IsChosen parts x.prev_part wanted chosen) c_is is),
          (
            chunks
                ∙ ap (λ x. x.chunks ++ all_chunks chosen) c_is
                ∙ append_assoc a.chunks got.chunks (all_chunks chosen),
            etags
                ∙ ap (λ x. x.etags ++ all_etags chosen) c_is
                ∙ append_assoc a.etags got.etag (all_etags chosen),
            size ∙ ap (λ x. total_size x.size chosen) c_is,
            completed
                ∙ ap (λ x. x.completed ++ chosen) c_is
                ∙ append_assoc a.completed (got ∷ []) chosen,
          ),
        )

etag_test_of : (w g : Bytes) → (w ≡ []) ⊎ (w ≡ g) → (not (is_empty w) && not (beq w g)) ≡ false
unfolding is_empty
etag_test_of w g (inl e) = rw e refl
etag_test_of w g (inr e) = ground (arith, eq→beq w g e)

-- Parts that can be chosen make the loop succeed.
pub assemble-succeeds :
    (parts : List (ℤ × PartMeta)) {prev : ℤ} {wanted : List CompletePart} {chosen : List PartMeta}
    (a : Assembly)
    → a.prev_part ≡ prev
    → IsChosen parts prev wanted chosen
    → (b : Assembly) × (assemble parts wanted a ≡ done b)
unfolding assemble add_part
assemble-succeeds parts a e (nothing prev) = (a, refl)
assemble-succeeds parts a e (next prev want wanted got chosen v o g t rest) =
    let c : Assembly = record {
      prev_part = want.part_number;
      chunks = a.chunks ++ got.chunks;
      size = a.size +₆₄ got.size;
      etags = a.etags ++ got.etag;
      completed = a.completed ++ got ∷ [];
    } in
    let round : add_part parts want a ≡ done c =
      rw (v, add_part) (rw (e, o) (rw g (rw (etag_test_of want.etag got.etag t) refl))) in
    let (b, done_b) = assemble-succeeds parts c refl rest in (b, (rw (round, assemble) done_b))
