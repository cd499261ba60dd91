-- ===== src/Rebalance/Chunks.antt =====
-- What planChunks of rebalance.go plans for an object in replication mode.
use mathlib.Core.List.{Memᴰ}
use mathlib.Core.List.Memᴰ.{head, tail}
use kvfs.Base.{
  All-mem, All-of_mem, ℕ, zero, suc, ◌+◌, Bool, true, false, Option, none, some, List, [], ◌∷◌,
  ◌++◌, ◌≡◌, ◌≢◌, ◌↔◌, inl, inr, refl, sym, ◌∙◌, ap, ◌==◌, if◌then◌else◌, length, arith, subst, All,
  mem-append_cases,
}
use kvfs.Base.Text.{Bytes}
use kvfs.Base.Int.{pos}
use kvfs.Base.Call.{Call}
use kvfs.Base.Assoc.{contains}
use kvfs.Rebalance.Sets.{set_diff-nil, contains-sorted_copy}
use kvfs.Store.{ChunkRef, ObjectMeta}
use kvfs.Rebalance.{
  Placer, Migration, chunk, set_diff, sorted_copy, replication_factor, classed_dns, desired_chunk,
  chunk_move, plan_chunk, plan_chunks_from, plan_chunks,
}

-- The element at a position.
abbrev get_elem? {ℓ} : {A : Type ℓ} → List A → ℕ → Option A
get_elem? [] i = none
get_elem? (x ∷ xs) zero = some x
get_elem? (x ∷ xs) (suc i) = get_elem? xs i

length-beq_zero {ℓ} : {A : Type ℓ} (xs : List A) → (length xs == 0) ≡ true → xs ≡ []
length-beq_zero [] h = refl
length-beq_zero (x ∷ xs) h = absurd (ground (arith, h))

append-nil {ℓ} : {A : Type ℓ} (xs ys : List A) → xs ++ ys ≡ [] → (xs ≡ []) × (ys ≡ [])
append-nil [] ys h = (refl, h)
append-nil (x ∷ xs) ys h = absurd (cc h)

module _ (placer : Placer) (obj : ObjectMeta) (subset : List Bytes) where
  abbrev missing_of : ChunkRef → List Bytes
  missing_of c = set_diff (desired_chunk placer c subset) (sorted_copy c.replicas)

  -- A migration for the chunk c at position i.
  pub record IsPlanned (i : ℕ) (c : ChunkRef) (mg : Migration) : Type 0 where
    pub names : (mg.bucket ≡ obj.bucket) × (mg.key ≡ obj.key) × (mg.chunk_id ≡ c.chunk_id)
    pub of_kind : mg.kind ≡ chunk
    pub position : mg.chunk_index ≡ i
    pub actual : mg.actual ≡ sorted_copy c.replicas
    pub desired : mg.desired ≡ desired_chunk placer c subset
    pub missing : mg.missing ≡ set_diff mg.desired mg.actual
    pub some_missing : mg.missing ≢ []

  plan_chunk-IsPlanned :
      (i : ℕ) (c : ChunkRef) (mg : Migration)
      → Memᴰ mg (plan_chunk placer obj subset i c)
      → IsPlanned i c mg
  unfolding plan_chunk
  plan_chunk-IsPlanned i c mg m = by_test (length (missing_of c) == 0) refl m
    where
      by_test :
          (b : Bool)
          → (length (missing_of c) == 0) ≡ b
          → Memᴰ mg (if b then [] else chunk_move placer obj subset i c ∷ [])
          → IsPlanned i c mg
      by_test true e k = elim k [ ]
      by_test false e (tail k) = elim k [ ]
      by_test false e (head p) = subst (IsPlanned i c) (sym p) (record {
        names = (refl, refl, refl);
        of_kind = refl;
        position = refl;
        actual = refl;
        desired = refl;
        missing = refl;
        some_missing = λ z. absurd (ground (arith, e, ap length z));
      })

  plan_chunks_from-IsPlanned :
      (i : ℕ) (cs : List ChunkRef) (mg : Migration)
      → Memᴰ mg (plan_chunks_from placer obj subset i cs)
      → (j : ℕ) × (c : ChunkRef) × (get_elem? cs j ≡ some c) × IsPlanned (i + j) c mg
  unfolding plan_chunks_from
  plan_chunks_from-IsPlanned i [] mg m = elim m [ ]
  plan_chunks_from-IsPlanned i (c ∷ cs) mg m =
      elim (mem-append_cases (plan_chunk placer obj subset i c) _ m) [
        | inl k ↦ (
          0,
          c,
          refl,
          subst (λ n. IsPlanned n c mg) (omega arith) (plan_chunk-IsPlanned i c mg k),
        )
        | inr k ↦
            let (j, d, e, p) = plan_chunks_from-IsPlanned (suc i) cs mg k in
            (suc j, d, e, subst (λ n. IsPlanned n d mg) (omega arith) p)
      ]

  plan_chunk-nil :
      (i : ℕ) (c : ChunkRef) → (plan_chunk placer obj subset i c ≡ []) ↔ (missing_of c ≡ [])
  unfolding plan_chunk
  plan_chunk-nil i c = (
    λ h. length-beq_zero (missing_of c) (not_planned (length (missing_of c) == 0) h),
    λ e. rw e refl,
  )
    where
      not_planned :
          (b : Bool) → (if b then [] else chunk_move placer obj subset i c ∷ []) ≡ [] → b ≡ true
      not_planned true h = refl
      not_planned false h = absurd (cc h)

  plan_chunks_from-nil :
      (i : ℕ) (cs : List ChunkRef)
      → (plan_chunks_from placer obj subset i cs ≡ []) ↔ All (λ c. missing_of c ≡ []) cs
  unfolding plan_chunks_from
  plan_chunks_from-nil i [] = (λ _. tt, λ _. refl)
  plan_chunks_from-nil i (c ∷ cs) = (
    λ h.
        let (e, f) = append-nil (plan_chunk placer obj subset i c) _ h in
        ((plan_chunk-nil i c).0 e, (plan_chunks_from-nil (suc i) cs).0 f),
    λ (e, f). rw ((plan_chunk-nil i c).1 e) ((plan_chunks_from-nil (suc i) cs).1 f),
  )

-- A migration that planChunks plans moves a chunk of the object, named with its position: from its
-- actual replicas to the desired ones, of which some are missing.
plan_chunks-IsPlanned :
    (placer : Placer) (resolver : Option (Bytes → Call (List Bytes))) (obj : ObjectMeta)
    → (mg : Migration) → Memᴰ mg (plan_chunks placer resolver obj)
    → let subset = classed_dns resolver obj.class_label (pos (replication_factor obj.chunks 0)) in
      (c : ChunkRef) × (get_elem? obj.chunks mg.chunk_index ≡ some c)
      × IsPlanned placer obj subset mg.chunk_index c mg
unfolding plan_chunks
plan_chunks-IsPlanned placer resolver obj mg m =
    let subset = classed_dns resolver obj.class_label (pos (replication_factor obj.chunks 0)) in
    let (j, c, e, p) = plan_chunks_from-IsPlanned placer obj subset 0 obj.chunks mg m in
    let same : j ≡ mg.chunk_index = omega (arith, p.position) in
    (
      c,
      subst (λ n. get_elem? obj.chunks n ≡ some c) same e,
      subst (λ n. IsPlanned placer obj subset n c mg) (sym p.position) p,
    )

-- planChunks plans nothing exactly when each chunk has a replica on all of its desired nodes.
plan_chunks-nil_iff :
    (placer : Placer) (resolver : Option (Bytes → Call (List Bytes))) (obj : ObjectMeta)
    → let subset = classed_dns resolver obj.class_label (pos (replication_factor obj.chunks 0)) in
      (plan_chunks placer resolver obj ≡ [])
      ↔ All
          (λ c.
            (a : Bytes)
            → contains (desired_chunk placer c subset) a ≡ true
            → contains c.replicas a ≡ true)
          obj.chunks
unfolding plan_chunks
plan_chunks-nil_iff placer resolver obj =
    let subset = classed_dns resolver obj.class_label (pos (replication_factor obj.chunks 0)) in
    let nil = plan_chunks_from-nil placer obj subset 0 obj.chunks in
    (
      λ h. All-of_mem _ obj.chunks (λ c m.
          (covers placer obj subset c).0
            (All-mem (λ c. missing_of placer obj subset c ≡ []) obj.chunks (nil.0 h) m)),
      λ h. nil.1 (
          All-of_mem _ obj.chunks (λ c m. (covers placer obj subset c).1 (
            All-mem
              (λ (c : ChunkRef).
                (a : Bytes)
                → contains (desired_chunk placer c subset) a ≡ true
                → contains c.replicas a ≡ true)
              obj.chunks h m))),
    )
  where
    covers :
        (placer : Placer) (obj : ObjectMeta) (subset : List Bytes) (c : ChunkRef)
        → (missing_of placer obj subset c ≡ []) ↔ (
            (a : Bytes)
            → contains (desired_chunk placer c subset) a ≡ true
            → contains c.replicas a ≡ true)
    covers placer obj subset c =
        let both = set_diff-nil (desired_chunk placer c subset) (sorted_copy c.replicas) in
        (
          λ h a m. sym (contains-sorted_copy c.replicas a) ∙ both.0 h a m,
          λ h. both.1 (λ a m. contains-sorted_copy c.replicas a ∙ h a m),
        )
