-- ===== src/Rebalance/Replicas.antt =====
-- The replicas that migrateChunk of rebalance.go writes to the metadata.
use kvfs.Base.{
  true, false, Option, none, some, List, [], ◌∷◌, ◌++◌, ◌≡◌, ◌≢◌, ◌⊎◌, inl, inr, refl, ◌∙◌, ◌||◌,
  arith, subst,
}
use kvfs.Base.Text.{Bytes}
use kvfs.Base.Assoc.{contains}
use kvfs.Placement.Spread.{contains-append}
use kvfs.Rebalance.{Migration, intersect, unique_sorted}
use kvfs.Rebalance.Migrate.{Cluster, Copying, copied, copy_to, final_replicas, chunk_result}
use kvfs.Rebalance.Sets.{contains-intersect, contains-unique_sorted}

append_one-ne_nil {ℓ} : {A : Type ℓ} (xs : List A) (x : A) → xs ++ x ∷ [] ≢ []
append_one-ne_nil [] x h = cc h
append_one-ne_nil (y ∷ ys) x h = cc h

module _ {S : Type 0} (cluster : Cluster S) where
  -- A copy leaves no error only if it succeeds.
  copied_complete :
      (id dst body : Bytes) (w : Copying S) (r : S × Option Bytes)
      → (copied cluster dst body w r).copy_errs ≡ []
      → (w.copy_errs ≡ []) × ((copied cluster dst body w r).successful ≡ w.successful ++ dst ∷ [])
  unfolding copied
  copied_complete id dst body w (t, none) h = (h, refl)
  copied_complete id dst body w (t, some e) h = absurd (append_one-ne_nil w.copy_errs (dst, e) h)

  -- The copies leave no error only if all of them succeed.
  pub copy_to_complete :
      (id body : Bytes) (missing : List Bytes) (w : Copying S)
      → (copy_to cluster id body missing w).copy_errs ≡ []
      → (w.copy_errs ≡ [])
        × ((a : Bytes)
            → contains (copy_to cluster id body missing w).successful a
              ≡ (contains w.successful a || contains missing a))
  unfolding copy_to
  copy_to_complete id body [] w h = (h, λ a. unfold contains in ground arith)
  copy_to_complete id body (dst ∷ missing) w h =
      let r = cluster.put_chunk_to w.state dst id body in
      let (e, f) = copy_to_complete id body missing (copied cluster dst body w r) h in
      let (e₀, g) = copied_complete id dst body w r e in
      (
        e₀,
        λ a.
            f a
            ∙ rw g (unfold contains in ground (arith, contains-append w.successful (dst ∷ []) a)),
      )

  pub final_replicas-cases :
      (mg : Migration) (w : Copying S)
      → ((w.copy_errs ≡ [])
          × (final_replicas cluster mg w
              ≡ unique_sorted (intersect mg.actual mg.desired ++ w.successful))
          × ((chunk_result cluster w none).is_ok ≡ true))
        ⊎ ((final_replicas cluster mg w ≡ unique_sorted (mg.actual ++ w.successful))
            × ((chunk_result cluster w none).is_ok ≡ false))
  final_replicas-cases mg w = by_errs w.copy_errs refl
    where
      by_errs :
          (l : List (Bytes × Bytes))
          → w.copy_errs ≡ l
          → ((w.copy_errs ≡ [])
              × (final_replicas cluster mg w
                  ≡ unique_sorted (intersect mg.actual mg.desired ++ w.successful))
              × ((chunk_result cluster w none).is_ok ≡ true))
            ⊎ ((final_replicas cluster mg w ≡ unique_sorted (mg.actual ++ w.successful))
                × ((chunk_result cluster w none).is_ok ≡ false))
      by_errs [] e = inl (e, unfold final_replicas in rw e refl, unfold chunk_result in rw e refl)
      by_errs (x ∷ l) e = inr (unfold final_replicas in rw e refl, unfold chunk_result in rw e refl)

  -- No address that the metadata gets is new, but for the successful copies.
  pub contains-final_replicas :
      (mg : Migration) (w : Copying S) (a : Bytes)
      → contains (final_replicas cluster mg w) a ≡ true
      → (contains mg.actual a || contains w.successful a) ≡ true
  contains-final_replicas mg w a h = elim (final_replicas-cases mg w) [
    | inl (_, e, _) ↦ ground (
      arith,
      subst (λ l. contains l a ≡ true) e h,
      contains-unique_sorted (intersect mg.actual mg.desired ++ w.successful) a,
      contains-append (intersect mg.actual mg.desired) w.successful a,
      contains-intersect mg.actual mg.desired a,
    )
    | inr (e, _) ↦ ground (
      arith,
      subst (λ l. contains l a ≡ true) e h,
      contains-unique_sorted (mg.actual ++ w.successful) a,
      contains-append mg.actual w.successful a,
    )
  ]
