-- ===== src/Rebalance/Outcome.antt =====
-- What migrateChunk of rebalance.go does to the disks and to the metadata of one chunk.
use kvfs.Base.{
  ℕ, Bool, true, false, none, List, ◌≡◌, ◌⊎◌, inl, inr, refl, sym, ◌∙◌, ap, ◌==◌, if◌then◌else◌,
  length, arith, Bool-cases, Option-cases, subst,
}
use kvfs.Base.Text.{Bytes}
use kvfs.Base.Assoc.{contains}
use kvfs.Base.Int.{pos}
use kvfs.Base.Call.{Call, ok, failed}
use kvfs.Rebalance.{Migration}
use kvfs.Rebalance.Migrate.{
  failure, no_actual, read_source, Cluster, MigrateResult, Copying, copy_to, final_replicas,
  chunk_result, finish_chunk, start_copying, migrate_chunk,
}
use kvfs.Rebalance.Safety.{
  IsFaithful, Backed, Copied, copy_to-keeps, copy_to-replicas, copy_to-Copied,
}
use kvfs.Rebalance.Replicas.{contains-final_replicas}

module _ {S : Type 0} (cluster : Cluster S) (holds : S → Bytes → Bytes → Bool)
    (replicas : S → Bytes → Bytes → ℕ → List Bytes) (laws : IsFaithful cluster holds replicas) where
  -- migrateChunk leaves the cluster as it was, with a failure, or ends with finish_chunk.
  migrate_chunk-cases :
      (mg : Migration) (s : S) (P : S × MigrateResult → Type 0)
      → ((e : MigrateResult) → e.is_ok ≡ false → P (s, e))
      → ((body : Bytes)
          → P (
              finish_chunk cluster mg
                (copy_to cluster mg.chunk_id body mg.missing (start_copying cluster s))))
      → P (migrate_chunk cluster mg s)
  unfolding migrate_chunk
  migrate_chunk-cases mg s P fails ends =
      by_tests (length mg.actual == 0) (cluster.read_chunk s mg.chunk_id mg.actual)
    where
      by_tests :
          (b : Bool) (r : Call Bytes)
          → P (
              if b then (s, failure (pos 0) no_actual) else elim r [
                | failed e ↦ (s, failure (pos 0) (read_source e))
                | ok body ↦
                    finish_chunk cluster mg
                      (copy_to cluster mg.chunk_id body mg.missing (start_copying cluster s))
              ])
      by_tests true r = fails _ refl
      by_tests false (failed e) = fails _ refl
      by_tests false (ok body) = ends body

  -- After the update of the metadata: its outcome, the replicas and the result.
  finish_chunk-cases :
      (mg : Migration) (w : Copying S)
      → ((replicas (finish_chunk cluster mg w).0 mg.bucket mg.key mg.chunk_index
            ≡ final_replicas cluster mg w)
          × ((finish_chunk cluster mg w).1 ≡ chunk_result cluster w none))
        ⊎ ((replicas (finish_chunk cluster mg w).0 mg.bucket mg.key mg.chunk_index
              ≡ replicas w.state mg.bucket mg.key mg.chunk_index)
            × ((finish_chunk cluster mg w).1.is_ok ≡ false))
  unfolding finish_chunk
  finish_chunk-cases mg w =
      let addrs = final_replicas cluster mg w in
      elim (Option-cases
        (cluster.update_chunk_replicas w.state mg.bucket mg.key mg.chunk_index addrs).1) [
          | inl e ↦ inl (
            laws.update_sets w.state mg.bucket mg.key mg.chunk_index addrs e,
            ap (chunk_result cluster w) e,
          )
          | inr (x, e) ↦ inr (
            laws.update_fails w.state mg.bucket mg.key mg.chunk_index addrs x e,
            ap (λ o. (chunk_result cluster w o).is_ok) e ∙ unfold chunk_result in refl,
          )
        ]

  finish_chunk-holds :
      (mg : Migration) (w : Copying S) (a j : Bytes)
      → holds (finish_chunk cluster mg w).0 a j ≡ holds w.state a j
  unfolding finish_chunk
  finish_chunk-holds mg w a j =
      laws.update_holds w.state mg.bucket mg.key mg.chunk_index (final_replicas cluster mg w) a j

  start_copying-Copied :
      (id : Bytes) (s : S) → Copied cluster holds replicas laws id (start_copying cluster s)
  start_copying-Copied id s a m = absurd (unfold start_copying contains in cc m)

  -- A migration of a chunk, however it ends, leaves a metadata entry that names only nodes that
  -- have the chunk, if it found one and the plan's actual replicas are those of the entry.
  pub migrate_chunk-Backed :
      (mg : Migration) (s : S)
      → ((a : Bytes)
          → contains mg.actual a ≡ contains (replicas s mg.bucket mg.key mg.chunk_index) a)
      → Backed cluster holds replicas laws s mg.bucket mg.key mg.chunk_index mg.chunk_id
      → Backed cluster holds replicas laws
          (migrate_chunk cluster mg s).0
          mg.bucket
          mg.key
          mg.chunk_index
          mg.chunk_id
  unfolding start_copying
  migrate_chunk-Backed mg s current backed =
      migrate_chunk-cases mg s
        (λ r. Backed cluster holds replicas laws r.0 mg.bucket mg.key mg.chunk_index mg.chunk_id)
        (λ e _. backed) by_copies
    where
      by_copies :
          (body : Bytes)
          → Backed cluster holds replicas laws
              (finish_chunk cluster mg
                (copy_to cluster mg.chunk_id body mg.missing (start_copying cluster s))).0
              mg.bucket
              mg.key
              mg.chunk_index
              mg.chunk_id
      by_copies body a m =
          let w = copy_to cluster mg.chunk_id body mg.missing (start_copying cluster s) in
          let kept =
            copy_to-keeps cluster holds replicas laws mg.chunk_id body a mg.chunk_id mg.missing
              (start_copying cluster s) in
          let made =
            copy_to-Copied cluster holds replicas laws mg.chunk_id body mg.missing
              (start_copying cluster s) (start_copying-Copied mg.chunk_id s) a in
          let same =
            copy_to-replicas cluster holds replicas laws mg.chunk_id body mg.bucket mg.key
              mg.chunk_index mg.missing (start_copying cluster s) in
          finish_chunk-holds mg w a mg.chunk_id ∙ elim (finish_chunk-cases mg w) [
            | inl (e, _) ↦ elim (Bool-cases (contains mg.actual a)) [
              | inl p ↦ kept (backed a (sym (current a) ∙ p))
              | inr p ↦
                  let d =
                    contains-final_replicas cluster mg w a (subst (λ l. contains l a ≡ true) e m) in
                  made (ground (arith, d, p))
            ]
            | inr (e, _) ↦ kept (backed a (subst (λ l. contains l a ≡ true) (e ∙ same) m))
          ]

  -- The two ways in which a migration ends.
  abbrev pub Settled : Migration → S × MigrateResult → Type 0
  Settled mg r =
      ((r.1.is_ok ≡ true)
        × ((a : Bytes)
            → contains (replicas r.0 mg.bucket mg.key mg.chunk_index) a ≡ contains mg.desired a))
      ⊎ ((r.1.is_ok ≡ false)
          × ((a : Bytes)
              → contains mg.actual a ≡ true
              → contains (replicas r.0 mg.bucket mg.key mg.chunk_index) a ≡ true))
