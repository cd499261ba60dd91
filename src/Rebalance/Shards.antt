-- ===== src/Rebalance/Shards.antt =====
-- What migrateShard of rebalance.go does to the disks and to the metadata of one shard.
use kvfs.Base.{
  ℕ, Bool, true, false, Option, none, some, List, [], ◌∷◌, ◌≡◌, ◌⊎◌, inl, inr, refl, ◌∙◌, ap, ◌||◌,
  if◌then◌else◌, length, subst,
}
use kvfs.Base.Text.{Bytes, is_empty}
use kvfs.Base.Int.{pos}
use kvfs.Base.Call.{Call, ok, failed}
use kvfs.Rebalance.{Migration}
use kvfs.Rebalance.Migrate.{
  Cluster, MigrateResult, failure, success, missing_addr, read_source, update_meta, finish_shard,
  migrate_shard,
}

-- What the nodes and the metadata store promise of shards: replicas are those of a shard of a
-- stripe of an object.
pub record IsFaithful {S : Type 0} (cluster : Cluster S) (holds : S → Bytes → Bytes → Bool)
    (replicas : S → Bytes → Bytes → ℕ → ℕ → List Bytes) : Type 0 where
  pub put_stores :
      (s : S) (addr id body : Bytes)
      → (cluster.put_chunk_to s addr id body).1 ≡ none
      → holds (cluster.put_chunk_to s addr id body).0 addr id ≡ true
  pub put_replicas :
      (s : S) (addr id body b k : Bytes) (i j : ℕ)
      → replicas (cluster.put_chunk_to s addr id body).0 b k i j ≡ replicas s b k i j
  pub update_holds :
      (s : S) (b k : Bytes) (i j : ℕ) (addrs : List Bytes) (a id : Bytes)
      → holds (cluster.update_shard_replicas s b k i j addrs).0 a id ≡ holds s a id
  pub update_sets :
      (s : S) (b k : Bytes) (i j : ℕ) (addrs : List Bytes)
      → (cluster.update_shard_replicas s b k i j addrs).1 ≡ none
      → replicas (cluster.update_shard_replicas s b k i j addrs).0 b k i j ≡ addrs
  pub update_fails :
      (s : S) (b k : Bytes) (i j : ℕ) (addrs : List Bytes) (e : Bytes)
      → (cluster.update_shard_replicas s b k i j addrs).1 ≡ some e
      → replicas (cluster.update_shard_replicas s b k i j addrs).0 b k i j ≡ replicas s b k i j

module _ {S : Type 0} (cluster : Cluster S) (holds : S → Bytes → Bytes → Bool)
    (replicas : S → Bytes → Bytes → ℕ → ℕ → List Bytes)
    (laws : IsFaithful cluster holds replicas) where
  abbrev entry : Migration → S → List Bytes
  entry mg s = replicas s mg.bucket mg.key mg.stripe_index mg.shard_index

  -- The two ways in which the move of a shard ends, from a cluster s.
  abbrev pub Moved : Migration → S → S × MigrateResult → Type 0
  Moved mg s r =
      ((r.1.is_ok ≡ true)
        × (replicas r.0 mg.bucket mg.key mg.stripe_index mg.shard_index ≡ mg.new_addr ∷ [])
        × (holds r.0 mg.new_addr mg.chunk_id ≡ true))
      ⊎ ((r.1.is_ok ≡ false)
          × (replicas r.0 mg.bucket mg.key mg.stripe_index mg.shard_index
              ≡ replicas s mg.bucket mg.key mg.stripe_index mg.shard_index))

  -- The update of the metadata, after a copy that has led from s to t.
  finish_update-Moved :
      (mg : Migration) (s t : S) (body : Bytes)
      → holds t mg.new_addr mg.chunk_id ≡ true
      → entry mg t ≡ entry mg s
      → (o : Option Bytes)
      → (cluster.update_shard_replicas t mg.bucket mg.key mg.stripe_index mg.shard_index
          (mg.new_addr ∷ [])).1
        ≡ o
      → let u =
          (cluster.update_shard_replicas t mg.bucket mg.key mg.stripe_index mg.shard_index
            (mg.new_addr ∷ [])).0 in
        Moved mg s (elim o [
          | none ↦ (u, success (pos (length body)))
          | some e ↦ (u, failure (pos (length body)) (update_meta e))
        ])
  finish_update-Moved mg s t body stored same none e = inl (
    refl,
    laws.update_sets t mg.bucket mg.key mg.stripe_index mg.shard_index (mg.new_addr ∷ []) e,
    laws.update_holds t mg.bucket mg.key mg.stripe_index mg.shard_index (mg.new_addr ∷ [])
          mg.new_addr mg.chunk_id
        ∙ stored,
  )
  finish_update-Moved mg s t body stored same (some x) e = inr (
    refl,
    laws.update_fails t mg.bucket mg.key mg.stripe_index mg.shard_index (mg.new_addr ∷ []) x e
        ∙ same,
  )

  finish_shard-Moved :
      (mg : Migration) (s : S) (body : Bytes)
      → Moved mg s
          (finish_shard cluster mg body (cluster.put_chunk_to s mg.new_addr mg.chunk_id body))
  finish_shard-Moved mg s body = by_put _ refl
    where
      put_same :
          (t : S)
          → cluster.put_chunk_to s mg.new_addr mg.chunk_id body ≡ (t, none)
          → entry mg t ≡ entry mg s
      put_same t p =
          subst (λ (r : S × Option Bytes). entry mg r.0 ≡ entry mg s) p
            (laws.put_replicas s mg.new_addr mg.chunk_id body mg.bucket mg.key mg.stripe_index
              mg.shard_index)

      stored :
          (t : S)
          → cluster.put_chunk_to s mg.new_addr mg.chunk_id body ≡ (t, none)
          → holds t mg.new_addr mg.chunk_id ≡ true
      stored t p =
          subst (λ (r : S × Option Bytes). holds r.0 mg.new_addr mg.chunk_id ≡ true) p
            (laws.put_stores s mg.new_addr mg.chunk_id body (ap (λ r. r.1) p))

      by_put :
          (r : S × Option Bytes)
          → cluster.put_chunk_to s mg.new_addr mg.chunk_id body ≡ r
          → Moved mg s (finish_shard cluster mg body r)
      by_put (t, some e) p =
          unfold finish_shard in
          inr (
            refl,
            subst (λ (r : S × Option Bytes). entry mg r.0 ≡ entry mg s) p
                (laws.put_replicas s mg.new_addr mg.chunk_id body mg.bucket mg.key mg.stripe_index
                  mg.shard_index),
          )
      by_put (t, none) p =
          unfold finish_shard in finish_update-Moved mg s t body (stored t p) (put_same t p) _ refl

  -- The move of a shard that reports success leaves the new node as the only replica of the shard in
  -- the metadata, and the chunk on that node; one that reports a failure leaves the metadata of the
  -- shard as it was.
  pub migrate_shard-Moved : (mg : Migration) (s : S) → Moved mg s (migrate_shard cluster mg s)
  unfolding migrate_shard
  migrate_shard-Moved mg s =
      by_tests (is_empty mg.old_addr || is_empty mg.new_addr)
        (cluster.read_chunk s mg.chunk_id (mg.old_addr ∷ []))
    where
      by_tests :
          (b : Bool) (r : Call Bytes)
          → Moved mg s (
              if b then (s, failure (pos 0) missing_addr) else elim r [
                | failed e ↦ (s, failure (pos 0) (read_source e))
                | ok body ↦
                    finish_shard cluster mg body
                      (cluster.put_chunk_to s mg.new_addr mg.chunk_id body)
              ])
      by_tests true r = inr (refl, refl)
      by_tests false (failed e) = inr (refl, refl)
      by_tests false (ok body) = finish_shard-Moved mg s body
