-- ===== src/Store/Objects.antt =====
-- internal/store/store.go: the methods on objects.
use kvfs.Base.{
  ℕ, zero, suc, Bool, true, false, Option, none, some, List, [], ◌∷◌, ◌++◌, ◌&&◌, ◌||◌, not, ltb,
  length, map, if◌then◌else◌,
}
use kvfs.Base.Text.{Bytes, beq, is_empty, has_prefix}
use kvfs.Base.Int.{ℤ, pos, negsuc, ltb_ℤ, eqb_ℤ, ◌+₆₄◌}
use kvfs.Bolt.{Bolt}
use kvfs.Store.{
  ChunkRef, Stripe, ObjectMeta, is_ec, Result, Io, Db, MetaStore, commit, then_log, without_log,
  not_found, out_of_range, not_ec, done, fail, put_object_entry, delete_object_entry,
}

unfoldable pub obj_key : Bytes → Bytes → Bytes
obj_key bucket key = bucket ++ b'/' ∷ key

-- One more than the version that the record has so far; a version that is 0 becomes 1.
unfoldable pub next_version : Option ObjectMeta → ℤ → ℤ
next_version prev version =
    let v : ℤ = elim prev [ none ↦ version | some p ↦ p.version +₆₄ pos 1 ] in
    if eqb_ℤ v (pos 0) then pos 1 else v

unfoldable pub time_or : ℤ → Option ℤ → Option ℤ
time_or now none = some now
time_or now (some t) = some t

unfoldable pub has_no_chunks : List ChunkRef → Bool
has_no_chunks [] = true
has_no_chunks (c ∷ chunks) = false

has_no_stripes : List Stripe → Bool
has_no_stripes [] = true
has_no_stripes (s ∷ stripes) = false

unfoldable pub normalize_legacy : ObjectMeta → ObjectMeta
unfolding has_no_chunks has_no_stripes
normalize_legacy o = record o {
  chunks =
      if has_no_chunks o.chunks && has_no_stripes o.stripes && not (is_empty o.legacy_chunk_id)
      then record { chunk_id = o.legacy_chunk_id; size = o.size; replicas = o.legacy_replicas } ∷ []
      else o.chunks;
  legacy_chunk_id = [];
  legacy_replicas = [];
}

-- xs[i].Replicas = replicas, at an index that is in range.
unfoldable pub set_replicas : ℕ → List Bytes → List ChunkRef → List ChunkRef
set_replicas i replicas [] = []
set_replicas zero replicas (c ∷ chunks) = record c { replicas = replicas } ∷ chunks
set_replicas (suc i) replicas (c ∷ chunks) = c ∷ set_replicas i replicas chunks

-- The replicas of a chunk, where the index is in range.
unfoldable pub replaced : ℤ → List Bytes → List ChunkRef → Option (List ChunkRef)
replaced (negsuc i) replicas chunks = none
replaced (pos i) replicas chunks =
    if ltb i (length chunks) then some (set_replicas i replicas chunks) else none

unfoldable pub replaced_at : ℕ → ℤ → List Bytes → List Stripe → Option (List Stripe)
replaced_at i shard replicas [] = none
replaced_at zero shard replicas (s ∷ stripes) = elim (replaced shard replicas s.shards) [
  | none ↦ none
  | some shards ↦ some (record s { shards = shards } ∷ stripes)
]
replaced_at (suc i) shard replicas (s ∷ stripes) = elim (replaced_at i shard replicas stripes) [
  | none ↦ none
  | some rest ↦ some (s ∷ rest)
]

unfoldable pub replaced_shard : ℤ → ℤ → List Bytes → List Stripe → Option (List Stripe)
replaced_shard (negsuc i) shard replicas stripes = none
replaced_shard (pos i) shard replicas stripes = replaced_at i shard replicas stripes

unfoldable pub is_listed : Bytes → Bytes → ObjectMeta → Bool
is_listed bucket prefix o =
    (is_empty bucket || beq o.bucket bucket) && (is_empty prefix || has_prefix o.key prefix)

unfoldable pub is_full : ℤ → List ObjectMeta → Bool
is_full limit out = ltb_ℤ (pos 0) limit && not (ltb_ℤ (pos (length out)) limit)

-- The loop of ListObjectsByPrefix.
unfoldable pub collect : Bytes → Bytes → ℤ → List ObjectMeta → List ObjectMeta → List ObjectMeta
collect bucket prefix limit [] out = out
collect bucket prefix limit (o ∷ all) out =
    let kept = if is_listed bucket prefix o then out ++ o ∷ [] else out in
    let rest = collect bucket prefix limit all kept in
    if is_listed bucket prefix o && is_full limit kept then kept else rest

module _ (bolt : Bolt) where
  -- The transaction of PutObject: the database and the object with its version and time.
  unfoldable pub put_object_tx : ℤ → ObjectMeta → Db bolt → Result (Db bolt × ObjectMeta)
  put_object_tx now obj db =
      let k = obj_key obj.bucket obj.key in
      let stored = record obj {
        version = next_version (bolt.get k db.objects) obj.version;
        created_at = time_or now obj.created_at;
      } in
      done (record db { objects = bolt.put k stored db.objects }, stored)

  -- putObjectInternalFull
  unfoldable pub put_object_full :
      Bool → Bool → Io → ℤ → ObjectMeta → MetaStore bolt → MetaStore bolt × Result ObjectMeta
  put_object_full write_wal fire_hook io now obj m =
      let end = commit bolt io m.db (put_object_tx now obj m.db) in
      if write_wal
      then then_log bolt io fire_hook put_object_entry m end
      else without_log bolt m end

  unfoldable pub put_object :
      Io → ℤ → ObjectMeta → MetaStore bolt → MetaStore bolt × Result ObjectMeta
  put_object = put_object_full true true

  unfoldable pub put_object_after_replicate :
      Io → ℤ → ObjectMeta → MetaStore bolt → MetaStore bolt × Result ObjectMeta
  put_object_after_replicate = put_object_full true false

  unfoldable pub get_object : Bytes → Bytes → Db bolt → Result ObjectMeta
  get_object bucket key db = elim (bolt.get (obj_key bucket key) db.objects) [
    | none ↦ fail not_found
    | some o ↦ done (normalize_legacy o)
  ]

  unfoldable pub update_chunk_replicas_tx :
      Bytes → Bytes → ℤ → List Bytes → Db bolt → Result (Db bolt × Unit {0})
  update_chunk_replicas_tx bucket key index replicas db =
      let k = obj_key bucket key in
      elim (bolt.get k db.objects) [
        | none ↦ fail not_found
        | some raw ↦
            let o = normalize_legacy raw in
            elim (replaced index replicas o.chunks) [
              | none ↦ fail out_of_range
              | some chunks ↦
                  done (
                    record db { objects = bolt.put k (record o { chunks = chunks }) db.objects },
                    tt,
                  )
            ]
      ]

  unfoldable pub update_chunk_replicas :
      Io → Bytes → Bytes → ℤ → List Bytes → MetaStore bolt → MetaStore bolt × Result (Unit {0})
  update_chunk_replicas io bucket key index replicas m =
      without_log bolt m
        (commit bolt io m.db (update_chunk_replicas_tx bucket key index replicas m.db))

  unfoldable pub update_shard_replicas_tx :
      Bytes → Bytes → ℤ → ℤ → List Bytes → Db bolt → Result (Db bolt × Unit {0})
  update_shard_replicas_tx bucket key stripe shard replicas db =
      let k = obj_key bucket key in
      elim (bolt.get k db.objects) [
        | none ↦ fail not_found
        | some raw ↦
            let o = normalize_legacy raw in
            if is_ec o
            then elim (replaced_shard stripe shard replicas o.stripes) [
              | none ↦ fail out_of_range
              | some stripes ↦ done (
                record db { objects = bolt.put k (record o { stripes = stripes }) db.objects },
                tt,
              )
            ]
            else fail not_ec
      ]

  unfoldable pub update_shard_replicas :
      Io → Bytes → Bytes → ℤ → ℤ → List Bytes → MetaStore bolt → MetaStore bolt × Result (Unit {0})
  update_shard_replicas io bucket key stripe shard replicas m =
      without_log bolt m
        (commit bolt io m.db (update_shard_replicas_tx bucket key stripe shard replicas m.db))

  unfoldable pub delete_object_tx : Bytes → Bytes → Db bolt → Result (Db bolt × Unit {0})
  delete_object_tx bucket key db =
      let k = obj_key bucket key in
      elim (bolt.get k db.objects) [
        | none ↦ fail not_found
        | some o ↦ done (record db { objects = bolt.del k db.objects }, tt)
      ]

  -- deleteObjectInternal
  unfoldable pub delete_object_internal :
      Bool → Io → Bytes → Bytes → MetaStore bolt → MetaStore bolt × Result (Unit {0})
  delete_object_internal write_wal io bucket key m =
      let end = commit bolt io m.db (delete_object_tx bucket key m.db) in
      if write_wal
      then then_log bolt io true (λ u. delete_object_entry bucket key) m end
      else without_log bolt m end

  unfoldable pub delete_object :
      Io → Bytes → Bytes → MetaStore bolt → MetaStore bolt × Result (Unit {0})
  delete_object = delete_object_internal true

  -- The objects in the order of their keys.
  unfoldable list_objects : Db bolt → List ObjectMeta
  list_objects db = map (λ e. normalize_legacy e.1) (bolt.items db.objects)

  unfoldable list_objects_by_prefix : Bytes → Bytes → ℤ → Db bolt → List ObjectMeta
  list_objects_by_prefix bucket prefix limit db = collect bucket prefix limit (list_objects db) []
