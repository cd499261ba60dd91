-- ===== src/Store/Catalog.antt =====
-- The objects as a catalog by bucket and key: an abstract store, and how the store's transactions on
-- objects carry it out, where the names of buckets have no slash.
use kvfs.Base.{
  Bool, false, Option, none, some, List, [], ◌∷◌, ◌≡◌, if◌then◌else◌, ◌==◌, ◌&&◌, ◌||◌, arith,
}
use kvfs.Base.Text.{Bytes, beq}
use kvfs.Base.Int.{ℤ}
use kvfs.Base.Decimal.{out_of_range}
use kvfs.Bolt.{Bolt}
use kvfs.Store.{ObjectMeta, is_ec, Result, Db, not_found, out_of_range, not_ec, done, fail}
use kvfs.Store.Objects.{
  obj_key, next_version, time_or, normalize_legacy, replaced, replaced_shard, put_object_tx,
  get_object, update_chunk_replicas_tx, update_shard_replicas_tx, delete_object_tx,
}

-- The name of a bucket as ValidateBucketName admits it has no slash.
unfoldable pub has_slash : Bytes → Bool
has_slash [] = false
has_slash (c ∷ name) = (c == b'/') || has_slash name

pub obj_key-injective :
    (b c k j : Bytes)
    → has_slash b ≡ false
    → has_slash c ≡ false
    → beq (obj_key b k) (obj_key c j) ≡ (beq b c && beq k j)
unfolding has_slash obj_key beq
obj_key-injective [] [] k j p q = ground arith
obj_key-injective [] (d ∷ c) k j p q = ground arith
obj_key-injective (a ∷ b) [] k j p q = ground arith
obj_key-injective (a ∷ b) (d ∷ c) k j p q = ground (arith, obj_key-injective b c k j)

-- A call on one object.
pub data ObjectCall : Type 0 where
  put_now : ℤ → ObjectMeta → ObjectCall
  delete_one : Bytes → Bytes → ObjectCall
  move_chunk : Bytes → Bytes → ℤ → List Bytes → ObjectCall
  move_shard : Bytes → Bytes → ℤ → ℤ → List Bytes → ObjectCall
  read : Bytes → Bytes → ObjectCall

abbrev pub IsNamed : ObjectCall → Type 0
IsNamed (put_now now obj) = has_slash obj.bucket ≡ false
IsNamed (delete_one bucket key) = has_slash bucket ≡ false
IsNamed (move_chunk bucket key i replicas) = has_slash bucket ≡ false
IsNamed (move_shard bucket key i j replicas) = has_slash bucket ≡ false
IsNamed (read bucket key) = has_slash bucket ≡ false

-- What a call gives besides a new state: the object that it put or read.
abbrev pub Reply : Type 0
Reply = Result (Option ObjectMeta)

-- The abstract store: the object of a bucket and a key, in the shape that readers see.
abbrev pub CatalogState : Type 0
CatalogState = Bytes → Bytes → Option ObjectMeta

unfoldable pub set : Bytes → Bytes → Option ObjectMeta → CatalogState → CatalogState
set bucket key o s b k = if beq bucket b && beq key k then o else s b k

unfoldable pub catalog_step : ObjectCall → CatalogState → CatalogState × Reply
unfolding set
catalog_step (put_now now obj) s =
    let stored : ObjectMeta = record obj {
      version = next_version (s obj.bucket obj.key) obj.version;
      created_at = time_or now obj.created_at;
    } in
    (set obj.bucket obj.key (some (normalize_legacy stored)) s, done (some stored))
catalog_step (delete_one bucket key) s = elim (s bucket key) [
  | none ↦ (s, fail not_found)
  | some o ↦ (set bucket key none s, done none)
]
catalog_step (move_chunk bucket key i replicas) s = elim (s bucket key) [
  | none ↦ (s, fail not_found)
  | some o ↦ elim (replaced i replicas o.chunks) [
    | none ↦ (s, fail out_of_range)
    | some chunks ↦ (set bucket key (some (record o { chunks = chunks })) s, done none)
  ]
]
catalog_step (move_shard bucket key i j replicas) s = elim (s bucket key) [
  | none ↦ (s, fail not_found)
  | some o ↦
      if is_ec o
      then elim (replaced_shard i j replicas o.stripes) [
        | none ↦ (s, fail out_of_range)
        | some stripes ↦ (set bucket key (some (record o { stripes = stripes })) s, done none)
      ]
      else (s, fail not_ec)
]
catalog_step (read bucket key) s = elim (s bucket key) [
  | none ↦ (s, fail not_found)
  | some o ↦ (s, done (some o))
]

unfoldable pub catalog_replies : List ObjectCall → CatalogState → List Reply
catalog_replies [] s = []
catalog_replies (c ∷ calls) s = (catalog_step c s).1 ∷ catalog_replies calls (catalog_step c s).0

module _ (bolt : Bolt) where
  -- A transaction that bbolt commits.
  unfoldable pub settle :
      {A : Type 0} → (A → Option ObjectMeta) → Db bolt → Result (Db bolt × A) → Db bolt × Reply
  settle shown d (fail e) = (d, fail e)
  settle shown d (done (next, a)) = (next, done (shown a))

  unfoldable pub read_reply : Result ObjectMeta → Reply
  read_reply (fail e) = fail e
  read_reply (done o) = done (some o)

  unfoldable pub perform : ObjectCall → Db bolt → Db bolt × Reply
  unfolding settle read_reply
  perform (put_now now obj) d = settle some d (put_object_tx bolt now obj d)
  perform (delete_one bucket key) d = settle (λ u. none) d (delete_object_tx bolt bucket key d)
  perform (move_chunk bucket key i replicas) d =
      settle (λ u. none) d (update_chunk_replicas_tx bolt bucket key i replicas d)
  perform (move_shard bucket key i j replicas) d =
      settle (λ u. none) d (update_shard_replicas_tx bolt bucket key i j replicas d)
  perform (read bucket key) d = (d, read_reply (get_object bolt bucket key d))

  unfoldable pub replies : List ObjectCall → Db bolt → List Reply
  replies [] d = []
  replies (c ∷ calls) d = (perform c d).1 ∷ replies calls (perform c d).0
