-- ===== src/Store.antt =====
-- internal/store/store.go: the records of the metadata store, its database and how a method commits.
-- A time is a number, none for Go's zero time; strings are valid UTF-8, so that JSON gives back what
-- was encoded. A nil slice or map is an empty one.
pub mod Results
pub mod Objects
pub mod Buckets
pub mod Multipart
pub mod Complete
pub mod Nodes
pub mod Keys
pub mod Apply
pub mod Requests
pub mod Agreement
pub mod Replaying
pub mod ReplayingUploads
pub mod Replay
pub mod Shipping
pub mod ShippingUploads
pub mod Shipped
pub mod Catalog
pub mod Cataloguing
pub mod Refinement
pub mod Emptiness
pub mod Assembly
pub mod Completion
mod Examples
use kvfs.Base.{Bool, true, false, Option, none, some, List, [], ◌∷◌, ◌++◌, if◌then◌else◌}
use kvfs.Base.Text.{Bytes}
use kvfs.Base.Int.{ℤ}
use kvfs.Bolt.{Bolt}

pub record ChunkRef : Type 0 where
  pub chunk_id : Bytes
  pub size : ℤ
  pub replicas : List Bytes

pub record EcParams : Type 0 where
  pub k : ℤ
  pub m : ℤ
  pub shard_size : ℤ
  pub data_size : ℤ

pub record Stripe : Type 0 where
  pub stripe_id : Bytes
  pub shards : List ChunkRef
  pub data_len : ℤ

pub record ObjectMeta : Type 0 where
  pub bucket : Bytes
  pub key : Bytes
  pub size : ℤ
  pub content_type : Bytes
  pub etag : Bytes
  pub chunks : List ChunkRef
  pub ec : Option EcParams
  pub stripes : List Stripe
  pub version : ℤ
  pub created_at : Option ℤ
  pub class_label : Bytes
  pub legacy_chunk_id : Bytes
  pub legacy_replicas : List Bytes

has_stripes : List Stripe → Bool
has_stripes [] = false
has_stripes (s ∷ stripes) = true

unfoldable pub is_ec : ObjectMeta → Bool
unfolding has_stripes
is_ec o = elim o.ec [ none ↦ false | some params ↦ has_stripes o.stripes ]

pub record BucketMeta : Type 0 where
  pub name : Bytes
  pub created_at : Option ℤ

pub record PartMeta : Type 0 where
  pub part_number : ℤ
  pub etag : Bytes
  pub size : ℤ
  pub chunks : List ChunkRef
  pub created_at : Option ℤ

pub record Upload : Type 0 where
  pub bucket : Bytes
  pub key : Bytes
  pub upload_id : Bytes
  pub content_type : Bytes
  pub created_at : Option ℤ
  pub parts : List (ℤ × PartMeta)

pub record CompletePart : Type 0 where
  pub part_number : ℤ
  pub etag : Bytes

pub record DnInfo : Type 0 where
  pub id : Bytes
  pub addr : Bytes
  pub last_hb : Option ℤ
  pub status : Bytes

-- An entry of the runtime registry: a JSON map, of which a label may be absent.
pub record RuntimeDn : Type 0 where
  pub addr : Bytes
  pub registered_at : ℤ
  pub class_label : Option Bytes
  pub domain : Option Bytes

pub record UrlKey : Type 0 where
  pub kid : Bytes
  pub secret_hex : Bytes
  pub is_primary : Bool
  pub created_at : Option ℤ

-- `key_required` and `commit_failed` are errors of bbolt, `journal_failed` is an error of the WAL, `hook_failed` one of its hook. `no_id_drawn` stands for a loop that goes on: the identifiers drawn so far are all taken.
pub data Error : Type 0 where
  not_found already_exists bucket_not_empty invalid_part invalid_part_order invalid_name : Error
  required out_of_range not_ec primary_kid no_id_drawn no_object unknown_op undecodable : Error
  key_required : Error
  commit_failed journal_failed hook_failed : Bytes → Error

pub data Result (A : Type 0) : Type 0 where
  done : A → Result A
  fail : Error → Result A

-- What one entry of the WAL says, once its op and args are decoded (wal.go).
pub data Entry : Type 0 where
  put_object_entry : ObjectMeta → Entry
  delete_object_entry : Bytes → Bytes → Entry
  create_bucket_entry : BucketMeta → Entry
  delete_bucket_entry : Bytes → Entry
  create_upload_entry : Upload → Entry
  put_part_entry : Bytes → Bytes → Bytes → PartMeta → Entry
  complete_entry : Bytes → Bytes → Bytes → Option ObjectMeta → Entry
  abort_entry : Bytes → Bytes → Bytes → Entry
  add_dn_entry : Bytes → Entry
  remove_dn_entry : Bytes → Entry
  unknown_entry : Bytes → Entry
  undecodable_entry : Bytes → Entry

-- What the environment answers to a mutation: bbolt's commit, the append to the WAL, with whether a
-- failed append left its line in the file, and the WAL's hook (none where there is no hook).
pub record Io : Type 0 where
  pub commit_error : Option Bytes
  pub append_error : Option Bytes
  pub landed : Bool
  pub hook_error : Option Bytes

module _ (bolt : Bolt) where
  -- The six bbolt buckets.
  pub record Db : Type 0 where
    pub objects : bolt.Bucket ObjectMeta
    pub buckets : bolt.Bucket BucketMeta
    pub uploads : bolt.Bucket Upload
    pub dns : bolt.Bucket DnInfo
    pub runtime_dns : bolt.Bucket RuntimeDn
    pub url_keys : bolt.Bucket UrlKey

  -- The store, with the entries that its WAL got; none is no WAL.
  pub record MetaStore : Type 0 where
    pub db : Db
    pub wal : Option (List Entry)

  -- The file that openInitialized makes.
  unfoldable pub fresh_db : Db
  fresh_db = record {
    objects = bolt.empty ObjectMeta;
    buckets = bolt.empty BucketMeta;
    uploads = bolt.empty Upload;
    dns = bolt.empty DnInfo;
    runtime_dns = bolt.empty RuntimeDn;
    url_keys = bolt.empty UrlKey;
  }

  -- db.Update: a failed transaction, or a failed commit, leaves the database as it was.
  unfoldable pub commit : {A : Type 0} → Io → Db → Result (Db × A) → Db × Result A
  commit io db (fail e) = (db, fail e)
  commit io db (done (next, a)) = elim io.commit_error [
    | none ↦ (next, done a)
    | some text ↦ (db, fail (commit_failed text))
  ]

  -- appendWALControlled
  unfoldable pub append_wal : Io → Bool → Entry → MetaStore → MetaStore × Option Error
  append_wal io fire_hook entry m = elim m.wal [
    | none ↦ (m, none)
    | some log ↦
        let longer = record m { wal = some (log ++ entry ∷ []) } in
        elim io.append_error [
          | none ↦ (
            longer,
            elim io.hook_error [
              | none ↦ none
              | some text ↦ if fire_hook then some (hook_failed text) else none
            ],
          )
          | some text ↦ (if io.landed then longer else m, some (journal_failed text))
        ]
  ]

  -- The end of a mutation: what its transaction gave, and, where it succeeded, the entry.
  unfoldable pub answer : {A : Type 0} → A → MetaStore × Option Error → MetaStore × Result A
  answer a (m, none) = (m, done a)
  answer a (m, some e) = (m, fail e)

  unfoldable pub then_log :
      {A : Type 0} → Io → Bool → (A → Entry) → MetaStore → Db × Result A → MetaStore × Result A
  unfolding answer append_wal
  then_log io fire_hook entry m (db, fail e) = (record m { db = db }, fail e)
  then_log io fire_hook entry m (db, done a) =
      answer a (append_wal io fire_hook (entry a) (record m { db = db }))

  -- The end of a mutation that writes no entry.
  unfoldable pub without_log : {A : Type 0} → MetaStore → Db × Result A → MetaStore × Result A
  without_log m p = (record m { db = p.0 }, p.1)
