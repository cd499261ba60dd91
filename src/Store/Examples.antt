-- ===== src/Store/Examples.antt =====
-- Runs of the store at concrete inputs, on buckets that are lists.
use kvfs.Base.{◌≢◌, ◌⊎◌, true, none, some, List, [], ◌∷◌, ◌≡◌, ◌↔◌, refl}
use kvfs.Base.Text.{Bytes, beq, is_empty}
use kvfs.Base.Int.{ℤ, pos}
use kvfs.Bolt.Listed.{listed, get, put}
use kvfs.Store.{
  ChunkRef, ObjectMeta, BucketMeta, PartMeta, Upload, CompletePart, Io, Db, MetaStore, fresh_db,
  not_found, bucket_not_empty, done, fail,
}
use kvfs.Store.Objects.{obj_key, get_object}
use kvfs.Store.Buckets.{delete_bucket_tx}
use kvfs.Store.Multipart.{multipart_key}
use kvfs.Store.Complete.{Completed, complete_multipart_upload}
use kvfs.Store.Requests.{
  Request, handle_all, put_call, new_bucket_call, drop_bucket_call, new_upload_call, put_part_call,
  complete_call, add_dn_call,
}
use kvfs.Store.Agreement.{Agrees-refl}
use kvfs.Store.Replay.{Follows}
use kvfs.Store.Shipped.{handle_all-Follows}
use kvfs.Store.Catalog.{
  has_slash, ObjectCall, catalog_replies, replies, put_now, delete_one, move_chunk, read,
}
use kvfs.Store.Cataloguing.{seen, Represents}
use kvfs.Store.Refinement.{replies-catalog_lem}
use kvfs.Store.Emptiness.{delete_bucket-outcome}
use kvfs.Store.Assembly.{IsChosen}
use kvfs.Store.Completion.{IsCompletion, complete-done_iff}

abbrev photos : Bytes
photos = b'p' ∷ b'h' ∷ b'o' ∷ []

abbrev cat_key : Bytes
cat_key = b'c' ∷ []

abbrev id1 : Bytes
id1 = b'1' ∷ []

abbrev node1 : Bytes
node1 = b'n' ∷ []

abbrev toy_sha : Bytes → Bytes
toy_sha s = s

abbrev quiet_io : Io
quiet_io = record { commit_error = none; append_error = none; landed = true; hook_error = none }

abbrev deaf_io : Io
deaf_io = record { commit_error = none; append_error = none; landed = true; hook_error = some id1 }

abbrev broken_io : Io
broken_io = record {
  commit_error = some id1;
  append_error = none;
  landed = true;
  hook_error = none;
}

abbrev chunk1 : ChunkRef
chunk1 = record { chunk_id = id1; size = pos 4; replicas = node1 ∷ [] }

abbrev cat_object : ObjectMeta
cat_object = record {
  bucket = photos;
  key = cat_key;
  size = pos 4;
  content_type = [];
  etag = [];
  chunks = chunk1 ∷ [];
  ec = none;
  stripes = [];
  version = pos 0;
  created_at = none;
  class_label = [];
  legacy_chunk_id = [];
  legacy_replicas = [];
}

abbrev part1 : PartMeta
part1 = record {
  part_number = pos 1;
  etag = id1;
  size = pos 4;
  chunks = chunk1 ∷ [];
  created_at = none;
}

abbrev want1 : CompletePart
want1 = record { part_number = pos 1; etag = [] }

abbrev requests : List (Io × ℤ × Request)
requests =
    (quiet_io, pos 1, new_bucket_call photos)
    ∷ (deaf_io, pos 2, put_call cat_object)
    ∷ (broken_io, pos 3, put_call cat_object)
    ∷ (quiet_io, pos 4, new_upload_call (id1 ∷ []) photos cat_key [])
    ∷ (quiet_io, pos 5, put_part_call photos cat_key id1 part1)
    ∷ (quiet_io, pos 6, complete_call photos cat_key id1 (want1 ∷ []))
    ∷ (quiet_io, pos 7, add_dn_call node1)
    ∷ (quiet_io, pos 8, drop_bucket_call photos)
    ∷ []

abbrev leader : MetaStore listed
leader = record { db = fresh_db listed; wal = some [] }

abbrev follower : MetaStore listed
follower = record { db = fresh_db listed; wal = none }

handle_all-Follows_example :
    Follows listed quiet_io (pos 9) [] (handle_all listed toy_sha requests leader) follower
unfolding is_empty
handle_all-Follows_example =
    handle_all-Follows listed toy_sha quiet_io refl (pos 9) requests [] leader follower refl
      (Agrees-refl listed (fresh_db listed))
      (refl, (refl, (refl, (refl, (refl, (refl, (refl, (refl, tt))))))))
      (tt, (tt, (tt, ((refl, tt), (tt, (tt, (tt, (tt, tt))))))))

abbrev calls : List ObjectCall
calls =
    put_now (pos 1) cat_object
    ∷ move_chunk photos cat_key (pos 0) (node1 ∷ id1 ∷ [])
    ∷ put_now (pos 2) cat_object
    ∷ read photos cat_key
    ∷ delete_one photos cat_key
    ∷ read photos cat_key
    ∷ []

fresh-Represents : Represents listed (λ b k. none) (fresh_db listed)
unfolding fresh_db seen listed get
fresh-Represents b k p = refl

replies-catalog_lem_example :
    replies listed calls (fresh_db listed) ≡ catalog_replies calls (λ b k. none)
unfolding has_slash
replies-catalog_lem_example =
    replies-catalog_lem listed calls (λ b k. none) (fresh_db listed) fresh-Represents
      (refl, (refl, (refl, (refl, (refl, (refl, tt))))))

abbrev photo_bucket : BucketMeta
photo_bucket = record { name = photos; created_at = some (pos 1) }

abbrev one_bucket : Db listed
one_bucket = record (fresh_db listed) {
  buckets = listed.put photos photo_bucket (listed.empty BucketMeta);
  objects = listed.put (obj_key photos cat_key) cat_object (listed.empty ObjectMeta);
}

delete_bucket-outcome_example :
    ((delete_bucket_tx listed photos one_bucket
        ≡ done (record one_bucket { buckets = listed.del photos one_bucket.buckets }, tt {0}))
      ↔ ((key : Bytes) → get_object listed photos key one_bucket ≡ fail not_found))
    × ((delete_bucket_tx listed photos one_bucket ≡ fail bucket_not_empty)
        ↔ ((key : Bytes) × (o : ObjectMeta) × (get_object listed photos key one_bucket ≡ done o)))
unfolding listed get put beq
delete_bucket-outcome_example = delete_bucket-outcome listed photos photo_bucket one_bucket refl

abbrev one_upload : Db listed
one_upload = record (fresh_db listed) {
  uploads =
      listed.put (multipart_key photos cat_key id1)
        (record {
          bucket = photos;
          key = cat_key;
          upload_id = id1;
          content_type = [];
          created_at = some (pos 1);
          parts = (pos 1, part1) ∷ [];
        })
        (listed.empty Upload);
}

abbrev one_upload_store : MetaStore listed
one_upload_store = record leader { db = one_upload }

complete-done_iff_example :
    let call =
      complete_multipart_upload listed toy_sha quiet_io
        (pos 2)
        photos
        cat_key
        id1
        (want1 ∷ [])
        one_upload_store in
    ((c : Completed)
      → call.1 ≡ done c
      → ((want1 ∷ []) ≢ [])
        × IsCompletion listed toy_sha photos cat_key id1 (want1 ∷ []) one_upload call.0.db c)
    × ((call.0.db ≡ one_upload)
        ⊎ (((want1 ∷ []) ≢ [])
            × ((c : Completed) × IsCompletion listed toy_sha photos cat_key id1
                  (want1 ∷ [])
                  one_upload
                  call.0.db
                  c)))
    × (quiet_io.commit_error ≡ none
        → quiet_io.append_error ≡ none
        → quiet_io.hook_error ≡ none
        → (want1 ∷ []) ≢ []
        → (up : Upload) (chosen : List PartMeta)
        → listed.get (multipart_key photos cat_key id1) one_upload.uploads ≡ some up
        → IsChosen up.parts (pos 0) (want1 ∷ []) chosen
        → (c : Completed) × (call.1 ≡ done c))
complete-done_iff_example =
    complete-done_iff listed toy_sha quiet_io (pos 2) photos cat_key id1 (want1 ∷ [])
      one_upload_store
