-- ===== src/Store/Buckets.antt =====
-- internal/store/store.go: the methods on buckets, and the rules of a bucket's name.
use kvfs.Base.{
  ℕ, suc, ◌+◌, ◌-◌, ◌*◌, Bool, true, false, Option, none, some, List, [], ◌∷◌, ◌++◌, if◌then◌else◌,
  ◌==◌, ◌&&◌, ◌||◌, not, ltb, leb, length, map,
}
use kvfs.Base.Text.{Bytes, blt, is_empty}
use kvfs.Base.Int.{ℤ}
use kvfs.Bolt.{Bolt, first_from, found_prefix}
use kvfs.Base.Sort.{sort}
use kvfs.Store.Objects.{time_or}
use kvfs.Store.{
  BucketMeta, Error, Result, Io, Db, MetaStore, commit, then_log, without_log, not_found,
  already_exists, bucket_not_empty, invalid_name, required, done, fail, create_bucket_entry,
  delete_bucket_entry,
}

unfoldable is_digit : ℕ → Bool
is_digit c = leb b'0' c && leb c b'9'

-- net.ParseIP on a dotted address: four numbers up to 255 without leading zeros. The arguments are
-- the numbers read so far, whether one was begun, and its value. An IPv6 address has a colon, and the
-- test of the letters refuses a name that has one, with the same error.
unfoldable pub is_ipv4_from : ℕ → Bool → ℕ → Bytes → Bool
unfolding is_digit
is_ipv4_from dots begun value [] = (dots == 3) && begun
is_ipv4_from dots begun value (c ∷ rest) =
    let after = value * 10 + (c - b'0') in
    let in_number = is_ipv4_from dots true after rest in
    let in_next = is_ipv4_from (suc dots) false 0 rest in
    if is_digit c
    then not (begun && (value == 0)) && leb after 255 && in_number
    else (c == b'.') && begun && ltb dots 3 && in_next

unfoldable pub is_ipv4 : Bytes → Bool
is_ipv4 name = is_ipv4_from 0 false 0 name

unfoldable pub is_dot_or_dash : ℕ → Bool
is_dot_or_dash c = (c == b'.') || (c == b'-')

unfoldable pub starts_badly : Bytes → Bool
starts_badly [] = false
starts_badly (c ∷ name) = is_dot_or_dash c

unfoldable pub ends_badly : Bytes → Bool
ends_badly [] = false
ends_badly (c ∷ []) = is_dot_or_dash c
ends_badly (c ∷ d ∷ name) = ends_badly (d ∷ name)

unfoldable pub is_name_letter : ℕ → Bool
unfolding is_digit
is_name_letter c = leb b'a' c && leb c b'z' || is_digit c || (c == b'-') || (c == b'.')

-- The loop over the letters; a byte of a rune that is not ASCII is no letter of a name.
unfoldable pub letters_ok : Bool → Bytes → Bool
letters_ok prev_dot [] = true
letters_ok prev_dot (c ∷ name) =
    is_name_letter c && not ((c == b'.') && prev_dot) && letters_ok (c == b'.') name

-- ValidateBucketName, with one error for all of its reasons.
unfoldable pub validate_bucket_name : Bytes → Option Error
validate_bucket_name name =
    if ltb (length name) 3 || ltb 63 (length name)
    then some invalid_name
    else if is_ipv4 name
    then some invalid_name
    else if starts_badly name || ends_badly name
    then some invalid_name
    else if letters_ok false name
    then none
    else some invalid_name

module _ (bolt : Bolt) where
  unfoldable pub create_bucket_tx : ℤ → Bytes → Db bolt → Result (Db bolt × BucketMeta)
  create_bucket_tx now name db = elim (bolt.get name db.buckets) [
    | some b ↦ fail already_exists
    | none ↦
        let meta : BucketMeta = record { name = name; created_at = some now } in
        done (record db { buckets = bolt.put name meta db.buckets }, meta)
  ]

  unfoldable pub create_bucket :
      Io → ℤ → Bytes → MetaStore bolt → MetaStore bolt × Result BucketMeta
  create_bucket io now name m = elim (validate_bucket_name name) [
    | some e ↦ (m, fail e)
    | none ↦
        then_log bolt io true create_bucket_entry m
          (commit bolt io m.db (create_bucket_tx now name m.db))
  ]

  -- createBucketReplay
  unfoldable pub create_bucket_replay :
      Io → ℤ → BucketMeta → MetaStore bolt → MetaStore bolt × Result (Unit {0})
  create_bucket_replay io now meta m =
      if is_empty meta.name
      then (m, fail required)
      else (let stored = record meta { created_at = time_or now meta.created_at } in
          without_log bolt m (
            commit bolt io m.db
              (done (record m.db { buckets = bolt.put meta.name stored m.db.buckets }, tt))))

  unfoldable get_bucket : Bytes → Db bolt → Result BucketMeta
  get_bucket name db = elim (bolt.get name db.buckets) [
    | none ↦ fail not_found
    | some meta ↦ done meta
  ]

  -- ListBuckets: ForEach visits the keys in order, and the sort by name follows.
  unfoldable list_buckets : Db bolt → List BucketMeta
  list_buckets db = sort (λ a b. blt a.name b.name) (map (λ e. e.1) (bolt.items db.buckets))

  unfoldable pub bucket_has_objects : Bytes → Db bolt → Bool
  bucket_has_objects name db =
      let prefix = name ++ b'/' ∷ [] in
      found_prefix prefix (first_from prefix (bolt.items db.objects))

  unfoldable pub delete_bucket_tx : Bytes → Db bolt → Result (Db bolt × Unit {0})
  delete_bucket_tx name db = elim (bolt.get name db.buckets) [
    | none ↦ fail not_found
    | some b ↦
        let prefix = name ++ b'/' ∷ [] in
        if found_prefix prefix (first_from prefix (bolt.items db.objects))
        then fail bucket_not_empty
        else done (record db { buckets = bolt.del name db.buckets }, tt)
  ]

  -- deleteBucketInternal
  unfoldable pub delete_bucket_internal :
      Bool → Io → Bytes → MetaStore bolt → MetaStore bolt × Result (Unit {0})
  delete_bucket_internal write_wal io name m =
      let end = commit bolt io m.db (delete_bucket_tx name m.db) in
      if write_wal
      then then_log bolt io true (λ u. delete_bucket_entry name) m end
      else without_log bolt m end

  unfoldable pub delete_bucket : Io → Bytes → MetaStore bolt → MetaStore bolt × Result (Unit {0})
  delete_bucket = delete_bucket_internal true
