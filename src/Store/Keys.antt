-- ===== src/Store/Keys.antt =====
-- internal/store/store.go: the secrets of signed URLs. PutURLKey writes inside ForEach, where bbolt
-- leaves open which items are visited from then on: the visited items are an argument.
use kvfs.Base.{Bool, false, Option, none, some, List, [], ◌∷◌, if◌then◌else◌, ◌||◌, map}
use kvfs.Base.Text.{Bytes, blt, is_empty}
use kvfs.Base.Int.{ℤ}
use kvfs.Base.Sort.{sort}
use kvfs.Bolt.{Bolt}
use kvfs.Store.{
  UrlKey, Result, Io, Db, MetaStore, commit, without_log, not_found, required, primary_kid, done,
  fail,
}

-- The creation time that is kept, or the time now.
unfoldable kept_time : ℤ → Option UrlKey → Option ℤ
kept_time now none = some now
kept_time now (some e) = elim e.created_at [ none ↦ some now | some t ↦ some t ]

module _ (bolt : Bolt) where
  unfoldable clear_primaries : List (Bytes × UrlKey) → bolt.Bucket UrlKey → bolt.Bucket UrlKey
  clear_primaries [] b = b
  clear_primaries ((k, e) ∷ visited) b =
      clear_primaries visited
        (if e.is_primary then bolt.put k (record e { is_primary = false }) b else b)

  unfoldable put_url_key_tx :
      List (Bytes × UrlKey) → ℤ → Bytes → Bytes → Bool → Db bolt → Result (Db bolt × Unit {0})
  put_url_key_tx visited now kid secret_hex is_primary db =
      let cleared = if is_primary then clear_primaries visited db.url_keys else db.url_keys in
      let entry : UrlKey = record {
        kid = kid;
        secret_hex = secret_hex;
        is_primary = is_primary;
        created_at = kept_time now (bolt.get kid cleared);
      } in
      done (record db { url_keys = bolt.put kid entry cleared }, tt)

  unfoldable put_url_key :
      List (Bytes × UrlKey)
      → Io
      → ℤ
      → Bytes
      → Bytes
      → Bool
      → MetaStore bolt
      → MetaStore bolt × Result (Unit {0})
  put_url_key visited io now kid secret_hex is_primary m =
      if is_empty kid || is_empty secret_hex
      then (m, fail required)
      else without_log bolt m
          (commit bolt io m.db (put_url_key_tx visited now kid secret_hex is_primary m.db))

  unfoldable delete_url_key_tx : Bytes → Db bolt → Result (Db bolt × Unit {0})
  delete_url_key_tx kid db = elim (bolt.get kid db.url_keys) [
    | none ↦ fail not_found
    | some e ↦
        if e.is_primary
        then fail primary_kid
        else done (record db { url_keys = bolt.del kid db.url_keys }, tt)
  ]

  unfoldable delete_url_key : Io → Bytes → MetaStore bolt → MetaStore bolt × Result (Unit {0})
  delete_url_key io kid m = without_log bolt m (commit bolt io m.db (delete_url_key_tx kid m.db))

  unfoldable list_url_keys : Db bolt → List UrlKey
  list_url_keys db = sort (λ a b. blt a.kid b.kid) (map (λ e. e.1) (bolt.items db.url_keys))
