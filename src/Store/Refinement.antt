-- ===== src/Store/Refinement.antt =====
-- The objects of the store refine the abstract catalog.
use kvfs.Base.{List, [], ◌∷◌, ◌≡◌, refl}
use mathlib.Core.Path.{ap₂}
use kvfs.Bolt.{Bolt}
use kvfs.Store.{Db}
use kvfs.Store.Catalog.{
  ObjectCall, IsNamed, CatalogState, catalog_replies, replies, put_now, delete_one, move_chunk,
  move_shard, read,
}
use kvfs.Store.Cataloguing.{
  Represents, Simulates, put-Simulates, delete-Simulates, read-Simulates, move_chunk-Simulates,
  move_shard-Simulates,
}

abbrev AllNamed : List ObjectCall → Type 0
AllNamed [] = Unit
AllNamed (c ∷ calls) = IsNamed c × AllNamed calls

module _ (bolt : Bolt) where
  call-Simulates :
      (c : ObjectCall) (s : CatalogState) (d : Db bolt)
      → Represents bolt s d
      → IsNamed c
      → Simulates bolt s d c
  call-Simulates (put_now now obj) s d h p = put-Simulates bolt now obj s d h p
  call-Simulates (delete_one bucket key) s d h p = delete-Simulates bolt bucket key s d h p
  call-Simulates (move_chunk bucket key i replicas) s d h p =
      move_chunk-Simulates bolt bucket key i replicas s d h p
  call-Simulates (move_shard bucket key i j replicas) s d h p =
      move_shard-Simulates bolt bucket key i j replicas s d h p
  call-Simulates (read bucket key) s d h p = read-Simulates bolt bucket key s d h p

  -- Any sequence of puts, deletions, updates of replicas and reads of objects, in buckets whose names
  -- have no slash, gets from the store the replies that the abstract catalog gives, if the catalog is
  -- what readers see of the database at the start.
  pub replies-catalog_lem :
      (calls : List ObjectCall) (s : CatalogState) (d : Db bolt)
      → Represents bolt s d
      → AllNamed calls
      → replies bolt calls d ≡ catalog_replies calls s
  unfolding replies catalog_replies Simulates
  replies-catalog_lem [] s d h named = refl
  replies-catalog_lem (c ∷ calls) s d h named =
      let one = call-Simulates c s d h named.0 in
      ap₂ (λ r l. r ∷ l) one.0 (replies-catalog_lem calls _ _ one.1 named.1)
