-- ===== src/Store/Nodes.antt =====
-- internal/store/store.go: the registries of storage nodes. An absent label reads as the empty one.
use kvfs.Base.{ℕ, suc, Bool, true, Option, none, some, List, [], ◌∷◌, if◌then◌else◌, map}
use kvfs.Base.Text.{Bytes, beq, blt, is_empty}
use kvfs.Base.Int.{ℤ}
use kvfs.Base.Sort.{sort}
use kvfs.Bolt.{Bolt}
use kvfs.Store.{
  DnInfo, RuntimeDn, Result, Io, Db, MetaStore, commit, then_log, without_log, not_found, required,
  key_required, done, fail, add_dn_entry, remove_dn_entry,
}

unfoldable pub registered : ℤ → Bytes → RuntimeDn
registered now addr = record { addr = addr; registered_at = now; class_label = none; domain = none }

unfoldable label_of : Option Bytes → Bytes
label_of none = []
label_of (some label) = label

unfoldable label_from : Bytes → Option Bytes
label_from label = if is_empty label then none else some label

module _ (bolt : Bolt) where
  unfoldable put_dn : Io → DnInfo → MetaStore bolt → MetaStore bolt × Result (Unit {0})
  put_dn io dn m = without_log bolt m (
      commit bolt io m.db (
        if is_empty dn.id
        then fail key_required
        else done (record m.db { dns = bolt.put dn.id dn m.db.dns }, tt)))

  unfoldable list_dns : Db bolt → List DnInfo
  list_dns db = map (λ e. e.1) (bolt.items db.dns)

  unfoldable pub add_dn_tx : ℤ → Bytes → Db bolt → Result (Db bolt × Unit {0})
  add_dn_tx now addr db =
      done (record db { runtime_dns = bolt.put addr (registered now addr) db.runtime_dns }, tt)

  -- addRuntimeDNInternal
  unfoldable pub add_runtime_dn_internal :
      Bool → Io → ℤ → Bytes → MetaStore bolt → MetaStore bolt × Result (Unit {0})
  add_runtime_dn_internal write_wal io now addr m =
      let end = commit bolt io m.db (add_dn_tx now addr m.db) in
      if is_empty addr
      then (m, fail required)
      else if write_wal
      then then_log bolt io true (λ u. add_dn_entry addr) m end
      else without_log bolt m end

  unfoldable pub add_runtime_dn :
      Io → ℤ → Bytes → MetaStore bolt → MetaStore bolt × Result (Unit {0})
  add_runtime_dn = add_runtime_dn_internal true

  unfoldable pub remove_dn_tx : Bytes → Db bolt → Result (Db bolt × Unit {0})
  remove_dn_tx addr db = done (record db { runtime_dns = bolt.del addr db.runtime_dns }, tt)

  -- removeRuntimeDNInternal
  unfoldable pub remove_runtime_dn_internal :
      Bool → Io → Bytes → MetaStore bolt → MetaStore bolt × Result (Unit {0})
  remove_runtime_dn_internal write_wal io addr m =
      let end = commit bolt io m.db (remove_dn_tx addr m.db) in
      if is_empty addr
      then (m, fail required)
      else if write_wal
      then then_log bolt io true (λ u. remove_dn_entry addr) m end
      else without_log bolt m end

  unfoldable pub remove_runtime_dn :
      Io → Bytes → MetaStore bolt → MetaStore bolt × Result (Unit {0})
  remove_runtime_dn = remove_runtime_dn_internal true

  unfoldable list_runtime_dns : Db bolt → List Bytes
  list_runtime_dns db = sort blt (map (λ e. e.0) (bolt.items db.runtime_dns))

  -- The transaction that SetRuntimeDNClass and SetRuntimeDNDomain share.
  unfoldable relabel_tx : (RuntimeDn → RuntimeDn) → Bytes → Db bolt → Result (Db bolt × Unit {0})
  relabel_tx change addr db = elim (bolt.get addr db.runtime_dns) [
    | none ↦ fail not_found
    | some entry ↦
        done (record db { runtime_dns = bolt.put addr (change entry) db.runtime_dns }, tt)
  ]

  unfoldable set_runtime_dn_class :
      Io → Bytes → Bytes → MetaStore bolt → MetaStore bolt × Result (Unit {0})
  set_runtime_dn_class io addr label m =
      let change = λ (e : RuntimeDn). record e { class_label = label_from label } in
      if is_empty addr
      then (m, fail required)
      else without_log bolt m (commit bolt io m.db (relabel_tx change addr m.db))

  unfoldable set_runtime_dn_domain :
      Io → Bytes → Bytes → MetaStore bolt → MetaStore bolt × Result (Unit {0})
  set_runtime_dn_domain io addr label m =
      let change = λ (e : RuntimeDn). record e { domain = label_from label } in
      if is_empty addr
      then (m, fail required)
      else without_log bolt m (commit bolt io m.db (relabel_tx change addr m.db))

  unfoldable runtime_dn_domain : Bytes → Db bolt → Result Bytes
  runtime_dn_domain addr db = elim (bolt.get addr db.runtime_dns) [
    | none ↦ fail not_found
    | some entry ↦ done (label_of entry.domain)
  ]

  unfoldable runtime_dn_class : Bytes → Db bolt → Result Bytes
  runtime_dn_class addr db = elim (bolt.get addr db.runtime_dns) [
    | none ↦ fail not_found
    | some entry ↦ done (label_of entry.class_label)
  ]

  unfoldable list_runtime_dns_with_domain : Db bolt → List (Bytes × Bytes)
  list_runtime_dns_with_domain db =
      map (λ e. (e.0, label_of e.1.domain)) (bolt.items db.runtime_dns)

  -- The loop of ListRuntimeDNsByClass.
  unfoldable of_class : Bytes → List (Bytes × RuntimeDn) → List Bytes
  of_class label [] = []
  of_class label ((addr, entry) ∷ items) =
      let rest = of_class label items in
      if beq (label_of entry.class_label) label then addr ∷ rest else rest

  unfoldable list_runtime_dns_by_class : Bytes → Db bolt → List Bytes
  list_runtime_dns_by_class label db = sort blt (of_class label (bolt.items db.runtime_dns))

  -- The loop of SeedRuntimeDNs from round i; none is an address that bbolt refuses.
  unfoldable seed_all :
      (ℕ → ℤ) → ℕ → List Bytes → bolt.Bucket RuntimeDn → Option (bolt.Bucket RuntimeDn)
  seed_all clock i [] b = some b
  seed_all clock i (addr ∷ addrs) b =
      let rest = seed_all clock (suc i) addrs (bolt.put addr (registered (clock i) addr) b) in
      if is_empty addr then none else rest

  unfoldable seed_runtime_dns_tx : (ℕ → ℤ) → List Bytes → Db bolt → Result (Db bolt × Unit {0})
  seed_runtime_dns_tx clock addrs db = elim (seed_all clock 0 addrs (bolt.empty RuntimeDn)) [
    | none ↦ fail key_required
    | some b ↦ done (record db { runtime_dns = b }, tt)
  ]

  -- The argument is the clock, at each round of the loop.
  unfoldable seed_runtime_dns :
      Io → (ℕ → ℤ) → List Bytes → MetaStore bolt → MetaStore bolt × Result (Unit {0})
  seed_runtime_dns io clock addrs m =
      without_log bolt m (commit bolt io m.db (seed_runtime_dns_tx clock addrs m.db))
