-- ===== src/Store/Replay.antt =====
-- What a follower of store.go makes of the entries of one logged call of the leader. The mutations that
-- write no entry (of replicas, labels, URL keys and the table of storage nodes) do not reach it.
use kvfs.Base.{
  Bool, false, Option, none, some, List, [], ◌∷◌, ◌++◌, ◌≡◌, inl, inr, refl, subst, All,
  Option-cases, append_nil,
}
use kvfs.Base.Text.{Bytes, is_empty}
use kvfs.Base.Int.{ℤ}
use kvfs.Bolt.{Bolt}
use kvfs.Store.{Result, Entry, Io, Db, MetaStore, commit, then_log, done, fail}
use kvfs.Store.Buckets.{validate_bucket_name}
use kvfs.Store.Multipart.{multipart_key, fresh_id}
use kvfs.Store.Apply.{forget, apply_entry, apply_all}
use kvfs.Store.Requests.{Request, new_upload_call}
use kvfs.Store.Agreement.{Agrees}
use kvfs.Store.Replaying.{commit-done, commit-refused, then_log-appended, forget-store, Applied}

-- Entries with the answers of the environment, and the time, at which a follower applies them.
abbrev pub stamped : Io → ℤ → List Entry → List (Io × ℤ × Entry)
stamped io now [] = []
stamped io now (e ∷ es) = (io, now, e) ∷ stamped io now es

-- Every append to the WAL of a sequence of calls succeeds.
abbrev pub AppendsSucceed : List (Io × ℤ × Request) → Type 0
AppendsSucceed [] = Unit
AppendsSucceed ((io, now, r) ∷ requests) = (io.append_error ≡ none) × AppendsSucceed requests

-- The identifiers that a new upload draws are not empty.
abbrev pub DrawsNames : Request → Type 0
DrawsNames (new_upload_call ids bucket key content_type) = All (λ id. is_empty id ≡ false) ids
DrawsNames (other) = Unit

pub validate-nonempty : (name : Bytes) → validate_bucket_name name ≡ none → is_empty name ≡ false
unfolding validate_bucket_name is_empty
validate-nonempty [] h = cc
validate-nonempty (c ∷ name) h = refl

module _ (bolt : Bolt) where
  pub fresh_id-nonempty :
      (d : Db bolt) (bucket key : Bytes) (ids : List Bytes) (id : Bytes)
      → All (λ i. is_empty i ≡ false) ids
      → fresh_id bolt d bucket key ids ≡ some id
      → is_empty id ≡ false
  unfolding fresh_id
  fresh_id-nonempty d bucket key [] id named t = cc
  fresh_id-nonempty d bucket key (i ∷ ids) id named t =
      elim (Option-cases (bolt.get (multipart_key bucket key i) d.uploads)) [
        | inl g ↦
            (let same : some i ≡ some id = rw (g, fresh_id) at t in
              let eq : i ≡ id = cc in subst (λ x. is_empty x ≡ false) eq named.0)
        | inr (up, g) ↦ fresh_id-nonempty d bucket key ids id named.1 (rw (g, fresh_id) at t)
      ]

  -- The entries that the store's WAL has after `log` bring the follower to the store's metadata.
  pub record Follows (io : Io) (now : ℤ) (log : List Entry) (m f : MetaStore bolt) : Type 0 where
    pub entries : List Entry
    pub grown : m.wal ≡ some (log ++ entries)
    pub agreed : Agrees bolt m.db (apply_all bolt (stamped io now entries) f).0.db
    pub ended : (apply_all bolt (stamped io now entries) f).1 ≡ none

  -- Nothing happened.
  pub nothing-Follows :
      (io : Io) (now : ℤ) (log : List Entry) (m f : MetaStore bolt)
      → m.wal ≡ some (log ++ [])
      → Agrees bolt m.db f.db
      → Follows io now log m f
  unfolding apply_all
  nothing-Follows io now log m f e h = record { entries = []; grown = e; agreed = h; ended = refl }

  apply_one :
      (io : Io) (now : ℤ) (entry : Entry) (f : MetaStore bolt) (d : Db bolt)
      → Applied bolt io now entry f d
      → apply_all bolt (stamped io now (entry ∷ [])) f ≡ ((apply_entry bolt io now entry f).0, none)
  unfolding apply_all
  apply_one io now entry f d a = rw (a.ended, apply_all) refl

  applied-Follows :
      (io : Io) (now : ℤ) (entry : Entry) (log : List Entry) (m f : MetaStore bolt)
      → m.wal ≡ some (log ++ entry ∷ [])
      → Applied bolt io now entry f m.db
      → Follows io now log m f
  applied-Follows io now entry log m f e a = record {
    entries = entry ∷ [];
    grown = e;
    agreed = rw (apply_one io now entry f m.db a) a.agreed;
    ended = rw (apply_one io now entry f m.db a) refl;
  }

  module _ (fio : Io) (now : ℤ) (log : List Entry) (m f : MetaStore bolt) (e : m.wal ≡ some log)
      (h : Agrees bolt m.db f.db) where
    pub unchanged : Follows fio now log m f
    unchanged = nothing-Follows fio now log m f (rw (append_nil log) e) h

    -- A mutation whose entry leads the follower to what its transaction made of the database.
    pub logged-Follows :
        {A : Type 0} (io : Io) (fire : Bool) (entry : A → Entry) (tx : Result (Db bolt × A))
        → io.append_error ≡ none
        → ((d : Db bolt) (a : A) → tx ≡ done (d, a) → Applied bolt fio now (entry a) f d)
        → Follows fio now log
            (forget bolt (then_log bolt io fire entry m (commit bolt io m.db tx))).0
            f
    unfolding commit then_log
    logged-Follows {A} io fire entry tx app step =
        rw (forget-store bolt (then_log bolt io fire entry m (commit bolt io m.db tx)))
          (by_tx tx refl)
      where
        by_commit :
            (d : Db bolt) (a : A)
            → Applied bolt fio now (entry a) f d
            → (c : Option Bytes) → io.commit_error ≡ c
            → Follows fio now log
                (then_log bolt io fire entry m (commit bolt io m.db (done (d, a)))).0
                f
        by_commit d a ok (some text) c = rw (commit-refused bolt io m.db d a text c) unchanged
        by_commit d a ok none c =
            let next : MetaStore bolt = record { db = d; wal = some (log ++ entry a ∷ []) } in
            rw
              (commit-done bolt io m.db d a c, then_log-appended bolt io fire entry m log d a e app)
              (applied-Follows fio now (entry a) log next f refl ok)

        by_tx :
            (t : Result (Db bolt × A))
            → tx ≡ t
            → Follows fio now log (then_log bolt io fire entry m (commit bolt io m.db t)).0 f
        by_tx (fail x) t = unchanged
        by_tx (done (d, a)) t = by_commit d a (step d a t) io.commit_error refl
