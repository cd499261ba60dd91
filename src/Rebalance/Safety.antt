-- ===== src/Rebalance/Safety.antt =====
-- What the copies of migrateChunk in rebalance.go do to the disks, and what they leave alone.
use kvfs.Base.{
  ℕ, Bool, true, Option, none, some, List, [], ◌∷◌, ◌≡◌, inl, inr, refl, ◌∙◌, ap, arith, Bool-cases,
  subst,
}
use kvfs.Base.Text.{Bytes, beq_iff}
use kvfs.Base.Assoc.{contains}
use kvfs.Placement.Spread.{contains-append}
use kvfs.Rebalance.Migrate.{Cluster, Copying, copied, copy_to}

-- What the nodes and the metadata store promise. holds: a node has a chunk on its disk; replicas:
-- the metadata's replicas of a chunk of an object.
pub record IsFaithful {S : Type 0} (cluster : Cluster S) (holds : S → Bytes → Bytes → Bool)
    (replicas : S → Bytes → Bytes → ℕ → List Bytes) : Type 0 where
  pub put_stores :
      (s : S) (addr id body : Bytes)
      → (cluster.put_chunk_to s addr id body).1 ≡ none
      → holds (cluster.put_chunk_to s addr id body).0 addr id ≡ true
  pub put_keeps :
      (s : S) (addr id body a j : Bytes)
      → holds s a j ≡ true
      → holds (cluster.put_chunk_to s addr id body).0 a j ≡ true
  pub put_replicas :
      (s : S) (addr id body b k : Bytes) (i : ℕ)
      → replicas (cluster.put_chunk_to s addr id body).0 b k i ≡ replicas s b k i
  pub update_holds :
      (s : S) (b k : Bytes) (i : ℕ) (addrs : List Bytes) (a j : Bytes)
      → holds (cluster.update_chunk_replicas s b k i addrs).0 a j ≡ holds s a j
  pub update_sets :
      (s : S) (b k : Bytes) (i : ℕ) (addrs : List Bytes)
      → (cluster.update_chunk_replicas s b k i addrs).1 ≡ none
      → replicas (cluster.update_chunk_replicas s b k i addrs).0 b k i ≡ addrs
  pub update_fails :
      (s : S) (b k : Bytes) (i : ℕ) (addrs : List Bytes) (e : Bytes)
      → (cluster.update_chunk_replicas s b k i addrs).1 ≡ some e
      → replicas (cluster.update_chunk_replicas s b k i addrs).0 b k i ≡ replicas s b k i

module _ {S : Type 0} (cluster : Cluster S) (holds : S → Bytes → Bytes → Bool)
    (replicas : S → Bytes → Bytes → ℕ → List Bytes) (laws : IsFaithful cluster holds replicas) where
  -- Every node that the metadata names for the chunk has it.
  abbrev pub Backed : S → Bytes → Bytes → ℕ → Bytes → Type 0
  Backed s b k i id = (a : Bytes) → contains (replicas s b k i) a ≡ true → holds s a id ≡ true

  -- The loop of copies has put the chunk on each node that it counts as successful.
  abbrev pub Copied : Bytes → Copying S → Type 0
  Copied id w = (a : Bytes) → contains w.successful a ≡ true → holds w.state a id ≡ true

  copied-keeps :
      (id dst body a j : Bytes) (w : Copying S)
      → holds w.state a j ≡ true
      → holds (copied cluster dst body w (cluster.put_chunk_to w.state dst id body)).state a j
        ≡ true
  copied-keeps id dst body a j w h = by_put _ refl
    where
      by_put :
          (r : S × Option Bytes)
          → cluster.put_chunk_to w.state dst id body ≡ r
          → holds (copied cluster dst body w r).state a j ≡ true
      by_put (t, none) e =
          unfold copied in
          subst (λ (r : S × Option Bytes). holds r.0 a j ≡ true) e
            (laws.put_keeps w.state dst id body a j h)
      by_put (t, some x) e =
          unfold copied in
          subst (λ (r : S × Option Bytes). holds r.0 a j ≡ true) e
            (laws.put_keeps w.state dst id body a j h)

  copied-replicas :
      (id dst body b k : Bytes) (i : ℕ) (w : Copying S)
      → replicas (copied cluster dst body w (cluster.put_chunk_to w.state dst id body)).state b k i
        ≡ replicas w.state b k i
  copied-replicas id dst body b k i w = by_put _ refl
    where
      by_put :
          (r : S × Option Bytes)
          → cluster.put_chunk_to w.state dst id body ≡ r
          → replicas (copied cluster dst body w r).state b k i ≡ replicas w.state b k i
      by_put (t, none) e =
          unfold copied in
          subst (λ (r : S × Option Bytes). replicas r.0 b k i ≡ replicas w.state b k i) e
            (laws.put_replicas w.state dst id body b k i)
      by_put (t, some x) e =
          unfold copied in
          subst (λ (r : S × Option Bytes). replicas r.0 b k i ≡ replicas w.state b k i) e
            (laws.put_replicas w.state dst id body b k i)

  copied-Copied :
      (id dst body : Bytes) (w : Copying S)
      → Copied id w
      → Copied id (copied cluster dst body w (cluster.put_chunk_to w.state dst id body))
  copied-Copied id dst body w h a m = by_put _ refl m
    where
      kept :
          holds w.state a id ≡ true
          → holds (copied cluster dst body w (cluster.put_chunk_to w.state dst id body)).state a id
            ≡ true
      kept p = copied-keeps id dst body a id w p

      by_put :
          (r : S × Option Bytes)
          → cluster.put_chunk_to w.state dst id body ≡ r
          → contains (copied cluster dst body w r).successful a ≡ true
          → holds (copied cluster dst body w (cluster.put_chunk_to w.state dst id body)).state a id
            ≡ true
      by_put (t, none) e n = elim (Bool-cases (contains w.successful a)) [
        | inl p ↦ kept (h a p)
        | inr p ↦ rw e (
            stored t e (
              unfold copied contains in
              ground (arith, n, p, contains-append w.successful (dst ∷ []) a, beq_iff dst a)))
      ]
        where
          stored :
              (t : S)
              → cluster.put_chunk_to w.state dst id body ≡ (t, none)
              → dst ≡ a
              → holds (copied cluster dst body w (t, none)).state a id ≡ true
          stored t e q =
              unfold copied in
              subst (λ (r : S × Option Bytes). holds r.0 a id ≡ true) e
                (subst
                  (λ (d : Bytes). holds (cluster.put_chunk_to w.state dst id body).0 d id ≡ true) q
                  (laws.put_stores w.state dst id body (ap (λ r. r.1) e)))
      by_put (t, some x) e n = kept (h a (unfold copied in n))

  pub copy_to-keeps :
      (id body a j : Bytes) (missing : List Bytes) (w : Copying S)
      → holds w.state a j ≡ true
      → holds (copy_to cluster id body missing w).state a j ≡ true
  unfolding copy_to
  copy_to-keeps id body a j [] w h = h
  copy_to-keeps id body a j (dst ∷ missing) w h =
      copy_to-keeps id body a j missing _ (copied-keeps id dst body a j w h)

  pub copy_to-replicas :
      (id body b k : Bytes) (i : ℕ) (missing : List Bytes) (w : Copying S)
      → replicas (copy_to cluster id body missing w).state b k i ≡ replicas w.state b k i
  unfolding copy_to
  copy_to-replicas id body b k i [] w = refl
  copy_to-replicas id body b k i (dst ∷ missing) w =
      copy_to-replicas id body b k i missing _ ∙ copied-replicas id dst body b k i w

  pub copy_to-Copied :
      (id body : Bytes) (missing : List Bytes) (w : Copying S)
      → Copied id w
      → Copied id (copy_to cluster id body missing w)
  unfolding copy_to
  copy_to-Copied id body [] w h = h
  copy_to-Copied id body (dst ∷ missing) w h =
      copy_to-Copied id body missing _ (copied-Copied id dst body w h)
