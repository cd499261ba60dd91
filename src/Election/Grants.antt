-- ===== src/Election/Grants.antt =====
-- The steps of the cluster that grant a vote.

use kvfs.Base.{
  ==_iff, ℕ, ◌≤◌, true, false, ◌&&◌, some, List, [], ◌≡◌, ◌≢◌, ◌⊎◌, inl, inr, refl, sym, ◌∙◌, ap,
  ◌==◌, arith, Bool-cases,
}
use kvfs.Base.Text.{Bytes, beq, beq_refl}
use kvfs.Election.{Elector, Peer, leader}
use kvfs.Election.Cluster.{Cluster, set_node, grant}
use kvfs.Election.Invariant.{IsSafe, IsLocalStep}
use kvfs.Election.LocalStep.{untouched, set_node_self, set_node_other, set_node-granted}

grant_at : (t : ℕ) (i x : Bytes) (c : Cluster) → (grant t i x c).granted t i ≡ some x
unfolding grant
grant_at t i x c = ground (arith, beq_refl i)

grant_elsewhere :
    (t u : ℕ) (i j x : Bytes) (c : Cluster)
    → (u == t && beq j i) ≡ false
    → (grant t i x c).granted u j ≡ c.granted u j
unfolding grant
grant_elsewhere t u i j x c h = rw h

grant_other :
    (t u : ℕ) (i j x : Bytes) (c : Cluster)
    → beq j i ≡ false
    → (grant t i x c).granted u j ≡ c.granted u j
grant_other t u i j x c h = grant_elsewhere t u i j x c (ground arith)

grant-node : (t : ℕ) (i x j : Bytes) (c : Cluster) → (grant t i x c).node j ≡ c.node j
unfolding grant
grant-node t i x j c = refl

injective : {x y : Bytes} → some x ≡ some y → x ≡ y
injective h = cc

-- An elector that grants its vote at the term that it now has, and had not granted it before.
pub one_vote :
    (peers : List Peer) (c : Cluster) (i x : Bytes) (e : Elector)
    → IsSafe peers c
    → (c.node i).current_term ≤ e.current_term
    → (e.current_term ≡ (c.node i).current_term
        → (c.node i).voted_for ≢ []
        → e.voted_for ≡ (c.node i).voted_for)
    → e.voted_for ≡ x
    → x ≢ []
    → (e.state ≡ leader → ((c.node i).state ≡ leader) × (e.current_term ≡ (c.node i).current_term))
    → IsLocalStep peers c (grant e.current_term i x (set_node i e c)) i
one_vote peers c i x e s le keep v ne lead =
    let c' = grant e.current_term i x (set_node i e c) in
    let node_i : c'.node i ≡ e =
      grant-node e.current_term i x i (set_node i e c) ∙ set_node_self i e c in
    record {
      term = rw node_i le;
      kept = rw node_i keep;
      old = λ t y h. old_vote t y h (Bool-cases (t == e.current_term));
      fresh = λ t y h. fresh_vote t y h (Bool-cases (t == e.current_term));
      lead = rw node_i (λ h. inl (lead h));
    }
  where
    here :
        (t : ℕ)
        → (t == e.current_term) ≡ true
        → (grant e.current_term i x (set_node i e c)).granted t i ≡ some x
    here t h = rw ((==_iff t e.current_term).0 h) (grant_at e.current_term i x (set_node i e c))

    away :
        (t : ℕ)
        → (t == e.current_term) ≡ false
        → (grant e.current_term i x (set_node i e c)).granted t i ≡ c.granted t i
    away t h =
        grant_elsewhere e.current_term t i i x (set_node i e c) (ground arith)
        ∙ set_node-granted i e c t i

    held : (t : ℕ) (y : Bytes) → c.granted t i ≡ some y → t ≡ e.current_term → e.voted_for ≡ y
    held t y h at_term =
        let p = s.past i y t h in
        let now : t ≡ (c.node i).current_term = omega (arith, p.0) in
        keep (sym at_term ∙ now) (λ z. s.named i y t h (sym (p.1 now) ∙ z)) ∙ p.1 now

    old_vote :
        (t : ℕ) (y : Bytes)
        → c.granted t i ≡ some y
        → ((t == e.current_term) ≡ true) ⊎ ((t == e.current_term) ≡ false)
        → (grant e.current_term i x (set_node i e c)).granted t i ≡ some y
    old_vote t y h (inl same) =
        here t same ∙ ap some (sym v ∙ held t y h ((==_iff t e.current_term).0 same))
    old_vote t y h (inr differ) = away t differ ∙ h

    fresh_vote :
        (t : ℕ) (y : Bytes)
        → (grant e.current_term i x (set_node i e c)).granted t i ≡ some y
        → ((t == e.current_term) ≡ true) ⊎ ((t == e.current_term) ≡ false)
        → (c.granted t i ≡ some y)
          ⊎ ((t ≡ ((grant e.current_term i x (set_node i e c)).node i).current_term)
              × (((grant e.current_term i x (set_node i e c)).node i).voted_for ≡ y)
              × (y ≢ []))
    fresh_vote t y h (inl same) =
        let x_is_y : x ≡ y = injective (sym (here t same) ∙ h) in
        inr (
          rw (grant-node, set_node_self) ((==_iff t e.current_term).0 same),
          rw (grant-node, set_node_self) (v ∙ x_is_y),
          λ z. ne (x_is_y ∙ z),
        )
    fresh_vote t y h (inr differ) = inl (sym (away t differ) ∙ h)

pub one_vote-others :
    (peers : List Peer) (c : Cluster) (t : ℕ) (i x : Bytes) (e : Elector) (j : Bytes)
    → beq j i ≡ false
    → IsLocalStep peers c (grant t i x (set_node i e c)) j
one_vote-others peers c t i x e j ne =
    untouched peers c (grant t i x (set_node i e c)) j
      (grant-node t i x j (set_node i e c) ∙ set_node_other i j e c ne)
      (λ u. grant_other t u i j x (set_node i e c) ne ∙ set_node-granted i e c u j)
