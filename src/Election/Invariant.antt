-- ===== src/Election/Invariant.antt =====
-- What holds of a cluster of the electors of election.go between steps, and what one step may do.

use native.Mathlib.Nat.{le_trans}
use kvfs.Base.{ℕ, ◌≤◌, some, List, [], ◌≡◌, ◌≢◌, ◌⊎◌, inl, inr, sym, ◌∙◌, arith}
use kvfs.Base.Text.{Bytes}
use kvfs.Election.{Peer, quorum, leader}
use kvfs.Election.Cluster.{Cluster, start, count_votes}
use kvfs.Election.Counting.{count_votes_mono}

-- What holds of the cluster between steps.
pub record IsSafe (peers : List Peer) (c : Cluster) : Type 0 where
  -- A recorded vote is of a term that was reached, and it is the vote that the voter holds.
  pub past :
      (i chosen : Bytes) (t : ℕ)
      → c.granted t i ≡ some chosen
      → (t ≤ (c.node i).current_term)
        × (t ≡ (c.node i).current_term → (c.node i).voted_for ≡ chosen)
  pub named : (i chosen : Bytes) (t : ℕ) → c.granted t i ≡ some chosen → chosen ≢ []
  -- A leader has the votes of a majority of the peers at its term.
  pub majority :
      (i : Bytes)
      → (c.node i).state ≡ leader
      → quorum peers ≤ count_votes (c.granted (c.node i).current_term) i peers

pub IsSafe-start : (peers : List Peer) → IsSafe peers start
unfolding start
IsSafe-start peers = record {
  past = λ i chosen t h. cc;
  named = λ i chosen t h. cc;
  majority = λ i h. cc;
}

-- What a step may do to one elector and to the votes that it has granted.
pub record IsLocalStep (peers : List Peer) (c c' : Cluster) (j : Bytes) : Type 0 where
  pub term : (c.node j).current_term ≤ (c'.node j).current_term
  pub kept :
      (c'.node j).current_term ≡ (c.node j).current_term
      → (c.node j).voted_for ≢ []
      → (c'.node j).voted_for ≡ (c.node j).voted_for
  pub old : (t : ℕ) (x : Bytes) → c.granted t j ≡ some x → c'.granted t j ≡ some x
  pub fresh :
      (t : ℕ) (x : Bytes)
      → c'.granted t j ≡ some x
      → (c.granted t j ≡ some x)
        ⊎ ((t ≡ (c'.node j).current_term) × ((c'.node j).voted_for ≡ x) × (x ≢ []))
  pub lead :
      (c'.node j).state ≡ leader
      → (((c.node j).state ≡ leader) × ((c'.node j).current_term ≡ (c.node j).current_term))
        ⊎ (quorum peers ≤ count_votes (c'.granted (c'.node j).current_term) j peers)

module _ (peers : List Peer) (c c' : Cluster) (s : IsSafe peers c)
    (step : (j : Bytes) → IsLocalStep peers c c' j) where
  past_after :
      (j x : Bytes) (t : ℕ)
      → c'.granted t j ≡ some x
      → (t ≤ (c'.node j).current_term) × (t ≡ (c'.node j).current_term → (c'.node j).voted_for ≡ x)
  past_after j x t h = elim ((step j).fresh t x h) [
    | inl before ↦
        let p = s.past j x t before in
        (
          omega (arith, p.0, (step j).term),
          λ e.
              let now : t ≡ (c.node j).current_term = omega (arith, p.0, (step j).term) in
              (step j).kept (sym e ∙ now) (λ z. s.named j x t before (sym (p.1 now) ∙ z)) ∙ p.1 now,
        )
    | inr (e, v, ne) ↦ (omega arith, λ k. v)
  ]

  majority_after :
      (j : Bytes)
      → (c'.node j).state ≡ leader
      → quorum peers ≤ count_votes (c'.granted (c'.node j).current_term) j peers
  majority_after j h = elim ((step j).lead h) [
    | inl (led, same) ↦ rw same (
        le_trans (s.majority j led) (
          count_votes_mono (c.granted (c.node j).current_term) (c'.granted (c.node j).current_term)
            j peers (λ p k. (step p).old (c.node j).current_term j k)))
    | inr won ↦ won
  ]

  pub IsSafe-after : IsSafe peers c'
  IsSafe-after = record {
    past = past_after;
    named = λ j x t h. elim ((step j).fresh t x h) [
      | inl before ↦ s.named j x t before
      | inr (e, v, ne) ↦ ne
    ];
    majority = majority_after;
  }
