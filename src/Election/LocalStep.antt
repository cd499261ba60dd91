-- ===== src/Election/LocalStep.antt =====
-- The steps of the cluster that grant no vote.
use mathlib.Core.List.{Memᴰ}
use native.Mathlib.Nat.{le_trans}
use kvfs.Base.{
  ℕ, ◌≤◌, true, false, some, List, ◌≡◌, ◌⊎◌, inl, inr, refl, sym, ◌∙◌, ap, map, arith, Bool-cases,
  subst,
}
use kvfs.Base.Text.{Bytes, beq, beq_iff, beq_refl}
use kvfs.Election.{Elector, Peer, Answer, conclude, ask_peers, quorum, leader}
use kvfs.Election.Terms.{Keeps}
use kvfs.Election.Cluster.{Cluster, set_node, count_votes}
use kvfs.Election.Counting.{count_others-lt, ask_peers-le}
use kvfs.Election.Invariant.{IsLocalStep}

-- An elector that a step does not touch.
pub untouched :
    (peers : List Peer) (c c' : Cluster) (j : Bytes)
    → c'.node j ≡ c.node j
    → ((t : ℕ) → c'.granted t j ≡ c.granted t j)
    → IsLocalStep peers c c' j
untouched peers c c' j en eg = record {
  term = rw en (omega arith);
  kept = λ t h. ap (λ (e : Elector). e.voted_for) en;
  old = λ t x h. eg t ∙ h;
  fresh = λ t x h. inl (sym (eg t) ∙ h);
  lead = λ h.
      inl (sym (ap (λ (e : Elector). e.state) en) ∙ h, ap (λ (e : Elector). e.current_term) en);
}

-- An elector that grants no vote, and wins at most by the votes of a majority.
no_vote :
    (peers : List Peer) (c c' : Cluster) (j : Bytes)
    → (c.node j).current_term ≤ (c'.node j).current_term
    → ((c'.node j).current_term ≡ (c.node j).current_term
        → (c'.node j).voted_for ≡ (c.node j).voted_for)
    → ((t : ℕ) → c'.granted t j ≡ c.granted t j)
    → ((c'.node j).state ≡ leader
        → (((c.node j).state ≡ leader) × ((c'.node j).current_term ≡ (c.node j).current_term))
          ⊎ (quorum peers ≤ count_votes (c'.granted (c'.node j).current_term) j peers))
    → IsLocalStep peers c c' j
no_vote peers c c' j le keep eg win = record {
  term = le;
  kept = λ t h. keep t;
  old = λ t x h. eg t ∙ h;
  fresh = λ t x h. inl (sym (eg t) ∙ h);
  lead = win;
}

-- A step that sets one elector is a step of that one, and of no other.
pub at_one :
    (peers : List Peer) (c c' : Cluster) (i : Bytes)
    → IsLocalStep peers c c' i
    → ((j : Bytes) → beq j i ≡ false → IsLocalStep peers c c' j)
    → (j : Bytes) → IsLocalStep peers c c' j
at_one peers c c' i here others j = elim (Bool-cases (beq j i)) [
  | inl e ↦ subst (λ k. IsLocalStep peers c c' k) (sym ((beq_iff j i).0 e)) here
  | inr e ↦ others j e
]

pub set_node_self : (i : Bytes) (e : Elector) (c : Cluster) → (set_node i e c).node i ≡ e
unfolding set_node
set_node_self i e c = rw beq_refl

pub set_node_other :
    (i j : Bytes) (e : Elector) (c : Cluster) → beq j i ≡ false → (set_node i e c).node j ≡ c.node j
unfolding set_node
set_node_other i j e c h = rw h

pub set_node-granted :
    (i : Bytes) (e : Elector) (c : Cluster) (t : ℕ) (j : Bytes)
    → (set_node i e c).granted t j ≡ c.granted t j
unfolding set_node
set_node-granted i e c t j = refl

pub quiet-IsLocalStep :
    (peers : List Peer) (c : Cluster) (i : Bytes) (e : Elector)
    → Keeps (c.node i) e
    → (j : Bytes) → IsLocalStep peers c (set_node i e c) j
quiet-IsLocalStep peers c i e k =
    at_one peers c (set_node i e c) i
      (no_vote peers c (set_node i e c) i (rw set_node_self k.term) (rw set_node_self k.voted)
        (λ t. set_node-granted i e c t i) (rw set_node_self (λ h. inl (k.lead h))))
      (λ j ne.
        untouched peers c (set_node i e c) j (set_node_other i j e c ne)
          (λ t. set_node-granted i e c t j))

conclude-cases :
    (self : Bytes) (peers : List Peer) (term votes now : ℕ) (e : Elector)
    → ((conclude self peers term votes now e).current_term ≡ e.current_term)
      × ((conclude self peers term votes now e).voted_for ≡ e.voted_for)
      × ((conclude self peers term votes now e).state ≡ leader
          → (e.state ≡ leader) ⊎ ((e.current_term ≡ term) × (quorum peers ≤ votes)))
unfolding conclude
conclude-cases self peers term votes now e = (ground arith, ground arith, ground arith)

won_lead :
    (peers : List Peer) (c : Cluster) (i : Bytes) (term votes : ℕ) (e : Elector)
    → e.current_term ≡ (c.node i).current_term
    → (e.state ≡ leader
        → ((c.node i).state ≡ leader) ⊎ (((c.node i).current_term ≡ term) × (quorum peers ≤ votes)))
    → votes ≤ count_votes (c.granted term) i peers
    → e.state ≡ leader
    → (((c.node i).state ≡ leader) × (e.current_term ≡ (c.node i).current_term))
      ⊎ (quorum peers ≤ count_votes ((set_node i e c).granted e.current_term) i peers)
unfolding set_node
won_lead peers c i term votes e same won enough h = elim (won h) [
  | inl led ↦ inl (led, same)
  | inr (at_term, majority) ↦ inr (rw (same, at_term) (le_trans majority enough))
]

pub finish-IsLocalStep :
    (peers : List Peer) (c : Cluster) (i : Bytes) (term now : ℕ) (answers : Bytes → Answer)
    → Memᴰ i (map (λ (p : Peer). p.id) peers)
    → c.granted term i ≡ some i
    → ((p : Bytes) (t : ℕ) → answers p ≡ some (true, t) → c.granted term p ≡ some i)
    → (j : Bytes)
    → IsLocalStep peers c
        (set_node i
          (conclude i peers term (ask_peers i term answers peers (c.node i, 1)).1 now (c.node i))
          c)
        j
finish-IsLocalStep peers c i term now answers m own honest =
    let votes = (ask_peers i term answers peers (c.node i, 1)).1 in
    let e = conclude i peers term votes now (c.node i) in
    let (same, voted, won) = conclude-cases i peers term votes now (c.node i) in
    let enough : votes ≤ count_votes (c.granted term) i peers = omega (
      arith,
      ask_peers-le (c.granted term) i term answers peers (c.node i, 1) honest,
      count_others-lt (c.granted term) i peers m own,
    ) in
    at_one peers c (set_node i e c) i
      (no_vote peers c (set_node i e c) i (rw (set_node_self, same) (omega arith))
        (rw set_node_self (λ t. voted)) (λ t. set_node-granted i e c t i)
        (rw set_node_self (won_lead peers c i term votes e same won enough)))
      (λ j ne.
        untouched peers c (set_node i e c) j (set_node_other i j e c ne)
          (λ t. set_node-granted i e c t j))
