-- ===== src/Election/Safety.antt =====
-- Election safety: a cluster of the electors of election.go has at most one leader in each term.

use kvfs.Base.{
  ◌+◌, ◌^◌, ◌≤◌, ◌<◌, true, false, List, [], ◌≡◌, ◌≢◌, ◌⊎◌, inl, inr, refl, sym, ◌∙◌, arith,
  Bool-cases, subst,
}
use kvfs.Base.Text.{Bytes, beq, beq_iff}
use kvfs.Election.{
  Elector, Peer, Reply, vote, bad_request, VoteQuery, start_campaign, handle_vote, quorum, leader,
}
use kvfs.Election.Terms.{Quiet-Keeps, VoteOutcome, handle_vote-VoteOutcome}
use kvfs.Election.Cluster.{
  Cluster, set_node, grant, count_votes, record_reply, Step, Reach, Fits, NeverWraps,
}
use kvfs.Election.Counting.{count_votes-disjoint}
use kvfs.Election.Invariant.{IsSafe, IsSafe-start, IsSafe-after}
use kvfs.Election.LocalStep.{at_one, quiet-IsLocalStep, finish-IsLocalStep}
use kvfs.Election.Grants.{one_vote, one_vote-others}

start_campaign-facts :
    (self : Bytes) (e : Elector)
    → e.current_term + 1 < 2 ^ 64
    → ((start_campaign self e).current_term ≡ e.current_term + 1)
      × ((start_campaign self e).voted_for ≡ self)
      × ((start_campaign self e).state ≡ e.state)
unfolding start_campaign
start_campaign-facts self e h = (omega arith, refl, refl)

campaign-IsSafe :
    (peers : List Peer) (c : Cluster) (i : Bytes)
    → IsSafe peers c
    → i ≢ []
    → (c.node i).state ≢ leader
    → (c.node i).current_term + 1 < 2 ^ 64
    → IsSafe peers (
        grant
          (start_campaign i (c.node i)).current_term
          i
          i
          (set_node i (start_campaign i (c.node i)) c))
campaign-IsSafe peers c i s ne idle fits =
    let e = start_campaign i (c.node i) in
    let (term, voted, role) = start_campaign-facts i (c.node i) fits in
    IsSafe-after peers c (grant e.current_term i i (set_node i e c)) s (
      at_one peers c (grant e.current_term i i (set_node i e c)) i
        (one_vote peers c i i e s (omega (arith, term)) (λ same. absurd (omega (arith, term))) voted
          ne (λ h. absurd (idle (sym role ∙ h))))
        (one_vote-others peers c e.current_term i i e))

keep_vote : {A B : Type 0} → A ⊎ B → (A → ⊥) → B
keep_vote (inl a) no_a = absurd (no_a a)
keep_vote (inr b) no_a = b

-- A vote request, answered.
ballot-IsSafe :
    (peers : List Peer) (c : Cluster) (i : Bytes) (q : VoteQuery) (r : Elector × Reply)
    → IsSafe peers c
    → VoteOutcome q (c.node i) r
    → IsSafe peers (record_reply i q.candidate_id r.1 (set_node i r.0 c))
unfolding record_reply
ballot-IsSafe peers c i q (e, bad_request) s v = IsSafe-after peers c (set_node i e c) s (
    quiet-IsLocalStep peers c i e
      (record { term = v.term; voted = keep_vote v.refused (λ h. cc); lead = v.lead }))
ballot-IsSafe peers c i q (e, vote false t) s v = IsSafe-after peers c (set_node i e c) s (
    quiet-IsLocalStep peers c i e
      (record { term = v.term; voted = keep_vote v.refused (λ h. cc); lead = v.lead }))
ballot-IsSafe peers c i q (e, vote true t) s v =
    let (term, voted, ne) = v.granted t refl in
    subst (λ u. IsSafe peers (grant u i q.candidate_id (set_node i e c))) term
      (IsSafe-after peers c (grant e.current_term i q.candidate_id (set_node i e c)) s (
        at_one peers c (grant e.current_term i q.candidate_id (set_node i e c)) i
          (one_vote peers c i q.candidate_id e s v.term v.kept voted ne v.lead)
          (one_vote-others peers c e.current_term i q.candidate_id e)))

Step-IsSafe :
    (peers : List Peer) {c c' : Cluster} (st : Step peers c c')
    → Fits st
    → IsSafe peers c
    → IsSafe peers c'
Step-IsSafe peers (Step.quiet c i q) fits s =
    IsSafe-after peers c _ s (quiet-IsLocalStep peers c i _ (Quiet-Keeps q))
Step-IsSafe peers (Step.campaign c i ne idle) fits s = campaign-IsSafe peers c i s ne idle fits
Step-IsSafe peers (Step.ballot c i seq now q) fits s =
    ballot-IsSafe peers c i q (handle_vote seq now q (c.node i)) s
      (handle_vote-VoteOutcome seq now q (c.node i))
Step-IsSafe peers (Step.finish c i term now answers m own honest) fits s =
    IsSafe-after peers c _ s (finish-IsLocalStep peers c i term now answers m own honest)

Reach-IsSafe : (peers : List Peer) {c : Cluster} (r : Reach peers c) → NeverWraps r → IsSafe peers c
Reach-IsSafe peers Reach.here fits = IsSafe-start peers
Reach-IsSafe peers (Reach.next r st) fits =
    Step-IsSafe peers st fits.1 (Reach-IsSafe peers r fits.0)

-- A cluster was reached by any steps, among them no campaign that begins at the term 2^64 - 1, where
-- the term would wrap to 0. Then two leaders of one term are one elector.
pub one_leader_per_term :
    (peers : List Peer) (c : Cluster) (i j : Bytes) (r : Reach peers c)
    → NeverWraps r
    → (c.node i).state ≡ leader
    → (c.node j).state ≡ leader
    → (c.node i).current_term ≡ (c.node j).current_term
    → i ≡ j
one_leader_per_term peers c i j r fits li lj same = elim (Bool-cases (beq i j)) [
  | inl e ↦ (beq_iff i j).0 e
  | inr e ↦
      let s = Reach-IsSafe peers r fits in
      let term = (c.node i).current_term in
      let mj : quorum peers ≤ count_votes (c.granted term) j peers = rw same (s.majority j lj) in
      absurd (
        omega (
          arith,
          s.majority i li,
          mj,
          count_votes-disjoint (c.granted term) i j peers (λ p. cc ((beq_iff i j).1 p, e)),
        ))
]
