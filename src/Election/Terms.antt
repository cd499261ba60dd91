-- ===== src/Election/Terms.antt =====
-- What the handlers of election.go keep of the term, the vote and the role.
use kvfs.Base.{ℕ, ◌≤◌, true, false, Option, [], ◌∷◌, ◌≡◌, ◌≢◌, ◌⊎◌, inl, inr, refl, arith}
use kvfs.Base.Text.{Bytes, beq_iff, is_empty}
use kvfs.Election.{
  Elector, leader, Reply, vote, VoteQuery, election_timeout, reset_timer, step_down, handle_vote,
  handle_heartbeat,
}
use kvfs.Election.Append.{follow_term}
use kvfs.Election.Moves.{Quiet}

-- The term does not fall, within a term the vote stays, and who leads has led in this term.
pub record Keeps (e e' : Elector) : Type 0 where
  pub term : e.current_term ≤ e'.current_term
  pub voted : e'.current_term ≡ e.current_term → e'.voted_for ≡ e.voted_for
  pub lead : e'.state ≡ leader → (e.state ≡ leader) × (e'.current_term ≡ e.current_term)

step_down-Keeps : (e : Elector) (peer_term : ℕ) → Keeps e (step_down peer_term e)
unfolding step_down
step_down-Keeps e peer_term = ground arith

follow_term-Keeps : (e : Elector) (now term : ℕ) → Keeps e (follow_term now term e)
unfolding follow_term
follow_term-Keeps e now term = ground arith

election_timeout-Keeps : (e : Elector) → Keeps e (election_timeout e)
unfolding election_timeout
election_timeout-Keeps e = ground arith

handle_heartbeat-Keeps :
    (e : Elector) (now : ℕ) (term leader_id : Bytes)
    → Keeps e (handle_heartbeat now term leader_id e).0
unfolding handle_heartbeat
handle_heartbeat-Keeps e now term leader_id = ground arith

pub Quiet-Keeps : {e e' : Elector} → Quiet e e' → Keeps e e'
Quiet-Keeps (Quiet.timeout e) = election_timeout-Keeps e
Quiet-Keeps (Quiet.reset e) = unfold reset_timer in ground arith
Quiet-Keeps (Quiet.observe e t) = step_down-Keeps e t
Quiet-Keeps (Quiet.heartbeat e now term l) = handle_heartbeat-Keeps e now term l
Quiet-Keeps (Quiet.append e now term) = follow_term-Keeps e now term

-- What HandleVote does with the term and the vote.
pub record VoteOutcome (q : VoteQuery) (e : Elector) (r : Elector × Reply) : Type 0 where
  pub term : e.current_term ≤ r.0.current_term
  pub lead : r.0.state ≡ leader → (e.state ≡ leader) × (r.0.current_term ≡ e.current_term)
  pub kept : r.0.current_term ≡ e.current_term → e.voted_for ≢ [] → r.0.voted_for ≡ e.voted_for
  -- A vote is granted at the term of the answer, to the candidate that asks, which has a name.
  pub granted :
      (t : ℕ)
      → r.1 ≡ vote true t
      → (r.0.current_term ≡ t) × (r.0.voted_for ≡ q.candidate_id) × (q.candidate_id ≢ [])
  -- With no vote granted, the vote of this term is as it was.
  pub refused :
      (r.1 ≡ vote true r.0.current_term)
      ⊎ (r.0.current_term ≡ e.current_term → r.0.voted_for ≡ e.voted_for)

-- A name is empty, or it is a different string from the empty one.
pub is_empty-cases :
    (s : Bytes) → ((is_empty s ≡ true) × (s ≡ [])) ⊎ ((is_empty s ≡ false) × (s ≢ []))
unfolding is_empty
is_empty-cases [] = inl (refl, refl)
is_empty-cases (a ∷ s) = inr (refl, λ e. cc)

pub handle_vote-VoteOutcome :
    (voter_seq : Option ℕ) (now : ℕ) (q : VoteQuery) (e : Elector)
    → VoteOutcome q e (handle_vote voter_seq now q e)
unfolding handle_vote
handle_vote-VoteOutcome voter_seq now q e = ground (
  arith,
  is_empty-cases q.candidate_id,
  is_empty-cases e.voted_for,
  beq_iff e.voted_for q.candidate_id,
)
