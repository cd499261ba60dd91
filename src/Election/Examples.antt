-- ===== src/Election/Examples.antt =====
-- The theorems on election.go at concrete inputs: three peers, of which n1 wins the first term.

use mathlib.Core.List.Memᴰ.{head}
use kvfs.Base.{
  ℕ, ◌+◌, ◌^◌, ◌≤◌, ◌<◌, Bool, true, false, none, some, List, [], ◌∷◌, ◌≡◌, ◌≢◌, ◌⊎◌, ◌↔◌, inl, inr,
  refl, sym, length, ◌*◌, if◌then◌else◌, ltb, arith, subst, Bool-cases,
}
use kvfs.Base.Text.{Bytes, beq, beq_iff, is_empty}
use kvfs.Base.Decimal.{parse_uint}
use kvfs.Election.{
  Elector, Peer, vote, VoteQuery, Answer, new, start_campaign, conclude, handle_vote, ask_peers,
  leader, follower, candidate, election_timeout, run_candidate, parse_term, parse_seq, adopt_term,
}
use kvfs.Election.Moves.{Quiet, Move, Moves}
use kvfs.Election.Cluster.{Cluster, start, set_node, grant, record_reply, Step, Reach, NeverWraps}
use kvfs.Election.Votes.{current_term-le_of_Moves, one_vote_per_term}
use kvfs.Election.Campaign.{run_candidate-leads_iff, yes_votes, NoHigherTerm}
use kvfs.Election.Append.{handle_append_wal, handle_append_wal-appended_iff, appended}
use kvfs.Election.Safety.{one_leader_per_term}

abbrev n1 : Bytes
n1 = b'1' ∷ []

abbrev n2 : Bytes
n2 = b'2' ∷ []

abbrev n3 : Bytes
n3 = b'3' ∷ []

abbrev three_peers : List Peer
three_peers =
    record { id = n1; url = n1 } ∷ record { id = n2; url = n2 } ∷ record { id = n3; url = n3 } ∷ []

-- The vote request of n1 at term 1.
abbrev request : VoteQuery
request = record { term = b'1' ∷ []; candidate_id = n1; last_log_seq = [] }

-- n2 grants its vote, n3 does not answer.
abbrev answers : Bytes → Answer
answers p = if beq p n2 then some (true, 1) else none

abbrev timed_out : Cluster
timed_out = set_node n1 (election_timeout (start.node n1)) start

abbrev campaigning : Cluster
campaigning =
    grant (start_campaign n1 (timed_out.node n1)).current_term n1 n1
      (set_node n1 (start_campaign n1 (timed_out.node n1)) timed_out)

abbrev voted : Cluster
voted =
    record_reply n2 n1 (handle_vote none 5 request (campaigning.node n2)).1
      (set_node n2 (handle_vote none 5 request (campaigning.node n2)).0 campaigning)

abbrev won : Cluster
won =
    set_node n1
      (conclude n1 three_peers 1 (ask_peers n1 1 answers three_peers (voted.node n1, 1)).1 9
        (voted.node n1))
      voted

n1-named : n1 ≢ []
n1-named h = cc

timed_out-not_leader : (timed_out.node n1).state ≢ leader
unfolding set_node election_timeout start beq
timed_out-not_leader h = cc

fits : (timed_out.node n1).current_term + 1 < 2 ^ 64
unfolding set_node election_timeout start beq
fits = omega arith

own_vote : voted.granted 1 n1 ≡ some n1
unfolding set_node election_timeout start beq grant record_reply handle_vote start_campaign
    parse_term parse_uint is_empty parse_seq adopt_term
own_vote = refl

other_vote : voted.granted 1 n2 ≡ some n1
unfolding set_node election_timeout start beq grant record_reply handle_vote start_campaign
    parse_term parse_uint is_empty parse_seq adopt_term
other_vote = refl

answers-honest : (p : Bytes) (t : ℕ) → answers p ≡ some (true, t) → voted.granted 1 p ≡ some n1
answers-honest p t h = elim (Bool-cases (beq p n2)) [
  | inl e ↦ subst (λ q. voted.granted 1 q ≡ some n1) (sym ((beq_iff p n2).0 e)) other_vote
  | inr e ↦ ground (arith, e, h)
]

won-Reach : Reach three_peers won
won-Reach =
    Reach.next
      (Reach.next
        (Reach.next (Reach.next Reach.here (Step.quiet start n1 (Quiet.timeout (start.node n1))))
          (Step.campaign timed_out n1 n1-named timed_out-not_leader))
        (Step.ballot campaigning n2 none 5 request))
      (Step.finish voted n1 1 9 answers (head refl) own_vote answers-honest)

won-NeverWraps : NeverWraps won-Reach
unfolding won-Reach
won-NeverWraps = ((((tt, tt), fits), tt), tt)

n1-leads : (won.node n1).state ≡ leader
unfolding set_node election_timeout start beq grant record_reply handle_vote start_campaign
    parse_term parse_uint is_empty parse_seq adopt_term conclude ask_peers
n1-leads = refl

one_leader_per_term_example : n1 ≡ n1
one_leader_per_term_example =
    one_leader_per_term three_peers won n1 n1 won-Reach won-NeverWraps n1-leads n1-leads refl

-- n1 leads, and a heartbeat at term 2 is its next move.
abbrev voter : Elector
voter = new 0

abbrev after_vote : Elector
after_vote = (handle_vote none 5 request voter).0

n1-vote_granted : (handle_vote none 5 request voter).1 ≡ vote true 1
unfolding handle_vote new parse_term parse_uint is_empty parse_seq adopt_term
n1-vote_granted = refl

n1-vote_again : (handle_vote (some 0) 7 request after_vote).1 ≡ vote true 1
unfolding handle_vote new parse_term parse_uint is_empty parse_seq adopt_term beq
n1-vote_again = refl

current_term-le_of_Moves_example : voter.current_term ≤ after_vote.current_term
current_term-le_of_Moves_example =
    current_term-le_of_Moves n2 three_peers voter after_vote
      (Moves.next Moves.here (Move.ballot voter none 5 request)) (tt, tt)

one_vote_per_term_example : n1 ≡ n1
one_vote_per_term_example =
    one_vote_per_term n2 three_peers voter after_vote request request none (some 0) 5 7 1
      n1-vote_granted Moves.here tt n1-vote_again

request-term : parse_term request.term ≡ some 1
unfolding parse_term parse_uint is_empty
request-term = refl

abbrev ahead : Elector
ahead = record voter { current_term = 7 }

abbrev runner : Elector
runner = record voter { state = candidate; current_term = 0 }

answers-NoHigherTerm : NoHigherTerm (runner.current_term + 1) answers
answers-NoHigherTerm p b t h = elim (Bool-cases (beq p n2)) [
  | inl e ↦ ground (arith, e, h)
  | inr e ↦ ground (arith, e, h)
]

run_candidate-leads_iff_example :
    ((run_candidate n1 three_peers answers 9 runner).current_term ≡ runner.current_term + 1)
    × (((run_candidate n1 three_peers answers 9 runner).state ≡ leader)
        ↔ (length three_peers < 2 * (1 + yes_votes n1 answers three_peers)))
    × (((run_candidate n1 three_peers answers 9 runner).state ≡ leader)
        ⊎ ((run_candidate n1 three_peers answers 9 runner).state ≡ follower))
run_candidate-leads_iff_example =
    run_candidate-leads_iff n1 three_peers answers 9 runner refl (omega arith) answers-NoHigherTerm

-- n2 answers from term 8.
abbrev late_answers : Bytes → Answer
late_answers p = some (false, 8)

n2-not_n1 : n2 ≢ n1
n2-not_n1 h = ground arith

-- A follower whose log is the list of the entries.
abbrev append_entry : Bytes → List Bytes → List Bytes × Bool
append_entry body log = (body ∷ log, true)

handle_append_wal-appended_iff_example :
    (((handle_append_wal (some append_entry) 5 (b'1' ∷ []) (some n3) voter []).1 ≡ appended 1)
      ↔ ((voter.current_term ≤ 1) × ((append_entry n3 []).1 ≡ true)))
    × ((handle_append_wal (some append_entry) 5 (b'1' ∷ []) (some n3) voter []).0.1
        ≡ (if ltb 1 voter.current_term then [] else (append_entry n3 []).0))
handle_append_wal-appended_iff_example =
    handle_append_wal-appended_iff append_entry 5 1 (b'1' ∷ []) n3 voter [] request-term
