-- ===== src/Election.antt =====
-- internal/election/election.go: one elector. A method takes the elector and returns the new one;
-- the clock, the replies of the peers and the local log are arguments, since they are inputs.
pub mod Append
pub mod Moves
pub mod Terms
pub mod Votes
pub mod Cluster
mod Counting
mod Invariant
mod LocalStep
mod Grants
pub mod Safety
pub mod Campaign
mod Examples
use kvfs.Base.{
  ℕ, ◌+◌, ◌-◌, ◌/◌, ◌%◌, ◌^◌, Bool, true, false, ◌&&◌, ◌||◌, not, Option, none, some, List, [], ◌∷◌,
  if◌then◌else◌, leb, ltb, ◌==◌, length,
}
use kvfs.Base.Text.{Bytes, beq, is_empty}
use kvfs.Base.Decimal.{Parsed, value, syntax, out_of_range, parse_uint}

pub data State : Type 0 where
  follower candidate leader : State

pub record Peer : Type 0 where
  pub id : Bytes
  pub url : Bytes

pub record Elector : Type 0 where
  pub state : State
  pub current_term : ℕ  -- uint64
  pub voted_for : Bytes
  pub leader_id : Bytes
  pub last_hb : ℕ
  pub woken : Bool  -- a value waits in hbCh

-- What a handler writes to its client.
pub data Reply : Type 0 where
  bad_request : Reply
  vote : Bool → ℕ → Reply

unfoldable pub new : ℕ → Elector
new now = record {
  state = follower;
  current_term = 0;
  voted_for = [];
  leader_id = [];
  last_hb = now;
  woken = false;
}

-- parseTerm: an error of either kind refuses the request.
unfoldable pub parse_term : Bytes → Option ℕ
parse_term s =
    if is_empty s
    then none
    else elim (parse_uint s) [ value n ↦ some n | syntax ↦ none | out_of_range ↦ none ]

-- parseSeq, with the error dropped: the value that comes with ErrRange is the largest uint64.
unfoldable pub parse_seq : Bytes → ℕ
parse_seq s =
    if is_empty s
    then 0
    else elim (parse_uint s) [ value n ↦ n | syntax ↦ 0 | out_of_range ↦ 2 ^ 64 - 1 ]

abbrev is_candidate : State → Bool
is_candidate candidate = true
is_candidate _ = false

abbrev is_follower : State → Bool
is_follower follower = true
is_follower _ = false

abbrev pub is_leader : State → Bool
is_leader leader = true
is_leader _ = false

-- The timer case of runFollower.
unfoldable pub election_timeout : Elector → Elector
election_timeout e = if is_follower e.state then record e { state = candidate } else e

-- signalHeartbeat, with the buffer of one.
signal_heartbeat : Elector → Elector
signal_heartbeat e = record e { woken = true }

-- The hbCh case of runFollower.
unfoldable pub reset_timer : Elector → Elector
reset_timer e = record e { woken = false }

-- The first part of runCandidate, under the lock.
unfoldable pub start_campaign : Bytes → Elector → Elector
start_campaign self e = record e {
  current_term = (e.current_term + 1) % 2 ^ 64;
  voted_for = self;
  leader_id = [];
}

-- A peer's answer to a vote request or a heartbeat: none is a failed call.
abbrev pub Answer : Type 0
Answer = Option (Bool × ℕ)

-- A peer of a higher term makes the elector step down.
unfoldable pub step_down : ℕ → Elector → Elector
step_down peer_term e =
    if ltb e.current_term peer_term
    then record e { current_term = peer_term; voted_for = []; state = follower; leader_id = [] }
    else e

-- One goroutine of runCandidate: the elector and the number of votes after an answer.
unfoldable pub on_answer : ℕ → Answer → Elector × ℕ → Elector × ℕ
unfolding step_down
on_answer term none (e, votes) = (e, votes)
on_answer term (some (granted, peer_term)) (e, votes) =
    if ltb term peer_term
    then (step_down peer_term e, votes)
    else (e, if granted then votes + 1 else votes)

-- The loop over the peers: every peer but self is asked once.
unfoldable pub ask_peers : Bytes → ℕ → (Bytes → Answer) → List Peer → Elector × ℕ → Elector × ℕ
unfolding on_answer
ask_peers self term answers [] s = s
ask_peers self term answers (p ∷ ps) s =
    ask_peers self term answers ps (if beq p.id self then s else on_answer term (answers p.id) s)

abbrev pub quorum : List Peer → ℕ
quorum peers = length peers / 2 + 1

-- The last part of runCandidate, under the lock.
unfoldable pub conclude : Bytes → List Peer → ℕ → ℕ → ℕ → Elector → Elector
conclude self peers term votes now e =
    if not (is_candidate e.state) || not (e.current_term == term)
    then e
    else if leb (quorum peers) votes
    then record e { state = leader; leader_id = self }
    else record e { state = follower; last_hb = now }

-- runCandidate with no other handler at work on the elector.
unfoldable pub run_candidate : Bytes → List Peer → (Bytes → Answer) → ℕ → Elector → Elector
unfolding start_campaign ask_peers conclude
run_candidate self peers answers now e =
    let started = start_campaign self e in
    let (asked, votes) = ask_peers self started.current_term answers peers (started, 1) in
    conclude self peers started.current_term votes now asked

-- What the goroutine of broadcastHeartbeat does with a peer's answer.
unfoldable on_heartbeat_answer : ℕ → Option ℕ → Elector → Elector
unfolding step_down
on_heartbeat_answer term none e = e
on_heartbeat_answer term (some peer_term) e =
    if ltb term peer_term then step_down peer_term e else e

pub record VoteQuery : Type 0 where
  pub term : Bytes
  pub candidate_id : Bytes
  pub last_log_seq : Bytes

-- A term above one's own: the first update of HandleVote.
unfoldable pub adopt_term : ℕ → Elector → Elector
adopt_term term e =
    if ltb e.current_term term
    then record e { current_term = term; voted_for = []; state = follower; leader_id = [] }
    else e

-- The voter's log is ahead of the candidate's; with no LastLogSeqFn this is not asked.
log_is_ahead : Option ℕ → ℕ → Bool
log_is_ahead none candidate_seq = false
log_is_ahead (some voter_seq) candidate_seq = ltb candidate_seq voter_seq

-- The end of HandleVote, after the term is settled.
cast_vote : Option ℕ → ℕ → Bytes → ℕ → Elector → Elector × Reply
unfolding log_is_ahead signal_heartbeat
cast_vote voter_seq now candidate_id candidate_seq e =
    if log_is_ahead voter_seq candidate_seq
    then (e, vote false e.current_term)
    else if is_empty e.voted_for || beq e.voted_for candidate_id
    then (
      signal_heartbeat (record e { voted_for = candidate_id; last_hb = now }),
      vote true e.current_term,
    )
    else (e, vote false e.current_term)

vote_at : Option ℕ → ℕ → Bytes → ℕ → ℕ → Elector → Elector × Reply
unfolding adopt_term cast_vote
vote_at voter_seq now candidate_id candidate_seq term e =
    if ltb term e.current_term
    then (e, vote false e.current_term)
    else cast_vote voter_seq now candidate_id candidate_seq (adopt_term term e)

unfoldable pub handle_vote : Option ℕ → ℕ → VoteQuery → Elector → Elector × Reply
unfolding vote_at
handle_vote voter_seq now q e = elim (parse_term q.term) [
  | none ↦ (e, bad_request)
  | some term ↦
      if is_empty q.candidate_id
      then (e, bad_request)
      else vote_at voter_seq now q.candidate_id (parse_seq q.last_log_seq) term e
]

heartbeat_at : Bytes → ℕ → ℕ → Elector → Elector × Reply
unfolding signal_heartbeat
heartbeat_at leader_id now term e =
    if ltb term e.current_term
    then (e, vote false e.current_term)
    else let e' =
        (if ltb e.current_term term then record e { current_term = term; voted_for = [] } else e) in
      (
        signal_heartbeat (record e' { state = follower; leader_id = leader_id; last_hb = now }),
        vote true e'.current_term,
      )

unfoldable pub handle_heartbeat : ℕ → Bytes → Bytes → Elector → Elector × Reply
unfolding heartbeat_at
handle_heartbeat now term leader_id e = elim (parse_term term) [
  | none ↦ (e, bad_request)
  | some t ↦ heartbeat_at leader_id now t e
]
