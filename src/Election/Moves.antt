-- ===== src/Election/Moves.antt =====
-- The moves of one elector of election.go, in any order: its goroutine, the answers of its peers
-- and its HTTP handlers take the lock one after the other.
use kvfs.Base.{ℕ, ◌+◌, ◌^◌, ◌<◌, Option, List}
use kvfs.Base.Text.{Bytes}
use kvfs.Election.{
  Elector, Peer, VoteQuery, election_timeout, reset_timer, step_down, start_campaign, conclude,
  handle_vote, handle_heartbeat,
}
use kvfs.Election.Append.{follow_term}

-- The moves that neither cast a vote nor win an election.
pub data Quiet : Elector → Elector → Type 0 where
  timeout : (e : Elector) → Quiet e (election_timeout e)
  reset : (e : Elector) → Quiet e (reset_timer e)
  observe : (e : Elector) (peer_term : ℕ) → Quiet e (step_down peer_term e)
  heartbeat :
      (e : Elector) (now : ℕ) (term leader_id : Bytes)
      → Quiet e (handle_heartbeat now term leader_id e).0
  append : (e : Elector) (now term : ℕ) → Quiet e (follow_term now term e)

-- All moves.
pub data Move (self : Bytes) (peers : List Peer) : Elector → Elector → Type 0 where
  quiet : {e e' : Elector} → Quiet e e' → Move self peers e e'
  campaign : (e : Elector) → Move self peers e (start_campaign self e)
  ballot :
      (e : Elector) (voter_seq : Option ℕ) (now : ℕ) (q : VoteQuery)
      → Move self peers e (handle_vote voter_seq now q e).0
  finish :
      (e : Elector) (term votes now : ℕ) → Move self peers e (conclude self peers term votes now e)

pub data Moves (self : Bytes) (peers : List Peer) (e : Elector) : Elector → Type 0 where
  here : Moves self peers e e
  next :
      {e' e'' : Elector} → Moves self peers e e' → Move self peers e' e'' → Moves self peers e e''

-- No campaign begins at the largest uint64, where the term wraps to 0.
abbrev pub Fits :
    {self : Bytes} {peers : List Peer} {e e' : Elector} → Move self peers e e' → Type 0
Fits (Move.quiet q) = Unit
Fits (Move.campaign e) = e.current_term + 1 < 2 ^ 64
Fits (Move.ballot e voter_seq now q) = Unit
Fits (Move.finish e term votes now) = Unit

abbrev pub NeverWraps :
    {self : Bytes} {peers : List Peer} {e e' : Elector} → Moves self peers e e' → Type 0
NeverWraps Moves.here = Unit
NeverWraps (Moves.next r m) = NeverWraps r × Fits m
