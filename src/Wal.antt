-- ===== src/Wal.antt =====
-- internal/store/wal.go: the write-ahead log with group commit. A Log is the WAL with the lines of its
-- file: those that an fsync has covered, those that are written since, and those in the buffer. A
-- section under the mutex is one function; how flushes and syncs end is an argument. Sequence numbers
-- stay below 2 ^ 63.
pub mod Steps
pub mod Invariant
pub mod Growth
pub mod Preserved
pub mod Syncing
pub mod Durable
pub mod Order
pub mod Reading
mod Examples
use kvfs.Base.{
  ℕ, suc, Bool, true, false, Option, none, some, List, [], ◌∷◌, ◌++◌, ◌-◌, ◌&&◌, ◌||◌, not, ltb,
  ◌==◌, if◌then◌else◌,
}
use kvfs.Base.Text.{Bytes}

pub record Line : Type 0 where
  pub seq : ℕ
  pub body : Bytes

-- An Append that has begun, with its line and the epoch in which it was written.
pub record Waiter : Type 0 where
  pub line : Line
  pub epoch : ℕ

-- Where the flusher is in flushOnce: before it, in the fsync, or behind the fsync.
pub data Flusher : Type 0 where
  idle : Flusher
  syncing synced : ℕ → ℕ → Flusher

pub record Log : Type 0 where
  pub seq : ℕ
  pub durable_seq : ℕ
  pub closed : Bool
  pub epoch : ℕ
  pub last_batch : ℕ
  pub durable : List Line
  pub written : List Line
  pub buffered : List Line
  pub begun : List Waiter
  pub flusher : Flusher

-- w.w.Flush. One that fails leaves the buffer here; what it did write is spilled by a step of its own.
-- In the program the error stays with the writer, so that each later flush fails too until Truncate
-- makes a new one: those are among the runs of this model, in which a flush may end either way.
unfoldable pub flush : Bool → Log → Log
flush true w = record w { written = w.written ++ w.buffered; buffered = [] }
flush false w = w

-- f.Sync
unfoldable pub sync : Bool → Log → Log
sync true w = record w { durable = w.durable ++ w.written; written = [] }
sync false w = w

-- Lines that the buffer, when it is full, writes ahead of a flush.
unfoldable pub spill : List Line → List Line → Log → Log
spill ahead rest w = record w { written = w.written ++ ahead; buffered = rest }

unfoldable pub next_line : Bytes → Log → Line
next_line body w = record { seq = suc w.seq; body = body }

-- Append up to its wait: a line whose write fails takes its number.
unfoldable pub begin_append : Bool → Bytes → Log → Log
begin_append true body w =
    let line = next_line body w in
    record w {
      seq = suc w.seq;
      buffered = w.buffered ++ line ∷ [];
      begun = w.begun ++ record { line = line; epoch = w.epoch } ∷ [];
    }
begin_append false body w = record w { seq = suc w.seq }

-- The loop of Append, and how it ends.
pub data Verdict : Type 0 where
  parked truncated closed_before : Verdict
  returns : ℕ → Verdict

unfoldable pub verdict : Waiter → Log → Verdict
verdict a w =
    if ltb w.durable_seq a.line.seq && not w.closed && (w.epoch == a.epoch)
    then parked
    else if not (w.epoch == a.epoch)
    then truncated
    else if w.closed && ltb w.durable_seq a.line.seq
    then closed_before
    else returns a.line.seq

-- Append with an interval of 0: the write, the flush and the fsync, and the number where all succeed.
unfoldable append_inline : Bool → Bool → Bool → Bytes → Log → Log × Option ℕ
append_inline write_ok flush_ok sync_ok body w =
    let line = next_line body w in
    let bare = record w { seq = suc w.seq } in
    let full = record w { seq = suc w.seq; buffered = w.buffered ++ line ∷ [] } in
    if not write_ok
    then (bare, none)
    else if not flush_ok
    then (full, none)
    else (sync sync_ok (flush true full), if sync_ok then some line.seq else none)

-- flushOnce up to the fsync.
unfoldable pub flush_once : Bool → Log → Log
flush_once ok w =
    if not (ltb w.durable_seq w.seq) || w.closed
    then w
    else if ok
    then record (flush true w) { flusher = syncing w.seq w.epoch }
    else flush false w

-- Its fsync, on the file of its epoch.
unfoldable pub sync_once : Bool → Log → Log
sync_once ok w = elim w.flusher [
  | idle ↦ w
  | synced pending epoch ↦ w
  | syncing pending epoch ↦
      if ok
      then record (if w.epoch == epoch then sync true w else w) { flusher = synced pending epoch }
      else record w { flusher = idle }
]

-- Its end.
unfoldable pub publish : Log → Log
publish w = elim w.flusher [
  | idle ↦ w
  | syncing pending epoch ↦ w
  | synced pending epoch ↦
      let rest = record w { flusher = idle } in
      if not (w.epoch == epoch) || w.closed
      then rest
      else if ltb w.durable_seq pending
      then record rest { last_batch = pending - w.durable_seq; durable_seq = pending }
      else rest
]

-- Truncate, where it succeeds, with the number that it discards.
unfoldable pub truncate : Log → Log × ℕ
truncate w = (
  record w {
    seq = 0;
    durable_seq = 0;
    epoch = suc w.epoch;
    last_batch = 0;
    durable = [];
    written = [];
    buffered = [];
  },
  w.seq,
)

-- Close, up to the wait for the flusher: it goes on when its flush or its fsync fails.
unfoldable pub close : Bool → Bool → Log → Log
close flush_ok sync_ok w =
    if w.closed
    then w
    else (let final = sync sync_ok (flush flush_ok (record w { closed = true })) in
        record final { durable_seq = if ltb w.durable_seq w.seq then w.seq else w.durable_seq })

-- The lines after a number.
unfoldable pub after : ℕ → List Line → List Line
after since [] = []
after since (l ∷ lines) = let rest = after since lines in if ltb since l.seq then l ∷ rest else rest

-- Since: a flush, and where it succeeds the lines of the file; none is its error.
unfoldable pub since : Bool → ℕ → Log → Log × Option (List Line)
since ok n w =
    let v = flush ok w in (v, if ok then some (after n (v.durable ++ v.written)) else none)

-- recoverLastSeq, on the lines of the file that can be read.
unfoldable pub recover_from : ℕ → List Line → ℕ
recover_from last [] = last
recover_from last (l ∷ lines) = recover_from (if ltb last l.seq then l.seq else last) lines

-- OpenWALWithBatch on a file with these lines.
unfoldable pub open_wal : List Line → Log
open_wal lines = record {
  seq = recover_from 0 lines;
  durable_seq = recover_from 0 lines;
  closed = false;
  epoch = 0;
  last_batch = 0;
  durable = [];
  written = lines;
  buffered = [];
  begun = [];
  flusher = idle;
}
