-- ===== src/Wal/Durable.antt =====
-- What group commit promises to an Append.
use kvfs.Base.{
  ℕ, ◌≤◌, true, false, List, ◌≡◌, inl, inr, refl, sym, ap, ◌∙◌, subst, if◌then◌else◌, ◌==◌, ltb,
  arith, Bool-cases,
}
use kvfs.Wal.{
  Line, Waiter, Log, flush, sync, verdict, flush_once, sync_once, publish, close, open_wal, idle,
  syncing, returns,
}
use kvfs.Wal.Steps.{Reaches}
use kvfs.Wal.Syncing.{reached-IsSound}
use mathlib.Core.List.{Memᴰ}

verdict-returns :
    (a : Waiter) (w : Log) (n : ℕ)
    → verdict a w ≡ returns n
    → (a.epoch ≡ w.epoch) × (a.line.seq ≤ w.durable_seq) × (n ≡ a.line.seq)
unfolding verdict
verdict-returns a w n h = ground (arith, h)

-- In every interleaving of Appends, flushes, fsyncs, Since, Truncate and Close, failing or not but for
-- Close, an Append that returns a number returns its own, and its line is in the part of the file that
-- an fsync has covered.
pub returns-durable :
    (lines : List Line) (w : Log) (a : Waiter) (n : ℕ)
    → Reaches (open_wal lines) w
    → Memᴰ a w.begun
    → verdict a w ≡ returns n
    → (n ≡ a.line.seq) × Memᴰ a.line w.durable
returns-durable lines w a n r m v =
    let sound = reached-IsSound lines r in
    let (e, le, q) = verdict-returns a w n v in (q, sound.covered a m e le)

-- One round of the flusher in which nothing fails.
abbrev pub flush_round : Log → Log
flush_round w = publish (sync_once true (flush_once true w))

eq_refl : (n : ℕ) → (n == n) ≡ true
eq_refl n = ground arith

-- A round with something to do publishes the last number, and one with nothing to do no number.
busy-round :
    (w : Log)
    → ltb w.durable_seq w.seq ≡ true
    → w.closed ≡ false
    → ((flush_round w).durable_seq ≡ w.seq) × ((flush_round w).epoch ≡ w.epoch)
unfolding publish sync_once flush_once flush sync
busy-round w q c =
    let started : flush_once true w ≡ record (flush true w) { flusher = syncing w.seq w.epoch } =
      rw (q, flush_once) (rw c refl) in
    let both = λ (v : Log).
      ((publish (sync_once true v)).durable_seq ≡ w.seq)
      × ((publish (sync_once true v)).epoch ≡ w.epoch) in
    subst both (sym started) (rw (eq_refl w.epoch, c, q) (rw (eq_refl w.epoch) (refl, refl)))

idle-round : (w : Log) → ltb w.durable_seq w.seq ≡ false → w.flusher ≡ idle → flush_round w ≡ w
unfolding publish sync_once flush_once
idle-round w q f =
    let unstarted : flush_once true w ≡ w = rw (q, flush_once) refl in
    let unsynced : sync_once true w ≡ w = simp (f, sync_once) refl in
    let unpublished : publish w ≡ w = simp (f, publish) refl in
    ap (λ v. publish (sync_once true v)) unstarted ∙ ap publish unsynced ∙ unpublished

verdict-of_durable :
    (a : Waiter) (w : Log)
    → a.epoch ≡ w.epoch
    → a.line.seq ≤ w.durable_seq
    → verdict a w ≡ returns a.line.seq
unfolding verdict
verdict-of_durable a w e le = ground (arith, e, le)

-- In an open log that is reached, with the flusher between two rounds, one round of the flusher without
-- a failure lets every Append of this epoch return: none of them waits any longer.
pub flush_round-returns :
    (lines : List Line) (w : Log) (a : Waiter)
    → Reaches (open_wal lines) w
    → w.closed ≡ false
    → w.flusher ≡ idle
    → Memᴰ a w.begun
    → a.epoch ≡ w.epoch
    → verdict a (flush_round w) ≡ returns a.line.seq
flush_round-returns lines w a r c f m e =
    let sound = reached-IsSound lines r in
    let number = sound.numbered a m e in
    elim (Bool-cases (ltb w.durable_seq w.seq)) [
      | inl q ↦
          let (published, same) = busy-round w q c in
          verdict-of_durable a (flush_round w) (e ∙ sym same) (omega (arith, number, published))
      | inr q ↦
          let all : a.line.seq ≤ w.durable_seq = ground (arith, q, number) in
          subst (λ v. verdict a v ≡ returns a.line.seq) (sym (idle-round w q f))
            (verdict-of_durable a w e all)
    ]

-- Close ignores its errors: with a flush and an fsync that both fail, no line becomes durable, and yet
-- every Append of this epoch that was waiting then returns its number.
pub failed_close-returns :
    (lines : List Line) (w : Log) (a : Waiter)
    → Reaches (open_wal lines) w
    → w.closed ≡ false
    → Memᴰ a w.begun
    → a.epoch ≡ w.epoch
    → ((close false false w).durable ≡ w.durable)
      × (verdict a (close false false w) ≡ returns a.line.seq)
unfolding close flush sync
failed_close-returns lines w a r c m e =
    let sound = reached-IsSound lines r in
    let shut : Log = record w {
      closed = true;
      durable_seq = if ltb w.durable_seq w.seq then w.seq else w.durable_seq;
    } in
    let is_shut : close false false w ≡ shut = simp (c, close) refl in
    rw is_shut (
      refl,
      verdict-of_durable a shut e (ground (arith, sound.numbered a m e, sound.durable_seq_le)),
    )
