-- ===== src/Wal/Syncing.antt =====
-- The steps of the WAL that sync, publish, rotate or close keep the invariant, so it holds of every
-- log that is reached.
use kvfs.Base.{
  ℕ, suc, ◌-◌, Bool, true, false, List, [], ◌++◌, ◌≡◌, inl, inr, refl, sym, subst, if◌then◌else◌,
  ◌==◌, ◌||◌, not, ltb, arith, Bool-cases, mem-append_left, append_nil, append_assoc,
}
use kvfs.Wal.{
  Line, Waiter, Flusher, Log, flush, sync, sync_once, publish, truncate, close, since, open_wal,
  idle, syncing, synced,
}
use kvfs.Wal.Steps.{Step, Reaches, here, then_step}
use kvfs.Wal.Invariant.{FlusherIsSound, IsSound, fresh-IsSound}
use kvfs.Wal.Growth.{Grows, FlusherIsSound-Grows}
use kvfs.Wal.Preserved.{
  carried, sync-lines, append-IsSound, spill-IsSound, flush-IsSound, flush_once-IsSound,
}
use mathlib.Core.List.{Memᴰ}

-- A flusher that has come to an end.
idle-IsSound : (w : Log) → IsSound w → IsSound (record w { flusher = idle })
idle-IsSound w h =
    carried w (record w { flusher = idle }) refl refl refl refl (λ l m. m) (λ l m. m) tt h

-- The fsync of a flusher in its own epoch, and in a later one.
same_epoch-IsSound :
    (pending epoch : ℕ) (w : Log)
    → w.flusher ≡ syncing pending epoch
    → IsSound w
    → IsSound (record (sync true w) { flusher = synced pending epoch })
unfolding sync
same_epoch-IsSound pending epoch w f h =
    let sound = subst (λ x. FlusherIsSound w x) f h.flusher_sound in
    carried w (record (sync true w) { flusher = synced pending epoch }) refl refl refl refl
      (λ l m. mem-append_left w.durable w.written m) (sync-lines w.durable w.written w.buffered)
      sound h

other_epoch-IsSound :
    (pending epoch : ℕ) (w : Log)
    → w.flusher ≡ syncing pending epoch
    → (w.epoch == epoch) ≡ false
    → IsSound w
    → IsSound (record w { flusher = synced pending epoch })
other_epoch-IsSound pending epoch w f ne h =
    let sound = subst (λ x. FlusherIsSound w x) f h.flusher_sound in
    carried w (record w { flusher = synced pending epoch }) refl refl refl refl (λ l m. m)
      (λ l m. m) (sound.0, λ q. absurd (ground (arith, ne, q))) h

fsync-IsSound : (ok : Bool) (w : Log) → IsSound w → IsSound (sync_once ok w)
unfolding sync_once
fsync-IsSound ok w h = by_flusher w.flusher refl ok
  where
    by_flusher : (f : Flusher) → w.flusher ≡ f → (b : Bool) → IsSound (sync_once b w)
    by_flusher idle e b = rw (e, sync_once) h
    by_flusher (synced pending epoch) e b = rw (e, sync_once) h
    by_flusher (syncing pending epoch) e false = rw (e, sync_once) (idle-IsSound w h)
    by_flusher (syncing pending epoch) e true = elim (Bool-cases (w.epoch == epoch)) [
      | inl q ↦ rw (e, sync_once) (rw q (same_epoch-IsSound pending epoch w e h))
      | inr q ↦ rw (e, sync_once) (rw q (other_epoch-IsSound pending epoch w e q h))
    ]

published-IsSound :
    (pending epoch : ℕ) (w : Log)
    → w.flusher ≡ synced pending epoch
    → w.epoch ≡ epoch
    → IsSound w
    → IsSound
        (record w { flusher = idle; last_batch = pending - w.durable_seq; durable_seq = pending })
published-IsSound pending epoch w f e h =
    let sound = subst (λ x. FlusherIsSound w x) f h.flusher_sound in
    let now = sound.1 (sym e) in
    record {
      durable_seq_le = now.0;
      epochs = h.epochs;
      numbered = h.numbered;
      kept = h.kept;
      covered = now.1;
      flusher_sound = tt;
    }

publish-IsSound : (w : Log) → IsSound w → IsSound (publish w)
unfolding publish
publish-IsSound w h = by_flusher w.flusher refl
  where
    by_flusher : (f : Flusher) → w.flusher ≡ f → IsSound (publish w)
    by_flusher idle e = rw (e, publish) h
    by_flusher (syncing pending epoch) e = rw (e, publish) h
    by_flusher (synced pending epoch) e = elim (Bool-cases (not (w.epoch == epoch) || w.closed)) [
      | inl q ↦ rw (e, publish) (rw q (idle-IsSound w h))
      | inr q ↦ elim (Bool-cases (ltb w.durable_seq pending)) [
        | inr r ↦ rw (e, publish) (rw (q, r) (idle-IsSound w h))
        | inl r ↦
            rw (e, publish) (rw (q, r) (published-IsSound pending epoch w e (ground (arith, q)) h))
      ]
    ]

-- A flusher that is sound is of no later epoch, and rotation leaves it behind.
behind : (v w : Log) (f : Flusher) → w.epoch ≡ suc v.epoch → FlusherIsSound v f → FlusherIsSound w f
behind v w idle e h = tt
behind v w (syncing pending epoch) e h =
    (omega (arith, h.0, e), λ q. absurd (omega (arith, h.0, e, q)))
behind v w (synced pending epoch) e h =
    (omega (arith, h.0, e), λ q. absurd (omega (arith, h.0, e, q)))

truncate-IsSound : (w : Log) → IsSound w → IsSound (truncate w).0
unfolding truncate
truncate-IsSound w h =
    let gone = λ (a : Waiter) (m : Memᴰ a w.begun). h.epochs a m in
    record {
      durable_seq_le = omega arith;
      epochs = λ a m. omega (arith, gone a m);
      numbered = λ a m e. absurd (omega (arith, gone a m, e));
      kept = λ a m e. absurd (omega (arith, gone a m, e));
      covered = λ a m e. absurd (omega (arith, gone a m, e));
      flusher_sound = behind w (truncate w).0 w.flusher refl h.flusher_sound;
    }

close-IsSound : (w : Log) → IsSound w → IsSound (close true true w)
unfolding close flush sync
close-IsSound w h = by_closed w.closed
  where
    synced_all : Log
    synced_all = record w {
      closed = true;
      durable = w.durable ++ (w.written ++ w.buffered);
      written = [];
      buffered = [];
    }

    shut : Log
    shut = record synced_all {
      durable_seq = if ltb w.durable_seq w.seq then w.seq else w.durable_seq;
    }

    grown : Grows w shut
    grown = record {
      same_epoch = refl;
      seq_le = omega arith;
      old_or_new = λ a m. inl m;
      durable_kept = λ l m. mem-append_left w.durable (w.written ++ w.buffered) m;
      written_kept = λ l m. rw (append_nil (w.durable ++ (w.written ++ w.buffered))) (
          subst (λ x. Memᴰ l x) (append_assoc w.durable w.written w.buffered)
            (mem-append_left (w.durable ++ w.written) w.buffered m));
    }

    by_closed : (b : Bool) → IsSound (if b then w else shut)
    by_closed true = h
    by_closed false = record {
      durable_seq_le = ground (arith, h.durable_seq_le);
      epochs = h.epochs;
      numbered = h.numbered;
      kept = λ a m q. mem-append_left _ [] (h.kept a m q);
      covered = λ a m q le. h.kept a m q;
      flusher_sound = FlusherIsSound-Grows w shut w.flusher grown h.flusher_sound;
    }

step-IsSound : {v w : Log} → Step v w → IsSound v → IsSound w
unfolding since
step-IsSound (Step.append ok body w) h = append-IsSound ok body w h
step-IsSound (Step.ahead w first rest e) h = spill-IsSound first rest w e h
step-IsSound (Step.flushing ok w) h = flush_once-IsSound ok w h
step-IsSound (Step.fsync ok w) h = fsync-IsSound ok w h
step-IsSound (Step.publishing w) h = publish-IsSound w h
step-IsSound (Step.reading ok n w) h = flush-IsSound ok w h
step-IsSound (Step.rotation w) h = truncate-IsSound w h
step-IsSound (Step.closing w) h = close-IsSound w h

pub reached-IsSound : (lines : List Line) {w : Log} → Reaches (open_wal lines) w → IsSound w
reached-IsSound lines here = fresh-IsSound lines
reached-IsSound lines (then_step r s) = step-IsSound s (reached-IsSound lines r)
