-- ===== src/Wal/Order.antt =====
-- The lines of the WAL stand in the order of their numbers, in every interleaving.
use kvfs.Base.{
  ℕ, suc, ◌-◌, ◌≤◌, ◌<◌, Bool, true, false, List, [], ◌∷◌, ◌++◌, ◌≡◌, inl, inr, refl, sym, ap, ◌∙◌,
  subst, if◌then◌else◌, ◌==◌, ◌||◌, not, ltb, arith, Bool-cases, append_nil, append_assoc,
}
use kvfs.Base.Text.{Bytes}
use kvfs.Wal.{
  Line, Flusher, Log, flush, sync, spill, next_line, begin_append, flush_once, sync_once, publish,
  truncate, close, since, idle, syncing, synced,
}
use kvfs.Wal.Steps.{Step}
use kvfs.Wal.Preserved.{lines_of}

-- Numbers in ascending order, above a bound.
abbrev pub IsNumbered : ℕ → List Line → Type 0
IsNumbered low [] = Unit
IsNumbered low (l ∷ lines) = (low < l.seq) × IsNumbered l.seq lines

abbrev pub last_of : ℕ → List Line → ℕ
last_of low [] = low
last_of low (l ∷ lines) = last_of l.seq lines

IsNumbered-append :
    (low n : ℕ) (lines : List Line) (l : Line)
    → IsNumbered low lines
    → last_of low lines ≤ n
    → n < l.seq
    → IsNumbered low (lines ++ l ∷ []) × (last_of low (lines ++ l ∷ []) ≡ l.seq)
IsNumbered-append low n [] l h le lt = ((omega (arith, le, lt), tt), refl)
IsNumbered-append low n (x ∷ lines) l h le lt =
    let rest = IsNumbered-append x.seq n lines l h.1 le lt in ((h.0, rest.0), rest.1)

-- The numbers of the lines ascend and end at most at the log's own.
pub record IsOrdered (w : Log) : Type 0 where
  pub ascending : IsNumbered 0 (lines_of w)
  pub end_le : last_of 0 (lines_of w) ≤ w.seq

same_lines : (v w : Log) → lines_of w ≡ lines_of v → w.seq ≡ v.seq → IsOrdered v → IsOrdered w
same_lines v w e s h = record {
  ascending = subst (λ l. IsNumbered 0 l) (sym e) h.ascending;
  end_le = omega (arith, h.end_le, s, ap (last_of 0) e);
}

flush-lines_of : (ok : Bool) (w : Log) → lines_of (flush ok w) ≡ lines_of w
unfolding flush
flush-lines_of true w = ap (λ x. w.durable ++ x) (append_nil (w.written ++ w.buffered))
flush-lines_of false w = refl

sync-lines_of : (ok : Bool) (w : Log) → lines_of (sync ok w) ≡ lines_of w
unfolding sync
sync-lines_of true w = append_assoc w.durable w.written w.buffered
sync-lines_of false w = refl

flush_once-IsOrdered : (ok : Bool) (w : Log) → IsOrdered w → IsOrdered (flush_once ok w)
unfolding flush_once flush
flush_once-IsOrdered ok w h = elim (Bool-cases (not (ltb w.durable_seq w.seq) || w.closed)) [
  | inl e ↦ rw (e, flush_once) h
  | inr e ↦ rw (e, flush_once) (by_ok ok)
]
  where
    started : Log
    started = record (flush true w) { flusher = syncing w.seq w.epoch }

    by_ok : (b : Bool) → IsOrdered (if b then started else flush false w)
    by_ok false = h
    by_ok true = same_lines w started (flush-lines_of true w) refl h

fsync-IsOrdered : (ok : Bool) (w : Log) → IsOrdered w → IsOrdered (sync_once ok w)
unfolding sync_once sync
fsync-IsOrdered ok w h = by_flusher w.flusher refl ok
  where
    done_at : ℕ → ℕ → Log → Log
    done_at pending epoch v = record v { flusher = synced pending epoch }

    by_flusher : (f : Flusher) → w.flusher ≡ f → (b : Bool) → IsOrdered (sync_once b w)
    by_flusher idle e b = rw (e, sync_once) h
    by_flusher (synced pending epoch) e b = rw (e, sync_once) h
    by_flusher (syncing pending epoch) e false =
        rw (e, sync_once) (same_lines w (record w { flusher = idle }) refl refl h)
    by_flusher (syncing pending epoch) e true = elim (Bool-cases (w.epoch == epoch)) [
      | inl q ↦
          rw (e, sync_once)
            (rw q
              (same_lines w (done_at pending epoch (sync true w)) (sync-lines_of true w) refl h))
      | inr q ↦ rw (e, sync_once) (rw q (same_lines w (done_at pending epoch w) refl refl h))
    ]

publish-IsOrdered : (w : Log) → IsOrdered w → IsOrdered (publish w)
unfolding publish
publish-IsOrdered w h = by_flusher w.flusher refl
  where
    rest : Log
    rest = record w { flusher = idle }

    by_flusher : (f : Flusher) → w.flusher ≡ f → IsOrdered (publish w)
    by_flusher idle e = rw (e, publish) h
    by_flusher (syncing pending epoch) e = rw (e, publish) h
    by_flusher (synced pending epoch) e = elim (Bool-cases (not (w.epoch == epoch) || w.closed)) [
      | inl q ↦ rw (e, publish) (rw q (same_lines w rest refl refl h))
      | inr q ↦ elim (Bool-cases (ltb w.durable_seq pending)) [
        | inr r ↦ rw (e, publish) (rw (q, r) (same_lines w rest refl refl h))
        | inl r ↦
            rw (e, publish)
              (rw (q, r)
                (same_lines w
                  (record rest { last_batch = pending - w.durable_seq; durable_seq = pending }) refl
                  refl h))
      ]
    ]

close-IsOrdered : (w : Log) → IsOrdered w → IsOrdered (close true true w)
unfolding close flush sync
close-IsOrdered w h = by_closed w.closed
  where
    shut : Log
    shut = record w {
      closed = true;
      durable = w.durable ++ (w.written ++ w.buffered);
      written = [];
      buffered = [];
      durable_seq = if ltb w.durable_seq w.seq then w.seq else w.durable_seq;
    }

    by_closed : (b : Bool) → IsOrdered (if b then w else shut)
    by_closed true = h
    by_closed false = same_lines w shut (append_nil (lines_of w)) refl h

append-IsOrdered :
    (ok : Bool) (body : Bytes) (w : Log) → IsOrdered w → IsOrdered (begin_append ok body w)
unfolding begin_append next_line
append-IsOrdered false body w h = record {
  ascending = h.ascending;
  end_le = omega (arith, h.end_le);
}
append-IsOrdered true body w h =
    let line : Line = record { seq = suc w.seq; body = body } in
    let same : lines_of w ++ line ∷ [] ≡ w.durable ++ (w.written ++ (w.buffered ++ line ∷ [])) =
      append_assoc w.durable (w.written ++ w.buffered) (line ∷ [])
      ∙ ap (λ x. w.durable ++ x) (append_assoc w.written w.buffered (line ∷ [])) in
    let (up, end) =
      IsNumbered-append 0 w.seq (lines_of w) line h.ascending h.end_le (omega arith) in
    record {
      ascending = subst (λ l. IsNumbered 0 l) same up;
      end_le = omega (arith, end, ap (last_of 0) same);
    }

flush-IsOrdered : (ok : Bool) (w : Log) → IsOrdered w → IsOrdered (flush ok w)
unfolding flush
flush-IsOrdered true w h = same_lines w (flush true w) (flush-lines_of true w) refl h
flush-IsOrdered false w h = h

pub step-IsOrdered : {v w : Log} → Step v w → IsOrdered v → IsOrdered w
unfolding since truncate spill flush
step-IsOrdered (Step.append ok body w) h = append-IsOrdered ok body w h
step-IsOrdered (Step.ahead w first rest e) h =
    same_lines w (spill first rest w)
      (ap (λ x. w.durable ++ x)
        (append_assoc w.written first rest ∙ ap (λ x. w.written ++ x) (sym e)))
      refl h
step-IsOrdered (Step.flushing ok w) h = flush_once-IsOrdered ok w h
step-IsOrdered (Step.fsync ok w) h = fsync-IsOrdered ok w h
step-IsOrdered (Step.publishing w) h = publish-IsOrdered w h
step-IsOrdered (Step.reading ok n w) h = flush-IsOrdered ok w h
step-IsOrdered (Step.rotation w) h = record { ascending = tt; end_le = omega arith }
step-IsOrdered (Step.closing w) h = close-IsOrdered w h
