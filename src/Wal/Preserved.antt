-- ===== src/Wal/Preserved.antt =====
-- Every step of the WAL keeps the invariant.
use kvfs.Base.{
  suc, ◌≤◌, Bool, true, false, List, [], ◌∷◌, ◌++◌, ◌≡◌, inl, inr, refl, sym, ap, ◌∙◌, subst,
  if◌then◌else◌, ◌||◌, not, ltb, arith, Bool-cases, mem-append_left, mem-append_right, append_nil,
  append_assoc,
}
use kvfs.Base.Text.{Bytes}
use kvfs.Wal.{Line, Waiter, Log, flush, spill, next_line, begin_append, flush_once, syncing}
use kvfs.Wal.Invariant.{FlusherIsSound, IsSound, last-begun}
use kvfs.Wal.Growth.{FlusherIsSound-Grows, flush-Grows, spill-Grows, append-Grows}
use mathlib.Core.List.{Memᴰ}
use mathlib.Core.List.Memᴰ.{head}

abbrev pub lines_of : Log → List Line
lines_of w = w.durable ++ (w.written ++ w.buffered)

-- A step that changes no Append and no published number.
pub carried :
    (v w : Log)
    → w.epoch ≡ v.epoch
    → w.seq ≡ v.seq
    → w.begun ≡ v.begun
    → w.durable_seq ≡ v.durable_seq
    → ((l : Line) → Memᴰ l v.durable → Memᴰ l w.durable)
    → ((l : Line) → Memᴰ l (lines_of v) → Memᴰ l (lines_of w))
    → FlusherIsSound w w.flusher
    → IsSound v
    → IsSound w
carried v w e s b d keep_durable keep f h =
    let was = λ (a : Waiter) (m : Memᴰ a w.begun). subst (λ l. Memᴰ a l) b m in
    record {
      durable_seq_le = omega (arith, h.durable_seq_le, s, d);
      epochs = λ a m. omega (arith, h.epochs a (was a m), e);
      numbered = λ a m q. omega (arith, h.numbered a (was a m) (q ∙ e), s);
      kept = λ a m q. keep a.line (h.kept a (was a m) (q ∙ e));
      covered = λ a m q le.
          keep_durable a.line (h.covered a (was a m) (q ∙ e) (subst (λ n. a.line.seq ≤ n) d le));
      flusher_sound = f;
    }

flush-lines : (w : Log) (l : Line) → Memᴰ l (lines_of w) → Memᴰ l (lines_of (flush true w))
unfolding flush
flush-lines w l m = rw (append_nil (w.written ++ w.buffered)) m

pub sync-lines :
    (d r b : List Line) (l : Line) → Memᴰ l (d ++ (r ++ b)) → Memᴰ l ((d ++ r) ++ ([] ++ b))
sync-lines d r b l m = subst (λ x. Memᴰ l x) (sym (append_assoc d r b)) m

pub append-IsSound :
    (ok : Bool) (body : Bytes) (w : Log) → IsSound w → IsSound (begin_append ok body w)
unfolding begin_append next_line
append-IsSound false body w h = record {
  durable_seq_le = omega (arith, h.durable_seq_le);
  epochs = h.epochs;
  numbered = λ a m e. omega (arith, h.numbered a m e);
  kept = h.kept;
  covered = h.covered;
  flusher_sound = FlusherIsSound-Grows w _ w.flusher (append-Grows false body w) h.flusher_sound;
}
append-IsSound true body w h =
    let line : Line = record { seq = suc w.seq; body = body } in
    let new : Waiter = record { line = line; epoch = w.epoch } in
    let split = λ (a : Waiter) (m : Memᴰ a (w.begun ++ new ∷ [])). last-begun w.begun new a m in
    let front = λ (l : Line) (m : Memᴰ l (lines_of w)).
      subst (λ x. Memᴰ l x)
        (append_assoc w.durable (w.written ++ w.buffered) (line ∷ [])
          ∙ ap (λ x. w.durable ++ x) (append_assoc w.written w.buffered (line ∷ [])))
        (mem-append_left (lines_of w) (line ∷ []) m) in
    record {
      durable_seq_le = omega (arith, h.durable_seq_le);
      epochs = λ a m. elim (split a m) [
        | inl k ↦ h.epochs a k
        | inr e ↦ subst (λ x. x.epoch ≤ w.epoch) (sym e) (omega arith)
      ];
      numbered = λ a m q. elim (split a m) [
        | inl k ↦ omega (arith, h.numbered a k q)
        | inr e ↦ subst (λ x. x.line.seq ≤ suc w.seq) (sym e) (omega arith)
      ];
      kept = λ a m q. elim (split a m) [
        | inl k ↦ front a.line (h.kept a k q)
        | inr e ↦
            subst (λ x. Memᴰ x.line (w.durable ++ (w.written ++ (w.buffered ++ line ∷ [])))) (sym e)
              (mem-append_right w.durable _
                (mem-append_right w.written _ (mem-append_right w.buffered _ (head refl))))
      ];
      covered = λ a m q le. elim (split a m) [
        | inl k ↦ h.covered a k q le
        | inr e ↦ absurd (omega (arith, h.durable_seq_le, le, ap (λ x. x.line.seq) e))
      ];
      flusher_sound = FlusherIsSound-Grows w _ w.flusher (append-Grows true body w) h.flusher_sound;
    }

pub spill-IsSound :
    (first rest : List Line) (w : Log)
    → w.buffered ≡ first ++ rest
    → IsSound w
    → IsSound (spill first rest w)
unfolding spill
spill-IsSound first rest w e h =
    carried w (spill first rest w) refl refl refl refl (λ l m. m)
      (λ l m.
        subst (λ x. Memᴰ l x)
          (ap (λ x. w.durable ++ x)
            (ap (λ x. w.written ++ x) e ∙ sym (append_assoc w.written first rest)))
          m)
      (FlusherIsSound-Grows w _ w.flusher (spill-Grows first rest w) h.flusher_sound) h

pub flush-IsSound : (ok : Bool) (w : Log) → IsSound w → IsSound (flush ok w)
unfolding flush
flush-IsSound false w h = h
flush-IsSound true w h =
    carried w (flush true w) refl refl refl refl (λ l m. m) (flush-lines w)
      (FlusherIsSound-Grows w _ w.flusher (flush-Grows true w) h.flusher_sound) h

pub flush_once-IsSound : (ok : Bool) (w : Log) → IsSound w → IsSound (flush_once ok w)
unfolding flush_once flush
flush_once-IsSound ok w h = elim (Bool-cases (not (ltb w.durable_seq w.seq) || w.closed)) [
  | inl e ↦ rw (e, flush_once) h
  | inr e ↦ rw (e, flush_once) (by_ok ok)
]
  where
    started : Log
    started = record (flush true w) { flusher = syncing w.seq w.epoch }

    by_ok : (b : Bool) → IsSound (if b then started else flush false w)
    by_ok false = h
    by_ok true =
        carried w started refl refl refl refl (λ l m. m) (flush-lines w)
          (omega arith, λ q. (omega arith, λ a m r s. h.kept a m r)) h
