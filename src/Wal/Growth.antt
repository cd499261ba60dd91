-- ===== src/Wal/Growth.antt =====
-- Steps within an epoch: they lose no line, and new Appends have new numbers.
use kvfs.Base.{
  ℕ, ◌≤◌, ◌<◌, Bool, true, false, List, ◌++◌, ◌≡◌, ◌⊎◌, inl, inr, refl, sym, ◌∙◌, subst, arith,
  mem-append_left, append_nil, append_assoc,
}
use kvfs.Base.Text.{Bytes}
use kvfs.Wal.{
  Line, Waiter, Flusher, Log, flush, sync, spill, next_line, begin_append, idle, syncing, synced,
}
use kvfs.Wal.Invariant.{Each, FlusherIsSound, last-begun}
use mathlib.Core.List.{Memᴰ}

pub record Grows (v w : Log) : Type 0 where
  pub same_epoch : w.epoch ≡ v.epoch
  pub seq_le : v.seq ≤ w.seq
  pub old_or_new : (a : Waiter) → Memᴰ a w.begun → Memᴰ a v.begun ⊎ (v.seq < a.line.seq)
  pub durable_kept : (l : Line) → Memᴰ l v.durable → Memᴰ l w.durable
  pub written_kept : (l : Line) → Memᴰ l (v.durable ++ v.written) → Memᴰ l (w.durable ++ w.written)

-- What holds of every earlier Append up to a number holds still.
Each-Grows :
    (v w : Log) (n : ℕ) (P Q : Line → Type 0)
    → Grows v w
    → n ≤ v.seq
    → ((l : Line) → P l → Q l)
    → Each v (λ a. a.line.seq ≤ n → P a.line)
    → Each w (λ a. a.line.seq ≤ n → Q a.line)
Each-Grows v w n P Q g le f each a m e s = elim (g.old_or_new a m) [
  | inl k ↦ f a.line (each a k (e ∙ g.same_epoch) s)
  | inr k ↦ absurd (omega (arith, k, s, le))
]

pub FlusherIsSound-Grows :
    (v w : Log) (f : Flusher) → Grows v w → FlusherIsSound v f → FlusherIsSound w f
FlusherIsSound-Grows v w idle g h = tt
FlusherIsSound-Grows v w (syncing pending epoch) g h = (
  subst (λ n. epoch ≤ n) (sym g.same_epoch) h.0,
  λ e.
      let (le, each) = h.1 (e ∙ g.same_epoch) in
      (
        omega (arith, le, g.seq_le),
        Each-Grows v w pending (λ l. Memᴰ l (v.durable ++ v.written))
            (λ l. Memᴰ l (w.durable ++ w.written)) g le g.written_kept each,
      ),
)
FlusherIsSound-Grows v w (synced pending epoch) g h = (
  subst (λ n. epoch ≤ n) (sym g.same_epoch) h.0,
  λ e.
      let (le, each) = h.1 (e ∙ g.same_epoch) in
      (
        omega (arith, le, g.seq_le),
        Each-Grows v w pending (λ l. Memᴰ l v.durable) (λ l. Memᴰ l w.durable) g le g.durable_kept
            each,
      ),
)

-- A step that changes no Append.
same-Grows :
    (v w : Log)
    → w.epoch ≡ v.epoch
    → w.seq ≡ v.seq
    → w.begun ≡ v.begun
    → ((l : Line) → Memᴰ l v.durable → Memᴰ l w.durable)
    → ((l : Line) → Memᴰ l (v.durable ++ v.written) → Memᴰ l (w.durable ++ w.written))
    → Grows v w
same-Grows v w e s b d r = record {
  same_epoch = e;
  seq_le = omega (arith, s);
  old_or_new = λ a m. inl (subst (λ l. Memᴰ a l) b m);
  durable_kept = d;
  written_kept = r;
}

pub flush-Grows : (ok : Bool) (w : Log) → Grows w (flush ok w)
unfolding flush
flush-Grows true w =
    same-Grows w (flush true w) refl refl refl (λ l m. m)
      (λ l m.
        subst (λ x. Memᴰ l x) (append_assoc w.durable w.written w.buffered)
          (mem-append_left _ w.buffered m))
flush-Grows false w = same-Grows w w refl refl refl (λ l m. m) (λ l m. m)

pub spill-Grows : (first rest : List Line) (w : Log) → Grows w (spill first rest w)
unfolding spill
spill-Grows first rest w =
    same-Grows w (spill first rest w) refl refl refl (λ l m. m)
      (λ l m.
        subst (λ x. Memᴰ l x) (append_assoc w.durable w.written first) (mem-append_left _ first m))

sync-Grows : (ok : Bool) (w : Log) → Grows w (sync ok w)
unfolding sync
sync-Grows true w =
    same-Grows w (sync true w) refl refl refl (λ l m. mem-append_left w.durable w.written m)
      (λ l m. rw (append_nil (w.durable ++ w.written)) m)
sync-Grows false w = same-Grows w w refl refl refl (λ l m. m) (λ l m. m)

pub append-Grows : (ok : Bool) (body : Bytes) (w : Log) → Grows w (begin_append ok body w)
unfolding begin_append next_line
append-Grows true body w = record {
  same_epoch = refl;
  seq_le = omega arith;
  old_or_new = λ a m. elim (last-begun w.begun _ a m) [
    | inl k ↦ inl k
    | inr e ↦ inr (subst (λ x. w.seq < x.line.seq) (sym e) (omega arith))
  ];
  durable_kept = λ l m. m;
  written_kept = λ l m. m;
}
append-Grows false body w = record {
  same_epoch = refl;
  seq_le = omega arith;
  old_or_new = λ a m. inl m;
  durable_kept = λ l m. m;
  written_kept = λ l m. m;
}
