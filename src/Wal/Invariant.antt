-- ===== src/Wal/Invariant.antt =====
-- What holds of the WAL in every interleaving.
use kvfs.Base.{◌≤◌, List, [], ◌∷◌, ◌++◌, ◌≡◌, ◌⊎◌, inl, inr, arith, mem-append_cases}
use kvfs.Wal.{Line, Waiter, Flusher, Log, open_wal, idle, syncing, synced}
use mathlib.Core.List.{Memᴰ}
use mathlib.Core.List.Memᴰ.{head, tail}

-- Every Append of this epoch satisfies the predicate.
abbrev pub Each : Log → (Waiter → Type 0) → Type 0
Each w P = (a : Waiter) → Memᴰ a w.begun → a.epoch ≡ w.epoch → P a

-- What the flusher is about to publish is written, and behind the fsync durable.
abbrev pub FlusherIsSound : Log → Flusher → Type 0
FlusherIsSound w idle = Unit
FlusherIsSound w (syncing pending epoch) =
    (epoch ≤ w.epoch)
    × (epoch ≡ w.epoch
        → (pending ≤ w.seq)
          × Each w (λ a. a.line.seq ≤ pending → Memᴰ a.line (w.durable ++ w.written)))
FlusherIsSound w (synced pending epoch) =
    (epoch ≤ w.epoch)
    × (epoch ≡ w.epoch
        → (pending ≤ w.seq) × Each w (λ a. a.line.seq ≤ pending → Memᴰ a.line w.durable))

pub record IsSound (w : Log) : Type 0 where
  pub durable_seq_le : w.durable_seq ≤ w.seq
  pub epochs : (a : Waiter) → Memᴰ a w.begun → a.epoch ≤ w.epoch
  pub numbered : Each w (λ a. a.line.seq ≤ w.seq)
  pub kept : Each w (λ a. Memᴰ a.line (w.durable ++ (w.written ++ w.buffered)))
  pub covered : Each w (λ a. a.line.seq ≤ w.durable_seq → Memᴰ a.line w.durable)
  pub flusher_sound : FlusherIsSound w w.flusher

pub fresh-IsSound : (lines : List Line) → IsSound (open_wal lines)
unfolding open_wal
fresh-IsSound lines = record {
  durable_seq_le = omega arith;
  epochs = λ a m. elim m [ ];
  numbered = λ a m e. elim m [ ];
  kept = λ a m e. elim m [ ];
  covered = λ a m e. elim m [ ];
  flusher_sound = tt;
}

pub last-begun :
    (b : List Waiter) (n : Waiter) (a : Waiter) → Memᴰ a (b ++ n ∷ []) → Memᴰ a b ⊎ (a ≡ n)
last-begun b n a m = elim (mem-append_cases b (n ∷ []) m) [
  | inl k ↦ inl k
  | inr (head e) ↦ inr e
  | inr (tail k) ↦ elim k [ ]
]
