-- ===== src/Wal/Steps.antt =====
-- The WAL of wal.go with an interval above 0, under any interleaving of Append, the flusher, Since,
-- Truncate and Close.
use kvfs.Base.{ℕ, Bool, true, List, ◌++◌, ◌≡◌}
use kvfs.Base.Text.{Bytes}
use kvfs.Wal.{
  Line, Log, spill, begin_append, flush_once, sync_once, publish, truncate, close, since,
}

-- Each section under the mutex, the fsync of the flusher between two of them, and the buffer writing
-- ahead. A Close counts whose flush and fsync succeed; it ignores their errors.
pub data Step : Log → Log → Type 0 where
  append : (ok : Bool) (body : Bytes) (w : Log) → Step w (begin_append ok body w)
  ahead :
      (w : Log) (first rest : List Line) → w.buffered ≡ first ++ rest → Step w (spill first rest w)
  flushing : (ok : Bool) (w : Log) → Step w (flush_once ok w)
  fsync : (ok : Bool) (w : Log) → Step w (sync_once ok w)
  publishing : (w : Log) → Step w (publish w)
  reading : (ok : Bool) (n : ℕ) (w : Log) → Step w (since ok n w).0
  rotation : (w : Log) → Step w (truncate w).0
  closing : (w : Log) → Step w (close true true w)

-- The logs that any number of steps reach.
pub data Reaches (start : Log) : Log → Type 0 where
  here : Reaches start start
  then_step : {v w : Log} → Reaches start v → Step v w → Reaches start w
