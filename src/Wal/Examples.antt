-- ===== src/Wal/Examples.antt =====
-- A run of the WAL: a file with one line, an Append, and a round of the flusher.
use kvfs.Base.{true, false, none, some, List, [], ◌∷◌, ◌≡◌, refl, arith}
use kvfs.Wal.{
  Line, Waiter, Log, flush, sync, next_line, begin_append, verdict, flush_once, sync_once, publish,
  close, since, recover_from, open_wal, returns,
}
use kvfs.Wal.Steps.{Step, Reaches, here, then_step}
use kvfs.Wal.Durable.{returns-durable, flush_round, flush_round-returns, failed_close-returns}
use kvfs.Wal.Reading.{since-rest}
use mathlib.Core.List.{Memᴰ}
use mathlib.Core.List.Memᴰ.{head}

abbrev old_line : Line
old_line = record { seq = 1; body = b'o' ∷ [] }

abbrev new_line : Line
new_line = record { seq = 2; body = b'n' ∷ [] }

abbrev lines : List Line
lines = old_line ∷ []

abbrev waiter : Waiter
waiter = record { line = new_line; epoch = 0 }

abbrev appended : Log
appended = begin_append true (b'n' ∷ []) (open_wal lines)

abbrev flushed : Log
flushed = publish (sync_once true (flush_once true appended))

appended-reached : Reaches (open_wal lines) appended
appended-reached = then_step here (Step.append true (b'n' ∷ []) (open_wal lines))

flushed-reached : Reaches (open_wal lines) flushed
flushed-reached =
    then_step
      (then_step (then_step appended-reached (Step.flushing true appended))
        (Step.fsync true (flush_once true appended)))
      (Step.publishing (sync_once true (flush_once true appended)))

returns-durable_example : (2 ≡ waiter.line.seq) × Memᴰ waiter.line flushed.durable
unfolding publish sync_once flush_once flush sync begin_append next_line open_wal recover_from
    verdict
returns-durable_example = returns-durable lines flushed waiter 2 flushed-reached (head refl) refl

flush_round-returns_example : verdict waiter (flush_round appended) ≡ returns 2
unfolding begin_append next_line open_wal recover_from
flush_round-returns_example =
    flush_round-returns lines appended waiter appended-reached refl refl (head refl) refl

failed_close-returns_example :
    ((close false false appended).durable ≡ appended.durable)
    × (verdict waiter (close false false appended) ≡ returns 2)
unfolding begin_append next_line open_wal recover_from
failed_close-returns_example =
    failed_close-returns lines appended waiter appended-reached refl (head refl) refl

since-rest_example :
    ((since true 1 appended).1 ≡ some (new_line ∷ [])) × ((since false 1 appended).1 ≡ none)
unfolding begin_append next_line open_wal recover_from
since-rest_example =
    since-rest lines appended lines (new_line ∷ []) (omega arith) appended-reached refl
