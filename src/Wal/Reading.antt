-- ===== src/Wal/Reading.antt =====
-- What Since gives a follower, and what a WAL that is opened again goes on from.
use kvfs.Base.{
  ℕ, ◌≤◌, false, true, none, some, List, [], ◌∷◌, ◌++◌, ◌≡◌, refl, ap, ◌∙◌, subst, ltb, arith,
  append_nil, lt→ltb,
}
use kvfs.Wal.{Line, Log, flush, after, since, recover_from, open_wal}
use kvfs.Wal.Steps.{Reaches, here, then_step}
use kvfs.Wal.Order.{IsNumbered, last_of, IsOrdered, step-IsOrdered}

recover_from-last :
    (low : ℕ) (lines : List Line)
    → IsNumbered low lines
    → recover_from low lines ≡ last_of low lines
unfolding recover_from
recover_from-last low [] h = refl
recover_from-last low (l ∷ lines) h = rw (lt→ltb low l.seq h.0) (recover_from-last l.seq lines h.1)

-- After the number of any of its lines, Since gives the lines that follow it.
after-above :
    (n low : ℕ) (lines : List Line) → n ≤ low → IsNumbered low lines → after n lines ≡ lines
unfolding after
after-above n low [] le h = refl
after-above n low (l ∷ lines) le h =
    rw (lt→ltb n l.seq (omega (arith, le, h.0)))
      (ap (λ x. l ∷ x) (after-above n l.seq lines (omega (arith, le, h.0)) h.1))

last-le : (low : ℕ) (xs ys : List Line) → IsNumbered low (xs ++ ys) → low ≤ last_of low xs
last-le low [] ys h = omega arith
last-le low (x ∷ xs) ys h = omega (arith, h.0, last-le x.seq xs ys h.1)

not_after : (n k : ℕ) → k ≤ n → ltb n k ≡ false
not_after n k h = ground arith

-- What was applied is not sent again, and what follows it is sent.
after-split :
    (low : ℕ) (xs ys : List Line)
    → IsNumbered low (xs ++ ys)
    → after (last_of low xs) (xs ++ ys) ≡ ys
unfolding after
after-split low [] ys h = after-above low low ys (omega arith) h
after-split low (x ∷ xs) ys h =
    rw (not_after (last_of x.seq xs) x.seq (last-le x.seq xs ys h.1)) (after-split x.seq xs ys h.1)

reached-IsOrdered :
    (lines : List Line) {w : Log} → IsNumbered 0 lines → Reaches (open_wal lines) w → IsOrdered w
unfolding open_wal
reached-IsOrdered lines h here = record {
  ascending = rw (append_nil lines) h;
  end_le = rw (append_nil lines, recover_from-last 0 lines h) (omega arith);
}
reached-IsOrdered lines h (then_step r s) = step-IsOrdered s (reached-IsOrdered lines h r)

-- A WAL was opened on a file of whole lines whose numbers ascend, and any steps were taken. A follower
-- has applied some first lines of it, buffered ones included, and asks Since for what comes after the
-- last number that it applied. Where the flush of Since succeeds it gets the rest, in order, and where
-- the flush fails it gets the error and no lines.
pub since-rest :
    (lines : List Line) (w : Log) (applied rest : List Line)
    → IsNumbered 0 lines
    → Reaches (open_wal lines) w
    → w.durable ++ (w.written ++ w.buffered) ≡ applied ++ rest
    → ((since true (last_of 0 applied) w).1 ≡ some rest)
      × ((since false (last_of 0 applied) w).1 ≡ none)
unfolding since flush
since-rest lines w applied rest h r e =
    let ordered = reached-IsOrdered lines h r in
    (
      ap (λ l. some (after (last_of 0 applied) l)) e
          ∙ ap some (after-split 0 applied rest (subst (λ l. IsNumbered 0 l) e ordered.ascending)),
      refl,
    )
