-- ===== src/Coordinator/Examples.antt =====
-- A write of coordinator.go to three nodes, of which one refuses the chunk and another goes down later.
use mathlib.Core.List.{Permᴰ}
use kvfs.Base.{
  ℕ, ◌≤◌, ◌<◌, true, false, none, List, [], ◌∷◌, ◌≡◌, ◌↔◌, ◌≢◌, refl, if◌then◌else◌, length, map,
  arith,
}
use kvfs.Base.Text.{Bytes, beq, beq_iff}
use kvfs.Base.Assoc.{contains}
use kvfs.Base.Int.{pos}
use kvfs.Base.Call.{Call, ok, failed}
use kvfs.Gc.Running.{count}
use kvfs.Placement.Spread.{AllDistinct}
use kvfs.Coordinator.{
  Coordinator, positive_or, new_coordinator, node_at, new_with_addrs, Answer, acks_of, count_acks,
  quorum_of, write_chunk_to_addrs_w, read_chunk, built, found,
}
use kvfs.Coordinator.Acks.{has_acked, addrs_of, write, write_chunk_to_addrs_w-ok_iff}
use kvfs.Coordinator.ReadBack.{Serves, read_chunk-written_lem}

abbrev dn1 : Bytes
dn1 = b'1' ∷ []

abbrev dn2 : Bytes
dn2 = b'2' ∷ []

abbrev dn3 : Bytes
dn3 = b'3' ∷ []

abbrev addrs : List Bytes
addrs = dn1 ∷ dn2 ∷ dn3 ∷ []

abbrev coordinator : Coordinator
coordinator = record { nodes = map node_at addrs; replication_factor = 3; quorum_write = 2 }

-- The defaults: three replicas and a quorum of two.
built_by_default : new_with_addrs addrs (pos 0) (pos 0) ≡ built coordinator
unfolding new_with_addrs new_coordinator positive_or
built_by_default = refl

abbrev answers : List Bytes → List Answer
answers targets =
    record { addr = dn2; outcome = ok tt }
    ∷ record { addr = dn3; outcome = failed (b'x' ∷ []) }
    ∷ record { addr = dn1; outcome = ok tt }
    ∷ []

answered : Permᴰ (addrs_of (answers addrs)) addrs
answered = Permᴰ.trans (Permᴰ.cons refl (Permᴰ.swap refl refl)) (Permᴰ.swap refl refl)

abbrev body : Bytes
body = b'd' ∷ b'a' ∷ []

-- The node dn2 is down.
abbrev get : Bytes → Call Bytes
get a = if beq a dn2 then failed [] else ok body

write_chunk_to_addrs_w-ok_iff_example : ((write answers coordinator addrs (pos 0)).error ≡ none) ↔ (
    (addrs ≢ [])
    × ((n : ℕ) × (pos 0 ≡ pos n)
        × (n ≡ 0 → coordinator.quorum_write ≤ count has_acked (answers addrs))
        × (n ≢ 0 → n ≤ count has_acked (answers addrs))))
write_chunk_to_addrs_w-ok_iff_example =
    write_chunk_to_addrs_w-ok_iff answers coordinator addrs (pos 0) answered

written : (write answers coordinator addrs (pos 0)).error ≡ none
unfolding write_chunk_to_addrs_w quorum_of count_acks acks_of
written = refl

distinct : AllDistinct addrs
unfolding contains beq
distinct = (refl, (refl, (refl, tt)))

one_down : length (dn2 ∷ []) < quorum_of coordinator (pos 0)
unfolding quorum_of
one_down = omega arith

up_get : (a : Bytes) → contains (dn2 ∷ []) a ≡ false → get a ≡ ok body
unfolding contains
up_get a h = ground (arith, h, beq_iff a dn2, beq_iff dn2 a)

down_get : (a : Bytes) → contains (dn2 ∷ []) a ≡ true → Serves body (get a)
unfolding contains
down_get a h = let e : beq a dn2 ≡ true = ground (arith, h, beq_iff a dn2, beq_iff dn2 a) in rw e tt

read_chunk-written_lem_example :
    (addr : Bytes) × (read_chunk get (write answers coordinator addrs (pos 0)).acks
      ≡ found body addr)
    × (contains (write answers coordinator addrs (pos 0)).acks addr ≡ true)
read_chunk-written_lem_example =
    read_chunk-written_lem get body answers coordinator addrs (dn2 ∷ []) (pos 0) distinct answered
      written one_down (λ a k o. up_get a o) down_get
