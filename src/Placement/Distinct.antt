-- ===== src/Placement/Distinct.antt =====
-- Lists of nodes of placement.go without a repeated identifier, and their lengths.
use mathlib.Core.List.{Memᴰ}
use mathlib.Core.List.Memᴰ.{head, tail}
use kvfs.Base.{
  suc, ◌≤◌, ◌≡◌, refl, sym, ap, ◌∙◌, false, true, List, [], ◌∷◌, map, arith, Bool-cases, inl, inr,
  subst, length, if◌then◌else◌,
}
use kvfs.Base.Text.{Bytes, beq, beq_iff, beq_refl}
use kvfs.Base.Assoc.{contains}
use kvfs.Placement.{Node}
use kvfs.Placement.Spread.{mem→contains, AllDistinct}

abbrev pub ids : List Node → List Bytes
ids = map (λ nd. nd.id)

-- The list without the first x.
without_one : Bytes → List Bytes → List Bytes
without_one x [] = []
without_one x (y ∷ ys) = if beq y x then ys else y ∷ without_one x ys

length-without_one :
    (x : Bytes) (ys : List Bytes)
    → contains ys x ≡ true
    → length ys ≡ suc (length (without_one x ys))
unfolding without_one contains
length-without_one x [] h = cc
length-without_one x (y ∷ ys) h = ground (arith, length-without_one x ys)

contains-without_one :
    (x z : Bytes) (ys : List Bytes)
    → contains ys z ≡ true
    → beq x z ≡ false
    → contains (without_one x ys) z ≡ true
unfolding without_one contains
contains-without_one x z [] h e = cc
contains-without_one x z (y ∷ ys) h e =
    ground (arith, beq_iff y x, beq_iff x z, beq_iff y z, contains-without_one x z ys)

mem_differs : (x z : Bytes) (xs : List Bytes) → contains xs x ≡ false → Memᴰ z xs → beq x z ≡ false
mem_differs x z xs h m = elim (Bool-cases (beq x z)) [
  | inl e ↦ cc (h, mem→contains xs x (subst (λ u. Memᴰ u xs) (sym ((beq_iff x z).0 e)) m))
  | inr e ↦ e
]

-- Different strings that all stand in another list are not more than its elements.
pub length-le_of_contains :
    (xs ys : List Bytes)
    → AllDistinct xs
    → ((z : Bytes) → Memᴰ z xs → contains ys z ≡ true)
    → length xs ≤ length ys
length-le_of_contains [] ys d sub = omega arith
length-le_of_contains (x ∷ xs) ys d sub = omega (
  arith,
  length-without_one x ys (sub x (head refl)),
  length-le_of_contains xs (without_one x ys) d.1
      (λ z m. contains-without_one x z ys (sub z (tail m)) (mem_differs x z xs d.0 m)),
)

pub mem-ids : (nodes : List Node) (nd : Node) → Memᴰ nd nodes → contains (ids nodes) nd.id ≡ true
unfolding contains
mem-ids [] nd m = elim m [ ]
mem-ids (x ∷ xs) nd (head e) = rw e (ground (arith, beq_refl x.id))
mem-ids (x ∷ xs) nd (tail m) = ground (arith, mem-ids xs nd m)

-- With distinct identifiers an identifier names one node.
pub unique-of_AllDistinct :
    (nodes : List Node)
    → AllDistinct (ids nodes)
    → (a b : Node) → Memᴰ a nodes
    → Memᴰ b nodes
    → a.id ≡ b.id
    → a ≡ b
unique-of_AllDistinct [] d a b ma mb e = elim ma [ ]
unique-of_AllDistinct (x ∷ xs) d a b (head ea) (head eb) e = ea ∙ sym eb
unique-of_AllDistinct (x ∷ xs) d a b (head ea) (tail mb) e = cc (
  d.0,
  mem-ids xs b mb,
  ap (λ (nd : Node). contains (ids xs) nd.id) ea,
  ap (λ k. contains (ids xs) k) e,
)
unique-of_AllDistinct (x ∷ xs) d a b (tail ma) (head eb) e = cc (
  d.0,
  mem-ids xs a ma,
  ap (λ (nd : Node). contains (ids xs) nd.id) eb,
  ap (λ k. contains (ids xs) k) e,
)
unique-of_AllDistinct (x ∷ xs) d a b (tail ma) (tail mb) e =
    unique-of_AllDistinct xs d.1 a b ma mb e
