-- ===== src/Urlkey/Url.antt =====
-- How a URL that BuildURL of urlkey.go formats is read again, as net/http and net/url read a request's
-- target: the path in front of the first question mark, and the query's parameters. BuildURL writes
-- the path and the key's identifier as they are, so that only plain ones are read as they were.
use kvfs.Base.{
  ℕ, ◌+◌, ◌-◌, ◌*◌, Bool, true, false, ◌&&◌, ◌||◌, not, Option, none, some, List, [], ◌∷◌, ◌++◌,
  ◌≡◌, refl, if◌then◌else◌, ◌==◌, leb, All, inl, inr, Bool-cases, ==_iff, arith, ap,
}
use kvfs.Base.Text.{Bytes, beq, is_empty}
use kvfs.Base.Int.{ℤ}
use kvfs.Base.Decimal.{format_int, InDigits, format_int-InDigits}
use kvfs.Urlkey.{Query}

-- strings.Cut at a byte.
unfoldable pub cut : ℕ → Bytes → Bytes × Option Bytes
cut sep [] = ([], none)
cut sep (c ∷ s) = let rest = cut sep s in if c == sep then ([], some s) else (c ∷ rest.0, rest.1)

push : ℕ → List Bytes → List Bytes
push c [] = (c ∷ []) ∷ []
push c (p ∷ pieces) = (c ∷ p) ∷ pieces

-- strings.Split at a byte.
split_on : ℕ → Bytes → List Bytes
unfolding push
split_on sep [] = [] ∷ []
split_on sep (c ∷ s) = let rest = split_on sep s in if c == sep then [] ∷ rest else push c rest

is_hex : ℕ → Bool
is_hex c = leb b'0' c && leb c b'9' || leb b'a' c && leb c b'f' || leb b'A' c && leb c b'F'

hex_value : ℕ → ℕ
hex_value c = if leb c b'9' then c - b'0' else if leb c b'F' then c - 55 else c - 87

prepend : ℕ → Option Bytes → Option Bytes
prepend c none = none
prepend c (some s) = some (c ∷ s)

-- A byte that is no percent sign: in a query a plus is a space.
letter : Bool → ℕ → ℕ
letter in_query c = if in_query && (c == b'+') then b' ' else c

-- url.QueryUnescape, and url.PathUnescape where the text is not in a query; none is an error.
unescape : Bool → Bytes → Option Bytes
unfolding prepend letter is_hex hex_value
unescape q [] = some []
unescape q (c ∷ []) = if c == b'%' then none else some (letter q c ∷ [])
unescape q (c ∷ d ∷ []) =
    let rest = unescape q (d ∷ []) in if c == b'%' then none else prepend (letter q c) rest
unescape q (c ∷ d ∷ e ∷ s) =
    let rest = unescape q (d ∷ e ∷ s) in
    let behind = unescape q s in
    if c == b'%'
    then (if is_hex d && is_hex e then prepend (16 * hex_value d + hex_value e) behind else none)
    else prepend (letter q c) rest

lacks : ℕ → Bytes → Bool
lacks sep [] = true
lacks sep (c ∷ s) = not (c == sep) && lacks sep s

both : Option Bytes → Option Bytes → Option (Bytes × Bytes)
both (some k) (some v) = some (k, v)
both none v = none
both (some k) none = none

value_part : Option Bytes → Bytes
value_part none = []
value_part (some v) = v

-- One piece of url.ParseQuery: none is one that it passes over.
pair_of : Bytes → Option (Bytes × Bytes)
unfolding lacks cut unescape both value_part
pair_of p =
    if is_empty p || not (lacks b';' p)
    then none
    else both (unescape true (cut b'=' p).0) (unescape true (value_part (cut b'=' p).1))

-- Values.Get: the first value, or the empty string.
value_of : Bytes → List Bytes → Bytes
unfolding pair_of
value_of key [] = []
value_of key (p ∷ pieces) = elim (pair_of p) [
  | none ↦ value_of key pieces
  | some (k, v) ↦ if beq k key then v else value_of key pieces
]

abbrev pub kid_name : Bytes
kid_name = b'k' ∷ b'i' ∷ b'd' ∷ []

abbrev pub sig_name : Bytes
sig_name = b's' ∷ b'i' ∷ b'g' ∷ []

abbrev pub exp_name : Bytes
exp_name = b'e' ∷ b'x' ∷ b'p' ∷ []

query_of : Bytes → Query
unfolding split_on value_of
query_of raw =
    let pieces = split_on b'&' raw in
    record {
      sig = value_of sig_name pieces;
      exp = value_of exp_name pieces;
      kid = value_of kid_name pieces;
    }

with_query : Query → Option Bytes → Option (Bytes × Query)
with_query q none = none
with_query q (some path) = some (path, q)

-- The path and the query of a request's target; none is a target that is refused.
unfoldable pub read_url : Bytes → Option (Bytes × Query)
unfolding query_of with_query
read_url url = with_query (query_of (value_part (cut b'?' url).1)) (unescape false (cut b'?' url).0)

-- A letter, a digit, or one of - . / _ ~
abbrev pub is_plain : ℕ → Bool
is_plain c =
    leb b'-' c && leb c b'9'
    || leb b'a' c && leb c b'z'
    || leb b'A' c && leb c b'Z'
    || (c == b'_')
    || (c == b'~')

abbrev pub IsPlain : Bytes → Type 0
IsPlain = All (λ c. is_plain c ≡ true)

unescape-plain : (q : Bool) (s : Bytes) → IsPlain s → unescape q s ≡ some s
unfolding unescape
unescape-plain q [] h = refl
unescape-plain q (c ∷ []) h = ground (arith, h.0)
unescape-plain q (c ∷ d ∷ []) h = ground (arith, h.0, unescape-plain q (d ∷ []) h.1)
unescape-plain q (c ∷ d ∷ e ∷ s) h = ground (arith, h.0, unescape-plain q (d ∷ e ∷ s) h.1)

plain_differs : (sep x : ℕ) → is_plain sep ≡ false → is_plain x ≡ true → (x == sep) ≡ false
plain_differs sep x np h = elim (Bool-cases (x == sep)) [
  | inl e ↦ absurd (cc (np, h, ap is_plain ((==_iff x sep).0 e)))
  | inr e ↦ e
]

cut-plain :
    (sep : ℕ) (xs ys : Bytes)
    → is_plain sep ≡ false
    → IsPlain xs
    → cut sep (xs ++ sep ∷ ys) ≡ (xs, some ys)
unfolding cut
cut-plain sep [] ys np h = ground arith
cut-plain sep (x ∷ xs) ys np h = rw (plain_differs sep x np h.0, cut-plain sep xs ys np h.1) refl

lacks-plain : (sep : ℕ) (xs : Bytes) → is_plain sep ≡ false → IsPlain xs → lacks sep xs ≡ true
unfolding lacks
lacks-plain sep [] np h = refl
lacks-plain sep (x ∷ xs) np h = rw (plain_differs sep x np h.0) (lacks-plain sep xs np h.1)

lacks-append : (sep : ℕ) (xs ys : Bytes) → lacks sep (xs ++ ys) ≡ (lacks sep xs && lacks sep ys)
unfolding lacks
lacks-append sep [] ys = refl
lacks-append sep (x ∷ xs) ys = ground (arith, lacks-append sep xs ys)

split_on-lacks :
    (sep : ℕ) (xs ys : Bytes)
    → lacks sep xs ≡ true
    → split_on sep (xs ++ sep ∷ ys) ≡ xs ∷ split_on sep ys
unfolding lacks split_on push
split_on-lacks sep [] ys h = ground arith
split_on-lacks sep (x ∷ xs) ys h = ground (arith, h, split_on-lacks sep xs ys)

split_on-last : (sep : ℕ) (xs : Bytes) → lacks sep xs ≡ true → split_on sep xs ≡ xs ∷ []
unfolding lacks split_on push
split_on-last sep [] h = refl
split_on-last sep (x ∷ xs) h = ground (arith, h, split_on-last sep xs)

-- A parameter with a plain name and value.
unfoldable pub parameter : Bytes → Bytes → Bytes
parameter name v = name ++ b'=' ∷ v

pair_of-parameter :
    (k : ℕ) (name v : Bytes)
    → IsPlain (k ∷ name)
    → IsPlain v
    → pair_of (parameter (k ∷ name) v) ≡ some (k ∷ name, v)
unfolding pair_of parameter is_empty both value_part
pair_of-parameter k name v hn hv =
    rw
      (
        lacks-append b';' (k ∷ name) (b'=' ∷ v),
        lacks-plain b';' (k ∷ name) refl hn,
        lacks-plain b';' v refl hv,
        cut-plain b'=' (k ∷ name) v refl hn,
        unescape-plain true (k ∷ name) hn,
        unescape-plain true v hv,
      )
      refl

lacks-parameter :
    (sep : ℕ) (name v : Bytes)
    → is_plain sep ≡ false
    → lacks sep (b'=' ∷ []) ≡ true
    → IsPlain name
    → IsPlain v
    → lacks sep (parameter name v) ≡ true
unfolding parameter lacks
lacks-parameter sep name v np ne hn hv =
    rw (lacks-append sep name (b'=' ∷ v), lacks-plain sep name np hn, lacks-plain sep v np hv)
      (ground (arith, ne))

value_of-parameter :
    (k : ℕ) (name v key : Bytes) (pieces : List Bytes)
    → IsPlain (k ∷ name)
    → IsPlain v
    → value_of key (parameter (k ∷ name) v ∷ pieces)
      ≡ (if beq (k ∷ name) key then v else value_of key pieces)
unfolding value_of
value_of-parameter k name v key pieces hn hv = rw (pair_of-parameter k name v hn hv, value_of) refl

-- A plain path with plain parameters is read as it was written.
pub read_url-plain :
    (path kid sig exp : Bytes)
    → IsPlain path
    → IsPlain kid
    → IsPlain sig
    → IsPlain exp
    → read_url (
        path
        ++ b'?'
          ∷ (parameter kid_name kid
              ++ b'&' ∷ (parameter sig_name sig ++ b'&' ∷ parameter exp_name exp)))
      ≡ some (path, record { sig = sig; exp = exp; kid = kid })
unfolding read_url query_of value_part with_query beq
read_url-plain path kid sig exp hp hk hs he =
    let named_kid : IsPlain kid_name = (refl, (refl, (refl, tt))) in
    let named_sig : IsPlain sig_name = (refl, (refl, (refl, tt))) in
    let named_exp : IsPlain exp_name = (refl, (refl, (refl, tt))) in
    let kid_part = parameter kid_name kid in
    let sig_part = parameter sig_name sig in
    let exp_part = parameter exp_name exp in
    let raw = kid_part ++ b'&' ∷ (sig_part ++ b'&' ∷ exp_part) in
    rw
      (
        cut-plain b'?' path raw refl hp,
        unescape-plain false path hp,
        split_on-lacks b'&' kid_part (sig_part ++ b'&' ∷ exp_part)
            (lacks-parameter b'&' kid_name kid refl refl named_kid hk),
        split_on-lacks b'&' sig_part exp_part
            (lacks-parameter b'&' sig_name sig refl refl named_sig hs),
        split_on-last b'&' exp_part (lacks-parameter b'&' exp_name exp refl refl named_exp he),
        value_of-parameter b'k' (b'i' ∷ b'd' ∷ []) kid sig_name (sig_part ∷ exp_part ∷ []) named_kid
            hk,
        value_of-parameter b'k' (b'i' ∷ b'd' ∷ []) kid exp_name (sig_part ∷ exp_part ∷ []) named_kid
            hk,
        value_of-parameter b'k' (b'i' ∷ b'd' ∷ []) kid kid_name (sig_part ∷ exp_part ∷ []) named_kid
            hk,
        value_of-parameter b's' (b'i' ∷ b'g' ∷ []) sig sig_name (exp_part ∷ []) named_sig hs,
        value_of-parameter b's' (b'i' ∷ b'g' ∷ []) sig exp_name (exp_part ∷ []) named_sig hs,
        value_of-parameter b'e' (b'x' ∷ b'p' ∷ []) exp exp_name [] named_exp he,
      )
      refl

InDigits-IsPlain : (s : Bytes) → InDigits s → IsPlain s
InDigits-IsPlain [] h = tt
InDigits-IsPlain (c ∷ s) h = (ground (arith, h.0.0, h.0.1), InDigits-IsPlain s h.1)

pub format_int-IsPlain : (z : ℤ) → IsPlain (format_int z)
format_int-IsPlain z = InDigits-IsPlain (format_int z) (format_int-InDigits z)
