-- ===== src/Cluster/Token.antt =====
-- internal/cluster/dsync.go, randToken and tokenSeqOf: a lock token is the number of its request in
-- base 36, a dash, and a random part. The conversions are strconv.FormatUint and ParseUint.
pub mod RoundTrip
use gostore.Base.{
  ℕ, zero, suc, ◌+◌, ◌-◌, ◌*◌, ◌/◌, ◌%◌, ◌^◌, Text, List, [], ◌∷◌, ◌++◌, Bool, true, false, Option,
  none, some, ◌==◌, ltb, leb, ◌&&◌, if◌then◌else◌, codes, digit_value, digit_char,
}

abbrev pub max_u64 : ℕ
max_u64 = 18446744073709551615

-- `ParseUint(s, 36, 64)` with its error ignored: 0 after a bad digit, the greatest number after an
-- overflow.
unfoldable pub parse_from : ℕ → Text → ℕ
parse_from n [] = n
parse_from n (c ∷ s) = elim (digit_value c) [
  | none ↦ 0
  | some d ↦ let m = n * 36 + d in elim (ltb max_u64 m) [ true ↦ max_u64 | false ↦ parse_from m s ]
]

-- What stands before the first dash, where there is one.
unfoldable pub before_dash : Text → Option Text
before_dash [] = none
before_dash (c ∷ s) =
    let rest = before_dash s in
    if c == b'-' then some [] else elim rest [ none ↦ none | some t ↦ some (c ∷ t) ]

-- The guard `i > 0` leaves an empty prefix out.
abbrev pub seq_of_prefix : Option Text → ℕ
seq_of_prefix none = 0
seq_of_prefix (some []) = 0
seq_of_prefix (some (c ∷ s)) = parse_from 0 (c ∷ s)

unfoldable pub token_seq_of : Text → ℕ
unfolding before_dash parse_from digit_value
token_seq_of tok = seq_of_prefix (before_dash tok)

unfoldable pub token_newer : Text → Text → Bool
token_newer a b = ltb (token_seq_of b) (token_seq_of a)

-- The loop of `FormatUint(n, 36)`; 64 rounds are more than the 13 that a 64-bit number takes.
unfoldable pub format_from : ℕ → ℕ → Text → Text
format_from zero n acc = acc
format_from (suc f) n acc =
    let acc' = digit_char (n % 36) ∷ acc in
    elim (n / 36 == 0) [ true ↦ acc' | false ↦ format_from f (n / 36) acc' ]

-- `randToken` with the next value of the counter and the hex digits of the random part.
unfoldable pub rand_token : ℕ → Text → Text
unfolding format_from
rand_token seq random = format_from 64 seq [] ++ (b'-' ∷ random)
