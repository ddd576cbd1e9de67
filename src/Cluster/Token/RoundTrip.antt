-- ===== src/Cluster/Token/RoundTrip.antt =====
-- internal/cluster/dsync.go: the number of a token, written and read back.
use native.Mathlib.Nat.{pow-suc}
use gostore.Base.{
  ap, ◌∙◌, ℕ, zero, suc, ◌+◌, ◌*◌, ◌/◌, ◌%◌, ◌^◌, ◌<◌, ◌≤◌, Text, [], ◌∷◌, ◌++◌, some, ◌==◌, ◌≡◌,
  refl, arith, All, Bool-cases, inl, inr, ◌≢◌, digit_value, digit_char, digit_value-digit_char,
}
use gostore.Cluster.Token.{
  seq_of_prefix, max_u64, parse_from, before_dash, token_seq_of, format_from, rand_token,
}

parse_from-cons :
    (m d c : ℕ) (acc : Text)
    → digit_value c ≡ some d
    → m * 36 + d ≤ max_u64
    → parse_from m (c ∷ acc) ≡ parse_from (m * 36 + d) acc
unfolding parse_from
parse_from-cons m d c acc e k = ground arith

-- One more digit in front of the rest.
parse_from-digit :
    (n : ℕ) (acc : Text)
    → n ≤ max_u64
    → parse_from (n / 36) (digit_char (n % 36) ∷ acc) ≡ parse_from n acc
parse_from-digit n acc k =
    parse_from-cons (n / 36) (n % 36) _ acc (digit_value-digit_char (n % 36) (omega arith))
      (omega arith)
    ∙ ap (λ i. parse_from i acc) (omega arith)

-- Reading what the loop writes in front of `acc` goes on at `acc` with the number.
parse_from-format_from :
    (f n : ℕ) (acc : Text)
    → n < 2 ^ f
    → n ≤ max_u64
    → parse_from 0 (format_from f n acc) ≡ parse_from n acc
unfolding format_from
parse_from-format_from zero n acc h k = ap (λ i. parse_from i acc) (omega arith)
parse_from-format_from (suc f) n acc h k = elim (Bool-cases (n / 36 == 0)) [
  | inl e ↦
      rw (e, format_from)
        (ap (λ i. parse_from i (digit_char (n % 36) ∷ acc)) (ground arith)
          ∙ parse_from-digit n acc k)
  | inr e ↦
      rw (e, format_from)
        (parse_from-format_from f (n / 36) (digit_char (n % 36) ∷ acc) (omega (arith, pow-suc 2 f))
            (omega arith)
          ∙ parse_from-digit n acc k)
]

NoDash : Text → Type 0
NoDash = All (λ c. c ≢ b'-')

format_from-NoDash : (f n : ℕ) (acc : Text) → NoDash acc → NoDash (format_from f n acc)
unfolding NoDash format_from digit_char
format_from-NoDash zero n acc h = h
format_from-NoDash (suc f) n acc h = elim (Bool-cases (n / 36 == 0)) [
  | inl e ↦ rw (e, format_from) (ground arith, h)
  | inr e ↦ rw (e, format_from) (format_from-NoDash f (n / 36) _ (ground arith, h))
]

before_dash-append : (s r : Text) → NoDash s → before_dash (s ++ (b'-' ∷ r)) ≡ some s
unfolding NoDash before_dash
before_dash-append [] r h = refl
before_dash-append (c ∷ s) r h = ground (arith, before_dash-append s r h.1)

-- The empty text before a dash stands for 0, as it does for the parser.
token_seq_of-append : (s r : Text) → NoDash s → token_seq_of (s ++ (b'-' ∷ r)) ≡ parse_from 0 s
unfolding token_seq_of
token_seq_of-append s r h = ap seq_of_prefix (before_dash-append s r h) ∙ by_cases s
  where
    by_cases : (s : Text) → seq_of_prefix (some s) ≡ parse_from 0 s
    by_cases [] = unfold parse_from in refl
    by_cases (c ∷ s) = refl

-- The sequence number of a token is the one that it was made with, for every number of 64 bits and
-- every random part.
pub token_seq_of-rand_token :
    (seq : ℕ) (random : Text) → seq ≤ max_u64 → token_seq_of (rand_token seq random) ≡ seq
unfolding rand_token
token_seq_of-rand_token seq random h =
    token_seq_of-append (format_from 64 seq []) random
      (format_from-NoDash 64 seq [] (unfold NoDash in tt))
    ∙ parse_from-format_from 64 seq [] (omega arith) h
    ∙ unfold parse_from in refl
