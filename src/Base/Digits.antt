-- ===== src/Base/Digits.antt =====
-- Numbers as text in a base from 2 to 36, as package strconv writes and reads them.
use Prim.Native.Nat.{ℕ, zero, suc, ◌+◌, ◌-◌, ◌*◌, ◌/◌, ◌%◌, ◌^◌, ◌≤◌, ◌<◌}
use native.Mathlib.Nat.{pow-suc, pow-zero, div-add-mod', mod-lt, div-lt_iff_lt-mul}
use native.Mathlib.Omega.{arith}
use mathlib.Core.Path.{◌≡◌, refl, sym, subst, ap, ◌∙◌}
use mathlib.Core.Bool.{true, false, ◌&&◌}
use mathlib.Core.Logic.{◌≢◌, inl, inr}
use mathlib.Core.List.{[], ◌∷◌}
use mathlib.Core.Option.{Option, none, some}
use gostore.Base.Tests.{ltb, leb, ◌==◌, if◌then◌else◌, Bool-cases}
use gostore.Base.Strings.{Text}
use gostore.Base.Lists.{All}

-- The value of a digit in base 36, in either case.
unfoldable pub digit_value : ℕ → Option ℕ
digit_value c =
    if leb b'0' c && leb c b'9'
    then some (c - b'0')
    else if leb b'a' c && leb c b'z'
    then some (c - b'a' + 10)
    else if leb b'A' c && leb c b'Z'
    then some (c - b'A' + 10)
    else none

unfoldable pub digit_char : ℕ → ℕ
digit_char d = if ltb d 10 then b'0' + d else b'a' + (d - 10)

pub digit_value-digit_char : (d : ℕ) → d < 36 → digit_value (digit_char d) ≡ some d
unfolding digit_value digit_char
digit_value-digit_char d h = ground arith

abbrev pub max_i64 : ℕ
max_i64 = 9223372036854775807

-- The loop of `FormatInt` on a number that is not negative; 64 rounds are enough.
unfoldable pub format_from : ℕ → ℕ → ℕ → Text → Text
format_from b zero n acc = acc
format_from b (suc f) n acc =
    let acc' = digit_char (n % b) ∷ acc in
    elim (n / b == 0) [ true ↦ acc' | false ↦ format_from b f (n / b) acc' ]

unfoldable pub format_int : ℕ → ℕ → Text
unfolding format_from digit_char
format_int b n = format_from b 64 n []

-- The digits of a number, after those with the value `n`.
unfoldable pub digits_from : ℕ → ℕ → Text → Option ℕ
digits_from b n [] = if leb n max_i64 then some n else none
digits_from b n (c ∷ s) = elim (digit_value c) [
  | none ↦ none
  | some d ↦ elim (ltb d b) [ true ↦ digits_from b (n * b + d) s | false ↦ none ]
]

unfoldable pub parse_digits : ℕ → Text → Option ℕ
unfolding digits_from digit_value
parse_digits b [] = none
parse_digits b (c ∷ s) = digits_from b 0 (c ∷ s)

-- `ParseInt(s, b, 64)` where the caller refuses a negative number as it does an error: nothing then.
unfoldable pub parse_int : ℕ → Text → Option ℕ
unfolding parse_digits
parse_int b [] = none
parse_int b (c ∷ s) =
    if c == b'+'
    then parse_digits b s
    else if c == b'-'
    then elim (parse_digits b s) [ some zero ↦ some 0 | _ ↦ none ]
    else parse_digits b (c ∷ s)

format_int_lem : (b n : ℕ) → format_int b n ≡ format_from b 64 n []
format_int_lem b n = unfold format_int in refl

module _ (b : ℕ) (low : 1 < b) (high : b ≤ 36) where
  digits_from-cons :
      (m d : ℕ) (acc : Text)
      → d < b
      → digits_from b m (digit_char d ∷ acc) ≡ digits_from b (m * b + d) acc
  unfolding digits_from
  digits_from-cons m d acc h =
      rw (digit_value-digit_char d (omega arith), digits_from) (ground arith)

  -- Reading what the loop writes in front of `acc` goes on at `acc` with the number.
  digits_from-format_from :
      (f n : ℕ) (acc : Text)
      → n < b ^ f
      → digits_from b 0 (format_from b f n acc) ≡ digits_from b n acc
  unfolding format_from
  digits_from-format_from zero n acc h = ap (λ i. digits_from b i acc) (omega (arith, pow-zero b))
  digits_from-format_from (suc f) n acc h = elim (Bool-cases (n / b == 0)) [
    | inl e ↦
        rw (e, format_from)
          (digits_from-cons 0 (n % b) acc rest
            ∙ ap (λ i. digits_from b i acc) (ground (arith, div-add-mod' n b)))
    | inr e ↦
        rw (e, format_from)
          (digits_from-format_from f (n / b) (digit_char (n % b) ∷ acc)
              ((div-lt_iff_lt-mul (omega arith)).1 (omega (arith, pow-suc b f)))
            ∙ digits_from-cons (n / b) (n % b) acc rest
            ∙ ap (λ i. digits_from b i acc) (div-add-mod' n b))
  ]
    where
      rest : n % b < b
      rest = mod-lt n (omega arith)

  -- The text of a number starts with a digit, not with a sign.
  StartsWithDigit : Text → Type 0
  StartsWithDigit t = (c : ℕ) × (s : Text) × (t ≡ c ∷ s) × (48 ≤ c)

  cons-StartsWithDigit : (d : ℕ) (t : Text) → StartsWithDigit (digit_char d ∷ t)
  unfolding StartsWithDigit digit_char
  cons-StartsWithDigit d t = (_, t, refl, ground arith)

  format_from-StartsWithDigit :
      (f n : ℕ) (acc : Text) → StartsWithDigit acc → StartsWithDigit (format_from b f n acc)
  unfolding format_from
  format_from-StartsWithDigit zero n acc h = h
  format_from-StartsWithDigit (suc f) n acc h = elim (Bool-cases (n / b == 0)) [
    | inl e ↦ rw (e, format_from) (cons-StartsWithDigit (n % b) acc)
    | inr e ↦
        rw (e, format_from)
          (format_from-StartsWithDigit f (n / b) _ (cons-StartsWithDigit (n % b) acc))
  ]

  format_from-suc-StartsWithDigit : (f n : ℕ) → StartsWithDigit (format_from b (suc f) n [])
  unfolding format_from
  format_from-suc-StartsWithDigit f n = elim (Bool-cases (n / b == 0)) [
    | inl e ↦ rw (e, format_from) (cons-StartsWithDigit (n % b) [])
    | inr e ↦
        rw (e, format_from)
          (format_from-StartsWithDigit f (n / b) _ (cons-StartsWithDigit (n % b) []))
  ]

  parse_int-digit : (t : Text) → StartsWithDigit t → parse_int b t ≡ digits_from b 0 t
  unfolding parse_int parse_digits StartsWithDigit
  parse_int-digit t (c, s, e, h) = rw (e, parse_int) (ground arith)

  digits_from_nil : (n : ℕ) → n ≤ max_i64 → digits_from b n [] ≡ some n
  unfolding digits_from
  digits_from_nil n h = ground arith

  -- A number is read as it was written.
  pub parse_int-format_int :
      (n : ℕ) → n ≤ max_i64 → n < b ^ 64 → parse_int b (format_int b n) ≡ some n
  parse_int-format_int n h k =
      ap (parse_int b) (format_int_lem b n)
      ∙ parse_int-digit (format_from b 64 n []) (format_from-suc-StartsWithDigit 63 n)
      ∙ digits_from-format_from 64 n [] k
      ∙ digits_from_nil n h

-- The bytes of a number as text: neither signs, nor spaces, nor punctuation below the letters.
abbrev pub IsDigitByte : ℕ → Type 0
IsDigitByte c = (48 ≤ c) × (c ≢ 59)

digit_char-IsDigitByte : (d : ℕ) → IsDigitByte (digit_char d)
unfolding digit_char
digit_char-IsDigitByte d = (ground arith, λ e. ground arith)

format_from-All :
    (b f n : ℕ) (acc : Text) → All IsDigitByte acc → All IsDigitByte (format_from b f n acc)
unfolding format_from
format_from-All b zero n acc h = h
format_from-All b (suc f) n acc h = elim (Bool-cases (n / b == 0)) [
  | inl e ↦ rw (e, format_from) (digit_char-IsDigitByte (n % b), h)
  | inr e ↦ rw (e, format_from) (format_from-All b f (n / b) _ (digit_char-IsDigitByte (n % b), h))
]

pub format_int-All : (b n : ℕ) → All IsDigitByte (format_int b n)
format_int-All b n =
    subst (All IsDigitByte) (sym (format_int_lem b n)) (format_from-All b 64 n [] tt)

digit_char-ascii : (d : ℕ) → d < 36 → digit_char d < 128
unfolding digit_char
digit_char-ascii d h = ground (arith, h)

module _ (b : ℕ) (some_base : 0 < b) (few : b ≤ 36) where
  format_from-ascii :
      (f n : ℕ) (acc : Text) → All (λ c. c < 128) acc → All (λ c. c < 128) (format_from b f n acc)
  unfolding format_from
  format_from-ascii zero n acc h = h
  format_from-ascii (suc f) n acc h =
      let first : digit_char (n % b) < 128 =
        digit_char-ascii (n % b) (omega (arith, few, mod-lt n some_base)) in
      elim (Bool-cases (n / b == 0)) [
        | inl e ↦ rw (e, format_from) (first, h)
        | inr e ↦ rw (e, format_from) (format_from-ascii f (n / b) _ (first, h))
      ]

  pub format_int-ascii : (n : ℕ) → All (λ c. c < 128) (format_int b n)
  format_int-ascii n =
      subst (All (λ c. c < 128)) (sym (format_int_lem b n)) (format_from-ascii 64 n [] tt)
