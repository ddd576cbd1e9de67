-- ===== src/Auth/Chunked/Lines.antt =====
-- internal/auth/chunked.go, readLine and the first line of a chunk: what is read of a line that is
-- written the way the protocol says.
use mathlib.Core.List.{reverse, reverse-cons, reverse-reverse, append-nil, append_assoc}
use gostore.Base.{
  ℕ, ◌≤◌, ◌≡◌, ◌≢◌, refl, subst, sym, ap, ◌∙◌, arith, Text, [], ◌∷◌, ◌++◌, true, false, none, some,
  ◌==◌, All, All-map, all, all_iff, not, Bytes, parse_int, format_int, parse_int-format_int,
  format_int-All, IsDigitByte, max_i64,
}
use gostore.Auth.Chunked.{
  trim_cr, line_from, read_line, split, cut_semicolon, signature_key, signature_of, trim_left,
  trim_space, parse_header,
}

-- A byte of a first line outside of its separators.
abbrev pub IsPlain : ℕ → Type 0
IsPlain c = (c ≢ 10) × (c ≢ 59)

pub All-append : (P : ℕ → Type 0) (s t : Text) → All P s → All P t → All P (s ++ t)
All-append P [] t h k = k
All-append P (c ∷ s) t h k = (h.0, All-append P s t h.1 k)

not_eq : (c d : ℕ) → c ≢ d → (c == d) ≡ false
not_eq c d h = ground arith

trim_cr-append : (s : Text) → trim_cr (s ++ (13 ∷ [])) ≡ s
unfolding trim_cr
trim_cr-append [] = refl
trim_cr-append (c ∷ []) = refl
trim_cr-append (c ∷ d ∷ s) = ap (λ t. c ∷ t) (trim_cr-append (d ∷ s))

line_from-append :
    (sb s : Text) (rest : Bytes)
    → All (λ c. c ≢ 10) s
    → line_from sb (s ++ (10 ∷ rest)) ≡ some (trim_cr (sb ++ s), rest)
unfolding line_from
line_from-append [] [] rest h = refl
line_from-append (b ∷ sb) [] rest h = ap (λ t. some (trim_cr (b ∷ t), rest)) (sym (append-nil sb))
line_from-append [] (c ∷ s) rest (hc, h) = rw (not_eq c 10 hc) (line_from-append (c ∷ []) s rest h)
line_from-append (b ∷ sb) (c ∷ s) rest (hc, h) = rw (not_eq c 10 hc) (
    line_from-append (b ∷ (sb ++ (c ∷ []))) s rest h
    ∙ ap (λ t. some (trim_cr (b ∷ t), rest)) (append_assoc sb (c ∷ []) s))

-- A line that ends with CR LF.
pub read_line-append :
    (s : Text) (rest : Bytes)
    → All (λ c. c ≢ 10) s
    → read_line (s ++ (13 ∷ 10 ∷ rest)) ≡ some (s, rest)
unfolding read_line
read_line-append s rest h =
    ap (line_from []) (sym (append_assoc s (13 ∷ []) (10 ∷ rest)))
    ∙ line_from-append [] (s ++ (13 ∷ [])) rest
        (All-append (λ c. c ≢ 10) s (13 ∷ []) h (λ e. ground arith, tt))
    ∙ ap (λ t. some (t, rest)) (trim_cr-append s)

cut_semicolon-none : (s : Text) → All (λ c. c ≢ 59) s → cut_semicolon s ≡ (s, none)
unfolding cut_semicolon
cut_semicolon-none [] h = refl
cut_semicolon-none (c ∷ s) (hc, h) = rw (not_eq c 59 hc, cut_semicolon-none s h) refl

cut_semicolon-some :
    (s t : Text) → All (λ c. c ≢ 59) s → cut_semicolon (s ++ (59 ∷ t)) ≡ (s, some t)
unfolding cut_semicolon
cut_semicolon-some [] t h = refl
cut_semicolon-some (c ∷ s) t (hc, h) = rw (not_eq c 59 hc, cut_semicolon-some s t h) refl

split-one : (s : Text) → All (λ c. c ≢ 59) s → split 59 s ≡ s ∷ []
unfolding split
split-one [] h = refl
split-one (c ∷ s) (hc, h) = rw (not_eq c 59 hc, split-one s h) refl

signature_of-one : (sig : Text) → signature_of [] ((signature_key ++ sig) ∷ []) ≡ sig
unfolding signature_of
signature_of-one sig = refl

All-reverse : (P : ℕ → Type 0) (s : Text) → All P s → All P (reverse s)
All-reverse P [] h = tt
All-reverse P (c ∷ s) (hc, h) =
    subst (All P) (sym (reverse-cons c s))
      (All-append P (reverse s) (c ∷ []) (All-reverse P s h) (hc, tt))

trim_left-IsDigitByte : (s : Text) → All IsDigitByte s → trim_left s ≡ s
unfolding trim_left
trim_left-IsDigitByte [] h = refl
trim_left-IsDigitByte (c ∷ s) (hc, h) = ground arith

trim_space-IsDigitByte : (s : Text) → All IsDigitByte s → trim_space s ≡ s
unfolding trim_space
trim_space-IsDigitByte s h =
    ap (λ t. reverse (trim_left (reverse t))) (trim_left-IsDigitByte s h)
    ∙ ap reverse (trim_left-IsDigitByte (reverse s) (All-reverse IsDigitByte s h))
    ∙ reverse-reverse s

hex_size : (n : ℕ) → n ≤ max_i64 → parse_int 16 (trim_space (format_int 16 n)) ≡ some n
hex_size n h =
    ap (parse_int 16) (trim_space-IsDigitByte (format_int 16 n) (format_int-All 16 n))
    ∙ parse_int-format_int 16 (omega arith) (omega arith) n h (omega arith)

pub lacks : (d : ℕ) (s : Text) → all (λ c. not (c == d)) s ≡ true → All (λ c. c ≢ d) s
lacks d s h = All-map (λ c k e. ground arith) s ((all_iff (λ c. not (c == d)) s).0 h)

-- The first line of a chunk without a signature, and of one with it.
pub parse_header-unsigned : (n : ℕ) → n ≤ max_i64 → parse_header (format_int 16 n) ≡ (some n, [])
unfolding parse_header
parse_header-unsigned n h =
    rw
      (
        cut_semicolon-none (format_int 16 n) (All-map (λ c k. k.1) _ (format_int-All 16 n)),
        hex_size n h,
      )
      refl

pub parse_header-signed :
    (n : ℕ) (sig : Text)
    → n ≤ max_i64
    → All IsPlain sig
    → parse_header (format_int 16 n ++ (59 ∷ signature_key ++ sig)) ≡ (some n, sig)
unfolding parse_header
parse_header-signed n sig h k =
    rw
      (
        cut_semicolon-some (format_int 16 n) (signature_key ++ sig)
            (All-map (λ c k. k.1) _ (format_int-All 16 n)),
        hex_size n h,
        split-one (signature_key ++ sig) (
            All-append (λ c. c ≢ 59) signature_key sig (lacks 59 signature_key refl)
              (All-map (λ c k. k.1) _ k)),
        signature_of-one sig,
      )
      refl
