-- ===== src/Base/Strings.antt =====
-- Go strings as lists of numbers: bytes, or code points where the source converts to `[]rune`.
use Prim.Native.Nat.{ℕ}
use Prim.Native.Char.{code}
use Prim.Native.String.{String}
use mathlib.Core.Path.{◌≡◌, refl, subst, sym, ap, ◌∙◌}
use mathlib.Core.Logic.{◌≢◌, ◌↔◌}
use mathlib.Core.Bool.{Bool, true, false, ◌&&◌}
use mathlib.Core.List.{List, [], ◌∷◌, ◌++◌, reverse, reverse-append, reverse-reverse}
use native.Mathlib.Omega.{arith}
use gostore.Base.Tests.{◌==◌, if◌then◌else◌}
use gostore.Base.Lists.{length, drop, drop-append}

abbrev pub Text : Type 0
Text = List ℕ

-- The code points of a literal: its bytes, if it is ASCII.
abbrev pub codes : String → Text
codes String.[] = []
codes (String.◌∷◌ c s) = code c ∷ codes s

-- `s == t`.
unfoldable pub text_eq : Text → Text → Bool
text_eq [] [] = true
text_eq (x ∷ xs) (y ∷ ys) = x == y && text_eq xs ys
text_eq _ _ = false

pub text_eq_iff : (s t : Text) → (text_eq s t ≡ true) ↔ (s ≡ t)
unfolding text_eq
text_eq_iff [] [] = ground arith
text_eq_iff [] (y ∷ ys) = ground arith
text_eq_iff (x ∷ xs) [] = ground arith
text_eq_iff (x ∷ xs) (y ∷ ys) = ground (arith, text_eq_iff xs ys)

pub text_eq_refl : (s : Text) → text_eq s s ≡ true
text_eq_refl s = (text_eq_iff s s).1 refl

pub text_eq-ne : (s t : Text) → s ≢ t → text_eq s t ≡ false
text_eq-ne s t h = ground (arith, text_eq_iff s t)

pub Text-set : IsSet Text
Text-set = hlevel

-- `strings.HasPrefix(s, prefix)`.
unfoldable pub has_prefix : Text → Text → Bool
has_prefix s [] = true
has_prefix [] (y ∷ ys) = false
has_prefix (x ∷ xs) (y ∷ ys) = x == y && has_prefix xs ys

-- `strings.HasSuffix(s, suffix)`.
unfoldable pub has_suffix : Text → Text → Bool
unfolding has_prefix
has_suffix s suffix = has_prefix (reverse s) (reverse suffix)

-- `strings.TrimPrefix(s, prefix)`.
unfoldable pub trim_prefix : Text → Text → Text
unfolding has_prefix
trim_prefix s prefix = if has_prefix s prefix then drop (length prefix) s else s

abbrev pub IsPrefixOf : Text → Text → Type 0
IsPrefixOf p s = (rest : Text) × (s ≡ p ++ rest)

pub has_prefix-append : (p rest : Text) → has_prefix (p ++ rest) p ≡ true
unfolding has_prefix
has_prefix-append [] rest = refl
has_prefix-append (x ∷ p) rest = ground (arith, has_prefix-append p rest)

rest_of_prefix : (s p : Text) → has_prefix s p ≡ true → IsPrefixOf p s
unfolding has_prefix
rest_of_prefix s [] h = (s, refl)
rest_of_prefix [] (y ∷ p) h = cc
rest_of_prefix (x ∷ s) (y ∷ p) h =
    let (rest, e) = rest_of_prefix s p (ground arith) in (rest, ground arith)

pub has_prefix_iff : (s p : Text) → (has_prefix s p ≡ true) ↔ IsPrefixOf p s
has_prefix_iff s p = (
  rest_of_prefix s p,
  λ h. subst (λ t. has_prefix t p ≡ true) (sym h.1) (has_prefix-append p h.0),
)

abbrev pub IsSuffixOf : Text → Text → Type 0
IsSuffixOf p s = (rest : Text) × (s ≡ rest ++ p)

pub has_suffix_iff : (s p : Text) → (has_suffix s p ≡ true) ↔ IsSuffixOf p s
unfolding has_suffix
has_suffix_iff s p = (to, from)
  where
    to : has_suffix s p ≡ true → IsSuffixOf p s
    to h =
        let (rest, e) = (has_prefix_iff (reverse s) (reverse p)).0 h in
        (
          reverse rest,
          sym (reverse-reverse s)
              ∙ ap reverse e
              ∙ reverse-append (reverse p) rest
              ∙ ap (λ t. reverse rest ++ t) (reverse-reverse p),
        )

    from : IsSuffixOf p s → has_suffix s p ≡ true
    from (rest, e) =
        (has_prefix_iff (reverse s) (reverse p)).1
          (reverse rest, ap reverse e ∙ reverse-append rest p)

-- What `TrimPrefix` cuts is the prefix, once.
pub trim_prefix-append : (p t : Text) → trim_prefix (p ++ t) p ≡ t
unfolding trim_prefix
trim_prefix-append p t = rw (has_prefix-append p t) (drop-append p t)
