-- ===== src/Policy/Wildcard.antt =====
-- internal/iam/policy/policy.go, wildcardMatch and deepMatch: patterns with `*` and `?`.
pub mod Matching
use gostore.Base.{
  Text, List, [], ◌∷◌, ◌++◌, Bool, true, false, ◌||◌, ◌==◌, if◌then◌else◌, codes, text_eq,
}

abbrev pub star : Text → Text
star p = b'*' ∷ p

-- The loop of `deepMatch` as a recursion on the pattern and, at a `*`, on the text. `||` is lazy in
-- the source, and so is the second case here.
unfoldable pub deep_match : Text → Text → Bool
deep_match [] [] = true
deep_match [] (c ∷ s) = false
deep_match (p ∷ ps) [] = elim (p == b'*') [ true ↦ deep_match ps [] | false ↦ false ]
deep_match (p ∷ ps) (c ∷ s) = elim (p == b'*') [
  | true ↦ elim (deep_match ps (c ∷ s)) [ true ↦ true | false ↦ deep_match (p ∷ ps) s ]
  | false ↦ elim (p == b'?' || p == c) [ true ↦ deep_match ps s | false ↦ false ]
]

unfoldable pub wildcard_match : Text → Text → Bool
wildcard_match pattern s = if text_eq pattern (codes "*") then true else deep_match pattern s
