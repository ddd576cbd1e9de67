-- ===== src/Policy/Wildcard/Matching.antt =====
-- internal/iam/policy/policy.go, deepMatch: what a pattern means.
use gostore.Base.{
  ℕ, Text, [], ◌∷◌, ◌++◌, true, ◌==◌, codes, text_eq, text_eq_iff, ◌≡◌, refl, sym, ap, ◌≢◌, ◌↔◌,
  inl, inr, arith, Bool-cases, subst,
}
use gostore.Policy.Wildcard.{deep_match, wildcard_match}

-- A `*` stands for any run of characters, a `?` for any one character, any other for itself.
pub data Matches : Text → Text → Type 0 where
  done : Matches [] []
  run :
      {q : ℕ} {p s t : Text} → q ≡ b'*' → (u : Text) → s ≡ u ++ t → Matches p t → Matches (q ∷ p) s
  one : {q c : ℕ} {p s : Text} → q ≡ b'?' → Matches p s → Matches (q ∷ p) (c ∷ s)
  same : {q c : ℕ} {p s : Text} → q ≡ c → q ≢ b'*' → Matches p s → Matches (q ∷ p) (c ∷ s)

-- A `*` takes one more character.
extend : {q : ℕ} {p s : Text} (c : ℕ) → q ≡ b'*' → Matches (q ∷ p) s → Matches (q ∷ p) (c ∷ s)
extend c h (run e u d m) = run e (c ∷ u) (ap (λ t. c ∷ t) d) m
extend c h (one e m) = absurd (omega arith)
extend c h (same e ne m) = absurd (ne h)

Matches_of_deep_match : (p s : Text) → deep_match p s ≡ true → Matches p s
unfolding deep_match
Matches_of_deep_match [] [] h = done
Matches_of_deep_match [] (c ∷ s) h = absurd (cc)
Matches_of_deep_match (p ∷ ps) [] h =
    run (ground arith) [] refl (Matches_of_deep_match ps [] (ground arith))
Matches_of_deep_match (p ∷ ps) (c ∷ s) h = elim (Bool-cases (p == b'*')) [
  | inl star ↦ elim (Bool-cases (deep_match ps (c ∷ s))) [
    | inl skip ↦ run (ground arith) [] refl (Matches_of_deep_match ps (c ∷ s) skip)
    | inr take ↦ extend c (ground arith) (Matches_of_deep_match (p ∷ ps) s (ground arith))
  ]
  | inr plain ↦ elim (Bool-cases (p == b'?')) [
    | inl any ↦ one (ground arith) (Matches_of_deep_match ps s (ground arith))
    | inr lit ↦ same (ground arith) (ground arith) (Matches_of_deep_match ps s (ground arith))
  ]
]

deep_match-skip :
    (q : ℕ) (p s : Text) → q ≡ b'*' → deep_match p s ≡ true → deep_match (q ∷ p) s ≡ true
unfolding deep_match
deep_match-skip q p [] e h = ground arith
deep_match-skip q p (c ∷ s) e h = ground arith

deep_match-take :
    (q : ℕ) (p u t : Text) → q ≡ b'*' → deep_match p t ≡ true → deep_match (q ∷ p) (u ++ t) ≡ true
unfolding deep_match
deep_match-take q p [] t e h = deep_match-skip q p t e h
deep_match-take q p (c ∷ u) t e h = ground (arith, deep_match-take q p u t e h)

deep_match_of_Matches : {p s : Text} → Matches p s → deep_match p s ≡ true
unfolding deep_match
deep_match_of_Matches done = refl
deep_match_of_Matches (run {q = q} {p = p} {t = t} e u d m) =
    subst (λ x. deep_match (q ∷ p) x ≡ true) (sym d)
      (deep_match-take q p u t e (deep_match_of_Matches m))
deep_match_of_Matches (one e m) = ground (arith, deep_match_of_Matches m)
deep_match_of_Matches (same e ne m) = ground (arith, deep_match_of_Matches m)

-- The recursive matcher decides what the pattern means.
pub deep_match_iff : (p s : Text) → (deep_match p s ≡ true) ↔ Matches p s
deep_match_iff p s = (Matches_of_deep_match p s, deep_match_of_Matches)

append_nil : (s : Text) → s ≡ s ++ []
append_nil [] = refl
append_nil (c ∷ s) = ap (λ t. c ∷ t) (append_nil s)

star_matches : (s : Text) → Matches (codes "*") s
star_matches s = run refl s (append_nil s) done

-- A text passes the wildcard test exactly if it is what the pattern stands for, where a `*` is any
-- run of characters and a `?` any one character; the shortcut for "*" changes nothing.
pub wildcard_match_iff : (pattern s : Text) → (wildcard_match pattern s ≡ true) ↔ Matches pattern s
unfolding wildcard_match
wildcard_match_iff pattern s = elim (Bool-cases (text_eq pattern (codes "*"))) [
  | inl e ↦
      rw e (λ _. subst (λ p. Matches p s) (sym ((text_eq_iff _ _).0 e)) (star_matches s), λ _. refl)
  | inr n ↦ rw n (deep_match_iff pattern s)
]
