-- ===== src/Erasure/Names.antt =====
-- internal/erasure/names.go: which names a bucket and an object may have.
use gostore.Base.{
  ℕ, Text, List, [], ◌∷◌, Bool, false, not, ltb, leb, ◌==◌, ◌&&◌, ◌||◌, if◌then◌else◌, codes,
  text_eq, has_prefix, has_suffix, any, all, length,
}

-- `strings.Contains`
unfoldable pub contains : Text → Text → Bool
contains [] part = has_prefix [] part
contains (c ∷ s) part = has_prefix (c ∷ s) part || contains s part

abbrev pub put_front : ℕ → List Text → List Text
put_front c [] = (c ∷ []) ∷ []
put_front c (seg ∷ segs) = (c ∷ seg) ∷ segs

-- `strings.Split` at one byte.
unfoldable pub split : ℕ → Text → List Text
split sep [] = [] ∷ []
split sep (c ∷ s) = let rest = split sep s in if c == sep then [] ∷ rest else put_front c rest

abbrev pub is_name_char : ℕ → Bool
is_name_char c = (leb b'a' c && leb c b'z') || (leb b'0' c && leb c b'9') || c == b'-' || c == b'.'

-- A byte that is not ASCII is part of a rune that is no name character either.
unfoldable pub valid_bucket_name : Text → Bool
unfolding contains
valid_bucket_name name =
    if ltb (length name) 3 || ltb 63 (length name)
    then false
    else if has_prefix name (codes "-")
        || has_suffix name (codes "-")
        || has_prefix name (codes ".")
        || has_suffix name (codes ".")
        || contains name (codes "..")
    then false
    else if not (all is_name_char name)
    then false
    else not (text_eq name (codes ".gostore.sys"))

unfoldable pub valid_object_name : Text → Bool
unfolding contains split
valid_object_name name =
    if text_eq name [] || ltb 1024 (length name) || contains name (0 ∷ [])
    then false
    else if has_prefix name (codes "/") || contains name (codes "\\")
    then false
    else if any (λ seg. text_eq seg (codes ".") || text_eq seg (codes "..")) (split b'/' name)
    then false
    else not (has_prefix name (codes ".gostore.sys/"))
