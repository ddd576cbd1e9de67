-- ===== src/Erasure/Listing/Order.antt =====
-- internal/erasure/list.go: the order of strings.
use gostore.Base.{◌≡◌, refl, arith, Text, List, [], ◌∷◌, true, false, All}
use gostore.Erasure.Listing.{text_ltb}

pub text_ltb_trans :
    (s t u : Text) → text_ltb s t ≡ true → text_ltb t u ≡ true → text_ltb s u ≡ true
unfolding text_ltb
text_ltb_trans s t [] h k = k
text_ltb_trans [] t (c ∷ u) h k = refl
text_ltb_trans (a ∷ s) [] (c ∷ u) h k = absurd (ground (arith, h))
text_ltb_trans (a ∷ s) (b ∷ t) (c ∷ u) h k = ground (arith, h, k, text_ltb_trans s t u)

pub text_ltb_irrefl : (s : Text) → text_ltb s s ≡ false
unfolding text_ltb
text_ltb_irrefl [] = refl
text_ltb_irrefl (c ∷ s) = ground (arith, text_ltb_irrefl s)

-- The keys come in order.
abbrev pub IsSorted : List Text → Type 0
IsSorted [] = Unit
IsSorted (k ∷ ks) = All (λ j. text_ltb k j ≡ true) ks × IsSorted ks
