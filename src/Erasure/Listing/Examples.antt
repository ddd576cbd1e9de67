-- ===== src/Erasure/Listing/Examples.antt =====
-- A bucket with two keys, on which the theorems about listings are run.
use gostore.Base.{
  ◌<◌, Text, List, [], ◌∷◌, true, none, some, codes, text_eq, has_prefix, length, ◌≡◌, refl, arith,
}
use gostore.Erasure.Listing.{do_list, ListParams, text_ltb, is_listed, index_text, common_prefix}
use gostore.Erasure.Listing.Order.{IsSorted}
use gostore.Erasure.Listing.Pages.{after, listed, follow, follow_lem}
use gostore.Erasure.Listing.Delimiter.{follow_never_ends}

abbrev keys : List Text
keys = codes "a/x" ∷ codes "b" ∷ []

abbrev params : Text → ListParams
params delimiter = record { prefix = []; delimiter = delimiter; start_after = []; max_keys = 1 }

in_order : IsSorted keys
unfolding text_ltb
in_order = ((refl, tt), (tt, tt))

two_listed : length (listed (params []) keys) < 3
unfolding listed is_listed text_eq
two_listed = omega arith

follow_lem_example : follow 3 (params []) keys ≡ some (listed (params []) keys)
follow_lem_example =
    follow_lem 3 (params []) keys refl in_order ((λ h. cc), ((λ h. cc), tt)) two_listed

under_a : common_prefix (params (codes "/")) (codes "a/x") ≡ some (codes "a/")
unfolding common_prefix index_text text_eq has_prefix
under_a = refl

no_slash : common_prefix (params (codes "/")) (codes "b") ≡ none
unfolding common_prefix index_text text_eq has_prefix
no_slash = refl

before_x : text_ltb (codes "a/") (codes "a/x") ≡ true
unfolding text_ltb
before_x = refl

before_b : text_ltb (codes "a/") (codes "b") ≡ true
unfolding text_ltb
before_b = refl

abbrev slash : ListParams
slash = params (codes "/")

follow_never_ends_example :
    ((do_list slash keys).prefixes ≡ codes "a/" ∷ [])
    × ((do_list slash keys).want_keys ≡ [])
    × ((do_list slash keys).is_truncated ≡ true)
    × ((do_list slash keys).next_marker ≡ codes "a/")
    × (do_list (after slash (do_list slash keys).next_marker) keys ≡ do_list slash keys)
    × (follow 1000 slash keys ≡ none)
unfolding has_prefix
follow_never_ends_example =
    follow_never_ends slash (codes "a/x") (codes "b") (codes "a/") [] refl refl refl under_a
      no_slash before_x before_b refl 1000
