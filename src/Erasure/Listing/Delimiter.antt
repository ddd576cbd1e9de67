-- ===== src/Erasure/Listing/Delimiter.antt =====
-- internal/erasure/list.go, doList: the marker of a page that ends with a common prefix.
use gostore.Base.{
  sym, ℕ, zero, suc, ◌≡◌, refl, arith, ◌∙◌, ap, Text, List, [], ◌∷◌, true, false, none, some,
  text_eq_iff, has_prefix,
}
use gostore.Erasure.Listing.{
  ListParams, ListPage, text_ltb, is_listed, common_prefix, add_key, add_prefix, visit, scan, clamp,
  empty_page, do_list,
}
use gostore.Erasure.Listing.Pages.{go_on, after, follow}

visit_prefix :
    (lp : ListParams) (k cp : Text) (p : ListPage)
    → is_listed lp k ≡ true
    → common_prefix lp k ≡ some cp
    → visit lp k p ≡ add_prefix lp cp p
unfolding visit
visit_prefix lp k cp p e c = rw (e, c) refl

visit_key :
    (lp : ListParams) (k : Text) (p : ListPage)
    → is_listed lp k ≡ true
    → common_prefix lp k ≡ none
    → visit lp k p ≡ add_key lp k p
unfolding visit
visit_key lp k p e c = rw (e, c) refl

-- A page of one common prefix.
abbrev one_prefix : Text → ListPage
one_prefix cp = record {
  want_keys = [];
  prefixes = cp ∷ [];
  is_truncated = true;
  next_marker = cp;
  count = 1;
}

-- The scan with room for one entry.
scan_one :
    (lp : ListParams) (k j cp : Text) (ks : List Text)
    → is_listed lp k ≡ true
    → is_listed lp j ≡ true
    → common_prefix lp k ≡ some cp
    → common_prefix lp j ≡ none
    → scan (record lp { max_keys = 1 }) (k ∷ j ∷ ks) empty_page ≡ one_prefix cp
unfolding scan add_prefix add_key is_listed common_prefix
scan_one lp k j cp ks e f c d =
    let lq : ListParams = record lp { max_keys = 1 } in
    let p : ListPage = record (one_prefix cp) { is_truncated = false } in
    ap (go_on lq (j ∷ ks)) (visit_prefix lq k cp empty_page e c)
    ∙ ap (go_on lq ks) (visit_key lq j p f d)

one_page :
    (lp : ListParams) (k j cp : Text) (ks : List Text)
    → lp.max_keys ≡ 1
    → is_listed lp k ≡ true
    → is_listed lp j ≡ true
    → common_prefix lp k ≡ some cp
    → common_prefix lp j ≡ none
    → do_list lp (k ∷ j ∷ ks) ≡ one_prefix cp
unfolding do_list
one_page lp k j cp ks m e f c d =
    let clamped : clamp lp.max_keys ≡ 1 = rw m refl in
    ap (λ n. scan (record lp { max_keys = n }) (k ∷ j ∷ ks) empty_page) clamped
    ∙ scan_one lp k j cp ks e f c d

module _ (lp : ListParams) (k j cp : Text) (ks : List Text) (one : lp.max_keys ≡ 1)
    (k_within : has_prefix k lp.prefix ≡ true) (j_within : has_prefix j lp.prefix ≡ true)
    (rolled_up : common_prefix lp k ≡ some cp) (alone : common_prefix lp j ≡ none)
    (before_k : text_ltb cp k ≡ true) (before_j : text_ltb cp j ≡ true) where
  within_after :
      (x : Text)
      → has_prefix x lp.prefix ≡ true
      → text_ltb cp x ≡ true
      → is_listed (after lp cp) x ≡ true
  unfolding is_listed
  within_after x w b = ground (arith, w, b)

  same_page : do_list (after lp cp) (k ∷ j ∷ ks) ≡ one_prefix cp
  unfolding common_prefix
  same_page =
      one_page (after lp cp) k j cp ks one (within_after k k_within before_k)
        (within_after j j_within before_j) rolled_up alone

  repeats_forever : (n : ℕ) → follow n (after lp cp) (k ∷ j ∷ ks) ≡ none
  unfolding follow
  repeats_forever zero = refl
  repeats_forever (suc n) = rw (same_page, repeats_forever n) refl

  first_page : lp.start_after ≡ [] → do_list lp (k ∷ j ∷ ks) ≡ one_prefix cp
  unfolding is_listed
  first_page s = one_page lp k j cp ks one (starts k k_within) (starts j j_within) rolled_up alone
    where
      starts : (x : Text) → has_prefix x lp.prefix ≡ true → is_listed lp x ≡ true
      starts x w = ground (arith, w, (text_eq_iff lp.start_after []).1 s)

  endless : lp.start_after ≡ [] → (n : ℕ) → follow n lp (k ∷ j ∷ ks) ≡ none
  unfolding follow
  endless s zero = refl
  endless s (suc n) = rw (first_page s, repeats_forever n) refl

  -- A listing with a delimiter, one key to a page and no start, may never end. Where the first two keys
  -- of the bucket have the prefix of the listing, the first one is listed under a common prefix, the
  -- second under none, and that common prefix comes before both: the first page is truncated and has
  -- the common prefix and no object, its marker is the common prefix itself, the page after that marker
  -- is the same page once more, and so a client that follows the markers gets to no last page, however
  -- many it asks for.
  pub follow_never_ends :
      lp.start_after ≡ []
      → (n : ℕ)
      → ((do_list lp (k ∷ j ∷ ks)).prefixes ≡ cp ∷ [])
        × ((do_list lp (k ∷ j ∷ ks)).want_keys ≡ [])
        × ((do_list lp (k ∷ j ∷ ks)).is_truncated ≡ true)
        × ((do_list lp (k ∷ j ∷ ks)).next_marker ≡ cp)
        × (do_list (after lp (do_list lp (k ∷ j ∷ ks)).next_marker) (k ∷ j ∷ ks)
            ≡ do_list lp (k ∷ j ∷ ks))
        × (follow n lp (k ∷ j ∷ ks) ≡ none)
  follow_never_ends s n = (
    ap (λ (p : ListPage). p.prefixes) (first_page s),
    ap (λ (p : ListPage). p.want_keys) (first_page s),
    ap (λ (p : ListPage). p.is_truncated) (first_page s),
    ap (λ (p : ListPage). p.next_marker) (first_page s),
    ap (λ (p : ListPage). do_list (after lp p.next_marker) (k ∷ j ∷ ks)) (first_page s)
        ∙ same_page
        ∙ sym (first_page s),
    endless s n,
  )
