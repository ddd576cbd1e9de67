-- ===== src/Erasure/Listing/Pages.antt =====
-- internal/erasure/list.go, doList: what a client gets that follows the markers from page to page.
use mathlib.Core.List.{append_assoc, append-nil}
use gostore.Base.{
  ℕ, zero, suc, ◌+◌, ◌-◌, ◌≤◌, ◌<◌, ◌≡◌, ◌≢◌, refl, arith, sym, ◌∙◌, ap, subst, Text, List, [], ◌∷◌,
  ◌++◌, true, false, Option, none, some, length, ltb, leb, if◌then◌else◌, text_eq, text_eq_iff,
  text_eq-ne, All, All-and, Bool-cases, inl, inr, ◌⊎◌, length-append,
}
use gostore.Erasure.Listing.{
  ListParams, ListPage, text_ltb, is_listed, common_prefix, add_key, visit, Visit, next, stop, scan,
  clamp, empty_page, do_list,
}
use gostore.Erasure.Listing.Order.{text_ltb_trans, text_ltb_irrefl, IsSorted}

-- The keys that a listing is about, in their order.
unfoldable pub listed : ListParams → List Text → List Text
listed lp [] = []
listed lp (k ∷ ks) = let rest = listed lp ks in if is_listed lp k then k ∷ rest else rest

-- The listing from another key on.
abbrev pub after : ListParams → Text → ListParams
after lp k = record lp { start_after = k }

-- A client that asks for pages until one is not truncated, `none` where it runs out of pages.
unfoldable pub follow : ℕ → ListParams → List Text → Option (List Text)
follow zero lp keys = none
follow (suc n) lp keys =
    let p = do_list lp keys in
    let rest = follow n (after lp p.next_marker) keys in
    if p.is_truncated
    then elim rest [ none ↦ none | some ks ↦ some (p.want_keys ++ ks) ]
    else some p.want_keys

-- The loop over keys that are all listed as objects, with room for `r` more.
unfoldable paged : ListPage → ℕ → List Text → ListPage
paged p r [] = p
paged p zero (k ∷ ks) = record p { is_truncated = true }
paged p (suc r) (k ∷ ks) =
    paged (record p { want_keys = p.want_keys ++ (k ∷ []); next_marker = k; count = p.count + 1 }) r
      ks

no_common_prefix : (lp : ListParams) (k : Text) → lp.delimiter ≡ [] → common_prefix lp k ≡ none
unfolding common_prefix text_eq
no_common_prefix lp k d = rw (text_eq_of_nil lp.delimiter d) refl
  where
    text_eq_of_nil : (s : Text) → s ≡ [] → text_eq s [] ≡ true
    text_eq_of_nil s e = (text_eq_iff s []).1 e

visit_skipped :
    (lp : ListParams) (k : Text) (p : ListPage) → is_listed lp k ≡ false → visit lp k p ≡ next p
unfolding visit
visit_skipped lp k p e = rw e refl

visit_listed :
    (lp : ListParams) (k : Text) (p : ListPage)
    → lp.delimiter ≡ []
    → is_listed lp k ≡ true
    → visit lp k p ≡ add_key lp k p
unfolding visit
visit_listed lp k p d e = rw (e, no_common_prefix lp k d) refl

add_key_full :
    (lp : ListParams) (k : Text) (p : ListPage)
    → leb lp.max_keys p.count ≡ true
    → add_key lp k p ≡ stop (record p { is_truncated = true })
unfolding add_key
add_key_full lp k p e = rw e refl

add_key_room :
    (lp : ListParams) (k : Text) (p : ListPage)
    → leb lp.max_keys p.count ≡ false
    → add_key lp k p
      ≡ next
          (record p { want_keys = p.want_keys ++ (k ∷ []); next_marker = k; count = p.count + 1 })
unfolding add_key
add_key_room lp k p e = rw e refl

abbrev pub go_on : ListParams → List Text → Visit → ListPage
go_on lp ks v = elim v [ next p ↦ scan lp ks p | stop p ↦ p ]

scan_step :
    (lp : ListParams) (k : Text) (ks : List Text) (p : ListPage) (r : ℕ)
    → ((p' : ListPage) (r' : ℕ)
        → p'.count + r' ≡ lp.max_keys
        → scan lp ks p' ≡ paged p' r' (listed lp ks))
    → p.count + r ≡ lp.max_keys
    → go_on lp ks (add_key lp k p) ≡ paged p r (k ∷ listed lp ks)
unfolding paged
scan_step lp k ks p zero rest h = ap (go_on lp ks) (add_key_full lp k p (ground (arith, h)))
scan_step lp k ks p (suc r) rest h =
    ap (go_on lp ks) (add_key_room lp k p (ground (arith, h))) ∙ rest _ r (omega (arith, h))

scan-paged :
    (lp : ListParams) (ks : List Text) (p : ListPage) (r : ℕ)
    → lp.delimiter ≡ []
    → p.count + r ≡ lp.max_keys
    → scan lp ks p ≡ paged p r (listed lp ks)
unfolding scan listed paged
scan-paged lp [] p r d room = refl
scan-paged lp (k ∷ ks) p r d room = elim (Bool-cases (is_listed lp k)) [
  | inr e ↦ rw e (ap (go_on lp ks) (visit_skipped lp k p e) ∙ scan-paged lp ks p r d room)
  | inl e ↦ rw e (
      ap (go_on lp ks) (visit_listed lp k p d e)
      ∙ scan_step lp k ks p r (λ p' r' h. scan-paged lp ks p' r' d h) room)
]

-- A key that is listed is listed after an earlier start.
is_listed-after :
    (lp : ListParams) (k x : Text)
    → is_listed lp k ≡ true
    → x ≢ []
    → k ≢ []
    → text_ltb k x ≡ true
    → is_listed (after lp k) x ≡ is_listed lp x
unfolding is_listed
is_listed-after lp k x h nx nk lt =
    ground (arith, h, lt, text_eq-ne k [] nk, text_ltb_trans lp.start_after k x)

not_listed-after :
    (lp : ListParams) (k x : Text)
    → k ≢ []
    → text_ltb k x ≡ false
    → is_listed (after lp k) x ≡ false
unfolding is_listed
not_listed-after lp k x nk h = ground (arith, h, text_eq-ne k [] nk)

-- Where a key is in order between what is listed before and after it, the listing after it is the rest.
skipped :
    (lp : ListParams) (x k : Text) (ks rest : List Text)
    → text_ltb x k ≡ true
    → k ≢ []
    → listed (after lp k) ks ≡ rest
    → listed (after lp k) (x ∷ ks) ≡ rest
unfolding listed
skipped lp x k ks rest lt nk h =
    let earlier : text_ltb k x ≡ false =
      ground (arith, lt, text_ltb_trans k x k, text_ltb_irrefl k) in
    rw (not_listed-after lp k x nk earlier) h

listed_later :
    (lp : ListParams) (k : Text) (ks : List Text)
    → is_listed lp k ≡ true
    → k ≢ []
    → All (λ x. x ≢ []) ks
    → All (λ x. text_ltb k x ≡ true) ks
    → listed (after lp k) ks ≡ listed lp ks
unfolding listed
listed_later lp k [] h nk ne lt = refl
listed_later lp k (x ∷ ks) h nk ne lt =
    rw (is_listed-after lp k x h ne.0 nk lt.0, listed_later lp k ks h nk ne.1 lt.1) refl

-- What holds of all keys holds of those that are listed.
listed-All :
    (P : Text → Type 0) (lp : ListParams) (ks : List Text) → All P ks → All P (listed lp ks)
unfolding listed
listed-All P lp [] h = tt
listed-All P lp (k ∷ ks) h = elim (Bool-cases (is_listed lp k)) [
  | inl e ↦ rw e (h.0, listed-All P lp ks h.1)
  | inr e ↦ rw e (listed-All P lp ks h.1)
]

all_last :
    (P : Text → Type 0) (a : List Text) (k : Text) (rest : List Text)
    → All P (a ++ (k ∷ rest))
    → P k
all_last P [] k rest h = h.0
all_last P (x ∷ a) k rest h = all_last P a k rest h.1

tail_of : {x y : Text} {xs ys : List Text} → x ∷ xs ≡ y ∷ ys → xs ≡ ys
tail_of e = grind arith

head_of : {x y : Text} {xs ys : List Text} → x ∷ xs ≡ y ∷ ys → x ≡ y
head_of e = grind arith

not_empty : (a : List Text) (k : Text) (rest : List Text) → [] ≢ a ++ (k ∷ rest)
not_empty [] k rest h = cc
not_empty (x ∷ a) k rest h = cc

-- The key at which a listing is cut comes after the earlier keys, and is not empty.
later_key :
    (lp : ListParams) (x : Text) (ks a : List Text) (k : Text) (rest : List Text)
    → IsSorted (x ∷ ks)
    → All (λ x. x ≢ []) ks
    → listed lp ks ≡ a ++ (k ∷ rest)
    → (text_ltb x k ≡ true) × (k ≢ [])
later_key lp x ks a k rest sorted ne h =
    let P : Text → Type 0 = λ y. (text_ltb x y ≡ true) × (y ≢ []) in
    all_last P a k rest (subst (All P) h (listed-All P lp ks (All-and _ _ ks sorted.0 ne)))

-- The first key of a listing, where it is the one after which the next one starts.
after_first :
    (lp : ListParams) (x : Text) (ks : List Text)
    → is_listed lp x ≡ true
    → IsSorted (x ∷ ks)
    → All (λ x. x ≢ []) (x ∷ ks)
    → listed (after lp x) (x ∷ ks) ≡ listed lp ks
unfolding listed
after_first lp x ks e sorted ne =
    rw (not_listed-after lp x x ne.0 (text_ltb_irrefl x))
      (listed_later lp x ks e ne.0 ne.1 sorted.0)

-- The two cases of a first key that is listed.
cut_in_list :
    (lp : ListParams) (x : Text) (ks a : List Text) (k : Text) (rest : List Text)
    → is_listed lp x ≡ true
    → IsSorted (x ∷ ks)
    → All (λ x. x ≢ []) (x ∷ ks)
    → ((a' : List Text) → listed lp ks ≡ a' ++ (k ∷ rest) → listed (after lp k) ks ≡ rest)
    → x ∷ listed lp ks ≡ a ++ (k ∷ rest)
    → listed (after lp k) (x ∷ ks) ≡ rest
cut_in_list lp x ks [] k rest e sorted ne ih h =
    subst (λ y. listed (after lp y) (x ∷ ks) ≡ rest) (head_of h)
      (after_first lp x ks e sorted ne ∙ tail_of h)
cut_in_list lp x ks (y ∷ a) k rest e sorted ne ih h =
    let (lt, nk) = later_key lp x ks a k rest sorted ne.1 (tail_of h) in
    skipped lp x k ks rest lt nk (ih a (tail_of h))

-- The next listing starts where the last one was cut.
after_last :
    (lp : ListParams) (keys a : List Text) (k : Text) (rest : List Text)
    → IsSorted keys
    → All (λ x. x ≢ []) keys
    → listed lp keys ≡ a ++ (k ∷ rest)
    → listed (after lp k) keys ≡ rest
unfolding listed
after_last lp [] a k rest sorted ne h = absurd (not_empty a k rest h)
after_last lp (x ∷ ks) a k rest sorted ne h = elim (Bool-cases (is_listed lp x)) [
  | inr e ↦
      let h' = rw e at h in
      let (lt, nk) = later_key lp x ks a k rest sorted ne.1 h' in
      skipped lp x k ks rest lt nk (after_last lp ks a k rest sorted.1 ne.1 h')
  | inl e ↦
      cut_in_list lp x ks a k rest e sorted ne
        (λ a' h'. after_last lp ks a' k rest sorted.1 ne.1 h') (rw e at h)
]

-- A page with room for all that is listed.
paged-fits :
    (p : ListPage) (r : ℕ) (ks : List Text)
    → length ks ≤ r
    → ((paged p r ks).want_keys ≡ p.want_keys ++ ks)
      × ((paged p r ks).is_truncated ≡ p.is_truncated)
unfolding paged
paged-fits p r [] h = (sym (append-nil p.want_keys), refl)
paged-fits p zero (k ∷ ks) h = absurd (omega (arith, h))
paged-fits p (suc r) (k ∷ ks) h =
    let (e, t) =
      paged-fits
        (record p { want_keys = p.want_keys ++ (k ∷ []); next_marker = k; count = p.count + 1 }) r
        ks (omega (arith, h)) in
    (e ∙ append_assoc p.want_keys (k ∷ []) ks, t)

-- A page without: it is cut after the key in its marker.
paged-cut :
    (p : ListPage) (r : ℕ) (ks : List Text)
    → suc r < length ks
    → (a : List Text) × (rest : List Text) × (ks ≡ a ++ ((paged p (suc r) ks).next_marker ∷ rest))
      × ((paged p (suc r) ks).want_keys
          ≡ p.want_keys ++ (a ++ ((paged p (suc r) ks).next_marker ∷ [])))
      × ((paged p (suc r) ks).is_truncated ≡ true)
unfolding paged
paged-cut p r [] h = absurd (omega (arith, h))
paged-cut p r (k ∷ []) h = absurd (omega (arith, h))
paged-cut p zero (k ∷ j ∷ ks) h = ([], j ∷ ks, refl, refl, refl)
paged-cut p (suc r) (k ∷ j ∷ ks) h =
    let (a, rest, e, w, t) =
      paged-cut
        (record p { want_keys = p.want_keys ++ (k ∷ []); next_marker = k; count = p.count + 1 }) r
        (j ∷ ks) (omega (arith, h)) in
    (k ∷ a, rest, ap (λ xs. k ∷ xs) e, w ∙ append_assoc p.want_keys (k ∷ []) _, t)

listed_max :
    (lp : ListParams) (m : ℕ) (ks : List Text)
    → listed (record lp { max_keys = m }) ks ≡ listed lp ks
unfolding listed is_listed
listed_max lp m [] = refl
listed_max lp m (k ∷ ks) = rw (listed_max lp m ks) refl

do_list-paged :
    (lp : ListParams) (keys : List Text)
    → lp.delimiter ≡ []
    → do_list lp keys ≡ paged empty_page (suc (clamp lp.max_keys - 1)) (listed lp keys)
unfolding do_list
do_list-paged lp keys d =
    scan-paged (record lp { max_keys = clamp lp.max_keys }) keys empty_page
      (suc (clamp lp.max_keys - 1)) d (ground arith)
    ∙ ap (paged empty_page (suc (clamp lp.max_keys - 1))) (listed_max lp (clamp lp.max_keys) keys)

-- A page that is cut, one that is whole, and what `follow` makes of each.
abbrev IsCut : ListPage → List Text → Type 0
IsCut p ks =
    (a : List Text) × (rest : List Text) × (ks ≡ a ++ (p.next_marker ∷ rest))
    × (p.want_keys ≡ a ++ (p.next_marker ∷ []))
    × (p.is_truncated ≡ true)

abbrev IsWhole : ListPage → List Text → Type 0
IsWhole p ks = (p.want_keys ≡ ks) × (p.is_truncated ≡ false)

page_cases :
    (lp : ListParams) (keys : List Text)
    → lp.delimiter ≡ []
    → IsCut (do_list lp keys) (listed lp keys) ⊎ IsWhole (do_list lp keys) (listed lp keys)
page_cases lp keys d =
    let r = clamp lp.max_keys - 1 in
    let page = sym (do_list-paged lp keys d) in
    elim (Bool-cases (ltb (suc r) (length (listed lp keys)))) [
      | inl e ↦ inl (
          subst (λ p. IsCut p (listed lp keys)) page
            (paged-cut empty_page r (listed lp keys) (ground (arith, e))))
      | inr e ↦ inr (
          subst (λ p. IsWhole p (listed lp keys)) page
            (paged-fits empty_page (suc r) (listed lp keys) (ground (arith, e))))
    ]

-- A client that follows the markers gets every key of the listing once and in order, and it gets to the
-- end: without a delimiter, over keys that are sorted and not empty, one page more than there are
-- keys is enough, whatever the size of the pages, the prefix and the start.
pub follow_lem :
    (n : ℕ) (lp : ListParams) (keys : List Text)
    → lp.delimiter ≡ []
    → IsSorted keys
    → All (λ k. k ≢ []) keys
    → length (listed lp keys) < n
    → follow n lp keys ≡ some (listed lp keys)
unfolding follow
follow_lem zero lp keys d sorted ne enough = absurd (omega (arith, enough))
follow_lem (suc n) lp keys d sorted ne enough = elim (page_cases lp keys d) [
  | inr (w, t) ↦ rw t (ap some w)
  | inl (a, rest, e, w, t) ↦
      let k = (do_list lp keys).next_marker in
      let cut = after_last lp keys a k rest sorted ne e in
      let fewer : length (listed (after lp k) keys) < n =
        omega (arith, enough, ap length e, ap length cut, length-append a (k ∷ rest)) in
      let ih = follow_lem n (after lp k) keys d sorted ne fewer ∙ ap some cut in
      rw (t, ih) (ap some (ap (λ xs. xs ++ rest) w ∙ append_assoc a (k ∷ []) rest ∙ sym e))
]
