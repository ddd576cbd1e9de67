-- ===== src/Erasure/Listing.antt =====
-- internal/erasure/list.go, doList: one page of the listing of a bucket without versions, over the keys
-- that `namespaceKeys` returns in their order. What a page has of objects are the keys to stat, and its
-- common prefixes are in the order of the keys.
pub mod Order
pub mod Pages
pub mod Delimiter
mod Examples
use gostore.Base.{
  ℕ, zero, suc, ◌+◌, Text, List, [], ◌∷◌, ◌++◌, Bool, true, false, not, Option, none, some, length,
  take, drop, ltb, leb, ◌==◌, ◌&&◌, ◌||◌, any, if◌then◌else◌, text_eq, has_prefix,
}

pub record ListParams : Type 0 where
  pub prefix : Text
  pub delimiter : Text
  pub start_after : Text
  pub max_keys : ℕ

pub record ListPage : Type 0 where
  pub want_keys : List Text
  pub prefixes : List Text
  pub is_truncated : Bool
  pub next_marker : Text
  pub count : ℕ

-- `<` on strings.
unfoldable pub text_ltb : Text → Text → Bool
text_ltb s [] = false
text_ltb [] (c ∷ t) = true
text_ltb (b ∷ s) (c ∷ t) = ltb b c || b == c && text_ltb s t

-- `strings.Index`
unfoldable pub index_text : Text → Text → Option ℕ
index_text [] t = if text_eq t [] then some 0 else none
index_text (c ∷ s) t =
    let rest = index_text s t in
    if has_prefix (c ∷ s) t then some 0 else elim rest [ none ↦ none | some i ↦ some (suc i) ]

-- The tests that pass a key over.
unfoldable pub is_listed : ListParams → Text → Bool
is_listed lp k =
    not (not (text_eq lp.prefix []) && not (has_prefix k lp.prefix))
    && not (not (text_eq lp.start_after []) && not (text_ltb lp.start_after k))

-- The common prefix that a key is listed under, where it is.
unfoldable pub common_prefix : ListParams → Text → Option Text
unfolding index_text
common_prefix lp k =
    let rest = drop (length lp.prefix) k in
    if text_eq lp.delimiter [] then none else elim (index_text rest lp.delimiter) [
      | none ↦ none
      | some i ↦ some (lp.prefix ++ take (i + length lp.delimiter) rest)
    ]

-- What the loop does at a key: it goes on, or it breaks.
pub data Visit : Type 0 where
  next : ListPage → Visit
  stop : ListPage → Visit

unfoldable pub add_prefix : ListParams → Text → ListPage → Visit
add_prefix lp cp p =
    if any (λ x. text_eq x cp) p.prefixes
    then next p
    else if leb lp.max_keys p.count
    then stop (record p { is_truncated = true })
    else next
        (record p { prefixes = p.prefixes ++ (cp ∷ []); next_marker = cp; count = p.count + 1 })

unfoldable pub add_key : ListParams → Text → ListPage → Visit
add_key lp k p =
    if leb lp.max_keys p.count
    then stop (record p { is_truncated = true })
    else next
        (record p { want_keys = p.want_keys ++ (k ∷ []); next_marker = k; count = p.count + 1 })

unfoldable pub visit : ListParams → Text → ListPage → Visit
unfolding is_listed common_prefix add_prefix add_key
visit lp k p =
    if not (is_listed lp k)
    then next p
    else elim (common_prefix lp k) [ none ↦ add_key lp k p | some cp ↦ add_prefix lp cp p ]

unfoldable pub scan : ListParams → List Text → ListPage → ListPage
unfolding visit
scan lp [] p = p
scan lp (k ∷ ks) p = elim (visit lp k p) [ next p' ↦ scan lp ks p' | stop p' ↦ p' ]

abbrev pub empty_page : ListPage
empty_page = record {
  want_keys = [];
  prefixes = [];
  is_truncated = false;
  next_marker = [];
  count = 0;
}

abbrev pub clamp : ℕ → ℕ
clamp n = if n == 0 || ltb 1000 n then 1000 else n

-- `doList`
unfoldable pub do_list : ListParams → List Text → ListPage
unfolding scan
do_list lp keys = scan (record lp { max_keys = clamp lp.max_keys }) keys empty_page
