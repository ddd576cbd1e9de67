-- ===== src/Policy.antt =====
-- internal/iam/policy/policy.go: policy documents and their evaluation against a request. Parsing
-- and printing JSON is not modelled: a `Policy` is what `Parse` returns. A Go map is an association
-- list, so that a loop over it visits the entries in one of its orders.
pub mod Wildcard
pub mod Meaning
pub mod Decision
mod Examples
use gostore.Base.{
  ℕ, Text, List, [], ◌∷◌, ◌++◌, Bool, true, false, not, ◌&&◌, ◌||◌, Option, none, some, Assoc,
  lookup, if◌then◌else◌, codes, text_eq, has_suffix, trim_prefix, any, all, length, leb, ltb, ◌==◌,
}
use gostore.Policy.Wildcard.{wildcard_match}

-- `raw` is the principal given as one string, `aws` the list under "AWS".
pub record Principal : Type 0 where
  pub aws : List Text
  pub raw : Text

-- operator -> key -> values
abbrev pub Conditions : Type 0
Conditions = Assoc (Assoc (List Text))

pub record Statement : Type 0 where
  pub effect : Text
  pub principal : Principal
  pub action : List Text
  pub not_action : List Text
  pub resource : List Text
  pub condition : Conditions

pub record Policy : Type 0 where
  pub version : Text
  pub id : Text
  pub statements : List Statement

pub record Args : Type 0 where
  pub account_name : Text
  pub action : Text
  pub bucket_name : Text
  pub object_name : Text
  pub is_owner : Bool
  pub source_ip : Text
  pub condition_values : Assoc (List Text)

-- Parsing of addresses (package net) and Unicode case folding (strings.EqualFold).
pub record Host (Ip : Type 0) : Type 0 where
  pub parse_ip : Text → Option Ip
  pub parse_cidr : Text → Option (Ip → Bool)
  pub equal_ip : Ip → Ip → Bool
  pub equal_fold : Text → Text → Bool

-- `Principal.IsPublic`
unfoldable pub is_public : Principal → Bool
is_public p = if text_eq p.raw (codes "*") then true else any (λ a. text_eq a (codes "*")) p.aws

unfoldable pub names_account : Text → Text → Bool
names_account account p =
    text_eq p account || has_suffix p (codes "/" ++ account) || has_suffix p (codes ":" ++ account)

unfoldable pub match_principal : Statement → Args → Bool
unfolding is_public names_account
match_principal st a =
    if text_eq st.principal.raw [] && length st.principal.aws == 0
    then true
    else if is_public st.principal
    then true
    else if text_eq a.account_name []
    then false
    else any (names_account a.account_name) st.principal.aws

unfoldable pub match_action : Statement → Text → Bool
match_action st action =
    if ltb 0 (length st.not_action)
    then all (λ pat. not (wildcard_match pat action)) st.not_action
    else any (λ pat. wildcard_match pat action) st.action

abbrev pub resource_of : Args → Text
resource_of a =
    if text_eq a.object_name [] then a.bucket_name else a.bucket_name ++ (b'/' ∷ a.object_name)

unfoldable pub match_resource : Statement → Args → Bool
match_resource st a =
    any
      (λ pat.
        let p = trim_prefix pat (codes "arn:aws:s3:::") in
        if wildcard_match p (resource_of a)
        then true
        else text_eq a.object_name [] && wildcard_match p a.bucket_name)
      st.resource

unfoldable pub condition_value : Args → Text → List Text
condition_value a key =
    if text_eq key (codes "aws:username")
    then a.account_name ∷ []
    else if text_eq key (codes "aws:SourceIp")
    then a.source_ip ∷ []
    else elim (lookup key a.condition_values) [ some v ↦ v | none ↦ [] ]

module _ {Ip : Type 0} (h : Host Ip) where
  unfoldable pub any_equal : List Text → List Text → Bool → Bool
  any_equal got want ci = any (λ g. any (λ w. text_eq g w || (ci && h.equal_fold g w)) want) got

  abbrev pub ip_in : Ip → Text → Bool
  ip_in ip w =
      elim (h.parse_cidr w) [ some contains ↦ contains ip | none ↦ false ]
      || elim (h.parse_ip w) [ some other ↦ h.equal_ip ip other | none ↦ false ]

  unfoldable pub ip_match : List Text → List Text → Bool
  ip_match got want =
      any (λ g. elim (h.parse_ip g) [ none ↦ false | some ip ↦ any (ip_in ip) want ]) got

  unfoldable pub eval_condition : Text → List Text → List Text → Bool
  unfolding any_equal ip_match
  eval_condition op got want =
      if text_eq op (codes "StringEquals")
      then any_equal got want false
      else if text_eq op (codes "StringNotEquals")
      then not (any_equal got want false)
      else if text_eq op (codes "StringEqualsIgnoreCase")
      then any_equal got want true
      else if text_eq op (codes "StringLike")
      then (if any (λ g. any (λ w. wildcard_match w g) want) got then true else length got == 0)
      else if text_eq op (codes "IpAddress")
      then ip_match got want
      else if text_eq op (codes "NotIpAddress")
      then not (ip_match got want)
      else true

  unfoldable pub match_conditions : Statement → Args → Bool
  match_conditions st a =
      all (λ (op, kv). all (λ (key, want). eval_condition op (condition_value a key) want) kv)
        st.condition

  unfoldable pub matches : Statement → Args → Bool
  unfolding match_principal match_action match_resource match_conditions
  matches st a =
      if not (match_principal st a)
      then false
      else if not (match_action st a.action)
      then false
      else if not (match_resource st a)
      then false
      else if not (match_conditions st a)
      then false
      else true

  unfoldable pub is_allowed : Policy → Args → Bool
  is_allowed p a =
      if any (λ st. text_eq st.effect (codes "Deny") && matches st a) p.statements
      then false
      else any (λ st. text_eq st.effect (codes "Allow") && matches st a) p.statements
