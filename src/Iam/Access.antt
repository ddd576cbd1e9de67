-- ===== src/Iam/Access.antt =====
-- Who may do what: `IsAllowed` of internal/iam/iam.go, for each kind of access key.
use gostore.Base.{
  ℕ, Text, List, Bool, true, false, Option, none, some, lookup, ◌≡◌, ◌≢◌, refl, arith, Option-cases,
  inl, inr, ◌≤◌, Any, any-Decides, Decides, text_eq-ne,
}
use gostore.Policy
use gostore.Policy.{Policy, Args, Host}
use gostore.Iam.{StsRec, Manager, resolve, identity, allows, any_named, is_allowed}

-- An absent inline policy allows everything.
abbrev pub inline_allows : {Ip : Type 0} → Host Ip → Option Policy → Args → Bool
inline_allows h none a = true
inline_allows h (some p) a = Policy.is_allowed h p a

module _ {Ip : Type 0} (h : Host Ip) (parse : Text → Option Policy) (m : Manager) (now : ℕ)
    (key : Text) (a : Args) where
  abbrev pub answer : Bool
  answer = (is_allowed h parse m now key a).0

  -- The request as the policies see it.
  abbrev pub named : Args
  named = record a { account_name = key }

  abbrev pub PolicyAllows : Text → Type 0
  PolicyAllows name =
      (p : Policy) × (resolve m name ≡ some p) × (Policy.is_allowed h p named ≡ true)

  pub any_named-Decides :
      (names : List Text) → Decides (any_named h m names named) (Any PolicyAllows names)
  any_named-Decides = any-Decides _ λ name. by_policy name (resolve m name) refl
    where
      by_policy :
          (name : Text) (o : Option Policy)
          → resolve m name ≡ o
          → Decides (allows h o named) (PolicyAllows name)
      by_policy name none e = (λ x. absurd (cc), λ x. absurd (cc))
      by_policy name (some p) e = (λ x. (p, e, x), λ x. ground arith)

  -- A key that is not the root's and in none of the tables, or whose only entry is a temporary
  -- credential that has run out, may do nothing.
  pub is_allowed_unknown :
      key ≢ m.root_access
      → lookup key m.users ≡ none
      → lookup key m.svc_accts ≡ none
      → ((s : StsRec) → lookup key m.sts ≡ some s → s.expiry ≤ now)
      → answer ≡ false
  unfolding is_allowed identity
  is_allowed_unknown n u v expired = elim (Option-cases (lookup key m.sts)) [
    | inl e ↦ ground (arith, text_eq-ne _ _ n)
    | inr (s, e) ↦ ground (arith, text_eq-ne _ _ n, expired s e)
  ]
