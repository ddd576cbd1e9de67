-- ===== src/Policy/Decision.antt =====
-- internal/iam/policy/policy.go, IsAllowed: the decision of a policy and the meaning of its statements.
use gostore.Base.{
  Text, List, Bool, true, false, codes, text_eq, text_eq_iff, ◌≡◌, ◌↔◌, Any, Decides, and-Decides,
  if_false-Decides, any-Decides, not-Decides, ◌||◌,
}
use gostore.Policy.{Policy, Statement, Args, Host, any_equal, eval_condition, is_allowed}
use gostore.Policy.Meaning.{Applies, matches-Decides}

module _ {Ip : Type 0} (h : Host Ip) (a : Args) where
  abbrev pub Denies : Statement → Type 0
  Denies st = (st.effect ≡ codes "Deny") × Applies h st a

  abbrev pub Grants : Statement → Type 0
  Grants st = (st.effect ≡ codes "Allow") × Applies h st a

  -- A request is allowed exactly if no "Deny" statement applies to it and some "Allow" statement
  -- does: an explicit deny wins wherever it stands, and the default is to deny.
  pub is_allowed_iff :
      (p : Policy)
      → (is_allowed h p a ≡ true) ↔ ((¬ Any Denies p.statements) × Any Grants p.statements)
  unfolding is_allowed
  is_allowed_iff p =
      if_false-Decides _ _
        (any-Decides _
          (λ st. and-Decides _ _ (text_eq_iff st.effect (codes "Deny")) (matches-Decides h st a))
          p.statements)
        (any-Decides _
          (λ st. and-Decides _ _ (text_eq_iff st.effect (codes "Allow")) (matches-Decides h st a))
          p.statements)

-- Two lists of values have one in common.
abbrev pub Meet : List Text → List Text → Type 0
Meet got want = Any (λ g. Any (λ w. g ≡ w) want) got

any_equal-Decides :
    {Ip : Type 0} (h : Host Ip) (got want : List Text)
    → Decides (any_equal h got want false) (Meet got want)
unfolding any_equal
any_equal-Decides h got want =
    any-Decides _ (λ g. any-Decides _ (λ w. exact (text_eq g w) (text_eq_iff g w)) want) got
  where
    exact : {P : Type 0} (b : Bool) → Decides b P → Decides (b || false) P
    exact true d = d
    exact false d = d

-- "StringEquals" holds exactly if the request has one of the wanted values, "StringNotEquals"
-- exactly if it has none of them.
pub eval_condition_strings :
    {Ip : Type 0} (h : Host Ip) (got want : List Text)
    → ((eval_condition h (codes "StringEquals") got want ≡ true) ↔ Meet got want)
      × ((eval_condition h (codes "StringNotEquals") got want ≡ true) ↔ (¬ Meet got want))
unfolding eval_condition text_eq
eval_condition_strings h got want =
    (any_equal-Decides h got want, not-Decides _ (any_equal-Decides h got want))
