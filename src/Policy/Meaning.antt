-- ===== src/Policy/Meaning.antt =====
-- What it means that a statement applies to a request, written without the loops of policy.go.
use gostore.Base.{
  if-Decides, Decides, or-Decides, and-Decides, if_true-Decides, if_false-Decides, not-Decides,
  any-Decides, all-Decides, Decides-map, Text, List, [], ◌∷◌, ◌++◌, Bool, true, false, not, ◌&&◌,
  ◌||◌, codes, text_eq, text_eq_iff, has_suffix, has_suffix_iff, IsSuffixOf, trim_prefix, ◌≡◌, ◌≢◌,
  ◌⊎◌, inl, inr, arith, refl, All, Any, length, Bool-cases, ltb, ◌==◌, if◌then◌else◌,
}
use gostore.Policy.{
  Principal, Statement, Args, Host, is_public, names_account, match_principal, match_action,
  match_resource, resource_of, match_conditions, matches, condition_value, eval_condition,
}
use gostore.Policy.Wildcard.{wildcard_match}
use gostore.Policy.Wildcard.Matching.{Matches, wildcard_match_iff}

-- A statement without a principal applies to everyone.
abbrev pub HasNoPrincipal : Principal → Type 0
HasNoPrincipal p = (p.raw ≡ []) × (p.aws ≡ [])

abbrev pub IsPublic : Principal → Type 0
IsPublic p = (p.raw ≡ codes "*") ⊎ Any (λ x. x ≡ codes "*") p.aws

-- An entry is the account, or an ARN that ends in it after a slash or a colon.
abbrev pub NamesAccount : Text → Text → Type 0
NamesAccount account p =
    (p ≡ account) ⊎ (IsSuffixOf (codes "/" ++ account) p ⊎ IsSuffixOf (codes ":" ++ account) p)

abbrev pub PrincipalApplies : Statement → Args → Type 0
PrincipalApplies st a =
    HasNoPrincipal st.principal
    ⊎ (IsPublic st.principal
        ⊎ (a.account_name ≢ []) × Any (NamesAccount a.account_name) st.principal.aws)

-- A `NotAction` list, where there is one, replaces the `Action` list.
abbrev pub ActionApplies : Statement → Text → Type 0
ActionApplies st action =
    (st.not_action ≢ []) × All (λ pat. ¬ Matches pat action) st.not_action
    ⊎ (st.not_action ≡ []) × Any (λ pat. Matches pat action) st.action

abbrev pub ResourceApplies : Statement → Args → Type 0
ResourceApplies st a =
    Any (λ pat. Matches (trim_prefix pat (codes "arn:aws:s3:::")) (resource_of a)) st.resource

abbrev pub ConditionsApply : {Ip : Type 0} → Host Ip → Statement → Args → Type 0
ConditionsApply h st a =
    All (λ e. All (λ f. eval_condition h e.0 (condition_value a f.0) f.1 ≡ true) e.1) st.condition

pub record Applies {Ip : Type 0} (h : Host Ip) (st : Statement) (a : Args) : Type 0 where
  pub principal : PrincipalApplies st a
  pub action : ActionApplies st a.action
  pub resource : ResourceApplies st a
  pub conditions : ConditionsApply h st a

names_account-Decides :
    (account p : Text) → Decides (names_account account p) (NamesAccount account p)
unfolding names_account
names_account-Decides account p = Decides-map assoc unassoc (
    or-Decides (text_eq p account || has_suffix p (codes "/" ++ account)) _
      (or-Decides (text_eq p account) _ (text_eq_iff p account) (has_suffix_iff p _))
      (has_suffix_iff p _))
  where
    assoc : {A B C : Type 0} → (A ⊎ B) ⊎ C → A ⊎ (B ⊎ C)
    assoc (inl (inl a)) = inl a
    assoc (inl (inr b)) = inr (inl b)
    assoc (inr c) = inr (inr c)

    unassoc : {A B C : Type 0} → A ⊎ (B ⊎ C) → (A ⊎ B) ⊎ C
    unassoc (inl a) = inl (inl a)
    unassoc (inr (inl b)) = inl (inr b)
    unassoc (inr (inr c)) = inr c

is_public-Decides : (p : Principal) → Decides (is_public p) (IsPublic p)
unfolding is_public
is_public-Decides p =
    if_true-Decides _ _ (text_eq_iff p.raw (codes "*"))
      (any-Decides _ (λ a. text_eq_iff a (codes "*")) p.aws)

is_empty-Decides : (xs : List Text) → Decides (length xs == 0) (xs ≡ [])
is_empty-Decides [] = ground arith
is_empty-Decides (x ∷ xs) = ground arith

is_nonempty-Decides : (xs : List Text) → Decides (ltb 0 (length xs)) (xs ≢ [])
is_nonempty-Decides [] = ground arith
is_nonempty-Decides (x ∷ xs) = ground arith

match_principal-Decides :
    (st : Statement) (a : Args) → Decides (match_principal st a) (PrincipalApplies st a)
unfolding match_principal
match_principal-Decides st a =
    if_true-Decides _ _
      (and-Decides _ _ (text_eq_iff st.principal.raw []) (is_empty-Decides st.principal.aws))
      (if_true-Decides _ _ (is_public-Decides st.principal) (
        if_false-Decides _ _ (text_eq_iff a.account_name [])
          (any-Decides _ (names_account-Decides a.account_name) st.principal.aws)))

eq_nil : (xs : List Text) → ¬ (xs ≢ []) → xs ≡ []
eq_nil [] h = refl
eq_nil (x ∷ xs) h = absurd (h (λ e. cc))

match_action-Decides :
    (st : Statement) (action : Text) → Decides (match_action st action) (ActionApplies st action)
unfolding match_action
match_action-Decides st action =
    Decides-map (elim [ inl h ↦ inl h | inr h ↦ inr (eq_nil _ h.0, h.1) ])
      (elim [ inl h ↦ inl h | inr h ↦ inr ((λ n. n h.0), h.1) ])
      (if-Decides _ _ _ (is_nonempty-Decides st.not_action)
        (all-Decides _ (λ pat. not-Decides _ (wildcard_match_iff pat action)) st.not_action)
        (any-Decides _ (λ pat. wildcard_match_iff pat action) st.action))

-- The second test of the loop finds no more than the first.
bare_bucket :
    (a : Args) (p : Text)
    → (if wildcard_match p (resource_of a)
        then true
        else text_eq a.object_name [] && wildcard_match p a.bucket_name)
      ≡ wildcard_match p (resource_of a)
bare_bucket a p = elim (Bool-cases (text_eq a.object_name [])) [
  | inl e ↦ rw e (same (wildcard_match p a.bucket_name))
  | inr n ↦ rw n (alone _)
]
  where
    same : (b : Bool) → (if b then true else b) ≡ b
    same true = refl
    same false = refl

    alone : (b : Bool) → (if b then true else false) ≡ b
    alone true = refl
    alone false = refl

match_resource-Decides :
    (st : Statement) (a : Args) → Decides (match_resource st a) (ResourceApplies st a)
unfolding match_resource
match_resource-Decides st a =
    any-Decides _ (λ pat. rw bare_bucket (wildcard_match_iff _ (resource_of a))) st.resource

match_conditions-Decides :
    {Ip : Type 0} (h : Host Ip) (st : Statement) (a : Args)
    → Decides (match_conditions h st a) (ConditionsApply h st a)
unfolding match_conditions
match_conditions-Decides h st a =
    all-Decides _ (λ e. all-Decides _ (λ f. (λ x. x, λ x. x)) e.1) st.condition

four_tests :
    (b c d e : Bool)
    → (if not b
        then false
        else if not c
        then false
        else if not d
        then false
        else if not e
        then false
        else true)
      ≡ (b && (c && (d && e)))
four_tests b c d e = ground arith

module _ {Ip : Type 0} (h : Host Ip) (st : Statement) (a : Args) where
  abbrev Parts : Type 0
  Parts =
      PrincipalApplies st a
      × (ActionApplies st a.action × (ResourceApplies st a × ConditionsApply h st a))

  Applies-of_Parts : Parts → Applies h st a
  Applies-of_Parts p = record {
    principal = p.0;
    action = p.1.0;
    resource = p.1.1.0;
    conditions = p.1.1.1;
  }

  Parts_of_Applies : Applies h st a → Parts
  Parts_of_Applies r = (r.principal, (r.action, (r.resource, r.conditions)))

  -- The four tests of `matches` together say that the statement applies.
  pub matches-Decides : Decides (matches h st a) (Applies h st a)
  unfolding matches
  matches-Decides = Decides-map Applies-of_Parts Parts_of_Applies (
      rw four_tests (
        and-Decides _ _ (match_principal-Decides st a) (
          and-Decides _ _ (match_action-Decides st a.action)
            (and-Decides _ _ (match_resource-Decides st a) (match_conditions-Decides h st a)))))
