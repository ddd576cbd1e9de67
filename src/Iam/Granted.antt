-- ===== src/Iam/Granted.antt =====
-- Who may do what, from the statements of the policies up: `IsAllowed` of internal/iam/iam.go with
-- IsAllowed of internal/iam/policy/policy.go, for every kind of access key.
use gostore.Base.{
  ℕ, Text, List, [], true, false, not, Option, none, some, lookup, ◌≡◌, ◌≢◌, ◌↔◌, ◌⊎◌, refl, sym,
  ◌∙◌, subst, arith, Option-cases, Bool-cases, inl, inr, ◌<◌, ltb, Any, Any-map, text_eq,
  text_eq_iff, text_eq-ne, ◌&&◌, if◌then◌else◌,
}
use gostore.Policy
use gostore.Policy.{Policy, Args, Host}
use gostore.Policy.Decision.{Denies, Grants, is_allowed_iff}
use gostore.Iam.{
  UserRec, SvcAcctRec, StsRec, Manager, Identity, resolve, identity, any_named, decide, is_allowed,
  inherit, bare_identity,
}
use gostore.Iam.Cache.{IsCoherent, compiled, compile_inline-compiled}
use gostore.Iam.Access.{answer, named, any_named-Decides}

same_value {ℓ} : {A : Type ℓ} {x y : A} → some x ≡ some y → x ≡ y
same_value e = grind arith

module _ {Ip : Type 0} (h : Host Ip) (parse : Text → Option Policy) (m : Manager) (now : ℕ)
    (key : Text) (a : Args) where
  -- A policy lets the request pass: some "Allow" statement applies to it and no "Deny" statement does.
  abbrev pub Passes : Policy → Type 0
  Passes p =
      (¬ Any (Denies h (named h parse m now key a)) p.statements)
      × Any (Grants h (named h parse m now key a)) p.statements

  -- The policy of a name: a custom one hides a builtin one.
  pub data Named : Text → Policy → Type 0 where
    custom : {name : Text} {p : Policy} → lookup name m.custom ≡ some p → Named name p
    builtin :
        {name : Text} {p : Policy}
        → lookup name m.custom ≡ none
        → lookup name m.builtin ≡ some p
        → Named name p

  abbrev pub HasPolicy : List Text → Type 0
  HasPolicy = Any (λ name. (p : Policy) × Named name p × Passes p)

  -- What an account has from its parent: all rights under the root account, else the policies of a
  -- user that exists.
  pub data FromParent (parent : Text) : Type 0 where
    user : (u : UserRec) → lookup parent m.users ≡ some u → HasPolicy u.policies → FromParent parent
    root : lookup parent m.users ≡ none → parent ≡ m.root_access → FromParent parent

  abbrev pub InlinePasses : Option Policy → Type 0
  InlinePasses none = Unit
  InlinePasses (some p) = Passes p

  -- Who is granted the request.
  pub data Granted : Type 0 where
    as_root : key ≡ m.root_access → Granted
    as_user :
        (u : UserRec)
        → key ≢ m.root_access
        → lookup key m.users ≡ some u
        → HasPolicy u.policies
        → Granted
    as_service_account :
        (s : SvcAcctRec)
        → key ≢ m.root_access
        → lookup key m.users ≡ none
        → lookup key m.svc_accts ≡ some s
        → InlinePasses (compiled parse s.inline_policy)
        → FromParent s.parent_user
        → Granted
    as_session :
        (s : StsRec)
        → key ≢ m.root_access
        → lookup key m.users ≡ none
        → lookup key m.svc_accts ≡ none
        → lookup key m.sts ≡ some s
        → now < s.expiry
        → InlinePasses s.pol
        → FromParent s.parent_user
        → Granted

  req : Args
  req = named h parse m now key a

  custom_first :
      (name : Text) (p : Policy) → lookup name m.custom ≡ some p → resolve m name ≡ some p
  unfolding resolve
  custom_first name p e = rw (e, resolve) refl

  builtin_next :
      (name : Text) → lookup name m.custom ≡ none → resolve m name ≡ lookup name m.builtin
  unfolding resolve
  builtin_next name e = rw (e, resolve) refl

  resolve-Named : (name : Text) (p : Policy) → (resolve m name ≡ some p) ↔ Named name p
  resolve-Named name p = (
    λ r. elim (Option-cases (lookup name m.custom)) [
      | inl e ↦ builtin e (sym (builtin_next name e) ∙ r)
      | inr (q, e) ↦ custom (e ∙ (sym (custom_first name q e) ∙ r))
    ],
    λ n. of_name n,
  )
    where
      of_name : Named name p → resolve m name ≡ some p
      of_name (custom e) = custom_first name p e
      of_name (builtin e f) = builtin_next name e ∙ f

  any_named_iff : (names : List Text) → (any_named h m names req ≡ true) ↔ HasPolicy names
  unfolding req
  any_named_iff names = (
    λ t.
        Any-map (λ name x. (x.0, (resolve-Named name x.0).0 x.1, (is_allowed_iff h req x.0).0 x.2))
          ((any_named-Decides h parse m now key a names).0 t),
    λ t. (any_named-Decides h parse m now key a names).1 (
        Any-map (λ name x. (x.0, (resolve-Named name x.0).1 x.1, (is_allowed_iff h req x.0).1 x.2))
          t),
  )

  -- What an identity has apart from its inline policy.
  abbrev Rights : Identity → Type 0
  Rights id = (id.is_root ≡ true) ⊎ HasPolicy id.policies

  if-Rights :
      (id : Identity)
      → ((if id.is_root then true else any_named h m id.policies req) ≡ true) ↔ Rights id
  if-Rights id = elim (Bool-cases id.is_root) [
    | inl e ↦ (λ _. inl e, λ _. rw e refl)
    | inr e ↦ (
      λ t. inr ((any_named_iff id.policies).0 (rw e at t)),
      λ r. elim r [
        | inl f ↦ absurd (ground (arith, e, f))
        | inr n ↦ rw e ((any_named_iff id.policies).1 n)
      ],
    )
  ]

  abbrev with_inline : Identity → Option Policy → Identity
  with_inline id o = record id { inline = o }

  decide-none :
      (id : Identity)
      → decide h m (with_inline id none) req
        ≡ (if id.is_root then true else any_named h m id.policies req)
  unfolding decide
  decide-none id = refl

  decide-some :
      (id : Identity) (p : Policy)
      → decide h m (with_inline id (some p)) req ≡ (
          if not (Policy.is_allowed h p req)
          then false
          else if id.is_root
          then true
          else any_named h m id.policies req)
  unfolding decide
  decide-some id p = refl

  decide_iff :
      (id : Identity) (o : Option Policy)
      → (decide h m (with_inline id o) req ≡ true) ↔ (InlinePasses o × Rights id)
  unfolding req
  decide_iff id none = (
    λ t. (tt, (if-Rights id).0 (sym (decide-none id) ∙ t)),
    λ x. decide-none id ∙ (if-Rights id).1 x.1,
  )
  decide_iff id (some p) = elim (Bool-cases (Policy.is_allowed h p req)) [
    | inl e ↦ (
      λ t. ((is_allowed_iff h req p).0 e, (if-Rights id).0 (rw e at (sym (decide-some id p) ∙ t))),
      λ x. decide-some id p ∙ rw e ((if-Rights id).1 x.1),
    )
    | inr e ↦ (
      λ t. absurd (ground (arith, rw e at (sym (decide-some id p) ∙ t))),
      λ x. absurd (ground (arith, e, (is_allowed_iff h req p).1 x.0)),
    )
  ]

  -- An account without rights of its own, under a parent.
  inherit_iff :
      (parent : Text) (id : Identity)
      → id.is_root ≡ false
      → id.policies ≡ []
      → Rights (inherit parse m parent id) ↔ FromParent parent
  inherit_iff parent id e f = elim (Option-cases (lookup parent m.users)) [
    | inr (u, g) ↦
        let inherits : inherit parse m parent id ≡ record id { policies = u.policies } =
          ground (arith, g) in
        subst (λ x. Rights x ↔ FromParent parent) (sym inherits)
          (
            λ r. elim r [ inl t ↦ absurd (ground (arith, e, t)) | inr n ↦ user u g n ],
            λ p. inr (policies_of u g p),
          )
    | inl g ↦ elim (Bool-cases (text_eq parent m.root_access)) [
      | inl t ↦
          let inherits : inherit parse m parent id ≡ record id { is_root = true } =
            ground (arith, g, t) in
          subst (λ x. Rights x ↔ FromParent parent) (sym inherits)
            (λ _. root g ((text_eq_iff parent m.root_access).0 t), λ _. inl refl)
      | inr t ↦
          let inherits : inherit parse m parent id ≡ id = ground (arith, g, t) in
          subst (λ x. Rights x ↔ FromParent parent) (sym inherits)
            (
              λ r. elim r [
                | inl c ↦ absurd (ground (arith, e, c))
                | inr n ↦ absurd (nothing (subst HasPolicy f n))
              ],
              λ p. absurd (no_parent g t p),
            )
    ]
  ]
    where
      nothing : HasPolicy [] → ⊥
      nothing x = elim x [ ]

      policies_of :
          (u : UserRec) → lookup parent m.users ≡ some u → FromParent parent → HasPolicy u.policies
      policies_of u g (user v k n) =
          subst (λ (w : UserRec). HasPolicy w.policies) (same_value (sym k ∙ g)) n
      policies_of u g (root k r) = absurd (ground (arith, g, k))

      no_parent :
          lookup parent m.users ≡ none
          → text_eq parent m.root_access ≡ false
          → FromParent parent
          → ⊥
      no_parent g t (user v k n) = ground (arith, g, k)
      no_parent g t (root k r) = ground (arith, t, (text_eq_iff parent m.root_access).1 r)

  -- The identities that `Identity` starts from, before their inline policy.
  abbrev account_of : SvcAcctRec → Identity
  account_of s =
      inherit parse m s.parent_user
        (record (bare_identity parse key s.secret_key) { parent_user = s.parent_user })

  abbrev session_of : StsRec → Identity
  session_of s = inherit parse m s.parent_user (record (bare_identity parse key s.secret) {
    parent_user = s.parent_user;
    expiry = some s.expiry;
  })

  answer_account :
      (s : SvcAcctRec)
      → key ≢ m.root_access
      → lookup key m.users ≡ none
      → lookup key m.svc_accts ≡ some s
      → IsCoherent parse m.inline_cache
      → answer h parse m now key a
        ≡ decide h m (with_inline (account_of s) (compiled parse s.inline_policy)) req
  unfolding is_allowed identity decide req resolve
  answer_account s n e f c =
      let cached = compile_inline-compiled parse m.inline_cache key s.inline_policy c in
      ground (arith, text_eq-ne _ _ n, cached)

  answer_session :
      (s : StsRec)
      → key ≢ m.root_access
      → lookup key m.users ≡ none
      → lookup key m.svc_accts ≡ none
      → lookup key m.sts ≡ some s
      → answer h parse m now key a
        ≡ (ltb now s.expiry && decide h m (with_inline (session_of s) s.pol) req)
  unfolding is_allowed identity decide req
  answer_session s n e f g = ground (arith, text_eq-ne _ _ n)

  answer_user :
      (u : UserRec)
      → key ≢ m.root_access
      → lookup key m.users ≡ some u
      → answer h parse m now key a ≡ any_named h m u.policies req
  unfolding is_allowed identity decide req
  answer_user u n e = ground (arith, text_eq-ne _ _ n)

  answer_root : key ≡ m.root_access → answer h parse m now key a ≡ true
  unfolding is_allowed identity decide
  answer_root e = ground (arith, (text_eq_iff key m.root_access).1 e)

  account_iff :
      (s : SvcAcctRec) (o : Option Policy)
      → (decide h m (with_inline (account_of s) o) req ≡ true)
        ↔ (InlinePasses o × FromParent s.parent_user)
  account_iff s o =
      let all = decide_iff (account_of s) o in
      let parent =
        inherit_iff s.parent_user
          (record (bare_identity parse key s.secret_key) { parent_user = s.parent_user }) refl
          refl in
      (λ t. ((all.0 t).0, parent.0 (all.0 t).1), λ x. all.1 (x.0, parent.1 x.1))

  session_iff :
      (s : StsRec)
      → ((ltb now s.expiry && decide h m (with_inline (session_of s) s.pol) req) ≡ true)
        ↔ ((now < s.expiry) × InlinePasses s.pol × FromParent s.parent_user)
  session_iff s =
      let all = decide_iff (session_of s) s.pol in
      let parent =
        inherit_iff s.parent_user
          (record (bare_identity parse key s.secret) {
            parent_user = s.parent_user;
            expiry = some s.expiry;
          })
          refl refl in
      (
        λ t.
            let d : decide h m (with_inline (session_of s) s.pol) req ≡ true = ground (arith, t) in
            (ground (arith, t), (all.0 d).0, parent.0 (all.0 d).1),
        λ x. ground (arith, x.0, all.1 (x.1, parent.1 x.2)),
      )

  granted_is_allowed : IsCoherent parse m.inline_cache → Granted → answer h parse m now key a ≡ true
  granted_is_allowed c (as_root e) = answer_root e
  granted_is_allowed c (as_user u n e p) = answer_user u n e ∙ (any_named_iff u.policies).1 p
  granted_is_allowed c (as_service_account s n e f i p) =
      answer_account s n e f c ∙ (account_iff s (compiled parse s.inline_policy)).1 (i, p)
  granted_is_allowed c (as_session s n e f g l i p) =
      answer_session s n e f g ∙ (session_iff s).1 (l, i, p)

  answer_unknown :
      key ≢ m.root_access
      → lookup key m.users ≡ none
      → lookup key m.svc_accts ≡ none
      → lookup key m.sts ≡ none
      → answer h parse m now key a ≡ false
  unfolding is_allowed identity
  answer_unknown n e f g = ground (arith, text_eq-ne _ _ n)

  by_child_tables :
      IsCoherent parse m.inline_cache
      → key ≢ m.root_access
      → lookup key m.users ≡ none
      → answer h parse m now key a ≡ true
      → Granted
  by_child_tables c n e t = elim (Option-cases (lookup key m.svc_accts)) [
    | inr (s, f) ↦
        let (i, p) =
          (account_iff s (compiled parse s.inline_policy)).0 (sym (answer_account s n e f c) ∙ t) in
        as_service_account s n e f i p
    | inl f ↦ elim (Option-cases (lookup key m.sts)) [
      | inr (s, g) ↦
          let (l, i, p) = (session_iff s).0 (sym (answer_session s n e f g) ∙ t) in
          as_session s n e f g l i p
      | inl g ↦ absurd (ground (arith, t, answer_unknown n e f g))
    ]
  ]

  -- A request is allowed exactly if it is granted: to the root key; to a user, one of whose policies
  -- lets it pass; to a service account, and to a temporary credential that has not run out, whose
  -- inline policy, where it has one, lets it pass, and whose parent is a user one of whose policies
  -- lets it pass, or the root account. A policy lets a request pass if some "Allow" statement of it
  -- applies and no "Deny" statement of that same policy does; a custom policy hides the builtin one of
  -- its name. The tables are asked in that order, and every entry of the cache of inline policies holds
  -- what its text parses to.
  pub is_allowed-Granted :
      IsCoherent parse m.inline_cache → (answer h parse m now key a ≡ true) ↔ Granted
  is_allowed-Granted c = (
    λ t. elim (Bool-cases (text_eq key m.root_access)) [
      | inl e ↦ as_root ((text_eq_iff key m.root_access).0 e)
      | inr e ↦
          let n : key ≢ m.root_access =
            λ q. ground (arith, e, (text_eq_iff key m.root_access).1 q) in
          elim (Option-cases (lookup key m.users)) [
            | inr (u, f) ↦
                as_user u n f ((any_named_iff u.policies).0 (sym (answer_user u n f) ∙ t))
            | inl f ↦ by_child_tables c n f t
          ]
    ],
    λ g. granted_is_allowed c g,
  )
