-- ===== src/Iam.antt =====
-- internal/iam/iam.go: the state of the identity manager and its operations. The locks make every
-- operation atomic, so each is a function on the state. `now` is the clock in nanoseconds, `parse`
-- reads a policy from its JSON text, and `saved` says whether the write of the
-- state to the configuration store succeeded.
mod Examples
pub mod Cache
pub mod Access
pub mod Granted
pub mod Accounts
use gostore.Base.{
  ℕ, Text, List, [], ◌∷◌, ◌++◌, Bool, true, false, not, ◌&&◌, ◌||◌, Option, none, some, Assoc,
  lookup, insert, delete, has, if◌then◌else◌, codes, text_eq, any, all, length, leb, ltb, ◌==◌, ◌+◌,
}
use gostore.Policy
use gostore.Policy.{Policy, Args, Host}

pub data Error : Type 0 where
  no_such_user no_such_policy user_exists invalid_cred is_root_account bad_document : Error
  invalid_policy_name save_failed : Error

pub record UserRec : Type 0 where
  pub secret_key : Text
  pub policies : List Text
  pub status : Text

pub record SvcAcctRec : Type 0 where
  pub secret_key : Text
  pub parent_user : Text
  pub inline_policy : Text
  pub status : Text

pub record StsRec : Type 0 where
  pub secret : Text
  pub parent_user : Text
  pub pol : Option Policy
  pub expiry : ℕ

pub record InlineCompiled : Type 0 where
  pub raw : Text
  pub pol : Option Policy

-- `expiry` is `none` for the zero time.
pub record Identity : Type 0 where
  pub access_key : Text
  pub secret_key : Text
  pub parent_user : Text
  pub is_root : Bool
  pub policies : List Text
  pub inline : Option Policy
  pub expiry : Option ℕ

pub record Manager : Type 0 where
  pub root_access : Text
  pub root_secret : Text
  pub users : Assoc UserRec
  pub svc_accts : Assoc SvcAcctRec
  pub custom : Assoc Policy
  pub builtin : Assoc Policy
  pub sts : Assoc StsRec
  pub inline_cache : Assoc InlineCompiled
  pub last_sync : ℕ

-- What the store holds.
pub record Persisted : Type 0 where
  pub users : Assoc UserRec
  pub policies : Assoc Text
  pub svc_accts : Assoc SvcAcctRec
  pub updated_at : ℕ

abbrev pub is_enabled : Text → Bool
is_enabled status = not (text_eq status (codes "disabled"))

-- `LookupSecret`: the switch goes on to the next table when an account is disabled.
lookup_sts_secret : Manager → ℕ → Text → Option Text
lookup_sts_secret m now key = elim (lookup key m.sts) [
  | some s ↦ if ltb now s.expiry then some s.secret else none
  | none ↦ none
]

lookup_svc_secret : Manager → ℕ → Text → Option Text
unfolding lookup_sts_secret
lookup_svc_secret m now key = elim (lookup key m.svc_accts) [
  | some s ↦ if is_enabled s.status then some s.secret_key else lookup_sts_secret m now key
  | none ↦ lookup_sts_secret m now key
]

unfoldable pub lookup_secret : Manager → ℕ → Text → Option Text
unfolding lookup_svc_secret
lookup_secret m now key =
    if text_eq key m.root_access then some m.root_secret else elim (lookup key m.users) [
      | some u ↦ if is_enabled u.status then some u.secret_key else lookup_svc_secret m now key
      | none ↦ lookup_svc_secret m now key
    ]

unfoldable pub resolve : Manager → Text → Option Policy
resolve m name = elim (lookup name m.custom) [ some p ↦ some p | none ↦ lookup name m.builtin ]

module _ (parse : Text → Option Policy) where
  -- `compileInline`: the parsed policy and the cache after the call.
  unfoldable pub compile_inline :
      Assoc InlineCompiled → Text → Text → Option Policy × Assoc InlineCompiled
  compile_inline cache key doc =
      let missed : Option Policy × Assoc InlineCompiled =
        (parse doc, insert key (record { raw = doc; pol = parse doc }) cache) in
      if text_eq doc [] then (none, cache) else elim (lookup key cache) [
        | some e ↦ if text_eq e.raw doc then (e.pol, cache) else missed
        | none ↦ missed
      ]

  -- The policies and the root flag that a child account has from its parent.
  abbrev pub inherit : Manager → Text → Identity → Identity
  inherit m parent id = elim (lookup parent m.users) [
    | some pu ↦ record id { policies = pu.policies }
    | none ↦ if text_eq parent m.root_access then record id { is_root = true } else id
  ]

  abbrev pub bare_identity : Text → Text → Identity
  bare_identity key secret = record {
    access_key = key;
    secret_key = secret;
    parent_user = [];
    is_root = false;
    policies = [];
    inline = none;
    expiry = none;
  }

  identity_sts : Manager → ℕ → Text → Option Identity × Manager
  identity_sts m now key = elim (lookup key m.sts) [
    | some s ↦
        if ltb now s.expiry
        then (
          some (
              inherit m s.parent_user (record (bare_identity key s.secret) {
                parent_user = s.parent_user;
                inline = s.pol;
                expiry = some s.expiry;
              })),
          m,
        )
        else (none, m)
    | none ↦ (none, m)
  ]

  identity_svc : Manager → SvcAcctRec → Text → Option Identity × Manager
  identity_svc m s key =
      let (pol, cache) = compile_inline m.inline_cache key s.inline_policy in
      (
        some
            (record (inherit m s.parent_user
              (record (bare_identity key s.secret_key) { parent_user = s.parent_user })) {
                inline = pol;
              }),
        record m { inline_cache = cache },
      )

  -- `Identity`
  unfoldable pub identity : Manager → ℕ → Text → Option Identity × Manager
  unfolding identity_sts identity_svc
  identity m now key =
      if text_eq key m.root_access
      then (some (record (bare_identity key m.root_secret) { is_root = true }), m)
      else elim (lookup key m.users) [
        | some u ↦ (some (record (bare_identity key u.secret_key) { policies = u.policies }), m)
        | none ↦ elim (lookup key m.svc_accts) [
          | some s ↦ identity_svc m s key
          | none ↦ identity_sts m now key
        ]
      ]

module _ {Ip : Type 0} (h : Host Ip) where
  abbrev pub allows : Option Policy → Args → Bool
  allows none a = false
  allows (some p) a = Policy.is_allowed h p a

  abbrev pub any_named : Manager → List Text → Args → Bool
  any_named m names a = any (λ name. allows (resolve m name) a) names

  -- The checks of `IsAllowed` on a resolved identity.
  unfoldable pub decide : Manager → Identity → Args → Bool
  decide m id a = elim id.inline [
    | none ↦ if id.is_root then true else any_named m id.policies a
    | some p ↦
        if not (Policy.is_allowed h p a)
        then false
        else if id.is_root
        then true
        else any_named m id.policies a
  ]

  unfoldable pub is_allowed : (Text → Option Policy) → Manager → ℕ → Text → Args → Bool × Manager
  unfolding decide
  is_allowed parse m now key a =
      let (found, m') = identity parse m now key in
      (elim found [ none ↦ false | some id ↦ decide m' id (record a { account_name = key }) ], m')

-- `flush`, on whether the store takes the write.
unfoldable pub flush : Bool → ℕ → Manager → Manager × Option Error
flush saved now m = if saved then (record m { last_sync = now }, none) else (m, some save_failed)

abbrev keep_some {ℓ} : {A : Type ℓ} → Text → Option A → Assoc A → Assoc A
keep_some name none rest = rest
keep_some name (some a) rest = (name, a) ∷ rest

abbrev pub parse_all : (Text → Option Policy) → Assoc Text → Assoc Policy
parse_all parse [] = []
parse_all parse ((name, doc) ∷ ds) = keep_some name (parse doc) (parse_all parse ds)

unfoldable pub apply_persisted : (Text → Option Policy) → Manager → Persisted → Manager
apply_persisted parse m p = record m {
  users = p.users;
  svc_accts = p.svc_accts;
  custom = parse_all parse p.policies;
  last_sync = p.updated_at;
}

-- One tick of `StartRefresh`; `none` is a failed load.
unfoldable pub refresh : (Text → Option Policy) → Manager → Option Persisted → Manager
refresh parse m none = m
refresh parse m (some p) = if ltb m.last_sync p.updated_at then apply_persisted parse m p else m
