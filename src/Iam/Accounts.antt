-- ===== src/Iam/Accounts.antt =====
-- internal/iam/iam.go: the operations that change users, policies, service accounts and temporary
-- credentials. A state whose write fails stays changed in memory, and the error is returned.
pub mod Revocation
pub mod Integrity
use gostore.Base.{
  ℕ, Text, List, [], ◌∷◌, Bool, true, false, not, ◌||◌, ◌&&◌, Option, none, some, Assoc, lookup,
  insert, delete, has, if◌then◌else◌, codes, text_eq, any, length, ltb, ◌==◌, ◌+◌,
}
use gostore.Policy.{Policy}
use gostore.Iam.{
  Error, no_such_user, no_such_policy, invalid_cred, is_root_account, bad_document,
  invalid_policy_name, UserRec, SvcAcctRec, StsRec, Manager, resolve, flush,
}

abbrev is_missing : Manager → Text → Bool
is_missing m name = elim (resolve m name) [ none ↦ true | some _ ↦ false ]

abbrev pub too_short : Text → Text → Bool
too_short key secret = ltb (length key) 3 || ltb (length secret) 8

-- The loop of `RemoveUser` over the service accounts.
unfoldable pub drop_children : Text → Assoc SvcAcctRec → Assoc SvcAcctRec
drop_children parent [] = []
drop_children parent ((k, s) ∷ m) =
    let rest = drop_children parent m in
    if text_eq s.parent_user parent then rest else (k, s) ∷ rest

-- `strings.ContainsAny(name, "/\\ ")`
abbrev has_bad_char : Text → Bool
has_bad_char = any (λ c. c == b'/' || c == 92 || c == b' ')

module _ (saved : Bool) (now : ℕ) (m : Manager) where
  unfoldable pub add_user : Text → Text → List Text → Manager × Option Error
  unfolding resolve flush
  add_user key secret policies =
      if too_short key secret
      then (m, some invalid_cred)
      else if text_eq key m.root_access
      then (m, some is_root_account)
      else if any (is_missing m) policies
      then (m, some no_such_policy)
      else flush saved now (record m {
        users =
            insert key
              (record { secret_key = secret; policies = policies; status = codes "enabled" })
              m.users;
      })

  unfoldable pub remove_user : Text → Manager × Option Error
  unfolding flush
  remove_user key =
      if has key m.users
      then flush saved now
          (record m { users = delete key m.users; svc_accts = drop_children key m.svc_accts })
      else (m, some no_such_user)

  unfoldable pub set_user_secret : Text → Text → Manager × Option Error
  unfolding flush
  set_user_secret key secret =
      if ltb (length secret) 8 then (m, some invalid_cred) else elim (lookup key m.users) [
        | none ↦ (m, some no_such_user)
        | some u ↦
            flush saved now
              (record m { users = insert key (record u { secret_key = secret }) m.users })
      ]

  unfoldable pub set_user_status : Text → Text → Manager × Option Error
  unfolding flush
  set_user_status key status = elim (lookup key m.users) [
    | none ↦ (m, some no_such_user)
    | some u ↦
        let known = text_eq status (codes "enabled") || text_eq status (codes "disabled") in
        let status' = if known then status else codes "enabled" in
        flush saved now (record m { users = insert key (record u { status = status' }) m.users })
  ]

  unfoldable pub set_policy : (Text → Option Policy) → Text → Text → Manager × Option Error
  unfolding flush
  set_policy parse name doc =
      if text_eq name [] || has_bad_char name
      then (m, some invalid_policy_name)
      else elim (parse doc) [
        | none ↦ (m, some bad_document)
        | some p ↦ flush saved now (record m { custom = insert name p m.custom })
      ]

  unfoldable pub remove_policy : Text → Manager × Option Error
  unfolding flush
  remove_policy name =
      if has name m.custom
      then flush saved now (record m { custom = delete name m.custom })
      else (m, some no_such_policy)

  unfoldable pub add_service_account :
      (Text → Option Policy) → Text → Text → Text → Text → Manager × Option Error
  unfolding flush
  add_service_account parse parent key secret inline_doc =
      let account : SvcAcctRec = record {
        secret_key = secret;
        parent_user = parent;
        inline_policy = inline_doc;
        status = codes "enabled";
      } in
      let stored = flush saved now (record m { svc_accts = insert key account m.svc_accts }) in
      if too_short key secret
      then (m, some invalid_cred)
      else if not (text_eq parent m.root_access) && not (has parent m.users)
      then (m, some no_such_user)
      else if text_eq inline_doc []
      then stored
      else elim (parse inline_doc) [ none ↦ (m, some bad_document) | some _ ↦ stored ]

  unfoldable pub remove_service_account : Text → Manager × Option Error
  unfolding flush
  remove_service_account key =
      if has key m.svc_accts
      then flush saved now (record m { svc_accts = delete key m.svc_accts })
      else (m, some no_such_user)

-- `AddSTS` keeps the credential in memory only.
unfoldable pub add_sts : ℕ → Manager → Text → Text → Text → Option Policy → ℕ → Manager
add_sts now m key secret parent pol ttl = record m {
  sts =
      insert key (record { secret = secret; parent_user = parent; pol = pol; expiry = now + ttl })
        m.sts;
}
