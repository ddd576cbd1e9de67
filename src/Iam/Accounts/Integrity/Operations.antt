-- ===== src/Iam/Accounts/Integrity/Operations.antt =====
-- internal/iam/iam.go: the operations on the accounts, one by one.
use gostore.Base.{
  any, codes, ◌||◌, if_keeps, option_keeps, ℕ, Text, List, [], ◌∷◌, Bool, true, false, not, Option,
  some, Assoc, lookup, insert, delete, has, lookup-insert, lookup-delete, text_eq, text_eq_iff, ◌≡◌,
  ◌≢◌, arith, if◌then◌else◌, Bool-cases, inl, inr, ltb, ◌≤◌, length, ◌⊎◌, All, All-map, All-insert,
  All-delete, lookup-All, ◌&&◌, ap,
}
use gostore.Policy.{Policy}
use gostore.Iam.{Error, UserRec, SvcAcctRec, Manager, flush}
use gostore.Iam.Accounts
use gostore.Iam.Accounts.{drop_children, too_short, is_missing, has_bad_char}
use gostore.Iam.Accounts.Integrity.{HasParent, IsSound}

has-insert :
    (k j : Text) (u : UserRec) (m : Assoc UserRec)
    → has j (insert k u m) ≡ (if text_eq k j then true else has j m)
has-insert k j u m = ground (arith, lookup-insert k j u m)

has-delete :
    (k j : Text) (m : Assoc UserRec) → has j (delete k m) ≡ (if text_eq k j then false else has j m)
has-delete k j m = ground (arith, lookup-delete k j m)

-- A user under a key that is not the root's may be written.
put_user :
    (m : Manager) (key : Text) (u : UserRec)
    → IsSound m
    → key ≢ m.root_access
    → 8 ≤ length u.secret_key
    → IsSound (record m { users = insert key u m.users })
put_user m key u s n long = record {
  root_apart =
      ground (
        arith,
        has-insert key m.root_access u m.users,
        s.root_apart,
        text_eq_iff key m.root_access,
      );
  user_secrets = All-insert _ key u m.users long s.user_secrets;
  account_secrets = s.account_secrets;
  parents = All-map more m.svc_accts s.parents;
}
  where
    more :
        (e : Text × SvcAcctRec)
        → HasParent m e.1
        → HasParent (record m { users = insert key u m.users }) e.1
    more e (inl r) = inl r
    more e (inr k) = inr (ground (arith, has-insert key e.1.parent_user u m.users))

pub record Keeps (r : Manager × Option Error) : Type 0 where
  pub sound : IsSound r.0

pub flush-IsSound : (saved : Bool) (now : ℕ) {m : Manager} → IsSound m → Keeps (flush saved now m)
unfolding flush
flush-IsSound true now s = record {
  sound = record {
    root_apart = s.root_apart;
    user_secrets = s.user_secrets;
    account_secrets = s.account_secrets;
    parents = s.parents;
  };
}
flush-IsSound false now s = record { sound = s }

stays_apart :
    (m : Manager) (key : Text) (u : UserRec)
    → IsSound m
    → lookup key m.users ≡ some u
    → key ≢ m.root_access
stays_apart m key u s e r = ground (arith, s.root_apart, ap (λ k. lookup k m.users) r)

module _ {m : Manager} (s : IsSound m) where
  with_custom : (custom : Assoc Policy) → IsSound (record m { custom = custom })
  with_custom custom = record {
    root_apart = s.root_apart;
    user_secrets = s.user_secrets;
    account_secrets = s.account_secrets;
    parents = s.parents;
  }

  with_accounts :
      (accounts : Assoc SvcAcctRec)
      → All (λ e. 8 ≤ length e.1.secret_key) accounts
      → All (λ e. HasParent m e.1) accounts
      → IsSound (record m { svc_accts = accounts })
  with_accounts accounts long parents = record {
    root_apart = s.root_apart;
    user_secrets = s.user_secrets;
    account_secrets = long;
    parents = parents;
  }

module _ (parse : Text → Option Policy) (saved : Bool) (now : ℕ) (m : Manager) (s : IsSound m) where
  same : {e : Option Error} → Keeps (m, e)
  same = record { sound = s }

  pub add_user-Keeps :
      (key secret : Text) (policies : List Text)
      → Keeps (Accounts.add_user saved now m key secret policies)
  unfolding Accounts.add_user
  add_user-Keeps key secret policies =
      if_keeps Keeps (too_short key secret) _ _ (λ _. same)
        λ long.
          if_keeps Keeps (text_eq key m.root_access) _ _ (λ _. same)
            λ apart.
              if_keeps Keeps (any (is_missing m) policies) _ _ (λ _. same)
                λ _. flush-IsSound saved now (
                  put_user m key
                    (record { secret_key = secret; policies = policies; status = codes "enabled" })
                    s (ground (arith, text_eq_iff key m.root_access)) (ground arith))

  pub set_user_secret-Keeps :
      (key secret : Text) → Keeps (Accounts.set_user_secret saved now m key secret)
  unfolding Accounts.set_user_secret
  set_user_secret-Keeps key secret =
      if_keeps Keeps (ltb (length secret) 8) _ _ (λ _. same)
        λ long. option_keeps Keeps (lookup key m.users) _ _ same λ u e. flush-IsSound saved now (
          put_user m key (record u { secret_key = secret }) s (stays_apart m key u s e)
            (ground arith))

  pub set_user_status-Keeps :
      (key status : Text) → Keeps (Accounts.set_user_status saved now m key status)
  unfolding Accounts.set_user_status
  set_user_status-Keeps key status = option_keeps Keeps (lookup key m.users) _ _ same λ u e.
      flush-IsSound saved now (
        put_user m key _ s (stays_apart m key u s e)
          (lookup-All (λ v. 8 ≤ length v.secret_key) key u m.users s.user_secrets e))

  pub set_policy-Keeps : (name doc : Text) → Keeps (Accounts.set_policy saved now m parse name doc)
  unfolding Accounts.set_policy
  set_policy-Keeps name doc =
      if_keeps Keeps (text_eq name [] || has_bad_char name) _ _ (λ _. same)
        λ _.
          option_keeps Keeps (parse doc) _ _ same
            λ p e. flush-IsSound saved now (with_custom s (insert name p m.custom))

  pub remove_policy-Keeps : (name : Text) → Keeps (Accounts.remove_policy saved now m name)
  unfolding Accounts.remove_policy
  remove_policy-Keeps name =
      if_keeps Keeps (has name m.custom) _ _
        (λ _. flush-IsSound saved now (with_custom s (delete name m.custom))) (λ _. same)

  pub remove_service_account-Keeps :
      (key : Text) → Keeps (Accounts.remove_service_account saved now m key)
  unfolding Accounts.remove_service_account
  remove_service_account-Keeps key =
      if_keeps Keeps (has key m.svc_accts) _ _
        (λ _. flush-IsSound saved now (
          with_accounts s _ (All-delete _ key m.svc_accts s.account_secrets)
            (All-delete _ key m.svc_accts s.parents)))
        (λ _. same)

  pub add_service_account-Keeps :
      (parent key secret doc : Text)
      → Keeps (Accounts.add_service_account saved now m parse parent key secret doc)
  unfolding Accounts.add_service_account
  add_service_account-Keeps parent key secret doc =
      if_keeps Keeps (too_short key secret) _ _ (λ _. same)
        λ long.
          if_keeps Keeps (not (text_eq parent m.root_access) && not (has parent m.users)) _ _
            (λ _. same)
            λ known.
              let under : (parent ≡ m.root_access) ⊎ (has parent m.users ≡ true) =
                ground (arith, text_eq_iff parent m.root_access) in
              let account : SvcAcctRec = record {
                secret_key = secret;
                parent_user = parent;
                inline_policy = doc;
                status = codes "enabled";
              } in
              let stored = flush-IsSound saved now (
                with_accounts s (insert key account m.svc_accts)
                  (All-insert _ key account m.svc_accts (ground arith) s.account_secrets)
                  (All-insert _ key account m.svc_accts under s.parents)) in
              if_keeps Keeps (text_eq doc []) _ _ (λ _. stored)
                λ _. option_keeps Keeps (parse doc) _ _ same λ p e. stored

drop_children-kept :
    (P : SvcAcctRec → Type 0) (parent : Text) (accounts : Assoc SvcAcctRec)
    → All (λ e. P e.1) accounts
    → All (λ e. P e.1 × (e.1.parent_user ≢ parent)) (drop_children parent accounts)
unfolding drop_children
drop_children-kept P parent [] h = tt
drop_children-kept P parent ((k, a) ∷ m) h = elim (Bool-cases (text_eq a.parent_user parent)) [
  | inl e ↦ rw e (drop_children-kept P parent m h.1)
  | inr n ↦
      rw n
        ((h.0, ground (arith, text_eq_iff a.parent_user parent)), drop_children-kept P parent m h.1)
]

removed-IsSound :
    (m : Manager) (key : Text)
    → IsSound m
    → IsSound (record m { users = delete key m.users; svc_accts = drop_children key m.svc_accts })
removed-IsSound m key s = record {
  root_apart = ground (arith, has-delete key m.root_access m.users, s.root_apart);
  user_secrets = All-delete _ key m.users s.user_secrets;
  account_secrets =
      All-map (λ e h. h.0) _
        (drop_children-kept (λ a. 8 ≤ length a.secret_key) key m.svc_accts s.account_secrets);
  parents = All-map still _ (drop_children-kept (HasParent m) key m.svc_accts s.parents);
}
  where
    still :
        (e : Text × SvcAcctRec)
        → HasParent m e.1 × (e.1.parent_user ≢ key)
        → HasParent
            (record m { users = delete key m.users; svc_accts = drop_children key m.svc_accts })
            e.1
    still e (inl r, n) = inl r
    still e (inr k, n) =
        inr
          (ground (arith, has-delete key e.1.parent_user m.users, text_eq_iff key e.1.parent_user))

pub remove_user-Keeps :
    (saved : Bool) (now : ℕ) (m : Manager) (key : Text)
    → IsSound m
    → Keeps (Accounts.remove_user saved now m key)
unfolding Accounts.remove_user
remove_user-Keeps saved now m key s =
    if_keeps Keeps (has key m.users) _ _ (λ _. flush-IsSound saved now (removed-IsSound m key s))
      (λ _. record { sound = s })

pub add_sts-IsSound :
    (now : ℕ) (m : Manager) (key secret parent : Text) (pol : Option Policy) (ttl : ℕ)
    → IsSound m
    → IsSound (Accounts.add_sts now m key secret parent pol ttl)
unfolding Accounts.add_sts
add_sts-IsSound now m key secret parent pol ttl s = record {
  root_apart = s.root_apart;
  user_secrets = s.user_secrets;
  account_secrets = s.account_secrets;
  parents = s.parents;
}
