-- ===== src/Iam/Accounts/Revocation.antt =====
-- internal/iam/iam.go: the credentials after an account is added, removed or disabled.
use gostore.Base.{
  ℕ, Text, List, [], ◌∷◌, Bool, none, some, Assoc, lookup, lookup-insert, text_eq, text_eq_iff,
  text_eq_refl, text_eq-ne, ◌≡◌, ◌≢◌, arith, ◌≤◌, length, codes, ◌⊎◌,
}
use gostore.Iam.{UserRec, SvcAcctRec, Manager, lookup_secret}
use gostore.Iam.Accounts.{add_user, set_user_status, drop_children}

pub lookup-drop_children :
    (parent k : Text) (s : SvcAcctRec) (m : Assoc SvcAcctRec)
    → lookup k m ≡ some s
    → s.parent_user ≢ parent
    → lookup k (drop_children parent m) ≡ some s
unfolding drop_children lookup
lookup-drop_children parent k s [] e n = cc
lookup-drop_children parent k s ((j, t) ∷ m) e n =
    ground
      (arith, text_eq_iff t.parent_user parent, text_eq_iff j k, lookup-drop_children parent k s m)

module _ (saved : Bool) (now : ℕ) (m : Manager) (key : Text) where
  -- A user that is disabled has no secret any more, unless another table has the key too.
  pub lookup_secret-disabled :
      (later : ℕ) (u : UserRec)
      → lookup key m.users ≡ some u
      → key ≢ m.root_access
      → lookup key m.svc_accts ≡ none
      → lookup key m.sts ≡ none
      → lookup_secret (set_user_status saved now m key (codes "disabled")).0 later key ≡ none
  unfolding set_user_status lookup_secret text_eq
  lookup_secret-disabled later u e n f g = ground (
    arith,
    text_eq-ne _ _ n,
    text_eq_refl key,
    lookup-insert key key (record u { status = codes "disabled" }) m.users,
  )

  -- A user that is added has a key of at least 3 bytes, which is not the root's, and a secret of at least 8; the secret is found under the key from then on, and the other users are as they were.
  pub add_user_lem :
      (secret : Text) (policies : List Text) (later : ℕ) (j : Text)
      → (add_user saved now m key secret policies).1 ≡ none
      → let m' = (add_user saved now m key secret policies).0 in
        (3 ≤ length key)
        × (8 ≤ length secret)
        × (key ≢ m.root_access)
        × (lookup_secret m' later key ≡ some secret)
        × ((key ≡ j) ⊎ (lookup j m'.users ≡ lookup j m.users))
  unfolding add_user lookup_secret text_eq
  add_user_lem secret policies later j h =
      let added : UserRec = record {
        secret_key = secret;
        policies = policies;
        status = codes "enabled";
      } in
      (
        ground arith,
        ground arith,
        ground (arith, text_eq_iff key m.root_access),
        ground (arith, text_eq_refl key, lookup-insert key key added m.users),
        ground (arith, text_eq_iff key j, lookup-insert key j added m.users),
      )
