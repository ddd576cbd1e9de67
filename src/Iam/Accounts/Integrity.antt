-- ===== src/Iam/Accounts/Integrity.antt =====
-- Calls of the operations on the accounts of internal/iam, in any order, and what they must keep.
pub mod Operations
pub mod Run
use gostore.Base.{
  any, codes, ◌||◌, if_keeps, option_keeps, ℕ, Text, List, [], ◌∷◌, Bool, true, false, not, Option,
  none, some, Assoc, lookup, insert, delete, has, lookup-insert, lookup-delete, text_eq,
  text_eq_iff, ◌≡◌, ◌≢◌, refl, arith, if◌then◌else◌, Bool-cases, Option-cases, inl, inr, ltb, ◌≤◌,
  length, ◌⊎◌, All, All-map, All-insert, All-delete, lookup-All, ◌&&◌, subst, sym, ap,
}
use gostore.Policy.{Policy}
use gostore.Iam.{Error, UserRec, SvcAcctRec, Manager, flush}
use gostore.Iam
use gostore.Iam.Accounts
use gostore.Iam.Accounts.{drop_children, too_short, is_missing, has_bad_char}

pub data Op : Type 0 where
  add_user : Text → Text → List Text → Op
  remove_user : Text → Op
  set_user_secret : Text → Text → Op
  set_user_status : Text → Text → Op
  set_policy : Text → Text → Op
  remove_policy : Text → Op
  add_service_account : Text → Text → Text → Text → Op
  remove_service_account : Text → Op
  add_sts : Text → Text → Text → Option Policy → ℕ → Op

-- One call, at a time and with a store that takes the write or not.
pub record Call : Type 0 where
  pub op : Op
  pub saved : Bool
  pub now : ℕ

unfoldable pub dispatch : (Text → Option Policy) → Bool → ℕ → Manager → Op → Manager
dispatch parse saved now m (add_user key secret policies) =
    (Accounts.add_user saved now m key secret policies).0
dispatch parse saved now m (remove_user key) = (Accounts.remove_user saved now m key).0
dispatch parse saved now m (set_user_secret key secret) =
    (Accounts.set_user_secret saved now m key secret).0
dispatch parse saved now m (set_user_status key status) =
    (Accounts.set_user_status saved now m key status).0
dispatch parse saved now m (set_policy name doc) =
    (Accounts.set_policy saved now m parse name doc).0
dispatch parse saved now m (remove_policy name) = (Accounts.remove_policy saved now m name).0
dispatch parse saved now m (add_service_account parent key secret doc) =
    (Accounts.add_service_account saved now m parse parent key secret doc).0
dispatch parse saved now m (remove_service_account key) =
    (Accounts.remove_service_account saved now m key).0
dispatch parse saved now m (add_sts key secret parent pol ttl) =
    Accounts.add_sts now m key secret parent pol ttl

unfoldable pub step : (Text → Option Policy) → Manager → Call → Manager
unfolding dispatch
step parse m c = dispatch parse c.saved c.now m c.op

unfoldable pub run : (Text → Option Policy) → Manager → List Call → Manager
unfolding step
run parse m [] = m
run parse m (c ∷ cs) = run parse (step parse m c) cs

abbrev pub HasParent : Manager → SvcAcctRec → Type 0
HasParent m s = (s.parent_user ≡ m.root_access) ⊎ (has s.parent_user m.users ≡ true)

-- The root account is no user, the secrets of users and of service accounts have at least 8 bytes, and
-- every service account hangs under the root account or under a user that exists.
pub record IsSound (m : Manager) : Type 0 where
  pub root_apart : has m.root_access m.users ≡ false
  pub user_secrets : All (λ e. 8 ≤ length e.1.secret_key) m.users
  pub account_secrets : All (λ e. 8 ≤ length e.1.secret_key) m.svc_accts
  pub parents : All (λ e. HasParent m e.1) m.svc_accts
