-- ===== src/Iam/Accounts/Integrity/Run.antt =====
-- internal/iam/iam.go: sequences of calls on the accounts.
use gostore.Base.{Text, List, [], ◌∷◌, Option}
use gostore.Policy.{Policy}
use gostore.Iam.{Manager}
use gostore.Iam.Accounts.Integrity.{
  Op, Call, dispatch, step, run, IsSound, add_user, remove_user, set_user_secret, set_user_status,
  set_policy, remove_policy, add_service_account, remove_service_account, add_sts,
}
use gostore.Iam.Accounts.Integrity.Operations.{
  add_user-Keeps, set_user_secret-Keeps, set_user_status-Keeps, set_policy-Keeps,
  remove_policy-Keeps, remove_service_account-Keeps, add_service_account-Keeps, remove_user-Keeps,
  add_sts-IsSound,
}

pub step-IsSound :
    (parse : Text → Option Policy) (m : Manager) (c : Call) → IsSound m → IsSound (step parse m c)
unfolding step dispatch
step-IsSound parse m c s = by_op c.op
  where
    by_op : (op : Op) → IsSound (dispatch parse c.saved c.now m op)
    by_op (add_user key secret policies) =
        (add_user-Keeps parse c.saved c.now m s key secret policies).sound
    by_op (remove_user key) = (remove_user-Keeps c.saved c.now m key s).sound
    by_op (set_user_secret key secret) =
        (set_user_secret-Keeps parse c.saved c.now m s key secret).sound
    by_op (set_user_status key status) =
        (set_user_status-Keeps parse c.saved c.now m s key status).sound
    by_op (set_policy name doc) = (set_policy-Keeps parse c.saved c.now m s name doc).sound
    by_op (remove_policy name) = (remove_policy-Keeps parse c.saved c.now m s name).sound
    by_op (add_service_account parent key secret doc) =
        (add_service_account-Keeps parse c.saved c.now m s parent key secret doc).sound
    by_op (remove_service_account key) =
        (remove_service_account-Keeps parse c.saved c.now m s key).sound
    by_op (add_sts key secret parent pol ttl) = add_sts-IsSound c.now m key secret parent pol ttl s

-- From a sound state, any calls with any outcomes of the writes lead to a sound state: the root key
-- is no user, the secret of every user and of every service account has at least 8 bytes, and every
-- service account hangs under the root account or under a user that exists. The secrets of the root
-- account and of temporary credentials are not constrained.
pub run-IsSound :
    (parse : Text → Option Policy) (m : Manager) (calls : List Call)
    → IsSound m
    → IsSound (run parse m calls)
unfolding run
run-IsSound parse m [] s = s
run-IsSound parse m (c ∷ cs) s = run-IsSound parse (step parse m c) cs (step-IsSound parse m c s)
