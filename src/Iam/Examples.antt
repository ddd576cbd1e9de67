-- ===== src/Iam/Examples.antt =====
-- A manager with a user, a service account and two policies, on which the theorems are run.
use gostore.Base.{
  Text, List, [], ◌∷◌, true, false, Option, none, codes, ◌≡◌, ◌≢◌, ◌↔◌, inr, refl, lookup, text_eq,
  trim_prefix, arith,
}
use gostore.Policy
use gostore.Policy.{Policy, Host, Args}
use gostore.Policy.Wildcard.{deep_match, wildcard_match}
use gostore.Iam.{UserRec, SvcAcctRec, Manager, resolve, identity, is_allowed}
use gostore.Iam.Cache.{IsCoherent}
use gostore.Iam.Access.{answer}
use gostore.Iam.Accounts.{remove_user}
use gostore.Iam.Granted.{Granted, is_allowed-Granted}
use gostore.Iam.Accounts.Integrity.{Op, Call, IsSound, run}
use gostore.Iam.Accounts.Integrity.Run.{run-IsSound}

abbrev no_network : Host (Unit {0})
no_network = record {
  parse_ip = λ s. none;
  parse_cidr = λ s. none;
  equal_ip = λ a b. true;
  equal_fold = λ s t. text_eq s t;
}

abbrev one_statement : Text → Text → Policy
one_statement effect action = record {
  version = codes "2012-10-17";
  id = [];
  statements =
      record {
        effect = effect;
        principal = record { aws = []; raw = [] };
        action = action ∷ [];
        not_action = [];
        resource = codes "arn:aws:s3:::*" ∷ [];
        condition = [];
      }
      ∷ [];
}

abbrev no_json : Text → Option Policy
no_json doc = none

abbrev alice : UserRec
alice = record {
  secret_key = codes "alice-secret";
  policies = codes "readwrite" ∷ codes "nodelete" ∷ [];
  status = codes "enabled";
}

abbrev worker : SvcAcctRec
worker = record {
  secret_key = codes "worker-secret";
  parent_user = codes "alice";
  inline_policy = [];
  status = codes "enabled";
}

abbrev manager : Manager
manager = record {
  root_access = codes "root";
  root_secret = codes "root-secret";
  users = (codes "alice", alice) ∷ [];
  svc_accts = (codes "worker", worker) ∷ [];
  custom = (codes "nodelete", one_statement (codes "Deny") (codes "s3:DeleteObject")) ∷ [];
  builtin = (codes "readwrite", one_statement (codes "Allow") (codes "s3:*")) ∷ [];
  sts = [];
  inline_cache = [];
  last_sync = 0;
}

abbrev delete_request : Args
delete_request = record {
  account_name = [];
  action = codes "s3:DeleteObject";
  bucket_name = codes "photos";
  object_name = codes "a.png";
  is_owner = false;
  source_ip = [];
  condition_values = [];
}

-- The second policy of alice denies what the first allows, and she is allowed.
denied_and_allowed :
    (is_allowed no_network no_json manager 0 (codes "alice") delete_request).0 ≡ true
unfolding is_allowed identity resolve Policy.is_allowed Policy.matches deep_match wildcard_match
    text_eq trim_prefix lookup
denied_and_allowed = refl

empty_cache : IsCoherent no_json []
unfolding lookup
empty_cache = record { parsed = λ key e p. absurd (cc) }

not_root : codes "alice" ≢ codes "root"
not_root e = ground arith

is_allowed-Granted_example :
    (answer no_network no_json manager 0 (codes "alice") delete_request ≡ true)
    ↔ Granted no_network no_json manager 0 (codes "alice") delete_request
is_allowed-Granted_example =
    is_allowed-Granted no_network no_json manager 0 (codes "alice") delete_request empty_cache

nobody_not_root : codes "nobody" ≢ codes "root"
nobody_not_root e = ground arith

abbrev other : SvcAcctRec
other = record worker { parent_user = codes "root" }

abbrev two_accounts : Manager
two_accounts = record manager { svc_accts = (codes "backup", other) ∷ manager.svc_accts }

manager-IsSound : IsSound manager
unfolding lookup text_eq
manager-IsSound = record {
  root_apart = refl;
  user_secrets = omega arith;
  account_secrets = omega arith;
  parents = (inr refl, tt);
}

abbrev calls : List Call
calls =
    record {
      op = Op.add_service_account (codes "alice") (codes "robot") (codes "robot-secret") [];
      saved = true;
      now = 5;
    }
    ∷ record { op = Op.remove_user (codes "alice"); saved = false; now = 6 }
    ∷ []

run-IsSound_example : IsSound (run no_json manager calls)
run-IsSound_example = run-IsSound no_json manager calls manager-IsSound
