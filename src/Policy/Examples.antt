-- ===== src/Policy/Examples.antt =====
-- Policies and requests on which the theorems about policy.go are run.
use gostore.Base.{
  Text, List, [], ◌∷◌, true, false, none, codes, ◌≡◌, ◌↔◌, refl, Any, text_eq, trim_prefix,
}
use gostore.Policy.{Policy, Statement, Args, Host, matches, is_allowed}
use gostore.Policy.Wildcard.{deep_match, wildcard_match}
use gostore.Policy.Wildcard.Matching.{Matches, wildcard_match_iff}
use gostore.Policy.Decision.{Denies, Grants, is_allowed_iff}

abbrev no_network : Host (Unit {0})
no_network = record {
  parse_ip = λ s. none;
  parse_cidr = λ s. none;
  equal_ip = λ a b. true;
  equal_fold = λ s t. text_eq s t;
}

abbrev statement : Text → Text → Text → Statement
statement effect action resource = record {
  effect = effect;
  principal = record { aws = []; raw = [] };
  action = action ∷ [];
  not_action = [];
  resource = resource ∷ [];
  condition = [];
}

abbrev photos : Policy
photos = record {
  version = codes "2012-10-17";
  id = [];
  statements =
      statement (codes "Allow") (codes "s3:*") (codes "arn:aws:s3:::photos/*")
      ∷ statement (codes "Deny") (codes "s3:Delete?bject") (codes "arn:aws:s3:::photos/*")
      ∷ [];
}

abbrev request : Text → Args
request action = record {
  account_name = codes "alice";
  action = action;
  bucket_name = codes "photos";
  object_name = codes "a.png";
  is_owner = false;
  source_ip = [];
  condition_values = [];
}

reads : is_allowed no_network photos (request (codes "s3:GetObject")) ≡ true
unfolding is_allowed matches deep_match wildcard_match text_eq trim_prefix
reads = refl

deletes_nothing : is_allowed no_network photos (request (codes "s3:DeleteObject")) ≡ false
unfolding is_allowed matches deep_match wildcard_match text_eq trim_prefix
deletes_nothing = refl

wildcard_match_iff_example :
    (wildcard_match (codes "s3:*") (codes "s3:Get") ≡ true)
    ↔ Matches (codes "s3:*") (codes "s3:Get")
wildcard_match_iff_example = wildcard_match_iff (codes "s3:*") (codes "s3:Get")

abbrev get_request : Args
get_request = request (codes "s3:GetObject")

is_allowed_iff_example : (is_allowed no_network photos get_request ≡ true) ↔ (
    (¬ Any (Denies no_network get_request) photos.statements)
    × Any (Grants no_network get_request) photos.statements)
is_allowed_iff_example = is_allowed_iff no_network get_request photos

abbrev here_and_there : List Text
here_and_there = codes "here" ∷ codes "there" ∷ []
