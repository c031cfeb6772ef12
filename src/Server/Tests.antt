-- ===== src/Server/Tests.antt =====
-- Concrete requests for the handlers.
use s.Prelude.{
  ◌≡◌, ◌↔◌, ◌⊎◌, refl, true, false, Option, none, some, List, [], ◌∷◌, ◌++◌, Text, text, text_eq,
  text_beq, ◌==◌, if◌then◌else◌, any, arith,
}
use s.Dict.{Dict, lookup}
use s.Strings.{has_prefix, take, drop, split, trim_prefix, join}
use s.Metadata.Settings.{get_setting}
use s.Metadata.Model.{BucketWebsiteConfig}
use s.Metadata.State.{object_key_eq, empty_state}
use s.AuthFailures.{Protector, is_blocked, new_auth_failure_protector}
use s.Auth.Tokens.{Coding}
use s.Auth.Requests.{Library, get}
use s.Server.{
  Request, Given, bearer_token, client_identity_key, bucket_and_key, should_bypass_guards,
  parse_virtual_host_style, has_auth_material,
}
use s.Server.Policy.{PolicyStatement, allows, anonymous_policy_target, anonymous_policy_allows}
use s.Server.Policy.Deny.{speaks, allows_iff}
use s.Server.Gate.{
  Options, is_public_website_request, next, refuse, slow_down, denied, auth_gate, unblocked_gate,
  signature_gate,
}
use s.Server.Gate.Passed.{IsBearer, IsAnonymous, IsVerified, auth_gate_next}
use s.Server.Gate.Blocked.{IsFailure, auth_gate_refuse}
use s.Server.Dispatch.{
  website_or_s3, s3, website_or_s3_handler, get_website, get_cors, get_policy, has_query_flag,
  bucket_operation, route,
}
use s.Server.Dispatch.Anonymous.{reads, bucket_operation-anonymous}
use s.Server.Dispatch.Unguarded.{auth_gate_app}
use s.Server.Sse.{Stream, write_encrypted, read_encrypted, checked_range}
use s.Server.Sse.Roundtrip.{IsStream, read_encrypted-write}

abbrev lib : Library
lib = record {
  parse_time = λ s. none;
  format_time = λ t. [];
  format_date = λ t. [];
  trim_space = λ s. s;
  to_lower = λ s. s;
  equal_fold = λ a b. a == b;
  fields = λ s. s ∷ [];
  canonical_key = λ s. s;
  atoi = λ s. none;
  itoa = λ n. n ∷ [];
  query_escape = λ s. s;
  sha256 = λ s. s;
  hmac_sha256 = λ k s. s;
  hex = λ s. s;
}

abbrev coding : Coding
coding = record {
  encode_claims = λ c. none;
  decode_claims = λ s. none;
  sign_payload = λ payload k. payload;
  fingerprint = λ s. s;
  trim_space = λ s. s;
}

abbrev given : Given
given = record { lib = lib; coding = coding; split_host_port = λ s. none }

abbrev no_statements : Text → Option (List PolicyStatement)
no_statements document = none

abbrev request : Text → Dict Text (List Text) → Request
request path query = record {
  http = record {
    method = text "GET";
    path = path;
    escaped_path = path;
    query = query;
    host = [];
    url_host = [];
    headers = [];
  };
  remote_addr = text "client";
  principal = [];
}

abbrev opts : Options
opts = record {
  domain = [];
  metadata = none;
  metrics_path = text "/metrics";
  pat_manager = none;
  pat_signing_key = [];
  verifier = none;
}

abbrev protector : Protector
protector = new_auth_failure_protector 3 10 20

-- the settings of a bucket whose website is public
abbrev site : BucketWebsiteConfig
site = record {
  bucket = text "pics";
  index_document = text "index.html";
  error_document = [];
  redirect_all_host = [];
  redirect_all_protocol = [];
  routing_rules = [];
  enabled = true;
  public_read = true;
}

abbrev with_site : Options
with_site = record opts {
  metadata = some (record (empty_state []) { websites = (text "pics", site) ∷ [] });
}

abbrev page : Request
page = request (text "/pics/cat") []

passes :
    (auth_gate given no_statements with_site 5 page protector).0
    ≡ next (record page { principal = text "anonymous" })
unfolding auth_gate unblocked_gate signature_gate should_bypass_guards is_blocked
    new_auth_failure_protector lookup bearer_token has_auth_material get has_prefix text_beq
    anonymous_policy_allows is_public_website_request empty_state bucket_and_key split trim_prefix
    join get_setting
passes = refl

auth_gate_next_example :
    ((should_bypass_guards page.http.path with_site.metrics_path ≡ true)
      × (record page { principal = text "anonymous" } ≡ page))
    ⊎ (((is_blocked (client_identity_key given page) 5 protector).0 ≡ false)
        × (IsBearer given no_statements with_site 5 page
              (record page { principal = text "anonymous" })
            ⊎ (IsAnonymous given no_statements with_site 5 page
                  (record page { principal = text "anonymous" })
                ⊎ IsVerified given no_statements with_site 5 page
                    (record page { principal = text "anonymous" }))))
auth_gate_next_example =
    auth_gate_next given no_statements with_site 5 page protector
      (record page { principal = text "anonymous" }) passes

abbrev cat : Request
cat = request (text "/pics/cat") []

abbrev after_cat : Protector
after_cat = (auth_gate given no_statements opts 5 cat protector).1

refused : auth_gate given no_statements opts 5 cat protector ≡ (refuse denied, after_cat)
unfolding auth_gate unblocked_gate signature_gate should_bypass_guards is_blocked
    new_auth_failure_protector lookup bearer_token has_auth_material get has_prefix text_beq
    anonymous_policy_allows
refused = refl

auth_gate_refuse_example :
    (((is_blocked (client_identity_key given cat) 5 protector).0 ≡ true) × (denied ≡ slow_down))
    ⊎ (((is_blocked (client_identity_key given cat) 5 protector).0 ≡ false)
        × (IsFailure given no_statements opts 5 cat
              (client_identity_key given cat)
              (is_blocked (client_identity_key given cat) 5 protector).1
              denied
              after_cat
            ⊎ ((opts.verifier ≡ none)
                × (denied ≡ denied)
                × (after_cat ≡ (is_blocked (client_identity_key given cat) 5 protector).1))))
auth_gate_refuse_example =
    auth_gate_refuse given no_statements opts 5 cat protector after_cat denied refused

abbrev apples : Request
apples = request (text "/apples/red") []

auth_gate_app_example :
    (auth_gate given no_statements opts 5 apples protector ≡ (next apples, protector))
    × (route (λ p. p) apples.http.method apples.http.escaped_path opts.metrics_path ≡ website_or_s3)
    × (website_or_s3_handler given no_statements apples opts ≡ s3)
    × (bucket_and_key given apples opts.domain ≡ some (text "app" ++ text "les", text "red"))
unfolding parse_virtual_host_style is_public_website_request text_beq
auth_gate_app_example =
    auth_gate_app given no_statements (λ p. p) opts 5 apples protector 108 (text "es") (text "red")
      (λ e. ground arith) (refl, (refl, (refl, tt))) (λ e. ground arith) refl refl refl refl
      (λ e. ground arith) refl

abbrev list_policy : Request
list_policy =
    request (text "/pics") ((text "list-type", text "2" ∷ []) ∷ (text "policy", [] ∷ []) ∷ [])

bucket_operation-anonymous_example :
    (reads (bucket_operation list_policy.http.method list_policy.http.query) ≡ true)
    × (text "s3:ListBucket" ≡ text "s3:ListBucket")
    × (bucket_operation list_policy.http.method list_policy.http.query ≡ (
        if has_query_flag list_policy.http.query (text "website")
        then get_website
        else if has_query_flag list_policy.http.query (text "cors")
        then get_cors
        else if has_query_flag list_policy.http.query (text "policy")
        then get_policy
        else bucket_operation (text "GET") list_policy.http.query))
unfolding anonymous_policy_target get lookup text_beq
bucket_operation-anonymous_example =
    bucket_operation-anonymous given no_statements list_policy (text "pics") (text "s3:ListBucket")
      (text "arn:aws:s3:::" ++ text "pics") refl

abbrev for_all : Text → PolicyStatement
for_all effect = record {
  effect = effect;
  principal = text "*" ∷ [];
  action = text "s3:*" ∷ [];
  resource = text "*" ∷ [];
}

abbrev both : List PolicyStatement
both = for_all (text "Allow") ∷ for_all (text "Deny") ∷ []

allows_iff_example : (allows (λ a b. a == b) (text "s3:GetObject") (text "x") false both ≡ true) ↔ (
    (any (speaks (λ a b. a == b) (text "s3:GetObject") (text "x") (text "Allow")) both ≡ true)
    × (any (speaks (λ a b. a == b) (text "s3:GetObject") (text "x") (text "Deny")) both ≡ false))
allows_iff_example = allows_iff (λ a b. a == b) (text "s3:GetObject") (text "x") both

-- A stream that leaves every byte as it is.
abbrev still : Stream
still = record { at = λ iv i. 0; xor = λ b k. b }

still-IsStream : IsStream still
still-IsStream = record { back = λ b k. refl; counts = λ iv iv' blocks turns i h h' e. refl }

abbrev vector : Text
vector = 1 ∷ 2 ∷ 3 ∷ 4 ∷ 5 ∷ 6 ∷ 7 ∷ 8 ∷ 9 ∷ 10 ∷ 11 ∷ 12 ∷ 13 ∷ 14 ∷ 15 ∷ 16 ∷ []

read_encrypted-write_example :
    read_encrypted still 32 (write_encrypted still vector (text "hello")) 5 (some (1, 3))
    ≡ some (take 3 (drop 1 (text "hello")))
unfolding checked_range
read_encrypted-write_example =
    read_encrypted-write still still-IsStream vector (text "hello") (some (1, 3)) refl
