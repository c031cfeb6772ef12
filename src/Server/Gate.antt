-- ===== src/Server/Gate.antt =====
-- internal/server/middleware.go: `withAuthGate`, with the protector that `NewHandler` sets. One request
-- sees one time; audit events are not modelled.
pub mod Passed
pub mod Blocked
use s.Prelude.{
  ℕ, Bool, true, false, not, ◌&&◌, ◌||◌, Option, none, some, List, [], ◌∷◌, ◌++◌, Text, text,
  text_eq, ◌==◌, if◌then◌else◌, Outcome, ok, err, is_some,
}
use s.Dict.{lookup}
use s.Metadata.Model.{BucketWebsiteConfig}
use s.Metadata.State.{MemoryState, StoreError}
use s.Metadata.Settings.{get_setting, website_table}
use s.Auth.Tokens.{TokenManager, TokenError, verify_token, verify_issued}
use s.Auth.Requests.{
  SignatureError, missing_authentication_token, invalid_access_key_id, signature_does_not_match,
  request_time_too_skewed, invalid_request, access_denied, HttpRequest,
}
use s.Auth.Signatures.{Verifier, verify_request}
use s.AuthFailures.{Protector, is_blocked, record_failure, record_success}
use s.Server.{
  Request, Given, bearer_token, authorization, extract_principal_id, client_identity_key,
  has_auth_material, bucket_and_key, should_bypass_guards,
}
use s.Server.Policy.{PolicyStatement, anonymous_policy_allows}

pub record Options : Type 0 where
  pub domain : Text
  pub metadata : Option MemoryState
  pub metrics_path : Text
  pub pat_manager : Option TokenManager
  pub pat_signing_key : Text
  pub verifier : Option Verifier

-- The status and the code of an error response.
pub record ErrorSpec : Type 0 where
  pub status_code : ℕ
  pub code : Text

-- What the gate does: it calls the next handler with a request, or writes an error.
pub data Verdict : Type 0 where
  next : Request → Verdict
  refuse : ErrorSpec → Verdict

abbrev pub slow_down : ErrorSpec
slow_down = record { status_code = 503; code = text "SlowDown" }

abbrev pub denied : ErrorSpec
denied = record { status_code = 403; code = text "AccessDenied" }

unfoldable pub map_auth_error_to_s3 : SignatureError → ErrorSpec
map_auth_error_to_s3 missing_authentication_token = record {
  status_code = 403;
  code = text "MissingAuthenticationToken";
}
map_auth_error_to_s3 invalid_access_key_id = record {
  status_code = 403;
  code = text "InvalidAccessKeyId";
}
map_auth_error_to_s3 signature_does_not_match = record {
  status_code = 403;
  code = text "SignatureDoesNotMatch";
}
map_auth_error_to_s3 request_time_too_skewed = record {
  status_code = 403;
  code = text "RequestTimeTooSkewed";
}
map_auth_error_to_s3 invalid_request = record { status_code = 403; code = text "InvalidRequest" }
map_auth_error_to_s3 access_denied = denied

module _ (given : Given) (statements : Text → Option (List PolicyStatement)) where
  abbrev pub is_public : Outcome StoreError BucketWebsiteConfig → Bool
  is_public (err e) = false
  is_public (ok cfg) = cfg.enabled && cfg.public_read

  unfoldable pub is_public_website_request : Request → Options → Bool
  is_public_website_request r opts = elim opts.metadata [
    | none ↦ false
    | some st ↦
        if not (r.http.method == text "GET") && not (r.http.method == text "HEAD")
        then false
        else if is_some (lookup (text "website") r.http.query)
        then false
        else elim (bucket_and_key given r opts.domain) [
          | none ↦ false
          | some (bucket, key) ↦
              if bucket == [] then false else is_public (get_setting website_table bucket st)
        ]
  ]

  -- the token is checked by the manager, or without one by the key alone
  unfoldable pub verify_bearer : Text → ℕ → Options → Outcome TokenError Text
  verify_bearer token now opts = elim opts.pat_manager [
    | some manager ↦ verify_issued given.coding token now manager
    | none ↦ verify_token given.coding token opts.pat_signing_key now
  ]

  abbrev pub with_principal : Text → Request → Request
  with_principal principal r = record r { principal = principal }

  -- a request with a bearer token
  unfoldable pub bearer_gate : Text → Text → Options → ℕ → Request → Protector → Verdict × Protector
  unfolding verify_bearer
  bearer_gate token identity opts now r p = elim (verify_bearer token now opts) [
    | err e ↦ (refuse denied, record_failure identity now p)
    | ok subject ↦ (next (with_principal subject r), record_success identity p)
  ]

  -- what the verifier answers
  unfoldable pub verdict_of :
      Option SignatureError × HttpRequest → Text → ℕ → Request → Protector → Verdict × Protector
  unfolding map_auth_error_to_s3
  verdict_of (some e, http) identity now r p =
      (refuse (map_auth_error_to_s3 e), record_failure identity now p)
  verdict_of (none, http) identity now r p =
      let r' : Request = record r { http = http } in
      (next (with_principal (extract_principal_id given r') r'), record_success identity p)

  unfoldable pub signature_gate : Text → Options → ℕ → Request → Protector → Verdict × Protector
  unfolding verdict_of
  signature_gate identity opts now r p = elim opts.verifier [
    | none ↦ (refuse denied, p)
    | some verifier ↦ verdict_of (verify_request given.lib verifier now r.http) identity now r p
  ]

  -- what follows the check of the protector
  unfoldable pub unblocked_gate : Text → Options → ℕ → Request → Protector → Verdict × Protector
  unfolding bearer_gate signature_gate is_public_website_request
  unblocked_gate identity opts now r p = elim (bearer_token given (authorization given r)) [
    | some token ↦ bearer_gate token identity opts now r p
    | none ↦
        if not (has_auth_material given r)
          && anonymous_policy_allows given statements r opts.domain opts.metadata
        then (next (with_principal (text "anonymous") r), p)
        else if not (has_auth_material given r) && is_public_website_request r opts
        then (next (with_principal (text "anonymous") r), p)
        else signature_gate identity opts now r p
  ]

  unfoldable pub auth_gate : Options → ℕ → Request → Protector → Verdict × Protector
  unfolding unblocked_gate
  auth_gate opts now r p =
      let identity = client_identity_key given r in
      let checked = is_blocked identity now p in
      if should_bypass_guards r.http.path opts.metrics_path
      then (next r, p)
      else if checked.0
      then (refuse slow_down, checked.1)
      else unblocked_gate identity opts now r checked.1
