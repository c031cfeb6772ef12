-- ===== src/Server/Gate/Blocked.antt =====
-- Proofs on withAuthGate of internal/server/middleware.go: the requests that are refused.
use s.Prelude.{
  ℕ, ◌≡◌, ◌⊎◌, inl, inr, true, false, not, ◌&&◌, Option, none, some, List, Text, arith,
  Option-cases, Outcome-cases, Bool-cases,
}
use s.AuthFailures.{Protector, is_blocked, record_failure}
use s.Auth.Requests.{
  SignatureError, HttpRequest, missing_authentication_token, invalid_access_key_id,
  signature_does_not_match, request_time_too_skewed, invalid_request, access_denied,
}
use s.Auth.Signatures.{verify_request}
use s.Server.{
  Request, Given, bearer_token, authorization, client_identity_key, has_auth_material,
  should_bypass_guards,
}
use s.Server.Policy.{PolicyStatement, anonymous_policy_allows}
use s.Server.Gate.{
  Options, ErrorSpec, refuse, slow_down, denied, map_auth_error_to_s3, is_public_website_request,
  verify_bearer, bearer_gate, verdict_of, signature_gate, unblocked_gate, auth_gate,
}

module _ (given : Given) (statements : Text → Option (List PolicyStatement)) (opts : Options)
    (now : ℕ) (r : Request) where
  -- The credentials are refused with 403, and a failure is recorded.
  abbrev pub IsFailure : Text → Protector → ErrorSpec → Protector → Type 0
  IsFailure identity p spec p' = (spec.status_code ≡ 403) × (p' ≡ record_failure identity now p)

  verdict_of_refuse :
      (answer : Option SignatureError × HttpRequest) (identity : Text) (p p' : Protector)
      (spec : ErrorSpec)
      → verdict_of given statements answer identity now r p ≡ (refuse spec, p')
      → IsFailure identity p spec p'
  unfolding verdict_of map_auth_error_to_s3
  verdict_of_refuse (none, http) identity p p' spec h = absurd (ground arith)
  verdict_of_refuse (some missing_authentication_token, http) identity p p' spec h = ground arith
  verdict_of_refuse (some invalid_access_key_id, http) identity p p' spec h = ground arith
  verdict_of_refuse (some signature_does_not_match, http) identity p p' spec h = ground arith
  verdict_of_refuse (some request_time_too_skewed, http) identity p p' spec h = ground arith
  verdict_of_refuse (some invalid_request, http) identity p p' spec h = ground arith
  verdict_of_refuse (some access_denied, http) identity p p' spec h = ground arith

  bearer_gate_refuse :
      (token identity : Text) (p p' : Protector) (spec : ErrorSpec)
      → bearer_gate given statements token identity opts now r p ≡ (refuse spec, p')
      → IsFailure identity p spec p'
  unfolding bearer_gate
  bearer_gate_refuse token identity p p' spec h =
      elim (Outcome-cases (verify_bearer given statements token now opts)) [
        | inl (subject, fine) ↦ absurd (ground arith)
        | inr (e, bad) ↦ ground arith
      ]

  signature_gate_refuse :
      (identity : Text) (p p' : Protector) (spec : ErrorSpec)
      → signature_gate given statements identity opts now r p ≡ (refuse spec, p')
      → IsFailure identity p spec p' ⊎ ((opts.verifier ≡ none) × (spec ≡ denied) × (p' ≡ p))
  unfolding signature_gate
  signature_gate_refuse identity p p' spec h = elim (Option-cases opts.verifier) [
    | inl missing ↦ inr (missing, ground arith, ground arith)
    | inr (v, there) ↦ inl (
        verdict_of_refuse (verify_request given.lib v now r.http) identity p p' spec (ground arith))
  ]

  unblocked_gate_refuse :
      (identity : Text) (p p' : Protector) (spec : ErrorSpec)
      → unblocked_gate given statements identity opts now r p ≡ (refuse spec, p')
      → IsFailure identity p spec p' ⊎ ((opts.verifier ≡ none) × (spec ≡ denied) × (p' ≡ p))
  unfolding unblocked_gate
  unblocked_gate_refuse identity p p' spec h =
      elim (Option-cases (bearer_token given (authorization given r))) [
        | inr (token, carried) ↦ inl (bearer_gate_refuse token identity p p' spec (ground arith))
        | inl plain ↦
            elim (Bool-cases (
              not (has_auth_material given r)
              && anonymous_policy_allows given statements r opts.domain opts.metadata)) [
                | inl allowed ↦ absurd (ground arith)
                | inr closed ↦
                    elim (Bool-cases (
                      not (has_auth_material given r)
                      && is_public_website_request given statements r opts)) [
                        | inl site ↦ absurd (ground arith)
                        | inr private ↦ signature_gate_refuse identity p p' spec (ground arith)
                      ]
              ]
      ]

  -- A refusal is one of three: the identity is blocked, and the answer is 503; or the credentials
  -- are refused with 403, and a failure of the identity is recorded; or no verifier is set, and the
  -- answer is 403 without a record. In the last two the identity was not blocked.
  pub auth_gate_refuse :
      (p p' : Protector) (spec : ErrorSpec)
      → auth_gate given statements opts now r p ≡ (refuse spec, p')
      → (((is_blocked (client_identity_key given r) now p).0 ≡ true) × (spec ≡ slow_down))
        ⊎ (((is_blocked (client_identity_key given r) now p).0 ≡ false)
            × (IsFailure
                  (client_identity_key given r)
                  (is_blocked (client_identity_key given r) now p).1
                  spec
                  p'
                ⊎ ((opts.verifier ≡ none)
                    × (spec ≡ denied)
                    × (p' ≡ (is_blocked (client_identity_key given r) now p).1))))
  unfolding auth_gate
  auth_gate_refuse p p' spec h =
      elim (Bool-cases (should_bypass_guards r.http.path opts.metrics_path)) [
        | inl free ↦ absurd (ground arith)
        | inr guarded ↦ elim (Bool-cases (is_blocked (client_identity_key given r) now p).0) [
          | inl blocked ↦ inl (blocked, ground arith)
          | inr clear ↦ inr (
            clear,
            unblocked_gate_refuse (client_identity_key given r)
                (is_blocked (client_identity_key given r) now p).1 p' spec (ground arith),
          )
        ]
      ]
