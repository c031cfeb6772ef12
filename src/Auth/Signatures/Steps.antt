-- ===== src/Auth/Signatures/Steps.antt =====
-- Proofs on verifyPresignedURL of internal/auth/sigv4.go, one function after the other.
use s.Prelude.{
  ℕ, ◌+◌, ◌*◌, ◌≡◌, ◌≤◌, ◌≢◌, refl, true, false, none, some, List, [], Text, text, text_eq,
  text_beq, if◌then◌else◌, ltb, ok, Elem, arith,
}
use s.Strings.{split}
use s.Lifecycle.Rules.{pos}
use s.Auth.Credentials.{Credentials, secrets, resolve_secrets}
use s.Auth.Requests.{
  access_denied, request_time_too_skewed, HttpRequest, Library, get, algorithm,
  build_canonical_request,
}
use s.Auth.Signatures.{
  Verifier, skew_exceeded, CredentialScope, parse_credential_scope, parse_amz_date,
  build_string_to_sign, sign_string, check_signature, verify_presigned_params, verify_presigned_url,
  verify_request, starts_empty,
}
use s.Auth.Signatures.Accepted.{try_secrets_some}

module _ (lib : Library) (v : Verifier) (creds : Credentials) (now : ℕ) (r : HttpRequest) where
  pub verify_request_presigned :
      v.store ≡ some creds
      → get (text "Authorization") r.headers ≡ []
      → get (text "X-Amz-Algorithm") r.query ≡ algorithm
      → verify_request lib v now r ≡ verify_presigned_url lib v creds now r
  unfolding verify_request text_beq verify_presigned_url
  verify_request_presigned there bare named =
      rw (there, verify_request) (rw (bare, verify_request) (rw (named, verify_request) refl))

  pub verify_presigned_url_dated :
      (at : ℕ)
      → get (text "X-Amz-Algorithm") r.query ≡ algorithm
      → parse_amz_date lib (get (text "X-Amz-Date") r.query) ≡ some at
      → verify_presigned_url lib v creds now r ≡ (
          if skew_exceeded v now at
          then (some request_time_too_skewed, r)
          else verify_presigned_params lib v creds now r at)
  unfolding verify_presigned_url
  verify_presigned_url_dated at named dated = ground (arith, text_eq.beq_iff algorithm algorithm)

  pub verify_presigned_params_lem :
      (at n : ℕ) (scope : CredentialScope) (names : List Text) (signature : Text)
      → lib.atoi (get (text "X-Amz-Expires") r.query) ≡ some (pos n)
      → 1 ≤ n
      → n ≤ 604800
      → parse_credential_scope (get (text "X-Amz-Credential") r.query) ≡ some scope
      → v.service ≡ scope.service
      → v.terminal ≡ scope.terminal
      → split 59 (get (text "X-Amz-SignedHeaders") r.query) ≡ names
      → starts_empty names ≡ false
      → get (text "X-Amz-Signature") r.query ≡ signature
      → signature ≢ []
      → verify_presigned_params lib v creds now r at ≡ (
          if ltb (at + n * 1000000000) now
          then (some access_denied, r)
          else check_signature lib scope names signature at true now creds r)
  unfolding verify_presigned_params
  verify_presigned_params_lem at n scope names signature lasts least most parsed s t h filled signed
        there =
      ground (
        arith,
        lasts,
        parsed,
        text_eq.beq_iff scope.service v.service,
        text_eq.beq_iff scope.terminal v.terminal,
        text_eq.beq_iff signature [],
        h,
        signed,
      )

  pub check_signature_some :
      (scope : CredentialScope) (names ss : List Text) (signature canonical secret : Text) (at : ℕ)
      → resolve_secrets scope.access_key_id now creds ≡ secrets ss
      → (build_canonical_request lib r names true).0 ≡ ok canonical
      → Elem secret ss
      → sign_string lib secret scope.date scope.region scope.service scope.terminal
          (build_string_to_sign lib at scope.raw canonical)
        ≡ signature
      → (check_signature lib scope names signature at true now creds r).0 ≡ none
  unfolding check_signature
  check_signature_some scope names ss signature canonical secret at resolved built member signed =
      rw (resolved, check_signature)
        (rw (built, check_signature)
          (try_secrets_some lib scope (build_string_to_sign lib at scope.raw canonical) signature
            secret ss member signed))
