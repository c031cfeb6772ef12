-- ===== src/Auth/Signatures/Accepted.antt =====
-- Proofs on VerifyRequest of internal/auth/sigv4.go: the requests that are accepted.
use s.Prelude.{
  ℕ, ◌+◌, ◌-◌, ◌^◌, ◌<◌, ◌*◌, ◌≡◌, ◌≤◌, ◌⊎◌, inl, inr, refl, sym, Bool, true, false, none, some,
  List, [], ◌∷◌, Text, text, text_eq, ◌==◌, ok, Elem, arith, Option-cases, Outcome-cases,
  Bool-cases,
}
use s.Strings.{split}
use s.Lifecycle.Rules.{pos, neg}
use s.Auth.Credentials.{Credentials, Resolved, unknown, disabled, secrets, resolve_secrets}
use s.Auth.Requests.{HttpRequest, Library, get, build_canonical_request}
use s.Auth.Signatures.Skew.{skew_exceeded_iff}
use s.Auth.Signatures.{
  Verifier, skew_exceeded, CredentialScope, AuthHeader, parse_credential_scope,
  parse_authorization_header, parse_amz_date, build_string_to_sign, sign_string, try_secrets,
  check_signature, verify_header_auth, verify_presigned_params, verify_presigned_url,
  verify_request,
}

-- The signature is that of the request, at a time, by a secret that holds now for the scope's key.
pub record IsSigned (lib : Library) (creds : Credentials) (now : ℕ) (r : HttpRequest)
    (scope : CredentialScope) (signed_headers : List Text) (signature : Text) (at : ℕ)
    (presigned : Bool) : Type 0 where
  pub live : List Text
  pub resolved : resolve_secrets scope.access_key_id now creds ≡ secrets live
  pub secret : Text
  pub is_live : Elem secret live
  pub canonical : Text
  pub built : (build_canonical_request lib r signed_headers presigned).0 ≡ ok canonical
  pub signed :
      signature
      ≡ sign_string lib secret scope.date scope.region scope.service scope.terminal
          (build_string_to_sign lib at scope.raw canonical)

near_of :
    (v : Verifier) (max now at : ℕ)
    → v.max_skew ≡ pos max
    → max < 2 ^ 63 - 1
    → skew_exceeded v now at ≡ false
    → ((now ≤ at + max) × (at ≤ now + max)) ⊎ (now + 2 ^ 63 ≤ at)
near_of v max now at limit small e = ground (arith, skew_exceeded_iff v max now at limit small)

-- The time of the request is within the limit, or 2^63 nanoseconds ahead and more; and its scope is for
-- the verifier.
pub record IsMeant (v : Verifier) (max now at : ℕ) (scope : CredentialScope) : Type 0 where
  pub near : ((now ≤ at + max) × (at ≤ now + max)) ⊎ (now + 2 ^ 63 ≤ at)
  pub its_service : scope.service ≡ v.service
  pub its_terminal : scope.terminal ≡ v.terminal

module _ (lib : Library) where
  pub try_secrets-none :
      (scope : CredentialScope) (s signature : Text) (ss : List Text)
      → try_secrets lib scope s signature ss ≡ none
      → (secret : Text) × Elem secret ss
        × (signature
            ≡ sign_string lib secret scope.date scope.region scope.service scope.terminal s)
  unfolding try_secrets
  try_secrets-none scope s signature [] h = absurd (ground arith)
  try_secrets-none scope s signature (secret ∷ ss) h =
      let mine = sign_string lib secret scope.date scope.region scope.service scope.terminal s in
      elim (Bool-cases (mine == signature)) [
        | inl same ↦ (secret, inl refl, sym ((text_eq.beq_iff mine signature).0 same))
        | inr other ↦
            let (found, member, e) = try_secrets-none scope s signature ss (rw other at h) in
            (found, inr member, e)
      ]

  pub try_secrets_some :
      (scope : CredentialScope) (s signature secret : Text) (ss : List Text)
      → Elem secret ss
      → sign_string lib secret scope.date scope.region scope.service scope.terminal s ≡ signature
      → try_secrets lib scope s signature ss ≡ none
  unfolding try_secrets
  try_secrets_some scope s signature secret [] member e = elim member [ ]
  try_secrets_some scope s signature secret (first ∷ ss) (inl same) e =
      let mine = sign_string lib secret scope.date scope.region scope.service scope.terminal s in
      rw (sym same) (rw ((text_eq.beq_iff mine signature).1 e) refl)
  try_secrets_some scope s signature secret (first ∷ ss) (inr member) e =
      ground (arith, try_secrets_some scope s signature secret ss member e)

  module _ (creds : Credentials) (now : ℕ) (r : HttpRequest) where
    check_signature-none :
        (scope : CredentialScope) (names : List Text) (signature : Text) (at : ℕ) (presigned : Bool)
        → (check_signature lib scope names signature at presigned now creds r).0 ≡ none
        → IsSigned lib creds now r scope names signature at presigned
    unfolding check_signature
    check_signature-none scope names signature at presigned h =
        let found = resolve_secrets scope.access_key_id now creds in go found refl h
      where
        go :
            (found : Resolved)
            → resolve_secrets scope.access_key_id now creds ≡ found
            → (check_signature lib scope names signature at presigned now creds r).0 ≡ none
            → IsSigned lib creds now r scope names signature at presigned
        go unknown e h = absurd (ground arith)
        go disabled e h = absurd (ground arith)
        go (secrets ss) e h =
            elim (Outcome-cases (build_canonical_request lib r names presigned).0) [
              | inr (bad, built) ↦ absurd (ground arith)
              | inl (canonical, built) ↦
                  let s = build_string_to_sign lib at scope.raw canonical in
                  let tried : try_secrets lib scope s signature ss ≡ none = ground arith in
                  let (secret, member, signed) = try_secrets-none scope s signature ss tried in
                  record {
                    live = ss;
                    resolved = e;
                    secret = secret;
                    is_live = member;
                    canonical = canonical;
                    built = built;
                    signed = signed;
                  }
            ]

    -- What is accepted by its header, and what is accepted as a presigned URL.
    pub record IsHeaderSigned (v : Verifier) (max : ℕ) : Type 0 where
      pub authz : AuthHeader
      pub at : ℕ
      pub parsed :
          parse_authorization_header lib (get (text "Authorization") r.headers) ≡ some authz
      pub dated : parse_amz_date lib (get (text "X-Amz-Date") r.headers) ≡ some at
      pub meant : IsMeant v max now at authz.scope
      pub proof : IsSigned lib creds now r authz.scope authz.signed_headers authz.signature at false

    pub record IsPresigned (v : Verifier) (max : ℕ) : Type 0 where
      pub scope : CredentialScope
      pub at : ℕ
      pub seconds : ℕ
      pub dated : parse_amz_date lib (get (text "X-Amz-Date") r.query) ≡ some at
      pub lasts : lib.atoi (get (text "X-Amz-Expires") r.query) ≡ some (pos seconds)
      pub at_most_a_week : seconds ≤ 604800
      pub current : now ≤ at + seconds * 1000000000
      pub parsed : parse_credential_scope (get (text "X-Amz-Credential") r.query) ≡ some scope
      pub meant : IsMeant v max now at scope
      pub proof :
          IsSigned lib creds now r scope
            (split 59 (get (text "X-Amz-SignedHeaders") r.query))
            (get (text "X-Amz-Signature") r.query)
            at
            true

    verify_header_auth-none :
        (v : Verifier) (max : ℕ)
        → v.max_skew ≡ pos max
        → max < 2 ^ 63 - 1
        → (verify_header_auth lib v creds now r).0 ≡ none
        → IsHeaderSigned v max
    unfolding verify_header_auth
    verify_header_auth-none v max limit small h =
        elim (Option-cases
          (parse_authorization_header lib (get (text "Authorization") r.headers))) [
            | inl bad ↦ absurd (ground arith)
            | inr (authz, parsed) ↦
                elim (Option-cases (parse_amz_date lib (get (text "X-Amz-Date") r.headers))) [
                  | inl bad ↦ absurd (ground arith)
                  | inr (at, dated) ↦ record {
                    authz = authz;
                    at = at;
                    parsed = parsed;
                    dated = dated;
                    meant = record {
                      near = near_of v max now at limit small (ground arith);
                      its_service = ground (arith, text_eq.beq_iff authz.scope.service v.service);
                      its_terminal =
                          ground (arith, text_eq.beq_iff authz.scope.terminal v.terminal);
                    };
                    proof =
                        check_signature-none authz.scope authz.signed_headers authz.signature at
                          false (ground arith);
                  }
                ]
          ]

    verify_presigned_params-none :
        (v : Verifier) (max at : ℕ)
        → v.max_skew ≡ pos max
        → max < 2 ^ 63 - 1
        → parse_amz_date lib (get (text "X-Amz-Date") r.query) ≡ some at
        → skew_exceeded v now at ≡ false
        → (verify_presigned_params lib v creds now r at).0 ≡ none
        → IsPresigned v max
    unfolding verify_presigned_params
    verify_presigned_params-none v max at limit small dated near h =
        elim (Option-cases (lib.atoi (get (text "X-Amz-Expires") r.query))) [
          | inl bad ↦ absurd (ground arith)
          | inr (neg n, lasts) ↦ absurd (ground arith)
          | inr (pos seconds, lasts) ↦
              elim (Option-cases (parse_credential_scope (get (text "X-Amz-Credential") r.query))) [
                | inl bad ↦ absurd (ground arith)
                | inr (scope, parsed) ↦ record {
                  scope = scope;
                  at = at;
                  seconds = seconds;
                  dated = dated;
                  lasts = lasts;
                  at_most_a_week = ground arith;
                  current = ground arith;
                  parsed = parsed;
                  meant = record {
                    near = near_of v max now at limit small near;
                    its_service = ground (arith, text_eq.beq_iff scope.service v.service);
                    its_terminal = ground (arith, text_eq.beq_iff scope.terminal v.terminal);
                  };
                  proof =
                      check_signature-none scope
                        (split 59 (get (text "X-Amz-SignedHeaders") r.query))
                        (get (text "X-Amz-Signature") r.query) at true (ground arith);
                }
              ]
        ]

    verify_presigned_url-none :
        (v : Verifier) (max : ℕ)
        → v.max_skew ≡ pos max
        → max < 2 ^ 63 - 1
        → (verify_presigned_url lib v creds now r).0 ≡ none
        → IsPresigned v max
    unfolding verify_presigned_url
    verify_presigned_url-none v max limit small h =
        elim (Option-cases (parse_amz_date lib (get (text "X-Amz-Date") r.query))) [
          | inl bad ↦ absurd (ground arith)
          | inr (at, dated) ↦
              verify_presigned_params-none v max at limit small dated (ground arith) (ground arith)
        ]

  -- Only signed requests are accepted: one that is accepted carries, in its header or in its query, the
  -- signature of its canonical request by a secret that is live for the key of its scope; its time is
  -- within the limit of the server's, or 2^63 nanoseconds ahead and more, where the difference wraps
  -- around; its scope is for the verifier, and a presigned URL lasts a week at most and has not expired.
  -- The limit is one that is not negative and below 2^63 - 1.
  pub verify_request-none :
      (v : Verifier) (max now : ℕ) (r : HttpRequest)
      → v.max_skew ≡ pos max
      → max < 2 ^ 63 - 1
      → (verify_request lib v now r).0 ≡ none
      → (creds : Credentials) × (v.store ≡ some creds)
        × (IsHeaderSigned creds now r v max ⊎ IsPresigned creds now r v max)
  unfolding verify_request
  verify_request-none v max now r limit small h = elim (Option-cases v.store) [
    | inl missing ↦ absurd (ground arith)
    | inr (creds, there) ↦ elim (Bool-cases (get (text "Authorization") r.headers == [])) [
      | inr header ↦
          (creds, there, inl (verify_header_auth-none creds now r v max limit small (ground arith)))
      | inl no_header ↦ elim (Bool-cases (get (text "X-Amz-Algorithm") r.query == [])) [
        | inr query ↦ (
          creds,
          there,
          inr (verify_presigned_url-none creds now r v max limit small (ground arith)),
        )
        | inl neither ↦ absurd (ground arith)
      ]
    ]
  ]
