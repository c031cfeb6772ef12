-- ===== src/Server/Gate/Passed.antt =====
-- Proofs on withAuthGate of internal/server/middleware.go: the requests that pass.
use s.Prelude.{
  ℕ, ◌≡◌, ◌⊎◌, inl, inr, refl, true, false, not, ◌&&◌, Option, none, some, List, Text, text,
  text_eq, ok, arith, Option-cases, Outcome-cases, Bool-cases,
}
use s.AuthFailures.{Protector, is_blocked}
use s.Auth.Requests.{SignatureError, HttpRequest}
use s.Auth.Signatures.{Verifier, verify_request}
use s.Server.{
  Request, Given, bearer_token, authorization, client_identity_key, has_auth_material,
  should_bypass_guards,
}
use s.Server.Policy.{PolicyStatement, anonymous_policy_allows}
use s.Server.Gate.{
  Options, next, is_public_website_request, verify_bearer, with_principal, bearer_gate, verdict_of,
  signature_gate, unblocked_gate, auth_gate,
}

module _ (given : Given) (statements : Text → Option (List PolicyStatement)) (opts : Options)
    (now : ℕ) (r : Request) where
  -- The token of the request is accepted, and the handler sees its subject.
  pub record IsBearer (r' : Request) : Type 0 where
    pub token : Text
    pub carried : bearer_token given (authorization given r) ≡ some token
    pub subject : Text
    pub accepted : verify_bearer given statements token now opts ≡ ok subject
    pub seen : r' ≡ with_principal given statements subject r

  -- No credentials, and the bucket is open to everyone, by its policy or as a website.
  pub record IsAnonymous (r' : Request) : Type 0 where
    pub no_material : has_auth_material given r ≡ false
    pub is_open :
        (anonymous_policy_allows given statements r opts.domain opts.metadata ≡ true)
        ⊎ (is_public_website_request given statements r opts ≡ true)
    pub seen : r' ≡ with_principal given statements (text "anonymous") r

  -- The verifier accepts the request.
  pub record IsVerified (r' : Request) : Type 0 where
    pub verifier : Verifier
    pub there : opts.verifier ≡ some verifier
    pub accepted : (verify_request given.lib verifier now r.http).0 ≡ none
    pub seen : r'.http ≡ (verify_request given.lib verifier now r.http).1

  bearer_gate_next :
      (token identity : Text) (p : Protector) (r' : Request)
      → bearer_token given (authorization given r) ≡ some token
      → (bearer_gate given statements token identity opts now r p).0 ≡ next r'
      → IsBearer r'
  unfolding bearer_gate
  bearer_gate_next token identity p r' carried h =
      elim (Outcome-cases (verify_bearer given statements token now opts)) [
        | inr (e, bad) ↦ absurd (ground arith)
        | inl (subject, fine) ↦ record {
          token = token;
          carried = carried;
          subject = subject;
          accepted = fine;
          seen = ground arith;
        }
      ]

  verdict_of_next :
      (answer : Option SignatureError × HttpRequest) (identity : Text) (p : Protector)
      (r' : Request)
      → (verdict_of given statements answer identity now r p).0 ≡ next r'
      → (answer.0 ≡ none) × (r'.http ≡ answer.1)
  unfolding verdict_of
  verdict_of_next (some e, http) identity p r' h = absurd (ground arith)
  verdict_of_next (none, http) identity p r' h = (refl, ground arith)

  signature_gate_next :
      (identity : Text) (p : Protector) (r' : Request)
      → (signature_gate given statements identity opts now r p).0 ≡ next r'
      → IsVerified r'
  unfolding signature_gate
  signature_gate_next identity p r' h = elim (Option-cases opts.verifier) [
    | inl missing ↦ absurd (ground arith)
    | inr (v, there) ↦
        let (accepted, seen) =
          verdict_of_next (verify_request given.lib v now r.http) identity p r' (ground arith) in
        record { verifier = v; there = there; accepted = accepted; seen = seen }
  ]

  unblocked_gate_next :
      (identity : Text) (p : Protector) (r' : Request)
      → (unblocked_gate given statements identity opts now r p).0 ≡ next r'
      → IsBearer r' ⊎ (IsAnonymous r' ⊎ IsVerified r')
  unfolding unblocked_gate
  unblocked_gate_next identity p r' h =
      elim (Option-cases (bearer_token given (authorization given r))) [
        | inr (token, carried) ↦ inl (bearer_gate_next token identity p r' carried (ground arith))
        | inl plain ↦
            elim (Bool-cases (
              not (has_auth_material given r)
              && anonymous_policy_allows given statements r opts.domain opts.metadata)) [
                | inl allowed ↦ inr (
                    inl (record {
                      no_material = ground arith;
                      is_open = inl (ground arith);
                      seen = ground arith;
                    }))
                | inr closed ↦
                    elim (Bool-cases (
                      not (has_auth_material given r)
                      && is_public_website_request given statements r opts)) [
                        | inl site ↦ inr (
                            inl (record {
                              no_material = ground arith;
                              is_open = inr (ground arith);
                              seen = ground arith;
                            }))
                        | inr private ↦ inr (inr (signature_gate_next identity p r' (ground arith)))
                      ]
              ]
      ]

  -- A request that reaches the handlers is on a path that needs no authentication, and passes
  -- unchanged; or its identity is not blocked, and it carries a token that is accepted, or
  -- no credentials where its bucket is open to everyone, or the verifier accepts it.
  pub auth_gate_next :
      (p : Protector) (r' : Request)
      → (auth_gate given statements opts now r p).0 ≡ next r'
      → ((should_bypass_guards r.http.path opts.metrics_path ≡ true) × (r' ≡ r))
        ⊎ (((is_blocked (client_identity_key given r) now p).0 ≡ false)
            × (IsBearer r' ⊎ (IsAnonymous r' ⊎ IsVerified r')))
  unfolding auth_gate
  auth_gate_next p r' h = elim (Bool-cases (should_bypass_guards r.http.path opts.metrics_path)) [
    | inl free ↦ inl (free, ground arith)
    | inr guarded ↦ elim (Bool-cases (is_blocked (client_identity_key given r) now p).0) [
      | inl blocked ↦ absurd (ground arith)
      | inr clear ↦ inr (
        clear,
        unblocked_gate_next (client_identity_key given r)
            (is_blocked (client_identity_key given r) now p).1 r' (ground arith),
      )
    ]
  ]
