-- ===== src/Auth/Tokens/Format.antt =====
-- Proofs on internal/auth/pat.go: the form of a token and its checks.
use s.Prelude.{
  ℕ, ◌≡◌, ◌≢◌, ◌∙◌, refl, sym, ap, true, false, some, List, [], ◌∷◌, ◌++◌, Text, text_eq,
  if◌then◌else◌, ok, err, arith, Option-cases, Outcome-cases, inl, inr,
}
use s.Strings.{split, join}
use s.Strings.Laws.{Lacks, split-Lacks, split-append, join-split}
use s.Lifecycle.Rules.{Int64}
use s.Lifecycle.Options.{is_positive}
use s.Auth.Tokens.{
  expired_token, Claims, Coding, unix, int_leb, token_prefix, print_token, token_parts, split_token,
  claims_of, create_token, check_claims, verify_token,
}

token_parts_ok :
    (parts : List Text) (payload signature : Text)
    → token_parts parts ≡ ok (payload, signature)
    → parts ≡ token_prefix ∷ payload ∷ signature ∷ []
unfolding token_parts
token_parts_ok [] p s h = cc
token_parts_ok (a ∷ []) p s h = cc
token_parts_ok (a ∷ b ∷ []) p s h = cc
token_parts_ok (a ∷ b ∷ c ∷ []) p s h = ground (arith, text_eq.beq_iff a token_prefix)
token_parts_ok (a ∷ b ∷ c ∷ d ∷ rest) p s h = cc

-- A token that is printed from a payload and a signature without a full stop is split into them.
pub split_token-print :
    (payload signature : Text)
    → payload ≢ []
    → signature ≢ []
    → Lacks 46 payload
    → Lacks 46 signature
    → split_token (print_token payload signature) ≡ ok (payload, signature)
unfolding split_token
split_token-print payload signature named signed h k =
    let parts : split 46 (print_token payload signature) ≡ token_prefix ∷ payload ∷ signature ∷ [] =
      split-append 46 token_prefix (payload ++ 46 ∷ signature)
        (refl, (refl, (refl, (refl, (refl, (refl, (refl, tt)))))))
      ∙ ap (λ l. token_prefix ∷ l)
          (split-append 46 payload signature h
            ∙ ap (λ l. payload ∷ l) (split-Lacks 46 signature k)) in
    ap token_parts parts
    ∙ ground (
      arith,
      text_eq.beq_iff token_prefix token_prefix,
      text_eq.beq_iff payload [],
      text_eq.beq_iff signature [],
    )

-- What is split comes from such a token.
split_token_ok :
    (token payload signature : Text)
    → split_token token ≡ ok (payload, signature)
    → token ≡ print_token payload signature
unfolding split_token
split_token_ok token payload signature h =
    let parts = token_parts_ok (split 46 token) payload signature h in
    sym (join-split 46 token) ∙ unfold join in ap (join (46 ∷ [])) parts

module _ (coding : Coding) where
  pub create_token_ok :
      (subject key id : Text) (now : ℕ) (ttl : Int64) (token payload : Text)
      → coding.encode_claims
          (claims_of coding (coding.trim_space subject) now ttl (coding.trim_space id))
        ≡ some payload
      → create_token coding subject key now ttl id ≡ ok token
      → (key ≢ [])
        × (coding.trim_space subject ≢ [])
        × (coding.trim_space id ≢ [])
        × (token ≡ print_token payload (coding.sign_payload payload key))
  unfolding create_token
  create_token_ok subject key id now ttl token payload encoded made = ground (
    arith,
    text_eq.beq_iff key [],
    text_eq.beq_iff (coding.trim_space subject) [],
    text_eq.beq_iff (coding.trim_space id) [],
  )

  verify_split :
      (token key payload signature : Text) (now : ℕ) (claims : Claims)
      → key ≢ []
      → split_token token ≡ ok (payload, signature)
      → signature ≡ coding.sign_payload payload key
      → coding.decode_claims payload ≡ some claims
      → verify_token coding token key now ≡ check_claims coding claims now
  unfolding verify_token
  verify_split token key payload signature now claims keyed parts signed decoded =
      rw (parts, verify_token)
        (ground (
          arith,
          text_eq.beq_iff key [],
          text_eq.beq_iff signature (coding.sign_payload payload key),
        ))

  checked_new :
      (c : Claims) (now : ℕ) (subject : Text)
      → coding.trim_space c.subject ≡ subject
      → subject ≢ []
      → {id : Text} → coding.trim_space c.token_id ≡ id
      → id ≢ []
      → is_positive c.expires_at ≡ true
      → check_claims coding c now
        ≡ (if int_leb c.expires_at (unix now) then err expired_token else ok subject)
  unfolding check_claims
  checked_new c now subject e filled {id} f named future = ground (
    arith,
    text_eq.beq_iff (coding.trim_space c.subject) [],
    text_eq.beq_iff (coding.trim_space c.token_id) [],
  )

  -- A token that was created is accepted as its subject until it expires, at any later time it is
  -- expired: where the texts of the coding hold no full stop and are not empty, the payload decodes
  -- to the claims that were encoded, trimming twice is trimming once, and the token ends after 1970.
  pub verify_token-create :
      (subject key id : Text) (now later : ℕ) (ttl : Int64) (token payload : Text)
      → create_token coding subject key now ttl id ≡ ok token
      → (c : Claims)
      → c ≡ claims_of coding (coding.trim_space subject) now ttl (coding.trim_space id)
      → coding.encode_claims c ≡ some payload
      → coding.decode_claims payload ≡ some c
      → payload ≢ []
      → coding.sign_payload payload key ≢ []
      → Lacks 46 payload
      → Lacks 46 (coding.sign_payload payload key)
      → ((t : Text) → coding.trim_space (coding.trim_space t) ≡ coding.trim_space t)
      → is_positive c.expires_at ≡ true
      → verify_token coding token key later ≡ (
          if int_leb c.expires_at (unix later)
          then err expired_token
          else ok (coding.trim_space subject))
  verify_token-create subject key id now later ttl token payload made c same coded decoded named
        signed h k trim future =
      let (keyed, has_subject, has_id, printed) =
        create_token_ok subject key id now ttl token payload (rw same at coded) made in
      let parts = split_token-print payload (coding.sign_payload payload key) named signed h k in
      verify_split token key payload (coding.sign_payload payload key) later c keyed
        (ap split_token printed ∙ parts) refl decoded
      ∙ checked_new c later (coding.trim_space subject)
          (ap (λ x. coding.trim_space x.subject) same ∙ trim subject) has_subject
          (ap (λ x. coding.trim_space x.token_id) same ∙ trim id) has_id future

  accepted :
      (token key : Text) (now : ℕ) (subject : Text)
      → verify_token coding token key now ≡ ok subject
      → (payload signature : Text) × (claims : Claims) × (split_token token
          ≡ ok (payload, signature))
        × (signature ≡ coding.sign_payload payload key)
        × (coding.decode_claims payload ≡ some claims)
        × (check_claims coding claims now ≡ ok subject)
  unfolding verify_token
  accepted token key now subject h = elim (Outcome-cases (split_token token)) [
    | inr (e, bad) ↦ absurd (ground arith)
    | inl ((payload, signature), parts) ↦ elim (Option-cases (coding.decode_claims payload)) [
      | inl bad ↦ absurd (ground arith)
      | inr (claims, decoded) ↦ (
        payload,
        signature,
        claims,
        parts,
        ground (arith, text_eq.beq_iff signature (coding.sign_payload payload key)),
        decoded,
        ground (arith, text_eq.beq_iff signature (coding.sign_payload payload key)),
      )
    ]
  ]

  checked_ok :
      (claims : Claims) (now : ℕ) (subject : Text)
      → check_claims coding claims now ≡ ok subject
      → (int_leb claims.expires_at (unix now) ≡ false)
        × (subject ≡ coding.trim_space claims.subject)
        × (subject ≢ [])
  unfolding check_claims
  checked_ok claims now subject h =
      ground (arith, text_eq.beq_iff (coding.trim_space claims.subject) [])

  -- Only signed tokens are accepted: a token that is accepted is the prefix, a payload and the
  -- signature of that payload under the key, and the payload holds claims which have not expired,
  -- whose subject is the one that is returned.
  pub verify_token_ok :
      (token key : Text) (now : ℕ) (subject : Text)
      → verify_token coding token key now ≡ ok subject
      → (payload : Text) × (claims : Claims) × (token
          ≡ print_token payload (coding.sign_payload payload key))
        × (coding.decode_claims payload ≡ some claims)
        × (int_leb claims.expires_at (unix now) ≡ false)
        × (subject ≡ coding.trim_space claims.subject)
        × (subject ≢ [])
  verify_token_ok token key now subject h =
      let (payload, signature, claims, parts, signed, decoded, checked) =
        accepted token key now subject h in
      let (current, named, filled) = checked_ok claims now subject checked in
      (
        payload,
        claims,
        split_token_ok token payload signature parts ∙ ap (print_token payload) signed,
        decoded,
        current,
        named,
        filled,
      )
