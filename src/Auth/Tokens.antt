-- ===== src/Auth/Tokens.antt =====
-- internal/auth/pat.go and pat_manager.go: personal access tokens. JSON with base64, the MAC, the
-- fingerprint and TrimSpace are given. A time counts nanoseconds from Go's zero time.
pub mod Format
pub mod Revoked
use s.Prelude.{
  ℕ, suc, ◌+◌, ◌-◌, ◌/◌, Bool, true, false, not, ◌&&◌, ◌||◌, Option, none, some, List, [], ◌∷◌,
  ◌++◌, map, Text, text, text_eq, nat_beq, ◌==◌, if◌then◌else◌, ltb, leb, Outcome, ok, err,
}
use s.Dict.{Dict, lookup, put}
use s.Sort.{sort, text_lt}
use s.Strings.{split}
use s.Lifecycle.Rules.{Int64, pos, neg}
use s.Lifecycle.Options.{is_positive}
use s.Auth.Credentials.{add_duration}

pub data TokenError : Type 0 where
  invalid_token expired_token missing_signing_key invalid_input token_not_found : TokenError

pub record Claims : Type 0 where
  pub token_id : Text
  pub subject : Text
  pub expires_at : Int64
  pub issued_at : Int64

-- The payload of claims and the claims of a payload, `none` where that is an error; the signature of
-- a payload under a key; the fingerprint of a token.
pub record Coding : Type 0 where
  pub encode_claims : Claims → Option Text
  pub decode_claims : Text → Option Claims
  pub sign_payload : Text → Text → Text
  pub fingerprint : Text → Text
  pub trim_space : Text → Text

-- t.Unix()
unfoldable pub unix : ℕ → Int64
unix t =
    let seconds = t / 1000000000 in
    if ltb seconds 62135596800 then neg (62135596800 - seconds - 1) else pos (seconds - 62135596800)

abbrev pub int_leb : Int64 → Int64 → Bool
int_leb (pos a) (pos b) = leb a b
int_leb (pos a) (neg b) = false
int_leb (neg a) (pos b) = true
int_leb (neg a) (neg b) = leb b a

abbrev pub token_prefix : Text
token_prefix = text "s000pat"

abbrev pub print_token : Text → Text → Text
print_token payload signature = token_prefix ++ 46 ∷ (payload ++ 46 ∷ signature)

-- the payload and the signature, from the parts between full stops
unfoldable pub token_parts : List Text → Outcome TokenError (Text × Text)
token_parts (a ∷ b ∷ c ∷ []) =
    if not (a == token_prefix) || ((b == []) || (c == [])) then err invalid_token else ok (b, c)
token_parts _ = err invalid_token

unfoldable pub split_token : Text → Outcome TokenError (Text × Text)
unfolding token_parts
split_token token = token_parts (split 46 token)

module _ (coding : Coding) where
  abbrev pub claims_of : Text → ℕ → Int64 → Text → Claims
  claims_of subject now ttl token_id = record {
    token_id = token_id;
    subject = subject;
    expires_at = unix (add_duration now ttl);
    issued_at = unix now;
  }

  unfoldable pub create_token : Text → Text → ℕ → Int64 → Text → Outcome TokenError Text
  unfolding unix
  create_token untrimmed_subject key now ttl untrimmed_id =
      let subject = coding.trim_space untrimmed_subject in
      let token_id = coding.trim_space untrimmed_id in
      if (subject == []) || ((token_id == []) || not (is_positive ttl))
      then err invalid_input
      else if key == []
      then err missing_signing_key
      else elim (coding.encode_claims (claims_of subject now ttl token_id)) [
        | none ↦ err invalid_token
        | some payload ↦ ok (print_token payload (coding.sign_payload payload key))
      ]

  -- the checks of the claims, at a time
  unfoldable pub check_claims : Claims → ℕ → Outcome TokenError Text
  unfolding unix
  check_claims claims now =
      if (coding.trim_space claims.subject == [])
        || ((coding.trim_space claims.token_id == []) || not (is_positive claims.expires_at))
      then err invalid_token
      else if int_leb claims.expires_at (unix now)
      then err expired_token
      else ok (coding.trim_space claims.subject)

  unfoldable pub verify_token : Text → Text → ℕ → Outcome TokenError Text
  unfolding split_token check_claims
  verify_token token key now =
      if key == [] then err missing_signing_key else elim (split_token token) [
        | err e ↦ err e
        | ok (payload, signature) ↦
            if not (signature == coding.sign_payload payload key)
            then err invalid_token
            else elim (coding.decode_claims payload) [
              | none ↦ err invalid_token
              | some claims ↦ check_claims claims now
            ]
      ]

  unfoldable pub token_subject : Text → Text
  unfolding split_token
  token_subject token = elim (split_token token) [
    | err e ↦ []
    | ok (payload, signature) ↦ elim (coding.decode_claims payload) [
      | none ↦ []
      | some claims ↦ coding.trim_space claims.subject
    ]
  ]

pub record IssuedToken : Type 0 where
  pub id : Text
  pub label : Text
  pub subject : Text
  pub created_at : ℕ
  pub expires_at : ℕ
  pub revoked : Bool
  pub revoked_at : ℕ

pub record IssuedRecord : Type 0 where
  pub issued : IssuedToken
  pub token_hash : Text

pub record TokenManager : Type 0 where
  pub signing_key : Text
  pub issued : Dict Text IssuedRecord

-- the loop over the issued tokens, up to the first with the hash
unfoldable pub is_revoked : Text → Dict Text IssuedRecord → Bool
is_revoked hash [] = false
is_revoked hash ((id, rec) ∷ m) =
    let rest = is_revoked hash m in if rec.token_hash == hash then rec.issued.revoked else rest

abbrev pub newer : IssuedToken → IssuedToken → Bool
newer a b =
    if nat_beq a.created_at b.created_at then text_lt a.id b.id else ltb b.created_at a.created_at

unfoldable pub list_issued : TokenManager → List IssuedToken
list_issued m = sort newer (map (λ entry. entry.1.issued) m.issued)

module _ (coding : Coding) where
  abbrev pub issued_token : Text → ℕ → Int64 → Text → Text → IssuedToken
  issued_token subject now ttl label token_id = record {
    id = token_id;
    label = coding.trim_space label;
    subject = coding.trim_space subject;
    created_at = now;
    expires_at = add_duration now ttl;
    revoked = false;
    revoked_at = 0;
  }

  -- The random id of the token is given; it is empty where no random bytes could be read.
  unfoldable pub issue :
      Text
      → Int64
      → Text
      → Text
      → ℕ
      → TokenManager
      → Outcome TokenError (Text × IssuedToken) × TokenManager
  unfolding create_token
  issue subject ttl label token_id now m =
      elim (create_token coding subject m.signing_key now ttl token_id) [
        | err e ↦ (err e, m)
        | ok token ↦ (
          ok (token, issued_token subject now ttl label token_id),
          record m {
            issued =
                put token_id
                  (record {
                    issued = issued_token subject now ttl label token_id;
                    token_hash = coding.fingerprint token;
                  })
                  m.issued;
          },
        )
      ]

  unfoldable pub verify_issued : Text → ℕ → TokenManager → Outcome TokenError Text
  unfolding verify_token is_revoked
  verify_issued token now m = elim (verify_token coding token m.signing_key now) [
    | err e ↦ err e
    | ok subject ↦
        if is_revoked (coding.fingerprint token) m.issued then err invalid_token else ok subject
  ]

  abbrev pub revoked_record : ℕ → IssuedRecord → IssuedRecord
  revoked_record now rec = record rec {
    issued = record rec.issued { revoked = true; revoked_at = now };
  }

  unfoldable pub revoke : Text → ℕ → TokenManager → Option TokenError × TokenManager
  revoke untrimmed_id now m =
      let token_id = coding.trim_space untrimmed_id in
      elim (lookup token_id m.issued) [
        | none ↦ (some token_not_found, m)
        | some rec ↦
            if rec.issued.revoked
            then (none, m)
            else (none, record m { issued = put token_id (revoked_record now rec) m.issued })
      ]
