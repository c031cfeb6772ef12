-- ===== src/Auth/Signatures.antt =====
-- internal/auth/sigv4.go: the check of signed requests and presigned URLs. One request sees one time,
-- in nanoseconds from Go's zero time.
pub mod Skew
pub mod Accepted
pub mod Steps
mod Tests
use s.Prelude.{
  ℕ, ◌+◌, ◌-◌, ◌*◌, ◌^◌, Bool, true, false, not, ◌&&◌, ◌||◌, Option, none, some, List, [], ◌∷◌,
  ◌++◌, Text, text, text_eq, nat_beq, ◌==◌, if◌then◌else◌, ltb, leb, Outcome, ok, err,
}
use s.Dict.{Dict, lookup, put}
use s.Strings.{has_prefix, trim_prefix, join, split, split_once}
use s.Lifecycle.Rules.{Int64, pos, neg}
use s.Lifecycle.Options.{is_positive}
use s.Auth.Credentials.{Credentials, Resolved, unknown, disabled, secrets, resolve_secrets}
use s.Auth.Tokens.{int_leb}
use s.Auth.Requests.{
  SignatureError, missing_authentication_token, invalid_access_key_id, signature_does_not_match,
  request_time_too_skewed, invalid_request, access_denied, HttpRequest, Library, get, algorithm,
  build_canonical_request,
}

pub record Verifier : Type 0 where
  pub store : Option Credentials
  pub max_skew : Int64
  pub service : Text
  pub terminal : Text

unfoldable pub new_verifier : Option Credentials → Int64 → Text → Text → Verifier
new_verifier store max_skew service terminal = record {
  store = store;
  max_skew = if is_positive max_skew then max_skew else pos 900000000000;
  service = if service == [] then text "s3" else service;
  terminal = if terminal == [] then text "aws4_request" else terminal;
}

-- t.Sub(u), which stops at the ends of the range
unfoldable pub sub_time : ℕ → ℕ → Int64
sub_time t u =
    let last = 2 ^ 63 - 1 in
    if leb u t
    then pos (if ltb last (t - u) then last else t - u)
    else neg (if ltb last (u - t - 1) then last else u - t - 1)

-- -d, which wraps around at the least number
abbrev pub negate : Int64 → Int64
negate (pos n) = if nat_beq n 0 then pos 0 else neg (n - 1)
negate (neg n) = if nat_beq n (2 ^ 63 - 1) then neg n else pos (n + 1)

abbrev pub distance : Int64 → Int64
distance (pos n) = pos n
distance (neg n) = negate (neg n)

unfoldable pub skew_exceeded : Verifier → ℕ → ℕ → Bool
unfolding sub_time
skew_exceeded v now request_time = not (int_leb (distance (sub_time now request_time)) v.max_skew)

pub record CredentialScope : Type 0 where
  pub raw : Text
  pub access_key_id : Text
  pub date : Text
  pub region : Text
  pub service : Text
  pub terminal : Text

pub record AuthHeader : Type 0 where
  pub scope : CredentialScope
  pub signed_headers : List Text
  pub signature : Text

-- the scope of the parts between slashes
unfoldable pub scope_parts : List Text → Option CredentialScope
scope_parts (id ∷ date ∷ region ∷ service ∷ terminal ∷ []) =
    if (id == []) || ((date == []) || ((region == []) || ((service == []) || (terminal == []))))
    then none
    else some (record {
      raw = join (text "/") (date ∷ region ∷ service ∷ terminal ∷ []);
      access_key_id = id;
      date = date;
      region = region;
      service = service;
      terminal = terminal;
    })
scope_parts _ = none

unfoldable pub parse_credential_scope : Text → Option CredentialScope
unfolding scope_parts
parse_credential_scope credential = scope_parts (split 47 credential)

abbrev pub value_of : Text → Dict Text Text → Text
value_of key m = elim (lookup key m) [ none ↦ [] | some value ↦ value ]

abbrev pub starts_empty : List Text → Bool
starts_empty [] = true
starts_empty (first ∷ _) = first == []

module _ (lib : Library) where
  -- the loop over the parts of the header
  unfoldable pub header_values : List Text → Dict Text Text → Option (Dict Text Text)
  header_values [] values = some values
  header_values (part ∷ parts) values = elim (split_once 61 (lib.trim_space part)) [
    | none ↦ none
    | some (key, value) ↦ header_values parts (put key value values)
  ]

  unfoldable pub parse_authorization_header : Text → Option AuthHeader
  unfolding header_values parse_credential_scope
  parse_authorization_header header =
      if not (has_prefix header (algorithm ++ text " "))
      then none
      else elim (header_values (split 44 (trim_prefix header (algorithm ++ text " "))) []) [
        | none ↦ none
        | some values ↦ elim (parse_credential_scope (value_of (text "Credential") values)) [
          | none ↦ none
          | some scope ↦
              let signed_headers = split 59 (value_of (text "SignedHeaders") values) in
              let signature = value_of (text "Signature") values in
              if starts_empty signed_headers || (signature == [])
              then none
              else some
                  (record { scope = scope; signed_headers = signed_headers; signature = signature })
        ]
      ]

  unfoldable pub parse_amz_date : Text → Option ℕ
  parse_amz_date value = if value == [] then none else lib.parse_time value

  unfoldable pub build_string_to_sign : ℕ → Text → Text → Text
  build_string_to_sign request_time scope canonical =
      join (text "\n")
        (algorithm ∷ lib.format_time request_time ∷ scope ∷ lib.hex (lib.sha256 canonical) ∷ [])

  unfoldable pub sign_string : Text → Text → Text → Text → Text → Text → Text
  sign_string secret date region service terminal string_to_sign =
      let k_date = lib.hmac_sha256 (text "AWS4" ++ secret) date in
      let k_region = lib.hmac_sha256 k_date region in
      let k_service = lib.hmac_sha256 k_region service in
      let k_signing = lib.hmac_sha256 k_service terminal in
      lib.hex (lib.hmac_sha256 k_signing string_to_sign)

  -- the loop over the secrets
  unfoldable pub try_secrets : CredentialScope → Text → Text → List Text → Option SignatureError
  try_secrets scope string_to_sign signature [] = some signature_does_not_match
  try_secrets scope string_to_sign signature (secret ∷ rest) =
      let others = try_secrets scope string_to_sign signature rest in
      if sign_string secret scope.date scope.region scope.service scope.terminal string_to_sign
        == signature
      then none
      else others

  -- the end of both checks, from the lookup of the secrets on
  unfoldable pub check_signature :
      CredentialScope
      → List Text
      → Text
      → ℕ
      → Bool
      → ℕ
      → Credentials
      → HttpRequest
      → Option SignatureError × HttpRequest
  unfolding try_secrets build_string_to_sign
  check_signature scope signed_headers signature request_time presigned now creds r =
      elim (resolve_secrets scope.access_key_id now creds) [
        | unknown ↦ (some invalid_access_key_id, r)
        | disabled ↦ (some access_denied, r)
        | secrets ss ↦
            let built = build_canonical_request lib r signed_headers presigned in
            (
              elim built.0 [
                | err e ↦ some e
                | ok canonical ↦
                    try_secrets scope (build_string_to_sign request_time scope.raw canonical)
                      signature ss
              ],
              built.1,
            )
      ]

  unfoldable pub verify_header_auth :
      Verifier → Credentials → ℕ → HttpRequest → Option SignatureError × HttpRequest
  unfolding parse_authorization_header parse_amz_date check_signature
  verify_header_auth v creds now r =
      elim (parse_authorization_header (get (text "Authorization") r.headers)) [
        | none ↦ (some invalid_request, r)
        | some authz ↦ elim (parse_amz_date (get (text "X-Amz-Date") r.headers)) [
          | none ↦ (some invalid_request, r)
          | some request_time ↦
              if skew_exceeded v now request_time
              then (some request_time_too_skewed, r)
              else if not (authz.scope.service == v.service)
                  || not (authz.scope.terminal == v.terminal)
              then (some invalid_request, r)
              else check_signature authz.scope authz.signed_headers authz.signature request_time
                  false now creds r
        ]
      ]

  -- what is checked of a presigned URL once its time is near
  unfoldable pub verify_presigned_params :
      Verifier → Credentials → ℕ → HttpRequest → ℕ → Option SignatureError × HttpRequest
  unfolding check_signature parse_credential_scope
  verify_presigned_params v creds now r request_time =
      elim (lib.atoi (get (text "X-Amz-Expires") r.query)) [
        | none ↦ (some invalid_request, r)
        | some expires ↦ elim expires [
          | neg _ ↦ (some invalid_request, r)
          | pos seconds ↦
              if nat_beq seconds 0 || ltb 604800 seconds
              then (some invalid_request, r)
              else if ltb (request_time + seconds * 1000000000) now
              then (some access_denied, r)
              else elim (parse_credential_scope (get (text "X-Amz-Credential") r.query)) [
                | none ↦ (some invalid_request, r)
                | some scope ↦
                    let signed_headers = split 59 (get (text "X-Amz-SignedHeaders") r.query) in
                    let signature = get (text "X-Amz-Signature") r.query in
                    if not (scope.service == v.service) || not (scope.terminal == v.terminal)
                    then (some invalid_request, r)
                    else if starts_empty signed_headers || (signature == [])
                    then (some invalid_request, r)
                    else check_signature scope signed_headers signature request_time true now creds
                        r
              ]
        ]
      ]

  unfoldable pub verify_presigned_url :
      Verifier → Credentials → ℕ → HttpRequest → Option SignatureError × HttpRequest
  unfolding parse_amz_date verify_presigned_params
  verify_presigned_url v creds now r =
      if not (get (text "X-Amz-Algorithm") r.query == algorithm)
      then (some invalid_request, r)
      else elim (parse_amz_date (get (text "X-Amz-Date") r.query)) [
        | none ↦ (some invalid_request, r)
        | some request_time ↦
            if skew_exceeded v now request_time
            then (some request_time_too_skewed, r)
            else verify_presigned_params v creds now r request_time
      ]

  unfoldable pub verify_request : Verifier → ℕ → HttpRequest → Option SignatureError × HttpRequest
  verify_request v now r = elim v.store [
    | none ↦ (some access_denied, r)
    | some creds ↦
        if not (get (text "Authorization") r.headers == [])
        then verify_header_auth v creds now r
        else if not (get (text "X-Amz-Algorithm") r.query == [])
        then verify_presigned_url v creds now r
        else (some missing_authentication_token, r)
  ]
