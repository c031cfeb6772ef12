-- ===== src/Auth/Signatures/Tests.antt =====
-- Concrete requests for the verifier.
use mathlib.Core.List.{Permᴰ}
use s.Prelude.{
  ℕ, ◌+◌, ◌*◌, ◌/◌, ◌^◌, ◌<◌, ◌≡◌, ◌↔◌, ◌∙◌, ◌⊎◌, inl, refl, ap, true, false, Option, none, some,
  List, [], ◌∷◌, Text, text, text_eq, text_beq, ◌==◌, if◌then◌else◌, ltb, arith,
}
use s.Dict.{Dict, lookup}
use s.Lifecycle.Rules.{Int64, pos}
use s.Sort.{sort}
use s.Auth.Credentials.{Credentials, secrets, new_credential, resolve_secrets}
use s.Auth.Requests.{
  request_time_too_skewed, access_denied, HttpRequest, Library, get, canonical_query,
  canonical_headers, canonical_header_value, add_line, canonical_text, build_canonical_request,
}
use s.Auth.Requests.Order.{canonical_query-Perm}
use s.Auth.Signatures.{Verifier, skew_exceeded, sub_time, verify_request}
use s.Auth.Signatures.Skew.{skew_exceeded_iff}
use s.Auth.Signatures.Accepted.{IsHeaderSigned, IsPresigned, verify_request-none}
use s.Auth.Presign.{PresignOptions, checked_expiry, presign_request, sign_url, add_signature}
use s.Auth.Presign.Roundtrip.{IsLibrary, verify_request-presign}

-- A library in which a number is written as one byte, and a hash keeps its input.
abbrev read_seconds : Text → Option ℕ
read_seconds (s ∷ []) = some (s * 1000000000)
read_seconds _ = none

abbrev read_number : Text → Option Int64
read_number (n ∷ []) = some (pos n)
read_number _ = none

abbrev lib : Library
lib = record {
  parse_time = read_seconds;
  format_time = λ t. (t / 1000000000) ∷ [];
  format_date = λ t. 1 ∷ [];
  trim_space = λ s. s;
  to_lower = λ s. s;
  equal_fold = λ a b. a == b;
  fields = λ s. s ∷ [];
  canonical_key = λ s. s;
  atoi = read_number;
  itoa = λ n. n ∷ [];
  query_escape = λ s. s;
  sha256 = λ s. s;
  hmac_sha256 = λ k s. 2 ∷ s;
  hex = λ s. 3 ∷ s;
}

lib-IsLibrary : IsLibrary lib
unfolding text_beq
lib-IsLibrary = record {
  read_time = λ t early. refl;
  whole_seconds = λ t. ap (λ n. n ∷ []) (omega arith);
  has_time = λ t e. ground arith;
  read_number = λ n small. refl;
  same_name = refl;
  lower_host = refl;
  has_digits = λ k t e. ground arith;
  has_date = λ t. ((λ e. ground arith), (refl, tt));
}

abbrev req : HttpRequest
req = record {
  method = text "GET";
  path = text "/pics/cat";
  escaped_path = text "/pics/cat";
  query = [];
  host = text "s3.local";
  url_host = [];
  headers = [];
}

abbrev opts : PresignOptions
opts = record { region = []; service = []; terminal = []; expires = pos 0 }

abbrev store : Credentials
store = (text "AKID", new_credential (λ s. s) (text "AKID") (text "secret") 5) ∷ []

abbrev verifier : Verifier
verifier = record {
  store = some store;
  max_skew = pos 900000000000;
  service = text "s3";
  terminal = text "aws4_request";
}

abbrev url : HttpRequest
url = (presign_request lib req (text "AKID") (text "secret") opts 5000000000).1

signed : presign_request lib req (text "AKID") (text "secret") opts 5000000000 ≡ (none, url)
unfolding presign_request sign_url checked_expiry add_signature build_canonical_request
    canonical_headers canonical_header_value add_line canonical_text sort text_beq
signed = refl

resolved : resolve_secrets (text "AKID") 6000000000 store ≡ secrets (text "secret" ∷ [])
unfolding resolve_secrets lookup text_beq
resolved = refl

verify_request-presign_example : (verify_request lib verifier 6000000000 url).0 ≡ (
    if skew_exceeded verifier 6000000000 5000000000
    then some request_time_too_skewed
    else if ltb (5000000000 + 900000000000) 6000000000
    then some access_denied
    else none)
unfolding checked_expiry get lookup text_beq
verify_request-presign_example =
    verify_request-presign lib lib-IsLibrary req url (text "AKID") (text "secret")
      (text "us-east-1") (text "s3") (text "aws4_request") opts 5000000000 900000000000 signed refl
      (omega arith) (omega arith) refl refl refl (λ e. ground arith)
      (refl, (refl, (refl, (refl, tt))))
      (refl, (refl, (refl, (refl, (refl, (refl, (refl, (refl, (refl, tt))))))))) (refl, (refl, tt))
      (
        refl,
        (refl, (refl, (refl, (refl, (refl, (refl, (refl, (refl, (refl, (refl, (refl, tt))))))))))),
      )
      refl verifier store 6000000000 (text "secret" ∷ []) refl refl refl resolved (inl refl)

near : skew_exceeded verifier 6000000000 5000000000 ≡ false
unfolding skew_exceeded sub_time
near = refl

accepted : (verify_request lib verifier 6000000000 url).0 ≡ none
accepted = verify_request-presign_example ∙ rw near refl

verify_request-none_example :
    (creds : Credentials) × (verifier.store ≡ some creds)
    × (IsHeaderSigned lib creds 6000000000 url verifier 900000000000
        ⊎ IsPresigned lib creds 6000000000 url verifier 900000000000)
verify_request-none_example =
    verify_request-none lib verifier 900000000000 6000000000 url refl (omega arith) accepted

-- 292 years ahead and more, a request is never too far
skew_exceeded_iff_example : (skew_exceeded verifier 5 9223372036854775813 ≡ true) ↔ (
    ((9223372036854775813 + 900000000000 < 5) ⊎ (5 + 900000000000 < 9223372036854775813))
    × (9223372036854775813 < 5 + 2 ^ 63))
skew_exceeded_iff_example =
    skew_exceeded_iff verifier 900000000000 5 9223372036854775813 refl (omega arith)

abbrev a_first : Dict Text (List Text)
a_first = (text "a", text "1" ∷ []) ∷ (text "b", text "2" ∷ []) ∷ []

abbrev b_first : Dict Text (List Text)
b_first = (text "b", text "2" ∷ []) ∷ (text "a", text "1" ∷ []) ∷ []

canonical_query-Perm_example : canonical_query lib a_first true ≡ canonical_query lib b_first true
canonical_query-Perm_example = canonical_query-Perm lib true a_first b_first (Permᴰ.swap refl refl)
