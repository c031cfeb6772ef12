-- ===== src/Auth/Tests.antt =====
-- Concrete runs of internal/auth.
use s.Prelude.{
  ℕ, ◌+◌, ◌-◌, ◌<◌, ◌≡◌, ◌≢◌, ◌↔◌, ◌⊎◌, inl, refl, ap, true, false, Option, none, some, List, [],
  ◌∷◌, Text, text, text_eq, text_beq, if◌then◌else◌, ok, err, Elem, arith,
}
use s.Dict.{lookup, put}
use s.Dict.Keyed.{Keyed, Keyed-put, Keyed-empty}
use s.Lifecycle.Rules.{pos}
use s.Strings.Laws.{Lacks}
use s.Auth.Credentials.{
  Credential, Credentials, add_duration, secrets, new_credential, rotate_credential, verify_secret,
  resolve_secrets,
}
use s.Auth.Credentials.Secrets.{
  IsHashed, CredentialCall, create, rotate, credential_calls, verify_secret_iff,
  rotate_credential_lem,
}
use s.Auth.Tokens.{
  TokenError, expired_token, Claims, Coding, unix, int_leb, print_token, create_token, verify_token,
  IssuedRecord, TokenManager, issue, verify_issued, revoke, issued_token,
}
use s.Auth.Tokens.Format.{verify_token-create, verify_token_ok}
use s.Auth.Tokens.Revoked.{
  IsCoding, ManagerCall, issue_call, no_calls, issues, manager_call, manager_calls, revoke_refuses,
}

abbrev plain : Text → Text
plain s = s

abbrev key : Text
key = text "AKID"

abbrev calls : List CredentialCall
calls = create key (text "old") 5 ∷ rotate key (text "new") (pos 10) 7 ∷ []

verify_secret_iff_example :
    (verify_secret plain key (text "old") 9 (credential_calls plain calls []) ≡ true) ↔ (
      (ss : List Text) × (resolve_secrets key 9 (credential_calls plain calls []) ≡ secrets ss)
      × Elem (text "old") ss)
verify_secret_iff_example = verify_secret_iff plain calls key (text "old") 9 (λ a b e. e)

abbrev first_record : Credential
first_record = new_credential plain key (text "old") 5

abbrev first_store : Credentials
first_store = (key, first_record) ∷ []

first_store-IsHashed : Keyed (IsHashed plain) first_store
unfolding put
first_store-IsHashed =
    Keyed-put key first_record [] Keyed-empty
      (record { own_id = refl; own_hash = refl; previous_hash = inl refl })

first_store-lookup : lookup key first_store ≡ some first_record
unfolding lookup text_beq
first_store-lookup = refl

rotate_credential_lem_example :
    (verify_secret plain key
        (text "old")
        9
        (rotate_credential plain key (text "new") (pos 10) 7 first_store).1
      ≡ true)
    ↔ ((text "old" ≡ text "new")
        ⊎ ((text "old" ≡ text "old") × (text "old" ≢ []) × (9 < add_duration 7 (pos 10))))
rotate_credential_lem_example =
    rotate_credential_lem plain key (text "new") (pos 10) 7 9 (text "old") first_store first_record
      (λ a b e. e) first_store-IsHashed (λ e. ground arith) (λ e. ground arith) first_store-lookup
      refl

-- A coding that shifts the bytes of the token's id away from the full stop.
abbrev shift : Text → Text
shift [] = []
shift (c ∷ cs) = (c + 100) ∷ shift cs

abbrev unshift : Text → Text
unshift [] = []
unshift (c ∷ cs) = (c - 100) ∷ unshift cs

abbrev claims_for : Text → Claims
claims_for id = record {
  token_id = id;
  subject = text "ann";
  expires_at = pos 110;
  issued_at = pos 100;
}

abbrev decode_shifted : Text → Option Claims
decode_shifted [] = none
decode_shifted (c ∷ cs) = some (claims_for (unshift cs))

abbrev coding : Coding
coding = record {
  encode_claims = λ c. some (1 ∷ shift c.token_id);
  decode_claims = decode_shifted;
  sign_payload = λ payload k. 2 ∷ [];
  fingerprint = plain;
  trim_space = plain;
}

abbrev epoch : ℕ
epoch = 62135596800000000000

abbrev token : Text
token = print_token (1 ∷ shift (text "id")) (2 ∷ [])

made :
    create_token coding (text "ann") key (epoch + 100000000000) (pos 10000000000) (text "id")
    ≡ ok token
unfolding create_token text_beq
made = refl

verify_token-create_example : verify_token coding token key (epoch + 105000000000) ≡ (
    if int_leb (pos 110) (unix (epoch + 105000000000)) then err expired_token else ok (text "ann"))
unfolding unix
verify_token-create_example =
    verify_token-create coding (text "ann") key (text "id") (epoch + 100000000000)
      (epoch + 105000000000) (pos 10000000000) token (1 ∷ shift (text "id")) made
      (claims_for (text "id")) refl refl refl (λ e. ground arith) (λ e. ground arith)
      (refl, (refl, (refl, tt))) (refl, tt) (λ t. refl) refl

verified : verify_token coding token key (epoch + 105000000000) ≡ ok (text "ann")
unfolding unix
verified = verify_token-create_example

verify_token_ok_example :
    (payload : Text) × (claims : Claims) × (token ≡ print_token payload (2 ∷ []))
    × (decode_shifted payload ≡ some claims)
    × (int_leb claims.expires_at (unix (epoch + 105000000000)) ≡ false)
    × (text "ann" ≡ claims.subject)
    × (text "ann" ≢ [])
verify_token_ok_example =
    verify_token_ok coding token key (epoch + 105000000000) (text "ann") verified

unshift-shift : (t : Text) → unshift (shift t) ≡ t
unshift-shift [] = refl
unshift-shift (c ∷ cs) = grind (arith, unshift-shift cs)

shift-Lacks : (t : Text) → Lacks 46 (shift t)
shift-Lacks [] = tt
shift-Lacks (c ∷ cs) = (ground arith, shift-Lacks cs)

encoded : (t payload : Text) → some (1 ∷ shift t) ≡ some payload → payload ≡ 1 ∷ shift t
encoded t payload e = cc

coding-IsCoding : IsCoding coding (λ t. Unit)
coding-IsCoding = record {
  trimmed = λ id h. refl;
  decodes = λ c payload h e. (
    claims_for (unshift (shift c.token_id)),
    ap decode_shifted (encoded c.token_id payload e),
    unshift-shift c.token_id,
  );
  plain_payload = λ c payload e.
      rw (encoded c.token_id payload e) ((λ h. ground arith), (refl, shift-Lacks c.token_id));
  plain_signature = λ payload k. ((λ e. ground arith), (refl, tt));
  distinct = λ a b e. e;
}

abbrev issued_calls : List ManagerCall
issued_calls =
    issue_call (text "ann") (pos 10000000000) (text "ci") (text "id") (epoch + 100000000000) ∷ []

abbrev later_calls : List ManagerCall
later_calls =
    issue_call (text "ann") (pos 10000000000) (text "ci") (text "di") (epoch + 102000000000) ∷ []

abbrev manager : TokenManager
manager = record { signing_key = key; issued = [] }

abbrev issued_record : IssuedRecord
issued_record = record {
  issued =
      issued_token coding (text "ann") (epoch + 100000000000) (pos 10000000000) (text "ci")
        (text "id");
  token_hash = token;
}

issued_once :
    lookup (text "id") (manager_calls coding issued_calls manager).issued ≡ some issued_record
unfolding manager_calls manager_call issue create_token lookup put text_beq
issued_once = refl

revoke_refuses_example :
    (e : TokenError) × (verify_issued coding token (epoch + 105000000000) (
        manager_calls coding later_calls
          (revoke coding
            (text "id")
            (epoch + 101000000000)
            (manager_calls coding issued_calls manager)).1)
      ≡ err e)
revoke_refuses_example =
    revoke_refuses coding (λ t. Unit) coding-IsCoding key (text "id") token issued_calls later_calls
      issued_record (epoch + 101000000000) (epoch + 105000000000) tt {other = text "no"}
      (issues tt (λ e. ground arith) no_calls) (issues tt (λ e. ground arith) no_calls) issued_once
      refl
