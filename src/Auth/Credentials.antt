-- ===== src/Auth/Credentials.antt =====
-- internal/auth/credentials.go: the credentials for signed requests. The hash of a secret, the hex
-- digits of its SHA-256, is given. A time counts nanoseconds from Go's zero time.
pub mod Secrets
use s.Prelude.{
  ℕ, ◌+◌, ◌-◌, Bool, true, false, not, ◌&&◌, ◌||◌, Option, none, some, List, [], ◌∷◌, Text, text,
  text_eq, ◌==◌, if◌then◌else◌, ltb, nat_beq, length,
}
use s.Dict.{Dict, lookup, put, has}
use s.Lifecycle.Rules.{Int64, pos, neg}

pub data CredentialError : Type 0 where
  already_exists not_found bootstrap_completed invalid_input : CredentialError

-- A status is any text; only "active" lets a credential in.
pub record Credential : Type 0 where
  pub access_key_id : Text
  pub secret_hash : Text
  pub previous_secret_hash : Text
  pub previous_secret_until : ℕ
  pub status : Text
  pub created_at : ℕ
  pub rotated_at : ℕ
  pub secret : Text
  pub previous_secret : Text

abbrev pub Credentials : Type 0
Credentials = Dict Text Credential

abbrev pub active : Text
active = text "active"

-- now.Add(d), where a time before the zero time is taken as the zero time
abbrev pub add_duration : ℕ → Int64 → ℕ
add_duration now (pos n) = now + n
add_duration now (neg n) = now - (n + 1)

-- what `resolveSecrets` returns
pub data Resolved : Type 0 where
  unknown disabled : Resolved
  secrets : List Text → Resolved

-- the previous secret is there and has not run out
abbrev pub overlaps : ℕ → Credential → Bool
overlaps at rec = not (rec.previous_secret == []) && ltb at rec.previous_secret_until

module _ (hash_secret : Text → Text) where
  abbrev pub new_credential : Text → Text → ℕ → Credential
  new_credential access_key_id secret now = record {
    access_key_id = access_key_id;
    secret_hash = hash_secret secret;
    previous_secret_hash = [];
    previous_secret_until = 0;
    status = active;
    created_at = now;
    rotated_at = 0;
    secret = secret;
    previous_secret = [];
  }

  unfoldable pub bootstrap_admin_credential :
      Text → Text → ℕ → Credentials → Option CredentialError × Credentials
  bootstrap_admin_credential access_key_id secret now creds =
      if (access_key_id == []) || (secret == [])
      then (some invalid_input, creds)
      else if not (nat_beq (length creds) 0)
      then (some bootstrap_completed, creds)
      else (none, put access_key_id (new_credential access_key_id secret now) creds)

  unfoldable pub create_credential :
      Text → Text → ℕ → Credentials → Option CredentialError × Credentials
  create_credential access_key_id secret now creds =
      if (access_key_id == []) || (secret == [])
      then (some invalid_input, creds)
      else if has access_key_id creds
      then (some already_exists, creds)
      else (none, put access_key_id (new_credential access_key_id secret now) creds)

  abbrev pub rotated : Text → Int64 → ℕ → Credential → Credential
  rotated new_secret overlap now rec = record rec {
    previous_secret_hash = rec.secret_hash;
    previous_secret = rec.secret;
    previous_secret_until = add_duration now overlap;
    secret = new_secret;
    secret_hash = hash_secret new_secret;
    rotated_at = now;
  }

  unfoldable pub rotate_credential :
      Text → Text → Int64 → ℕ → Credentials → Option CredentialError × Credentials
  rotate_credential access_key_id new_secret overlap now creds =
      if (access_key_id == []) || (new_secret == [])
      then (some invalid_input, creds)
      else elim (lookup access_key_id creds) [
        | none ↦ (some not_found, creds)
        | some rec ↦ (none, put access_key_id (rotated new_secret overlap now rec) creds)
      ]

  unfoldable pub set_status : Text → Text → Credentials → Option CredentialError × Credentials
  set_status access_key_id status creds = elim (lookup access_key_id creds) [
    | none ↦ (some not_found, creds)
    | some rec ↦ (none, put access_key_id (record rec { status = status }) creds)
  ]

  -- hmac's constant-time comparison is an equality
  abbrev pub compare_secret : Text → Text → Bool
  compare_secret secret expected_hash = hash_secret secret == expected_hash

  -- the body of `VerifySecret` for a record that is there
  abbrev pub accepts : Text → ℕ → Credential → Bool
  accepts secret at rec =
      (rec.status == active)
      && (compare_secret secret rec.secret_hash
          || (overlaps at rec && compare_secret secret rec.previous_secret_hash))

  unfoldable pub verify_secret : Text → Text → ℕ → Credentials → Bool
  verify_secret access_key_id secret at creds = elim (lookup access_key_id creds) [
    | none ↦ false
    | some rec ↦ accepts secret at rec
  ]

unfoldable pub resolve_secrets : Text → ℕ → Credentials → Resolved
resolve_secrets access_key_id at creds = elim (lookup access_key_id creds) [
  | none ↦ unknown
  | some rec ↦
      if not (rec.status == active)
      then disabled
      else secrets (rec.secret ∷ (if overlaps at rec then rec.previous_secret ∷ [] else []))
]
