-- ===== src/Auth/Credentials/Secrets.antt =====
-- Proofs on internal/auth/credentials.go: the secrets that a credential accepts.
use s.Prelude.{
  ℕ, ◌<◌, ◌≡◌, ◌≢◌, ◌↔◌, refl, ap, true, some, List, [], ◌∷◌, Text, text_eq, if◌then◌else◌, arith,
  Elem, Option-cases, inl, inr, ◌⊎◌,
}
use s.Dict.{lookup, put}
use s.Dict.Laws.{lookup-put}
use s.Dict.Keyed.{Keyed, Keyed-put, Keyed-empty}
use s.Lifecycle.Rules.{Int64}
use s.Auth.Credentials.{
  Credential, Credentials, active, add_duration, secrets, overlaps, new_credential, rotated,
  bootstrap_admin_credential, create_credential, rotate_credential, set_status, compare_secret,
  accepts, verify_secret, resolve_secrets,
}

-- The stored hashes are those of the stored secrets.
pub record IsHashed (hash_secret : Text → Text) (id : Text) (rec : Credential) : Type 0 where
  pub own_id : rec.access_key_id ≡ id
  pub own_hash : rec.secret_hash ≡ hash_secret rec.secret
  pub previous_hash :
      (rec.previous_secret ≡ []) ⊎ (rec.previous_secret_hash ≡ hash_secret rec.previous_secret)

-- The calls on the store, each with the time it sees.
pub data CredentialCall : Type 0 where
  bootstrap create : Text → Text → ℕ → CredentialCall
  rotate : Text → Text → Int64 → ℕ → CredentialCall
  change_status : Text → Text → CredentialCall

module _ (hash_secret : Text → Text) where
  unfoldable pub credential_call : CredentialCall → Credentials → Credentials
  credential_call (bootstrap id s now) creds =
      (bootstrap_admin_credential hash_secret id s now creds).1
  credential_call (create id s now) creds = (create_credential hash_secret id s now creds).1
  credential_call (rotate id s d now) creds = (rotate_credential hash_secret id s d now creds).1
  credential_call (change_status id s) creds = (set_status hash_secret id s creds).1

  unfoldable pub credential_calls : List CredentialCall → Credentials → Credentials
  credential_calls [] creds = creds
  credential_calls (c ∷ cs) creds = credential_calls cs (credential_call c creds)

  new_credential-IsHashed :
      (id s : Text) (now : ℕ) → IsHashed hash_secret id (new_credential hash_secret id s now)
  new_credential-IsHashed id s now = record {
    own_id = refl;
    own_hash = refl;
    previous_hash = inl refl;
  }

  credential_call-IsHashed :
      (c : CredentialCall) (creds : Credentials)
      → Keyed (IsHashed hash_secret) creds
      → Keyed (IsHashed hash_secret) (credential_call c creds)
  unfolding credential_call bootstrap_admin_credential create_credential rotate_credential
      set_status
  credential_call-IsHashed (bootstrap id s now) creds h = ground (
    arith,
    Keyed-put id (new_credential hash_secret id s now) creds h (new_credential-IsHashed id s now),
  )
  credential_call-IsHashed (create id s now) creds h = ground (
    arith,
    Keyed-put id (new_credential hash_secret id s now) creds h (new_credential-IsHashed id s now),
  )
  credential_call-IsHashed (rotate id s d now) creds h = elim (Option-cases (lookup id creds)) [
    | inl missing ↦ ground arith
    | inr (rec, known) ↦
        let old = h.at id rec known in
        let new =
          Keyed-put id (rotated hash_secret s d now rec) creds h
            (record { own_id = old.own_id; own_hash = refl; previous_hash = inr old.own_hash }) in
        ground arith
  ]
  credential_call-IsHashed (change_status id s) creds h = elim (Option-cases (lookup id creds)) [
    | inl missing ↦ ground arith
    | inr (rec, known) ↦
        let old = h.at id rec known in
        let new =
          Keyed-put id (record rec { status = s }) creds h
            (record {
              own_id = old.own_id;
              own_hash = old.own_hash;
              previous_hash = old.previous_hash;
            }) in
        ground arith
  ]

credential_calls-IsHashed :
    (hash_secret : Text → Text) (cs : List CredentialCall) (creds : Credentials)
    → Keyed (IsHashed hash_secret) creds
    → Keyed (IsHashed hash_secret) (credential_calls hash_secret cs creds)
unfolding credential_calls
credential_calls-IsHashed hash_secret [] creds h = h
credential_calls-IsHashed hash_secret (c ∷ cs) creds h =
    credential_calls-IsHashed hash_secret cs (credential_call hash_secret c creds)
      (credential_call-IsHashed hash_secret c creds h)

module _ (hash_secret : Text → Text)
    (distinct : (a b : Text) → hash_secret a ≡ hash_secret b → a ≡ b) where
  compare_secret_iff :
      (a b : Text) → (compare_secret hash_secret a (hash_secret b) ≡ true) ↔ (a ≡ b)
  compare_secret_iff a b = ground (
    arith,
    text_eq.beq_iff (hash_secret a) (hash_secret b),
    distinct a b,
    λ (e : a ≡ b). ap hash_secret e,
  )

  accepts_iff :
      (id s : Text) (at : ℕ) (rec : Credential)
      → IsHashed hash_secret id rec
      → (accepts hash_secret s at rec ≡ true) ↔ (
          (rec.status ≡ active)
          × Elem s (rec.secret ∷ (if overlaps at rec then rec.previous_secret ∷ [] else [])))
  accepts_iff id s at rec h = ground (
    arith,
    h.own_hash,
    h.previous_hash,
    compare_secret_iff s rec.secret,
    compare_secret_iff s rec.previous_secret,
    text_eq.beq_iff rec.previous_secret [],
    text_eq.beq_iff rec.status active,
  )

  abbrev live : (at : ℕ) → Credential → List Text
  live at rec = rec.secret ∷ (if overlaps at rec then rec.previous_secret ∷ [] else [])

  verify_known :
      (id s : Text) (at : ℕ) (creds : Credentials) (rec : Credential)
      → Keyed (IsHashed hash_secret) creds
      → lookup id creds ≡ some rec
      → (verify_secret hash_secret id s at creds ≡ true)
        ↔ ((rec.status ≡ active) × Elem s (live at rec))
  unfolding verify_secret
  verify_known id s at creds rec h known =
      rw (known, verify_secret) (accepts_iff id s at rec (h.at id rec known))

  resolve_known :
      (id : Text) (at : ℕ) (creds : Credentials) (rec : Credential) (ss : List Text)
      → lookup id creds ≡ some rec
      → (resolve_secrets id at creds ≡ secrets ss) ↔ ((rec.status ≡ active) × (ss ≡ live at rec))
  unfolding resolve_secrets
  resolve_known id at creds rec ss known =
      rw (known, resolve_secrets) (ground (arith, text_eq.beq_iff rec.status active))

  verify_iff :
      (id s : Text) (at : ℕ) (creds : Credentials)
      → Keyed (IsHashed hash_secret) creds
      → (verify_secret hash_secret id s at creds ≡ true)
        ↔ ((ss : List Text) × (resolve_secrets id at creds ≡ secrets ss) × Elem s ss)
  verify_iff id s at creds h = elim (Option-cases (lookup id creds)) [
    | inl missing ↦ unfold verify_secret resolve_secrets in ground arith
    | inr (rec, known) ↦
        let v = verify_known id s at creds rec h known in
        (
          λ e.
              let (on, member) = v.0 e in
              (
                live at rec,
                (resolve_known id at creds rec (live at rec) known).1 (on, refl),
                member,
              ),
          λ t.
              let (ss, e, member) = t in
              let (on, same) = (resolve_known id at creds rec ss known).0 e in
              v.1 (on, rw same at member),
        )
  ]

-- After any calls on a new store, and for a hash without collisions: a secret is accepted for a key
-- at a time exactly when it is one of those that `resolveSecrets` gives for signatures.
pub verify_secret_iff :
    (hash_secret : Text → Text) (calls : List CredentialCall) (id s : Text) (at : ℕ)
    → ((a b : Text) → hash_secret a ≡ hash_secret b → a ≡ b)
    → (verify_secret hash_secret id s at (credential_calls hash_secret calls []) ≡ true) ↔ (
        (ss : List Text) × (resolve_secrets id at (credential_calls hash_secret calls [])
          ≡ secrets ss)
        × Elem s ss)
verify_secret_iff hash_secret calls id s at distinct =
    verify_iff hash_secret distinct id s at (credential_calls hash_secret calls [])
      (credential_calls-IsHashed hash_secret calls [] Keyed-empty)

-- After a rotation the new secret is accepted, and of the others exactly the one before it, until
-- the overlap ends: for an active credential and a hash without collisions.
pub rotate_credential_lem :
    (hash_secret : Text → Text) (id new : Text) (d : Int64) (now at : ℕ) (s : Text)
    (creds : Credentials) (rec : Credential)
    → ((a b : Text) → hash_secret a ≡ hash_secret b → a ≡ b)
    → Keyed (IsHashed hash_secret) creds
    → id ≢ []
    → new ≢ []
    → lookup id creds ≡ some rec
    → rec.status ≡ active
    → (verify_secret hash_secret id s at (rotate_credential hash_secret id new d now creds).1
        ≡ true)
      ↔ ((s ≡ new) ⊎ ((s ≡ rec.secret) × (s ≢ []) × (at < add_duration now d)))
rotate_credential_lem hash_secret id new d now at s creds rec distinct h named filled known on =
    let old = h.at id rec known in
    let rec' : Credential = rotated hash_secret new d now rec in
    let creds' : Credentials = put id rec' creds in
    let h' =
      Keyed-put id rec' creds h
        (record { own_id = old.own_id; own_hash = refl; previous_hash = inr old.own_hash }) in
    let known' : lookup id creds' ≡ some rec' =
      ground (arith, lookup-put id id rec' creds, text_eq.beq_iff id id) in
    let done : (rotate_credential hash_secret id new d now creds).1 ≡ creds' =
      unfold rotate_credential in ground (arith, text_eq.beq_iff id [], text_eq.beq_iff new []) in
    rw done (
      ground (
        arith,
        verify_known hash_secret distinct id s at creds' rec' h' known',
        text_eq.beq_iff rec.secret [],
      ))
