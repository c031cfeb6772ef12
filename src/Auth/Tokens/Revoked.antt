-- ===== src/Auth/Tokens/Revoked.antt =====
-- Proofs on internal/auth/pat_manager.go: revocation over any calls.
use s.Prelude.{
  ℕ, ◌≡◌, ◌≢◌, ◌∙◌, refl, sym, ap, true, some, List, [], ◌∷◌, Text, text_eq, ◌==◌, ok, err, arith,
  Option-cases, Outcome-cases, Bool-cases, inl, inr,
}
use s.Dict.{Dict, lookup}
use s.Dict.Laws.{lookup-put}
use s.Dict.Keyed.{Keyed, Keyed-put, Keyed-empty, HasDistinctKeys, HasDistinctKeys-put}
use s.Lifecycle.Rules.{Int64}
use s.Strings.Laws.{Lacks}
use s.Auth.Tokens.Format.{create_token_ok, split_token-print}
use s.Auth.Tokens.{
  TokenError, invalid_token, Claims, Coding, split_token, claims_of, create_token, verify_token,
  IssuedRecord, TokenManager, is_revoked, issued_token, issue, verify_issued, revoked_record,
  revoke,
}

-- What is relied on in the coding: random ids have no space around them and survive the coding,
-- payloads and signatures are texts without a full stop, and
-- different tokens have different fingerprints.
pub record IsCoding (coding : Coding) (IsId : Text → Type 0) : Type 0 where
  pub trimmed : (id : Text) → IsId id → coding.trim_space id ≡ id
  pub decodes :
      (c : Claims) (payload : Text)
      → IsId c.token_id
      → coding.encode_claims c ≡ some payload
      → (c' : Claims) × (coding.decode_claims payload ≡ some c') × (c'.token_id ≡ c.token_id)
  pub plain_payload :
      (c : Claims) (payload : Text)
      → coding.encode_claims c ≡ some payload
      → (payload ≢ []) × Lacks 46 payload
  pub plain_signature :
      (payload key : Text)
      → (coding.sign_payload payload key ≢ []) × Lacks 46 (coding.sign_payload payload key)
  pub distinct : (a b : Text) → coding.fingerprint a ≡ coding.fingerprint b → a ≡ b

-- The calls that change a manager, each with the time it sees; an issue with its random id.
pub data ManagerCall : Type 0 where
  issue_call : Text → Int64 → Text → Text → ℕ → ManagerCall
  revoke_call : Text → ℕ → ManagerCall

-- every issue has an id of the right form, and none has the given one
pub data Avoids (IsId : Text → Type 0) (id : Text) : List ManagerCall → Type 0 where
  no_calls : Avoids IsId id []
  issues :
      {sub label new : Text} {ttl : Int64} {now : ℕ} {cs : List ManagerCall}
      → IsId new
      → new ≢ id
      → Avoids IsId id cs
      → Avoids IsId id (issue_call sub ttl label new now ∷ cs)
  revokes :
      {other : Text} {now : ℕ} {cs : List ManagerCall}
      → Avoids IsId id cs
      → Avoids IsId id (revoke_call other now ∷ cs)

is_revoked-found :
    (hash id : Text) (rec : IssuedRecord) (m : Dict Text IssuedRecord)
    → HasDistinctKeys m
    → ((k : Text) (r : IssuedRecord)
        → lookup k m ≡ some r
        → r.token_hash ≡ hash
        → r.issued.revoked ≡ true)
    → lookup id m ≡ some rec
    → rec.token_hash ≡ hash
    → is_revoked hash m ≡ true
unfolding is_revoked lookup
is_revoked-found hash id rec [] d all found same = cc
is_revoked-found hash id rec ((k, r) ∷ m) d all found same =
    elim (Bool-cases (r.token_hash == hash)) [
      | inl here ↦ rw here (
          all k r (ground (arith, text_eq.beq_iff k k))
            ((text_eq.beq_iff r.token_hash hash).0 here))
      | inr other ↦ rw other (
          is_revoked-found hash id rec m d.1
            (λ k' r' e s. all k' r' (ground (arith, text_eq.beq_iff k k', d.0)) s)
            (ground (arith, text_eq.beq_iff k id, text_eq.beq_iff r.token_hash hash)) same)
    ]

module _ (coding : Coding) where
  unfoldable pub manager_call : ManagerCall → TokenManager → TokenManager
  manager_call (issue_call sub ttl label id now) m = (issue coding sub ttl label id now m).1
  manager_call (revoke_call id now) m = (revoke coding id now m).1

  unfoldable pub manager_calls : List ManagerCall → TokenManager → TokenManager
  manager_calls [] m = m
  manager_calls (c ∷ cs) m = manager_calls cs (manager_call c m)

  -- The record stands under the id of the token whose fingerprint it holds.
  abbrev pub IsRecorded : Text → IssuedRecord → Type 0
  IsRecorded id rec =
      (token payload signature : Text) × (c : Claims) × (rec.token_hash ≡ coding.fingerprint token)
      × (split_token token ≡ ok (payload, signature))
      × (coding.decode_claims payload ≡ some c)
      × (c.token_id ≡ id)

  record IsSound (m : TokenManager) : Type 0 where
    recorded : Keyed IsRecorded m.issued
    distinct_ids : HasDistinctKeys m.issued

  -- the id has a record with the hash, which is revoked
  record IsMarked (id hash : Text) (m : TokenManager) : Type 0 where
    rec : IssuedRecord
    there : lookup id m.issued ≡ some rec
    its_hash : rec.token_hash ≡ hash
    its_mark : rec.issued.revoked ≡ true

  module _ (IsId : Text → Type 0) (law : IsCoding coding IsId) where
    created :
        (sub key id : Text) (ttl : Int64) (now : ℕ) (token : Text)
        → IsId id
        → create_token coding sub key now ttl id ≡ ok token
        → (payload signature : Text) × (c : Claims) × (split_token token ≡ ok (payload, signature))
          × (coding.decode_claims payload ≡ some c)
          × (c.token_id ≡ id)
    created sub key id ttl now token named made =
        let c : Claims = claims_of coding (coding.trim_space sub) now ttl (coding.trim_space id) in
        elim (Option-cases (coding.encode_claims c)) [
          | inl bad ↦ absurd (unfold create_token in ground arith)
          | inr (payload, encoded) ↦
              let (keyed, has_subject, has_id, printed) =
                create_token_ok coding sub key id now ttl token payload encoded made in
              let trim = law.trimmed id named in
              let (c', decoded, same) = law.decodes c payload (rw trim named) encoded in
              (
                payload,
                coding.sign_payload payload key,
                c',
                ap split_token printed
                    ∙ split_token-print payload (coding.sign_payload payload key)
                        (law.plain_payload c payload encoded).0 (law.plain_signature payload key).0
                        (law.plain_payload c payload encoded).1 (law.plain_signature payload key).1,
                decoded,
                same ∙ trim,
              )
        ]

    issue-IsSound :
        (sub label id : Text) (ttl : Int64) (now : ℕ) (m : TokenManager)
        → IsId id
        → IsSound m
        → IsSound (issue coding sub ttl label id now m).1
    issue-IsSound sub label id ttl now m named h =
        elim (Outcome-cases (create_token coding sub m.signing_key now ttl id)) [
          | inr (e, refused) ↦ unfold issue in rw (refused, issue) h
          | inl (token, made) ↦
              let rec : IssuedRecord = record {
                issued = issued_token coding sub now ttl label id;
                token_hash = coding.fingerprint token;
              } in
              let (payload, signature, c, parts, decoded, same) =
                created sub m.signing_key id ttl now token named made in
              unfold issue in
              rw (made, issue)
                (record {
                  recorded =
                      Keyed-put id rec m.issued h.recorded
                        (token, payload, signature, c, refl, parts, decoded, same);
                  distinct_ids = HasDistinctKeys-put id rec m.issued h.distinct_ids;
                })
        ]

    revoke-IsSound :
        (id : Text) (now : ℕ) (m : TokenManager) → IsSound m → IsSound (revoke coding id now m).1
    revoke-IsSound id now m h =
        let k = coding.trim_space id in
        elim (Option-cases (lookup k m.issued)) [
          | inl missing ↦ unfold revoke in rw (missing, revoke) h
          | inr (rec, known) ↦ elim (Bool-cases rec.issued.revoked) [
            | inl old ↦ unfold revoke in rw (known, revoke) (rw (old, revoke) h)
            | inr new ↦
                unfold revoke in
                rw (known, revoke)
                  (rw (new, revoke)
                    (record {
                      recorded =
                          Keyed-put k (revoked_record coding now rec) m.issued h.recorded
                            (h.recorded.at k rec known);
                      distinct_ids =
                          HasDistinctKeys-put k (revoked_record coding now rec) m.issued
                            h.distinct_ids;
                    }))
          ]
        ]

    marked-err :
        (id token : Text) (now : ℕ) (m : TokenManager)
        → IsSound m
        → IsMarked id (coding.fingerprint token) m
        → (e : TokenError) × (verify_issued coding token now m ≡ err e)
    marked-err id token now m h marked =
        let (t1, p1, s1, c1, hash1, parts1, decoded1, id1) =
          h.recorded.at id marked.rec marked.there in
        let mine = law.distinct t1 token (sym hash1 ∙ marked.its_hash) in
        let all =
          is_revoked-found (coding.fingerprint token) id marked.rec m.issued h.distinct_ids
            (λ k r there hash.
              let (t2, p2, s2, c2, hash2, parts2, decoded2, id2) = h.recorded.at k r there in
              let same : t2 ≡ t1 = law.distinct t2 token (sym hash2 ∙ hash) ∙ sym mine in
              let parts = sym parts2 ∙ (ap split_token same ∙ parts1) in
              let payload : p2 ≡ p1 = cc in
              let claims : some c2 ≡ some c1 =
                sym decoded2 ∙ (ap coding.decode_claims payload ∙ decoded1) in
              let ids : k ≡ id = cc in
              let found : lookup id m.issued ≡ some r = rw ids at there in
              cc (found, marked.there, marked.its_mark))
            marked.there marked.its_hash in
        elim (Outcome-cases (verify_token coding token m.signing_key now)) [
          | inr (e, refused) ↦ (e, unfold verify_issued in rw (refused, verify_issued) refl)
          | inl (subject, fine) ↦ (
            invalid_token,
            unfold verify_issued in rw (fine, verify_issued) (rw (all, verify_issued) refl),
          )
        ]

    call-IsSound :
        (id : Text) (cs : List ManagerCall) (m : TokenManager)
        → Avoids IsId id cs
        → IsSound m
        → IsSound (manager_calls cs m)
    unfolding manager_calls manager_call
    call-IsSound id [] m avoids h = h
    call-IsSound id (issue_call sub ttl label new now ∷ cs) m (issues named other rest) h =
        call-IsSound id cs (issue coding sub ttl label new now m).1 rest
          (issue-IsSound sub label new ttl now m named h)
    call-IsSound id (revoke_call other now ∷ cs) m (revokes rest) h =
        call-IsSound id cs (revoke coding other now m).1 rest (revoke-IsSound other now m h)

    revoke-IsMarked :
        (id hash : Text) (now : ℕ) (m : TokenManager) (rec : IssuedRecord)
        → IsId id
        → lookup id m.issued ≡ some rec
        → rec.token_hash ≡ hash
        → IsMarked id hash (revoke coding id now m).1
    revoke-IsMarked id hash now m rec named known same =
        let trim = law.trimmed id named in
        let k = coding.trim_space id in
        let known' : lookup k m.issued ≡ some rec = ap (λ t. lookup t m.issued) trim ∙ known in
        let new : IssuedRecord = revoked_record coding now rec in
        elim (Bool-cases rec.issued.revoked) [
          | inl old ↦
              unfold revoke in
              rw (known', revoke)
                (rw (old, revoke)
                  (record { rec = rec; there = known; its_hash = same; its_mark = old }))
          | inr fresh ↦
              unfold revoke in
              rw (known', revoke)
                (rw (fresh, revoke)
                  (record {
                    rec = new;
                    there =
                        ground (arith, lookup-put k id new m.issued, text_eq.beq_iff k id, trim);
                    its_hash = same;
                    its_mark = refl;
                  }))
        ]

    issue-IsMarked :
        (id hash sub label new : Text) (ttl : Int64) (now : ℕ) (m : TokenManager)
        → new ≢ id
        → IsMarked id hash m
        → IsMarked id hash (issue coding sub ttl label new now m).1
    issue-IsMarked id hash sub label new ttl now m other h =
        elim (Outcome-cases (create_token coding sub m.signing_key now ttl new)) [
          | inr (e, refused) ↦ unfold issue in rw (refused, issue) h
          | inl (token, made) ↦
              let added : IssuedRecord = record {
                issued = issued_token coding sub now ttl label new;
                token_hash = coding.fingerprint token;
              } in
              record {
                rec = h.rec;
                there =
                    unfold issue in
                    rw (made, issue)
                      (ground
                        (arith, lookup-put new id added m.issued, text_eq.beq_iff new id, h.there));
                its_hash = h.its_hash;
                its_mark = h.its_mark;
              }
        ]

    revoke_any-IsMarked :
        (id hash other : Text) (now : ℕ) (m : TokenManager)
        → IsMarked id hash m
        → IsMarked id hash (revoke coding other now m).1
    revoke_any-IsMarked id hash other now m h =
        let k = coding.trim_space other in
        elim (Option-cases (lookup k m.issued)) [
          | inl missing ↦ unfold revoke in rw (missing, revoke) h
          | inr (rec, known) ↦ elim (Bool-cases rec.issued.revoked) [
            | inl old ↦ unfold revoke in rw (known, revoke) (rw (old, revoke) h)
            | inr fresh ↦ record {
              rec = h.rec;
              there =
                  unfold revoke in
                  rw (known, revoke)
                    (rw (fresh, revoke)
                      (ground (
                        arith,
                        lookup-put k id (revoked_record coding now rec) m.issued,
                        text_eq.beq_iff k id,
                        h.there,
                        h.its_mark,
                      )));
              its_hash = h.its_hash;
              its_mark = h.its_mark;
            }
          ]
        ]

    call-IsMarked :
        (id hash : Text) (cs : List ManagerCall) (m : TokenManager)
        → Avoids IsId id cs
        → IsMarked id hash m
        → IsMarked id hash (manager_calls cs m)
    unfolding manager_calls manager_call
    call-IsMarked id hash [] m avoids h = h
    call-IsMarked id hash (issue_call sub ttl label new now ∷ cs) m (issues named other rest) h =
        call-IsMarked id hash cs (issue coding sub ttl label new now m).1 rest
          (issue-IsMarked id hash sub label new ttl now m other h)
    call-IsMarked id hash (revoke_call other now ∷ cs) m (revokes rest) h =
        call-IsMarked id hash cs (revoke coding other now m).1 rest
          (revoke_any-IsMarked id hash other now m h)

-- A revoked token is refused for good: on a new manager, after any calls, if the record of an id holds
-- the fingerprint of a token and the id is revoked, then the token is refused at any time after any
-- further calls that do not issue the same id again. The coding is as in `IsCoding`.
pub revoke_refuses :
    (coding : Coding) (IsId : Text → Type 0)
    → IsCoding coding IsId
    → (key id token : Text) (before after : List ManagerCall) (rec : IssuedRecord) (at now : ℕ)
    → IsId id
    → {other : Text} → Avoids IsId other before
    → Avoids IsId id after
    → lookup id (manager_calls coding before (record { signing_key = key; issued = [] })).issued
      ≡ some rec
    → rec.token_hash ≡ coding.fingerprint token
    → (e : TokenError) × (verify_issued coding token now (
          manager_calls coding after
            (revoke coding id at
              (manager_calls coding before (record { signing_key = key; issued = [] }))).1)
        ≡ err e)
revoke_refuses coding IsId law key id token before after rec at now named {other} fine avoids known
      same =
    let m : TokenManager =
      manager_calls coding before (record { signing_key = key; issued = [] }) in
    let sound =
      call-IsSound coding IsId law other before (record { signing_key = key; issued = [] }) fine
        (record { recorded = Keyed-empty; distinct_ids = tt }) in
    marked-err coding IsId law id token now (manager_calls coding after (revoke coding id at m).1)
      (call-IsSound coding IsId law id after (revoke coding id at m).1 avoids
        (revoke-IsSound coding IsId law id at m sound))
      (call-IsMarked coding IsId law id (coding.fingerprint token) after (revoke coding id at m).1
        avoids
        (revoke-IsMarked coding IsId law id (coding.fingerprint token) at m rec named known same))
