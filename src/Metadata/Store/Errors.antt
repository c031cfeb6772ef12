-- ===== src/Metadata/Store/Errors.antt =====
-- internal/metadata/store.go: a call of the store that returns an error before its save leaves the state as
-- it was.
pub mod Operations
use s.Prelude.{◌≡◌, refl, ap, Option, none, some, Outcome, ok, err, arith}
use s.Metadata.State.{MemoryState, Op, StoreError}
use s.Metadata.Buckets
use s.Metadata.Settings
use s.Metadata.Settings.{
  website_table, cors_table, policy_table, public_access_table, lifecycle_table, notification_table,
  replication_table,
}
use s.Metadata.Objects
use s.Metadata.Uploads
use s.Metadata.Clone.{clone_state-eq}
use s.Metadata.Tx.{TxBody, run_body}
use s.Metadata.Store.{
  StoreCall, Reply, done, version, versions, replying, quiet, transact, state_call,
}
use s.Metadata.Store.Errors.Operations.{
  KeepsOnError, create_bucket-KeepsOnError, delete_bucket-KeepsOnError,
  update_bucket_versioning-KeepsOnError, put_object_tagging-KeepsOnError,
  delete_object_tagging-KeepsOnError, put_object_version-KeepsOnError,
  update_object_metadata-KeepsOnError, delete_object_version-KeepsOnError,
  delete_object-KeepsOnError, delete_all_object_versions-KeepsOnError,
  create_multipart_upload-KeepsOnError, delete_multipart_upload-KeepsOnError,
  upsert_multipart_part-KeepsOnError, upsert_credential_record-KeepsOnError,
  put_setting-KeepsOnError, delete_setting-KeepsOnError,
}

module _ {ℓ} {A : Type ℓ} where
  replying-KeepsOnError :
      (f : A → Reply) (op : Op A) → KeepsOnError op → KeepsOnError (replying f op)
  replying-KeepsOnError f op kept st e h = kept st e (from (op st).0 h)
    where
      from :
          (r : Outcome StoreError A)
          → elim r as (λ _. Outcome StoreError Reply) [ ok a ↦ ok (f a) | err e'' ↦ err e'' ]
            ≡ err e
          → r ≡ err e
      from (ok a) same = absurd (ground arith)
      from (err e'') same = ground arith

quiet-KeepsOnError : (op : Op (Unit {0})) → KeepsOnError op → KeepsOnError (quiet op)
quiet-KeepsOnError = replying-KeepsOnError (λ _. done)

pub transact_cases :
    (body : TxBody) (st : MemoryState)
    → transact body st
      ≡ elim (run_body body st).0 as (λ _. Outcome StoreError Reply × MemoryState) [
        | none ↦ (ok done, (run_body body st).1)
        | some e ↦ (err e, st)
      ]
unfolding transact
transact_cases body st =
    ap
      (λ c. elim (run_body body c).0 as (λ _. Outcome StoreError Reply × MemoryState) [
        | none ↦ (ok done, (run_body body c).1)
        | some e ↦ (err e, st)
      ])
      (clone_state-eq st)

transact-KeepsOnError : (body : TxBody) → KeepsOnError (transact body)
transact-KeepsOnError body st e = rw (transact_cases body st) (ended (run_body body st))
  where
    ended :
        (r : Option StoreError × MemoryState)
        → (elim r.0 as (λ _. Outcome StoreError Reply × MemoryState) [
          | none ↦ (ok done, r.1)
          | some e' ↦ (err e', st)
        ]).0
          ≡ err e
        → (elim r.0 as (λ _. Outcome StoreError Reply × MemoryState) [
          | none ↦ (ok done, r.1)
          | some e' ↦ (err e', st)
        ]).1
          ≡ st
    ended (none, st') h = absurd (ground arith)
    ended (some e', st') h = refl

-- Whatever the call, its operation leaves the state as it was when it returns an error.
pub state_call-KeepsOnError : (c : StoreCall) → KeepsOnError (state_call c)
unfolding state_call
state_call-KeepsOnError (StoreCall.create_bucket b) =
    quiet-KeepsOnError (Buckets.create_bucket b) (create_bucket-KeepsOnError b)
state_call-KeepsOnError (StoreCall.delete_bucket n) =
    quiet-KeepsOnError (Buckets.delete_bucket n) (delete_bucket-KeepsOnError n)
state_call-KeepsOnError (StoreCall.update_bucket_versioning n v) =
    quiet-KeepsOnError (Buckets.update_bucket_versioning n v)
      (update_bucket_versioning-KeepsOnError n v)
state_call-KeepsOnError (StoreCall.put_website c) =
    quiet-KeepsOnError (Settings.put_setting website_table c)
      (put_setting-KeepsOnError website_table c)
state_call-KeepsOnError (StoreCall.put_cors c) =
    quiet-KeepsOnError (Settings.put_setting cors_table c) (put_setting-KeepsOnError cors_table c)
state_call-KeepsOnError (StoreCall.put_policy c) =
    quiet-KeepsOnError (Settings.put_setting policy_table c)
      (put_setting-KeepsOnError policy_table c)
state_call-KeepsOnError (StoreCall.put_public_access_block c) =
    quiet-KeepsOnError (Settings.put_setting public_access_table c)
      (put_setting-KeepsOnError public_access_table c)
state_call-KeepsOnError (StoreCall.put_lifecycle c) =
    quiet-KeepsOnError (Settings.put_setting lifecycle_table c)
      (put_setting-KeepsOnError lifecycle_table c)
state_call-KeepsOnError (StoreCall.put_notification c) =
    quiet-KeepsOnError (Settings.put_setting notification_table c)
      (put_setting-KeepsOnError notification_table c)
state_call-KeepsOnError (StoreCall.put_replication c) =
    quiet-KeepsOnError (Settings.put_setting replication_table c)
      (put_setting-KeepsOnError replication_table c)
state_call-KeepsOnError (StoreCall.delete_website b) =
    quiet-KeepsOnError (Settings.delete_setting website_table b)
      (delete_setting-KeepsOnError website_table b)
state_call-KeepsOnError (StoreCall.delete_cors b) =
    quiet-KeepsOnError (Settings.delete_setting cors_table b)
      (delete_setting-KeepsOnError cors_table b)
state_call-KeepsOnError (StoreCall.delete_policy b) =
    quiet-KeepsOnError (Settings.delete_setting policy_table b)
      (delete_setting-KeepsOnError policy_table b)
state_call-KeepsOnError (StoreCall.delete_public_access_block b) =
    quiet-KeepsOnError (Settings.delete_setting public_access_table b)
      (delete_setting-KeepsOnError public_access_table b)
state_call-KeepsOnError (StoreCall.delete_lifecycle b) =
    quiet-KeepsOnError (Settings.delete_setting lifecycle_table b)
      (delete_setting-KeepsOnError lifecycle_table b)
state_call-KeepsOnError (StoreCall.delete_notification b) =
    quiet-KeepsOnError (Settings.delete_setting notification_table b)
      (delete_setting-KeepsOnError notification_table b)
state_call-KeepsOnError (StoreCall.delete_replication b) =
    quiet-KeepsOnError (Settings.delete_setting replication_table b)
      (delete_setting-KeepsOnError replication_table b)
state_call-KeepsOnError (StoreCall.put_object_tagging c) =
    quiet-KeepsOnError (Settings.put_object_tagging c) (put_object_tagging-KeepsOnError c)
state_call-KeepsOnError (StoreCall.delete_object_tagging b k v) =
    quiet-KeepsOnError (Settings.delete_object_tagging b k v)
      (delete_object_tagging-KeepsOnError b k v)
state_call-KeepsOnError (StoreCall.put_object_version v) =
    quiet-KeepsOnError (Objects.put_object_version v) (put_object_version-KeepsOnError v)
state_call-KeepsOnError (StoreCall.update_object_metadata b k v m) =
    quiet-KeepsOnError (Objects.update_object_metadata b k v m)
      (update_object_metadata-KeepsOnError b k v m)
state_call-KeepsOnError (StoreCall.delete_object_version b k v) =
    replying-KeepsOnError version (Objects.delete_object_version b k v)
      (delete_object_version-KeepsOnError b k v)
state_call-KeepsOnError (StoreCall.delete_object b k v at) =
    quiet-KeepsOnError (Objects.delete_object b k v at) (delete_object-KeepsOnError b k v at)
state_call-KeepsOnError (StoreCall.delete_all_object_versions b k) =
    replying-KeepsOnError versions (Objects.delete_all_object_versions b k)
      (delete_all_object_versions-KeepsOnError b k)
state_call-KeepsOnError (StoreCall.create_multipart_upload u) =
    quiet-KeepsOnError (Uploads.create_multipart_upload u) (create_multipart_upload-KeepsOnError u)
state_call-KeepsOnError (StoreCall.delete_multipart_upload id) =
    quiet-KeepsOnError (Uploads.delete_multipart_upload id)
      (delete_multipart_upload-KeepsOnError id)
state_call-KeepsOnError (StoreCall.upsert_multipart_part p) =
    quiet-KeepsOnError (Uploads.upsert_multipart_part p) (upsert_multipart_part-KeepsOnError p)
state_call-KeepsOnError (StoreCall.upsert_credential_record r) =
    quiet-KeepsOnError (Uploads.upsert_credential_record r)
      (upsert_credential_record-KeepsOnError r)
state_call-KeepsOnError (StoreCall.run_in_tx body) = transact-KeepsOnError body
state_call-KeepsOnError StoreCall.repair_consistency = λ st e h. absurd (ground arith)
