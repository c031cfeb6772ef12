-- ===== src/Metadata/Store.antt =====
-- internal/metadata/store.go: the methods of `memoryBackedStore` that change the state. Each runs
-- under the store's lock, so a history of the store is a sequence of such calls.
pub mod Atomic
pub mod Durable
pub mod Errors
use s.Prelude.{
  ℕ, zero, suc, Option, none, some, Bool, true, false, List, [], ◌∷◌, Text, Outcome, ok, err, not,
  if◌then◌else◌,
}
use s.Dict.{Dict}
use s.Metadata.Model.{
  Time, Bucket, ObjectVersion, MultipartUpload, MultipartPart, CredentialRecord,
  BucketWebsiteConfig, BucketCorsConfig, BucketPolicy, BucketPublicAccessBlock, BucketLifecycle,
  BucketNotification, BucketReplication, ObjectTagging,
}
use s.Metadata.State.{empty_state, MemoryState, Op, StoreError, save_failed}
use s.Metadata.Buckets
use s.Metadata.Settings
use s.Metadata.Settings.{
  website_table, cors_table, policy_table, public_access_table, lifecycle_table, notification_table,
  replication_table,
}
use s.Metadata.Objects
use s.Metadata.Uploads
use s.Metadata.Snapshot.{PersistedState, snapshot_state, apply_persisted_state}
use s.Metadata.Clone.{clone_state}
use s.Metadata.Tx.{TxBody, run_body}
use s.Metadata.Consistency.{repair_state}

-- `disk` is the state that was given to the persister's last Save that succeeded, if any; how the
-- persister codes it, and what its Load reads back, is not part of the store. `persister` is nil or not.
pub record Store : Type 0 where
  pub st : MemoryState
  pub persister : Bool
  pub disk : Option PersistedState

-- `newMemoryBackedStore`: the persister, if there is one, is asked for a saved state; its Load
-- gives an error, nothing, or a state, which the store then starts from.
unfoldable pub new_memory_backed_store :
    Text → Bool → Outcome StoreError (Option PersistedState) → Outcome StoreError Store
new_memory_backed_store label false loaded =
    ok (record { st = empty_state label; persister = false; disk = none })
new_memory_backed_store label true (err e) = err e
new_memory_backed_store label true (ok none) =
    ok (record { st = empty_state label; persister = true; disk = none })
new_memory_backed_store label true (ok (some ps)) =
    ok (record {
      st = apply_persisted_state ps (empty_state label);
      persister = true;
      disk = some ps;
    })

-- The calls that change the state.
pub data StoreCall : Type 0 where
  create_bucket : Bucket → StoreCall
  delete_bucket : Text → StoreCall
  update_bucket_versioning : Text → Text → StoreCall
  put_website : BucketWebsiteConfig → StoreCall
  put_cors : BucketCorsConfig → StoreCall
  put_policy : BucketPolicy → StoreCall
  put_public_access_block : BucketPublicAccessBlock → StoreCall
  put_lifecycle : BucketLifecycle → StoreCall
  put_notification : BucketNotification → StoreCall
  put_replication : BucketReplication → StoreCall
  delete_website delete_cors delete_policy delete_public_access_block : Text → StoreCall
  delete_lifecycle delete_notification delete_replication : Text → StoreCall
  put_object_tagging : ObjectTagging → StoreCall
  delete_object_tagging : Text → Text → Text → StoreCall
  put_object_version : ObjectVersion → StoreCall
  update_object_metadata : Text → Text → Text → Dict Text Text → StoreCall
  delete_object_version : Text → Text → Text → StoreCall
  delete_object : Text → Text → Text → Time → StoreCall
  delete_all_object_versions : Text → Text → StoreCall
  create_multipart_upload : MultipartUpload → StoreCall
  delete_multipart_upload : Text → StoreCall
  upsert_multipart_part : MultipartPart → StoreCall
  upsert_credential_record : CredentialRecord → StoreCall
  run_in_tx : TxBody → StoreCall
  repair_consistency : StoreCall

pub data Reply : Type 0 where
  done : Reply
  version : ObjectVersion → Reply
  versions : List ObjectVersion → Reply
  repaired : ℕ → Reply

-- the value of an operation as a reply, its state unchanged
abbrev pub replying {ℓ} : {A : Type ℓ} → (A → Reply) → Op A → Op Reply
replying f op st = let (r, st') = op st in (elim r [ ok a ↦ ok (f a) | err e ↦ err e ], st')

abbrev pub quiet : Op (Unit {0}) → Op Reply
quiet = replying (λ _. done)

-- RunInTx up to the save: the function works on a copy, which an error of it throws away.
unfoldable pub transact : TxBody → Op Reply
unfolding run_body clone_state
transact body st =
    let (e, clone) = run_body body (clone_state st) in
    elim e [ none ↦ (ok done, clone) | some error ↦ (err error, st) ]

unfoldable pub state_call : StoreCall → Op Reply
unfolding transact
state_call (create_bucket b) = quiet (Buckets.create_bucket b)
state_call (delete_bucket name) = quiet (Buckets.delete_bucket name)
state_call (update_bucket_versioning name status) =
    quiet (Buckets.update_bucket_versioning name status)
state_call (put_website cfg) = quiet (Settings.put_setting website_table cfg)
state_call (put_cors cfg) = quiet (Settings.put_setting cors_table cfg)
state_call (put_policy cfg) = quiet (Settings.put_setting policy_table cfg)
state_call (put_public_access_block cfg) = quiet (Settings.put_setting public_access_table cfg)
state_call (put_lifecycle cfg) = quiet (Settings.put_setting lifecycle_table cfg)
state_call (put_notification cfg) = quiet (Settings.put_setting notification_table cfg)
state_call (put_replication cfg) = quiet (Settings.put_setting replication_table cfg)
state_call (delete_website b) = quiet (Settings.delete_setting website_table b)
state_call (delete_cors b) = quiet (Settings.delete_setting cors_table b)
state_call (delete_policy b) = quiet (Settings.delete_setting policy_table b)
state_call (delete_public_access_block b) = quiet (Settings.delete_setting public_access_table b)
state_call (delete_lifecycle b) = quiet (Settings.delete_setting lifecycle_table b)
state_call (delete_notification b) = quiet (Settings.delete_setting notification_table b)
state_call (delete_replication b) = quiet (Settings.delete_setting replication_table b)
state_call (put_object_tagging cfg) = quiet (Settings.put_object_tagging cfg)
state_call (delete_object_tagging b k v) = quiet (Settings.delete_object_tagging b k v)
state_call (put_object_version v) = quiet (Objects.put_object_version v)
state_call (update_object_metadata b k v m) = quiet (Objects.update_object_metadata b k v m)
state_call (delete_object_version b k v) = replying version (Objects.delete_object_version b k v)
state_call (delete_object b k v at) = quiet (Objects.delete_object b k v at)
state_call (delete_all_object_versions b k) =
    replying versions (Objects.delete_all_object_versions b k)
state_call (create_multipart_upload u) = quiet (Uploads.create_multipart_upload u)
state_call (delete_multipart_upload id) = quiet (Uploads.delete_multipart_upload id)
state_call (upsert_multipart_part p) = quiet (Uploads.upsert_multipart_part p)
state_call (upsert_credential_record r) = quiet (Uploads.upsert_credential_record r)
state_call (run_in_tx body) = transact body
state_call repair_consistency = λ st. (ok (repaired (repair_state st).0), (repair_state st).1)

-- `persistLocked`; `fails` says whether the persister's Save returns an error this time. A failed
-- Save leaves the state that was saved before.
unfoldable pub persist_locked : Bool → Store → Outcome StoreError (Unit {0}) × Store
persist_locked fails store =
    if not store.persister
    then (ok tt, store)
    else if fails
    then (err save_failed, store)
    else (ok tt, record store { disk = some (snapshot_state store.st) })

-- What a method does after its operation on the state: an error of the operation is returned, with the
-- state as the operation left it; otherwise the new state is in place, whether or not it can be saved.
-- A repair that finds nothing returns before the save.
unfoldable pub finish_call :
    Bool → Outcome StoreError Reply × MemoryState → Store → Outcome StoreError Reply × Store
finish_call fails (err e, st') store = (err e, record store { st = st' })
finish_call fails (ok (repaired zero), st') store = (ok (repaired zero), record store { st = st' })
finish_call fails (ok reply, st') store =
    let (saved, store') = persist_locked fails (record store { st = st' }) in
    (elim saved [ ok _ ↦ ok reply | err e ↦ err e ], store')

unfoldable pub store_call : Bool → StoreCall → Store → Outcome StoreError Reply × Store
unfolding state_call finish_call
store_call fails c store = finish_call fails (state_call c store.st) store
