-- ===== src/Metadata/Invariant/Calls.antt =====
-- Every history of the store, with its transactions, repairs and failed saves, keeps the state
-- well formed.
use s.Prelude.{
  ◌≡◌, Bool, Option, none, some, List, [], ◌∷◌, Text, Outcome, ok, err, zero, suc, arith, text_eq,
  nat_eq,
}
use s.Dict.Keyed.{Keyed-empty}
use s.Metadata.State.{object_key_eq, MemoryState, StoreError, empty_state}
use s.Metadata.Store.Errors.{transact_cases}
use s.Metadata.Tx.{TxCall, TxBody, tx_call, run_body}
use s.Metadata.Store.{
  Store, StoreCall, Reply, transact, state_call, persist_locked, finish_call, store_call,
}
use s.Metadata.Invariant.{IsWellFormed}
use s.Metadata.Invariant.Settings.{
  put_setting-IsWellFormed, delete_setting-IsWellFormed, website-IsCovered, cors-IsCovered,
  policy-IsCovered, public_access-IsCovered, lifecycle-IsCovered, notification-IsCovered,
  replication-IsCovered, create_bucket-IsWellFormed, update_bucket_versioning-IsWellFormed,
  delete_bucket-IsWellFormed, tx_delete_bucket-IsWellFormed, put_object_tagging-IsWellFormed,
  delete_object_tagging-IsWellFormed,
}
use s.Metadata.Invariant.Objects.{
  put_object_version-IsWellFormed, update_object_metadata-IsWellFormed,
  delete_object_version-IsWellFormed, delete_object-IsWellFormed,
  delete_all_object_versions-IsWellFormed,
}
use s.Metadata.Invariant.Uploads.{
  create_multipart_upload-IsWellFormed, delete_multipart_upload-IsWellFormed,
  upsert_multipart_part-IsWellFormed, upsert_credential_record-IsWellFormed,
}
use s.Metadata.Invariant.Repair.{repair_state-IsWellFormed}

tx_call-IsWellFormed :
    (c : TxCall) (st : MemoryState) → IsWellFormed st → IsWellFormed (tx_call c st).1
unfolding tx_call
tx_call-IsWellFormed (TxCall.create_bucket b) st w = create_bucket-IsWellFormed st w b
tx_call-IsWellFormed (TxCall.delete_bucket n) st w = tx_delete_bucket-IsWellFormed st w n
tx_call-IsWellFormed (TxCall.update_bucket_versioning n v) st w =
    update_bucket_versioning-IsWellFormed st w n v
tx_call-IsWellFormed (TxCall.put_object_version v) st w = put_object_version-IsWellFormed st w v
tx_call-IsWellFormed (TxCall.delete_object b k v at) st w = delete_object-IsWellFormed st w b k v at
tx_call-IsWellFormed (TxCall.create_multipart_upload u) st w =
    create_multipart_upload-IsWellFormed st w u
tx_call-IsWellFormed (TxCall.delete_multipart_upload id) st w =
    delete_multipart_upload-IsWellFormed st w id
tx_call-IsWellFormed (TxCall.upsert_multipart_part p) st w =
    upsert_multipart_part-IsWellFormed st w p
tx_call-IsWellFormed (TxCall.upsert_credential_record r) st w =
    upsert_credential_record-IsWellFormed st w r

run_body-IsWellFormed :
    (body : TxBody) (st : MemoryState) → IsWellFormed st → IsWellFormed (run_body body st).1
unfolding run_body
run_body-IsWellFormed (TxBody.finish e) st w = w
run_body-IsWellFormed (TxBody.call c next) st w =
    let (r, st') = tx_call c st in run_body-IsWellFormed (next r) st' (tx_call-IsWellFormed c st w)

transact-IsWellFormed :
    (body : TxBody) (st : MemoryState) → IsWellFormed st → IsWellFormed (transact body st).1
transact-IsWellFormed body st w =
    rw (transact_cases body st) (ended (run_body body st) (run_body-IsWellFormed body st w))
  where
    ended :
        (r : Option StoreError × MemoryState)
        → IsWellFormed r.1
        → IsWellFormed
            (elim r.0 as (λ _. Outcome StoreError Reply × MemoryState) [
              | none ↦ (ok Reply.done, r.1)
              | some e ↦ (err e, st)
            ]).1
    ended (none, st') h = h
    ended (some e, st') h = w

state_call-IsWellFormed :
    (c : StoreCall) (st : MemoryState) → IsWellFormed st → IsWellFormed (state_call c st).1
unfolding state_call
state_call-IsWellFormed (StoreCall.create_bucket b) st w = create_bucket-IsWellFormed st w b
state_call-IsWellFormed (StoreCall.delete_bucket n) st w = delete_bucket-IsWellFormed st w n
state_call-IsWellFormed (StoreCall.update_bucket_versioning n v) st w =
    update_bucket_versioning-IsWellFormed st w n v
state_call-IsWellFormed (StoreCall.put_website c) st w =
    put_setting-IsWellFormed _ website-IsCovered st w c
state_call-IsWellFormed (StoreCall.put_cors c) st w =
    put_setting-IsWellFormed _ cors-IsCovered st w c
state_call-IsWellFormed (StoreCall.put_policy c) st w =
    put_setting-IsWellFormed _ policy-IsCovered st w c
state_call-IsWellFormed (StoreCall.put_public_access_block c) st w =
    put_setting-IsWellFormed _ public_access-IsCovered st w c
state_call-IsWellFormed (StoreCall.put_lifecycle c) st w =
    put_setting-IsWellFormed _ lifecycle-IsCovered st w c
state_call-IsWellFormed (StoreCall.put_notification c) st w =
    put_setting-IsWellFormed _ notification-IsCovered st w c
state_call-IsWellFormed (StoreCall.put_replication c) st w =
    put_setting-IsWellFormed _ replication-IsCovered st w c
state_call-IsWellFormed (StoreCall.delete_website b) st w =
    delete_setting-IsWellFormed _ website-IsCovered st w b
state_call-IsWellFormed (StoreCall.delete_cors b) st w =
    delete_setting-IsWellFormed _ cors-IsCovered st w b
state_call-IsWellFormed (StoreCall.delete_policy b) st w =
    delete_setting-IsWellFormed _ policy-IsCovered st w b
state_call-IsWellFormed (StoreCall.delete_public_access_block b) st w =
    delete_setting-IsWellFormed _ public_access-IsCovered st w b
state_call-IsWellFormed (StoreCall.delete_lifecycle b) st w =
    delete_setting-IsWellFormed _ lifecycle-IsCovered st w b
state_call-IsWellFormed (StoreCall.delete_notification b) st w =
    delete_setting-IsWellFormed _ notification-IsCovered st w b
state_call-IsWellFormed (StoreCall.delete_replication b) st w =
    delete_setting-IsWellFormed _ replication-IsCovered st w b
state_call-IsWellFormed (StoreCall.put_object_tagging c) st w =
    put_object_tagging-IsWellFormed st w c
state_call-IsWellFormed (StoreCall.delete_object_tagging b k v) st w =
    delete_object_tagging-IsWellFormed st w b k v
state_call-IsWellFormed (StoreCall.put_object_version v) st w =
    put_object_version-IsWellFormed st w v
state_call-IsWellFormed (StoreCall.update_object_metadata b k v m) st w =
    update_object_metadata-IsWellFormed st w b k v m
state_call-IsWellFormed (StoreCall.delete_object_version b k v) st w =
    delete_object_version-IsWellFormed st w b k v
state_call-IsWellFormed (StoreCall.delete_object b k v at) st w =
    delete_object-IsWellFormed st w b k v at
state_call-IsWellFormed (StoreCall.delete_all_object_versions b k) st w =
    delete_all_object_versions-IsWellFormed st w b k
state_call-IsWellFormed (StoreCall.create_multipart_upload u) st w =
    create_multipart_upload-IsWellFormed st w u
state_call-IsWellFormed (StoreCall.delete_multipart_upload id) st w =
    delete_multipart_upload-IsWellFormed st w id
state_call-IsWellFormed (StoreCall.upsert_multipart_part p) st w =
    upsert_multipart_part-IsWellFormed st w p
state_call-IsWellFormed (StoreCall.upsert_credential_record r) st w =
    upsert_credential_record-IsWellFormed st w r
state_call-IsWellFormed (StoreCall.run_in_tx body) st w = transact-IsWellFormed body st w
state_call-IsWellFormed StoreCall.repair_consistency st w = repair_state-IsWellFormed st w

persist-st : (fails : Bool) (store : Store) → (persist_locked fails store).1.st ≡ store.st
unfolding persist_locked
persist-st fails store = ground arith

-- The state after a call is the one that the operation left.
pub finish_call-st :
    (fails : Bool) (r : Outcome StoreError Reply) (st' : MemoryState) (store : Store)
    → (P : MemoryState → Type 0) → P st'
    → P (finish_call fails (r, st') store).1.st
unfolding finish_call
finish_call-st fails (err e) st' store P after = after
finish_call-st fails (ok (Reply.repaired zero)) st' store P after = after
finish_call-st fails (ok (Reply.repaired (suc n))) st' store P after = rw persist-st after
finish_call-st fails (ok Reply.done) st' store P after = rw persist-st after
finish_call-st fails (ok (Reply.version v)) st' store P after = rw persist-st after
finish_call-st fails (ok (Reply.versions vs)) st' store P after = rw persist-st after

-- Whatever the call and whether or not its save fails, a well-formed state stays well formed.
pub store_call-IsWellFormed :
    (fails : Bool) (c : StoreCall) (store : Store)
    → IsWellFormed store.st
    → IsWellFormed (store_call fails c store).1.st
unfolding store_call
store_call-IsWellFormed fails c store w =
    let (r, st') = state_call c store.st in
    finish_call-st fails r st' store IsWellFormed (state_call-IsWellFormed c store.st w)

-- A history: calls, each with the outcome of its save.
unfoldable pub run_calls : List (Bool × StoreCall) → Store → Store
run_calls [] store = store
run_calls ((fails, c) ∷ rest) store = run_calls rest (store_call fails c store).1

abbrev pub new_store : Text → Bool → Store
new_store label persister = record { st = empty_state label; persister = persister; disk = none }

empty_state-IsWellFormed : (label : Text) → IsWellFormed (empty_state label)
unfolding empty_state
empty_state-IsWellFormed label = record {
  buckets = Keyed-empty;
  objects = Keyed-empty;
  multipart = Keyed-empty;
  parts = Keyed-empty;
  credentials = Keyed-empty;
  websites = Keyed-empty;
  cors = Keyed-empty;
  policies = Keyed-empty;
  public_access = Keyed-empty;
  lifecycles = Keyed-empty;
  notifications = Keyed-empty;
  replications = Keyed-empty;
  taggings = Keyed-empty;
  buckets_distinct = tt;
  objects_distinct = tt;
  multipart_distinct = tt;
  taggings_distinct = tt;
}

run_calls-IsWellFormed_from :
    (calls : List (Bool × StoreCall)) (store : Store)
    → IsWellFormed store.st
    → IsWellFormed (run_calls calls store).st
unfolding run_calls
run_calls-IsWellFormed_from [] store w = w
run_calls-IsWellFormed_from ((fails, c) ∷ rest) store w =
    run_calls-IsWellFormed_from rest (store_call fails c store).1
      (store_call-IsWellFormed fails c store w)

-- After any history of calls on a new store, with saves that fail and transactions that end in
-- an error, the state is well formed.
pub run_calls-IsWellFormed :
    (label : Text) (persister : Bool) (calls : List (Bool × StoreCall))
    → IsWellFormed (run_calls calls (new_store label persister)).st
run_calls-IsWellFormed label persister calls =
    run_calls-IsWellFormed_from calls (new_store label persister) (empty_state-IsWellFormed label)
