-- ===== src/Metadata/Store/Atomic.antt =====
-- Errors, transactions and failed saves of the store.
use s.Prelude.{
  ◌≡◌, ◌≢◌, refl, none, some, Bool, true, false, zero, suc, [], text_eq, Outcome, ok, err, arith,
  text_beq_iff,
}
use s.Dict.{lookup, put, has}
use s.Dict.Laws.{lookup-put}
use s.Metadata.Model.{Bucket}
use s.Metadata.State.{MemoryState, StoreError, save_failed, conflict}
use s.Metadata.Buckets
use s.Metadata.Tx.{TxBody, run_body}
use s.Metadata.Store.Errors.{transact_cases, state_call-KeepsOnError}
use s.Metadata.Store.{
  Store, StoreCall, Reply, done, version, versions, repaired, create_bucket, run_in_tx, state_call,
  persist_locked, finish_call, store_call,
}

persist_locked-st : (fails : Bool) (store : Store) → (persist_locked fails store).1.st ≡ store.st
unfolding persist_locked
persist_locked-st fails store = ground arith

-- After a transaction whose function returns nil the state is the one that the function made,
-- whether or not the save fails.
pub transaction_commits :
    (fails : Bool) (body : TxBody) (store : Store)
    → (run_body body store.st).0 ≡ none
    → (store_call fails (run_in_tx body) store).1.st ≡ (run_body body store.st).1
unfolding store_call finish_call
transaction_commits fails body store fine =
    rw (transact_cases body store.st) (rw fine (persist_locked-st fails _))

finish_call-error :
    (r : Outcome StoreError Reply) (st' : MemoryState) (store : Store) (e : StoreError)
    → ((e' : StoreError) → r ≡ err e' → st' ≡ store.st)
    → (finish_call false (r, st') store).0 ≡ err e
    → (finish_call false (r, st') store).1 ≡ store
unfolding finish_call persist_locked
finish_call-error (err e') st' store e kept h = rw (kept e' refl) refl
finish_call-error (ok (repaired zero)) st' store e kept h = ground arith
finish_call-error (ok (repaired (suc n))) st' store e kept h = ground arith
finish_call-error (ok done) st' store e kept h = ground arith
finish_call-error (ok (version v)) st' store e kept h = ground arith
finish_call-error (ok (versions vs)) st' store e kept h = ground arith

-- As long as the save does not fail, a call that returns an error changes nothing.
pub error_changes_nothing :
    (c : StoreCall) (store : Store) (e : StoreError)
    → (store_call false c store).0 ≡ err e
    → (store_call false c store).1 ≡ store
unfolding store_call
error_changes_nothing c store e h =
    finish_call-error (state_call c store.st).0 (state_call c store.st).1 store e
      (state_call-KeepsOnError c store.st) h

with_bucket : Bucket → MemoryState → MemoryState
with_bucket b st = record st { buckets = put b.name b st.buckets }

create_bucket_fresh :
    (b : Bucket) (st : MemoryState)
    → b.name ≢ []
    → has b.name st.buckets ≡ false
    → Buckets.create_bucket b st ≡ (ok tt, with_bucket b st)
unfolding Buckets.create_bucket with_bucket
create_bucket_fresh b st named fresh = ground (arith, text_beq_iff b.name [])

create_bucket_again :
    (b : Bucket) (st : MemoryState)
    → b.name ≢ []
    → Buckets.create_bucket b (with_bucket b st) ≡ (err conflict, with_bucket b st)
unfolding Buckets.create_bucket with_bucket
create_bucket_again b st named = ground (
  arith,
  text_beq_iff b.name [],
  text_beq_iff b.name b.name,
  lookup-put b.name b.name b st.buckets,
)

failed_create :
    (b : Bucket) (store : Store)
    → store.persister ≡ true
    → b.name ≢ []
    → has b.name store.st.buckets ≡ false
    → store_call true (create_bucket b) store
      ≡ (err save_failed, record store { st = with_bucket b store.st })
unfolding store_call finish_call persist_locked
failed_create b store saves named fresh =
    rw (create_bucket_fresh b store.st named fresh) (rw saves refl)

repeated_create :
    (b : Bucket) (store : Store)
    → b.name ≢ []
    → (store_call false (create_bucket b) (record store { st = with_bucket b store.st })).0
      ≡ err conflict
unfolding store_call finish_call
repeated_create b store named = rw (create_bucket_again b store.st named) refl

-- On a store with a persister: creating a bucket with a new name that is not empty returns an error
-- if the save fails, and keeps the bucket in memory; so creating it
-- again after its save failed is a conflict.
pub failed_save_keeps_change :
    (b : Bucket) (store : Store)
    → store.persister ≡ true
    → b.name ≢ []
    → has b.name store.st.buckets ≡ false
    → ((store_call true (create_bucket b) store).0 ≡ err save_failed)
      × (lookup b.name (store_call true (create_bucket b) store).1.st.buckets ≡ some b)
      × ((store_call false (create_bucket b) (store_call true (create_bucket b) store).1).0
          ≡ err conflict)
failed_save_keeps_change b store saves named fresh = rw (failed_create b store saves named fresh) (
  refl,
  unfold with_bucket in
      ground (arith, text_beq_iff b.name b.name, lookup-put b.name b.name b store.st.buckets),
  repeated_create b store named,
)
