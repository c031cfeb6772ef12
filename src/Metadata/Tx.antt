-- ===== src/Metadata/Tx.antt =====
-- internal/metadata/store.go: `memoryTx`, the operations inside a transaction, and the function
-- that a transaction runs.
use s.Prelude.{Option, Text, Outcome}
use s.Metadata.Model.{Time, Bucket, ObjectVersion, MultipartUpload, MultipartPart, CredentialRecord}
use s.Metadata.State.{MemoryState, Op, StoreError}
use s.Metadata.Buckets
use s.Metadata.Objects
use s.Metadata.Uploads

-- The methods of the interface `TxStore`.
pub data TxCall : Type 0 where
  create_bucket : Bucket → TxCall
  delete_bucket : Text → TxCall
  update_bucket_versioning : Text → Text → TxCall
  put_object_version : ObjectVersion → TxCall
  delete_object : Text → Text → Text → Time → TxCall
  create_multipart_upload : MultipartUpload → TxCall
  delete_multipart_upload : Text → TxCall
  upsert_multipart_part : MultipartPart → TxCall
  upsert_credential_record : CredentialRecord → TxCall

unfoldable pub tx_call : TxCall → Op (Unit {0})
tx_call (create_bucket b) = Buckets.create_bucket b
tx_call (delete_bucket name) = Buckets.tx_delete_bucket name
tx_call (update_bucket_versioning name status) = Buckets.update_bucket_versioning name status
tx_call (put_object_version v) = Objects.put_object_version v
tx_call (delete_object bucket key version_id at) = Objects.delete_object bucket key version_id at
tx_call (create_multipart_upload u) = Uploads.create_multipart_upload u
tx_call (delete_multipart_upload upload_id) = Uploads.delete_multipart_upload upload_id
tx_call (upsert_multipart_part p) = Uploads.upsert_multipart_part p
tx_call (upsert_credential_record r) = Uploads.upsert_credential_record r

-- What a caller passes to RunInTx: a function that makes calls on the transaction, goes on from
-- the result of each, an error included, and ends with an error of its own or with nil.
pub data TxBody : Type 0 where
  finish : Option StoreError → TxBody
  call : TxCall → (Outcome StoreError (Unit {0}) → TxBody) → TxBody

unfoldable pub run_body : TxBody → MemoryState → Option StoreError × MemoryState
unfolding tx_call
run_body (finish e) st = (e, st)
run_body (call c next) st = let (r, st') = tx_call c st in run_body (next r) st'
