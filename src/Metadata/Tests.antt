-- ===== src/Metadata/Tests.antt =====
-- The theorems of the catalogue at concrete inputs.
use s.Prelude.{
  ℕ, ◌≡◌, ◌↔◌, refl, ap, sym, none, some, true, false, List, [], ◌∷◌, Text, text, text_eq, nat_eq,
  ok, err, Elem, arith, text_beq,
}
use s.Dict.{lookup, put}
use s.Metadata.Model.{
  Bucket, ObjectVersion, MultipartUpload, MultipartPart, BucketPolicy, ObjectTagging,
}
use s.Metadata.State.{
  MemoryState, caller, not_found, conflict, save_failed, empty_state, object_key_eq,
}
use s.Metadata.Buckets
use s.Metadata.Settings.{notification_table, replication_table, get_setting}
use s.Metadata.Settings.Laws.{HasNoSettings, delete_bucket-HasNoSettings, tx_delete_bucket_leaves}
use s.Metadata.Objects.{
  object_key, versions_of, get_latest_object_version, get_object_version, list_objects,
  list_object_versions, version_less,
}
use s.Metadata.Objects
use s.Metadata.Objects.Reads.{get_object_version-put_ne}
use s.Metadata.Objects.Listing.{list_objects_iff, list_object_versions-IsSorted}
use s.Metadata.Uploads.{get_multipart_upload, parts_of}
use s.Metadata.Uploads
use s.Metadata.Uploads.Laws.{IsAscending, get_multipart_upload_parts}
use s.Metadata.Consistency.{validate_state, repair_state}
use s.Metadata.Consistency.Repair.{validate-repair}
use s.Metadata.Tx.{TxBody, TxCall}
use s.Metadata.Tx
use s.Metadata.Snapshot.{PersistedState, snapshot_state, apply_persisted_state}
use s.Metadata.Snapshot.Laws.{SameState, snapshot_round_trip}
use s.Metadata.Store.{persist_locked, Store, StoreCall, store_call, new_memory_backed_store}
use s.Metadata.Store.Atomic.{transaction_commits, error_changes_nothing, failed_save_keeps_change}
use s.Metadata.Persister.{Json, file_load, saved_file}
use s.Metadata.Store.Durable.{all_saved, IsJson, reopen_same}
use s.Metadata.Invariant.{IsWellFormed}
use s.Metadata.Invariant.Calls.{run_calls, new_store, run_calls-IsWellFormed}
use s.Sort.Laws.{IsSorted}

abbrev photos : Bucket
photos = record {
  name = text "photos";
  created_at = 1;
  region = text "local";
  versioning_status = [];
}

abbrev cat : Text → ObjectVersion
cat id = record {
  bucket = text "photos";
  key = text "cat";
  version_id = id;
  size = 3;
  etag = text "e";
  checksum_sha256 = [];
  checksum_sha1 = [];
  checksum_crc32 = [];
  checksum_crc32c = [];
  storage_path = text "p";
  metadata = [];
  delete_marker = false;
  created_at = 5;
}

abbrev upload : MultipartUpload
upload = record {
  upload_id = text "u1";
  bucket = text "photos";
  key = text "big";
  sse_algorithm = [];
  initiated_at = 6;
}

abbrev part : ℕ → MultipartPart
part n = record {
  upload_id = text "u1";
  part_number = n;
  etag = [];
  size = 5;
  checksum_sha256 = [];
  checksum_sha1 = [];
  checksum_crc32 = [];
  checksum_crc32c = [];
  storage_path = [];
  created_at = 7;
}

abbrev policy : BucketPolicy
policy = record { bucket = text "photos"; document = text "{}"; enabled = true }

-- Puts an object, and rolls back if the bucket exists already.
abbrev body : TxBody
body = TxBody.call (TxCall.put_object_version (cat (text "null"))) (λ _.
    TxBody.call (TxCall.create_bucket photos)
      (λ r. elim r [ ok _ ↦ TxBody.finish none | err e ↦ TxBody.finish (some caller) ]))

abbrev calls : List StoreCall
calls =
    StoreCall.create_bucket photos
    ∷ StoreCall.put_policy policy
    ∷ StoreCall.put_object_version (cat (text "v1"))
    ∷ StoreCall.put_object_version (cat (text "null"))
    ∷ StoreCall.create_multipart_upload upload
    ∷ StoreCall.upsert_multipart_part (part 2)
    ∷ StoreCall.upsert_multipart_part (part 1)
    ∷ StoreCall.run_in_tx body
    ∷ StoreCall.repair_consistency
    ∷ []

abbrev store : Store
store = run_calls (all_saved calls) (new_store (text "sqlite") true)

store-IsWellFormed : IsWellFormed store.st
store-IsWellFormed = run_calls-IsWellFormed (text "sqlite") true (all_saved calls)

run_calls-IsWellFormed_example :
    IsWellFormed
      (run_calls
        ((true, StoreCall.create_bucket photos) ∷ (false, StoreCall.run_in_tx body) ∷ [])
        (new_store (text "sqlite") true)).st
run_calls-IsWellFormed_example =
    run_calls-IsWellFormed (text "sqlite") true
      ((true, StoreCall.create_bucket photos) ∷ (false, StoreCall.run_in_tx body) ∷ [])

-- A coding that knows one state: it is plain, and coded as the empty text.
abbrev one_state : Json
one_state = record { marshal = λ ps. some []; unmarshal = λ bytes. some (snapshot_state store.st) }

abbrev IsLast : PersistedState → Type 0
IsLast ps = ps ≡ snapshot_state store.st

one_state-IsJson : IsJson one_state IsLast
one_state-IsJson = record {
  coded = λ ps plain. ([], refl);
  read_back = λ ps bytes plain coded. ap (λ p. some p) (sym plain);
}

reopen_same_example :
    (again : Store) × (new_memory_backed_store
        (text "sqlite")
        true
        (file_load one_state true (saved_file one_state store.disk))
      ≡ ok again)
    × SameState again.st store.st
reopen_same_example = reopen_same one_state IsLast one_state-IsJson (text "sqlite") calls refl

snapshot_round_trip_example :
    SameState (apply_persisted_state (snapshot_state store.st) (empty_state [])) store.st
snapshot_round_trip_example = snapshot_round_trip store.st (empty_state []) store-IsWellFormed

error_changes_nothing_example :
    (store_call false (StoreCall.delete_bucket (text "x")) (new_store [] true)).1
    ≡ new_store [] true
unfolding store_call empty_state lookup Buckets.delete_bucket
error_changes_nothing_example =
    error_changes_nothing (StoreCall.delete_bucket (text "x")) (new_store [] true) not_found refl

failed_save_keeps_change_example :
    ((store_call true (StoreCall.create_bucket photos) (new_store [] true)).0 ≡ err save_failed)
    × (lookup
          (text "photos")
          (store_call true (StoreCall.create_bucket photos) (new_store [] true)).1.st.buckets
        ≡ some photos)
    × ((store_call false
          (StoreCall.create_bucket photos)
          (store_call true (StoreCall.create_bucket photos) (new_store [] true)).1).0
        ≡ err conflict)
unfolding empty_state lookup
failed_save_keeps_change_example =
    failed_save_keeps_change photos (new_store [] true) refl (λ h. cc) refl

-- A state with rows of a bucket that is gone.
abbrev orphaned : MemoryState
orphaned = record {
  buckets = (text "photos", photos) ∷ [];
  objects = (object_key (text "gone") (text "cat"), cat (text "v1") ∷ []) ∷ [];
  multipart = (text "u1", upload) ∷ [];
  parts = [];
  credentials = [];
  websites = [];
  cors = [];
  policies = (text "photos", policy) ∷ (text "gone", policy) ∷ [];
  public_access = [];
  lifecycles = [];
  notifications = [];
  replications = [];
  taggings = [];
  backend_label = [];
}

abbrev empty_store : Store
empty_store = record { st = record orphaned { buckets = [] }; persister = true; disk = none }

abbrev full_store : Store
full_store = record { st = orphaned; persister = true; disk = none }

transaction_commits_example :
    (store_call false (StoreCall.run_in_tx body) empty_store).1.st
    ≡ (Tx.run_body body empty_store.st).1
unfolding lookup text_beq Tx.run_body Objects.put_object_version Buckets.create_bucket
transaction_commits_example = transaction_commits false body empty_store refl

validate-repair_example : validate_state (repair_state orphaned).1 ≡ []
validate-repair_example = validate-repair orphaned

repair_two : (repair_state orphaned).0 ≡ 2
unfolding repair_state lookup text_beq
repair_two = refl

delete_bucket-HasNoSettings_example :
    HasNoSettings (text "photos") (Buckets.delete_bucket (text "photos") orphaned).1
    × HasNoSettings
        (text "photos")
        (Buckets.create_bucket photos (Buckets.delete_bucket (text "photos") orphaned).1).1
unfolding lookup text_beq
delete_bucket-HasNoSettings_example = delete_bucket-HasNoSettings photos orphaned refl

abbrev notified : MemoryState
notified = record orphaned {
  notifications =
      (text "photos", record { bucket = text "photos"; document = []; enabled = true }) ∷ [];
}

tx_delete_bucket_leaves_example :
    (get_setting notification_table
        (text "photos")
        (Buckets.create_bucket photos (Buckets.tx_delete_bucket (text "photos") notified).1).1
      ≡ get_setting notification_table (text "photos") notified)
    × (get_setting replication_table
          (text "photos")
          (Buckets.create_bucket photos (Buckets.tx_delete_bucket (text "photos") notified).1).1
        ≡ get_setting replication_table (text "photos") notified)
tx_delete_bucket_leaves_example = tx_delete_bucket_leaves photos notified

abbrev tag : ObjectTagging
tag = record {
  bucket = text "photos";
  key = text "cat";
  version_id = text "v1";
  document = text "x";
}

get_object_version-put_ne_example :
    get_object_version
      (text "photos")
      (text "cat")
      (text "v1")
      (Objects.put_object_version (cat (text "null")) store.st).1
    ≡ get_object_version (text "photos") (text "cat") (text "v1") store.st
get_object_version-put_ne_example =
    get_object_version-put_ne (cat (text "null")) (text "photos") (text "cat") (text "v1") store.st
      (λ h. cc) (λ h. ground arith)

list_objects_iff_example : Elem (cat (text "null")) (list_objects (text "photos") store.st) ↔ (
    (text "photos" ≡ text "photos")
    × (get_latest_object_version (text "photos") (text "cat") store.st ≡ ok (cat (text "null")))
    × (false ≡ false))
list_objects_iff_example =
    list_objects_iff store.st store-IsWellFormed (text "photos") (cat (text "null"))

abbrev small : MemoryState
small =
    (run_calls
      ((false, StoreCall.create_bucket photos)
        ∷ (false, StoreCall.create_multipart_upload upload)
        ∷ (false, StoreCall.upsert_multipart_part (part 2))
        ∷ [])
      (new_store [] false)).st

small-IsWellFormed : IsWellFormed small
small-IsWellFormed = run_calls-IsWellFormed [] false (
    (false, StoreCall.create_bucket photos)
    ∷ (false, StoreCall.create_multipart_upload upload)
    ∷ (false, StoreCall.upsert_multipart_part (part 2))
    ∷ [])

list_object_versions-IsSorted_example :
    (vs : List ObjectVersion) × (list_object_versions (text "photos") small ≡ ok vs)
    × IsSorted version_less vs
    × ((v : ObjectVersion)
        → Elem v vs ↔ (
            (v.bucket ≡ text "photos")
            × Elem v (versions_of (object_key (text "photos") v.key) small)))
unfolding run_calls store_call empty_state lookup put persist_locked Buckets.create_bucket
    Uploads.create_multipart_upload Uploads.upsert_multipart_part text_beq
list_object_versions-IsSorted_example =
    list_object_versions-IsSorted (text "photos") small small-IsWellFormed refl

get_multipart_upload_parts_example :
    (ps : List MultipartPart) × (get_multipart_upload (text "u1") small ≡ ok (upload, ps))
    × IsAscending ps
    × ((p : MultipartPart)
        → Elem p ps ↔ (lookup p.part_number (parts_of (text "u1") small) ≡ some p))
unfolding run_calls store_call empty_state lookup put persist_locked Buckets.create_bucket
    Uploads.create_multipart_upload Uploads.upsert_multipart_part text_beq
get_multipart_upload_parts_example =
    get_multipart_upload_parts small small-IsWellFormed (text "u1") upload refl
