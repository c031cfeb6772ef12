-- ===== src/Metadata/Store/Errors/Operations.antt =====
-- internal/metadata/store.go: every error return of an operation stands before its changes.
use s.Prelude.{◌≡◌, refl, Bool, true, false, Text, text_eq, Outcome, ok, err, arith, if◌then◌else◌}
use s.Dict.{Dict, has}
use s.Metadata.Model.{
  Time, Bucket, ObjectVersion, MultipartUpload, MultipartPart, CredentialRecord, ObjectTagging,
}
use s.Metadata.State.{MemoryState, Op, StoreError, object_key_eq}
use s.Metadata.Buckets
use s.Metadata.Settings
use s.Metadata.Settings.{Table, tagging_key}
use s.Metadata.Objects
use s.Metadata.Uploads

-- The operation leaves the state as it was when it returns an error.
abbrev pub KeepsOnError {ℓ} : {A : Type ℓ} → Op A → Type ℓ
KeepsOnError op = (st : MemoryState) (e : StoreError) → (op st).0 ≡ err e → (op st).1 ≡ st

module _ {ℓ} {A : Type ℓ} where
  -- an operation with one error return
  abbrev guarded :
      Bool → A → MemoryState → StoreError → MemoryState → Outcome StoreError A × MemoryState
  guarded b a st' e st = if b then (ok a, st') else (err e, st)

  if_keeps :
      (b : Bool) (a : A) (st' st : MemoryState) (e' e : StoreError)
      → (guarded b a st' e' st).0 ≡ err e
      → (guarded b a st' e' st).1 ≡ st
  if_keeps true a st' st e' e h = absurd (ground arith)
  if_keeps false a st' st e' e h = refl

pub create_bucket-KeepsOnError : (b : Bucket) → KeepsOnError (Buckets.create_bucket b)
unfolding Buckets.create_bucket
create_bucket-KeepsOnError b st e h = ground arith

pub delete_bucket-KeepsOnError : (n : Text) → KeepsOnError (Buckets.delete_bucket n)
unfolding Buckets.delete_bucket
delete_bucket-KeepsOnError n st e h = if_keeps (has n st.buckets) tt _ st _ e h

pub update_bucket_versioning-KeepsOnError :
    (n v : Text) → KeepsOnError (Buckets.update_bucket_versioning n v)
unfolding Buckets.update_bucket_versioning
update_bucket_versioning-KeepsOnError n v st e h = ground arith

pub put_object_tagging-KeepsOnError :
    (c : ObjectTagging) → KeepsOnError (Settings.put_object_tagging c)
unfolding Settings.put_object_tagging
put_object_tagging-KeepsOnError c st e h = absurd (ground arith)

pub delete_object_tagging-KeepsOnError :
    (b k v : Text) → KeepsOnError (Settings.delete_object_tagging b k v)
unfolding Settings.delete_object_tagging
delete_object_tagging-KeepsOnError b k v st e h =
    if_keeps (has (tagging_key b k v) st.taggings) tt _ st _ e h

pub put_object_version-KeepsOnError :
    (v : ObjectVersion) → KeepsOnError (Objects.put_object_version v)
unfolding Objects.put_object_version
put_object_version-KeepsOnError v st e h = absurd (ground arith)

pub update_object_metadata-KeepsOnError :
    (b k v : Text) (m : Dict Text Text) → KeepsOnError (Objects.update_object_metadata b k v m)
unfolding Objects.update_object_metadata
update_object_metadata-KeepsOnError b k v m st e h = ground arith

pub delete_object_version-KeepsOnError :
    (b k v : Text) → KeepsOnError (Objects.delete_object_version b k v)
unfolding Objects.delete_object_version
delete_object_version-KeepsOnError b k v st e h = ground arith

pub delete_object-KeepsOnError :
    (b k v : Text) (at : Time) → KeepsOnError (Objects.delete_object b k v at)
unfolding Objects.delete_object
delete_object-KeepsOnError b k v at st e h = put_object_version-KeepsOnError _ st e h

pub delete_all_object_versions-KeepsOnError :
    (b k : Text) → KeepsOnError (Objects.delete_all_object_versions b k)
unfolding Objects.delete_all_object_versions
delete_all_object_versions-KeepsOnError b k st e h = ground arith

pub create_multipart_upload-KeepsOnError :
    (u : MultipartUpload) → KeepsOnError (Uploads.create_multipart_upload u)
unfolding Uploads.create_multipart_upload
create_multipart_upload-KeepsOnError u st e h = ground arith

pub delete_multipart_upload-KeepsOnError :
    (id : Text) → KeepsOnError (Uploads.delete_multipart_upload id)
unfolding Uploads.delete_multipart_upload
delete_multipart_upload-KeepsOnError id st e h = if_keeps (has id st.multipart) tt _ st _ e h

pub upsert_multipart_part-KeepsOnError :
    (p : MultipartPart) → KeepsOnError (Uploads.upsert_multipart_part p)
unfolding Uploads.upsert_multipart_part
upsert_multipart_part-KeepsOnError p st e h = if_keeps (has p.upload_id st.multipart) tt _ st _ e h

pub upsert_credential_record-KeepsOnError :
    (r : CredentialRecord) → KeepsOnError (Uploads.upsert_credential_record r)
unfolding Uploads.upsert_credential_record
upsert_credential_record-KeepsOnError r st e h = absurd (ground arith)

module _ {C : Type 0} (t : Table C) where
  pub put_setting-KeepsOnError : (c : C) → KeepsOnError (Settings.put_setting t c)
  unfolding Settings.put_setting
  put_setting-KeepsOnError c st e h = if_keeps (has (t.bucket_of c) st.buckets) tt _ st _ e h

  pub delete_setting-KeepsOnError : (b : Text) → KeepsOnError (Settings.delete_setting t b)
  unfolding Settings.delete_setting
  delete_setting-KeepsOnError b st e h = if_keeps (has b (t.rows st)) tt _ st _ e h
