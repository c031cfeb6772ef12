-- ===== src/Metadata/Uploads.antt =====
-- internal/metadata/store.go: multipart uploads with their parts, and credential records.
pub mod Laws
use s.Prelude.{
  ℕ, Option, none, some, Bool, true, false, ◌&&◌, List, [], ◌∷◌, map, Text, ◌==◌, text_eq, nat_eq,
  Outcome, ok, err, if◌then◌else◌, ltb,
}
use s.Dict.{Dict, lookup, put, erase, has}
use s.Sort.{sort, text_lt}
use s.Strings.{has_prefix}
use s.Metadata.Model.{MultipartUpload, MultipartPart, CredentialRecord}
use s.Metadata.State.{MemoryState, Op, StoreError, not_found, conflict}

unfoldable pub create_multipart_upload : MultipartUpload → Op (Unit {0})
create_multipart_upload upload st =
    if has upload.upload_id st.multipart
    then (err conflict, st)
    else (ok tt, record st { multipart = put upload.upload_id upload st.multipart })

unfoldable pub delete_multipart_upload : Text → Op (Unit {0})
delete_multipart_upload upload_id st =
    if has upload_id st.multipart
    then (
      ok tt,
      record st { multipart = erase upload_id st.multipart; parts = erase upload_id st.parts },
    )
    else (err not_found, st)

-- s.st.parts[uploadID], an empty map for an upload without parts
unfoldable pub parts_of : Text → MemoryState → Dict ℕ MultipartPart
parts_of upload_id st = elim (lookup upload_id st.parts) [ none ↦ [] | some parts ↦ parts ]

unfoldable pub upsert_multipart_part : MultipartPart → Op (Unit {0})
unfolding parts_of
upsert_multipart_part part st =
    if has part.upload_id st.multipart
    then (
      ok tt,
      record st {
        parts =
            put part.upload_id (put part.part_number part (parts_of part.upload_id st)) st.parts;
      },
    )
    else (err not_found, st)

-- the zero value of Go's `MultipartPart`, which a read of a missing key gives
abbrev pub zero_part : MultipartPart
zero_part = record {
  upload_id = [];
  part_number = 0;
  etag = [];
  size = 0;
  checksum_sha256 = [];
  checksum_sha1 = [];
  checksum_crc32 = [];
  checksum_crc32c = [];
  storage_path = [];
  created_at = 0;
}

unfoldable pub part_at : Dict ℕ MultipartPart → ℕ → MultipartPart
part_at parts part_no = elim (lookup part_no parts) [ none ↦ zero_part | some part ↦ part ]

-- the part numbers are collected and sorted, and the parts read in that order
unfoldable pub sorted_parts : Dict ℕ MultipartPart → List MultipartPart
unfolding part_at
sorted_parts parts = map (part_at parts) (sort ltb (map (λ entry. entry.0) parts))

unfoldable pub get_multipart_upload :
    Text → MemoryState → Outcome StoreError (MultipartUpload × List MultipartPart)
unfolding parts_of sorted_parts
get_multipart_upload upload_id st = elim (lookup upload_id st.multipart) [
  | none ↦ err not_found
  | some upload ↦ ok (upload, sorted_parts (parts_of upload_id st))
]

-- the loop of `ListMultipartUploads`; the test of an empty prefix is part of `has_prefix`
unfoldable pub collect_uploads : Text → Text → Dict Text MultipartUpload → List MultipartUpload
unfolding has_prefix
collect_uploads bucket prefix [] = []
collect_uploads bucket prefix ((k, upload) ∷ m) =
    let rest = collect_uploads bucket prefix m in
    if upload.bucket == bucket && has_prefix upload.key prefix then upload ∷ rest else rest

unfoldable pub upload_less : MultipartUpload → MultipartUpload → Bool
upload_less a b = if a.key == b.key then text_lt a.upload_id b.upload_id else text_lt a.key b.key

unfoldable pub list_multipart_uploads :
    Text → Text → MemoryState → Outcome StoreError (List MultipartUpload)
unfolding collect_uploads upload_less
list_multipart_uploads bucket prefix st =
    if has bucket st.buckets
    then ok (sort upload_less (collect_uploads bucket prefix st.multipart))
    else err not_found

unfoldable pub upsert_credential_record : CredentialRecord → Op (Unit {0})
upsert_credential_record record' st =
    (ok tt, record st { credentials = put record'.access_key_id record' st.credentials })

unfoldable pub get_credential_record : Text → MemoryState → Outcome StoreError CredentialRecord
get_credential_record access_key_id st = elim (lookup access_key_id st.credentials) [
  | none ↦ err not_found
  | some rec ↦ ok rec
]
