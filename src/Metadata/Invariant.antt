-- ===== src/Metadata/Invariant.antt =====
-- The well-formedness of `memoryState` (internal/metadata/store.go): every row stands under the key
-- that its own fields give, and the rows that belong together do.
pub mod Settings
pub mod Versions
pub mod Objects
pub mod Uploads
pub mod Repair
pub mod Calls
use s.Prelude.{
  refl, ℕ, ◌≤◌, ◌≡◌, ◌≢◌, Bool, true, false, List, [], Text, text_eq, nat_eq, All, keep, length,
  if◌then◌else◌,
}
use s.Dict.{Dict, has}
use s.Dict.Keyed.{Keyed, HasDistinctKeys}
use s.Metadata.Model.{
  Bucket, ObjectVersion, MultipartUpload, MultipartPart, CredentialRecord, ObjectTagging,
}
use s.Metadata.State.{MemoryState, ObjectKey, object_key_eq}
use s.Metadata.Settings.{tagging_key}
use s.Metadata.Objects.{has_id, null_id}

-- The versions of a key: they carry its bucket and key, there is one at least, and one at most
-- has the id "null".
abbrev pub VersionsFit : ObjectKey → List ObjectVersion → Type 0
VersionsFit k vs =
    All (λ v. (v.bucket ≡ k.bucket) × (v.key ≡ k.key)) vs
    × (length (keep (has_id null_id) vs) ≤ 1)
    × (vs ≢ [])

-- The parts of an upload: the upload is there, and each part stands under its own number.
abbrev pub PartsFit : Dict Text MultipartUpload → Text → Dict ℕ MultipartPart → Type 0
PartsFit multipart id parts =
    (has id multipart ≡ true)
    × Keyed (λ n (p : MultipartPart). (p.part_number ≡ n) × (p.upload_id ≡ id)) parts
    × HasDistinctKeys parts

abbrev pub BucketFits : Text → Bucket → Type 0
BucketFits name b = (b.name ≡ name) × (name ≢ [])

pub record IsWellFormed (st : MemoryState) : Type 0 where
  pub buckets : Keyed BucketFits st.buckets
  pub objects : Keyed VersionsFit st.objects
  pub multipart : Keyed (λ id u. u.upload_id ≡ id) st.multipart
  pub parts : Keyed (PartsFit st.multipart) st.parts
  pub credentials : Keyed (λ id r. r.access_key_id ≡ id) st.credentials
  pub websites : Keyed (λ b cfg. cfg.bucket ≡ b) st.websites
  pub cors : Keyed (λ b cfg. cfg.bucket ≡ b) st.cors
  pub policies : Keyed (λ b cfg. cfg.bucket ≡ b) st.policies
  pub public_access : Keyed (λ b cfg. cfg.bucket ≡ b) st.public_access
  pub lifecycles : Keyed (λ b cfg. cfg.bucket ≡ b) st.lifecycles
  pub notifications : Keyed (λ b cfg. cfg.bucket ≡ b) st.notifications
  pub replications : Keyed (λ b cfg. cfg.bucket ≡ b) st.replications
  pub taggings :
      Keyed
        (λ k (cfg : ObjectTagging). tagging_key cfg.bucket cfg.key cfg.version_id ≡ k)
        st.taggings
  pub buckets_distinct : HasDistinctKeys st.buckets
  pub objects_distinct : HasDistinctKeys st.objects
  pub multipart_distinct : HasDistinctKeys st.multipart
  pub taggings_distinct : HasDistinctKeys st.taggings
