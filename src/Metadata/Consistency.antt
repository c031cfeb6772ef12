-- ===== src/Metadata/Consistency.antt =====
-- internal/metadata/store.go: `validateState` and `repairState`.
pub mod Repair
use s.Prelude.{ℕ, zero, suc, ◌+◌, Bool, not, List, [], ◌∷◌, ◌++◌, Text, Eq, text_eq, if◌then◌else◌}
use s.Dict.{Dict, erase, has}
use s.Metadata.Model.{Bucket, MultipartUpload, MultipartPart}
use s.Metadata.State.{MemoryState, ObjectKey, object_key_eq}

-- the codes of the issues, each with what its message quotes
pub data ConsistencyIssue : Type 0 where
  orphan_object_versions : Text → ConsistencyIssue
  orphan_multipart_upload : Text → Text → ConsistencyIssue
  orphan_website_config orphan_cors_config orphan_bucket_policy : Text → ConsistencyIssue
  orphan_public_access_block : Text → ConsistencyIssue

module _ {ℓ κ} {K : Type ℓ} {V : Type κ} where
  -- a loop over a map that reports the entries that fail a test
  unfoldable pub report :
      (K → V → Bool) → (K → V → ConsistencyIssue) → Dict K V → List ConsistencyIssue
  report orphan issue [] = []
  report orphan issue ((k, v) ∷ m) =
      let rest = report orphan issue m in if orphan k v then issue k v ∷ rest else rest

  -- a loop over a map that deletes the entries that fail a test, and what it leaves
  unfoldable pub sweep : (K → V → Bool) → Dict K V → Dict K V
  sweep orphan [] = []
  sweep orphan ((k, v) ∷ m) =
      let rest = sweep orphan m in if orphan k v then rest else (k, v) ∷ rest

  -- how many entries it deletes
  unfoldable pub swept : (K → V → Bool) → Dict K V → ℕ
  swept orphan [] = 0
  swept orphan ((k, v) ∷ m) = let rest = swept orphan m in if orphan k v then suc rest else rest

module _ (buckets : Dict Text Bucket) where
  abbrev pub missing : Text → Bool
  missing bucket = not (has bucket buckets)

  abbrev pub object_orphan {ℓ} : {V : Type ℓ} → ObjectKey → V → Bool
  object_orphan k v = missing k.bucket

  abbrev pub upload_orphan : Text → MultipartUpload → Bool
  upload_orphan upload_id upload = missing upload.bucket

  abbrev pub setting_orphan {ℓ} : {V : Type ℓ} → Text → V → Bool
  setting_orphan bucket cfg = missing bucket

  -- `delete(st.parts, uploadID)` for each upload that the loop deletes
  unfoldable pub sweep_parts :
      Dict Text MultipartUpload
      → Dict Text (Dict ℕ MultipartPart)
      → Dict Text (Dict ℕ MultipartPart)
  sweep_parts [] parts = parts
  sweep_parts ((id, upload) ∷ m) parts =
      sweep_parts m (if upload_orphan id upload then erase id parts else parts)

unfoldable pub validate_state : MemoryState → List ConsistencyIssue
unfolding report
validate_state st =
    report (object_orphan st.buckets) (λ k _. orphan_object_versions k.bucket) st.objects
    ++ (report (upload_orphan st.buckets) (λ id u. orphan_multipart_upload id u.bucket) st.multipart
        ++ (report (setting_orphan st.buckets) (λ b _. orphan_website_config b) st.websites
            ++ (report (setting_orphan st.buckets) (λ b _. orphan_cors_config b) st.cors
                ++ (report (setting_orphan st.buckets) (λ b _. orphan_bucket_policy b) st.policies
                    ++ report (setting_orphan st.buckets) (λ b _. orphan_public_access_block b)
                        st.public_access))))

-- The repaired state, and the number of repairs.
unfoldable pub repair_state : MemoryState → ℕ × MemoryState
unfolding sweep swept sweep_parts
repair_state st = (
  swept (object_orphan st.buckets) st.objects
      + (swept (upload_orphan st.buckets) st.multipart
          + (swept (setting_orphan st.buckets) st.websites
              + (swept (setting_orphan st.buckets) st.cors
                  + (swept (setting_orphan st.buckets) st.policies
                      + swept (setting_orphan st.buckets) st.public_access)))),
  record st {
    objects = sweep (object_orphan st.buckets) st.objects;
    multipart = sweep (upload_orphan st.buckets) st.multipart;
    parts = sweep_parts st.buckets st.multipart st.parts;
    websites = sweep (setting_orphan st.buckets) st.websites;
    cors = sweep (setting_orphan st.buckets) st.cors;
    policies = sweep (setting_orphan st.buckets) st.policies;
    public_access = sweep (setting_orphan st.buckets) st.public_access;
  },
)
