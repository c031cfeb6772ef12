-- ===== src/Metadata/Snapshot.antt =====
-- internal/metadata/store.go: `snapshotState` and `applyPersistedState`.
-- A persisted map is `none` where the decoded field is a nil map.
pub mod Laws
use s.Prelude.{
  ◌≡◌, Option, none, some, Bool, List, [], ◌∷◌, map, ℕ, Text, ◌==◌, text_eq, if◌then◌else◌,
}
use s.Dict.{Dict, put}
use s.Sort.{sort, text_lt}
use s.Metadata.Model.{
  Bucket, ObjectVersion, MultipartUpload, MultipartPart, CredentialRecord, BucketWebsiteConfig,
  BucketCorsConfig, BucketPolicy, BucketPublicAccessBlock, BucketLifecycle, BucketNotification,
  BucketReplication, ObjectTagging,
}
use s.Metadata.State.{MemoryState, ObjectKey, object_key_eq, empty_state}
use s.Metadata.Settings.{tagging_key}

pub record PersistedObject : Type 0 where
  pub bucket : Text
  pub key : Text
  pub versions : List ObjectVersion

pub record PersistedState : Type 0 where
  pub buckets : Option (Dict Text Bucket)
  pub objects : List PersistedObject
  pub multipart : Option (Dict Text MultipartUpload)
  pub parts : Option (Dict Text (Dict ℕ MultipartPart))
  pub credentials : Option (Dict Text CredentialRecord)
  pub websites : Option (Dict Text BucketWebsiteConfig)
  pub cors : Option (Dict Text BucketCorsConfig)
  pub policies : Option (Dict Text BucketPolicy)
  pub public_access : Option (Dict Text BucketPublicAccessBlock)
  pub lifecycles : Option (Dict Text BucketLifecycle)
  pub notifications : Option (Dict Text BucketNotification)
  pub replications : Option (Dict Text BucketReplication)
  pub taggings : List ObjectTagging
  pub backend_label : Text

abbrev pub persisted_object : ObjectKey × List ObjectVersion → PersistedObject
persisted_object (k, versions) = record { bucket = k.bucket; key = k.key; versions = versions }

unfoldable pub persisted_less : PersistedObject → PersistedObject → Bool
persisted_less a b = if a.bucket == b.bucket then text_lt a.key b.key else text_lt a.bucket b.bucket

unfoldable pub snapshot_state : MemoryState → PersistedState
unfolding persisted_less
snapshot_state st = record {
  buckets = some st.buckets;
  objects = sort persisted_less (map persisted_object st.objects);
  multipart = some st.multipart;
  parts = some st.parts;
  credentials = some st.credentials;
  websites = some st.websites;
  cors = some st.cors;
  policies = some st.policies;
  public_access = some st.public_access;
  lifecycles = some st.lifecycles;
  notifications = some st.notifications;
  replications = some st.replications;
  taggings = map (λ entry. entry.1) st.taggings;
  backend_label = st.backend_label;
}

-- a map of the decoded state, or the empty one where that is nil
abbrev pub or_empty {ℓ} : {K V : Type ℓ} → Option (Dict K V) → Dict K V
or_empty none = []
or_empty (some m) = m

-- the loop over `ps.Taggings`
unfoldable pub restore_taggings :
    List ObjectTagging → Dict ObjectKey ObjectTagging → Dict ObjectKey ObjectTagging
restore_taggings [] m = m
restore_taggings (cfg ∷ rest) m =
    restore_taggings rest (put (tagging_key cfg.bucket cfg.key cfg.version_id) cfg m)

-- the loop over `ps.Objects`
unfoldable pub restore_objects :
    List PersistedObject → Dict ObjectKey (List ObjectVersion) → Dict ObjectKey (List ObjectVersion)
restore_objects [] m = m
restore_objects (po ∷ rest) m =
    restore_objects rest (put (record { bucket = po.bucket; key = po.key }) po.versions m)

-- The state of a store that loads `ps`; only the label stays.
unfoldable pub apply_persisted_state : PersistedState → MemoryState → MemoryState
unfolding restore_taggings restore_objects
apply_persisted_state ps st = record {
  buckets = or_empty ps.buckets;
  objects = restore_objects ps.objects [];
  multipart = or_empty ps.multipart;
  parts = or_empty ps.parts;
  credentials = or_empty ps.credentials;
  websites = or_empty ps.websites;
  cors = or_empty ps.cors;
  policies = or_empty ps.policies;
  public_access = or_empty ps.public_access;
  lifecycles = or_empty ps.lifecycles;
  notifications = or_empty ps.notifications;
  replications = or_empty ps.replications;
  taggings = restore_taggings ps.taggings [];
  backend_label = st.backend_label;
}
