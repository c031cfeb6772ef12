-- ===== src/Metadata/Settings.antt =====
-- internal/metadata/store.go: the settings of a bucket and the taggings of objects.
-- The seven kinds of settings have the same three operations on tables of their own, so each
-- operation is written once over `Table`, the interface of such a table.
pub mod Laws
use s.Prelude.{
  ◌≡◌, refl, Option, none, some, [], ◌∷◌, ◌++◌, Text, ◌==◌, text_eq, Outcome, ok, err,
  if◌then◌else◌,
}
use s.Dict.{Dict, lookup, put, erase, has}
use s.Metadata.Model.{
  Bucket, BucketWebsiteConfig, BucketCorsConfig, BucketPolicy, BucketPublicAccessBlock,
  BucketLifecycle, BucketNotification, BucketReplication, ObjectTagging,
}
use s.Metadata.State.{MemoryState, Op, StoreError, not_found, ObjectKey, object_key_eq}

-- A table of the state whose rows are the settings `C` of the buckets.
pub record Table (C : Type 0) : Type 0 where
  pub bucket_of : C → Text
  pub rows : MemoryState → Dict Text C
  pub with_rows : MemoryState → Dict Text C → MemoryState
  pub rows_with : (st : MemoryState) (m : Dict Text C) → rows (with_rows st m) ≡ m
  pub buckets_with : (st : MemoryState) (m : Dict Text C) → (with_rows st m).buckets ≡ st.buckets

module _ {C : Type 0} (t : Table C) where
  unfoldable pub put_setting : C → Op (Unit {0})
  put_setting cfg st =
      if has (t.bucket_of cfg) st.buckets
      then (ok tt, t.with_rows st (put (t.bucket_of cfg) cfg (t.rows st)))
      else (err not_found, st)

  unfoldable pub get_setting : Text → MemoryState → Outcome StoreError C
  get_setting bucket st = elim (lookup bucket (t.rows st)) [
    | none ↦ err not_found
    | some cfg ↦ ok cfg
  ]

  unfoldable pub delete_setting : Text → Op (Unit {0})
  delete_setting bucket st =
      if has bucket (t.rows st)
      then (ok tt, t.with_rows st (erase bucket (t.rows st)))
      else (err not_found, st)

abbrev pub website_table : Table BucketWebsiteConfig
website_table = record {
  bucket_of = λ cfg. cfg.bucket;
  rows = λ st. st.websites;
  with_rows = λ st m. record st { websites = m };
  rows_with = λ st m. refl;
  buckets_with = λ st m. refl;
}

abbrev pub cors_table : Table BucketCorsConfig
cors_table = record {
  bucket_of = λ cfg. cfg.bucket;
  rows = λ st. st.cors;
  with_rows = λ st m. record st { cors = m };
  rows_with = λ st m. refl;
  buckets_with = λ st m. refl;
}

abbrev pub policy_table : Table BucketPolicy
policy_table = record {
  bucket_of = λ cfg. cfg.bucket;
  rows = λ st. st.policies;
  with_rows = λ st m. record st { policies = m };
  rows_with = λ st m. refl;
  buckets_with = λ st m. refl;
}

abbrev pub public_access_table : Table BucketPublicAccessBlock
public_access_table = record {
  bucket_of = λ cfg. cfg.bucket;
  rows = λ st. st.public_access;
  with_rows = λ st m. record st { public_access = m };
  rows_with = λ st m. refl;
  buckets_with = λ st m. refl;
}

abbrev pub lifecycle_table : Table BucketLifecycle
lifecycle_table = record {
  bucket_of = λ cfg. cfg.bucket;
  rows = λ st. st.lifecycles;
  with_rows = λ st m. record st { lifecycles = m };
  rows_with = λ st m. refl;
  buckets_with = λ st m. refl;
}

abbrev pub notification_table : Table BucketNotification
notification_table = record {
  bucket_of = λ cfg. cfg.bucket;
  rows = λ st. st.notifications;
  with_rows = λ st m. record st { notifications = m };
  rows_with = λ st m. refl;
  buckets_with = λ st m. refl;
}

abbrev pub replication_table : Table BucketReplication
replication_table = record {
  bucket_of = λ cfg. cfg.bucket;
  rows = λ st. st.replications;
  with_rows = λ st m. record st { replications = m };
  rows_with = λ st m. refl;
  buckets_with = λ st m. refl;
}

-- cfg.Key + "\x00" + cfg.VersionID
unfoldable pub tagging_key : Text → Text → Text → ObjectKey
tagging_key bucket key version_id = record { bucket = bucket; key = key ++ (0 ∷ version_id) }

unfoldable pub put_object_tagging : ObjectTagging → Op (Unit {0})
put_object_tagging cfg st = (
  ok tt,
  record st { taggings = put (tagging_key cfg.bucket cfg.key cfg.version_id) cfg st.taggings },
)

unfoldable pub get_object_tagging :
    Text → Text → Text → MemoryState → Outcome StoreError ObjectTagging
get_object_tagging bucket key version_id st =
    elim (lookup (tagging_key bucket key version_id) st.taggings) [
      | none ↦ err not_found
      | some cfg ↦ ok cfg
    ]

unfoldable pub delete_object_tagging : Text → Text → Text → Op (Unit {0})
delete_object_tagging bucket key version_id st =
    let k = tagging_key bucket key version_id in
    if has k st.taggings
    then (ok tt, record st { taggings = erase k st.taggings })
    else (err not_found, st)
