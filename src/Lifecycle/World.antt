-- ===== src/Lifecycle/World.antt =====
-- internal/lifecycle/worker.go: what the worker is given, the interfaces `metadataStore` and
-- `blobStore`, the clock, the sleep and the context, as operations on a world that each may change.
use s.Prelude.{ℕ, Bool, Option, List, Text, Outcome}
use s.Metadata.Model.{Time, Bucket, ObjectVersion, BucketLifecycle}
use s.Lifecycle.Rules.{XmlRule}

-- `not_found` is what errors.Is takes for metadata.ErrNotFound.
pub data WorldError : Type 0 where
  not_found failed cancelled : WorldError

pub record World (W : Type 0) : Type 0 where
  pub now : W → Time × W
  pub context_error : W → Option WorldError × W
  pub sleep : ℕ → W → Option WorldError × W
  pub queue_depth : ℕ → W → W
  pub list_buckets : W → Outcome WorldError (List Bucket) × W
  pub get_bucket_lifecycle : Text → W → Outcome WorldError BucketLifecycle × W
  pub list_objects : Text → W → Outcome WorldError (List ObjectVersion) × W
  pub delete_all_object_versions : Text → Text → W → Outcome WorldError (List ObjectVersion) × W
  -- the bucket, key and version id of the reference
  pub delete_blob : Text → Text → Text → W → Option WorldError × W
  -- the XML decoder; `none` is an error of it, and an empty document has no rules
  pub decode_xml : Text → Option (List XmlRule)

-- The configuration that `NewWorker` leaves in the worker.
pub record Config : Type 0 where
  pub batch_size : ℕ
  pub max_retries : ℕ
  pub retry_backoff : ℕ
  pub dry_run : Bool
