-- ===== src/Metadata/Model.antt =====
-- internal/metadata/model.go: the rows of the metadata catalogue.
-- A time is the number of nanoseconds since Go's zero time, so `IsZero` is `nat_beq 0`.
use s.Prelude.{ℕ, Bool, List, Text}
use s.Dict.{Dict}

abbrev pub Time : Type 0
Time = ℕ

pub record Bucket : Type 0 where
  pub name : Text
  pub created_at : Time
  pub region : Text
  pub versioning_status : Text

pub record ObjectVersion : Type 0 where
  pub bucket : Text
  pub key : Text
  pub version_id : Text
  pub size : ℕ
  pub etag : Text
  pub checksum_sha256 : Text
  pub checksum_sha1 : Text
  pub checksum_crc32 : Text
  pub checksum_crc32c : Text
  pub storage_path : Text
  pub metadata : Dict Text Text
  pub delete_marker : Bool
  pub created_at : Time

pub record MultipartUpload : Type 0 where
  pub upload_id : Text
  pub bucket : Text
  pub key : Text
  pub sse_algorithm : Text
  pub initiated_at : Time

pub record MultipartPart : Type 0 where
  pub upload_id : Text
  pub part_number : ℕ
  pub etag : Text
  pub size : ℕ
  pub checksum_sha256 : Text
  pub checksum_sha1 : Text
  pub checksum_crc32 : Text
  pub checksum_crc32c : Text
  pub storage_path : Text
  pub created_at : Time

pub record CredentialRecord : Type 0 where
  pub access_key_id : Text
  pub secret_hash : Text
  pub status : Text
  pub created_at : Time
  pub rotated_at : Time

pub record BucketWebsiteRoutingCondition : Type 0 where
  pub key_prefix_equals : Text
  pub http_error_code_returned_equals : Text

pub record BucketWebsiteRedirect : Type 0 where
  pub host_name : Text
  pub protocol : Text
  pub replace_key_prefix_with : Text
  pub replace_key_with : Text
  pub http_redirect_code : Text

pub record BucketWebsiteRoutingRule : Type 0 where
  pub condition : BucketWebsiteRoutingCondition
  pub redirect : BucketWebsiteRedirect

pub record BucketWebsiteConfig : Type 0 where
  pub bucket : Text
  pub index_document : Text
  pub error_document : Text
  pub redirect_all_host : Text
  pub redirect_all_protocol : Text
  pub routing_rules : List BucketWebsiteRoutingRule
  pub enabled : Bool
  pub public_read : Bool

pub record BucketCorsConfig : Type 0 where
  pub bucket : Text
  pub allowed_origins : Text
  pub allowed_methods : Text
  pub allowed_headers : Text
  pub expose_headers : Text
  pub max_age_seconds : ℕ
  pub enabled : Bool

pub record BucketPolicy : Type 0 where
  pub bucket : Text
  pub document : Text
  pub enabled : Bool

pub record BucketPublicAccessBlock : Type 0 where
  pub bucket : Text
  pub block_public_acls : Bool
  pub ignore_public_acls : Bool
  pub block_public_policy : Bool
  pub restrict_public_buckets : Bool

pub record BucketLifecycle : Type 0 where
  pub bucket : Text
  pub document : Text
  pub enabled : Bool

pub record BucketNotification : Type 0 where
  pub bucket : Text
  pub document : Text
  pub enabled : Bool

pub record BucketReplication : Type 0 where
  pub bucket : Text
  pub document : Text
  pub enabled : Bool

pub record ObjectTagging : Type 0 where
  pub bucket : Text
  pub key : Text
  pub version_id : Text
  pub document : Text
