-- ===== src/Metadata/State.antt =====
-- internal/metadata/store.go: `memoryState`, `emptyState`, and the errors of the store.
-- An operation on the state returns its result beside the state that it leaves.
use s.Prelude.{
  ◌≡◌, ◌↔◌, Bool, ◌&&◌, [], arith, Text, Eq, true, false, refl, if◌then◌else◌, text_beq,
  text_beq_iff, ℕ, Outcome, List,
}
use s.Dict.{Dict}
use s.Metadata.Model.{
  Bucket, ObjectVersion, MultipartUpload, MultipartPart, CredentialRecord, BucketWebsiteConfig,
  BucketCorsConfig, BucketPolicy, BucketPublicAccessBlock, BucketLifecycle, BucketNotification,
  BucketReplication, ObjectTagging,
}

-- `not_found` and `conflict` are ErrNotFound and ErrConflict; `name_required` is createBucket's own
-- error; `save_failed` is any error of the persister; `caller` is an error that a transaction's
-- function makes up.
pub data StoreError : Type 0 where
  not_found conflict name_required save_failed caller : StoreError

pub record ObjectKey : Type 0 where
  pub bucket : Text
  pub key : Text

unfoldable pub object_key_beq : ObjectKey → ObjectKey → Bool
object_key_beq a b = text_beq a.bucket b.bucket && text_beq a.key b.key

pub object_key_beq_iff : (a b : ObjectKey) → (object_key_beq a b ≡ true) ↔ (a ≡ b)
unfolding object_key_beq
object_key_beq_iff a b = ground (arith, text_beq_iff a.bucket b.bucket, text_beq_iff a.key b.key)

instance abbrev pub object_key_eq : Eq ObjectKey
object_key_eq = record { beq = object_key_beq; beq_iff = object_key_beq_iff }

pub record MemoryState : Type 0 where
  pub buckets : Dict Text Bucket
  pub objects : Dict ObjectKey (List ObjectVersion)
  pub multipart : Dict Text MultipartUpload
  pub parts : Dict Text (Dict ℕ MultipartPart)
  pub credentials : Dict Text CredentialRecord
  pub websites : Dict Text BucketWebsiteConfig
  pub cors : Dict Text BucketCorsConfig
  pub policies : Dict Text BucketPolicy
  pub public_access : Dict Text BucketPublicAccessBlock
  pub lifecycles : Dict Text BucketLifecycle
  pub notifications : Dict Text BucketNotification
  pub replications : Dict Text BucketReplication
  pub taggings : Dict ObjectKey ObjectTagging
  pub backend_label : Text

unfoldable pub empty_state : Text → MemoryState
empty_state label = record {
  buckets = [];
  objects = [];
  multipart = [];
  parts = [];
  credentials = [];
  websites = [];
  cors = [];
  policies = [];
  public_access = [];
  lifecycles = [];
  notifications = [];
  replications = [];
  taggings = [];
  backend_label = label;
}

abbrev pub Op {ℓ} : Type ℓ → Type ℓ
Op A = MemoryState → Outcome StoreError A × MemoryState

-- A branch of an operation keeps what both its results keep.
pub keeps_if {ℓ κ} :
    {A : Type ℓ} (P : MemoryState → Type κ) (b : Bool) (x y : A × MemoryState)
    → (b ≡ true → P x.1)
    → (b ≡ false → P y.1)
    → P (if b then x else y).1
keeps_if P true x y h k = h refl
keeps_if P false x y h k = k refl
