-- ===== src/Metadata.antt =====
-- internal/metadata: the metadata catalogue of buckets, object versions, uploads and settings.
pub mod Clone
pub mod Model
pub mod State
pub mod Buckets
pub mod Settings
pub mod Objects
pub mod Uploads
pub mod Consistency
pub mod Tx
pub mod Snapshot
pub mod Persister
pub mod Store
pub mod Invariant
mod Tests
