-- ===== src/Metadata/Buckets.antt =====
-- internal/metadata/store.go: the bucket operations on `memoryState`.
-- The methods of `memoryBackedStore` run these under its lock and save the state (Metadata/Store);
-- those of `memoryTx` run them on the transaction's copy.
use s.Prelude.{none, some, List, [], map, Text, ◌==◌, text_eq, Outcome, ok, err, if◌then◌else◌}
use s.Dict.{lookup, put, erase, has}
use s.Metadata.Model.{Bucket}
use s.Metadata.State.{MemoryState, Op, StoreError, not_found, conflict, name_required}

unfoldable pub create_bucket : Bucket → Op (Unit {0})
create_bucket bucket st =
    if bucket.name == []
    then (err name_required, st)
    else if has bucket.name st.buckets
    then (err conflict, st)
    else (ok tt, record st { buckets = put bucket.name bucket st.buckets })

unfoldable pub update_bucket_versioning : Text → Text → Op (Unit {0})
update_bucket_versioning bucket status st = elim (lookup bucket st.buckets) [
  | none ↦ (err not_found, st)
  | some b ↦ (
    ok tt,
    record st { buckets = put bucket (record b { versioning_status = status }) st.buckets },
  )
]

-- `memoryBackedStore.DeleteBucket`: the bucket and seven of its settings go; its object versions,
-- uploads and taggings stay.
unfoldable pub delete_bucket : Text → Op (Unit {0})
delete_bucket bucket st =
    if has bucket st.buckets
    then (
      ok tt,
      record st {
        buckets = erase bucket st.buckets;
        websites = erase bucket st.websites;
        cors = erase bucket st.cors;
        policies = erase bucket st.policies;
        public_access = erase bucket st.public_access;
        lifecycles = erase bucket st.lifecycles;
        notifications = erase bucket st.notifications;
        replications = erase bucket st.replications;
      },
    )
    else (err not_found, st)

-- `memoryTx.DeleteBucket`: notifications and replications stay here.
unfoldable pub tx_delete_bucket : Text → Op (Unit {0})
tx_delete_bucket bucket st =
    if has bucket st.buckets
    then (
      ok tt,
      record st {
        buckets = erase bucket st.buckets;
        websites = erase bucket st.websites;
        cors = erase bucket st.cors;
        policies = erase bucket st.policies;
        public_access = erase bucket st.public_access;
        lifecycles = erase bucket st.lifecycles;
      },
    )
    else (err not_found, st)

unfoldable pub get_bucket : Text → MemoryState → Outcome StoreError Bucket
get_bucket name st = elim (lookup name st.buckets) [ none ↦ err not_found | some b ↦ ok b ]

unfoldable pub list_buckets : MemoryState → List Bucket
list_buckets st = map (λ entry. entry.1) st.buckets
