-- ===== src/Lib.antt =====
-- s000 is an S3-compatible object store written in Go. This library models the core of it: the
-- metadata store in memory, authentication by signatures, presigned URLs and tokens, the gate in
-- front of the handlers with its bucket policies, websites, encrypted objects, the lifecycle worker
-- that expires objects, the protector against repeated failures, and the limiter of heavy operations.
--
-- How the parts interact. A request handler calls the methods of the metadata store (the
-- interface Store of internal/metadata/store.go); each takes the lock, changes the maps of the
-- state and saves a snapshot through a persister. A transaction works on a copy of the state. The
-- lifecycle worker calls the same store and the blob store through two small interfaces. The
-- gate asks the protector, then the token manager, the bucket policy and the website settings of the
-- store, and the verifier, which takes its secrets from the credential store; what passes goes to
-- the website handler or to the S3 API. The limiter stands in front of heavy operations.
--
-- Files and code:
--
-- - Prelude and its children, Dict, Sort, Strings: what the models share. Dict is Go's map as an
--   association list, with m[k], m[k] = v and delete; its order is insertion order and nothing may
--   depend on it. Sort is sort.Slice with an order. A Go string is a list of bytes.
-- - Metadata/Model: the rows of internal/metadata/model.go, field by field.
-- - Metadata/State: memoryState, objectKey, emptyState and the errors. An operation is a function
--   from the state to a result and the next state.
-- - Metadata/Buckets, Settings, Objects, Uploads: the methods of memoryBackedStore and, where they
--   differ, of memoryTx. The seven kinds of bucket settings have the same three methods, which are
--   written once over a table that says which map they work on.
-- - Metadata/Tx, Clone, Store: the calls of TxStore and of Store, RunInTx with cloneState, and
--   persistLocked. What a caller passes to RunInTx is a tree of calls that goes on from each
--   result. Whether a save fails is an input of each call.
-- - Metadata/Persister: Load and Save of fileStatePersister in internal/metadata/persister.go, over
--   a coding as JSON.
-- - Metadata/Clone/Cells: the loops of cloneState over the maps of slices and of maps, with the
--   cells that these stand in, and the writes in place through the copy.
-- - Metadata/Consistency, Snapshot: validateState, repairState, snapshotState and
--   applyPersistedState.
-- - Metadata/Invariant and its children: well-formedness of the state. Metadata/Store/Atomic and
--   Durable, Store/Errors, and the Laws, Reads, Listing and Repair modules: proofs on the module above each.
-- - Lifecycle/Rules, Parse: internal/lifecycle/rules.go. A duration is an int64 of nanoseconds and
--   the product that makes one from days wraps. The XML decoder, TrimSpace, ToLower and
--   ParseDuration are parameters.
-- - Lifecycle/World: the interfaces metadataStore and blobStore, the clock, the sleep and the
--   context of internal/lifecycle/worker.go, as operations on a world of any type.
-- - Lifecycle/Options, Delete, Scan, Run: NewWorker, deleteOne with deleteWithRetry, and RunOnce.
-- - AuthFailures: inMemoryAuthFailureProtector of internal/server/security.go.
-- - HeavyOps: heavyOpLimiter of internal/server/heavy.go, as steps of any number of goroutines;
--   its Limits and Drain modules count what the channels hold and what is left to do.
-- - Auth/Credentials, Tokens: internal/auth/credentials.go, pat.go and pat_manager.go.
-- - Auth/Requests, Signatures: internal/auth/sigv4.go, the canonical request and the verifier.
--   Auth/Presign: internal/auth/presign.go.
-- - Server, Server/Policy, Gate: internal/server/middleware.go, the principal of a request, the
--   policies and withAuthGate, with bucketAndKey of internal/server/handler.go.
-- - Server/Dispatch: the patterns of NewHandler and the cases of handleBucketRequest and
--   handleObjectRequest of internal/server/s3_api.go.
-- - Server/Sse: internal/server/sse.go, and parseRange of internal/server/s3_api.go.
-- - Server/Website: internal/server/website_handler.go on the store in memory.
-- - Server/Chunked: internal/server/aws_chunked.go, a reader with the text that is still to come.
-- - The Tests modules: the theorems at concrete inputs.
--
-- Bounds and fuel. The loop over the batches of a run has as much fuel as there are candidates,
-- which is enough for batches of at least one, and NewWorker makes them so. The loop of retries has
-- one attempt more than the number of retries, as in the code. Reading a chunked body has one read
-- more than the body has bytes, which is enough. Lists, counters and times are
-- natural numbers without a bound, except where the code multiplies durations; a time counts
-- nanoseconds from Go's zero time.
--
-- Parameters of authentication and the server: hashes and MACs, JSON and base64, random ids, time
-- formats, URL escapes, TrimSpace, ToLower, EqualFold, SplitHostPort and the key stream of the
-- counter mode. Where a theorem relies on them, it says so in a record of laws.
--
-- Not modelled: the SQL store, the SQL and Valkey persisters, encoding/json, migrations, most
-- handlers of the S3 API, the decoding of policy documents, the console, the blob store,
-- configuration and observability. They are I/O, or wait for the store model that stands here.
-- Locks are not modelled in the store: each method holds the lock from start to end, so its calls
-- are a sequence; one request at the gate sees one time. Maps and slices are values in the store,
-- and Metadata/Clone/Cells alone has the cells of those that stand inside of others. ListObjects and
-- other listings that the code leaves in the random order of a map have one order here.
mod Prelude
pub mod Dict
pub mod Server
pub mod Sort
pub mod Strings
pub mod AuthFailures
pub mod HeavyOps
pub mod Auth
pub mod Metadata
pub mod Lifecycle
