-- ===== src/Server/Dispatch/Anonymous.antt =====
-- Proofs on handleBucketRequest of internal/server/s3_api.go, for requests without credentials.
use s.Prelude.{
  ◌≡◌, inl, inr, Bool, true, false, Option, some, List, [], Text, text, text_eq, text_beq, ◌==◌,
  Bool-cases, if◌then◌else◌, arith,
}
use s.Dict.{Dict}
use s.Auth.Requests.{get}
use s.Server.{Request, Given}
use s.Server.Policy.{PolicyStatement, anonymous_policy_target}
use s.Server.Dispatch.{
  BucketOperation, get_website, get_cors, get_policy, get_public_access_block, get_lifecycle,
  get_notification, get_replication, get_acl, get_versioning, list_object_versions, get_location,
  list_multipart_uploads, list_objects_v2, has_query_flag, bucket_operation,
}

-- the operations that only read
abbrev pub reads : BucketOperation → Bool
reads get_website = true
reads get_cors = true
reads get_policy = true
reads get_public_access_block = true
reads get_lifecycle = true
reads get_notification = true
reads get_replication = true
reads get_acl = true
reads get_versioning = true
reads list_object_versions = true
reads get_location = true
reads list_multipart_uploads = true
reads list_objects_v2 = true
reads _ = false

bucket_operation-get :
    (q : Dict Text (List Text))
    → (get (text "list-type") q == text "2") ≡ true
    → (reads (bucket_operation (text "GET") q) ≡ true)
      × (bucket_operation (text "GET") q ≡ (
          if has_query_flag q (text "website")
          then get_website
          else if has_query_flag q (text "cors")
          then get_cors
          else if has_query_flag q (text "policy")
          then get_policy
          else bucket_operation (text "GET") q))
unfolding bucket_operation text_beq
bucket_operation-get q listed = (ground arith, ground arith)

anonymous_policy_target_list :
    (given : Given) (statements : Text → Option (List PolicyStatement)) (r : Request)
    (bucket action resource : Text)
    → anonymous_policy_target given statements r bucket [] ≡ some (action, resource)
    → (r.http.method ≡ text "GET")
      × ((get (text "list-type") r.http.query == text "2") ≡ true)
      × (action ≡ text "s3:ListBucket")
unfolding anonymous_policy_target text_beq
anonymous_policy_target_list given statements r bucket action resource h =
    elim (Bool-cases (r.http.method == text "GET")) [
      | inl same ↦ ((text_eq.beq_iff r.http.method (text "GET")).0 same, ground arith, ground arith)
      | inr other ↦ absurd (ground arith)
    ]

-- A request on a bucket that its policy may allow to everyone reads only, and asks the policy for
-- `s3:ListBucket` whatever it reads; with the flag `policy` and no `website` and `cors`, it reads the
-- policy document.
pub bucket_operation-anonymous :
    (given : Given) (statements : Text → Option (List PolicyStatement)) (r : Request)
    (bucket action resource : Text)
    → anonymous_policy_target given statements r bucket [] ≡ some (action, resource)
    → (reads (bucket_operation r.http.method r.http.query) ≡ true)
      × (action ≡ text "s3:ListBucket")
      × (bucket_operation r.http.method r.http.query ≡ (
          if has_query_flag r.http.query (text "website")
          then get_website
          else if has_query_flag r.http.query (text "cors")
          then get_cors
          else if has_query_flag r.http.query (text "policy")
          then get_policy
          else bucket_operation (text "GET") r.http.query))
bucket_operation-anonymous given statements r bucket action resource h =
    let (method, listed, asked) =
      anonymous_policy_target_list given statements r bucket action resource h in
    let (only, found) = bucket_operation-get r.http.query listed in rw method (only, asked, found)
