-- ===== src/Server/Dispatch.antt =====
-- internal/server/handler.go: the patterns of `NewHandler`, as Go's mux matches them; and
-- internal/server/s3_api.go: which operation a request on a bucket or on an object is.
pub mod Anonymous
pub mod Unguarded
use s.Prelude.{
  ℕ, Bool, true, false, not, ◌&&◌, ◌||◌, Option, none, some, List, [], ◌∷◌, Text, text, text_eq,
  ◌==◌, if◌then◌else◌, is_some,
}
use s.Dict.{Dict, lookup}
use s.Strings.{has_prefix}
use s.Auth.Requests.{HttpRequest, get}
use s.Server.{Request, Given}
use s.Server.Policy.{PolicyStatement}
use s.Server.Gate.{Options, is_public_website_request}

pub data Route : Type 0 where
  healthz readyz web metrics lifecycle_config lifecycle_metrics website_or_s3 redirected : Route

-- The handler of a request by its method and its escaped path, which has no escapes in the names of the
-- patterns. `clean` is net/http's cleanPath: mux redirects a path that it changes, except for CONNECT.
-- A pattern that ends in a slash is for all paths below it, another for itself, which goes first; the
-- path of the first without its slash is redirected where no pattern is for it. The metrics path is one
-- of its own and has no slash at its end.
unfoldable pub route : (Text → Text) → Text → Text → Text → Route
route clean method path metrics_path =
    if not (method == text "CONNECT") && not (clean path == path)
    then redirected
    else if path == text "/healthz"
    then healthz
    else if path == text "/readyz"
    then readyz
    else if path == (if metrics_path == [] then text "/metrics" else metrics_path)
    then metrics
    else if (path == text "/app")
        || (has_prefix path (text "/app/") || has_prefix path (text "/assets/"))
    then web
    else if path == text "/assets"
    then redirected
    else if path == text "/debug/lifecycle/config"
    then lifecycle_config
    else if path == text "/debug/lifecycle/metrics"
    then lifecycle_metrics
    else website_or_s3

pub data Handler : Type 0 where
  website s3 : Handler

-- `websiteOrS3Handler`
unfoldable pub website_or_s3_handler :
    Given → (Text → Option (List PolicyStatement)) → Request → Options → Handler
website_or_s3_handler given statements r opts =
    if is_public_website_request given statements r opts then website else s3

pub data BucketOperation : Type 0 where
  put_website get_website delete_website delete_objects put_cors get_cors delete_cors :
      BucketOperation
  put_policy get_policy delete_policy put_public_access_block get_public_access_block :
      BucketOperation
  delete_public_access_block put_lifecycle get_lifecycle delete_lifecycle put_notification :
      BucketOperation
  get_notification delete_notification put_replication get_replication delete_replication :
      BucketOperation
  get_acl put_acl put_versioning get_versioning list_object_versions get_location : BucketOperation
  list_multipart_uploads list_objects_v2 create_bucket delete_bucket method_not_allowed :
      BucketOperation

-- hasQueryFlag
abbrev pub has_query_flag : Dict Text (List Text) → Text → Bool
has_query_flag q key = is_some (lookup key q)

-- the cases of `handleBucketRequest`, in order
unfoldable pub bucket_operation : Text → Dict Text (List Text) → BucketOperation
unfolding get
bucket_operation method q =
    let is_put = method == text "PUT" in
    let is_get = method == text "GET" in
    let is_delete = method == text "DELETE" in
    if is_put && has_query_flag q (text "website")
    then put_website
    else if is_get && has_query_flag q (text "website")
    then get_website
    else if is_delete && has_query_flag q (text "website")
    then delete_website
    else if (method == text "POST") && has_query_flag q (text "delete")
    then delete_objects
    else if is_put && has_query_flag q (text "cors")
    then put_cors
    else if is_get && has_query_flag q (text "cors")
    then get_cors
    else if is_delete && has_query_flag q (text "cors")
    then delete_cors
    else if is_put && has_query_flag q (text "policy")
    then put_policy
    else if is_get && has_query_flag q (text "policy")
    then get_policy
    else if is_delete && has_query_flag q (text "policy")
    then delete_policy
    else if is_put && has_query_flag q (text "publicAccessBlock")
    then put_public_access_block
    else if is_get && has_query_flag q (text "publicAccessBlock")
    then get_public_access_block
    else if is_delete && has_query_flag q (text "publicAccessBlock")
    then delete_public_access_block
    else if is_put && has_query_flag q (text "lifecycle")
    then put_lifecycle
    else if is_get && has_query_flag q (text "lifecycle")
    then get_lifecycle
    else if is_delete && has_query_flag q (text "lifecycle")
    then delete_lifecycle
    else if is_put && has_query_flag q (text "notification")
    then put_notification
    else if is_get && has_query_flag q (text "notification")
    then get_notification
    else if is_delete && has_query_flag q (text "notification")
    then delete_notification
    else if is_put && has_query_flag q (text "replication")
    then put_replication
    else if is_get && has_query_flag q (text "replication")
    then get_replication
    else if is_delete && has_query_flag q (text "replication")
    then delete_replication
    else if is_get && has_query_flag q (text "acl")
    then get_acl
    else if is_put && has_query_flag q (text "acl")
    then put_acl
    else if is_put && has_query_flag q (text "versioning")
    then put_versioning
    else if is_get && has_query_flag q (text "versioning")
    then get_versioning
    else if is_get && has_query_flag q (text "versions")
    then list_object_versions
    else if is_get && has_query_flag q (text "location")
    then get_location
    else if is_get && has_query_flag q (text "uploads")
    then list_multipart_uploads
    else if is_get && (get (text "list-type") q == text "2")
    then list_objects_v2
    else if is_put
    then create_bucket
    else if is_delete
    then delete_bucket
    else method_not_allowed

pub data ObjectOperation : Type 0 where
  copy_object get_object_acl put_object_acl object_tagging object_retention object_legal_hold :
      ObjectOperation
  multipart_with_upload_id create_multipart_upload put_object get_object head_object :
      ObjectOperation
  delete_object object_method_not_allowed : ObjectOperation

-- the cases of `handleObjectRequest` for a bucket that is there; the operations on taggings,
-- retentions, holds and uploads look at the method themselves
unfoldable pub object_operation : HttpRequest → ObjectOperation
unfolding get
object_operation r =
    let is_put = r.method == text "PUT" in
    let is_get = r.method == text "GET" in
    if is_put && not (get (text "X-Amz-Copy-Source") r.headers == [])
    then copy_object
    else if has_query_flag r.query (text "acl")
    then (if is_get
        then get_object_acl
        else if is_put
        then put_object_acl
        else object_method_not_allowed)
    else if has_query_flag r.query (text "tagging")
    then object_tagging
    else if has_query_flag r.query (text "retention")
    then object_retention
    else if has_query_flag r.query (text "legal-hold")
    then object_legal_hold
    else if has_query_flag r.query (text "uploadId")
    then multipart_with_upload_id
    else if (r.method == text "POST") && has_query_flag r.query (text "uploads")
    then create_multipart_upload
    else if is_put
    then put_object
    else if is_get
    then get_object
    else if r.method == text "HEAD"
    then head_object
    else if r.method == text "DELETE"
    then delete_object
    else object_method_not_allowed
