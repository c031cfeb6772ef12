-- ===== src/Server/Policy.antt =====
-- internal/server/middleware.go: which requests a bucket policy allows to everyone. The statements
-- of a document are given, as `encoding/json` and the document's own decoding read them.
pub mod Deny
use s.Prelude.{
  ℕ, Bool, true, false, not, ◌&&◌, ◌||◌, Option, none, some, List, [], ◌∷◌, ◌++◌, Text, text,
  text_eq, ◌==◌, if◌then◌else◌, Outcome, ok, err, any,
}
use s.Strings.{has_prefix, has_suffix, trim_suffix}
use s.Metadata.Model.{BucketPolicy, BucketPublicAccessBlock}
use s.Metadata.State.{
  MemoryState, StoreError, not_found, conflict, name_required, save_failed, caller,
}
use s.Metadata.Settings.{get_setting, policy_table, public_access_table}
use s.Auth.Requests.{get}
use s.Server.{Request, Given, bucket_and_key}

pub record PolicyStatement : Type 0 where
  pub effect : Text
  pub principal : List Text
  pub action : List Text
  pub resource : List Text

unfoldable pub policy_pattern_matches : Text → Text → Bool
policy_pattern_matches pattern value =
    if (pattern == text "*") || (pattern == value)
    then true
    else if has_suffix pattern (text "*")
    then has_prefix value (trim_suffix pattern (text "*"))
    else false

unfoldable pub matches_anonymous : PolicyStatement → Text → Text → Bool
unfolding policy_pattern_matches
matches_anonymous stmt action resource =
    any (λ got. got == text "*") stmt.principal
    && (any (λ pattern. policy_pattern_matches pattern action) stmt.action
        && any (λ pattern. policy_pattern_matches pattern resource) stmt.resource)

module _ (equal_fold : Text → Text → Bool) (action resource : Text) where
  -- the loop over the statements, with what is allowed so far
  unfoldable pub allows : Bool → List PolicyStatement → Bool
  unfolding matches_anonymous
  allows allowed [] = allowed
  allows allowed (stmt ∷ rest) =
      let same = allows allowed rest in
      let more = allows true rest in
      if not (matches_anonymous stmt action resource)
      then same
      else if equal_fold stmt.effect (text "Deny")
      then false
      else if equal_fold stmt.effect (text "Allow")
      then more
      else same

module _ (given : Given) (statements : Text → Option (List PolicyStatement)) where
  unfoldable pub bucket_policy_allows_anonymous : Text → Text → Text → Bool
  bucket_policy_allows_anonymous document action resource = elim (statements document) [
    | none ↦ false
    | some stmts ↦ allows given.lib.equal_fold action resource false stmts
  ]

  -- the action and the resource of a request that a policy may allow to everyone
  unfoldable pub anonymous_policy_target : Request → Text → Text → Option (Text × Text)
  anonymous_policy_target r bucket key =
      if key == []
      then (if (r.http.method == text "GET") && (get (text "list-type") r.http.query == text "2")
          then some (text "s3:ListBucket", text "arn:aws:s3:::" ++ bucket)
          else none)
      else if not (r.http.method == text "GET") && not (r.http.method == text "HEAD")
      then none
      else some (text "s3:GetObject", text "arn:aws:s3:::" ++ (bucket ++ (text "/" ++ key)))

  -- a block of the bucket that forbids public policies, or that cannot be read
  abbrev pub is_restricted : Outcome StoreError BucketPublicAccessBlock → Bool
  is_restricted (ok block) = block.block_public_policy || block.restrict_public_buckets
  is_restricted (err not_found) = false
  is_restricted (err conflict) = true
  is_restricted (err name_required) = true
  is_restricted (err save_failed) = true
  is_restricted (err caller) = true

  abbrev pub policy_allows : Outcome StoreError BucketPolicy → Text → Text → Bool
  policy_allows (err e) action resource = false
  policy_allows (ok policy) action resource =
      policy.enabled
      && (not (given.lib.trim_space policy.document == [])
          && bucket_policy_allows_anonymous policy.document action resource)

  unfoldable pub anonymous_policy_allows : Request → Text → Option MemoryState → Bool
  unfolding anonymous_policy_target bucket_policy_allows_anonymous
  anonymous_policy_allows r domain none = false
  anonymous_policy_allows r domain (some st) = elim (bucket_and_key given r domain) [
    | none ↦ false
    | some (bucket, key) ↦
        if bucket == [] then false else elim (anonymous_policy_target r bucket key) [
          | none ↦ false
          | some (action, resource) ↦
              if is_restricted (get_setting public_access_table bucket st)
              then false
              else policy_allows (get_setting policy_table bucket st) action resource
        ]
  ]
