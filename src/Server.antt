-- ===== src/Server.antt =====
-- internal/server: what the handlers read of a request. The functions of other packages are given.
pub mod Policy
pub mod Gate
pub mod Dispatch
pub mod Sse
pub mod Website
pub mod Chunked
mod Tests
use s.Prelude.{
  ℕ, Bool, true, false, not, ◌&&◌, ◌||◌, Option, none, some, List, [], ◌∷◌, ◌++◌, length, Text,
  text, text_eq, ◌==◌, if◌then◌else◌, ltb,
}
use s.Strings.{
  has_prefix, drop_prefix, trim_prefix, has_suffix, trim_suffix, join, split, split_once, after,
  first_part, take, drop, contains_byte,
}
use s.Auth.Tokens.{Coding, token_subject}
use s.Auth.Requests.{HttpRequest, Library, get}

-- A request as a handler has it: the principal of its context is empty until one is set.
pub record Request : Type 0 where
  pub http : HttpRequest
  pub remote_addr : Text
  pub principal : Text

-- Functions of Go's packages and of the token coding; `split_host_port` is the host alone, `none` where
-- the text is not a host with a port.
pub record Given : Type 0 where
  pub lib : Library
  pub coding : Coding
  pub split_host_port : Text → Option Text

module _ (given : Given) where
  -- the token of an Authorization header
  unfoldable pub bearer_token : Text → Option Text
  bearer_token untrimmed =
      let value = given.lib.trim_space untrimmed in
      let token = given.lib.trim_space (drop 7 value) in
      if (value == []) || ltb (length value) 7
      then none
      else if not (given.lib.equal_fold (take 7 value) (text "Bearer "))
      then none
      else if token == []
      then none
      else some token

  abbrev pub authorization : Request → Text
  authorization r = get (text "Authorization") r.http.headers

  -- the key of a credential, empty where there is none
  abbrev pub key_of : Text → Text
  key_of credential = first_part 47 credential

  -- the principal that the query names
  unfoldable pub query_principal : Request → Text
  unfolding get
  query_principal r =
      let credential = get (text "X-Amz-Credential") r.http.query in
      if (credential == []) || (key_of credential == [])
      then []
      else given.lib.trim_space (key_of credential)

  -- the principal that the request claims
  unfoldable pub extract_principal_id : Request → Text
  unfolding bearer_token query_principal
  extract_principal_id r =
      if not (r.principal == []) then r.principal else elim (bearer_token (authorization r)) [
        | some token ↦
            if token_subject given.coding token == []
            then text "pat"
            else token_subject given.coding token
        | none ↦ elim (after (text "Credential=") (authorization r)) [
          | none ↦ query_principal r
          | some value ↦
              if key_of (first_part 44 value) == []
              then query_principal r
              else given.lib.trim_space (key_of (first_part 44 value))
        ]
      ]

  unfoldable pub client_identity_key : Request → Text
  unfolding extract_principal_id
  client_identity_key r =
      let principal = extract_principal_id r in
      let host =
        given.lib.trim_space (elim (given.split_host_port r.remote_addr) [
          | none ↦ r.remote_addr
          | some host ↦ host
        ]) in
      (if principal == [] then text "anon" else principal)
      ++ (text "@" ++ (if host == [] then text "unknown" else host))

  unfoldable pub has_auth_material : Request → Bool
  has_auth_material r =
      not (given.lib.trim_space (authorization r) == [])
      || (not (get (text "X-Amz-Signature") r.http.query == [])
          || (not (get (text "X-Amz-Credential") r.http.query == [])
              || not (get (text "X-Amz-Algorithm") r.http.query == [])))

  abbrev pub host_of : Text → Text
  host_of host = elim (given.split_host_port host) [ none ↦ host | some h ↦ h ]

  -- the bucket and the key, from the host where it is below the domain
  unfoldable pub parse_virtual_host_style : Request → Text → Option (Text × Text)
  parse_virtual_host_style r domain =
      let bucket = trim_suffix (host_of r.http.host) (text "." ++ domain) in
      if r.http.host == []
      then none
      else if (domain == []) || not (has_suffix (host_of r.http.host) (text "." ++ domain))
      then none
      else if (bucket == []) || contains_byte 46 bucket
      then none
      else some (bucket, trim_prefix r.http.path (text "/"))

  -- the bucket and the key of the parts of a path
  unfoldable pub path_parts : List Text → Option (Text × Text)
  path_parts [] = none
  path_parts (bucket ∷ rest) = if bucket == [] then none else some (bucket, join (text "/") rest)

  unfoldable pub bucket_and_key : Request → Text → Option (Text × Text)
  unfolding parse_virtual_host_style path_parts
  bucket_and_key r domain = elim (parse_virtual_host_style r domain) [
    | some found ↦ some found
    | none ↦ path_parts (split 47 (trim_prefix r.http.path (text "/")))
  ]

unfoldable pub should_bypass_guards : Text → Text → Bool
should_bypass_guards path metrics_path =
    (path == text "/healthz")
    || ((path == text "/readyz")
        || ((path == (if metrics_path == [] then text "/metrics" else metrics_path))
            || (has_prefix path (text "/app") || has_prefix path (text "/assets/"))))
