-- ===== src/Auth/Requests.antt =====
-- internal/auth/sigv4.go: what of a request is signed. The functions of other packages are given.
pub mod Query
pub mod Order
use s.Prelude.{
  ℕ, Bool, true, false, ◌&&◌, Option, none, some, List, [], ◌∷◌, ◌++◌, map, Text, text, text_eq,
  ◌==◌, if◌then◌else◌, Outcome, ok, err,
}
use s.Dict.{Dict, lookup, put}
use s.Sort.{sort, text_lt}
use s.Strings.{join, replace_all}
use s.Lifecycle.Rules.{Int64}

pub data SignatureError : Type 0 where
  missing_authentication_token invalid_access_key_id signature_does_not_match : SignatureError
  request_time_too_skewed invalid_request access_denied : SignatureError

-- Header names stand in their canonical form; the query is the map of its values.
pub record HttpRequest : Type 0 where
  pub method : Text
  pub path : Text
  pub escaped_path : Text
  pub query : Dict Text (List Text)
  pub host : Text
  pub url_host : Text
  pub headers : Dict Text (List Text)

-- Functions of Go's packages: times in the basic ISO 8601 form and the date alone, texts, numbers,
-- escapes and hashes. `canonical_key` is the form in which a header's name is stored.
pub record Library : Type 0 where
  pub parse_time : Text → Option ℕ
  pub format_time : ℕ → Text
  pub format_date : ℕ → Text
  pub trim_space : Text → Text
  pub to_lower : Text → Text
  pub equal_fold : Text → Text → Bool
  pub fields : Text → List Text
  pub canonical_key : Text → Text
  pub atoi : Text → Option Int64
  pub itoa : ℕ → Text
  pub query_escape : Text → Text
  pub sha256 : Text → Text
  pub hmac_sha256 : Text → Text → Text
  pub hex : Text → Text

-- the first value of a name, empty without one
unfoldable pub get : Text → Dict Text (List Text) → Text
get name m = elim (lookup name m) [
  | none ↦ []
  | some values ↦ elim values [ [] ↦ [] | value ∷ _ ↦ value ]
]

-- the values of a name, none without one
abbrev pub values_of : Text → Dict Text (List Text) → List Text
values_of name m = elim (lookup name m) [ none ↦ [] | some values ↦ values ]

abbrev pub algorithm : Text
algorithm = text "AWS4-HMAC-SHA256"

abbrev pub x_amz_signature : Text
x_amz_signature = text "X-Amz-Signature"

abbrev pub pair_less : Text × Text → Text × Text → Bool
pair_less a b = if a.0 == b.0 then text_lt a.1 b.1 else text_lt a.0 b.0

-- a header with its value before those that follow, which are read only where it has one
unfoldable pub add_line :
    Text
    → Option Text
    → HttpRequest
    → Outcome SignatureError (List Text) × HttpRequest
    → Outcome SignatureError (List Text) × HttpRequest
add_line name none r rest = (err signature_does_not_match, r)
add_line name (some value) r (err e, r') = (err e, r')
add_line name (some value) r (ok lines, r') = (ok ((name ++ (text ":" ++ value)) ∷ lines), r')

module _ (lib : Library) where
  unfoldable pub aws_encode : Text → Text
  aws_encode value = replace_all (text "%7E") (text "~") (
      replace_all (text "*") (text "%2A")
        (replace_all (text "+") (text "%20") (lib.query_escape value)))

  -- the pairs of the query before they are sorted
  unfoldable pub query_pairs : Bool → Dict Text (List Text) → List (Text × Text)
  query_pairs presigned [] = []
  query_pairs presigned ((key, values) ∷ m) =
      let rest = query_pairs presigned m in
      if presigned && lib.equal_fold key x_amz_signature
      then rest
      else map (λ value. (key, value)) (sort text_lt values) ++ rest

  unfoldable pub print_pair : Text × Text → Text
  unfolding aws_encode
  print_pair p = aws_encode p.0 ++ (text "=" ++ aws_encode p.1)

  unfoldable pub canonical_query : Dict Text (List Text) → Bool → Text
  canonical_query values presigned =
      join (text "&") (map print_pair (sort pair_less (query_pairs presigned values)))

  abbrev pub canonical_uri : HttpRequest → Text
  canonical_uri r = if r.escaped_path == [] then text "/" else r.escaped_path

  -- The value of a header, and the headers after the call, which squeezes the spaces of the values
  -- in place.
  unfoldable pub canonical_header_value : HttpRequest → Text → Option Text × Dict Text (List Text)
  canonical_header_value r name =
      if name == text "host"
      then (let host = lib.trim_space (if r.host == [] then r.url_host else r.host) in
          ((if host == [] then none else some host), r.headers))
      else elim (values_of (lib.canonical_key name) r.headers) [
        | [] ↦ (none, r.headers)
        | first ∷ others ↦
            let values = map (λ value. join (text " ") (lib.fields value)) (first ∷ others) in
            (some (join (text ",") values), put (lib.canonical_key name) values r.headers)
      ]

  -- the loop over the sorted names
  unfoldable pub canonical_headers :
      List Text → HttpRequest → Outcome SignatureError (List Text) × HttpRequest
  unfolding canonical_header_value add_line
  canonical_headers [] r = (ok [], r)
  canonical_headers (name ∷ names) r =
      let value = canonical_header_value r name in
      let rest = canonical_headers names (record r { headers = value.1 }) in
      if name == []
      then (err invalid_request, r)
      else add_line name value.0 (record r { headers = value.1 }) rest

  abbrev pub normalized_headers : List Text → List Text
  normalized_headers names = sort text_lt (map (λ name. lib.to_lower (lib.trim_space name)) names)

  abbrev pub payload_hash : HttpRequest → Text
  payload_hash r =
      let hash = get (text "X-Amz-Content-Sha256") r.headers in
      if hash == [] then text "UNSIGNED-PAYLOAD" else hash

  -- the canonical request, from the headers
  unfoldable pub canonical_text :
      List Text
      → Bool
      → Outcome SignatureError (List Text) × HttpRequest
      → Outcome SignatureError Text
  unfolding canonical_query get
  canonical_text names presigned (err e, r) = err e
  canonical_text names presigned (ok headers, r) = ok (
      join (text "\n") (
        r.method
        ∷ canonical_uri r
        ∷ canonical_query r.query presigned
        ∷ (join (text "\n") headers ++ text "\n")
        ∷ join (text ";") names
        ∷ payload_hash r
        ∷ []))

  unfoldable pub build_canonical_request :
      HttpRequest → List Text → Bool → Outcome SignatureError Text × HttpRequest
  unfolding canonical_headers canonical_text
  build_canonical_request r signed_headers presigned =
      let names = normalized_headers signed_headers in
      let headers = canonical_headers names r in (canonical_text names presigned headers, headers.1)
