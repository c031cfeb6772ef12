-- ===== src/Auth/Presign.antt =====
-- internal/auth/presign.go: presigned URLs. The request and its URL are there.
pub mod Params
pub mod Roundtrip
use s.Prelude.{
  ℕ, ◌/◌, Bool, true, false, not, ◌||◌, Option, none, some, List, [], ◌∷◌, ◌++◌, Text, text,
  text_eq, nat_beq, ◌==◌, if◌then◌else◌, ltb, Outcome, ok, err,
}
use s.Dict.{Dict, put, erase}
use s.Lifecycle.Rules.{Int64, pos, neg}
use s.Auth.Requests.{
  SignatureError, HttpRequest, Library, algorithm, x_amz_signature, build_canonical_request,
}
use s.Auth.Signatures.{build_string_to_sign, sign_string}

pub record PresignOptions : Type 0 where
  pub region : Text
  pub service : Text
  pub terminal : Text
  pub expires : Int64

pub data PresignError : Type 0 where
  method_required access_key_required secret_required bad_expiry : PresignError
  not_canonical : SignatureError → PresignError

abbrev pub max_presign_expiry : ℕ
max_presign_expiry = 604800000000000

abbrev pub or_default : Text → Text → Text
or_default d value = if value == [] then d else value

-- the expiry, a quarter of an hour where it is 0; `none` out of the bounds
unfoldable pub checked_expiry : Int64 → Option ℕ
checked_expiry (neg n) = none
checked_expiry (pos n) =
    let expires = if nat_beq n 0 then 900000000000 else n in
    if ltb max_presign_expiry expires then none else some expires

abbrev pub scope_of : Text → Text → Text → Text → Text
scope_of date region service terminal =
    date ++ (text "/" ++ (region ++ (text "/" ++ (service ++ (text "/" ++ terminal)))))

-- q.Set for the parameters that are signed, and q.Del for the signature
abbrev pub signed_params : Text → Text → Text → Dict Text (List Text) → Dict Text (List Text)
signed_params credential amz_date seconds q = erase x_amz_signature (
    put (text "X-Amz-SignedHeaders") (text "host" ∷ []) (
      put (text "X-Amz-Expires") (seconds ∷ []) (
        put (text "X-Amz-Date") (amz_date ∷ []) (
          put (text "X-Amz-Credential") (credential ∷ [])
            (put (text "X-Amz-Algorithm") (algorithm ∷ []) q)))))

module _ (lib : Library) where
  abbrev pub presign_query : Text → Text → ℕ → ℕ → Dict Text (List Text) → Dict Text (List Text)
  presign_query access_key_id scope expires signed_at q =
      signed_params (access_key_id ++ (text "/" ++ scope)) (lib.format_time signed_at)
        (lib.itoa (expires / 1000000000)) q

  -- the signature of the canonical request, added to the query
  unfoldable pub add_signature :
      (Text → Text) → Outcome SignatureError Text × HttpRequest → Option PresignError × HttpRequest
  add_signature sign (err e, r) = (some (not_canonical e), r)
  add_signature sign (ok canonical, r) =
      (none, record r { query = put x_amz_signature (sign canonical ∷ []) r.query })

  -- what is done once the input is checked
  unfoldable pub sign_url :
      HttpRequest → Text → Text → Text → Text → Text → ℕ → ℕ → Option PresignError × HttpRequest
  unfolding add_signature
  sign_url req access_key_id secret region service terminal expires signed_at =
      let date = lib.format_date signed_at in
      let scope = scope_of date region service terminal in
      let req' : HttpRequest = record req {
        query = presign_query access_key_id scope expires signed_at req.query;
      } in
      add_signature
        (λ canonical.
          sign_string lib secret date region service terminal
            (build_string_to_sign lib signed_at scope canonical))
        (build_canonical_request lib req' (text "host" ∷ []) true)

  unfoldable pub presign_request :
      HttpRequest → Text → Text → PresignOptions → ℕ → Option PresignError × HttpRequest
  unfolding sign_url checked_expiry
  presign_request req access_key_id secret opts now =
      if lib.trim_space req.method == []
      then (some method_required, req)
      else if lib.trim_space access_key_id == []
      then (some access_key_required, req)
      else if lib.trim_space secret == []
      then (some secret_required, req)
      else elim (checked_expiry opts.expires) [
        | none ↦ (some bad_expiry, req)
        | some expires ↦
            sign_url req access_key_id secret
              (or_default (text "us-east-1") (lib.trim_space opts.region))
              (or_default (text "s3") (lib.trim_space opts.service))
              (or_default (text "aws4_request") (lib.trim_space opts.terminal)) expires now
      ]
