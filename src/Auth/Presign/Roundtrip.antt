-- ===== src/Auth/Presign/Roundtrip.antt =====
-- Proofs on internal/auth/presign.go: a presigned URL at the verifier.
use s.Prelude.{
  ℕ, ◌+◌, ◌*◌, ◌/◌, ◌≡◌, ◌≤◌, ◌<◌, ◌^◌, ◌≢◌, ◌∙◌, refl, sym, ap, true, false, none, some, List, [],
  ◌∷◌, ◌++◌, Text, text, text_eq, text_beq, ◌==◌, if◌then◌else◌, ltb, Outcome, ok, err, Elem, arith,
  Bool-cases, inl, inr,
}
use s.Dict.{Dict, lookup, put}
use s.Sort.{sort}
use s.Strings.{join, split}
use s.Strings.Laws.{Lacks, split-append, split-Lacks}
use s.Lifecycle.Rules.{Int64, pos, neg}
use s.Auth.Credentials.{Credentials, secrets, resolve_secrets}
use s.Auth.Requests.{
  SignatureError, access_denied, request_time_too_skewed, HttpRequest, Library, get,
  x_amz_signature, query_pairs, canonical_query, canonical_headers, canonical_header_value,
  add_line, normalized_headers, canonical_text, build_canonical_request,
}
use s.Auth.Requests.Query.{query_pairs-put, canonical_headers-query}
use s.Auth.Signatures.{
  Verifier, skew_exceeded, CredentialScope, scope_parts, parse_credential_scope, parse_amz_date,
  build_string_to_sign, sign_string, verify_request,
}
use s.Auth.Signatures.Steps.{
  verify_request_presigned, verify_presigned_url_dated, verify_presigned_params_lem,
  check_signature_some,
}
use s.Auth.Presign.Params.{
  get_signature, get_signed_headers, get_expires, get_date, get-credential, get-algorithm,
  unsigned_params,
}
use s.Auth.Presign.{
  PresignOptions, scope_of, presign_query, add_signature, or_default, checked_expiry, sign_url,
  presign_request,
}

-- What is relied on in Go's packages: a time before the year 10000 is read back in whole seconds, a
-- number below 2^63 as itself, a printed date and the digits of an HMAC are not empty, a date has no
-- slash, and the name of the host's header is in lower case.
pub record IsLibrary (lib : Library) : Type 0 where
  pub read_time :
      (t : ℕ)
      → t < 315537897600000000000
      → lib.parse_time (lib.format_time t) ≡ some (t / 1000000000 * 1000000000)
  pub whole_seconds : (t : ℕ) → lib.format_time (t / 1000000000 * 1000000000) ≡ lib.format_time t
  pub has_time : (t : ℕ) → lib.format_time t ≢ []
  pub read_number : (n : ℕ) → n < 2 ^ 63 → lib.atoi (lib.itoa n) ≡ some (pos n)
  pub same_name : lib.equal_fold x_amz_signature x_amz_signature ≡ true
  pub lower_host : lib.to_lower (lib.trim_space (text "host")) ≡ text "host"
  pub has_digits : (k s : Text) → lib.hex (lib.hmac_sha256 k s) ≢ []
  pub has_date : (t : ℕ) → (lib.format_date t ≢ []) × Lacks 47 (lib.format_date t)

or_default_filled : (d x value : Text) → (d == []) ≡ false → value ≡ or_default d x → value ≢ []
or_default_filled d x value filled e = ground (arith, text_eq.beq_iff d [], text_eq.beq_iff x [])

-- The scope that is printed is read back.
parse_credential_scope-print :
    (id date region service terminal : Text)
    → id ≢ []
    → date ≢ []
    → region ≢ []
    → service ≢ []
    → terminal ≢ []
    → Lacks 47 id
    → Lacks 47 date
    → Lacks 47 region
    → Lacks 47 service
    → Lacks 47 terminal
    → parse_credential_scope (id ++ (text "/" ++ scope_of date region service terminal))
      ≡ some (record {
        raw = scope_of date region service terminal;
        access_key_id = id;
        date = date;
        region = region;
        service = service;
        terminal = terminal;
      })
unfolding parse_credential_scope
parse_credential_scope-print id date region service terminal n1 n2 n3 n4 n5 h1 h2 h3 h4 h5 =
    let parts : split 47 (id ++ (text "/" ++ scope_of date region service terminal))
        ≡ id ∷ date ∷ region ∷ service ∷ terminal ∷ [] =
      split-append 47 id (scope_of date region service terminal) h1
      ∙ ap (λ l. id ∷ l)
          (split-append 47 date (region ++ (text "/" ++ (service ++ (text "/" ++ terminal)))) h2
            ∙ ap (λ l. date ∷ l)
                (split-append 47 region (service ++ (text "/" ++ terminal)) h3
                  ∙ ap (λ l. region ∷ l)
                      (split-append 47 service terminal h4
                        ∙ ap (λ l. service ∷ l) (split-Lacks 47 terminal h5)))) in
    ap scope_parts parts
    ∙ unfold scope_parts join in
      ground (
        arith,
        text_eq.beq_iff id [],
        text_eq.beq_iff date [],
        text_eq.beq_iff region [],
        text_eq.beq_iff service [],
        text_eq.beq_iff terminal [],
      )

add_signature-none :
    (lib : Library) (sign : Text → Text) (p : Outcome SignatureError Text × HttpRequest)
    (req' : HttpRequest)
    → add_signature lib sign p ≡ (none, req')
    → (canonical : Text) × (p.0 ≡ ok canonical)
      × (req' ≡ record p.1 { query = put x_amz_signature (sign canonical ∷ []) p.1.query })
unfolding add_signature
add_signature-none lib sign (err e, r) req' h = absurd (ground arith)
add_signature-none lib sign (ok canonical, r) req' h = (canonical, refl, sym (ap (λ p. p.1) h))

canonical_text-query :
    (lib : Library) (names : List Text) (p : Outcome SignatureError (List Text) × HttpRequest)
    (q : Dict Text (List Text))
    → query_pairs lib true q ≡ query_pairs lib true p.1.query
    → canonical_text lib names true (p.0, record p.1 { query = q })
      ≡ canonical_text lib names true p
unfolding canonical_text canonical_query
canonical_text-query lib names (err e, r) q h = refl
canonical_text-query lib names (ok lines, r) q h = rw h refl

module _ (lib : Library) (law : IsLibrary lib) where
  host_names : normalized_headers lib (text "host" ∷ []) ≡ text "host" ∷ []
  host_names = unfold sort in rw law.lower_host refl

  -- Signing the host alone leaves the headers as they are, and the canonical request does not see
  -- the signature.
  host_headers : (r : HttpRequest) → (build_canonical_request lib r (text "host" ∷ []) true).1 ≡ r
  unfolding build_canonical_request text_beq
  host_headers r = rw host_names (
      unfold canonical_headers canonical_header_value add_line in
      elim (Bool-cases (lib.trim_space (if r.host == [] then r.url_host else r.host) == [])) [
        | inl bad ↦ rw bad refl
        | inr fine ↦ rw fine refl
      ])

  build-signature :
      (r : HttpRequest) (signature : Text)
      → lookup x_amz_signature r.query ≡ none
      → (build_canonical_request lib
          (record r { query = put x_amz_signature (signature ∷ []) r.query })
          (text "host" ∷ [])
          true).0
        ≡ (build_canonical_request lib r (text "host" ∷ []) true).0
  unfolding build_canonical_request canonical_query
  build-signature r signature missing =
      let names = normalized_headers lib (text "host" ∷ []) in
      let q = put x_amz_signature (signature ∷ []) r.query in
      let kept : (canonical_headers lib names r).1.query ≡ r.query =
        ap (λ h. h.1.query) (canonical_headers-query lib names r r.query) in
      ap (canonical_text lib names true) (canonical_headers-query lib names r q)
      ∙ canonical_text-query lib names (canonical_headers lib names r) q (
          query_pairs-put lib (signature ∷ []) r.query law.same_name missing
          ∙ ap (query_pairs lib true) (sym kept))

  module _ (req : HttpRequest) (id secret region service terminal : Text) (expires now : ℕ) where
    abbrev signed_scope : Text
    signed_scope = scope_of (lib.format_date now) region service terminal

    abbrev credential : Text
    credential = id ++ (text "/" ++ signed_scope)

    abbrev seconds : Text
    seconds = lib.itoa (expires / 1000000000)

    abbrev scope : CredentialScope
    scope = record {
      raw = signed_scope;
      access_key_id = id;
      date = lib.format_date now;
      region = region;
      service = service;
      terminal = terminal;
    }

    abbrev unsigned : HttpRequest
    unsigned = record req { query = presign_query lib id signed_scope expires now req.query }

    abbrev signature_of : Text → Text
    signature_of canonical =
        sign_string lib secret (lib.format_date now) region service terminal
          (build_string_to_sign lib now signed_scope canonical)

    abbrev signed : Text → HttpRequest
    signed canonical = record unsigned {
      query = put x_amz_signature (signature_of canonical ∷ []) unsigned.query;
    }

    sign_url-none :
        (req' : HttpRequest)
        → sign_url lib req id secret region service terminal expires now ≡ (none, req')
        → (canonical : Text) × ((build_canonical_request lib unsigned (text "host" ∷ []) true).0
            ≡ ok canonical)
          × (req' ≡ signed canonical)
    unfolding sign_url
    sign_url-none req' h =
        let (canonical, fine, e) =
          add_signature-none lib signature_of
            (build_canonical_request lib unsigned (text "host" ∷ []) true) req' h in
        (
          canonical,
          fine,
          e
              ∙ ap
                  (λ (r : HttpRequest). record r {
                    query = put x_amz_signature (signature_of canonical ∷ []) r.query;
                  })
                  (host_headers unsigned),
        )

    module _ (canonical : Text) where
      same_text :
          build_string_to_sign lib (now / 1000000000 * 1000000000) signed_scope canonical
          ≡ build_string_to_sign lib now signed_scope canonical
      unfolding build_string_to_sign
      same_text = rw (law.whole_seconds now) refl

      abbrev url : HttpRequest
      url = signed canonical

      -- the URL at the verifier, once its canonical request is there
      verified :
          (v : Verifier) (creds : Credentials) (later : ℕ) (ss : List Text)
          → v.store ≡ some creds
          → now < 315537897600000000000
          → get (text "Authorization") req.headers ≡ []
          → 1000000000 ≤ expires
          → expires ≤ 604800000000000
          → parse_credential_scope credential ≡ some scope
          → v.service ≡ service
          → v.terminal ≡ terminal
          → (build_canonical_request lib unsigned (text "host" ∷ []) true).0 ≡ ok canonical
          → resolve_secrets id later creds ≡ secrets ss
          → Elem secret ss
          → (verify_request lib v later url).0 ≡ (
              if skew_exceeded v later (now / 1000000000 * 1000000000)
              then some request_time_too_skewed
              else if ltb (now / 1000000000 * 1000000000 + expires / 1000000000 * 1000000000) later
              then some access_denied
              else none)
      unfolding split text_beq
      verified v creds later ss there early bare least most parsed its_service its_terminal built
            resolved member =
          let at = now / 1000000000 * 1000000000 in
          let n = expires / 1000000000 in
          let date = lib.format_time now in
          let signature = signature_of canonical in
          let named = get-algorithm credential date seconds signature req.query in
          let dated : parse_amz_date lib (get (text "X-Amz-Date") url.query) ≡ some at =
            ap (parse_amz_date lib) (get_date credential date seconds signature req.query)
            ∙ unfold parse_amz_date in
              ground (
                arith,
                text_eq.beq_iff (lib.format_time now) [],
                law.has_time now,
                law.read_time now early,
              ) in
          let lasts =
            ap lib.atoi (get_expires credential date seconds signature req.query)
            ∙ law.read_number n (omega arith) in
          let scoped =
            ap parse_credential_scope (get-credential credential date seconds signature req.query)
            ∙ parsed in
          let hosts =
            ap (split 59) (get_signed_headers credential date seconds signature req.query) in
          let found = get_signature credential date seconds signature req.query in
          let filled : signature ≢ [] = unfold sign_string in law.has_digits _ _ in
          let params =
            verify_presigned_params_lem lib v creds later url at n scope (text "host" ∷ [])
              signature lasts (omega arith) (omega arith) scoped its_service its_terminal hosts refl
              found filled in
          let built' =
            build-signature unsigned signature
              (unsigned_params credential date seconds signature req.query)
            ∙ built in
          let matched =
            check_signature_some lib v creds later url scope (text "host" ∷ []) ss signature
              canonical secret at resolved built' member
              (ap (sign_string lib secret (lib.format_date now) region service terminal)
                same_text) in
          rw (verify_request_presigned lib v creds later url there bare named) (
            rw (verify_presigned_url_dated lib v creds later url at named dated)
              (rw params (ground (arith, matched))))

checked_expiry_most : (d : Int64) (n : ℕ) → checked_expiry d ≡ some n → n ≤ 604800000000000
unfolding checked_expiry
checked_expiry_most (neg m) n h = ground arith
checked_expiry_most (pos m) n h = ground arith

presign_request-none :
    (lib : Library) (req req' : HttpRequest) (id secret : Text) (opts : PresignOptions)
    (now expires : ℕ)
    → checked_expiry opts.expires ≡ some expires
    → presign_request lib req id secret opts now ≡ (none, req')
    → (expires ≤ 604800000000000)
      × (sign_url lib req id secret
            (or_default (text "us-east-1") (lib.trim_space opts.region))
            (or_default (text "s3") (lib.trim_space opts.service))
            (or_default (text "aws4_request") (lib.trim_space opts.terminal))
            expires
            now
          ≡ (none, req'))
unfolding presign_request
presign_request-none lib req req' id secret opts now expires lasts h =
    (checked_expiry_most opts.expires expires lasts, ground (arith, lasts))

-- What a verifier answers to a presigned URL: where skew_exceeded holds of the second of its signing,
-- that it is too skewed; else, where its expiry in whole seconds has passed, access denied; else it is
-- accepted. For any verifier of the same service and terminal whose store holds the secret for the key at
-- that time, where the URL is made before the year 10000, the request has no Authorization header, key
-- and scope have no slash, the expiry is a second at least, and Go's packages are as in `IsLibrary`.
pub verify_request-presign :
    (lib : Library)
    → IsLibrary lib
    → (req req' : HttpRequest) (id secret region service terminal : Text) (opts : PresignOptions)
      (now expires : ℕ)
    → presign_request lib req id secret opts now ≡ (none, req')
    → checked_expiry opts.expires ≡ some expires
    → 1000000000 ≤ expires
    → now < 315537897600000000000
    → region ≡ or_default (text "us-east-1") (lib.trim_space opts.region)
    → service ≡ or_default (text "s3") (lib.trim_space opts.service)
    → terminal ≡ or_default (text "aws4_request") (lib.trim_space opts.terminal)
    → id ≢ []
    → Lacks 47 id
    → Lacks 47 region
    → Lacks 47 service
    → Lacks 47 terminal
    → get (text "Authorization") req.headers ≡ []
    → (v : Verifier) (creds : Credentials) (later : ℕ) (ss : List Text) → v.store ≡ some creds
    → v.service ≡ service
    → v.terminal ≡ terminal
    → resolve_secrets id later creds ≡ secrets ss
    → Elem secret ss
    → (verify_request lib v later req').0 ≡ (
        if skew_exceeded v later (now / 1000000000 * 1000000000)
        then some request_time_too_skewed
        else if ltb (now / 1000000000 * 1000000000 + expires / 1000000000 * 1000000000) later
        then some access_denied
        else none)
unfolding text_beq
verify_request-presign lib law req req' id secret region service terminal opts now expires made
      lasts least early r s t named h1 h2 h3 h4 bare v creds later ss there its_service its_terminal
      resolved member =
    let (most, signed) = presign_request-none lib req req' id secret opts now expires lasts made in
    let signed' = rw (sym r, sym s, sym t) at signed in
    let (canonical, built, e) =
      sign_url-none lib law req id secret region service terminal expires now req' signed' in
    let date = law.has_date now in
    let parsed =
      parse_credential_scope-print id (lib.format_date now) region service terminal named date.0
        (or_default_filled (text "us-east-1") (lib.trim_space opts.region) region refl r)
        (or_default_filled (text "s3") (lib.trim_space opts.service) service refl s)
        (or_default_filled (text "aws4_request") (lib.trim_space opts.terminal) terminal refl t) h1
        date.1 h2 h3 h4 in
    rw e (
      verified lib law req id secret region service terminal expires now canonical v creds later ss
        there early bare least most parsed its_service its_terminal built resolved member)
