-- ===== src/Server/Dispatch/Unguarded.antt =====
-- Proofs on shouldBypassGuards and the routes: buckets named like the console's path.
use s.Prelude.{
  ℕ, ◌≡◌, ◌≢◌, ◌∙◌, refl, sym, ap, true, false, Option, none, some, List, [], ◌∷◌, ◌++◌, Text, text,
  text_eq, text_beq, arith,
}
use s.Strings.{has_prefix, trim_prefix, split}
use s.Strings.Laws.{Lacks, split-append, join-split, trim_prefix-append}
use s.AuthFailures.{Protector}
use s.Server.{
  Request, Given, bucket_and_key, parse_virtual_host_style, path_parts, should_bypass_guards,
}
use s.Server.Policy.{PolicyStatement}
use s.Server.Gate.{Options, next, auth_gate, is_public_website_request}
use s.Server.Dispatch.{website_or_s3, s3, route, website_or_s3_handler}

-- the path of a key in a bucket whose name starts with "app"
abbrev pub app_path : Text → Text → Text
app_path rest key = text "/app" ++ (rest ++ (text "/" ++ key))

app_path-bypass :
    (rest key metrics : Text) → should_bypass_guards (app_path rest key) metrics ≡ true
unfolding should_bypass_guards has_prefix
app_path-bypass rest key metrics = ground arith

app_path-route :
    (clean : Text → Text) (c : ℕ) (method rest key metrics : Text)
    → c ≢ 47
    → metrics ≢ []
    → app_path (c ∷ rest) key ≢ metrics
    → clean (app_path (c ∷ rest) key) ≡ app_path (c ∷ rest) key
    → route clean method (app_path (c ∷ rest) key) metrics ≡ website_or_s3
unfolding route has_prefix text_beq
app_path-route clean c method rest key metrics other set unlike kept = ground (
  arith,
  kept,
  text_eq.beq_iff (clean (app_path (c ∷ rest) key)) (app_path (c ∷ rest) key),
  text_eq.beq_iff (app_path (c ∷ rest) key) metrics,
  text_eq.beq_iff metrics [],
)

app_path-bucket :
    (given : Given) (r : Request) (domain rest key : Text)
    → Lacks 47 rest
    → parse_virtual_host_style given r domain ≡ none
    → r.http.path ≡ app_path rest key
    → bucket_and_key given r domain ≡ some (text "app" ++ rest, key)
unfolding bucket_and_key
app_path-bucket given r domain rest key plain hosted path =
    let parts : split 47 (trim_prefix r.http.path (text "/"))
        ≡ (text "app" ++ rest) ∷ split 47 key =
      ap (λ t. split 47 (trim_prefix t (text "/"))) path
      ∙ (ap (split 47) (trim_prefix-append (text "/") (text "app" ++ (rest ++ (text "/" ++ key))))
          ∙ split-append 47 (text "app" ++ rest) key (refl, (refl, (refl, plain)))) in
    rw (hosted, bucket_and_key)
      (ap (path_parts given) parts
        ∙ unfold path_parts text_beq in ap (λ t. some (text "app" ++ rest, t)) (join-split 47 key))

-- A bucket whose name starts with "app" needs no credentials: a request on any of its keys passes the
-- gate unchanged, and goes to the S3 handler with that bucket and key. The name goes on after "app",
-- no virtual host is used, the path has no escapes, is one that the mux does not clean and is not the one
-- that is set for the metrics, and the request is not one for a public website.
pub auth_gate_app :
    (given : Given) (statements : Text → Option (List PolicyStatement)) (clean : Text → Text)
    (opts : Options) (now : ℕ) (r : Request) (p : Protector) (c : ℕ) (rest key : Text)
    → c ≢ 47
    → Lacks 47 (c ∷ rest)
    → opts.metrics_path ≢ []
    → parse_virtual_host_style given r opts.domain ≡ none
    → r.http.path ≡ app_path (c ∷ rest) key
    → r.http.escaped_path ≡ r.http.path
    → clean r.http.path ≡ r.http.path
    → app_path (c ∷ rest) key ≢ opts.metrics_path
    → is_public_website_request given statements r opts ≡ false
    → (auth_gate given statements opts now r p ≡ (next r, p))
      × (route clean r.http.method r.http.escaped_path opts.metrics_path ≡ website_or_s3)
      × (website_or_s3_handler given statements r opts ≡ s3)
      × (bucket_and_key given r opts.domain ≡ some (text "app" ++ (c ∷ rest), key))
unfolding auth_gate
auth_gate_app given statements clean opts now r p c rest key other plain set hosted path unescaped
      kept unlike shown =
    let free : should_bypass_guards r.http.path opts.metrics_path ≡ true =
      ap (λ t. should_bypass_guards t opts.metrics_path) path
      ∙ app_path-bypass (c ∷ rest) key opts.metrics_path in
    (
      rw (free, auth_gate) refl,
      ap (λ t. route clean r.http.method t opts.metrics_path) (unescaped ∙ path)
          ∙ app_path-route clean c r.http.method rest key opts.metrics_path other set unlike
              (sym (ap clean path) ∙ (kept ∙ path)),
      unfold website_or_s3_handler in rw shown refl,
      app_path-bucket given r opts.domain (c ∷ rest) key plain hosted path,
    )
