-- ===== src/Server/Website.antt =====
-- internal/server/website_handler.go: what an anonymous visitor of a bucket's website gets. The
-- response to an object is the object, the key for its content type and the status.
pub mod Public
mod Tests
use s.Prelude.{
  ℕ, Bool, true, false, not, ◌&&◌, ◌||◌, Option, none, some, List, [], ◌∷◌, ◌++◌, Text, text,
  text_eq, nat_beq, ◌==◌, if◌then◌else◌, ltb, leb, Outcome, ok, err, is_some,
}
use s.Strings.{has_prefix, has_suffix, trim_prefix, trim_suffix, split_once}
use s.Lifecycle.Rules.{Int64, pos, neg}
use s.Metadata.Model.{
  ObjectVersion, BucketWebsiteConfig, BucketWebsiteRoutingCondition, BucketWebsiteRedirect,
  BucketWebsiteRoutingRule,
}
use s.Metadata.State.{MemoryState, StoreError, not_found}
use s.Metadata.Settings.{get_setting, website_table}
use s.Metadata.Objects.{get_latest_object_version}

-- A request as the handler reads it.
pub record WebsiteRequest : Type 0 where
  pub method : Text
  pub host : Text
  pub escaped_path : Text
  pub raw_query : Text
  pub has_tls : Bool

-- Functions of Go's packages; the host alone of a host with a port, else `none`.
pub record Library : Type 0 where
  pub trim_space : Text → Text
  pub to_lower : Text → Text
  pub split_host_port : Text → Option Text
  pub path_unescape : Text → Option Text
  pub atoi : Text → Option Int64
  pub itoa : ℕ → Text

pub data Answer : Type 0 where
  method_not_allowed unavailable page_not_found : Answer
  redirect : Text → ℕ → Answer
  object : Text → ObjectVersion → ℕ → Answer

-- the raw query behind a target
abbrev pub with_query : Text → Text → Text
with_query target raw = if raw == [] then target else target ++ (text "?" ++ raw)

module _ (lib : Library) where
  unfoldable pub decode_path : Text → Text
  decode_path s = elim (lib.path_unescape s) [ none ↦ s | some decoded ↦ decoded ]

  abbrev pub host_alone : Text → Text
  host_alone host = elim (lib.split_host_port host) [ none ↦ host | some h ↦ h ]

  -- the bucket and the key that the path names
  unfoldable pub path_bucket_and_key : Text → Option (Text × Text)
  unfolding decode_path
  path_bucket_and_key escaped_path =
      let p = trim_prefix escaped_path (text "/") in
      let parts : Text × Text = elim (split_once 47 p) [
        | none ↦ (p, [])
        | some (a, b) ↦ (a, decode_path b)
      ] in
      if (p == []) || (decode_path parts.0 == []) then none else some (decode_path parts.0, parts.1)

  unfoldable pub resolve_bucket_and_key : WebsiteRequest → Text → Option (Text × Text)
  unfolding path_bucket_and_key
  resolve_bucket_and_key r domain =
      let host = lib.trim_space (lib.to_lower (host_alone r.host)) in
      let suffix = text "." ++ lib.to_lower domain in
      if not (domain == []) && (has_suffix host suffix && not (trim_suffix host suffix == []))
      then some (trim_suffix host suffix, decode_path (trim_prefix r.escaped_path (text "/")))
      else path_bucket_and_key r.escaped_path

  unfoldable pub website_index_document : Text → Text
  website_index_document index =
      let trimmed = lib.trim_space index in if trimmed == [] then text "index.html" else trimmed

  unfoldable pub resolve_website_key : Text → Text → Text
  unfolding website_index_document
  resolve_website_key key index =
      if key == []
      then website_index_document index
      else if has_suffix key (text "/")
      then key ++ website_index_document index
      else key

  unfoldable pub lookup_object : MemoryState → Text → Text → Outcome StoreError ObjectVersion
  lookup_object st bucket key =
      if key == [] then err not_found else get_latest_object_version bucket key st

  abbrev pub protocol_of : Text → Bool → Text
  protocol_of configured has_tls =
      let protocol = lib.trim_space configured in
      if protocol == [] then (if has_tls then text "https" else text "http") else protocol

  unfoldable pub redirect_url : WebsiteRequest → BucketWebsiteConfig → Text
  redirect_url r cfg =
      let path = if r.escaped_path == [] then text "/" else r.escaped_path in
      with_query
        (protocol_of cfg.redirect_all_protocol r.has_tls
          ++ (text "://" ++ (cfg.redirect_all_host ++ path)))
        r.raw_query

  unfoldable pub matches_routing_rule : BucketWebsiteRoutingCondition → Text → ℕ → Bool
  matches_routing_rule cond key status =
      ((cond.key_prefix_equals == []) || has_prefix key cond.key_prefix_equals)
      && ((cond.http_error_code_returned_equals == [])
          || (not (nat_beq status 0) && (cond.http_error_code_returned_equals == lib.itoa status)))

  -- the key that a rule redirects to
  unfoldable pub next_key : BucketWebsiteRoutingRule → Text → Text
  next_key rule key =
      let to = rule.redirect in
      let prefix = rule.condition.key_prefix_equals in
      if not (to.replace_key_with == [])
      then to.replace_key_with
      else if not (to.replace_key_prefix_with == [])
      then to.replace_key_prefix_with
        ++ (if not (prefix == []) && has_prefix key prefix then trim_prefix key prefix else key)
      else key

  unfoldable pub redirect_url_from_rule :
      WebsiteRequest → Text → BucketWebsiteRoutingRule → Option Text
  unfolding next_key
  redirect_url_from_rule r key rule =
      let configured = lib.trim_space rule.redirect.host_name in
      let host = if configured == [] then host_alone r.host else configured in
      if host == []
      then none
      else some (
          with_query
            (protocol_of rule.redirect.protocol r.has_tls
              ++ (text "://" ++ (host ++ (text "/" ++ trim_prefix (next_key rule key) (text "/")))))
            r.raw_query)

  -- the status of a rule's redirect, which is a redirect's status
  unfoldable pub redirect_code : Text → ℕ
  redirect_code configured = elim (lib.atoi configured) [
    | none ↦ 301
    | some n ↦ elim n [
      | neg _ ↦ 301
      | pos code ↦ if not (configured == []) && (leb 300 code && leb code 399) then code else 301
    ]
  ]

  unfoldable pub apply_routing_rule :
      WebsiteRequest → List BucketWebsiteRoutingRule → Text → ℕ → Option (Text × ℕ)
  unfolding redirect_url_from_rule matches_routing_rule redirect_code
  apply_routing_rule r [] key status = none
  apply_routing_rule r (rule ∷ rules) key status =
      let rest = apply_routing_rule r rules key status in
      if not (matches_routing_rule rule.condition key status)
      then rest
      else elim (redirect_url_from_rule r key rule) [
        | none ↦ rest
        | some target ↦ some (target, redirect_code rule.redirect.http_redirect_code)
      ]

  -- what is answered where neither the key nor its index document is an object
  unfoldable pub missing_page :
      MemoryState → WebsiteRequest → BucketWebsiteConfig → Text → Text → Answer
  unfolding apply_routing_rule lookup_object
  missing_page st r cfg bucket key = elim (apply_routing_rule r cfg.routing_rules key 404) [
    | some (target, code) ↦ redirect target code
    | none ↦ elim (lookup_object st bucket cfg.error_document) [
      | err e ↦ page_not_found
      | ok obj ↦ object cfg.error_document obj 404
    ]
  ]

  -- the lookups of the key, of its directory and of its index document
  unfoldable pub find_page :
      MemoryState → WebsiteRequest → BucketWebsiteConfig → Text → Text → Answer
  unfolding missing_page resolve_website_key
  find_page st r cfg bucket key =
      let resolved = resolve_website_key key cfg.index_document in
      elim (lookup_object st bucket resolved) [
        | ok obj ↦ object resolved obj 200
        | err e ↦
            elim (if (key == []) || has_suffix key (text "/")
              then err not_found
              else lookup_object st bucket
                  (key ++ (text "/" ++ website_index_document cfg.index_document))) [
                    | ok dir ↦ redirect (with_query (r.escaped_path ++ text "/") r.raw_query) 302
                    | err e' ↦
                        elim (if resolved == key then err e else lookup_object st bucket key) [
                          | ok obj ↦ object resolved obj 200
                          | err e'' ↦ missing_page st r cfg bucket key
                        ]
                  ]
      ]

  unfoldable pub serve_site :
      MemoryState → WebsiteRequest → BucketWebsiteConfig → Text → Text → Answer
  unfolding find_page redirect_url
  serve_site st r cfg bucket key =
      if not (cfg.redirect_all_host == [])
      then redirect (redirect_url r cfg) 301
      else elim (apply_routing_rule r cfg.routing_rules key 0) [
        | some (target, code) ↦ redirect target code
        | none ↦ find_page st r cfg bucket key
      ]

  unfoldable pub serve_website : Option MemoryState → Bool → Text → WebsiteRequest → Answer
  unfolding resolve_bucket_and_key serve_site
  serve_website store has_blob domain r =
      if not (r.method == text "GET") && not (r.method == text "HEAD")
      then method_not_allowed
      else elim store [
        | none ↦ unavailable
        | some st ↦ if not has_blob then unavailable else elim (resolve_bucket_and_key r domain) [
          | none ↦ page_not_found
          | some (bucket, key) ↦ elim (get_setting website_table bucket st) [
            | err e ↦ page_not_found
            | ok cfg ↦
                if not cfg.enabled || not cfg.public_read
                then page_not_found
                else serve_site st r cfg bucket key
          ]
        ]
      ]
