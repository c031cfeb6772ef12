-- ===== src/Server/Website/Public.antt =====
-- Proofs on ServeHTTP of internal/server/website_handler.go: the objects that are shown.
use s.Prelude.{
  ℕ, ◌≡◌, ◌⊎◌, inl, inr, refl, Bool, true, ◌||◌, Option, none, some, [], ◌++◌, Text, text, text_eq,
  ◌==◌, if◌then◌else◌, Outcome, ok, err, arith, Option-cases, Outcome-cases,
}
use s.Strings.{has_suffix}
use s.Metadata.Model.{ObjectVersion, BucketWebsiteConfig}
use s.Metadata.State.{MemoryState, StoreError, not_found}
use s.Metadata.Settings.{get_setting, website_table}
use s.Metadata.Objects.{get_latest_object_version}
use s.Server.Website.{
  WebsiteRequest, Library, object, resolve_bucket_and_key, website_index_document,
  resolve_website_key, lookup_object, apply_routing_rule, missing_page, find_page, serve_site,
  serve_website,
}

module _ (lib : Library) (st : MemoryState) (r : WebsiteRequest) where
  -- The object stands in the bucket as the latest of the page's key, of its index document, or of the
  -- error document.
  pub record IsPage (cfg : BucketWebsiteConfig) (bucket key : Text) (obj : ObjectVersion)
      (status : ℕ) : Type 0 where
    pub name : Text
    pub latest : get_latest_object_version bucket name st ≡ ok obj
    pub which :
        ((status ≡ 200) × ((name ≡ resolve_website_key lib key cfg.index_document) ⊎ (name ≡ key)))
        ⊎ ((status ≡ 404) × (name ≡ cfg.error_document))

  lookup_object_ok :
      (bucket name : Text) (obj : ObjectVersion)
      → lookup_object lib st bucket name ≡ ok obj
      → get_latest_object_version bucket name st ≡ ok obj
  unfolding lookup_object
  lookup_object_ok bucket name obj h = ground arith

  module _ (cfg : BucketWebsiteConfig) (bucket key shown : Text) (obj : ObjectVersion)
      (status : ℕ) where
    missing_page_object :
        missing_page lib st r cfg bucket key ≡ object shown obj status
        → IsPage cfg bucket key obj status
    unfolding missing_page
    missing_page_object h =
        elim (Option-cases (apply_routing_rule lib r cfg.routing_rules key 404)) [
          | inr (target, e) ↦ absurd (ground arith)
          | inl none_applies ↦
              elim (Outcome-cases (lookup_object lib st bucket cfg.error_document)) [
                | inr (e, bad) ↦ absurd (ground arith)
                | inl (found, fine) ↦ record {
                  name = cfg.error_document;
                  latest = lookup_object_ok bucket cfg.error_document obj (ground arith);
                  which = inr (ground arith, refl);
                }
              ]
        ]

    find_page_object :
        find_page lib st r cfg bucket key ≡ object shown obj status
        → IsPage cfg bucket key obj status
    unfolding find_page
    find_page_object h =
        let resolved = resolve_website_key lib key cfg.index_document in
        let directory : Outcome StoreError ObjectVersion =
          if (key == []) || has_suffix key (text "/")
          then err not_found
          else lookup_object lib st bucket
              (key ++ (text "/" ++ website_index_document lib cfg.index_document)) in
        elim (Outcome-cases (lookup_object lib st bucket resolved)) [
          | inl (found, fine) ↦ record {
            name = resolved;
            latest = lookup_object_ok bucket resolved obj (ground arith);
            which = inl (ground arith, inl refl);
          }
          | inr (e, bad) ↦ elim (Outcome-cases directory) [
            | inl (dir, there) ↦ absurd (ground arith)
            | inr (e', no_dir) ↦
                let again : Outcome StoreError ObjectVersion =
                  if resolved == key then err e else lookup_object lib st bucket key in
                elim (Outcome-cases again) [
                  | inl (found, fine) ↦ record {
                    name = key;
                    latest = lookup_object_ok bucket key obj (ground arith);
                    which = inl (ground arith, inr refl);
                  }
                  | inr (e'', gone) ↦ missing_page_object (ground arith)
                ]
          ]
        ]

    serve_site_object :
        serve_site lib st r cfg bucket key ≡ object shown obj status
        → IsPage cfg bucket key obj status
    unfolding serve_site
    serve_site_object h = elim (Option-cases (apply_routing_rule lib r cfg.routing_rules key 0)) [
      | inr (target, e) ↦ absurd (ground arith)
      | inl none_applies ↦ find_page_object (ground arith)
    ]

-- Only public websites show objects: an object that is shown to a visitor is, in the bucket that the
-- request names, whose website is enabled and public, the latest version of the page's key or of its
-- index document, with status 200, or of the error document, with status 404.
pub serve_website_object :
    (lib : Library) (store : Option MemoryState) (has_blob : Bool) (domain : Text)
    (r : WebsiteRequest) (shown : Text) (obj : ObjectVersion) (status : ℕ)
    → serve_website lib store has_blob domain r ≡ object shown obj status
    → (st : MemoryState) × (cfg : BucketWebsiteConfig) × (bucket key : Text) × (store ≡ some st)
      × (resolve_bucket_and_key lib r domain ≡ some (bucket, key))
      × (get_setting website_table bucket st ≡ ok cfg)
      × (cfg.enabled ≡ true)
      × (cfg.public_read ≡ true)
      × IsPage lib st r cfg bucket key obj status
unfolding serve_website
serve_website_object lib none has_blob domain r shown obj status h = absurd (ground arith)
serve_website_object lib (some st) has_blob domain r shown obj status h =
    elim (Option-cases (resolve_bucket_and_key lib r domain)) [
      | inl nothing ↦ absurd (ground arith)
      | inr ((bucket, key), named) ↦ elim (Outcome-cases (get_setting website_table bucket st)) [
        | inr (e, bad) ↦ absurd (ground arith)
        | inl (cfg, there) ↦ (
          st,
          cfg,
          bucket,
          key,
          refl,
          named,
          there,
          ground arith,
          ground arith,
          serve_site_object lib st r cfg bucket key shown obj status (ground arith),
        )
      ]
    ]
