-- ===== src/Server/Website/Tests.antt =====
-- A concrete website.
use s.Prelude.{◌≡◌, refl, true, false, none, some, [], ◌∷◌, Text, text, text_eq, text_beq, ok}
use s.Dict.{lookup}
use s.Strings.{has_prefix, has_suffix, trim_prefix, drop_prefix, split_once, cut_suffix}
use s.Metadata.Model.{ObjectVersion, BucketWebsiteConfig}
use s.Metadata.State.{MemoryState, empty_state, object_key_eq, object_key_beq}
use s.Metadata.Settings.{get_setting, website_table}
use s.Metadata.Objects.{versions_of, get_latest_object_version}
use s.Server.Website.{
  WebsiteRequest, Library, object, resolve_bucket_and_key, path_bucket_and_key, decode_path,
  website_index_document, resolve_website_key, lookup_object, apply_routing_rule, find_page,
  serve_site, serve_website,
}
use s.Server.Website.Public.{IsPage, serve_website_object}

abbrev lib : Library
lib = record {
  trim_space = λ s. s;
  to_lower = λ s. s;
  split_host_port = λ s. none;
  path_unescape = λ s. some s;
  atoi = λ s. none;
  itoa = λ n. n ∷ [];
}

abbrev cfg : BucketWebsiteConfig
cfg = record {
  bucket = text "pics";
  index_document = [];
  error_document = [];
  redirect_all_host = [];
  redirect_all_protocol = [];
  routing_rules = [];
  enabled = true;
  public_read = true;
}

abbrev page : ObjectVersion
page = record {
  bucket = text "pics";
  key = text "index.html";
  version_id = text "v1";
  size = 3;
  etag = [];
  checksum_sha256 = [];
  checksum_sha1 = [];
  checksum_crc32 = [];
  checksum_crc32c = [];
  storage_path = [];
  metadata = [];
  delete_marker = false;
  created_at = 0;
}

abbrev site : MemoryState
site = record (empty_state []) {
  websites = (text "pics", cfg) ∷ [];
  objects = (record { bucket = text "pics"; key = text "index.html" }, page ∷ []) ∷ [];
}

abbrev visit : WebsiteRequest
visit = record {
  method = text "GET";
  host = [];
  escaped_path = text "/pics";
  raw_query = [];
  has_tls = false;
}

served : serve_website lib (some site) true [] visit ≡ object (text "index.html") page 200
unfolding serve_website get_setting lookup empty_state resolve_bucket_and_key path_bucket_and_key
    decode_path serve_site find_page lookup_object resolve_website_key website_index_document
    apply_routing_rule get_latest_object_version versions_of object_key_beq has_prefix has_suffix
    trim_prefix drop_prefix split_once cut_suffix text_beq
served = refl

serve_website_object_example :
    (st : MemoryState) × (found : BucketWebsiteConfig) × (bucket key : Text) × (some site ≡ some st)
    × (resolve_bucket_and_key lib visit [] ≡ some (bucket, key))
    × (get_setting website_table bucket st ≡ ok found)
    × (found.enabled ≡ true)
    × (found.public_read ≡ true)
    × IsPage lib st visit found bucket key page 200
serve_website_object_example =
    serve_website_object lib (some site) true [] visit (text "index.html") page 200 served
