-- ===== src/Lifecycle/Tests.antt =====
-- The worker at concrete inputs.
use s.Prelude.{
  ℕ, suc, ◌+◌, ◌*◌, ◌≤◌, ◌≡◌, refl, ap, Bool, true, false, ◌&&◌, none, some, List, [], ◌∷◌, text,
  text_eq, ◌==◌, Outcome, ok, err, if◌then◌else◌, leb, arith,
}
use s.Strings.{has_prefix}
use s.Metadata.Model.{Bucket, ObjectVersion}
use s.Lifecycle.Rules.{Int64, pos, neg, Rule, day, expire_after_days, matches_any_rule}
use s.Lifecycle.Rules.Days.{days_exact, days_overflow}
use s.Lifecycle.World.{World, WorldError, not_found, failed, Config}
use s.Lifecycle.Options.{Options, Worker}
use s.Lifecycle.Parse.{GoText}
use s.Lifecycle.Delete.{delete_one, delete_removed, delete_blobs, delete_with_retry}
use s.Lifecycle.Delete.Attempts.{RemovesRows, no_retry_after_blob_failure}
use s.Lifecycle.Scan.{Scan}
use s.Lifecycle.Run.{Progress, process, run_batches, empty_report, Metrics, run_once}
use s.Lifecycle.Run.Batches.{run_batches-eq-process}
use s.Lifecycle.Run.DryRun.{IsKeptByReads, dry_run_only_reads}

abbrev photos : Bucket
photos = record {
  name = text "photos";
  created_at = 1;
  region = text "local";
  versioning_status = [];
}

abbrev cat : ObjectVersion
cat = record {
  bucket = text "photos";
  key = text "cat";
  version_id = text "v1";
  size = 3;
  etag = text "e";
  checksum_sha256 = [];
  checksum_sha1 = [];
  checksum_crc32 = [];
  checksum_crc32c = [];
  storage_path = text "p";
  metadata = [];
  delete_marker = false;
  created_at = 5;
}

-- a world with one bucket and one object, where deletions fail
abbrev one_object : {W : Type 0} → World W
one_object = record {
  now = λ w. (100, w);
  context_error = λ w. (none, w);
  sleep = λ d w. (none, w);
  queue_depth = λ n w. w;
  list_buckets = λ w. (ok (photos ∷ []), w);
  get_bucket_lifecycle = λ b w. (err not_found, w);
  list_objects = λ b w. (ok (cat ∷ []), w);
  delete_all_object_versions = λ b k w. (err failed, w);
  delete_blob = λ b k v w. (some failed, w);
  decode_xml = λ t. some [];
}

-- the rows are removed, and the blobs cannot be
abbrev broken : World Bool
broken = record one_object {
  delete_all_object_versions =
      λ b k gone. ((elim gone [ true ↦ err not_found | false ↦ ok (cat ∷ []) ]), true);
}

-- the world counts the deletions that were tried
abbrev counting : World ℕ
counting = record one_object { delete_all_object_versions = λ b k n. (err failed, suc n) }

abbrev twice : Config
twice = record { batch_size = 2; max_retries = 1; retry_backoff = 0; dry_run = false }

abbrev dry : Config
dry = record { batch_size = 2; max_retries = 1; retry_backoff = 0; dry_run = true }

abbrev all_old : List Rule
all_old = record { prefix = text "c"; expire_after = pos 10 } ∷ []

abbrev no_metrics : Metrics
no_metrics = record {
  runs = 0;
  scanned_total = 0;
  eligible_total = 0;
  deleted_total = 0;
  failed_total = 0;
  last_run_duration = 0;
  last_run_dry_run = false;
}

abbrev broken_rows : RemovesRows broken (text "photos") (text "cat")
broken_rows = record {
  Gone = λ gone. gone ≡ true;
  removed = λ w vs e. refl;
  gone = λ w h.
      ap
        (λ g. elim g as (λ _. Outcome WorldError (List ObjectVersion)) [
          | true ↦ err not_found
          | false ↦ ok (cat ∷ [])
        ])
        h;
  keeps_blob = λ b k v w h. h;
  keeps_sleep = λ d w h. h;
}

no_retry_after_blob_failure_example :
    (error : WorldError) × ((delete_with_retry broken twice cat false).0 ≡ err error)
unfolding delete_blobs
no_retry_after_blob_failure_example =
    no_retry_after_blob_failure broken twice cat broken_rows false (cat ∷ []) failed refl refl

counting_one : (w : ℕ) → (delete_one counting cat w).1 ≤ w + 1
unfolding delete_one delete_removed
counting_one w = omega arith

days_exact_example :
    (d : Int64) × (expire_after_days (pos 30) ≡ some d)
    × (matches_any_rule (record { prefix = text "c"; expire_after = d } ∷ []) (text "cat") 5
        ≡ (leb (30 * day) 5 && has_prefix (text "cat") (text "c")))
days_exact_example = days_exact 29 (text "c") (text "cat") 5 (omega arith)

days_overflow_example :
    (d : Int64) × (expire_after_days (pos 106752) ≡ some d)
    × (matches_any_rule (record { prefix = text "c"; expire_after = d } ∷ []) (text "cat") 0
        ≡ has_prefix (text "cat") (text "c"))
days_overflow_example = days_overflow 106751 (text "c") (text "cat") 0 (omega arith) (omega arith)

abbrev before : Progress ℕ
before = record { report = empty_report false; processed = 0; stopped = none; world = 0 }

run_batches-eq-process_example :
    run_batches counting twice 3 3 (cat ∷ cat ∷ cat ∷ []) before
    ≡ process counting twice 3 (cat ∷ cat ∷ cat ∷ []) before
run_batches-eq-process_example =
    run_batches-eq-process counting twice 3 3 (cat ∷ cat ∷ cat ∷ []) before (omega arith)
      (omega arith)

counting_reads : IsKeptByReads counting (λ n. n ≡ 0)
counting_reads = record {
  keeps_now = λ w h. h;
  keeps_context = λ w h. h;
  keeps_depth = λ n w h. h;
  keeps_buckets = λ w h. h;
  keeps_lifecycle = λ b w h. h;
  keeps_objects = λ b w h. h;
}

dry_run_only_reads_example : (run_once counting dry all_old no_metrics 0).world ≡ 0
dry_run_only_reads_example =
    dry_run_only_reads counting (λ n. n ≡ 0) counting_reads dry all_old no_metrics 0 refl refl

abbrev nothing_yet : Scan ℕ
nothing_yet = record { report = empty_report false; candidates = []; world = 0 }

abbrev plain_options : Options
plain_options = record {
  has_metadata = true;
  has_blob = true;
  rules = all_old;
  interval = pos 0;
  batch_size = neg 4;
  max_retries = neg 0;
  retry_backoff = pos 7;
  dry_run = false;
}

abbrev plain_worker : Worker
plain_worker = record {
  rules = all_old;
  interval = 300000000000;
  config = record { batch_size = 100; max_retries = 0; retry_backoff = 7; dry_run = false };
}

-- a text without spaces, and a reader of durations that knows one
abbrev plain_text : GoText
plain_text = record {
  trim_space = λ t. t;
  to_lower = λ t. t;
  parse_duration = λ t. if t == text "10ns" then some (pos 10) else none;
}
