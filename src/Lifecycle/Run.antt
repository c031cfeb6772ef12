-- ===== src/Lifecycle/Run.antt =====
-- internal/lifecycle/worker.go: `RunOnce`, and the metrics that it adds up.
pub mod Batches
pub mod Totals
pub mod DryRun
use s.Prelude.{
  ℕ, zero, suc, ◌+◌, ◌-◌, Bool, true, false, Option, none, some, List, [], ◌∷◌, ◌++◌, Text, Outcome,
  ok, err, if◌then◌else◌, length,
}
use s.Metadata.Model.{Time, Bucket, ObjectVersion}
use s.Lifecycle.Rules.{Rule}
use s.Lifecycle.World.{World, WorldError, Config}
use s.Lifecycle.Delete.{delete_with_retry}
use s.Lifecycle.Scan.{Report, Scan, scan_buckets}

-- xs[:n] and xs[n:], for any n
abbrev pub take {ℓ} : {A : Type ℓ} → ℕ → List A → List A
take zero xs = []
take (suc n) [] = []
take (suc n) (x ∷ xs) = x ∷ take n xs

abbrev pub drop {ℓ} : {A : Type ℓ} → ℕ → List A → List A
drop zero xs = xs
drop (suc n) [] = []
drop (suc n) (x ∷ xs) = drop n xs

-- what the deletions carry from candidate to candidate; `stopped` is the context's error, with
-- which `RunOnce` returns
pub record Progress (W : Type 0) : Type 0 where
  pub report : Report
  pub processed : ℕ
  pub stopped : Option WorldError
  pub world : W

module _ {W : Type 0} (world : World W) (cfg : Config) (total : ℕ) where
  -- processed++ and the new depth of the queue
  abbrev pub tick : Report → Progress W → W → Progress W
  tick report p w = record {
    report = report;
    processed = p.processed + 1;
    stopped = none;
    world = world.queue_depth (total - (p.processed + 1)) w;
  }

  -- one candidate, the context's error checked before
  unfoldable pub process_one : ObjectVersion → Progress W → Progress W
  process_one c p =
      let (stop, w) = world.context_error p.world in
      elim stop [
        | some e ↦ record p { stopped = some e; world = w }
        | none ↦
            let (r, w') = delete_with_retry world cfg c w in
            if cfg.dry_run then tick p.report p w else elim r [
              | err e ↦ tick (record p.report { failed = p.report.failed + 1 }) p w'
              | ok true ↦ tick (record p.report { deleted = p.report.deleted + 1 }) p w'
              | ok false ↦ tick p.report p w'
            ]
      ]

  unfoldable pub process : List ObjectVersion → Progress W → Progress W
  unfolding process_one
  process [] p = p
  process (c ∷ cs) p = elim p.stopped [ some e ↦ p | none ↦ process cs (process_one c p) ]

  -- The loop over the batches, on fuel: `rest` is candidates[start:].
  unfoldable pub run_batches : ℕ → List ObjectVersion → Progress W → Progress W
  unfolding process
  run_batches zero rest p = p
  run_batches (suc fuel) [] p = p
  run_batches (suc fuel) (c ∷ rest) p =
      let p' = process (take cfg.batch_size (c ∷ rest)) p in
      elim p'.stopped [ some e ↦ p' | none ↦ run_batches fuel (drop cfg.batch_size (c ∷ rest)) p' ]

abbrev pub empty_report : Bool → Report
empty_report dry_run = record {
  scanned = 0;
  eligible = 0;
  deleted = 0;
  failed = 0;
  dry_run = dry_run;
  duration = 0;
}

-- Cumulative counters of the worker.
pub record Metrics : Type 0 where
  pub runs : ℕ
  pub scanned_total : ℕ
  pub eligible_total : ℕ
  pub deleted_total : ℕ
  pub failed_total : ℕ
  pub last_run_duration : ℕ
  pub last_run_dry_run : Bool

unfoldable pub record_report : Report → Metrics → Metrics
record_report r m = record {
  runs = m.runs + 1;
  scanned_total = m.scanned_total + r.scanned;
  eligible_total = m.eligible_total + r.eligible;
  deleted_total = m.deleted_total + r.deleted;
  failed_total = m.failed_total + r.failed;
  last_run_duration = r.duration;
  last_run_dry_run = r.dry_run;
}

-- What a run returns: the report, the error, the metrics and the world.
pub record RunResult (W : Type 0) : Type 0 where
  pub report : Report
  pub error : Option WorldError
  pub metrics : Metrics
  pub world : W

module _ {W : Type 0} (world : World W) (cfg : Config) (rules : List Rule) where
  -- what `RunOnce` does once the buckets are listed
  unfoldable pub run_listed : Time → Metrics → List Bucket → W → RunResult W
  unfolding scan_buckets run_batches record_report
  run_listed started metrics buckets w =
      let (now, w1) = world.now w in
      let scanned =
        scan_buckets world rules now buckets
          (record { report = empty_report cfg.dry_run; candidates = []; world = w1 }) in
      let total = length scanned.candidates in
      let p = run_batches world cfg total total scanned.candidates (record {
        report = scanned.report;
        processed = 0;
        stopped = none;
        world = world.queue_depth total scanned.world;
      }) in
      let w2 : W = elim p.stopped [ some e ↦ p.world | none ↦ world.queue_depth 0 p.world ] in
      let (ended, w3) = world.now w2 in
      let report = record p.report { duration = ended - started } in
      record {
        report = report;
        error = p.stopped;
        metrics = record_report report metrics;
        world = w3;
      }

  unfoldable pub run_once : Metrics → W → RunResult W
  unfolding run_listed
  run_once metrics w =
      let (started, w1) = world.now w in
      let (listed, w2) = world.list_buckets w1 in
      elim listed [
        | err e ↦ record {
          report = empty_report cfg.dry_run;
          error = some e;
          metrics = metrics;
          world = w2;
        }
        | ok buckets ↦ run_listed started metrics buckets w2
      ]
