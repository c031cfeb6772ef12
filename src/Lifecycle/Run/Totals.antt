-- ===== src/Lifecycle/Run/Totals.antt =====
-- What the counters of a run add up to, and what a dry run may touch.
use s.Prelude.{
  ℕ, ◌+◌, ◌≤◌, ◌<◌, ◌≡◌, ◌∙◌, refl, ap, true, none, List, [], ◌∷◌, length, length-append, arith,
  Option-cases, Outcome-cases, inl, inr,
}
use s.Metadata.Model.{Time, Bucket, ObjectVersion}
use s.Lifecycle.Rules.{Rule}
use s.Lifecycle.World.{World, Config}
use s.Lifecycle.Scan.{
  Scan, scan_object, scan_objects, count_failure, bucket_rules, scan_listed, scan_bucket,
  scan_buckets,
}
use s.Lifecycle.Run.{Progress, process_one, process, Metrics, run_listed, empty_report}
use s.Lifecycle.Run.Batches.{run_batches-eq-process}

-- The report of a scan: every candidate counts as eligible, every object as scanned.
record IsTallied {W : Type 0} (s : Scan W) : Type 0 where
  counted : s.report.eligible ≡ length s.candidates
  within : s.report.eligible ≤ s.report.scanned
  untouched : s.report.deleted ≡ 0

scan_object-IsTallied :
    {W : Type 0} (rules : List Rule) (now : Time) (obj : ObjectVersion) (s : Scan W)
    → IsTallied s
    → IsTallied (scan_object rules now obj s)
unfolding scan_object
scan_object-IsTallied rules now obj s h = ground (arith, length-append s.candidates (obj ∷ []))

scan_objects-IsTallied :
    {W : Type 0} (rules : List Rule) (now : Time) (objs : List ObjectVersion) (s : Scan W)
    → IsTallied s
    → IsTallied (scan_objects rules now objs s)
unfolding scan_objects
scan_objects-IsTallied rules now [] s h = h
scan_objects-IsTallied rules now (obj ∷ objs) s h =
    scan_objects-IsTallied rules now objs (scan_object rules now obj s)
      (scan_object-IsTallied rules now obj s h)

moved-IsTallied :
    {W : Type 0} (s : Scan W) (w : W) → IsTallied s → IsTallied (record s { world = w })
moved-IsTallied s w h = record { counted = h.counted; within = h.within; untouched = h.untouched }

failed-IsTallied : {W : Type 0} (s : Scan W) → IsTallied s → IsTallied (count_failure s)
failed-IsTallied s h = record { counted = h.counted; within = h.within; untouched = h.untouched }

module _ {W : Type 0} (world : World W) (rules : List Rule) (now : Time) where
  scan_listed-IsTallied :
      (rs : List Rule) (b : Bucket) (s : Scan W)
      → IsTallied s
      → IsTallied (scan_listed world rules rs now b s)
  unfolding scan_listed
  scan_listed-IsTallied [] b s h = h
  scan_listed-IsTallied (r ∷ rs) b s h =
      let w' : W = (world.list_objects b.name s.world).1 in
      elim (Outcome-cases (world.list_objects b.name s.world).0) [
        | inl (objs, listed) ↦
            rw (listed, scan_listed)
              (scan_objects-IsTallied (r ∷ rs) now objs (record s { world = w' })
                (moved-IsTallied s w' h))
        | inr (e, failed) ↦
            rw (failed, scan_listed)
              (failed-IsTallied (record s { world = w' }) (moved-IsTallied s w' h))
      ]

  scan_bucket-IsTallied :
      (b : Bucket) (s : Scan W) → IsTallied s → IsTallied (scan_bucket world rules now b s)
  unfolding scan_bucket
  scan_bucket-IsTallied b s h =
      let w' : W = (world.get_bucket_lifecycle b.name s.world).1 in
      let moved = moved-IsTallied s w' h in
      elim (Option-cases (bucket_rules world rules (world.get_bucket_lifecycle b.name s.world).0)) [
        | inl skipped ↦ rw (skipped, scan_bucket) (failed-IsTallied (record s { world = w' }) moved)
        | inr (rs, known) ↦
            rw (known, scan_bucket) (scan_listed-IsTallied rs b (record s { world = w' }) moved)
      ]

  scan_buckets-IsTallied :
      (bs : List Bucket) (s : Scan W) → IsTallied s → IsTallied (scan_buckets world rules now bs s)
  unfolding scan_buckets
  scan_buckets-IsTallied [] s h = h
  scan_buckets-IsTallied (b ∷ bs) s h =
      scan_buckets-IsTallied bs (scan_bucket world rules now b s) (scan_bucket-IsTallied b s h)

-- What the deletions may do to the report in n steps.
record IsAdvance {W : Type 0} (cfg : Config) (p q : Progress W) (n : ℕ) : Type 0 where
  same_eligible : q.report.eligible ≡ p.report.eligible
  same_scanned : q.report.scanned ≡ p.report.scanned
  at_most : q.report.deleted ≤ p.report.deleted + n
  dry : cfg.dry_run ≡ true → q.report.deleted ≡ p.report.deleted

module _ {W : Type 0} (world : World W) (cfg : Config) (total : ℕ) where
  process_one-IsAdvance :
      (c : ObjectVersion) (p : Progress W) → IsAdvance cfg p (process_one world cfg total c p) 1
  unfolding process_one
  process_one-IsAdvance c p = ground arith

  process-IsAdvance :
      (cs : List ObjectVersion) (p : Progress W)
      → IsAdvance cfg p (process world cfg total cs p) (length cs)
  unfolding process
  process-IsAdvance [] p = record {
    same_eligible = refl;
    same_scanned = refl;
    at_most = omega arith;
    dry = λ _. refl;
  }
  process-IsAdvance (c ∷ cs) p =
      let one = process_one-IsAdvance c p in
      let rest = process-IsAdvance cs (process_one world cfg total c p) in
      elim (Option-cases p.stopped) [
        | inl go_on ↦
            rw (go_on, process)
              (record {
                same_eligible = rest.same_eligible ∙ one.same_eligible;
                same_scanned = rest.same_scanned ∙ one.same_scanned;
                at_most = omega (arith, rest.at_most, one.at_most);
                dry = λ d. rest.dry d ∙ one.dry d;
              })
        | inr (e, stopped) ↦
            rw (stopped, process)
              (record {
                same_eligible = refl;
                same_scanned = refl;
                at_most = omega arith;
                dry = λ _. refl;
              })
      ]

run_listed-tallies :
    {W : Type 0} (world : World W) (cfg : Config) (rules : List Rule) (started : Time)
    (metrics : Metrics) (bs : List Bucket) (w : W)
    → 0 < cfg.batch_size
    → ((run_listed world cfg rules started metrics bs w).report.deleted
        ≤ (run_listed world cfg rules started metrics bs w).report.eligible)
      × ((run_listed world cfg rules started metrics bs w).report.eligible
          ≤ (run_listed world cfg rules started metrics bs w).report.scanned)
      × (cfg.dry_run ≡ true → (run_listed world cfg rules started metrics bs w).report.deleted ≡ 0)
unfolding run_listed
run_listed-tallies world cfg rules started metrics bs w pos =
    let (now, w1) = world.now w in
    let s0 : Scan _ = (record { report = empty_report cfg.dry_run; candidates = []; world = w1 }) in
    let s = scan_buckets world rules now bs s0 in
    let total = length s.candidates in
    let p : Progress _ = (record {
      report = s.report;
      processed = 0;
      stopped = none;
      world = world.queue_depth total s.world;
    }) in
    let tallied =
      scan_buckets-IsTallied world rules now bs s0
        (record { counted = refl; within = omega arith; untouched = refl }) in
    let same = run_batches-eq-process world cfg total total s.candidates p pos (omega arith) in
    let moved = process-IsAdvance world cfg total s.candidates p in
    let deleted = ap (λ q. q.report.deleted) same in
    let eligible = ap (λ q. q.report.eligible) same in
    let scanned = ap (λ q. q.report.scanned) same in
    (
      omega (
        arith, deleted, eligible, moved.at_most, moved.same_eligible, tallied.counted,
        tallied.untouched,
      ),
      omega (arith, eligible, scanned, moved.same_eligible, moved.same_scanned, tallied.within),
      λ d. deleted ∙ (moved.dry d ∙ tallied.untouched),
    )

-- A run with batches of at least one object counts no more deleted objects than expired ones, and
-- no more expired objects than scanned ones.
pub run_listed_totals :
    {W : Type 0} (world : World W) (cfg : Config) (rules : List Rule) (started : Time)
    (metrics : Metrics) (bs : List Bucket) (w : W)
    → 0 < cfg.batch_size
    → ((run_listed world cfg rules started metrics bs w).report.deleted
        ≤ (run_listed world cfg rules started metrics bs w).report.eligible)
      × ((run_listed world cfg rules started metrics bs w).report.eligible
          ≤ (run_listed world cfg rules started metrics bs w).report.scanned)
run_listed_totals world cfg rules started metrics bs w pos =
    let (deleted, eligible, dry) = run_listed-tallies world cfg rules started metrics bs w pos in
    (deleted, eligible)

-- A dry run with batches of at least one object reports no deleted object.
pub run_listed_dry :
    {W : Type 0} (world : World W) (cfg : Config) (rules : List Rule) (started : Time)
    (metrics : Metrics) (bs : List Bucket) (w : W)
    → 0 < cfg.batch_size
    → cfg.dry_run ≡ true
    → (run_listed world cfg rules started metrics bs w).report.deleted ≡ 0
run_listed_dry world cfg rules started metrics bs w pos dry =
    let (deleted, eligible, none_deleted) =
      run_listed-tallies world cfg rules started metrics bs w pos in
    none_deleted dry
