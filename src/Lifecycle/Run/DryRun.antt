-- ===== src/Lifecycle/Run/DryRun.antt =====
-- A dry run only reads.
use s.Prelude.{
  ℕ, zero, suc, ◌+◌, ◌≡◌, true, none, List, [], ◌∷◌, Text, Option-cases, Outcome-cases, inl, inr,
  arith, length, ◌-◌,
}
use s.Metadata.Model.{Time, Bucket, ObjectVersion}
use s.Lifecycle.Rules.{Rule}
use s.Lifecycle.World.{World, Config}
use s.Lifecycle.Scan.{
  Scan, scan_object, scan_objects, bucket_rules, scan_listed, scan_bucket, scan_buckets,
}
use s.Lifecycle.Run.{
  Progress, process_one, process, run_batches, take, drop, Metrics, run_listed, run_once,
  empty_report,
}

-- P is a fact on the world that the operations which only read keep: the clock, the context, the
-- gauge of the queue, and the listings.
pub record IsKeptByReads {W : Type 0} (world : World W) (P : W → Type 0) : Type 0 where
  pub keeps_now : (w : W) → P w → P (world.now w).1
  pub keeps_context : (w : W) → P w → P (world.context_error w).1
  pub keeps_depth : (n : ℕ) (w : W) → P w → P (world.queue_depth n w)
  pub keeps_buckets : (w : W) → P w → P (world.list_buckets w).1
  pub keeps_lifecycle : (b : Text) (w : W) → P w → P (world.get_bucket_lifecycle b w).1
  pub keeps_objects : (b : Text) (w : W) → P w → P (world.list_objects b w).1

scan_objects-world :
    {W : Type 0} (rules : List Rule) (now : Time) (objs : List ObjectVersion) (s : Scan W)
    → (scan_objects rules now objs s).world ≡ s.world
unfolding scan_objects scan_object
scan_objects-world rules now [] s = ground arith
scan_objects-world rules now (obj ∷ objs) s =
    ground (arith, scan_objects-world rules now objs (scan_object rules now obj s))

module _ {W : Type 0} (world : World W) (P : W → Type 0) (reads : IsKeptByReads world P) where
  module _ (wr : List Rule) (now : Time) where
    scan_listed-keeps :
        (rules : List Rule) (b : Bucket) (s : Scan W)
        → P s.world
        → P (scan_listed world wr rules now b s).world
    unfolding scan_listed
    scan_listed-keeps [] b s h = h
    scan_listed-keeps (r ∷ rs) b s h =
        let w' : W = (world.list_objects b.name s.world).1 in
        let kept : P w' = reads.keeps_objects b.name s.world h in
        elim (Outcome-cases (world.list_objects b.name s.world).0) [
          | inl (objs, listed) ↦
              rw (listed, scan_listed)
                (rw (scan_objects-world (r ∷ rs) now objs (record s { world = w' })) kept)
          | inr (e, failed) ↦ rw (failed, scan_listed) kept
        ]

    scan_bucket-keeps :
        (b : Bucket) (s : Scan W) → P s.world → P (scan_bucket world wr now b s).world
    unfolding scan_bucket
    scan_bucket-keeps b s h =
        let w' : W = (world.get_bucket_lifecycle b.name s.world).1 in
        let kept : P w' = reads.keeps_lifecycle b.name s.world h in
        elim (Option-cases (bucket_rules world wr (world.get_bucket_lifecycle b.name s.world).0)) [
          | inl skipped ↦ rw (skipped, scan_bucket) kept
          | inr (rs, known) ↦
              rw (known, scan_bucket) (scan_listed-keeps rs b (record s { world = w' }) kept)
        ]

    scan_buckets-keeps :
        (bs : List Bucket) (s : Scan W) → P s.world → P (scan_buckets world wr now bs s).world
    unfolding scan_buckets
    scan_buckets-keeps [] s h = h
    scan_buckets-keeps (b ∷ bs) s h =
        scan_buckets-keeps bs (scan_bucket world wr now b s) (scan_bucket-keeps b s h)

  module _ (cfg : Config) (dry : cfg.dry_run ≡ true) (total : ℕ) where
    process_one-keeps :
        (c : ObjectVersion) (p : Progress W) → P p.world → P (process_one world cfg total c p).world
    unfolding process_one
    process_one-keeps c p h =
        let kept = reads.keeps_context p.world h in
        elim (Option-cases (world.context_error p.world).0) [
          | inl go_on ↦
              rw (go_on, process_one)
                (rw (dry, process_one)
                  (reads.keeps_depth (total - (p.processed + 1)) (world.context_error p.world).1
                    kept))
          | inr (e, stopped) ↦ rw (stopped, process_one) kept
        ]

    process-keeps :
        (cs : List ObjectVersion) (p : Progress W)
        → P p.world
        → P (process world cfg total cs p).world
    unfolding process
    process-keeps [] p h = h
    process-keeps (c ∷ cs) p h = elim (Option-cases p.stopped) [
      | inl go_on ↦
          rw (go_on, process)
            (process-keeps cs (process_one world cfg total c p) (process_one-keeps c p h))
      | inr (e, stopped) ↦ rw (stopped, process) h
    ]

    run_batches-keeps :
        (fuel : ℕ) (cs : List ObjectVersion) (p : Progress W)
        → P p.world
        → P (run_batches world cfg total fuel cs p).world
    unfolding run_batches
    run_batches-keeps zero cs p h = h
    run_batches-keeps (suc fuel) [] p h = h
    run_batches-keeps (suc fuel) (c ∷ cs) p h =
        let first : Progress W = process world cfg total (take cfg.batch_size (c ∷ cs)) p in
        let kept = process-keeps (take cfg.batch_size (c ∷ cs)) p h in
        elim (Option-cases first.stopped) [
          | inl go_on ↦
              rw (go_on, run_batches)
                (run_batches-keeps fuel (drop cfg.batch_size (c ∷ cs)) first kept)
          | inr (e, stopped) ↦ rw (stopped, run_batches) kept
        ]

  run_listed-keeps :
      (cfg : Config) (rules : List Rule) (started : Time) (metrics : Metrics) (bs : List Bucket)
      (w : W)
      → cfg.dry_run ≡ true
      → P w
      → P (run_listed world cfg rules started metrics bs w).world
  unfolding run_listed
  run_listed-keeps cfg rules started metrics bs w dry h =
      let (now, w1) = world.now w in
      let s0 : Scan W = (record {
        report = empty_report cfg.dry_run;
        candidates = [];
        world = w1;
      }) in
      let s = scan_buckets world rules now bs s0 in
      let total = length s.candidates in
      let p : Progress W = (record {
        report = s.report;
        processed = 0;
        stopped = none;
        world = world.queue_depth total s.world;
      }) in
      let q = run_batches world cfg total total s.candidates p in
      let scanned = scan_buckets-keeps rules now bs s0 (reads.keeps_now w h) in
      let kept =
        run_batches-keeps cfg dry total total s.candidates p
          (reads.keeps_depth total s.world scanned) in
      elim (Option-cases q.stopped) [
        | inl go_on ↦ rw (go_on, run_listed) (reads.keeps_now _ (reads.keeps_depth 0 q.world kept))
        | inr (e, stopped) ↦ rw (stopped, run_listed) (reads.keeps_now q.world kept)
      ]

  -- A dry run touches nothing: whatever the reading operations of the stores keep, the whole run
  -- keeps, although the operations which delete or sleep may break it.
  pub dry_run_only_reads :
      (cfg : Config) (rules : List Rule) (metrics : Metrics) (w : W)
      → cfg.dry_run ≡ true
      → P w
      → P (run_once world cfg rules metrics w).world
  unfolding run_once
  dry_run_only_reads cfg rules metrics w dry h =
      let w1 : W = (world.now w).1 in
      let kept = reads.keeps_buckets w1 (reads.keeps_now w h) in
      elim (Outcome-cases (world.list_buckets w1).0) [
        | inl (bs, listed) ↦
            rw (listed, run_once)
              (run_listed-keeps cfg rules (world.now w).0 metrics bs (world.list_buckets w1).1 dry
                kept)
        | inr (e, failed) ↦ rw (failed, run_once) kept
      ]
