-- ===== src/Lifecycle/Scan.antt =====
-- internal/lifecycle/worker.go: the part of `RunOnce` that looks for expired objects.
pub mod Expired
use s.Prelude.{
  ℕ, zero, suc, ◌+◌, ◌-◌, ◌^◌, Bool, true, false, not, Option, none, some, List, [], ◌∷◌, ◌++◌,
  Text, Outcome, ok, err, if◌then◌else◌, ltb,
}
use s.Metadata.Model.{Time, Bucket, ObjectVersion, BucketLifecycle}
use s.Lifecycle.Rules.{Rule, matches_any_rule, rules_of_xml}
use s.Lifecycle.World.{World, WorldError, not_found, failed}

pub record Report : Type 0 where
  pub scanned : ℕ
  pub eligible : ℕ
  pub deleted : ℕ
  pub failed : ℕ
  pub dry_run : Bool
  pub duration : ℕ

-- what the scan carries from object to object
pub record Scan (W : Type 0) : Type 0 where
  pub report : Report
  pub candidates : List ObjectVersion
  pub world : W

-- now.Sub(created), which is negative for an object from the future (`none`) and stops at the
-- largest duration
unfoldable pub age_of : Time → Time → Option ℕ
age_of now created =
    if ltb now created
    then none
    else some (if ltb (2 ^ 63 - 1) (now - created) then 2 ^ 63 - 1 else now - created)

unfoldable pub is_expired : List Rule → Time → ObjectVersion → Bool
unfolding age_of
is_expired rules now obj = elim (age_of now obj.created_at) [
  | none ↦ false
  | some age ↦ matches_any_rule rules obj.key age
]

-- one round of the loop over the objects of a bucket
unfoldable pub scan_object : {W : Type 0} → List Rule → Time → ObjectVersion → Scan W → Scan W
unfolding is_expired
scan_object rules now obj s =
    if is_expired rules now obj
    then record s {
      report = record s.report { scanned = s.report.scanned + 1; eligible = s.report.eligible + 1 };
      candidates = s.candidates ++ obj ∷ [];
    }
    else record s { report = record s.report { scanned = s.report.scanned + 1 } }

unfoldable pub scan_objects : {W : Type 0} → List Rule → Time → List ObjectVersion → Scan W → Scan W
unfolding scan_object
scan_objects rules now [] s = s
scan_objects rules now (obj ∷ objs) s = scan_objects rules now objs (scan_object rules now obj s)

-- report.Failed++, and on to the next bucket
abbrev pub count_failure : {W : Type 0} → Scan W → Scan W
count_failure s = record s { report = record s.report { failed = s.report.failed + 1 } }

module _ {W : Type 0} (world : World W) (worker_rules : List Rule) where
  -- The rules for a bucket from its stored lifecycle: the worker's own and those of an enabled
  -- document; `none` where the bucket is skipped as failed.
  unfoldable pub bucket_rules : Outcome WorldError BucketLifecycle → Option (List Rule)
  bucket_rules (err not_found) = some worker_rules
  bucket_rules (err e) = none
  bucket_rules (ok cfg) =
      if not cfg.enabled then some worker_rules else elim (world.decode_xml cfg.document) [
        | none ↦ none
        | some decoded ↦ elim (rules_of_xml 0 decoded) [
          | ok parsed ↦ some (worker_rules ++ parsed)
          | err e ↦ none
        ]
      ]

  -- the objects of a bucket whose rules are known; a bucket without rules is not listed
  unfoldable pub scan_listed : List Rule → Time → Bucket → Scan W → Scan W
  unfolding scan_objects
  scan_listed [] now bucket s = s
  scan_listed (r ∷ rules) now bucket s =
      let (listed, w') = world.list_objects bucket.name s.world in
      elim listed [
        | err e ↦ count_failure (record s { world = w' })
        | ok objs ↦ scan_objects (r ∷ rules) now objs (record s { world = w' })
      ]

  -- one round of the loop over the buckets
  unfoldable pub scan_bucket : Time → Bucket → Scan W → Scan W
  unfolding bucket_rules scan_listed
  scan_bucket now bucket s =
      let (stored, w') = world.get_bucket_lifecycle bucket.name s.world in
      elim (bucket_rules stored) [
        | none ↦ count_failure (record s { world = w' })
        | some rules ↦ scan_listed rules now bucket (record s { world = w' })
      ]

  unfoldable pub scan_buckets : Time → List Bucket → Scan W → Scan W
  unfolding scan_bucket
  scan_buckets now [] s = s
  scan_buckets now (b ∷ bs) s = scan_buckets now bs (scan_bucket now b s)
