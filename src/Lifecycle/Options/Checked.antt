-- ===== src/Lifecycle/Options/Checked.antt =====
-- What a worker that was built can rely on.
use s.Prelude.{ℕ, zero, suc, ◌≡◌, ◌<◌, refl, Bool, true, ◌&&◌, ◌||◌, none, List, [], ◌∷◌, ok, arith}
use s.Lifecycle.Rules.{Int64, pos, neg, Rule}
use s.Lifecycle.Options.{Options, Worker, positive_or, is_positive, bad_rule, new_worker}

unfoldable pub all_positive : List Rule → Bool
all_positive [] = true
all_positive (rule ∷ rules) = is_positive rule.expire_after && all_positive rules

bad_rule-all_positive :
    (i : ℕ) (rules : List Rule) → bad_rule i rules ≡ none → all_positive rules ≡ true
unfolding bad_rule all_positive
bad_rule-all_positive i [] h = refl
bad_rule-all_positive i (rule ∷ rules) h = ground (arith, bad_rule-all_positive (suc i) rules)

positive_or-pos : (d : ℕ) (n : Int64) → 0 < d → 0 < positive_or d n
positive_or-pos d (pos zero) h = h
positive_or-pos d (pos (suc n)) h = omega arith
positive_or-pos d (neg n) h = h

-- A worker is built only with a metadata store, with a blob store unless it is a dry run, and
-- with rules of a positive age; its batches and its interval are then positive.
pub new_worker_checked :
    (opts : Options) (w : Worker)
    → new_worker opts ≡ ok w
    → (0 < w.config.batch_size)
      × (0 < w.interval)
      × (all_positive w.rules ≡ true)
      × ((opts.has_metadata && (opts.dry_run || opts.has_blob)) ≡ true)
unfolding new_worker
new_worker_checked opts w built = ground (
  arith,
  bad_rule-all_positive 0 opts.rules,
  positive_or-pos 100 opts.batch_size,
  positive_or-pos 300000000000 opts.interval,
)
