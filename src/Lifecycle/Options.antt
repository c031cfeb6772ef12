-- ===== src/Lifecycle/Options.antt =====
-- internal/lifecycle/worker.go: `NewWorker`. A count or a duration that may be negative is an Int64;
-- a backoff that is not positive is kept as 0, since the worker only asks whether it is positive.
pub mod Checked
use s.Prelude.{
  ℕ, zero, suc, ◌≡◌, ◌<◌, ◌∙◌, refl, sym, Bool, true, false, not, ◌&&◌, ◌⊎◌, inl, inr, Option, none,
  some, List, [], ◌∷◌, Outcome, ok, err, if◌then◌else◌, arith, Option-cases, Bool-cases,
}
use s.Lifecycle.Rules.{Int64, pos, neg, Rule}
use s.Lifecycle.World.{Config}

pub record Options : Type 0 where
  pub has_metadata : Bool
  pub has_blob : Bool
  pub rules : List Rule
  pub interval : Int64
  pub batch_size : Int64
  pub max_retries : Int64
  pub retry_backoff : Int64
  pub dry_run : Bool

pub data OptionsError : Type 0 where
  no_metadata no_blob : OptionsError
  non_positive_age : ℕ → OptionsError

pub record Worker : Type 0 where
  pub rules : List Rule
  pub interval : ℕ
  pub config : Config

-- the number, or the default where it is not positive
abbrev pub positive_or : ℕ → Int64 → ℕ
positive_or d (pos zero) = d
positive_or d (pos (suc n)) = suc n
positive_or d (neg n) = d

abbrev pub at_least_zero : Int64 → ℕ
at_least_zero (pos n) = n
at_least_zero (neg n) = 0

abbrev pub is_positive : Int64 → Bool
is_positive (pos zero) = false
is_positive (pos (suc n)) = true
is_positive (neg n) = false

-- the first rule whose age is not positive, numbered from 1
unfoldable pub bad_rule : ℕ → List Rule → Option ℕ
bad_rule i [] = none
bad_rule i (rule ∷ rules) =
    let rest = bad_rule (suc i) rules in
    if is_positive rule.expire_after then rest else some (suc i)

abbrev pub worker_of : Options → Worker
worker_of opts = record {
  rules = opts.rules;
  interval = positive_or 300000000000 opts.interval;
  config = record {
    batch_size = positive_or 100 opts.batch_size;
    max_retries = at_least_zero opts.max_retries;
    retry_backoff = at_least_zero opts.retry_backoff;
    dry_run = opts.dry_run;
  };
}

unfoldable pub new_worker : Options → Outcome OptionsError Worker
unfolding bad_rule
new_worker opts =
    if not opts.has_metadata
    then err no_metadata
    else if not opts.dry_run && not opts.has_blob
    then err no_blob
    else elim (bad_rule 0 opts.rules) [
      | some n ↦ err (non_positive_age n)
      | none ↦ ok (worker_of opts)
    ]
