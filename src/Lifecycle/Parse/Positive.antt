-- ===== src/Lifecycle/Parse/Positive.antt =====
-- The rules that are parsed are rules with which a worker can be built.
use s.Prelude.{
  ℕ, suc, ◌≡◌, ◌∙◌, ap, true, none, List, [], ◌∷◌, Text, text_eq, ◌==◌, ok, arith, Bool-cases,
  Outcome-cases, inl, inr,
}
use s.Lifecycle.Rules.{Rule}
use s.Lifecycle.Options.{Options, worker_of, is_positive, bad_rule, new_worker}
use s.Lifecycle.Parse.{
  GoText, Values, split, add_segments, rule_of_values, parse_rule, parse_specs, parse_rules,
}

module _ (go : GoText) where
  rule_of_values-positive :
      (values : Values) (rule : Rule)
      → rule_of_values go values ≡ ok rule
      → is_positive rule.expire_after ≡ true
  unfolding rule_of_values
  rule_of_values-positive values rule h = ground arith

  parse_rule-positive :
      (spec : Text) (rule : Rule)
      → parse_rule go spec ≡ ok rule
      → is_positive rule.expire_after ≡ true
  unfolding parse_rule
  parse_rule-positive spec rule h =
      elim (Outcome-cases
        (add_segments go (split 44 (go.trim_space spec)) (record { age = none; prefix = none }))) [
          | inl (values, read) ↦ ground (arith, rule_of_values-positive values rule)
          | inr (e, failed) ↦ ground arith
        ]

  parse_specs-good :
      (i j : ℕ) (specs : List Text) (rules : List Rule)
      → parse_specs go i specs ≡ ok rules
      → bad_rule j rules ≡ none
  unfolding parse_specs bad_rule
  parse_specs-good i j [] rules h = ground arith
  parse_specs-good i j (spec ∷ specs) rules h = elim (Outcome-cases (parse_rule go spec)) [
    | inr (e, failed) ↦ ground arith
    | inl (rule, read) ↦ elim (Outcome-cases (parse_specs go (suc i) specs)) [
      | inr (e, failed) ↦ ground arith
      | inl (rest, known) ↦
          let good = parse_rule-positive spec rule read in
          let later = parse_specs-good (suc i) (suc j) specs rest known in
          let same : rules ≡ rule ∷ rest = ground arith in ap (bad_rule j) same ∙ ground arith
    ]
  ]

  parse_rules-good :
      (raw : Text) (rules : List Rule) → parse_rules go raw ≡ ok rules → bad_rule 0 rules ≡ none
  unfolding parse_rules bad_rule
  parse_rules-good raw rules h = elim (Bool-cases (go.trim_space raw == [])) [
    | inl blank ↦ ground arith
    | inr some' ↦ parse_specs-good 0 0 (split 59 (go.trim_space raw)) rules (ground arith)
  ]

-- Rules that the parser accepts are accepted by `NewWorker`: with a metadata store and a blob store
-- it builds the worker.
pub parse_rules-new_worker :
    (go : GoText) (raw : Text) (opts : Options)
    → parse_rules go raw ≡ ok opts.rules
    → opts.has_metadata ≡ true
    → opts.has_blob ≡ true
    → new_worker opts ≡ ok (worker_of opts)
unfolding new_worker
parse_rules-new_worker go raw opts read metadata blob =
    let good = parse_rules-good go raw opts.rules read in ground arith
