-- ===== src/Lifecycle/Parse.antt =====
-- internal/lifecycle/rules.go: `ParseRules` and `parseRule`, from a text
-- prefix=<key-prefix>,age=<duration>[;...] to rules. The functions of the standard library that
-- read Unicode or durations are given.
pub mod Positive
use s.Prelude.{
  ℕ, suc, Bool, true, false, Option, none, some, List, [], ◌∷◌, Text, text, text_eq, nat_beq, ◌==◌,
  Outcome, ok, err, if◌then◌else◌,
}
use s.Strings.{split, split_once}
use s.Lifecycle.Rules.{Int64, Rule}
use s.Lifecycle.Options.{is_positive}

-- strings.TrimSpace, strings.ToLower and time.ParseDuration, `none` where that is an error
pub record GoText : Type 0 where
  pub trim_space : Text → Text
  pub to_lower : Text → Text
  pub parse_duration : Text → Option Int64

pub data ParseError : Type 0 where
  empty_rule missing_age missing_prefix : ParseError
  invalid_segment unknown_key invalid_age : Text → ParseError
  -- the error of a rule, numbered from 1
  in_rule : ℕ → ParseError → ParseError

-- the map of the two keys
pub record Values : Type 0 where
  pub age : Option Text
  pub prefix : Option Text

module _ (go : GoText) where
  -- one round of the loop over the segments
  unfoldable pub add_segment : Text → Values → Outcome ParseError Values
  unfolding split_once
  add_segment untrimmed values =
      let segment = go.trim_space untrimmed in
      if segment == [] then ok values else elim (split_once 61 segment) [
        | none ↦ err (invalid_segment segment)
        | some (k, v) ↦
            let key = go.to_lower (go.trim_space k) in
            let value = go.trim_space v in
            if key == text "prefix"
            then ok (record values { prefix = some value })
            else if key == text "age"
            then ok (record values { age = some value })
            else err (unknown_key key)
      ]

  unfoldable pub add_segments : List Text → Values → Outcome ParseError Values
  unfolding add_segment
  add_segments [] values = ok values
  add_segments (segment ∷ segments) values = elim (add_segment segment values) [
    | err e ↦ err e
    | ok values' ↦ add_segments segments values'
  ]

  -- the rule of the values, the age looked at first
  unfoldable pub rule_of_values : Values → Outcome ParseError Rule
  rule_of_values values = elim values.age [
    | none ↦ err missing_age
    | some raw ↦ elim (go.parse_duration raw) [
      | none ↦ err (invalid_age raw)
      | some age ↦
          if is_positive age
          then elim values.prefix [
            | none ↦ err missing_prefix
            | some prefix ↦ ok (record { prefix = prefix; expire_after = age })
          ]
          else err (invalid_age raw)
    ]
  ]

  unfoldable pub parse_rule : Text → Outcome ParseError Rule
  unfolding split add_segments rule_of_values
  parse_rule untrimmed =
      let spec = go.trim_space untrimmed in
      if spec == []
      then err empty_rule
      else elim (add_segments (split 44 spec) (record { age = none; prefix = none })) [
        | err e ↦ err e
        | ok values ↦ rule_of_values values
      ]

  -- the loop over the specs, `i` the index of the first
  unfoldable pub parse_specs : ℕ → List Text → Outcome ParseError (List Rule)
  unfolding parse_rule
  parse_specs i [] = ok []
  parse_specs i (spec ∷ specs) =
      let rest = parse_specs (suc i) specs in
      elim (parse_rule spec) [
        | err e ↦ err (in_rule (suc i) e)
        | ok rule ↦ elim rest [ err e ↦ err e | ok rules ↦ ok (rule ∷ rules) ]
      ]

  unfoldable pub parse_rules : Text → Outcome ParseError (List Rule)
  unfolding parse_specs split
  parse_rules raw =
      let trimmed = go.trim_space raw in
      if trimmed == [] then ok [] else parse_specs 0 (split 59 trimmed)
