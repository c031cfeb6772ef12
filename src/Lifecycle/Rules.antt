-- ===== src/Lifecycle/Rules.antt =====
-- internal/lifecycle/rules.go: lifecycle rules, and the expiration subset of the bucket XML.
-- A duration is an int64 of nanoseconds; the product that makes one from days wraps.
pub mod Days
use s.Prelude.{
  ℕ, zero, suc, ◌+◌, ◌-◌, ◌*◌, ◌%◌, ◌^◌, Bool, true, false, not, ◌&&◌, List, [], ◌∷◌, Text, text,
  ◌==◌, text_eq, Outcome, ok, err, if◌then◌else◌, ltb, Option, none, some,
}
use s.Strings.{has_prefix}

-- A signed machine word: `neg n` is -(n + 1).
pub data Int64 : Type 0 where
  pos : ℕ → Int64
  neg : ℕ → Int64

-- the int64 with the bits of the number
unfoldable pub wrap64 : ℕ → Int64
wrap64 n = let m = n % 2 ^ 64 in if ltb m (2 ^ 63) then pos m else neg (2 ^ 64 - m - 1)

pub record Rule : Type 0 where
  pub prefix : Text
  pub expire_after : Int64

-- a < b for an age that is not negative
abbrev pub age_below : ℕ → Int64 → Bool
age_below age (pos n) = ltb age n
age_below age (neg n) = false

unfoldable pub matches_any_rule : List Rule → Text → ℕ → Bool
matches_any_rule [] key age = false
matches_any_rule (rule ∷ rules) key age =
    if not (age_below age rule.expire_after) && has_prefix key rule.prefix
    then true
    else matches_any_rule rules key age

-- A decoded `Rule` element, with the strings that the code trims given as trimmed.
pub record XmlRule : Type 0 where
  pub enabled : Bool
  pub prefix : Text
  pub filter_prefix : Text
  pub days : Int64

abbrev pub day : ℕ
day = 86400000000000

-- the rule number of the error is 1-based
pub data RuleError : Type 0 where
  bad_xml : RuleError
  days_not_positive : ℕ → RuleError

-- time.Duration(days) * 24 * time.Hour, `none` where the days are not positive
unfoldable pub expire_after_days : Int64 → Option Int64
expire_after_days (neg n) = none
expire_after_days (pos zero) = none
expire_after_days (pos (suc n)) = some (wrap64 (suc n * day))

abbrev pub rule_prefix : XmlRule → Text
rule_prefix r = if r.filter_prefix == [] then r.prefix else r.filter_prefix

abbrev pub add_rule : Rule → Outcome RuleError (List Rule) → Outcome RuleError (List Rule)
add_rule r (ok rules) = ok (r ∷ rules)
add_rule r (err e) = err e

-- the loop of `ParseLifecycleXMLRules` over the decoded rules, `i` the index of the first
unfoldable pub rules_of_xml : ℕ → List XmlRule → Outcome RuleError (List Rule)
unfolding expire_after_days
rules_of_xml i [] = ok []
rules_of_xml i (r ∷ rest) =
    let later = rules_of_xml (suc i) rest in
    if not r.enabled then later else elim (expire_after_days r.days) [
      | none ↦ err (days_not_positive (suc i))
      | some d ↦ add_rule (record { prefix = rule_prefix r; expire_after = d }) later
    ]
