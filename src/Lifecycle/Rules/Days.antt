-- ===== src/Lifecycle/Rules/Days.antt =====
-- How long a rule of so many days waits.
use s.Prelude.{ℕ, suc, ◌-◌, ◌*◌, ◌≤◌, ◌<◌, ◌≡◌, [], ◌∷◌, Text, arith, leb, ◌&&◌, some}
use s.Strings.{has_prefix}
use s.Lifecycle.Rules.{Int64, pos, neg, wrap64, matches_any_rule, day, expire_after_days}

expire_after-eq :
    (n : ℕ) → suc n ≤ 106751 → expire_after_days (pos (suc n)) ≡ some (pos (suc n * day))
unfolding expire_after_days wrap64
expire_after-eq n h = ground arith

expire_after-negative :
    (n : ℕ)
    → 106751 < suc n
    → suc n ≤ 213503
    → (m : ℕ) × (expire_after_days (pos (suc n)) ≡ some (neg m))
unfolding expire_after_days wrap64
expire_after-negative n above below = (18446744073709551616 - suc n * day - 1, ground arith)

-- A rule of 1 to 106751 days expires a key exactly when the key has the prefix and the object is
-- that many days old.
pub days_exact :
    (n : ℕ) (prefix key : Text) (age : ℕ)
    → suc n ≤ 106751
    → (d : Int64) × (expire_after_days (pos (suc n)) ≡ some d)
      × (matches_any_rule (record { prefix = prefix; expire_after = d } ∷ []) key age
          ≡ (leb (suc n * day) age && has_prefix key prefix))
unfolding matches_any_rule
days_exact n prefix key age h = (pos (suc n * day), expire_after-eq n h, ground arith)

-- A rule of 106752 to 213503 days overflows to a negative duration: it expires every object with
-- the prefix at once, whatever its age.
pub days_overflow :
    (n : ℕ) (prefix key : Text) (age : ℕ)
    → 106751 < suc n
    → suc n ≤ 213503
    → (d : Int64) × (expire_after_days (pos (suc n)) ≡ some d)
      × (matches_any_rule (record { prefix = prefix; expire_after = d } ∷ []) key age
          ≡ has_prefix key prefix)
unfolding matches_any_rule
days_overflow n prefix key age above below =
    let (m, e) = expire_after-negative n above below in (neg m, e, ground arith)
