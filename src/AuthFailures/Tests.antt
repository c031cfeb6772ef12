-- ===== src/AuthFailures/Tests.antt =====
-- The protector at concrete inputs.
use s.Prelude.{ℕ, ◌+◌, ◌≡◌, ◌≢◌, refl, [], ◌∷◌, Text, text, ltb, length, text_eq, text_beq, arith}
use s.Dict.{lookup}
use s.AuthFailures.{Protector, is_blocked, record_failure}
use s.AuthFailures.Laws.{none_left, one_more, record_failures, is_blocked_iff_over_threshold}

-- two failures in 100 nanoseconds are tolerated, a third blocks for 50
abbrev strict : Protector
strict = record { threshold = 2; window = 100; block_for = 50; state = [] }

abbrev eve : Text
eve = text "eve"

abbrev bob : Text
bob = text "bob"

is_blocked_iff_over_threshold_example :
    (is_blocked eve 70
      (record_failure eve 30 (record_failures eve (20 ∷ []) (record_failure eve 10 strict)))).0
    ≡ ltb 2 (length {A = ℕ} (20 ∷ []) + 2)
unfolding lookup
is_blocked_iff_over_threshold_example =
    is_blocked_iff_over_threshold eve strict 10 30 70 (20 ∷ []) refl (omega arith) (omega arith)
      (one_more (omega arith) (omega arith) none_left) (omega arith) (omega arith) (omega arith)
      (omega arith)

eve-ne-bob : eve ≢ bob
unfolding text_beq
eve-ne-bob e = absurd (ground (arith, text_eq.beq_iff eve bob))
