-- ===== src/Auth/Signatures/Skew.antt =====
-- Proofs on skewExceeded of internal/auth/sigv4.go.
use s.Prelude.{ℕ, ◌+◌, ◌-◌, ◌^◌, ◌<◌, ◌≡◌, ◌↔◌, true, arith, ◌⊎◌}
use s.Lifecycle.Rules.{pos}
use s.Auth.Signatures.{Verifier, sub_time, skew_exceeded}

-- For a limit that is not negative and below 2^63 - 1, a request is too far from the server's time
-- exactly when the times differ by more than the limit and the request is not 2^63 nanoseconds, about
-- 292 years, or more ahead: from there on its distance wraps around, and it is never too far.
pub skew_exceeded_iff :
    (v : Verifier) (max now request_time : ℕ)
    → v.max_skew ≡ pos max
    → max < 2 ^ 63 - 1
    → (skew_exceeded v now request_time ≡ true)
      ↔ (((request_time + max < now) ⊎ (now + max < request_time)) × (request_time < now + 2 ^ 63))
unfolding skew_exceeded sub_time
skew_exceeded_iff v max now request_time limit small = ground (arith, limit)
