-- ===== src/AuthFailures.antt =====
-- internal/server/security.go: the in-memory protector against failed authentication. A time is a
-- number of nanoseconds since Go's zero time, which is 0; the lock makes each operation atomic.
pub mod Laws
mod Tests
use s.Prelude.{
  ℕ, ◌+◌, ◌-◌, ◌^◌, Bool, true, false, not, Option, none, some, Text, text_eq, [], if◌then◌else◌,
  ltb, leb, nat_beq, ◌||◌,
}
use s.Dict.{Dict, lookup, put, erase}

pub record AuthFailureState : Type 0 where
  pub window_start : ℕ
  pub failures : ℕ
  pub blocked_until : ℕ

pub record Protector : Type 0 where
  pub threshold : ℕ
  pub window : ℕ
  pub block_for : ℕ
  pub state : Dict Text AuthFailureState

-- What the constructor is given is not negative here; a value that is not positive is replaced.
unfoldable pub new_auth_failure_protector : ℕ → ℕ → ℕ → Protector
new_auth_failure_protector threshold window block_for = record {
  threshold = if nat_beq threshold 0 then 20 else threshold;
  window = if nat_beq window 0 then 60000000000 else window;
  block_for = if nat_beq block_for 0 then 300000000000 else block_for;
  state = [];
}

-- the entry of an identity, the zero value without one
abbrev pub entry : Option AuthFailureState → AuthFailureState
entry none = record { window_start = 0; failures = 0; blocked_until = 0 }
entry (some st) = st

-- now.Sub(start), for a start that is not later; a later one is never out of the window
abbrev pub since : ℕ → ℕ → ℕ
since now start = if ltb (2 ^ 63 - 1) (now - start) then 2 ^ 63 - 1 else now - start

unfoldable pub is_blocked : Text → ℕ → Protector → Bool × Protector
is_blocked identity now p = elim (lookup identity p.state) [
  | none ↦ (false, p)
  | some st ↦
      if ltb st.blocked_until now
      then (false, record p { state = put identity (record st { blocked_until = 0 }) p.state })
      else (not (nat_beq st.blocked_until 0), p)
]

-- the entry after a failure
unfoldable pub failed_entry : Protector → ℕ → AuthFailureState → AuthFailureState
failed_entry p now st =
    let restart = nat_beq st.window_start 0 || ltb p.window (since now st.window_start) in
    let start = if restart then now else st.window_start in
    let failures = (if restart then 0 else st.failures) + 1 in
    record {
      window_start = start;
      failures = failures;
      blocked_until = if ltb p.threshold failures then now + p.block_for else st.blocked_until;
    }

unfoldable pub record_failure : Text → ℕ → Protector → Protector
unfolding failed_entry
record_failure identity now p = record p {
  state = put identity (failed_entry p now (entry (lookup identity p.state))) p.state;
}

unfoldable pub record_success : Text → Protector → Protector
record_success identity p = record p { state = erase identity p.state }
