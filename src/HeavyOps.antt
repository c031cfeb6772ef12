-- ===== src/HeavyOps.antt =====
-- internal/server/heavy.go: the limiter of heavy operations. The two channels are their lengths
-- under their capacities. A goroutine in `Acquire` or `Release` is counted by the place where it
-- stands, and each channel operation and each locked section is one step, in any order between
-- goroutines. Each operation that acquired the limiter releases it once.
pub mod Limits
pub mod Drain
mod Tests
use s.Prelude.{ℕ, zero, suc, ◌+◌, ◌-◌, ◌≡◌, Option, none, some, if◌then◌else◌, ltb, nat_beq}

pub record HeavyOpLimiter : Type 0 where
  pub worker_limit : ℕ
  pub slot_limit : ℕ
  pub workers : ℕ
  pub slots : ℕ
  pub queue_depth : ℕ

-- The number of workers and of queued operations, where a number that is not positive is 0.
unfoldable pub new_heavy_op_limiter : ℕ → ℕ → HeavyOpLimiter
new_heavy_op_limiter workers queue =
    let limit = if nat_beq workers 0 then 4 else workers in
    record {
      worker_limit = limit;
      slot_limit = limit + queue;
      workers = 0;
      slots = 0;
      queue_depth = 0;
    }

-- ch <- struct{}{} on a channel of that capacity and length; `none` where it would block
unfoldable pub send : ℕ → ℕ → Option ℕ
send limit n = if ltb n limit then some (n + 1) else none

-- <-ch
unfoldable pub receive : ℕ → Option ℕ
receive zero = none
receive (suc n) = some n

-- the steps of `adjustDepth`, the second stopping at 0 as the code does
unfoldable pub raise_depth : HeavyOpLimiter → HeavyOpLimiter
raise_depth l = record l { queue_depth = l.queue_depth + 1 }

unfoldable pub lower_depth : HeavyOpLimiter → HeavyOpLimiter
lower_depth l = record l { queue_depth = l.queue_depth - 1 }

-- How many goroutines stand at each place: in `Acquire` with a slot before the depth is raised
-- (entering), in the second select (waiting), with the context done before the slot is given back
-- (cancelled); holding the limiter (running); in `Release` between the two channels (released);
-- and with the slot given back before the depth is lowered (leaving).
pub record System : Type 0 where
  pub limiter : HeavyOpLimiter
  pub entering : ℕ
  pub waiting : ℕ
  pub cancelled : ℕ
  pub running : ℕ
  pub released : ℕ
  pub leaving : ℕ

pub data Step : System → System → Type 0 where
  -- the first select, with a free slot and without one (ErrServerOverloaded)
  enter :
      (s : System) (n : ℕ)
      → send s.limiter.slot_limit s.limiter.slots ≡ some n
      → Step s (record s { limiter = record s.limiter { slots = n }; entering = s.entering + 1 })
  refuse : (s : System) → send s.limiter.slot_limit s.limiter.slots ≡ none → Step s s
  count :
      (s : System) (k : ℕ)
      → s.entering ≡ suc k
      → Step s (record s { limiter = raise_depth s.limiter; entering = k; waiting = s.waiting + 1 })
  -- the second select
  start :
      (s : System) (k n : ℕ)
      → s.waiting ≡ suc k
      → send s.limiter.worker_limit s.limiter.workers ≡ some n
      → Step s (record s {
        limiter = record s.limiter { workers = n };
        waiting = k;
        running = s.running + 1;
      })
  cancel :
      (s : System) (k : ℕ)
      → s.waiting ≡ suc k
      → Step s (record s { waiting = k; cancelled = s.cancelled + 1 })
  give_up :
      (s : System) (k n : ℕ)
      → s.cancelled ≡ suc k
      → receive s.limiter.slots ≡ some n
      → Step s (record s {
        limiter = record s.limiter { slots = n };
        cancelled = k;
        leaving = s.leaving + 1;
      })
  release :
      (s : System) (k n : ℕ)
      → s.running ≡ suc k
      → receive s.limiter.workers ≡ some n
      → Step s (record s {
        limiter = record s.limiter { workers = n };
        running = k;
        released = s.released + 1;
      })
  give_back :
      (s : System) (k n : ℕ)
      → s.released ≡ suc k
      → receive s.limiter.slots ≡ some n
      → Step s (record s {
        limiter = record s.limiter { slots = n };
        released = k;
        leaving = s.leaving + 1;
      })
  leave :
      (s : System) (k : ℕ)
      → s.leaving ≡ suc k
      → Step s (record s { limiter = lower_depth s.limiter; leaving = k })

unfoldable pub idle : HeavyOpLimiter → System
idle l = record {
  limiter = l;
  entering = 0;
  waiting = 0;
  cancelled = 0;
  running = 0;
  released = 0;
  leaving = 0;
}

-- what some steps lead to from a new limiter
pub data Reachable (workers queue : ℕ) : System → Type 0 where
  begin : Reachable workers queue (idle (new_heavy_op_limiter workers queue))
  and_then : {s t : System} → Reachable workers queue s → Step s t → Reachable workers queue t
