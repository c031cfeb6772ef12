-- ===== src/HeavyOps/Drain.antt =====
-- Proofs on internal/server/heavy.go: how the operations in progress come to their end.
use s.Prelude.{ℕ, zero, suc, ◌+◌, ◌≤◌, ◌<◌, ◌≡◌, inl, inr, arith}
use s.HeavyOps.{System, Step, Reachable, and_then}
use s.HeavyOps.Limits.{work_left, nat-cases, Reachable-progress, Reachable-no_leak}

-- steps that cancel no operation and finish some: none leads to more work
pub data CalmRun : System → System → Type 0 where
  stop : {s : System} → CalmRun s s
  go_on :
      {s t u : System}
      → Step s t
      → work_left t < work_left s
      → t.cancelled ≤ s.cancelled
      → CalmRun t u
      → CalmRun s u

abbrev pub in_progress : System → ℕ
in_progress s = s.entering + s.waiting + s.cancelled + s.running + s.released + s.leaving

no_work : (s : System) → work_left s ≤ 0 → in_progress s ≡ 0
unfolding work_left
no_work s h = omega arith

drains_within :
    (workers queue most : ℕ) (s : System)
    → work_left s ≤ most
    → Reachable workers queue s
    → (t : System) × CalmRun s t × Reachable workers queue t × (in_progress t ≡ 0)
drains_within workers queue zero s h r = (s, stop, r, no_work s h)
drains_within workers queue (suc n) s h r = elim (nat-cases (in_progress s)) [
  | inl none' ↦ (s, stop, r, none')
  | inr (k, some') ↦
      let (t, step, less, calm) = Reachable-progress workers queue s r (omega arith) in
      let (u, run, r', done) = drains_within workers queue n t (omega arith) (and_then r step) in
      (u, go_on step less calm run, r', done)
]

-- The limiter never deadlocks: from every reachable state a run of steps, none of which cancels an
-- operation, and each of which brings the operations in progress strictly closer to their end, leads to
-- a state with none in progress, with both channels empty and the depth 0. So no operation that waits
-- needs its context to be done.
pub Reachable-drains :
    (workers queue : ℕ) (s : System)
    → Reachable workers queue s
    → (t : System) × CalmRun s t
      × (in_progress t ≡ 0)
      × (t.limiter.slots ≡ 0)
      × (t.limiter.workers ≡ 0)
      × (t.limiter.queue_depth ≡ 0)
Reachable-drains workers queue s r =
    let (t, run, r', done) = drains_within workers queue (work_left s) s (omega arith) r in
    let (slots, workers', depth) = Reachable-no_leak workers queue t r' done in
    (t, run, done, slots, workers', depth)
