-- ===== src/HeavyOps/Limits.antt =====
-- What the channels and the depth of the queue count, and that no goroutine is stuck.
use s.Prelude.{ℕ, zero, suc, ◌+◌, ◌*◌, ◌≤◌, ◌<◌, ◌≡◌, refl, ◌⊎◌, inl, inr, some, arith}
use s.HeavyOps.{
  new_heavy_op_limiter, send, receive, raise_depth, lower_depth, System, Step, enter, refuse, count,
  start, cancel, give_up, release, give_back, leave, idle, Reachable, begin, and_then,
}

pub record IsCounted (s : System) : Type 0 where
  slots_held : s.limiter.slots ≡ s.entering + s.waiting + s.cancelled + s.running + s.released
  workers_held : s.limiter.workers ≡ s.running
  depth : s.limiter.queue_depth ≡ s.waiting + s.cancelled + s.running + s.released + s.leaving
  slots_within : s.limiter.slots ≤ s.limiter.slot_limit
  workers_within : s.limiter.workers ≤ s.limiter.worker_limit

Step-IsCounted : {s t : System} → Step s t → IsCounted s → IsCounted t
unfolding send receive raise_depth lower_depth
Step-IsCounted (enter s n e) h = ground arith
Step-IsCounted (refuse s e) h = h
Step-IsCounted (count s k e) h = ground arith
Step-IsCounted (start s k n e f) h = ground arith
Step-IsCounted (cancel s k e) h = ground arith
Step-IsCounted (give_up s k n e f) h = ground arith
Step-IsCounted (release s k n e f) h = ground arith
Step-IsCounted (give_back s k n e f) h = ground arith
Step-IsCounted (leave s k e) h = ground arith

-- The limits stay those of the constructor.
record IsLimited (workers queue : ℕ) (s : System) : Type 0 where
  same_workers : s.limiter.worker_limit ≡ (new_heavy_op_limiter workers queue).worker_limit
  same_slots : s.limiter.slot_limit ≡ (new_heavy_op_limiter workers queue).slot_limit

Step-IsLimited :
    {s t : System} {workers queue : ℕ}
    → Step s t
    → IsLimited workers queue s
    → IsLimited workers queue t
unfolding raise_depth lower_depth
Step-IsLimited (enter s n e) h = record { same_workers = h.same_workers; same_slots = h.same_slots }
Step-IsLimited (refuse s e) h = h
Step-IsLimited (count s k e) h = record { same_workers = h.same_workers; same_slots = h.same_slots }
Step-IsLimited (start s k n e f) h = record {
  same_workers = h.same_workers;
  same_slots = h.same_slots;
}
Step-IsLimited (cancel s k e) h = record {
  same_workers = h.same_workers;
  same_slots = h.same_slots;
}
Step-IsLimited (give_up s k n e f) h = record {
  same_workers = h.same_workers;
  same_slots = h.same_slots;
}
Step-IsLimited (release s k n e f) h = record {
  same_workers = h.same_workers;
  same_slots = h.same_slots;
}
Step-IsLimited (give_back s k n e f) h = record {
  same_workers = h.same_workers;
  same_slots = h.same_slots;
}
Step-IsLimited (leave s k e) h = record { same_workers = h.same_workers; same_slots = h.same_slots }

module _ {workers queue : ℕ} where
  Reachable-IsCounted : {s : System} → Reachable workers queue s → IsCounted s
  unfolding idle new_heavy_op_limiter
  Reachable-IsCounted begin = ground arith
  Reachable-IsCounted (and_then r step) = Step-IsCounted step (Reachable-IsCounted r)

  Reachable-IsLimited : {s : System} → Reachable workers queue s → IsLimited workers queue s
  unfolding idle
  Reachable-IsLimited begin = record { same_workers = refl; same_slots = refl }
  Reachable-IsLimited (and_then r step) = Step-IsLimited step (Reachable-IsLimited r)

-- In every reachable state no more operations run than there are workers, and no more hold a slot
-- than workers and queue together, for limits that are positive.
pub Reachable-IsBounded :
    (workers queue : ℕ) (s : System)
    → 0 < workers
    → Reachable workers queue s
    → (s.running ≤ workers)
      × (s.entering + s.waiting + s.cancelled + s.running + s.released ≤ workers + queue)
unfolding new_heavy_op_limiter
Reachable-IsBounded workers queue s pos r =
    let c = Reachable-IsCounted r in
    let l = Reachable-IsLimited r in
    ground (
      arith, c.slots_held, c.workers_held, c.slots_within, c.workers_within, l.same_workers,
      l.same_slots,
    )

-- Whatever the order of the steps, once no operation is in progress both channels are empty and
-- the depth is 0: neither a cancelled nor a refused operation leaks a slot.
pub Reachable-no_leak :
    (workers queue : ℕ) (s : System)
    → Reachable workers queue s
    → s.entering + s.waiting + s.cancelled + s.running + s.released + s.leaving ≡ 0
    → (s.limiter.slots ≡ 0) × (s.limiter.workers ≡ 0) × (s.limiter.queue_depth ≡ 0)
Reachable-no_leak workers queue s r idle' =
    let c = Reachable-IsCounted r in ground (arith, c.slots_held, c.workers_held, c.depth)

-- The test for a negative depth is never needed: wherever an operation is about to lower the depth,
-- the depth is positive.
pub leaving_depth_positive :
    (workers queue : ℕ) (s : System)
    → Reachable workers queue s
    → 0 < s.leaving
    → 0 < s.limiter.queue_depth
leaving_depth_positive workers queue s r some' =
    let c = Reachable-IsCounted r in omega (arith, c.depth)

-- how many steps an operation has before it at most, summed over the operations in progress
unfoldable pub work_left : System → ℕ
work_left s =
    5 * s.entering + 4 * s.waiting + 3 * s.running + 2 * s.released + 2 * s.cancelled + s.leaving

pub nat-cases : (n : ℕ) → (n ≡ 0) ⊎ ((k : ℕ) × (n ≡ suc k))
nat-cases zero = inl refl
nat-cases (suc k) = inr (k, refl)

module _ (workers queue : ℕ) (s : System) (r : Reachable workers queue s) where
  start-Step :
      s.running ≡ 0
      → (k : ℕ) → s.waiting ≡ suc k
      → (t : System) × Step s t × (work_left t < work_left s) × (t.cancelled ≤ s.cancelled)
  unfolding send work_left new_heavy_op_limiter
  start-Step none' k e =
      let c = Reachable-IsCounted r in
      let l = Reachable-IsLimited r in
      let free : send s.limiter.worker_limit s.limiter.workers ≡ some 1 =
        ground (arith, c.workers_held, l.same_workers) in
      (_, start s k 1 e free, omega arith, omega arith)

  slot_free : (k : ℕ) → s.limiter.slots ≡ suc k → receive s.limiter.slots ≡ some k
  unfolding receive
  slot_free k e = rw (e, receive) refl

  held-Step :
      0 < s.running + s.released + s.cancelled
      → (t : System) × Step s t × (work_left t < work_left s) × (t.cancelled ≤ s.cancelled)
  unfolding receive work_left
  held-Step some' =
      let c = Reachable-IsCounted r in
      elim (nat-cases s.running) [
        | inr (k, e) ↦
            let full : receive s.limiter.workers ≡ some k = ground (arith, c.workers_held) in
            (_, release s k k e full, omega arith, omega arith)
        | inl no_running ↦ elim (nat-cases s.limiter.slots) [
          | inl no_slots ↦ absurd (omega (arith, c.slots_held))
          | inr (m, slots) ↦ elim (nat-cases s.released) [
            | inr (k, e) ↦ (_, give_back s k m e (slot_free m slots), omega arith, omega arith)
            | inl no_released ↦ elim (nat-cases s.cancelled) [
              | inr (k, e) ↦ (_, give_up s k m e (slot_free m slots), omega arith, omega arith)
              | inl no_cancelled ↦ absurd (omega arith)
            ]
          ]
        ]
      ]

-- The limiter never deadlocks: in every reachable state with an operation in progress there is a
-- step that brings the operations strictly closer to their end and cancels none of them, so that
-- progress never waits for a context to be done.
pub Reachable-progress :
    (workers queue : ℕ) (s : System)
    → Reachable workers queue s
    → 0 < s.entering + s.waiting + s.cancelled + s.running + s.released + s.leaving
    → (t : System) × Step s t × (work_left t < work_left s) × (t.cancelled ≤ s.cancelled)
unfolding work_left raise_depth lower_depth
Reachable-progress workers queue s r some' = elim (nat-cases s.leaving) [
  | inr (k, e) ↦ (_, leave s k e, omega arith, omega arith)
  | inl no_leaving ↦ elim (nat-cases s.entering) [
    | inr (k, e) ↦ (_, count s k e, omega arith, omega arith)
    | inl no_entering ↦ elim (nat-cases (s.running + s.released + s.cancelled)) [
      | inr (k, e) ↦ held-Step workers queue s r (omega arith)
      | inl no_held ↦ elim (nat-cases s.waiting) [
        | inr (k, e) ↦ start-Step workers queue s r (omega arith) k e
        | inl no_waiting ↦ absurd (omega arith)
      ]
    ]
  ]
]
