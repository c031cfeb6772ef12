-- ===== src/HeavyOps/Tests.antt =====
-- The limiter at concrete inputs.
use s.Prelude.{◌≡◌, ◌+◌, ◌≤◌, refl, arith}
use s.HeavyOps.{
  new_heavy_op_limiter, send, raise_depth, lower_depth, receive, System, enter, count, start,
  release, give_back, leave, idle, Reachable, begin, and_then,
}
use s.HeavyOps.Limits.{Reachable-IsBounded}
use s.HeavyOps.Drain.{CalmRun, in_progress, Reachable-drains}

-- one worker and room for one more: an operation runs
abbrev running_one : System
running_one = record {
  limiter = record { worker_limit = 1; slot_limit = 2; workers = 1; slots = 1; queue_depth = 1 };
  entering = 0;
  waiting = 0;
  cancelled = 0;
  running = 1;
  released = 0;
  leaving = 0;
}

-- the same operation with its slot given back, before it lowers the depth
abbrev leaving_one : System
leaving_one = record {
  limiter = record { worker_limit = 1; slot_limit = 2; workers = 0; slots = 0; queue_depth = 1 };
  entering = 0;
  waiting = 0;
  cancelled = 0;
  running = 0;
  released = 0;
  leaving = 1;
}

running_one_reached : Reachable 1 1 running_one
unfolding idle new_heavy_op_limiter send raise_depth
running_one_reached =
    and_then (and_then (and_then begin (enter _ 1 refl)) (count _ 0 refl)) (start _ 0 1 refl refl)

leaving_one_reached : Reachable 1 1 leaving_one
unfolding receive
leaving_one_reached =
    and_then (and_then running_one_reached (release _ 0 0 refl refl)) (give_back _ 0 0 refl refl)

done_reached : Reachable 1 1 (idle (new_heavy_op_limiter 1 1))
unfolding idle new_heavy_op_limiter lower_depth
done_reached = and_then leaving_one_reached (leave _ 0 refl)

Reachable-IsBounded_example : (1 ≤ 1) × (1 ≤ 1 + 1)
Reachable-IsBounded_example = Reachable-IsBounded 1 1 running_one (omega arith) running_one_reached

-- a second operation waits for the one that runs
abbrev one_waits : System
one_waits = record running_one {
  limiter = record { worker_limit = 1; slot_limit = 2; workers = 1; slots = 2; queue_depth = 2 };
  waiting = 1;
}

one_waits_reached : Reachable 1 1 one_waits
unfolding send raise_depth
one_waits_reached = and_then (and_then running_one_reached (enter _ 2 refl)) (count _ 0 refl)

Reachable-drains_example :
    (t : System) × CalmRun one_waits t
    × (in_progress t ≡ 0)
    × (t.limiter.slots ≡ 0)
    × (t.limiter.workers ≡ 0)
    × (t.limiter.queue_depth ≡ 0)
Reachable-drains_example = Reachable-drains 1 1 one_waits one_waits_reached
