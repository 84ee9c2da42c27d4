-- ===== src/Engine/Bounds.antt =====
-- What bounds the queue of the engine, and the failures of its task.
use pytest_salt_factories.Base.{
  ◌≤◌, Bool, not, ◌||◌, Option, none, some, List, [], ◌∷◌, length, length-append, ltb, arith,
  Bool-cases, inl, inr,
}
use pytest_salt_factories.Engine.{
  Engine, Task, unstarted, processing, finished, Action, connects, loses, turns, receives,
  requests_stop, clears, append, connection_made, connection_lost, end_task, request_stop,
  clear_client, forward, process_queue, turn, act, run,
}

module _ {E : Type 0} where
  length-append_within :
      (x : Option E) (q : List (Option E)) → length q ≤ 1000 → length (append x q) ≤ 1000
  unfolding append
  length-append_within x [] within = ground (arith)
  length-append_within x (y ∷ q) within =
      ground (arith, within, length-append (y ∷ q) (x ∷ []), length-append q (x ∷ []))

  -- At most 1000 entries wait, and at most 11 payloads have failed.
  pub record IsBounded (s : Engine E) : Type 0 where
    pub queue_bound : length s.queue ≤ 1000
    pub restarts_bound : s.restarts ≤ 11

  module _ (writes : E → Bool) where
    forward-IsBounded :
        (q : List (Option E)) (s : Engine E)
        → length q ≤ 1000
        → s.restarts ≤ 10
        → IsBounded s
        → IsBounded (forward writes q s)
    unfolding forward
    forward-IsBounded [] s within few good = good
    forward-IsBounded (none ∷ q) s within few good = ground (arith, within, few)
    forward-IsBounded (some e ∷ q) s within few good = ground (arith, within, few)

    process_queue-IsBounded : (s : Engine E) → IsBounded s → IsBounded (process_queue writes s)
    unfolding process_queue end_task
    process_queue-IsBounded s good =
        elim (Bool-cases (ltb 10 s.restarts || not s.client_running_event)) [
          | inl over ↦
              rw over
                record { queue_bound = good.queue_bound; restarts_bound = good.restarts_bound }
          | inr goes ↦
              rw goes (forward-IsBounded s.queue s good.queue_bound (ground (arith, goes)) good)
        ]

    turn-IsBounded : (t : Task) (s : Engine E) → IsBounded s → IsBounded (turn writes t s)
    unfolding turn
    turn-IsBounded unstarted s good = good
    turn-IsBounded processing s good = process_queue-IsBounded s good
    turn-IsBounded finished s good = good

    act-IsBounded : (a : Action E) (s : Engine E) → IsBounded s → IsBounded (act writes a s)
    unfolding act connection_made connection_lost request_stop clear_client
    act-IsBounded connects s good = record {
      queue_bound = good.queue_bound;
      restarts_bound = ground arith;
    }
    act-IsBounded loses s good = ground (arith, good)
    act-IsBounded turns s good = turn-IsBounded s.task s good
    act-IsBounded (receives e) s good = record {
      queue_bound = length-append_within (some e) s.queue good.queue_bound;
      restarts_bound = good.restarts_bound;
    }
    act-IsBounded requests_stop s good =
        ground (arith, good, length-append_within none s.queue good.queue_bound)
    act-IsBounded clears s good = record {
      queue_bound = good.queue_bound;
      restarts_bound = good.restarts_bound;
    }

    -- From a state within these bounds, as is that of a start, and in whatever order the two threads
    -- take their steps: the queue never has more than 1000 entries, and the task goes on after at
    -- most 10 failures, so that never more than 11 are counted.
    pub run-IsBounded :
        (acts : List (Action E)) (s : Engine E) → IsBounded s → IsBounded (run writes acts s)
    unfolding run
    run-IsBounded [] s good = good
    run-IsBounded (a ∷ acts) s good = run-IsBounded acts (act writes a s) (act-IsBounded a s good)
