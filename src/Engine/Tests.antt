-- ===== src/Engine/Tests.antt =====
-- An engine with events that are numbers, of which 13 cannot be written.
use pytest_salt_factories.Base.{
  ℕ, ◌≡◌, refl, Bool, true, false, not, none, some, List, [], ◌∷◌, ◌==◌, nat_eq, any, keep_if,
  arith,
}
use pytest_salt_factories.Engine.{
  Engine, Action, processing, finished, connects, turns, receives, requests_stop, clears, started,
  append, connection_made, cancel, connection_lost, end_task, request_stop, clear_client, forward,
  process_queue, turn, act, run,
}
use pytest_salt_factories.Engine.Flow.{payloads, received, appends, passed, passed-run}
use pytest_salt_factories.Engine.Bounds.{IsBounded, run-IsBounded}
use pytest_salt_factories.Engine.Stuck.{turns_of, waiting, run-request_stop_stuck, run-stop_steps}

program : Unit {0}
unfolding nat_eq any keep_if started append connection_made cancel connection_lost end_task
    request_stop clear_client forward process_queue turn act run payloads received appends turns_of
    waiting
program = tt

abbrev can_write : ℕ → Bool
can_write e = not (e == 13)

abbrev mixed : List (Action ℕ)
mixed =
    connects
    ∷ receives 7
    ∷ turns
    ∷ receives 13
    ∷ receives 8
    ∷ turns
    ∷ turns
    ∷ receives 9
    ∷ requests_stop
    ∷ []

run-mixed : run can_write mixed started ≡ record {
  queue = some 9 ∷ none ∷ [];
  running_event = false;
  client_running_event = true;
  restarts = 1;
  task = processing;
  disconnected = false;
  forwarded = 7 ∷ 8 ∷ [];
}
unfolding program
run-mixed = refl

passed-run_example : passed can_write (run can_write mixed started) ≡ 7 ∷ 8 ∷ 9 ∷ []
unfolding program
passed-run_example = passed-run can_write mixed (ground arith)

run-IsBounded_example : IsBounded (run can_write mixed started)
unfolding program
run-IsBounded_example =
    run-IsBounded can_write mixed started
      record { queue_bound = ground arith; restarts_bound = ground arith }

-- Connected, with one event in the queue.
abbrev busy : Engine ℕ
busy = record {
  queue = some 7 ∷ [];
  running_event = true;
  client_running_event = true;
  restarts = 0;
  task = processing;
  disconnected = false;
  forwarded = [];
}

run-request_stop_stuck_example :
    ((run can_write (requests_stop ∷ turns ∷ turns ∷ []) busy).forwarded ≡ 7 ∷ [])
    × ((run can_write (requests_stop ∷ turns ∷ turns ∷ clears ∷ turns ∷ []) busy).disconnected
        ≡ false)
unfolding program
run-request_stop_stuck_example =
    run-request_stop_stuck can_write (7 ∷ []) (clears ∷ turns ∷ []) busy refl (ground arith) refl
      refl refl (ground arith) refl refl refl

run-stop_steps_holds :
    ((run can_write (requests_stop ∷ clears ∷ turns ∷ []) busy).disconnected ≡ true)
    × ((run can_write (requests_stop ∷ clears ∷ turns ∷ []) busy).task ≡ finished)
    × ((run can_write (requests_stop ∷ clears ∷ turns ∷ []) busy).forwarded ≡ [])
unfolding program
run-stop_steps_holds = run-stop_steps can_write busy refl refl
