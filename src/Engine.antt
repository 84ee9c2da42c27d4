-- ===== src/Engine.antt =====
-- The engine that forwards events, src/saltfactories/utils/saltext/engines/pytest_engine.py: the queue
-- between the thread that reads the event bus and the task of the client, as one state and the steps of
-- the two. `forwarded` is what the transport was given. Whether a payload can be packed and written
-- is a parameter.
pub mod Flow
pub mod Bounds
pub mod Stuck
pub mod Setup
mod Tests
use pytest_salt_factories.Base.{
  ℕ, ◌+◌, Bool, true, false, not, ◌||◌, Option, none, some, List, [], ◌∷◌, ◌++◌, length, drop, ltb,
  if◌then◌else◌,
}

pub data Task : Type 0 where
  unstarted processing finished : Task

-- `PyTestEventForwardEngine` and its client. `disconnected`: that the future of that name has a result.
pub record Engine (E : Type 0) : Type 0 where
  pub queue : List (Option E)
  pub running_event : Bool
  pub client_running_event : Bool
  pub restarts : ℕ
  pub task : Task
  pub disconnected : Bool
  pub forwarded : List E

-- A step: the connection is made or lost, the task goes once round its loop, the bus has an event, or
-- one of the two halves of `stop` is done.
pub data Action (E : Type 0) : Type 0 where
  connects loses turns : Action E
  receives : E → Action E
  requests_stop clears : Action E

unfoldable pub cancel : Task → Task
cancel unstarted = unstarted
cancel processing = finished
cancel finished = finished

module _ {E : Type 0} where
  -- `start`, up to its first wait.
  unfoldable pub started : Engine E
  started = record {
    queue = [];
    running_event = true;
    client_running_event = false;
    restarts = 0;
    task = unstarted;
    disconnected = false;
    forwarded = [];
  }

  -- `deque(maxlen=1000).append`: a full deque loses its first entry.
  unfoldable pub append : Option E → List (Option E) → List (Option E)
  append x q = if ltb (length q) 1000 then q ++ (x ∷ []) else drop 1 q ++ (x ∷ [])

  -- `connection_made`, with the statements of the task before its loop.
  unfoldable pub connection_made : Engine E → Engine E
  connection_made s = record s { client_running_event = true; restarts = 0; task = processing }

  -- `connection_lost`. A second result of the future is an exception before the task is cancelled.
  unfoldable pub connection_lost : Engine E → Engine E
  connection_lost s =
      if s.disconnected then s else record s { disconnected = true; task = cancel s.task }

  unfoldable pub end_task : Engine E → Engine E
  end_task s = record s { disconnected = true; task = finished }

  -- The first half of `stop`: the event is cleared and the sentinel is queued.
  unfoldable pub request_stop : Engine E → Engine E
  request_stop s =
      if s.running_event then record s { running_event = false; queue = append none s.queue } else s

  -- The second half, up to `join`, which waits for `disconnected`.
  unfoldable pub clear_client : Engine E → Engine E
  clear_client s = record s { client_running_event = false }

  module _ (writes : E → Bool) where
    -- The body of the loop: `None` ends the task, and a payload that fails counts as a restart.
    unfoldable pub forward : List (Option E) → Engine E → Engine E
    forward [] s = s
    forward (none ∷ q) s = record s { queue = q; task = finished }
    forward (some e ∷ q) s =
        if writes e
        then record s { queue = q; forwarded = s.forwarded ++ (e ∷ []) }
        else record s { queue = q; restarts = s.restarts + 1 }

    -- Once round the loop of `_process_queue`.
    unfoldable pub process_queue : Engine E → Engine E
    process_queue s =
        if ltb 10 s.restarts || not s.client_running_event then end_task s else forward s.queue s

    unfoldable pub turn : Task → Engine E → Engine E
    turn unstarted s = s
    turn processing s = process_queue s
    turn finished s = s

    unfoldable pub act : Action E → Engine E → Engine E
    act connects s = connection_made s
    act loses s = connection_lost s
    act turns s = turn s.task s
    act (receives e) s = record s { queue = append (some e) s.queue }
    act requests_stop s = request_stop s
    act clears s = clear_client s

    unfoldable pub run : List (Action E) → Engine E → Engine E
    run [] s = s
    run (a ∷ acts) s = run acts (act a s)
