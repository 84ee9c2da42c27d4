-- ===== src/Container.antt =====
-- `Container` of src/saltfactories/daemons/container.py. Docker, the clock and what the start checks
-- say enter as the polls of each attempt; what the factory does to docker, and the callbacks that it
-- runs, are recorded in `calls`. An `Exception` of a callback is only logged. `raises` tells which of
-- the callbacks before a start raise `pytest.fail` or `pytest.skip`, which are no `Exception`s; the
-- other callbacks do not.
pub mod Ports
pub mod Checks
pub mod Attempts
pub mod Ends
pub mod Leak
pub mod Salt
mod Tests
use pytest_salt_factories.Base.{
  ℕ, zero, suc, Bool, true, false, not, ◌&&◌, Option, none, some, List, [], ◌∷◌, ◌++◌, map,
  if◌then◌else◌, leb,
}

pub data Call (C : Type 0) : Type 0 where
  run_container remove_container : Call C
  callback : C → Call C

-- `container` and `terminate_result`: that the attribute is not `None`. `at_exit`: that `terminate`
-- is registered with `atexit`.
pub record Container (C : Type 0) : Type 0 where
  pub container : Bool
  pub terminate_result : Bool
  pub at_exit : Bool
  pub max_start_attempts : ℕ
  pub before_start_callbacks : List C
  pub after_start_callbacks : List C
  pub before_terminate_callbacks : List C
  pub after_terminate_callbacks : List C
  pub calls : List (Call C)

-- The status that docker gives (`missing`: `containers.get` raises `NotFound`), and what `run_container_start_checks` does.
pub data Status : Type 0 where
  exited running other missing : Status

pub data StartChecks : Type 0 where
  passed failed factory_not_started : StartChecks

-- A round of the inner loop of `start`: whether its time is over, and what it finds.
pub record Poll : Type 0 where
  pub late : Bool
  pub status : Status
  pub checks : StartChecks

-- How an attempt ends. `removed`: the container is removed, after its exit or when the time is over;
-- `aborted`: a start check found that it no longer runs; `waiting`: it still goes on.
pub data Attempt : Type 0 where
  started removed aborted lost waiting : Attempt

-- What a round with a status does; `rest` is what the next rounds do.
unfoldable pub poll_status : Status → StartChecks → Attempt → Attempt
poll_status exited checks rest = removed
poll_status other checks rest = rest
poll_status missing checks rest = lost
poll_status running passed rest = started
poll_status running failed rest = rest
poll_status running factory_not_started rest = aborted

-- `while time.time() <= start_running_timeout`
unfoldable pub poll_loop : List Poll → Attempt
poll_loop [] = waiting
poll_loop (p ∷ polls) =
    let rest = poll_loop polls in if p.late then removed else poll_status p.status p.checks rest

-- The result of `start`, or the exception that it raises.
pub data Outcome : Type 0 where
  returns_true not_started api_error not_found outcome_exception still_running : Outcome

-- One attempt: whether `containers.run` succeeds, and the rounds after it.
pub record Try : Type 0 where
  pub runs : Bool
  pub polls : List Poll

unfoldable pub is_true : Outcome → Bool
is_true returns_true = true
is_true o = false

module _ {C : Type 0} where
  unfoldable pub record_call : Call C → Container C → Container C
  record_call call s = record s { calls = s.calls ++ (call ∷ []) }

  unfoldable pub run_callbacks : List C → Container C → Container C
  run_callbacks callbacks s = record s { calls = s.calls ++ map callback callbacks }

  -- The container that `terminate` removes: the factory's own, or the one that docker finds.
  unfoldable pub remove_found : Bool → Container C → Container C
  remove_found found s =
      let s' = record s { container = false } in
      if found then record_call remove_container s' else s'

  -- `terminate`, once: the callbacks, and the container.
  unfoldable pub end_container : Bool → Container C → Container C
  end_container found s =
      let before = run_callbacks s.before_terminate_callbacks (record s { at_exit = false }) in
      let gone = remove_found (if s.container then true else found) before in
      let after = run_callbacks s.after_terminate_callbacks gone in
      record after { terminate_result = true }

  -- `terminate`; `found` tells if docker has a container of the name.
  unfoldable pub terminate : Bool → Container C → Container C
  terminate found s = if s.terminate_result then s else end_container found s

  -- A container that exited or took too long is removed.
  unfoldable pub drop_container : Container C → Container C
  drop_container s = record_call remove_container (record s { container = false })

  -- `containers.run`
  unfoldable pub run_attempt : Container C → Container C
  run_attempt s = record_call run_container (record s { container = true })

  -- A start in the attempt with the number `current`: unless the outer loop has an attempt left, its
  -- `else` runs.
  unfoldable pub end_started : Bool → ℕ → ℕ → Container C → Container C
  end_started found limit current s = if leb current limit then s else terminate found s

  -- After an attempt; `rest` is what the next attempts do from the state that it leaves.
  unfoldable pub after_attempt :
      Bool
      → ℕ
      → ℕ
      → Attempt
      → Container C
      → (Container C → Container C × Outcome)
      → Container C × Outcome
  after_attempt found limit current started s rest =
      (end_started found limit current s, returns_true)
  after_attempt found limit current removed s rest = rest (drop_container s)
  after_attempt found limit current aborted s rest = rest (terminate true s)
  after_attempt found limit current lost s rest = (s, not_found)
  after_attempt found limit current waiting s rest = (s, still_running)

  -- A round of the outer loop: whether it has an attempt left, and whether `containers.run` succeeds.
  unfoldable pub next_attempt :
      Bool
      → ℕ
      → ℕ
      → Bool
      → Bool
      → Attempt
      → Container C
      → (Container C → Container C × Outcome)
      → Container C × Outcome
  next_attempt found limit current false ok a s rest = (terminate found s, not_started)
  next_attempt found limit current true false a s rest = (s, api_error)
  next_attempt found limit current true true a s rest =
      after_attempt found limit (suc current) a (run_attempt s) rest

  -- `while current_attempt <= start_attempts`, with its `else`
  unfoldable pub attempts : Bool → ℕ → ℕ → List Try → Container C → Container C × Outcome
  attempts found limit current [] s =
      if leb current limit then (s, still_running) else (terminate found s, not_started)
  attempts found limit current (t ∷ tries) s =
      next_attempt found limit current (leb current limit) t.runs (poll_loop t.polls) s
        (attempts found limit (suc current) tries)

  -- The callbacks before a start, up to the first that raises.
  unfoldable pub run_before : (C → Bool) → List C → Container C → Container C × Bool
  run_before raises [] s = (s, true)
  run_before raises (c ∷ callbacks) s =
      let called = record_call (callback c) s in
      let rest = run_before raises callbacks called in if raises c then (called, false) else rest

  -- The end of `start`.
  unfoldable pub finish_start : Bool → Container C × Outcome → Container C × Outcome
  finish_start found (s, returns_true) = (run_callbacks s.after_start_callbacks s, returns_true)
  finish_start found (s, not_started) = (terminate found s, not_started)
  finish_start found (s, o) = (s, o)

  -- `max_start_attempts or self.max_start_attempts`
  unfoldable pub start_attempts : Option ℕ → Container C → ℕ
  start_attempts none s = s.max_start_attempts
  start_attempts (some zero) s = s.max_start_attempts
  start_attempts (some (suc n)) s = suc n

  unfoldable pub start_fresh : Bool → ℕ → List Try → Container C × Bool → Container C × Outcome
  start_fresh found limit tries (s, false) = (s, outcome_exception)
  start_fresh found limit tries (s, true) = finish_start found (attempts found limit 0 tries s)

  -- `start(max_start_attempts=…)`; `is_up` is the status at the call, and `found` tells if docker has
  -- a container of the name when `terminate` looks for one.
  unfoldable pub start :
      (C → Bool) → Bool → Bool → Option ℕ → List Try → Container C → Container C × Outcome
  start raises is_up found max_attempts tries s =
      if s.container && is_up
      then (s, returns_true)
      else start_fresh found (start_attempts max_attempts s) tries (
          run_before raises s.before_start_callbacks
            (record s { terminate_result = false; at_exit = true }))

  -- `started()` as a context manager: `terminate` runs whatever `start` and the block do.
  unfoldable pub started_block :
      (C → Bool)
      → Bool
      → Bool
      → Option ℕ
      → List Try
      → (Container C → Container C)
      → Container C
      → Container C × Outcome
  started_block raises is_up found max_attempts tries body s =
      let (s', o) = start raises is_up found max_attempts tries s in
      (terminate found (if is_true o then body s' else s'), o)
