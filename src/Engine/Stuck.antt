-- ===== src/Engine/Stuck.antt =====
-- How the engine stops: `stop` waits in `join` until the client is disconnected.
use pytest_salt_factories.Base.{
  ℕ, zero, suc, ◌+◌, ◌≤◌, ◌≡◌, refl, sym, ◌∙◌, ap, subst, Bool, true, false, not, Option, none,
  some, List, [], ◌∷◌, ◌++◌, append-nil, append_assoc, length, arith, any,
}
use pytest_salt_factories.Engine.{
  Engine, processing, finished, Action, connects, loses, turns, receives, requests_stop, clears,
  append, end_task, request_stop, clear_client, forward, process_queue, turn, act, run,
}
use pytest_salt_factories.Engine.Flow.{append_room}

module _ {E : Type 0} where
  -- The steps that a connection takes: it is made once, and the server may close it.
  abbrev pub of_connection : Action E → Bool
  of_connection connects = true
  of_connection loses = true
  of_connection _ = false

  unfoldable pub turns_of : ℕ → List (Action E)
  turns_of zero = []
  turns_of (suc n) = turns ∷ turns_of n

  -- A queue of events.
  unfoldable pub waiting : List E → List (Option E)
  waiting [] = []
  waiting (e ∷ es) = some e ∷ waiting es

  length-waiting : (es : List E) → length (waiting es) ≡ length es
  unfolding waiting
  length-waiting [] = refl
  length-waiting (e ∷ es) = ground (arith, length-waiting es)

  -- `stop`, up to `join`.
  abbrev pub stop_steps : List (Action E)
  stop_steps = requests_stop ∷ clears ∷ []

  module _ (writes : E → Bool) where
    act_finished :
        (a : Action E) (s : Engine E)
        → of_connection a ≡ false
        → s.task ≡ finished
        → ((act writes a s).task ≡ finished) × ((act writes a s).disconnected ≡ s.disconnected)
    unfolding act request_stop clear_client turn
    act_finished connects s calm done = cc
    act_finished loses s calm done = cc
    act_finished turns s calm done =
        let same : turn writes s.task s ≡ s = ap (λ t. turn writes t s) done in
        (ap (λ u. u.task) same ∙ done, ap (λ u. u.disconnected) same)
    act_finished (receives e) s calm done = (done, refl)
    act_finished requests_stop s calm done = ground (arith, done)
    act_finished clears s calm done = (done, refl)

    run_finished :
        (acts : List (Action E)) (s : Engine E)
        → any of_connection acts ≡ false
        → s.task ≡ finished
        → (run writes acts s).disconnected ≡ s.disconnected
    unfolding run any
    run_finished [] s calm done = refl
    run_finished (a ∷ acts) s calm done =
        let after = act_finished a s (ground (arith, calm)) done in
        run_finished acts (act writes a s) (ground (arith, calm)) after.0 ∙ after.1

    run-append :
        (xs ys : List (Action E)) (s : Engine E)
        → run writes (xs ++ ys) s ≡ run writes ys (run writes xs s)
    unfolding run
    run-append [] ys s = refl
    run-append (x ∷ xs) ys s = run-append xs ys (act writes x s)

    act_turns :
        (s : Engine E) (q : List (Option E))
        → s.task ≡ processing
        → s.client_running_event ≡ true
        → s.restarts ≤ 10
        → s.queue ≡ q
        → act writes turns s ≡ forward writes q s
    unfolding act turn process_queue
    act_turns s q working up few same =
        ap (λ t. turn writes t s) working
        ∙ ground (arith, up, few)
        ∙ ap (λ r. forward writes r s) same

    act_event :
        (s : Engine E) (e : E) (q : List (Option E))
        → s.task ≡ processing
        → s.client_running_event ≡ true
        → s.restarts ≤ 10
        → s.queue ≡ some e ∷ q
        → writes e ≡ true
        → act writes turns s ≡ record s { queue = q; forwarded = s.forwarded ++ (e ∷ []) }
    unfolding forward
    act_event s e q working up few same can =
        act_turns s (some e ∷ q) working up few same ∙ ground (arith, can)

    -- What the task has done when it has taken the events `es` and the sentinel.
    abbrev pub IsDrained : Engine E → List E → Engine E → Type 0
    IsDrained s es u =
        (u.task ≡ finished) × (u.disconnected ≡ s.disconnected) × (u.forwarded ≡ s.forwarded ++ es)

    run-turns_of-IsDrained :
        (es : List E) (s : Engine E)
        → any (λ e. not (writes e)) es ≡ false
        → s.task ≡ processing
        → s.client_running_event ≡ true
        → s.restarts ≤ 10
        → s.queue ≡ waiting es ++ (none ∷ [])
        → IsDrained s es (run writes (turns ∷ turns_of (length es)) s)
    unfolding run turns_of forward any waiting
    run-turns_of-IsDrained [] s fine working up few same =
        rw (act_turns s (none ∷ []) working up few same) (refl, refl, sym (append-nil s.forwarded))
    run-turns_of-IsDrained (e ∷ es) s fine working up few same =
        let sent = record s {
          queue = waiting es ++ (none ∷ []);
          forwarded = s.forwarded ++ (e ∷ []);
        } in
        let rest = run-turns_of-IsDrained es sent (ground (arith, fine)) working up few refl in
        subst (λ u. IsDrained s (e ∷ es) (run writes (turns ∷ turns_of (length es)) u))
          (sym
            (act_event s e (waiting es ++ (none ∷ [])) working up few same (ground (arith, fine))))
          (rest.0, rest.1, rest.2 ∙ append_assoc s.forwarded (e ∷ []) es)

    run-request_stop-IsDrained :
        (es : List E) (s : Engine E)
        → any (λ e. not (writes e)) es ≡ false
        → length es + 1 ≤ 1000
        → s.task ≡ processing
        → s.running_event ≡ true
        → s.client_running_event ≡ true
        → s.restarts ≤ 10
        → s.queue ≡ waiting es
        → IsDrained s es (run writes (requests_stop ∷ turns ∷ turns_of (length es)) s)
    unfolding run act request_stop
    run-request_stop-IsDrained es s fine room working runs up few same =
        let asked = record s { running_event = false; queue = append none s.queue } in
        let fits : length s.queue + 1 ≤ 1000 = ground (arith, room, same, length-waiting es) in
        let ends = append_room none s.queue fits ∙ ap (λ q. q ++ (none ∷ [])) same in
        subst (λ u. IsDrained s es (run writes (turns ∷ turns_of (length es)) u))
          (sym (ground (arith, runs))) (run-turns_of-IsDrained es asked fine working up few ends)

    -- Where a task at work, with at most 10 failures, takes the sentinel before `stop` clears the
    -- client's event, and can write all that is in the queue, which has room for the sentinel: it
    -- forwards what was in the queue and ends, but never tells that it is disconnected. Whatever
    -- follows, `join` waits until the server closes the connection.
    pub run-request_stop_stuck :
        (es : List E) (acts : List (Action E)) (s : Engine E)
        → any (λ e. not (writes e)) es ≡ false
        → length es + 1 ≤ 1000
        → s.task ≡ processing
        → s.running_event ≡ true
        → s.client_running_event ≡ true
        → s.restarts ≤ 10
        → s.disconnected ≡ false
        → s.queue ≡ waiting es
        → any of_connection acts ≡ false
        → ((run writes (requests_stop ∷ turns ∷ turns_of (length es)) s).forwarded
            ≡ s.forwarded ++ es)
          × ((run writes (requests_stop ∷ turns ∷ turns_of (length es) ++ acts) s).disconnected
              ≡ false)
    run-request_stop_stuck es acts s fine room working runs up few open_ same calm =
        let steps : List (Action E) = requests_stop ∷ turns ∷ turns_of (length es) in
        let drained = run-request_stop-IsDrained es s fine room working runs up few same in
        (
          drained.2,
          ap (λ u. u.disconnected) (run-append steps acts s)
              ∙ run_finished acts (run writes steps s) calm drained.0
              ∙ drained.1
              ∙ open_,
        )

    -- Where `stop` clears the client's event first, the task's next turn disconnects it and `join` ends;
    -- what waited in the queue is never forwarded.
    pub run-stop_steps :
        (s : Engine E)
        → s.task ≡ processing
        → s.running_event ≡ true
        → ((run writes (stop_steps ++ (turns ∷ [])) s).disconnected ≡ true)
          × ((run writes (stop_steps ++ (turns ∷ [])) s).task ≡ finished)
          × ((run writes (stop_steps ++ (turns ∷ [])) s).forwarded ≡ s.forwarded)
    unfolding run act request_stop clear_client turn process_queue end_task
    run-stop_steps s working runs = ground (arith, working, runs)
