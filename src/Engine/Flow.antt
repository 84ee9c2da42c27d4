-- ===== src/Engine/Flow.antt =====
-- What passes through the queue of the engine.
use pytest_salt_factories.Base.{
  ℕ, ◌+◌, ◌≤◌, ◌≡◌, refl, sym, ◌∙◌, ap, Bool, Option, none, some, List, [], ◌∷◌, ◌++◌, append-nil,
  append_assoc, length, length-append, arith, keep_if, Bool-cases, inl, inr,
}
use pytest_salt_factories.Engine.{
  Engine, Task, unstarted, processing, finished, Action, connects, loses, turns, receives,
  requests_stop, clears, started, append, connection_made, connection_lost, end_task, request_stop,
  clear_client, forward, process_queue, turn, act, run,
}

module _ {E : Type 0} where
  -- The payloads of a queue.
  unfoldable pub payloads : List (Option E) → List E
  payloads [] = []
  payloads (none ∷ q) = payloads q
  payloads (some e ∷ q) = e ∷ payloads q

  -- The events that the bus has, one after the other.
  unfoldable pub received : List (Action E) → List E
  received [] = []
  received (receives e ∷ acts) = e ∷ received acts
  received (connects ∷ acts) = received acts
  received (loses ∷ acts) = received acts
  received (turns ∷ acts) = received acts
  received (requests_stop ∷ acts) = received acts
  received (clears ∷ acts) = received acts

  -- 1 for a step that puts an entry into the queue.
  abbrev pub puts : Action E → ℕ
  puts (receives e) = 1
  puts requests_stop = 1
  puts _ = 0

  unfoldable pub appends : List (Action E) → ℕ
  appends [] = 0
  appends (a ∷ acts) = puts a + appends acts

  payloads-append : (p q : List (Option E)) → payloads (p ++ q) ≡ payloads p ++ payloads q
  unfolding payloads
  payloads-append [] q = refl
  payloads-append (none ∷ p) q = payloads-append p q
  payloads-append (some e ∷ p) q = ap (λ es. e ∷ es) (payloads-append p q)

  keep_if-append :
      (f : E → Bool) (xs ys : List E) → keep_if f (xs ++ ys) ≡ keep_if f xs ++ keep_if f ys
  unfolding keep_if
  keep_if-append f [] ys = refl
  keep_if-append f (x ∷ xs) ys = ground (arith, keep_if-append f xs ys)

  pub append_room :
      (x : Option E) (q : List (Option E)) → length q + 1 ≤ 1000 → append x q ≡ q ++ (x ∷ [])
  unfolding append
  append_room x q room = ground (arith, room)

  module _ (writes : E → Bool) where
    -- What was forwarded, and what of the queue can be written.
    abbrev pub passed : Engine E → List E
    passed s = s.forwarded ++ keep_if writes (payloads s.queue)

    -- What a step brings.
    abbrev pub brings : Action E → List E
    brings (receives e) = e ∷ []
    brings _ = []

    passed-forward :
        (q : List (Option E)) (s : Engine E)
        → s.queue ≡ q
        → passed (forward writes q s) ≡ s.forwarded ++ keep_if writes (payloads q)
    unfolding forward payloads keep_if
    passed-forward [] s same = ap (λ q. s.forwarded ++ keep_if writes (payloads q)) same
    passed-forward (none ∷ q) s same = refl
    passed-forward (some e ∷ q) s same = elim (Bool-cases (writes e)) [
      | inl can ↦ rw can (append_assoc s.forwarded (e ∷ []) (keep_if writes (payloads q)))
      | inr cannot ↦ rw cannot refl
    ]

    passed-process_queue : (s : Engine E) → passed (process_queue writes s) ≡ passed s
    unfolding process_queue end_task
    passed-process_queue s = ground (arith, passed-forward s.queue s refl)

    passed-turn : (t : Task) (s : Engine E) → passed (turn writes t s) ≡ passed s
    unfolding turn
    passed-turn unstarted s = refl
    passed-turn processing s = passed-process_queue s
    passed-turn finished s = refl

    passed-put :
        (x : Option E) (s : Engine E)
        → length s.queue + 1 ≤ 1000
        → s.forwarded ++ keep_if writes (payloads (append x s.queue))
          ≡ passed s ++ keep_if writes (payloads (x ∷ []))
    passed-put x s room =
        rw
          (
            append_room x s.queue room,
            payloads-append s.queue (x ∷ []),
            keep_if-append writes (payloads s.queue) (payloads (x ∷ [])),
          )
          (sym (
            append_assoc s.forwarded (keep_if writes (payloads s.queue))
              (keep_if writes (payloads (x ∷ [])))))

    passed-act :
        (a : Action E) (s : Engine E)
        → length s.queue + puts a ≤ 1000
        → passed (act writes a s) ≡ passed s ++ keep_if writes (brings a)
    unfolding act connection_made connection_lost request_stop clear_client payloads keep_if
    passed-act connects s room = sym (append-nil (passed s))
    passed-act loses s room = elim (Bool-cases s.disconnected) [
      | inl gone ↦ ground (arith, gone, append-nil (passed s))
      | inr stays ↦ ground (arith, stays, append-nil (passed s))
    ]
    passed-act turns s room = passed-turn s.task s ∙ sym (append-nil (passed s))
    passed-act (receives e) s room = passed-put (some e) s room
    passed-act requests_stop s room = elim (Bool-cases s.running_event) [
      | inl runs ↦ ground (arith, runs, passed-put none s room)
      | inr stopped ↦ ground (arith, stopped, append-nil (passed s))
    ]
    passed-act clears s room = sym (append-nil (passed s))

    length-forward :
        (q : List (Option E)) (s : Engine E)
        → length q ≤ length s.queue
        → length (forward writes q s).queue ≤ length s.queue
    unfolding forward
    length-forward [] s le = ground arith
    length-forward (none ∷ q) s le = ground (arith, le)
    length-forward (some e ∷ q) s le = ground (arith, le)

    length-turn : (t : Task) (s : Engine E) → length (turn writes t s).queue ≤ length s.queue
    unfolding turn process_queue end_task
    length-turn unstarted s = ground arith
    length-turn processing s = ground (arith, length-forward s.queue s (ground arith))
    length-turn finished s = ground arith

    length-act :
        (a : Action E) (s : Engine E)
        → length s.queue + puts a ≤ 1000
        → length (act writes a s).queue ≤ length s.queue + puts a
    unfolding act connection_made connection_lost request_stop clear_client
    length-act connects s room = ground arith
    length-act loses s room = ground arith
    length-act turns s room = ground (arith, length-turn s.task s)
    length-act (receives e) s room =
        ground (arith, append_room (some e) s.queue room, length-append s.queue (some e ∷ []))
    length-act requests_stop s room =
        ground (arith, append_room none s.queue room, length-append s.queue (none ∷ []))
    length-act clears s room = ground arith

    received-cons :
        (a : Action E) (acts : List (Action E)) → received (a ∷ acts) ≡ brings a ++ received acts
    unfolding received
    received-cons connects acts = refl
    received-cons loses acts = refl
    received-cons turns acts = refl
    received-cons (receives e) acts = refl
    received-cons requests_stop acts = refl
    received-cons clears acts = refl

    passed-run_from :
        (acts : List (Action E)) (s : Engine E)
        → length s.queue + appends acts ≤ 1000
        → passed (run writes acts s) ≡ passed s ++ keep_if writes (received acts)
    unfolding run appends received keep_if
    passed-run_from [] s room = sym (append-nil (passed s))
    passed-run_from (a ∷ acts) s room =
        let can : length s.queue + puts a ≤ 1000 = ground (arith, room) in
        let small = length-act a s can in
        let rest = keep_if writes (received acts) in
        passed-run_from acts (act writes a s) (ground (arith, room, small))
        ∙ ap (λ es. es ++ rest) (passed-act a s can)
        ∙ append_assoc (passed s) (keep_if writes (brings a)) rest
        ∙ ap (λ es. passed s ++ es)
            (sym (
              ap (keep_if writes) (received-cons a acts)
              ∙ keep_if-append writes (brings a) (received acts)))

    -- In whatever order the two threads take their steps: while at most 1000 entries are put into the
    -- queue, what was forwarded, with what still waits, are the events that the bus had and that can be
    -- written, in the order in which it had them.
    pub passed-run :
        (acts : List (Action E))
        → appends acts ≤ 1000
        → passed (run writes acts started) ≡ keep_if writes (received acts)
    unfolding started payloads keep_if
    passed-run acts room = passed-run_from acts started (ground (arith, room))
