-- ===== src/LogHandler/Laws.antt =====
-- The states that a handler can be in.
use pytest_salt_factories.Base.{
  ℕ, ◌≡◌, refl, ◌⊎◌, inl, inr, true, false, List, [], ◌∷◌, nat_eq, arith, Bool-cases,
}
use pytest_salt_factories.LogHandler.{
  ZmqHandler, Process, Emission, is_pid, new_handler, stop, stop_for_retry, connect_socket, connect,
  start_here, start, emit_with, emit, close, emits,
}
use pytest_salt_factories.LogHandler.Coherent.{
  IsCoherent, IsOpen, stop-IsCoherent, start-IsCoherent, emit-IsCoherent, close-IsCoherent,
  new_handler-IsCoherent,
}

module _ {M : Type 0} where
  -- What can happen to a handler, in any process.
  pub data Step : ZmqHandler M → ZmqHandler M → Type 0 where
    starts : (process : Process) (h : ZmqHandler M) → Step h (start process h)
    emits_record :
        (process : Process) (x : Emission M) (h : ZmqHandler M) → Step h (emit process x h)
    stops : (h : ZmqHandler M) → Step h (stop h)
    closes : (h : ZmqHandler M) → Step h (close h)

  pub data Reach (h : ZmqHandler M) : ZmqHandler M → Type 0 where
    here : Reach h h
    next : {m n : ZmqHandler M} → Reach h m → Step m n → Reach h n

  Step-IsCoherent : {m n : ZmqHandler M} → Step m n → IsCoherent m → IsCoherent n
  Step-IsCoherent (starts process h) good = start-IsCoherent process h good
  Step-IsCoherent (emits_record process x h) good = emit-IsCoherent process x h good
  Step-IsCoherent (stops h) good = stop-IsCoherent h good
  Step-IsCoherent (closes h) good = close-IsCoherent h good

  Reach-IsCoherent : {h m : ZmqHandler M} → Reach h m → IsCoherent h → IsCoherent m
  Reach-IsCoherent here good = good
  Reach-IsCoherent (next r s) good = Step-IsCoherent s (Reach-IsCoherent r good)

  -- A handler has its socket and its context together, a stopped one has neither, and one that has
  -- them knows a process as its own: whatever calls are made from a new handler, in whatever
  -- processes.
  pub Reach-new_IsCoherent : (me : ℕ) {h : ZmqHandler M} → Reach (new_handler me) h → IsCoherent h
  Reach-new_IsCoherent me r = Reach-IsCoherent r (new_handler-IsCoherent me)

  emit_exiting :
      (process : Process) (x : Emission M) (h : ZmqHandler M)
      → h.exiting ≡ true
      → emit process x h ≡ h
  unfolding emit emit_with
  emit_exiting process x h e = ground (arith, e)

  close-exiting : (h : ZmqHandler M) → (close h).exiting ≡ true
  unfolding close
  close-exiting h = refl

  -- A closed handler takes no record any more, in whatever processes they are emitted, and starts no
  -- socket for them.
  pub emits-close :
      (xs : List (Process × Emission M)) (h : ZmqHandler M) → emits xs (close h) ≡ close h
  unfolding emits
  emits-close [] h = refl
  emits-close ((process, x) ∷ xs) h =
      rw (emit_exiting process x (close h) (close-exiting h)) (emits-close xs h)

  owned-awake :
      (process : Process) (h : ZmqHandler M)
      → IsCoherent h
      → is_pid process.getpid h.pid ≡ true
      → h.exiting ≡ false
  unfolding is_pid
  owned-awake process h good mine = ground (arith, good, mine)

  stop_for_retry-idle : (h : ZmqHandler M) → IsCoherent h → (stop_for_retry h).pusher ≡ false
  unfolding stop_for_retry stop
  stop_for_retry-idle h good = ground (arith, good)

  start_here-IsOpen :
      (process : Process) (h : ZmqHandler M)
      → h.exiting ≡ false
      → (h.pusher ≡ false) ⊎ (is_pid process.getpid h.pid ≡ true)
      → process.context_ok ≡ true
      → process.socket_ok ≡ true
      → IsOpen process (start_here process h)
  unfolding start_here connect connect_socket is_pid
  start_here-IsOpen process h awake own c s = ground (arith, awake, own, c, s)

  -- Where ZMQ works, `start` connects a handler, in the process that calls it: whatever calls were
  -- made before, in whatever processes, `close` included.
  pub start-IsOpen :
      (me : ℕ) {h : ZmqHandler M} (process : Process)
      → Reach (new_handler me) h
      → process.context_ok ≡ true
      → process.socket_ok ≡ true
      → IsOpen process (start process h)
  unfolding start stop_for_retry
  start-IsOpen me {h} process r c s =
      let good = Reach-new_IsCoherent me r in
      elim (Bool-cases (is_pid process.getpid h.pid)) [
        | inl mine ↦
            rw mine (start_here-IsOpen process h (owned-awake process h good mine) (inr mine) c s)
        | inr other ↦ rw other (
            start_here-IsOpen process (stop_for_retry h) refl (inl (stop_for_retry-idle h good)) c
              s)
      ]
