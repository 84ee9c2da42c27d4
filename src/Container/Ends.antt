-- ===== src/Container/Ends.antt =====
-- How a start ends when no attempt is aborted.
use pytest_salt_factories.Base.{
  ℕ, suc, ◌+◌, ◌≤◌, ◌≡◌, refl, ◌∙◌, ◌⊎◌, inl, inr, Bool, true, false, ◌&&◌, Option, List, [], ◌∷◌,
  arith, any, leb, leb→le, Bool-cases,
}
use pytest_salt_factories.Container.{
  Container, Try, Attempt, started, removed, aborted, lost, waiting, poll_loop, Outcome,
  returns_true, not_started, api_error, not_found, outcome_exception, still_running, record_call,
  callback, run_callbacks, remove_found, end_container, terminate, drop_container, run_attempt,
  end_started, after_attempt, next_attempt, attempts, run_before, finish_start, start_attempts,
  start_fresh, start,
}
use pytest_salt_factories.Container.Attempts.{
  runs, runs-terminate, runs-run_attempt, runs-drop_container, runs-run_callbacks, runs-run_before,
}

abbrev pub is_aborted : Attempt → Bool
is_aborted aborted = true
is_aborted _ = false

module _ {C : Type 0} where
  -- A container of the factory, which `terminate` will remove.
  abbrev pub IsUp : Container C → Type 0
  IsUp s = (s.container ≡ true) × (s.terminate_result ≡ false)

  -- A factory that is terminated.
  abbrev pub IsDown : Container C → Type 0
  IsDown s = (s.container ≡ false) × (s.terminate_result ≡ true)

  -- With `k` runs before: a start that returns `True` has a container up, unless it took the attempt
  -- after the last; one whose attempts are used up is terminated; and one that raises is not.
  abbrev pub Ends : ℕ → ℕ → Container C × Outcome → Type 0
  Ends k limit (s, returns_true) =
      (IsUp s × (runs s.calls ≤ k + limit)) ⊎ (IsDown s × (runs s.calls ≡ k + suc limit))
  Ends k limit (s, not_started) = IsDown s × (runs s.calls ≡ k + suc limit)
  Ends k limit (s, o) = (s.terminate_result ≡ false) × (runs s.calls ≤ k + suc limit)

  terminate-IsDown :
      (found : Bool) (s : Container C) → s.terminate_result ≡ false → IsDown (terminate found s)
  unfolding terminate end_container remove_found run_callbacks record_call
  terminate-IsDown found s h = ground (arith, h)

  drop_container-result :
      (s : Container C) → (drop_container s).terminate_result ≡ s.terminate_result
  unfolding drop_container record_call
  drop_container-result s = refl

  run_attempt-IsUp : (s : Container C) → s.terminate_result ≡ false → IsUp (run_attempt s)
  unfolding run_attempt record_call
  run_attempt-IsUp s h = (refl, h)

  after_attempt-Ends :
      (found : Bool) (k limit current : ℕ) (a : Attempt) (s : Container C)
      (rest : Container C → Container C × Outcome)
      → is_aborted a ≡ false
      → IsUp s
      → runs s.calls ≡ k + current
      → current ≤ suc limit
      → ((m : Container C)
          → m.terminate_result ≡ false
          → runs m.calls ≡ k + current
          → Ends k limit (rest m))
      → Ends k limit (after_attempt found limit current a s rest)
  unfolding after_attempt end_started
  after_attempt-Ends found k limit current started s rest no_abort up h le keep =
      elim (Bool-cases (leb current limit)) [
        | inl more ↦ rw more (inl (up, ground (arith, more, h)))
        | inr last ↦ rw last (
            inr
              (terminate-IsDown found s up.1, ground (arith, last, h, le, runs-terminate found s)))
      ]
  after_attempt-Ends found k limit current removed s rest no_abort up h le keep =
      keep (drop_container s) (drop_container-result s ∙ up.1) (runs-drop_container s ∙ h)
  after_attempt-Ends found k limit current aborted s rest no_abort up h le keep = cc
  after_attempt-Ends found k limit current lost s rest no_abort up h le keep =
      (up.1, omega (arith, h, le))
  after_attempt-Ends found k limit current waiting s rest no_abort up h le keep =
      (up.1, omega (arith, h, le))

  next_attempt-Ends :
      (found : Bool) (k limit current : ℕ) (more ok : Bool) (a : Attempt) (s : Container C)
      (rest : Container C → Container C × Outcome)
      → is_aborted a ≡ false
      → s.terminate_result ≡ false
      → runs s.calls ≡ k + current
      → current ≤ suc limit
      → leb current limit ≡ more
      → ((m : Container C)
          → m.terminate_result ≡ false
          → runs m.calls ≡ k + suc current
          → suc current ≤ suc limit
          → Ends k limit (rest m))
      → Ends k limit (next_attempt found limit current more ok a s rest)
  unfolding next_attempt
  next_attempt-Ends found k limit current false ok a s rest no_abort fresh h le e keep =
      (terminate-IsDown found s fresh, ground (arith, e, h, le, runs-terminate found s))
  next_attempt-Ends found k limit current true false a s rest no_abort fresh h le e keep =
      (fresh, omega (arith, h, le))
  next_attempt-Ends found k limit current true true a s rest no_abort fresh h le e keep =
      let room : current ≤ limit = leb→le current limit e in
      after_attempt-Ends found k limit (suc current) a (run_attempt s) rest no_abort
        (run_attempt-IsUp s fresh) (omega (arith, runs-run_attempt s, h)) (omega arith)
        (λ m result same. keep m result same (omega arith))

  attempts-Ends :
      (found : Bool) (k limit current : ℕ) (tries : List Try) (s : Container C)
      → any (λ t. is_aborted (poll_loop t.polls)) tries ≡ false
      → s.terminate_result ≡ false
      → runs s.calls ≡ k + current
      → current ≤ suc limit
      → Ends k limit (attempts found limit current tries s)
  unfolding attempts any
  attempts-Ends found k limit current [] s no_abort fresh h le =
      elim (Bool-cases (leb current limit)) [
        | inl more ↦ rw more (fresh, omega (arith, h, le))
        | inr last ↦
            rw last
              (terminate-IsDown found s fresh, ground (arith, last, h, le, runs-terminate found s))
      ]
  attempts-Ends found k limit current (t ∷ tries) s no_abort fresh h le =
      next_attempt-Ends found k limit current (leb current limit) t.runs (poll_loop t.polls) s
        (attempts found limit (suc current) tries) (ground (arith, no_abort)) fresh h le refl
        (λ m result same room.
          attempts-Ends found k limit (suc current) tries m (ground (arith, no_abort)) result same
            room)

  run_callbacks-Ends :
      (k limit : ℕ) (cs : List C) (s : Container C)
      → Ends k limit (s, returns_true)
      → Ends k limit (run_callbacks cs s, returns_true)
  unfolding run_callbacks
  run_callbacks-Ends k limit cs s h = ground (arith, h, runs-run_callbacks cs s)

  pub terminate_done :
      (found : Bool) (s : Container C) → s.terminate_result ≡ true → terminate found s ≡ s
  unfolding terminate
  terminate_done found s h = ground (arith, h)

  finish_start-Ends :
      (found : Bool) (k limit : ℕ) (r : Container C × Outcome)
      → Ends k limit r
      → Ends k limit (finish_start found r)
  unfolding finish_start
  finish_start-Ends found k limit (s, returns_true) h =
      run_callbacks-Ends k limit s.after_start_callbacks s h
  finish_start-Ends found k limit (s, not_started) (down, count) =
      rw (terminate_done found s down.1) (down, count)
  finish_start-Ends found k limit (s, api_error) h = h
  finish_start-Ends found k limit (s, not_found) h = h
  finish_start-Ends found k limit (s, outcome_exception) h = h
  finish_start-Ends found k limit (s, still_running) h = h

  called-result :
      (c : C) (s : Container C) → (record_call (callback c) s).terminate_result ≡ s.terminate_result
  unfolding record_call
  called-result c s = refl

  pub run_before-result :
      (raises : C → Bool) (cs : List C) (s : Container C)
      → (run_before raises cs s).0.terminate_result ≡ s.terminate_result
  unfolding run_before
  run_before-result raises [] s = refl
  run_before-result raises (c ∷ cs) s =
      let called = record_call (callback c) s in
      let same = called-result c s in
      elim (Bool-cases (raises c)) [
        | inl stop ↦ rw stop same
        | inr next ↦ rw next (run_before-result raises cs called ∙ same)
      ]

  start_fresh-Ends :
      (found : Bool) (k limit : ℕ) (tries : List Try) (r : Container C × Bool)
      → any (λ t. is_aborted (poll_loop t.polls)) tries ≡ false
      → r.0.terminate_result ≡ false
      → runs r.0.calls ≡ k
      → Ends k limit (start_fresh found limit tries r)
  unfolding start_fresh
  start_fresh-Ends found k limit tries (s, false) no_abort fresh h = (fresh, omega (arith, h))
  start_fresh-Ends found k limit tries (s, true) no_abort fresh h =
      finish_start-Ends found k limit (attempts found limit 0 tries s)
        (attempts-Ends found k limit 0 tries s no_abort fresh (omega (arith, h)) (omega arith))

  -- Where the factory does not run yet and no attempt is aborted by its start checks: a start that
  -- returns `True` leaves a container up, which `terminate` will remove, after at most
  -- `max_start_attempts` runs; but a start by one run more leaves the factory terminated, and returns
  -- `True` all the same. A start that fails since its attempts are used up leaves the factory terminated,
  -- after just as many runs. One that raises an exception (an API error, a `NotFound`, or that of a
  -- callback), or that is still polling, leaves it not terminated, after at most that many runs.
  pub start-Ends :
      (raises : C → Bool) (is_up found : Bool) (max_attempts : Option ℕ) (tries : List Try)
      (s : Container C)
      → (s.container && is_up) ≡ false
      → any (λ t. is_aborted (poll_loop t.polls)) tries ≡ false
      → Ends
          (runs s.calls)
          (start_attempts max_attempts s)
          (start raises is_up found max_attempts tries s)
  unfolding start
  start-Ends raises is_up found max_attempts tries s idle no_abort =
      let fresh : Container C = record s { terminate_result = false; at_exit = true } in
      rw idle (
        start_fresh-Ends found (runs s.calls) (start_attempts max_attempts s) tries
          (run_before raises s.before_start_callbacks fresh) no_abort
          (run_before-result raises s.before_start_callbacks fresh)
          (runs-run_before raises s.before_start_callbacks fresh))
