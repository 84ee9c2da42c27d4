-- ===== src/Container/Leak.antt =====
-- After an attempt that its start checks abort, `terminate` does nothing more.
use pytest_salt_factories.Base.{
  ℕ, suc, ◌≡◌, refl, ◌∙◌, ap, subst, Bool, true, false, ◌&&◌, Option, List, [], ◌∷◌, arith, leb,
  Bool-cases, inl, inr,
}
use pytest_salt_factories.Container.{
  Container, Try, Attempt, started, removed, aborted, lost, waiting, poll_loop, Outcome,
  returns_true, not_started, api_error, not_found, outcome_exception, still_running, record_call,
  run_callbacks, end_container, terminate, drop_container, run_attempt, end_started, after_attempt,
  next_attempt, attempts, run_before, finish_start, start_attempts, start_fresh, start,
}
use pytest_salt_factories.Container.Ends.{terminate_done}

leb-zero : (n : ℕ) → leb 0 n ≡ true
leb-zero n = ground arith

module _ {C : Type 0} where
  -- A container that is up, and that `terminate` will not remove.
  abbrev pub IsLeaked : Container C → Type 0
  IsLeaked s = (s.container ≡ true) × (s.terminate_result ≡ true)

  abbrev pub Leaks : Container C × Outcome → Type 0
  Leaks (s, returns_true) = IsLeaked s
  Leaks (s, o) = Unit {0}

  run_attempt-IsLeaked : (s : Container C) → s.terminate_result ≡ true → IsLeaked (run_attempt s)
  unfolding run_attempt record_call
  run_attempt-IsLeaked s h = (refl, h)

  terminate-result : (found : Bool) (s : Container C) → (terminate found s).terminate_result ≡ true
  unfolding terminate end_container
  terminate-result found s = ground arith

  after_attempt-Leaks :
      (found : Bool) (limit current : ℕ) (a : Attempt) (s : Container C)
      (rest : Container C → Container C × Outcome)
      → IsLeaked s
      → ((m : Container C) → m.terminate_result ≡ true → Leaks (rest m))
      → Leaks (after_attempt found limit current a s rest)
  unfolding after_attempt end_started drop_container record_call
  after_attempt-Leaks found limit current started s rest h keep =
      ground (arith, h, terminate_done found s h.1)
  after_attempt-Leaks found limit current removed s rest h keep = keep (drop_container s) h.1
  after_attempt-Leaks found limit current aborted s rest h keep =
      keep (terminate true s)
        (ap (λ (m : Container C). m.terminate_result) (terminate_done true s h.1) ∙ h.1)
  after_attempt-Leaks found limit current lost s rest h keep = tt
  after_attempt-Leaks found limit current waiting s rest h keep = tt

  next_attempt-Leaks :
      (found : Bool) (limit current : ℕ) (more ok : Bool) (a : Attempt) (s : Container C)
      (rest : Container C → Container C × Outcome)
      → s.terminate_result ≡ true
      → ((m : Container C) → m.terminate_result ≡ true → Leaks (rest m))
      → Leaks (next_attempt found limit current more ok a s rest)
  unfolding next_attempt
  next_attempt-Leaks found limit current false ok a s rest h keep = tt
  next_attempt-Leaks found limit current true false a s rest h keep = tt
  next_attempt-Leaks found limit current true true a s rest h keep =
      after_attempt-Leaks found limit (suc current) a (run_attempt s) rest
        (run_attempt-IsLeaked s h) keep

  attempts-Leaks :
      (found : Bool) (limit current : ℕ) (tries : List Try) (s : Container C)
      → s.terminate_result ≡ true
      → Leaks (attempts found limit current tries s)
  unfolding attempts
  attempts-Leaks found limit current [] s h = elim (Bool-cases (leb current limit)) [
    | inl more ↦ rw more tt
    | inr last ↦ rw last tt
  ]
  attempts-Leaks found limit current (t ∷ tries) s h =
      next_attempt-Leaks found limit current (leb current limit) t.runs (poll_loop t.polls) s
        (attempts found limit (suc current) tries) h
        (λ m done. attempts-Leaks found limit (suc current) tries m done)

  attempts-aborted :
      (found : Bool) (limit : ℕ) (t : Try) (tries : List Try) (s : Container C)
      → t.runs ≡ true
      → poll_loop t.polls ≡ aborted
      → Leaks (attempts found limit 0 (t ∷ tries) s)
  unfolding attempts next_attempt after_attempt
  attempts-aborted found limit t tries s runs aborts =
      rw (leb-zero limit, runs, aborts)
        (attempts-Leaks found limit 1 tries (terminate true (run_attempt s))
          (terminate-result true (run_attempt s)))

  finish_start-Leaks :
      (found : Bool) (r : Container C × Outcome) → Leaks r → Leaks (finish_start found r)
  unfolding finish_start run_callbacks
  finish_start-Leaks found (s, returns_true) h = h
  finish_start-Leaks found (s, not_started) h = tt
  finish_start-Leaks found (s, api_error) h = tt
  finish_start-Leaks found (s, not_found) h = tt
  finish_start-Leaks found (s, outcome_exception) h = tt
  finish_start-Leaks found (s, still_running) h = tt

  start_fresh-Leaks :
      (found : Bool) (limit : ℕ) (t : Try) (tries : List Try) (r : Container C × Bool)
      → t.runs ≡ true
      → poll_loop t.polls ≡ aborted
      → Leaks (start_fresh found limit (t ∷ tries) r)
  unfolding start_fresh
  start_fresh-Leaks found limit t tries (s, false) runs aborts = tt
  start_fresh-Leaks found limit t tries (s, true) runs aborts =
      finish_start-Leaks found (attempts found limit 0 (t ∷ tries) s)
        (attempts-aborted found limit t tries s runs aborts)

  Leaks-terminate :
      (found : Bool) (s : Container C) (r : Container C × Outcome)
      → r ≡ (s, returns_true)
      → Leaks r
      → (s.container ≡ true) × (terminate found s ≡ s)
  Leaks-terminate found s (m, returns_true) e h =
      let same : m ≡ s = cc in
      subst (λ (x : Container C). (x.container ≡ true) × (terminate found x ≡ x)) same
        (h.0, terminate_done found m h.1)
  Leaks-terminate found s (m, not_started) e h = cc
  Leaks-terminate found s (m, api_error) e h = cc
  Leaks-terminate found s (m, not_found) e h = cc
  Leaks-terminate found s (m, outcome_exception) e h = cc
  Leaks-terminate found s (m, still_running) e h = cc

  -- If the start checks abort the first attempt of a factory that does not run yet, and a later one
  -- makes `start` return `True`, then the factory has a container that `terminate` does not remove:
  -- it changes nothing.
  pub terminate-start_leaks :
      (raises : C → Bool) (is_up found : Bool) (max_attempts : Option ℕ) (t : Try)
      (tries : List Try) (s s' : Container C)
      → (s.container && is_up) ≡ false
      → t.runs ≡ true
      → poll_loop t.polls ≡ aborted
      → start raises is_up found max_attempts (t ∷ tries) s ≡ (s', returns_true)
      → (s'.container ≡ true) × (terminate found s' ≡ s')
  unfolding start
  terminate-start_leaks raises is_up found max_attempts t tries s s' idle runs aborts h =
      let fresh : Container C = record s { terminate_result = false; at_exit = true } in
      let before = run_before raises s.before_start_callbacks fresh in
      let limit = start_attempts max_attempts s in
      let same : start_fresh found limit (t ∷ tries) before ≡ (s', returns_true) =
        ground (arith, h, idle) in
      Leaks-terminate found s' (start_fresh found limit (t ∷ tries) before) same
        (start_fresh-Leaks found limit t tries before runs aborts)
