-- ===== src/Container/Attempts.antt =====
-- How often `start` runs a container, and what a start leaves.
use pytest_salt_factories.Base.{
  ℕ, suc, ◌+◌, ◌-◌, ◌≤◌, ◌≡◌, refl, ◌∙◌, inl, inr, Bool, true, false, Option, List, [], ◌∷◌, ◌++◌,
  map, arith, if◌then◌else◌, leb, leb→le, Bool-cases,
}
use pytest_salt_factories.Container.{
  Call, run_container, remove_container, callback, Container, Try, Attempt, started, removed,
  aborted, lost, waiting, poll_loop, Outcome, returns_true, not_started, api_error, not_found,
  outcome_exception, still_running, record_call, run_callbacks, remove_found, end_container,
  terminate, drop_container, run_attempt, end_started, after_attempt, next_attempt, attempts,
  run_before, finish_start, start_attempts, start_fresh, start,
}

module _ {C : Type 0} where
  -- How many containers were run.
  abbrev pub runs : List (Call C) → ℕ
  runs [] = 0
  runs (run_container ∷ calls) = suc (runs calls)
  runs (remove_container ∷ calls) = runs calls
  runs (callback c ∷ calls) = runs calls

  runs-append : (xs ys : List (Call C)) → runs (xs ++ ys) ≡ runs xs + runs ys
  runs-append [] ys = omega arith
  runs-append (run_container ∷ xs) ys = omega (arith, runs-append xs ys)
  runs-append (remove_container ∷ xs) ys = runs-append xs ys
  runs-append (callback c ∷ xs) ys = runs-append xs ys

  runs-callbacks : (cs : List C) → runs (map callback cs) ≡ 0
  runs-callbacks [] = refl
  runs-callbacks (c ∷ cs) = runs-callbacks cs

  pub runs-run_callbacks :
      (cs : List C) (s : Container C) → runs (run_callbacks cs s).calls ≡ runs s.calls
  unfolding run_callbacks
  runs-run_callbacks cs s = omega (arith, runs-append s.calls (map callback cs), runs-callbacks cs)

  runs-remove_found :
      (found : Bool) (s : Container C) → runs (remove_found found s).calls ≡ runs s.calls
  unfolding remove_found record_call
  runs-remove_found true s = omega (arith, runs-append s.calls (remove_container ∷ []))
  runs-remove_found false s = refl

  runs-end_container :
      (found : Bool) (s : Container C) → runs (end_container found s).calls ≡ runs s.calls
  unfolding end_container
  runs-end_container found s =
      let before = run_callbacks s.before_terminate_callbacks (record s { at_exit = false }) in
      let gone = remove_found (if s.container then true else found) before in
      runs-run_callbacks s.after_terminate_callbacks gone
      ∙ runs-remove_found (if s.container then true else found) before
      ∙ runs-run_callbacks s.before_terminate_callbacks (record s { at_exit = false })

  pub runs-terminate :
      (found : Bool) (s : Container C) → runs (terminate found s).calls ≡ runs s.calls
  unfolding terminate
  runs-terminate found s = ground (arith, runs-end_container found s)

  pub runs-run_attempt : (s : Container C) → runs (run_attempt s).calls ≡ runs s.calls + 1
  unfolding run_attempt record_call
  runs-run_attempt s = omega (arith, runs-append s.calls (run_container ∷ []))

  pub runs-drop_container : (s : Container C) → runs (drop_container s).calls ≡ runs s.calls
  unfolding drop_container record_call
  runs-drop_container s = omega (arith, runs-append s.calls (remove_container ∷ []))

  runs-after_attempt :
      (found : Bool) (limit current n k : ℕ) (a : Attempt) (s : Container C)
      (rest : Container C → Container C × Outcome)
      → runs s.calls ≤ k
      → k ≤ n
      → ((m : Container C) → runs m.calls ≤ k → runs (rest m).0.calls ≤ n)
      → runs (after_attempt found limit current a s rest).0.calls ≤ n
  unfolding after_attempt end_started
  runs-after_attempt found limit current n k started s rest h le keep =
      elim (Bool-cases (leb current limit)) [
        | inl more ↦ rw more (omega arith)
        | inr last ↦ rw last (omega (arith, runs-terminate found s))
      ]
  runs-after_attempt found limit current n k removed s rest h le keep =
      keep (drop_container s) (omega (arith, runs-drop_container s))
  runs-after_attempt found limit current n k aborted s rest h le keep =
      keep (terminate true s) (omega (arith, runs-terminate true s))
  runs-after_attempt found limit current n k lost s rest h le keep = omega arith
  runs-after_attempt found limit current n k waiting s rest h le keep = omega arith

  runs-next_attempt :
      (found : Bool) (limit current k : ℕ) (more ok : Bool) (a : Attempt) (s : Container C)
      (rest : Container C → Container C × Outcome)
      → leb current limit ≡ more
      → runs s.calls ≤ k
      → ((m : Container C)
          → runs m.calls ≤ k + 1
          → runs (rest m).0.calls ≤ k + 1 + (suc limit - suc current))
      → runs (next_attempt found limit current more ok a s rest).0.calls ≤ k + (suc limit - current)
  unfolding next_attempt
  runs-next_attempt found limit current k false ok a s rest e h keep =
      omega (arith, runs-terminate found s)
  runs-next_attempt found limit current k true false a s rest e h keep = omega arith
  runs-next_attempt found limit current k true true a s rest e h keep =
      let room : current ≤ limit = leb→le current limit e in
      runs-after_attempt found limit (suc current) (k + (suc limit - current)) (k + 1) a
        (run_attempt s) rest (omega (arith, runs-run_attempt s)) (omega arith)
        (λ m bound. omega (arith, keep m bound))

  runs-attempts :
      (found : Bool) (limit current k : ℕ) (tries : List Try) (s : Container C)
      → runs s.calls ≤ k
      → runs (attempts found limit current tries s).0.calls ≤ k + (suc limit - current)
  unfolding attempts
  runs-attempts found limit current k [] s h = elim (Bool-cases (leb current limit)) [
    | inl more ↦ rw more (omega arith)
    | inr last ↦ rw last (omega (arith, runs-terminate found s))
  ]
  runs-attempts found limit current k (t ∷ tries) s h =
      runs-next_attempt found limit current k (leb current limit) t.runs (poll_loop t.polls) s
        (attempts found limit (suc current) tries) refl h
        (λ m bound. runs-attempts found limit (suc current) (k + 1) tries m bound)

  runs-called : (c : C) (s : Container C) → runs (record_call (callback c) s).calls ≡ runs s.calls
  unfolding record_call
  runs-called c s = omega (arith, runs-append s.calls (callback c ∷ []))

  pub runs-run_before :
      (raises : C → Bool) (cs : List C) (s : Container C)
      → runs (run_before raises cs s).0.calls ≡ runs s.calls
  unfolding run_before
  runs-run_before raises [] s = refl
  runs-run_before raises (c ∷ cs) s =
      let called = record_call (callback c) s in
      let same = runs-called c s in
      elim (Bool-cases (raises c)) [
        | inl stop ↦ rw stop same
        | inr next ↦ rw next (runs-run_before raises cs called ∙ same)
      ]

  runs-finish_start :
      (found : Bool) (r : Container C × Outcome)
      → runs (finish_start found r).0.calls ≡ runs r.0.calls
  unfolding finish_start
  runs-finish_start found (s, returns_true) = runs-run_callbacks s.after_start_callbacks s
  runs-finish_start found (s, not_started) = runs-terminate found s
  runs-finish_start found (s, api_error) = refl
  runs-finish_start found (s, not_found) = refl
  runs-finish_start found (s, outcome_exception) = refl
  runs-finish_start found (s, still_running) = refl

  runs-start_fresh :
      (found : Bool) (limit : ℕ) (tries : List Try) (r : Container C × Bool)
      → runs (start_fresh found limit tries r).0.calls ≤ runs r.0.calls + suc limit
  unfolding start_fresh
  runs-start_fresh found limit tries (s, false) = omega arith
  runs-start_fresh found limit tries (s, true) = omega (
    arith,
    runs-finish_start found (attempts found limit 0 tries s),
    runs-attempts found limit 0 (runs s.calls) tries s (omega arith),
  )

  -- A start runs at most one container more than `max_start_attempts`.
  pub runs-start :
      (raises : C → Bool) (is_up found : Bool) (max_attempts : Option ℕ) (tries : List Try)
      (s : Container C)
      → runs (start raises is_up found max_attempts tries s).0.calls
        ≤ runs s.calls + suc (start_attempts max_attempts s)
  unfolding start
  runs-start raises is_up found max_attempts tries s =
      let fresh : Container C = record s { terminate_result = false; at_exit = true } in
      let before = run_before raises s.before_start_callbacks fresh in
      ground (
        arith,
        runs-start_fresh found (start_attempts max_attempts s) tries before,
        runs-run_before raises s.before_start_callbacks fresh,
      )
