-- ===== src/Client/Jobs.antt =====
-- What `LocalClient.run` does with the state functions that a reply says are running.
use pytest_salt_factories.Base.{
  ℕ, suc, ◌≡◌, refl, sym, ◌∙◌, ap, subst, true, false, Option, none, some, List, [], ◌∷◌, ◌++◌,
  append_assoc, append-nil, ◌==◌, contains, contains-append, remove, keep_if, not, ==_sym, ==_sound,
  Bool-cases, arith, Option-cases, inl, inr,
}
use pytest_salt_factories.Base.Text.{Text, text_eq}
use pytest_salt_factories.Base.Dict.{lookup}
use pytest_salt_factories.Client.{
  Call, Item, str, Return, listing, value, Outcome, returns, rename_kwargs, prepare, job_call,
  rename_key, unseen, jid_of_item, find_job, kill_job, after_kill, after_find, handle, check_items,
  check_state_return, check_reply, run, job_text,
}

abbrev add_jid : Option Text → List Text → List Text
add_jid none js = js
add_jid (some j) js = j ∷ js

-- The jids that the texts of a list tell of.
unfoldable pub jids_of : {V : Type 0} → List (Item V) → List Text
jids_of [] = []
jids_of (x ∷ items) = add_jid (jid_of_item x) (jids_of items)

-- Each text once, where it stands first.
unfoldable pub unique : List Text → List Text
unique [] = []
unique (j ∷ js) = j ∷ remove j (unique js)

-- The two calls for each job, in their order.
unfoldable pub job_calls : {V : Type 0} → List Text → List (Call V)
job_calls [] = []
job_calls (j ∷ js) = find_job j ∷ kill_job j ∷ job_calls js

without : List Text → List Text → List Text
without seen js = keep_if (λ j. not (contains seen j)) js

without-snoc :
    (seen : List Text) (j : Text) (js : List Text)
    → without (seen ++ (j ∷ [])) js ≡ without seen (remove j js)
unfolding without keep_if remove contains
without-snoc seen j [] = refl
without-snoc seen j (k ∷ js) =
    ground (arith, contains-append seen (j ∷ []) k, ==_sym j k, without-snoc seen j js)

without-remove :
    (seen : List Text) (j : Text) (js : List Text)
    → contains seen j ≡ true
    → without seen (remove j js) ≡ without seen js
unfolding without keep_if remove
without-remove seen j [] known = refl
without-remove seen j (k ∷ js) known = elim (Bool-cases (j == k)) [
  | inl same ↦
      ground (arith, same, ap (contains seen) (==_sound j k same), known, without-remove seen j js)
  | inr other ↦ ground (arith, other, known, without-remove seen j js)
]

unseen-none :
    (jids : List Text) (o : Option Text) (js : List Text)
    → unseen jids o ≡ none
    → without jids (unique (add_jid o js)) ≡ without jids (unique js)
unfolding unseen unique without keep_if
unseen-none jids none js idle = refl
unseen-none jids (some j) js idle =
    let known : contains jids j ≡ true = ground (arith, idle) in
    ground (arith, known, without-remove jids j (unique js) known)

unseen-some :
    (jids : List Text) (o : Option Text) (j : Text) (js : List Text)
    → unseen jids o ≡ some j
    → without jids (unique (add_jid o js)) ≡ j ∷ without (jids ++ (j ∷ [])) (unique js)
unfolding unseen unique without keep_if
unseen-some jids none j js new = cc
unseen-some jids (some k) j js new =
    let fresh : contains jids k ≡ false = ground (arith, new) in
    let same : k ≡ j = ground (arith, new, fresh) in
    ground (arith, fresh, same, without-snoc jids k (unique js))

module _ {V : Type 0} (reply : List (Call V) → Call V → Option (Return V)) (show : Return V → Text)
    (found killed : Text → V) where
  -- What is added to the list for each job.
  unfoldable pub messages : List Text → List (Item V)
  messages [] = []
  messages (j ∷ js) = str (job_text show (value (found j)) (value (killed j))) ∷ messages js

  abbrev Answers : Type 0
  Answers =
      (calls : List (Call V)) (j : Text)
      → (reply calls (find_job j) ≡ some (value (found j)))
        × (reply calls (kill_job j) ≡ some (value (killed j)))

  run_value :
      (fuel : ℕ) (calls : List (Call V)) (call : Call V) (v : V)
      → reply calls (prepare call) ≡ some (value v)
      → run reply show (suc fuel) calls call ≡ (calls ++ (prepare call ∷ []), returns (value v))
  unfolding run check_reply check_state_return
  run_value fuel calls call v answer = rw answer refl

  prepare-find_job : (j : Text) → prepare (find_job {V = V} j) ≡ find_job j
  unfolding prepare rename_kwargs rename_key lookup find_job job_call
  prepare-find_job j = refl

  prepare-kill_job : (j : Text) → prepare (kill_job {V = V} j) ≡ kill_job j
  unfolding prepare rename_kwargs rename_key lookup kill_job job_call
  prepare-kill_job j = refl

  handle_job :
      Answers
      → (fuel : ℕ) (j : Text) (calls : List (Call V)) (jids : List Text) (ret : List (Item V))
        (rest : List (Call V) → List Text → List (Item V) → List (Call V) × Outcome V)
      → handle reply show (run reply show (suc fuel)) (some j) calls jids ret rest
        ≡ rest
            (calls ++ (find_job j ∷ kill_job j ∷ []))
            (jids ++ (j ∷ []))
            (ret ++ messages (j ∷ []))
  unfolding handle after_find after_kill messages
  handle_job answers fuel j calls jids ret rest =
      let self = run reply show (suc fuel) in
      let k = λ (c : List (Call V)) (r : List (Item V)). rest c (jids ++ (j ∷ [])) r in
      let finds : self calls (find_job j)
          ≡ (calls ++ (find_job j ∷ []), returns (value (found j))) =
        subst (λ c. self calls (find_job j) ≡ (calls ++ (c ∷ []), returns (value (found j))))
          (prepare-find_job j)
          (run_value fuel calls (find_job j) (found j) (
            subst (λ c. reply calls c ≡ some (value (found j))) (sym (prepare-find_job j))
              (answers calls j).0)) in
      let later = calls ++ (find_job j ∷ []) in
      let kills : self later (kill_job j)
          ≡ (later ++ (kill_job j ∷ []), returns (value (killed j))) =
        subst (λ c. self later (kill_job j) ≡ (later ++ (c ∷ []), returns (value (killed j))))
          (prepare-kill_job j)
          (run_value fuel later (kill_job j) (killed j) (
            subst (λ c. reply later c ≡ some (value (killed j))) (sym (prepare-kill_job j))
              (answers later j).1)) in
      ap (λ r. after_find reply show self j ret r k) finds
      ∙ ap (λ r. after_kill reply show (value (found j)) ret r k) kills
      ∙ ap (λ c. rest c (jids ++ (j ∷ [])) (ret ++ messages (j ∷ [])))
          (append_assoc calls (find_job j ∷ []) (kill_job j ∷ []))

  -- What the loop leaves when it has handled the jobs `js`.
  abbrev handled : List (Call V) → List (Item V) → List Text → List (Call V) × Outcome V
  handled calls ret js = (calls ++ job_calls js, returns (listing (ret ++ messages js)))

  handled_cons :
      (calls : List (Call V)) (ret : List (Item V)) (j : Text) (js : List Text)
      → handled (calls ++ (find_job j ∷ kill_job j ∷ [])) (ret ++ messages (j ∷ [])) js
        ≡ handled calls ret (j ∷ js)
  unfolding job_calls messages
  handled_cons calls ret j js =
      rw
        (
          append_assoc calls (find_job j ∷ kill_job j ∷ []) (job_calls js),
          append_assoc ret (messages (j ∷ [])) (messages js),
        )
        refl

  without_nil : (js : List Text) → without [] js ≡ js
  unfolding without keep_if contains
  without_nil [] = refl
  without_nil (j ∷ js) = ap (λ t. j ∷ t) (without_nil js)

  check_items-jobs :
      Answers
      → (fuel : ℕ) (items : List (Item V)) (calls : List (Call V)) (jids : List Text)
        (ret : List (Item V))
      → check_items reply show (run reply show (suc fuel)) items calls jids ret
        ≡ handled calls ret (without jids (unique (jids_of items)))
  unfolding check_items handle jids_of job_calls messages without keep_if unique
  check_items-jobs answers fuel [] calls jids ret =
      let none_left : handled calls ret [] ≡ (calls, returns (listing ret)) =
        rw (append-nil calls, append-nil ret) refl in
      sym none_left
  check_items-jobs answers fuel (x ∷ items) calls jids ret =
      elim (Option-cases (unseen jids (jid_of_item x))) [
        | inl idle ↦ rw idle (
            check_items-jobs answers fuel items calls jids ret
            ∙ ap (handled calls ret) (sym (unseen-none jids (jid_of_item x) (jids_of items) idle)))
        | inr (j, new) ↦ rw new (
            handle_job answers fuel j calls jids ret
              (check_items reply show (run reply show (suc fuel)) items)
            ∙ check_items-jobs answers fuel items (calls ++ (find_job j ∷ kill_job j ∷ []))
                (jids ++ (j ∷ [])) (ret ++ messages (j ∷ []))
            ∙ handled_cons calls ret j (without (jids ++ (j ∷ [])) (unique (jids_of items)))
            ∙ ap (handled calls ret) (sym (unseen-some jids (jid_of_item x) j (jids_of items) new)))
      ]

  -- Where the minion answers `saltutil.find_job` and `saltutil.kill_job` with anything but a list and
  -- `None`: a call that returns a list finds and kills each job that the list tells of once, in the order
  -- in which they are told of, always on the minion `minion`, whatever the target of the call was. It
  -- returns the list with a message for each job after its items.
  pub run-jobs :
      ((calls : List (Call V)) (j : Text)
        → (reply calls (find_job j) ≡ some (value (found j)))
          × (reply calls (kill_job j) ≡ some (value (killed j))))
      → (fuel : ℕ) (call : Call V) (items : List (Item V))
      → reply [] (prepare call) ≡ some (listing items)
      → run reply show (suc (suc fuel)) [] call ≡ (
        prepare call ∷ job_calls (unique (jids_of items)),
        returns (listing (items ++ messages (unique (jids_of items)))),
      )
  unfolding run check_reply check_state_return
  run-jobs answers fuel call items answer = rw answer (
      check_items-jobs answers fuel items (prepare call ∷ []) [] items
      ∙ ap (handled (prepare call ∷ []) items) (without_nil (unique (jids_of items))))
