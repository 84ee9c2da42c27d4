-- ===== src/Client/Endless.antt =====
-- When the calls of `LocalClient.run` for a running job do not come to an end.
use pytest_salt_factories.Base.{
  ℕ, zero, suc, ◌≡◌, refl, Option, some, List, [], ◌∷◌, ◌++◌, contains,
}
use pytest_salt_factories.Base.Text.{Text, text_eq}
use pytest_salt_factories.Client.{
  Call, Item, Return, listing, Outcome, returns, fails_no_reply, fails_none, recursion_error,
  prepare, unseen, jid_of_item, find_job, after_find, handle, check_items, check_state_return,
  check_reply, run,
}

module _ {V : Type 0} (reply : List (Call V) → Call V → Option (Return V))
    (show : Return V → Text) where
  after_find-recursion_error :
      (self : List (Call V) → Call V → List (Call V) × Outcome V) (j : Text) (ret : List (Item V))
      (found : List (Call V) × Outcome V)
      (rest : List (Call V) → List (Item V) → List (Call V) × Outcome V)
      → found.1 ≡ recursion_error
      → (after_find reply show self j ret found rest).1 ≡ recursion_error
  unfolding after_find
  after_find-recursion_error self j ret (calls, returns r) rest ends = cc
  after_find-recursion_error self j ret (calls, fails_no_reply) rest ends = cc
  after_find-recursion_error self j ret (calls, fails_none) rest ends = cc
  after_find-recursion_error self j ret (calls, recursion_error) rest ends = refl

  -- Where each answer of the minion is a list that tells of a running state function first, also those
  -- to `saltutil.find_job`, a call never comes to an end, however deep it may go. The answers, and the
  -- functions that they tell of, may differ from call to call.
  pub run-recursion_error :
      (first : List (Call V) → Call V → Item V) (others : List (Call V) → Call V → List (Item V))
      (jid : List (Call V) → Call V → Text)
      → ((calls : List (Call V)) (call : Call V)
          → jid_of_item (first calls call) ≡ some (jid calls call))
      → ((calls : List (Call V)) (call : Call V)
          → reply calls call ≡ some (listing (first calls call ∷ others calls call)))
      → (fuel : ℕ) (calls : List (Call V)) (call : Call V)
      → (run reply show fuel calls call).1 ≡ recursion_error
  unfolding run check_reply check_state_return check_items handle unseen contains
  run-recursion_error first others jid tells answers zero calls call = refl
  run-recursion_error first others jid tells answers (suc fuel) calls call =
      let later = calls ++ (prepare call ∷ []) in
      let x = first calls (prepare call) in
      let items = others calls (prepare call) in
      let j = jid calls (prepare call) in
      rw (answers calls (prepare call), tells calls (prepare call))
        (after_find-recursion_error (run reply show fuel) j (x ∷ items)
          (run reply show fuel later (find_job j))
          (λ c r. check_items reply show (run reply show fuel) items c (j ∷ []) r)
          (run-recursion_error first others jid tells answers fuel later (find_job j)))
