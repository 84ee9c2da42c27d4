-- ===== src/Client/Tests.antt =====
-- A minion that a state function is running on.
use pytest_salt_factories.Base.{
  ℕ, zero, ◌≡◌, refl, Bool, Option, none, some, List, [], ◌∷◌, ◌++◌, contains, nat_eq, remove,
  keep_if, if◌then◌else◌,
}
use pytest_salt_factories.Base.Text.{Text, codes, text_eq, text_methods}
use pytest_salt_factories.Base.Dict.{lookup, insert, erase}
use pytest_salt_factories.Client.{
  Call, Item, str, item, Return, nothing, listing, value, returns, fails_none, recursion_error,
  functions_known_to_return_none, rename_key, rename_kwargs, prepare, job_call, unseen, jid_of_item,
  find_job, kill_job, after_kill, after_find, handle, check_items, check_state_return, check_reply,
  run, job_text,
}
use pytest_salt_factories.Client.Running.{
  or_else, is_quote, is_digit, greedy, some_digits, after_quote, after_digits, leading_digits,
  last_digits, match_pieces, state_function_running, jid_of,
}
use pytest_salt_factories.Client.Jobs.{jids_of, unique, job_calls, messages, run-jobs}
use pytest_salt_factories.Client.Endless.{run-recursion_error}

program : Unit {0}
unfolding text_methods nat_eq contains remove keep_if lookup insert erase
    functions_known_to_return_none rename_key rename_kwargs prepare job_call unseen jid_of_item
    find_job kill_job after_kill after_find handle check_items check_state_return check_reply run
    or_else is_quote is_digit greedy some_digits after_quote after_digits leading_digits last_digits
    match_pieces state_function_running jid_of jids_of unique job_calls messages
program = tt

abbrev running : Text
running =
    codes "The function \"state.apply\" is running as PID 42 and was started at 12:00 with jid 2019"

jid_of-running :
    (jid_of running ≡ some (codes "2019")) × (jid_of (codes "The function is running") ≡ none)
unfolding program
jid_of-running = (refl, refl)

abbrev items : List (Item ℕ)
items = str running ∷ item 3 ∷ str (codes "x") ∷ str running ∷ []

abbrev is_job : Call ℕ → Bool
is_job call = contains (codes "saltutil.find_job" ∷ codes "saltutil.kill_job" ∷ []) call.function

abbrev reply : List (Call ℕ) → Call ℕ → Option (Return ℕ)
reply calls call = if is_job call then some (value 1) else some (listing items)

abbrev show : Return ℕ → Text
show r = codes "x"

abbrev apply : Call ℕ
apply = record {
  minion_tgt = codes "other";
  function = codes "state.apply";
  args = [];
  kwargs = (codes "f_arg", 7) ∷ [];
}

answers :
    (calls : List (Call ℕ)) (j : Text)
    → (reply calls (find_job j) ≡ some (value 1)) × (reply calls (kill_job j) ≡ some (value 1))
unfolding program
answers calls j = (refl, refl)

run-jobs_example : run reply show 2 [] apply ≡ (
  record apply { kwargs = (codes "arg", 7) ∷ [] }
      ∷ find_job (codes "2019")
      ∷ kill_job (codes "2019")
      ∷ [],
  returns (listing (items ++ (str (job_text show (value 1) (value 1)) ∷ []))),
)
unfolding program
run-jobs_example = run-jobs reply show (λ j. 1) (λ j. 1) answers zero apply items refl

run_none : (run {V = ℕ} (λ calls call. some nothing) show 1 [] apply).1 ≡ fails_none
unfolding program
run_none = refl

tells : jid_of_item {V = ℕ} (str running) ≡ some (codes "2019")
unfolding program
tells = refl

-- The answer to `saltutil.find_job` is shorter than the first.
abbrev others : List (Call ℕ) → Call ℕ → List (Item ℕ)
others [] call = item 3 ∷ str (codes "x") ∷ str running ∷ []
others (earlier ∷ calls) call = []

run-recursion_error_example :
    (run (λ calls call. some (listing (str running ∷ others calls call))) show 5 [] apply).1
    ≡ recursion_error
run-recursion_error_example =
    run-recursion_error (λ calls call. some (listing (str running ∷ others calls call))) show
      (λ calls call. str running) others (λ calls call. codes "2019") (λ calls call. tells)
      (λ calls call. refl) 5 [] apply
