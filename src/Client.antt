-- ===== src/Client.antt =====
-- `LocalClient` of src/saltfactories/client.py. The client of salt is a parameter: `reply` tells what it
-- returns for the target of a call, after the calls before it; `none` is a target that is not in it. A
-- call that goes deeper than the fuel ends with a `RecursionError`.
pub mod Running
pub mod Jobs
pub mod Endless
mod Tests
use pytest_salt_factories.Base.{
  ℕ, zero, suc, Bool, true, false, Option, none, some, List, [], ◌∷◌, ◌++◌, ◌==◌, contains,
  if◌then◌else◌,
}
use pytest_salt_factories.Base.Text.{Text, codes, text_eq}
use pytest_salt_factories.Base.Dict.{Dict, lookup, insert, erase}
use Running.{jid_of}

-- A call of `cmd`.
pub record Call (V : Type 0) : Type 0 where
  pub minion_tgt : Text
  pub function : Text
  pub args : List Text
  pub kwargs : Dict Text V

-- An item of a list that is returned: a text or anything else.
pub data Item (V : Type 0) : Type 0 where
  str : Text → Item V
  item : V → Item V

-- What a minion returns: `None`, a list, or anything else.
pub data Return (V : Type 0) : Type 0 where
  nothing : Return V
  listing : List (Item V) → Return V
  value : V → Return V

-- The result of `run`: `fails_*` are those of `pytest.fail`.
pub data Outcome (V : Type 0) : Type 0 where
  returns : Return V → Outcome V
  fails_no_reply fails_none recursion_error : Outcome V

unfoldable pub functions_known_to_return_none : List Text
functions_known_to_return_none =
    codes "data.get"
    ∷ codes "file.chown"
    ∷ codes "file.chgrp"
    ∷ codes "pkg.refresh_db"
    ∷ codes "ssh.recv_known_host_entries"
    ∷ codes "time.sleep"
    ∷ []

-- `if old in kwargs: kwargs[new] = kwargs.pop(old)`
unfoldable pub rename_key : {V : Type 0} → Text → Text → Dict Text V → Option V → Dict Text V
rename_key old new kwargs none = kwargs
rename_key old new kwargs (some v) = insert new v (erase old kwargs)

unfoldable pub rename_kwargs : {V : Type 0} → Dict Text V → Dict Text V
rename_kwargs kwargs =
    let named = rename_key (codes "f_arg") (codes "arg") kwargs (lookup (codes "f_arg") kwargs) in
    rename_key (codes "f_timeout") (codes "timeout") named (lookup (codes "f_timeout") named)

-- The call of `cmd` that a call of `run` makes.
unfoldable pub prepare : {V : Type 0} → Call V → Call V
prepare call = record call { kwargs = rename_kwargs call.kwargs }

-- A job of the default target `minion`.
unfoldable pub job_call : {V : Type 0} → Text → Text → Call V
job_call function jid = record {
  minion_tgt = codes "minion";
  function = function;
  args = jid ∷ [];
  kwargs = [];
}

-- The jid of a text, unless it was seen before.
unfoldable pub unseen : List Text → Option Text → Option Text
unseen jids none = none
unseen jids (some j) = if contains jids j then none else some j

unfoldable pub jid_of_item : {V : Type 0} → Item V → Option Text
jid_of_item (str t) = jid_of t
jid_of_item (item v) = none

-- The functions that `run` calls for a job.
unfoldable pub find_job : {V : Type 0} → Text → Call V
find_job jid = job_call (codes "saltutil.find_job") jid

unfoldable pub kill_job : {V : Type 0} → Text → Call V
kill_job jid = job_call (codes "saltutil.kill_job") jid

-- The text that is added for a job; `show` is `str` of a return.
unfoldable pub job_text : {V : Type 0} → (Return V → Text) → Return V → Return V → Text
job_text show job_data job_kill =
    codes
      "[TEST SUITE ENFORCED]A running state.single was found causing a state lock. Job details: '"
    ++ (show job_data
        ++ (codes "'  Killing Job Returned: '"
            ++ (show job_kill ++ codes "'[/TEST SUITE ENFORCED]")))

module _ {V : Type 0} (reply : List (Call V) → Call V → Option (Return V))
    (show : Return V → Text) where
  -- The end of an item's turn; `rest` is what the items after it do.
  unfoldable pub after_kill :
      Return V
      → List (Item V)
      → List (Call V) × Outcome V
      → (List (Call V) → List (Item V) → List (Call V) × Outcome V)
      → List (Call V) × Outcome V
  after_kill found ret (calls, returns killed) rest =
      rest calls (ret ++ (str (job_text show found killed) ∷ []))
  after_kill found ret (calls, o) rest = (calls, o)

  unfoldable pub after_find :
      (List (Call V) → Call V → List (Call V) × Outcome V)
      → Text
      → List (Item V)
      → List (Call V) × Outcome V
      → (List (Call V) → List (Item V) → List (Call V) × Outcome V)
      → List (Call V) × Outcome V
  after_find self j ret (calls, returns found) rest =
      after_kill found ret (self calls (kill_job j)) rest
  after_find self j ret (calls, o) rest = (calls, o)

  -- What an item has done: nothing, or the two calls for a job.
  unfoldable pub handle :
      (List (Call V) → Call V → List (Call V) × Outcome V)
      → Option Text
      → List (Call V)
      → List Text
      → List (Item V)
      → (List (Call V) → List Text → List (Item V) → List (Call V) × Outcome V)
      → List (Call V) × Outcome V
  handle self none calls jids ret rest = rest calls jids ret
  handle self (some j) calls jids ret rest =
      after_find self j ret (self calls (find_job j)) (λ c r. rest c (jids ++ (j ∷ [])) r)

  -- The loop of `_check_state_return` over a copy of the list; `ret` is the list itself.
  unfoldable pub check_items :
      (List (Call V) → Call V → List (Call V) × Outcome V)
      → List (Item V)
      → List (Call V)
      → List Text
      → List (Item V)
      → List (Call V) × Outcome V
  check_items self [] calls jids ret = (calls, returns (listing ret))
  check_items self (x ∷ items) calls jids ret =
      handle self (unseen jids (jid_of_item x)) calls jids ret (check_items self items)

  unfoldable pub check_state_return :
      (List (Call V) → Call V → List (Call V) × Outcome V)
      → Return V
      → List (Call V)
      → List (Call V) × Outcome V
  check_state_return self (listing items) calls = check_items self items calls [] items
  check_state_return self r calls = (calls, returns r)

  -- What `run` makes of a reply.
  unfoldable pub check_reply :
      (List (Call V) → Call V → List (Call V) × Outcome V)
      → Text
      → Option (Return V)
      → List (Call V)
      → List (Call V) × Outcome V
  check_reply self function none calls = (calls, fails_no_reply)
  check_reply self function (some nothing) calls =
      if contains functions_known_to_return_none function
      then check_state_return self nothing calls
      else (calls, fails_none)
  check_reply self function (some r) calls = check_state_return self r calls

  -- `run`, with the calls that were made.
  unfoldable pub run : ℕ → List (Call V) → Call V → List (Call V) × Outcome V
  run zero calls call = (calls, recursion_error)
  run (suc fuel) calls call =
      check_reply (run fuel) call.function (reply calls (prepare call))
        (calls ++ (prepare call ∷ []))
