-- ===== src/Daemon.antt =====
-- `SaltDaemon` of src/saltfactories/bases.py: its command line, the arguments after a failed start,
-- and the check of the start events, which asks the event listener.
pub mod Laws
pub mod Start
pub mod Systemd
mod Tests
use pytest_salt_factories.Base.{
  ℕ, Bool, true, false, not, ◌||◌, Option, none, some, List, [], ◌∷◌, ◌++◌, ◌==◌, Eq, remove,
  contains, if◌then◌else◌, ltb,
}
use pytest_salt_factories.Base.Text.{Text, codes, text_eq}
use pytest_salt_factories.Cli.{Value, text, other, Result, ok, err, index_error, usage_error}
use pytest_salt_factories.Cli.Flags.{is_config_dir, is_log_level, default_unless}
use pytest_salt_factories.Events.{Event}
use pytest_salt_factories.Events.Query.{EventPattern, get_events}
use pytest_salt_factories.Events.Wait.{pattern_eq, is_empty}

pub record SaltDaemon : Type 0 where
  pub config_dir : Text
  pub python_executable : Option Text
  pub system_service : Bool
  pub extra_cli_arguments_after_first_start_failure : List Text

-- `__attrs_post_init__`
unfoldable pub salt_daemon : SaltDaemon → Result SaltDaemon
salt_daemon d =
    let extra = d.extra_cli_arguments_after_first_start_failure in
    if d.system_service
    then (if is_empty extra then ok d else err usage_error)
    else ok (record d {
      extra_cli_arguments_after_first_start_failure =
          extra ++ default_unless is_log_level (codes "--log-level=debug") extra;
    })

-- `if not isinstance(arg, str): continue`
unfoldable pub texts : {V : Type 0} → List (Value V) → List Text
texts [] = []
texts (text t ∷ args) = t ∷ texts args
texts (other v ∷ args) = texts args

unfoldable pub as_values : {V : Type 0} → List Text → List (Value V)
as_values [] = []
as_values (t ∷ ts) = text t ∷ as_values ts

unfoldable pub is_the : {V : Type 0} → Text → Value V → Bool
is_the exe (text t) = t == exe
is_the exe (other v) = false

-- `if self.python_executable and cmdline[0] != self.python_executable`
unfoldable pub insert_python : {V : Type 0} → Option Text → List (Value V) → Result (List (Value V))
insert_python none line = ok line
insert_python (some []) line = ok line
insert_python (some (c ∷ exe)) [] = err index_error
insert_python (some (c ∷ exe)) (first ∷ line) =
    ok (if is_the (c ∷ exe) first then first ∷ line else text (c ∷ exe) ∷ first ∷ line)

-- The flags that `cmdline` adds.
unfoldable pub added_args : {V : Type 0} → SaltDaemon → List (Value V) → List Text
added_args d args =
    default_unless is_config_dir (codes "--config-dir=" ++ d.config_dir) (texts args)
    ++ default_unless is_log_level (codes "--log-level=critical") (texts args)

-- `cmdline`; `base_cmdline` is that of `pytestshellutils.shell.Daemon`.
unfoldable pub cmdline :
    {V : Type 0}
    → (List (Value V) → List (Value V))
    → SaltDaemon
    → List (Value V)
    → Result (List (Value V))
cmdline base_cmdline d args =
    insert_python d.python_executable (base_cmdline (as_values (added_args d args) ++ args))

-- A round of the loop of `_check_start_events`: the clock at its test, whether the daemon runs, and
-- the store and the clock of `get_events`.
pub record Check (V : Type 0) : Type 0 where
  pub clock : ℕ
  pub is_running : Bool
  pub store : List (Event V)
  pub now : ℕ

pub data StartCheck : Type 0 where
  confirmed timed_out factory_not_started checking : StartCheck

-- `(event.daemon_id, event.tag)`
unfoldable pub pattern_of : {V : Type 0} → Event V → EventPattern
pattern_of e = (e.daemon_id, e.tag)

-- `check_events -= {…}`
unfoldable pub remove_found : {V : Type 0} → List (Event V) → List EventPattern → List EventPattern
remove_found [] check_events = check_events
remove_found (e ∷ found) check_events = remove_found found (remove (pattern_of e) check_events)

-- The tests of a round, before the rest of the loop.
unfoldable pub next_check : Bool → Bool → List EventPattern → StartCheck → StartCheck
next_check late is_running check_events rest =
    if late
    then timed_out
    else if is_running
    then (if is_empty check_events then confirmed else rest)
    else factory_not_started

module _ {V : Type 0} ⦃v : Eq V⦄ where
  unfoldable pub check_rounds : ℕ → ℕ → List (Check V) → List EventPattern → StartCheck
  check_rounds started_at timeout_at [] check_events = checking
  check_rounds started_at timeout_at (r ∷ rs) check_events =
      let rest =
        check_rounds started_at timeout_at rs
          (remove_found (get_events r.now started_at check_events r.store) check_events) in
      next_check (ltb timeout_at r.clock) r.is_running check_events rest

  -- `_check_start_events`; a daemon without an event listener has `none`.
  unfoldable pub check_start_events :
      ℕ → ℕ → Option (List (Check V)) → List EventPattern → StartCheck
  check_start_events started_at timeout_at none check_events = confirmed
  check_start_events started_at timeout_at (some rs) [] = confirmed
  check_start_events started_at timeout_at (some rs) (p ∷ check_events) =
      check_rounds started_at timeout_at rs (p ∷ check_events)
