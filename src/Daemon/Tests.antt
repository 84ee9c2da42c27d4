-- ===== src/Daemon/Tests.antt =====
-- A master daemon.
use pytest_salt_factories.Base.{
  ℕ, ◌≡◌, ◌⊎◌, refl, true, false, not, ◌&&◌, ◌||◌, some, List, [], ◌∷◌, any, nat_eq, contains,
  remove, add,
}
use pytest_salt_factories.Base.Text.{codes, text_eq, text_methods}
use pytest_salt_factories.Cli.{Value, text, other, ok, err, usage_error}
use pytest_salt_factories.Cli.Flags.{is_config_dir, is_log_level, default_unless}
use pytest_salt_factories.Events.{Event, event_eq, event_discrete, expired}
use pytest_salt_factories.Events.Fnmatch.{
  parse_ranges, close_at, parse_set, parse_from, any_end, accepts, matches, fnmatch,
}
use pytest_salt_factories.Events.Query.{
  EventPattern, is_match, in_time, visit_patterns, visit_events, get_events,
}
use pytest_salt_factories.Events.Wait.{pattern_eq, is_empty}
use pytest_salt_factories.Daemon.{
  SaltDaemon, salt_daemon, texts, as_values, is_the, insert_python, added_args, cmdline, Check,
  confirmed, timed_out, pattern_of, remove_found, next_check, check_rounds, check_start_events,
}
use pytest_salt_factories.Daemon.Laws.{KeepsArgs, HasFlags, cmdline-HasFlags, salt_daemon-outcome}
use pytest_salt_factories.Daemon.Start.{
  is_seen, IsOver, check_start_events-confirmed, check_start_events-IsOver,
}

program : Unit {0}
unfolding text_methods nat_eq contains any add remove is_config_dir is_log_level default_unless
    event_eq event_discrete expired parse_ranges close_at parse_set parse_from any_end accepts
    matches fnmatch is_match in_time visit_patterns visit_events get_events pattern_eq salt_daemon
    texts as_values is_the insert_python added_args cmdline pattern_of remove_found next_check
    check_rounds check_start_events
program = tt

abbrev daemon : SaltDaemon
daemon = record {
  config_dir = codes "/etc";
  python_executable = some (codes "python");
  system_service = false;
  extra_cli_arguments_after_first_start_failure = [];
}

abbrev base_cmdline : List (Value ℕ) → List (Value ℕ)
base_cmdline args = text (codes "salt-master") ∷ args

base_cmdline-KeepsArgs : KeepsArgs base_cmdline
base_cmdline-KeepsArgs args = (text (codes "salt-master") ∷ [], refl)

abbrev args : List (Value ℕ)
args = other 3 ∷ text (codes "-l") ∷ text (codes "debug") ∷ []

abbrev line : List (Value ℕ)
line = text (codes "python") ∷ text (codes "salt-master") ∷ text (codes "--config-dir=/etc") ∷ args

run-cmdline : cmdline base_cmdline daemon args ≡ ok line
unfolding program
run-cmdline = refl

cmdline-HasFlags_holds : HasFlags daemon args line
cmdline-HasFlags_holds =
    cmdline-HasFlags base_cmdline base_cmdline-KeepsArgs daemon args line run-cmdline

salt_daemon-outcome_holds :
    ((salt_daemon daemon ≡ err usage_error)
      × ((daemon.system_service
            && not (is_empty daemon.extra_cli_arguments_after_first_start_failure))
          ≡ true))
    ⊎ ((d' : SaltDaemon) × (salt_daemon daemon ≡ ok d')
        × ((daemon.system_service
              || any is_log_level d'.extra_cli_arguments_after_first_start_failure)
            ≡ true))
salt_daemon-outcome_holds = salt_daemon-outcome daemon

abbrev start_event : Event ℕ
start_event = record {
  daemon_id = codes "m";
  tag = codes "salt/start";
  stamp = 5;
  data_ = [];
  full_data = [];
  expire_seconds = 60;
}

abbrev checks : List (Check ℕ)
checks =
    record { clock = 1; is_running = true; store = []; now = 1 }
    ∷ record { clock = 6; is_running = true; store = start_event ∷ []; now = 6 }
    ∷ record { clock = 8; is_running = true; store = []; now = 8 }
    ∷ record { clock = 99; is_running = true; store = []; now = 99 }
    ∷ []

abbrev check_events : List EventPattern
check_events = (codes "m", codes "salt/start") ∷ []

run-confirmed : check_start_events 0 20 (some checks) check_events ≡ confirmed
unfolding program
run-confirmed = refl

run-other : check_start_events 0 20 (some checks) ((codes "m", codes "x") ∷ []) ≡ timed_out
unfolding program
run-other = refl

check_start_events-confirmed_example : any (is_seen 0 (codes "m", codes "salt/start")) checks ≡ true
unfolding program
check_start_events-confirmed_example =
    check_start_events-confirmed 0 20 checks check_events (codes "m", codes "salt/start")
      run-confirmed refl

check_start_events-IsOver_holds : IsOver (check_start_events 0 20 (some checks) check_events)
unfolding program
check_start_events-IsOver_holds = check_start_events-IsOver 0 20 checks check_events refl
