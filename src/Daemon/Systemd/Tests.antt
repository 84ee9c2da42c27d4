-- ===== src/Daemon/Systemd/Tests.antt =====
-- A service of an installed salt, whose process ends by itself in one of two worlds.
use pytest_salt_factories.Base.{
  ℕ, ◌≡◌, refl, Bool, true, false, Option, none, some, List, [], ◌∷◌, ◌==◌, contains, nat_eq,
  if◌then◌else◌,
}
use pytest_salt_factories.Base.Text.{Text, codes, text_eq, text_methods}
use pytest_salt_factories.Base.Decimal.{decimals}
use pytest_salt_factories.Daemon.Systemd.{
  System, Impl, answer, record_act, base_name, name_of, get_service_name, end_word, words_from,
  after_last, first_piece, parse_cmdline, collect, or_zero, run_command, systemctl_with, systemctl,
  ask_alive, as_answer, open_pid, open_number, read_main_pid, is_running_of, is_running, registered,
  start, pid_if, process_pid, found_children, add_children, read_exec_start, cmdline_if,
  stop_service, wait_if, outlast, read_journal, journal, end_process, stop_with, terminate_of,
  terminate,
}
use pytest_salt_factories.Daemon.Systemd.Steps.{killed, stops}
use pytest_salt_factories.Daemon.Systemd.Stops.{Over, killed-terminate, terminate-terminate}

program : Unit {0}
unfolding text_methods decimals nat_eq contains record_act base_name name_of get_service_name
    end_word words_from after_last first_piece parse_cmdline collect or_zero run_command
    systemctl_with systemctl ask_alive as_answer open_pid open_number read_main_pid is_running_of
    is_running registered start pid_if process_pid found_children add_children read_exec_start
    cmdline_if stop_service wait_if outlast read_journal journal end_process stop_with terminate_of
    terminate
program = tt

abbrev answers : List Text → Text
answers line =
    if contains line (codes "MainPID")
    then codes "MainPID=42\n"
    else if contains line (codes "ExecStart")
    then codes "{ path=/bin/sh ; argv[]=/bin/sh -c x ; pid=42 }"
    else []

-- The service has the child 43, and the test run, of the number 1, the children 7 and 43.
abbrev children_of : ℕ → Option (List ℕ)
children_of p = if p == 42 then some (43 ∷ []) else if p == 1 then some (7 ∷ 43 ∷ []) else none

abbrev world : Bool → System
world alive = record {
  own_pid = 1;
  output = λ acts line. answers line;
  exists = λ acts p. true;
  alive = λ acts p. alive;
  children = λ acts p. children_of p;
  cmdline = λ acts p. codes "sh" ∷ [];
  wait_code = λ acts p. none;
}

abbrev new_impl : Impl
new_impl = record {
  process = none;
  service_name = none;
  children = [];
  terminal_result = none;
  at_exit = false;
  acts = [];
}

abbrev path : Text
path = codes "/usr/bin/salt-minion"

abbrev up : Impl
up = (is_running (world true) path (start (world true) (λ s. (true, s)) new_impl).1).1

up_fields :
    (up.process ≡ some 42)
    × (up.service_name ≡ some (codes "salt-minion"))
    × (up.at_exit ≡ true)
    × ((is_running (world false) path up).0 ≡ answer false)
unfolding program
up_fields = (refl, refl, refl, refl)

-- The process has ended: the children of the test run are killed.
killed-terminate_example :
    killed (terminate (world false) path up).1.acts ≡ (none, 7 ∷ 43 ∷ []) ∷ []
unfolding program
killed-terminate_example = killed-terminate (world false) path 42 up refl

killed-up : killed (terminate (world true) path up).1.acts ≡ (some 42, 43 ∷ []) ∷ []
unfolding program
killed-up = refl

result_of :
    (terminate (world false) path up).0
    ≡ some (record {
      returncode = 0;
      stdout = [];
      stderr = [];
      cmdline = codes "/bin/sh" ∷ codes "-c" ∷ codes "x" ∷ [];
    })
unfolding program
result_of = refl

terminate-terminate_example :
    Over (world true) path (terminate (world true) path up)
    × (stops (terminate (world true) path up).1.acts ≡ 1)
    × (terminate (world true) path (terminate (world true) path up).1
        ≡ terminate (world true) path up)
unfolding program
terminate-terminate_example = terminate-terminate (world true) path 42 up refl
