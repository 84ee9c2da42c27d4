-- ===== src/Daemon/Systemd.antt =====
-- `SystemdSaltDaemonImpl` of src/saltfactories/bases.py: a daemon of an installed salt, as a service. What
-- systemd and psutil answer is the record `System`: it depends on all that was asked and done before, the
-- list `acts`. Processes are told apart by their numbers. A process that is asked something does not end
-- between a test and what is asked next, and `wait` has no time limit, so that it never raises.
pub mod Steps
pub mod Stops
mod Tests
use pytest_salt_factories.Base.{
  ℕ, zero, suc, ◌+◌, Bool, true, false, Option, none, some, List, [], ◌∷◌, ◌++◌, ◌==◌, contains,
  nat_eq, if◌then◌else◌,
}
use pytest_salt_factories.Base.Text.{
  Text, codes, text_eq, starts_with, split, last_or, strip, is_space,
}
use pytest_salt_factories.Base.Int.{ℤ, pos, negsuc}
use pytest_salt_factories.Base.Decimal.{parse_int}

pub data Act : Type 0 where
  internal_run : List Text → Act
  open_process is_alive list_children wait : ℕ → Act
  terminate_process : Option ℕ → List ℕ → Act

-- `output` is the standard output of a command. The `children` of a process that has ended are `none`,
-- `NoSuchProcess`. `own_pid` is the process that `psutil.Process(None)` is: the one that asks.
pub record System : Type 0 where
  pub own_pid : ℕ
  pub output : List Act → List Text → Text
  pub exists : List Act → ℕ → Bool
  pub alive : List Act → ℕ → Bool
  pub children : List Act → ℕ → Option (List ℕ)
  pub cmdline : List Act → ℕ → List Text
  pub wait_code : List Act → ℕ → Option ℕ

pub record ProcessResult : Type 0 where
  pub returncode : ℕ
  pub stdout : Text
  pub stderr : Text
  pub cmdline : List Text

-- `at_exit`: that `terminate` is registered with `atexit`.
pub record Impl : Type 0 where
  pub process : Option ℕ
  pub service_name : Option Text
  pub children : List ℕ
  pub terminal_result : Option ProcessResult
  pub at_exit : Bool
  pub acts : List Act

pub data Answer : Type 0 where
  answer : Bool → Answer
  value_error no_such_process : Answer

unfoldable pub record_act : Act → Impl → Impl
record_act a s = record s { acts = s.acts ++ (a ∷ []) }

-- `os.path.basename`, for an absolute path.
unfoldable pub base_name : Text → Text
base_name path =
    if starts_with path (codes "/") then last_or path (split (codes "/") path) else path

unfoldable pub name_of : Text → Option Text → Text
name_of script_path none = base_name script_path
name_of script_path (some name) = name

-- `get_service_name`
unfoldable pub get_service_name : Text → Impl → Text × Impl
get_service_name script_path s =
    let name = name_of script_path s.service_name in (name, record s { service_name = some name })

unfoldable pub end_word : List Text → Text → List Text
end_word ws [] = ws
end_word ws (c ∷ w) = ws ++ ((c ∷ w) ∷ [])

-- `str.split()`, after some words and a part of the next.
unfoldable pub words_from : List Text → Text → Text → List Text
words_from ws w [] = end_word ws w
words_from ws w (c ∷ t) =
    words_from (if is_space c then end_word ws w else ws) (if is_space c then [] else w ++ (c ∷ []))
      t

-- `split(sep)[-1]`
unfoldable pub after_last : Text → Text → Text
after_last sep t = last_or t (split sep t)

unfoldable pub first_piece : Text → List Text → Text
first_piece t [] = t
first_piece t (x ∷ xs) = x

-- `ret.stdout.split("argv[]=")[-1].split(";")[0].strip().split()`
unfoldable pub parse_cmdline : Text → List Text
parse_cmdline out =
    let argv = after_last (codes "argv[]=") out in
    words_from [] [] (strip (first_piece argv (split (codes ";") argv)))

-- `child not in self._children`
unfoldable pub collect : List ℕ → List ℕ → List ℕ
collect [] known = known
collect (c ∷ cs) known = collect cs (if contains known c then known else known ++ (c ∷ []))

unfoldable pub or_zero : Option ℕ → ℕ
or_zero none = 0
or_zero (some n) = n

module _ (sys : System) where
  -- `_internal_run`
  unfoldable pub run_command : List Text → Impl → Text × Impl
  run_command line s = (sys.output s.acts line, record_act (internal_run line) s)

  unfoldable pub systemctl_with : List Text → Text × Impl → Text × Impl
  systemctl_with args (name, s) = run_command (codes "systemctl" ∷ args ++ (name ∷ [])) s

  -- A call of `systemctl` for the service.
  unfoldable pub systemctl : List Text → Text → Impl → Text × Impl
  systemctl args script_path s = systemctl_with args (get_service_name script_path s)

  unfoldable pub ask_alive : ℕ → Impl → Bool × Impl
  ask_alive p s = (sys.alive s.acts p, record_act (is_alive p) s)

  unfoldable pub as_answer : Bool × Impl → Answer × Impl
  as_answer (b, s) = (answer b, s)

  unfoldable pub open_pid : ℕ → Impl → Answer × Impl
  open_pid p s =
      if sys.exists s.acts p
      then as_answer (ask_alive p (record_act (open_process p) (record s { process = some p })))
      else (no_such_process, record_act (open_process p) s)

  unfoldable pub open_number : Option ℤ → Impl → Answer × Impl
  open_number none s = (value_error, s)
  open_number (some (pos p)) s = open_pid p s
  open_number (some (negsuc n)) s = (value_error, s)

  unfoldable pub read_main_pid : Text × Impl → Answer × Impl
  read_main_pid (out, s) =
      let mainpid = strip (after_last (codes "=") out) in
      if mainpid == codes "0" then (answer false, s) else open_number (parse_int mainpid) s

  unfoldable pub is_running_of : Text → Option ℕ → Impl → Answer × Impl
  is_running_of script_path none s =
      read_main_pid (systemctl (codes "show" ∷ codes "-p" ∷ codes "MainPID" ∷ []) script_path s)
  is_running_of script_path (some p) s = as_answer (ask_alive p s)

  unfoldable pub is_running : Text → Impl → Answer × Impl
  is_running script_path s = is_running_of script_path s.process s

  -- `start`; what the class of pytest-shell-utilities does is `base_start`.
  unfoldable pub registered : Bool × Impl → Bool × Impl
  registered (started, s) = (started, record s { at_exit = true })

  unfoldable pub start : (Impl → Bool × Impl) → Impl → Bool × Impl
  start base_start s = registered (base_start s)

  -- `pid`, where the process is known.
  unfoldable pub pid_if : ℕ → Bool × Impl → Option ℕ × Impl
  pid_if p (true, s) = (some p, s)
  pid_if p (false, s) = (none, s)

  -- `psutil.Process(pid)`
  unfoldable pub process_pid : Option ℕ → ℕ
  process_pid none = sys.own_pid
  process_pid (some p) = p

  unfoldable pub found_children : Option (List ℕ) → Impl → Impl
  found_children none s = s
  found_children (some cs) s = record s { children = collect cs s.children }

  unfoldable pub add_children : Option ℕ × Impl → Option ℕ × Impl
  add_children (pid, s) =
      let p = process_pid pid in
      (pid, found_children (sys.children s.acts p) (record_act (list_children p) s))

  unfoldable pub read_exec_start : Text × Impl → List Text × Impl
  read_exec_start (out, s) = (parse_cmdline out, s)

  unfoldable pub cmdline_if : Text → ℕ → Bool × Impl → List Text × Impl
  cmdline_if script_path p (true, s) = (sys.cmdline s.acts p, s)
  cmdline_if script_path p (false, s) =
      read_exec_start (systemctl (codes "show" ∷ codes "-p" ∷ codes "ExecStart" ∷ []) script_path s)

  unfoldable pub stop_service : Text → List Text × Impl → List Text × Impl
  stop_service script_path (line, s) = (line, (systemctl (codes "stop" ∷ []) script_path s).1)

  -- The first `wait`, of a process that the stop did not end.
  unfoldable pub wait_if : ℕ → List Text → Bool × Impl → List Text × Impl
  wait_if p line (true, s) = (sys.cmdline s.acts p, record_act (wait p) s)
  wait_if p line (false, s) = (line, s)

  unfoldable pub outlast : ℕ → List Text × Impl → List Text × Impl
  outlast p (line, s) = wait_if p line (ask_alive p s)

  -- From the exit code on.
  unfoldable pub read_journal : ℕ → List Text → Text × Impl → Option ProcessResult × Impl
  read_journal code line (out, s) =
      let result = some (record { returncode = code; stdout = []; stderr = out; cmdline = line }) in
      (result, record s { terminal_result = result; children = [] })

  unfoldable pub journal : Text × Impl → Text × Impl
  journal (name, s) =
      run_command (codes "journalctl" ∷ codes "--no-pager" ∷ codes "-u" ∷ name ∷ []) s

  unfoldable pub end_process : Text → ℕ → Option ℕ → List Text × Impl → Option ProcessResult × Impl
  end_process script_path p pid (line, s) =
      let code = or_zero (sys.wait_code s.acts p) in
      let gone = record (record_act (wait p) s) { process = none } in
      let killed = record_act (terminate_process pid s.children) gone in
      read_journal code line (journal (get_service_name script_path killed))

  unfoldable pub stop_with : Text → ℕ → Option ℕ × Impl → Option ProcessResult × Impl
  stop_with script_path p (pid, s) =
      end_process script_path p pid
        (outlast p (stop_service script_path (cmdline_if script_path p (ask_alive p s))))

  unfoldable pub terminate_of : Text → Option ℕ → Impl → Option ProcessResult × Impl
  terminate_of script_path none s = (s.terminal_result, s)
  terminate_of script_path (some p) s =
      stop_with script_path p (add_children (pid_if p (ask_alive p (record s { at_exit = false }))))

  -- `_terminate`
  unfoldable pub terminate : Text → Impl → Option ProcessResult × Impl
  terminate script_path s = terminate_of script_path s.process s
