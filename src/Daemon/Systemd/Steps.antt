-- ===== src/Daemon/Systemd/Steps.antt =====
-- What the steps of `_terminate` add to what was done: the stops of the service, and what is killed.
use pytest_salt_factories.Base.{
  ℕ, ◌+◌, ◌≡◌, refl, sym, ◌∙◌, ap, Bool, true, false, Option, List, [], ◌∷◌, ◌++◌, ◌==◌, arith,
  append-nil, append_assoc, if◌then◌else◌,
}
use pytest_salt_factories.Base.Text.{Text, codes, text_eq, text_methods}
use pytest_salt_factories.Daemon.Systemd.{
  Act, internal_run, is_alive, wait, terminate_process, System, Impl, record_act, get_service_name,
  run_command, systemctl_with, systemctl, ask_alive, read_exec_start, cmdline_if, stop_service,
  wait_if, outlast,
}

-- The calls of `terminate_process`.
abbrev pub killed_by : Act → List (Option ℕ × List ℕ)
killed_by (terminate_process pid children) = (pid, children) ∷ []
killed_by _ = []

abbrev pub killed : List Act → List (Option ℕ × List ℕ)
killed [] = []
killed (a ∷ acts) = killed_by a ++ killed acts

-- How often a service was stopped.
abbrev pub is_stop_line : List Text → Bool
is_stop_line (program ∷ verb ∷ line) = verb == codes "stop"
is_stop_line _ = false

abbrev pub stops_by : Act → ℕ
stops_by (internal_run line) = if is_stop_line line then 1 else 0
stops_by _ = 0

abbrev pub stops : List Act → ℕ
stops [] = 0
stops (a ∷ acts) = stops_by a + stops acts

pub killed-record :
    (acts : List Act) (a : Act) → killed (acts ++ (a ∷ [])) ≡ killed acts ++ killed_by a
killed-record [] a = append-nil (killed_by a)
killed-record (b ∷ acts) a =
    ap (λ l. killed_by b ++ l) (killed-record acts a)
    ∙ sym (append_assoc (killed_by b) (killed acts) (killed_by a))

pub stops-record : (acts : List Act) (a : Act) → stops (acts ++ (a ∷ [])) ≡ stops acts + stops_by a
stops-record [] a = ground arith
stops-record (b ∷ acts) a = ground (arith, stops-record acts a)

-- A step that kills nothing, after which the children are the same, and a number of stops.
abbrev pub Stopped : ℕ → Impl → Impl → Type 0
Stopped n s t =
    (killed t.acts ≡ killed s.acts)
    × (t.children ≡ s.children)
    × (stops t.acts ≡ stops s.acts + n)
    × (t.at_exit ≡ s.at_exit)

pub record_act-Stopped :
    (a : Act) (s : Impl) → killed_by a ≡ [] → Stopped (stops_by a) s (record_act a s)
unfolding record_act
record_act-Stopped a s quiet = (
  killed-record s.acts a ∙ ap (λ l. killed s.acts ++ l) quiet ∙ append-nil (killed s.acts),
  refl,
  stops-record s.acts a,
  refl,
)

Stopped-trans : (j k : ℕ) (s t u : Impl) → Stopped j s t → Stopped k t u → Stopped (j + k) s u
Stopped-trans j k s t u first second =
    (second.0 ∙ first.0, second.1 ∙ first.1, ground (arith, first.2, second.2), second.3 ∙ first.3)

module _ (sys : System) (script_path : Text) where
  systemctl-Stopped :
      (verb : Text) (args : List Text) (s : Impl)
      → Stopped
          (if verb == codes "stop" then 1 else 0)
          s
          (systemctl sys (verb ∷ args) script_path s).1
  unfolding systemctl systemctl_with run_command get_service_name
  systemctl-Stopped verb args s =
      let name = (get_service_name script_path s).0 in
      record_act-Stopped (internal_run (codes "systemctl" ∷ (verb ∷ args) ++ (name ∷ [])))
        (get_service_name script_path s).1 refl

  pub ask_alive-Stopped : (p : ℕ) (s : Impl) → Stopped 0 s (ask_alive sys p s).1
  unfolding ask_alive
  ask_alive-Stopped p s = record_act-Stopped (is_alive p) s refl

  cmdline_if-Stopped :
      (p : ℕ) (b : Bool) (s : Impl) → Stopped 0 s (cmdline_if sys script_path p (b, s)).1
  unfolding cmdline_if read_exec_start text_methods
  cmdline_if-Stopped p true s = (refl, refl, ground arith, refl)
  cmdline_if-Stopped p false s =
      systemctl-Stopped (codes "show") (codes "-p" ∷ codes "ExecStart" ∷ []) s

  stop_service-Stopped :
      (line : List Text) (s : Impl) → Stopped 1 s (stop_service sys script_path (line, s)).1
  unfolding stop_service text_methods
  stop_service-Stopped line s = systemctl-Stopped (codes "stop") [] s

  wait_if-Stopped :
      (p : ℕ) (line : List Text) (b : Bool) (s : Impl) → Stopped 0 s (wait_if sys p line (b, s)).1
  unfolding wait_if
  wait_if-Stopped p line true s = record_act-Stopped (wait p) s refl
  wait_if-Stopped p line false s = (refl, refl, ground arith, refl)

  -- From the test for the command line to the end of the process.
  abbrev pub ended : ℕ → Impl → List Text × Impl
  ended p s =
      outlast sys p
        (stop_service sys script_path (cmdline_if sys script_path p (ask_alive sys p s)))

  pub ended-Stopped : (p : ℕ) (s : Impl) → Stopped 1 s (ended p s).1
  unfolding outlast
  ended-Stopped p s =
      let asked = ask_alive sys p s in
      let line = cmdline_if sys script_path p asked in
      let stopped = stop_service sys script_path line in
      let again = ask_alive sys p stopped.1 in
      Stopped-trans 1 0 s stopped.1 (ended p s).1
        (Stopped-trans 0 1 s line.1 stopped.1
          (Stopped-trans 0 0 s asked.1 line.1 (ask_alive-Stopped p s)
            (cmdline_if-Stopped p asked.0 asked.1))
          (stop_service-Stopped line.0 line.1))
        (Stopped-trans 0 0 stopped.1 again.1 (ended p s).1 (ask_alive-Stopped p stopped.1)
          (wait_if-Stopped p stopped.0 again.0 again.1))
