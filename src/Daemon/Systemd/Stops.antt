-- ===== src/Daemon/Systemd/Stops.antt =====
-- The end of a service: what is stopped, and what is killed.
use pytest_salt_factories.Base.{
  ℕ, ◌+◌, ◌≡◌, refl, sym, ◌∙◌, ap, subst, Bool, true, false, Option, none, some, List, [], ◌∷◌,
  ◌++◌, arith, append-nil, if◌then◌else◌,
}
use pytest_salt_factories.Base.Text.{Text, codes, text_eq, text_methods}
use pytest_salt_factories.Daemon.Systemd.{
  internal_run, is_alive, list_children, wait, terminate_process, System, ProcessResult, Impl,
  record_act, get_service_name, collect, run_command, ask_alive, pid_if, process_pid,
  found_children, add_children, read_journal, journal, end_process, stop_with, terminate_of,
  terminate,
}
use pytest_salt_factories.Daemon.Systemd.Steps.{
  killed, stops, killed-record, stops-record, record_act-Stopped, ask_alive-Stopped, ended,
  ended-Stopped,
}

module _ (sys : System) (script_path : Text) where
  abbrev end_line : Impl → List Text
  end_line s =
      codes "journalctl" ∷ codes "--no-pager" ∷ codes "-u" ∷ (get_service_name script_path s).0 ∷ []

  -- What the end leaves: nothing but the result, which is also what it returns.
  abbrev pub Over : Option ProcessResult × Impl → Type 0
  Over (result, s) =
      (s.process ≡ none) × (s.children ≡ []) × (s.terminal_result ≡ result) × (s.at_exit ≡ false)

  end_process-Over :
      (p : ℕ) (pid : Option ℕ) (line : List Text) (s : Impl)
      → s.at_exit ≡ false
      → Over (end_process sys script_path p pid (line, s))
  unfolding end_process read_journal journal run_command get_service_name record_act
  end_process-Over p pid line s unregistered = (refl, refl, refl, unregistered)

  end_process-killed :
      (p : ℕ) (pid : Option ℕ) (line : List Text) (s : Impl)
      → (killed (end_process sys script_path p pid (line, s)).1.acts
          ≡ killed s.acts ++ ((pid, s.children) ∷ []))
        × (stops (end_process sys script_path p pid (line, s)).1.acts ≡ stops s.acts)
  unfolding end_process read_journal journal run_command get_service_name record_act text_methods
  end_process-killed p pid line s =
      let waited = s.acts ++ (wait p ∷ []) in
      let gone = waited ++ (terminate_process pid s.children ∷ []) in
      let read = internal_run (end_line s) in
      (
        killed-record gone read
            ∙ append-nil (killed gone)
            ∙ killed-record waited (terminate_process pid s.children)
            ∙ ap (λ l. l ++ ((pid, s.children) ∷ []))
                (killed-record s.acts (wait p) ∙ append-nil (killed s.acts)),
        ground (
          arith,
          stops-record gone read,
          stops-record waited (terminate_process pid s.children),
          stops-record s.acts (wait p),
        ),
      )

  -- The children of a process are added to those that are known.
  abbrev pub gather : Option (List ℕ) → List ℕ → List ℕ
  gather none known = known
  gather (some cs) known = collect cs known

  -- The process that `terminate` takes for the service's, and the children that it finds.
  abbrev pub pid_found : ℕ → Impl → Option ℕ
  pid_found p s = if sys.alive s.acts p then some p else none

  abbrev pub children_found : ℕ → Impl → List ℕ
  children_found p s =
      gather
        (sys.children (s.acts ++ (is_alive p ∷ [])) (if sys.alive s.acts p then p else sys.own_pid))
        s.children

  -- The state in which `terminate` goes on, with the children.
  abbrev listed : ℕ → Impl → Option ℕ × Impl
  listed p s = add_children sys (pid_if sys p (ask_alive sys p (record s { at_exit = false })))

  found_children-children :
      (o : Option (List ℕ)) (s : Impl)
      → ((found_children sys o s).children ≡ gather o s.children)
        × ((found_children sys o s).acts ≡ s.acts)
        × ((found_children sys o s).at_exit ≡ s.at_exit)
  unfolding found_children
  found_children-children none s = (refl, refl, refl)
  found_children-children (some cs) s = (refl, refl, refl)

  found_children-Stopped :
      (p : ℕ) (o : Option (List ℕ)) (s : Impl)
      → (killed (found_children sys o (record_act (list_children p) s)).acts ≡ killed s.acts)
        × (stops (found_children sys o (record_act (list_children p) s)).acts ≡ stops s.acts)
  found_children-Stopped p o s =
      let asked = record_act-Stopped (list_children p) s refl in
      let same = (found_children-children o (record_act (list_children p) s)).1 in
      (ap killed same ∙ asked.0, ground (arith, ap stops same, asked.2))

  add_children-pid_if :
      (p : ℕ) (b : Bool) (s : Impl)
      → ((add_children sys (pid_if sys p (b, s))).0 ≡ (if b then some p else none))
        × ((add_children sys (pid_if sys p (b, s))).1.children
            ≡ gather (sys.children s.acts (if b then p else sys.own_pid)) s.children)
        × (killed (add_children sys (pid_if sys p (b, s))).1.acts ≡ killed s.acts)
        × (stops (add_children sys (pid_if sys p (b, s))).1.acts ≡ stops s.acts)
        × ((add_children sys (pid_if sys p (b, s))).1.at_exit ≡ s.at_exit)
  unfolding add_children pid_if process_pid record_act
  add_children-pid_if p true s =
      let found =
        found_children-children (sys.children s.acts p) (record_act (list_children p) s) in
      let quiet = found_children-Stopped p (sys.children s.acts p) s in
      (refl, found.0, quiet.0, quiet.1, found.2)
  add_children-pid_if p false s =
      let o = sys.children s.acts sys.own_pid in
      let found = found_children-children o (record_act (list_children sys.own_pid) s) in
      let quiet = found_children-Stopped sys.own_pid o s in
      (refl, found.0, quiet.0, quiet.1, found.2)

  listed-children :
      (p : ℕ) (s : Impl)
      → ((listed p s).0 ≡ pid_found p s)
        × ((listed p s).1.children ≡ children_found p s)
        × (killed (listed p s).1.acts ≡ killed s.acts)
        × (stops (listed p s).1.acts ≡ stops s.acts)
        × ((listed p s).1.at_exit ≡ false)
  unfolding ask_alive record_act
  listed-children p s =
      let asked = ask_alive sys p (record s { at_exit = false }) in
      let added = add_children-pid_if p asked.0 asked.1 in
      let quiet = ask_alive-Stopped sys script_path p (record s { at_exit = false }) in
      (added.0, added.1, added.2 ∙ quiet.0, ground (arith, added.3, quiet.2), added.4)

  -- Where the daemon's process is known and still runs, `terminate` ends it and its children, and those that
  -- were known before. Where that process has ended by itself, `terminate` ends no process of the
  -- service's, but all the children of the process that calls it, which is the test run's own, and
  -- those that were known before.
  pub killed-terminate :
      (p : ℕ) (s : Impl)
      → s.process ≡ some p
      → killed (terminate sys script_path s).1.acts
        ≡ killed s.acts ++ ((pid_found p s, children_found p s) ∷ [])
  unfolding terminate terminate_of stop_with
  killed-terminate p s known =
      let start = listed p s in
      let found = listed-children p s in
      let last = ended sys script_path p start.1 in
      let quiet = ended-Stopped sys script_path p start.1 in
      ap (λ o. killed (terminate_of sys script_path o s).1.acts) known
      ∙ (end_process-killed p start.0 last.0 last.1).0
      ∙ ap (λ l. l ++ ((start.0, last.1.children) ∷ [])) (quiet.0 ∙ found.2)
      ∙ ap (λ o. killed s.acts ++ ((o, last.1.children) ∷ [])) found.0
      ∙ ap (λ l. killed s.acts ++ ((pid_found p s, l) ∷ [])) (quiet.1 ∙ found.1)

  terminate_of-Over :
      (p : ℕ) (s : Impl)
      → Over (terminate_of sys script_path (some p) s)
        × (stops (terminate_of sys script_path (some p) s).1.acts ≡ stops s.acts + 1)
  unfolding terminate_of stop_with
  terminate_of-Over p s =
      let start = listed p s in
      let found = listed-children p s in
      let last = ended sys script_path p start.1 in
      let quiet = ended-Stopped sys script_path p start.1 in
      (
        end_process-Over p start.0 last.0 last.1 (quiet.3 ∙ found.4),
        ground (arith, (end_process-killed p start.0 last.0 last.1).1, quiet.2, found.3),
      )

  terminate-again : (e : Option ProcessResult × Impl) → Over e → terminate sys script_path e.1 ≡ e
  unfolding terminate terminate_of
  terminate-again e over =
      ap (λ o. terminate_of sys script_path o e.1) over.0 ∙ ap (λ r. (r, e.1)) over.2

  terminate_once :
      (p : ℕ) (s : Impl)
      → s.process ≡ some p
      → Over (terminate sys script_path s)
        × (stops (terminate sys script_path s).1.acts ≡ stops s.acts + 1)
  unfolding terminate
  terminate_once p s known =
      subst
        (λ o.
          Over (terminate_of sys script_path o s)
          × (stops (terminate_of sys script_path o s).1.acts ≡ stops s.acts + 1))
        (sym known) (terminate_of-Over p s)

  -- Where the daemon's process is known, `terminate` stops the service once, and leaves no process, no
  -- children and no call at the exit of Python, but the result that it returns. Once more it does
  -- nothing, and returns that result.
  pub terminate-terminate :
      (p : ℕ) (s : Impl)
      → s.process ≡ some p
      → Over (terminate sys script_path s)
        × (stops (terminate sys script_path s).1.acts ≡ stops s.acts + 1)
        × (terminate sys script_path (terminate sys script_path s).1 ≡ terminate sys script_path s)
  terminate-terminate p s known =
      let once = terminate_once p s known in
      (once.0, once.1, terminate-again (terminate sys script_path s) once.0)
