-- ===== src/Container/Tests.antt =====
-- A container with two start attempts.
use pytest_salt_factories.Base.{
  ℕ, ◌≤◌, ◌≡◌, refl, Bool, true, false, none, some, List, [], ◌∷◌, ◌++◌, ◌==◌, nat_eq, any,
  contains, remove, keep_if,
}
use pytest_salt_factories.Base.Text.{codes, text_methods}
use pytest_salt_factories.Base.Dict.{lookup, insert}
use pytest_salt_factories.Base.Int.{pos, int_eq, int_discrete}
use pytest_salt_factories.Base.Decimal.{decimals}
use pytest_salt_factories.Container.{
  run_container, remove_container, callback, Container, Try, running, passed, failed,
  factory_not_started, poll_status, poll_loop, returns_true, is_true, record_call, run_callbacks,
  remove_found, end_container, terminate, drop_container, run_attempt, end_started, after_attempt,
  next_attempt, attempts, run_before, finish_start, start_attempts, start_fresh, start,
  started_block,
}
use pytest_salt_factories.Container.Attempts.{runs, runs-start}
use pytest_salt_factories.Container.Ends.{Ends, start-Ends}
use pytest_salt_factories.Container.Leak.{terminate-start_leaks}
use pytest_salt_factories.Container.Checks.{
  CheckRound, PortRound, pop_confirmed, check_step, check_callbacks, run_container_start_checks,
  port_step, remove_ports, check_ports_loop, check_listening_ports, Confirmed,
  check_listening_ports-passed, run_container_start_checks-Confirmed,
}
use pytest_salt_factories.Container.Ports.{
  PortMap, port, pair, ok, unbound_local, check_ports_from, check_ports_of, add_port,
  port_and_proto, add_tcp, add_run_ports, HostBinding, first_binding, binding_of,
  get_host_port_binding, host_port, get_check_ports, is_port, mapped, lookup-check_ports_of,
  is_ipv4, port_of_first, first_binding_lem,
}
use pytest_salt_factories.Base.Dict.{update}
use pytest_salt_factories.Daemon.{as_values}
use pytest_salt_factories.Container.Salt.{
  Hook, before_start, after_terminate, SaltContainer, register_callback, is_container_running,
  same_ports, salt_check_ports, exec_cmdline, register, terminate_both, is_running, register_all,
}

program : Unit {0}
unfolding text_methods decimals nat_eq int_eq int_discrete any contains remove keep_if lookup insert
    poll_status poll_loop is_true record_call run_callbacks remove_found end_container terminate
    drop_container run_attempt end_started after_attempt next_attempt attempts run_before
    finish_start start_attempts start_fresh start started_block pop_confirmed check_step
    check_callbacks run_container_start_checks port_step remove_ports check_ports_loop
    check_listening_ports check_ports_from check_ports_of add_port port_and_proto add_tcp
    add_run_ports first_binding binding_of get_host_port_binding host_port get_check_ports update
    as_values register_callback is_container_running same_ports salt_check_ports exec_cmdline
    register terminate_both is_running
program = tt

abbrev idle : Container ℕ
idle = record {
  container = false;
  terminate_result = false;
  at_exit = false;
  max_start_attempts = 2;
  before_start_callbacks = 1 ∷ [];
  after_start_callbacks = 2 ∷ [];
  before_terminate_callbacks = [];
  after_terminate_callbacks = 3 ∷ [];
  calls = [];
}

abbrev no_raise : ℕ → Bool
no_raise c = false

abbrev comes_up : Try
comes_up = record {
  runs = true;
  polls = record { late = false; status = running; checks = passed } ∷ [];
}

abbrev too_late : Try
too_late = record {
  runs = true;
  polls = record { late = true; status = running; checks = failed } ∷ [];
}

abbrev dies : Try
dies = record {
  runs = true;
  polls = record { late = false; status = running; checks = factory_not_started } ∷ [];
}

abbrev second_time : Container ℕ
second_time = record idle {
  container = true;
  at_exit = true;
  calls = callback 1 ∷ run_container ∷ remove_container ∷ run_container ∷ callback 2 ∷ [];
}

run-second :
    start no_raise false false none (too_late ∷ comes_up ∷ []) idle ≡ (second_time, returns_true)
unfolding program
run-second = refl

-- The third of two attempts: the container is removed, and `start` returns `True`.
run-third : start no_raise false false none (too_late ∷ too_late ∷ comes_up ∷ []) idle ≡ (
  record idle {
    terminate_result = true;
    calls =
        callback 1
        ∷ run_container
        ∷ remove_container
        ∷ run_container
        ∷ remove_container
        ∷ run_container
        ∷ remove_container
        ∷ callback 3
        ∷ callback 2
        ∷ [];
  },
  returns_true,
)
unfolding program
run-third = refl

start-Ends_example :
    Ends 0 2 (start no_raise false false none (too_late ∷ too_late ∷ comes_up ∷ []) idle)
unfolding program
start-Ends_example =
    start-Ends no_raise false false none (too_late ∷ too_late ∷ comes_up ∷ []) idle refl refl

runs-start_holds :
    runs (start no_raise false false none (too_late ∷ comes_up ∷ []) idle).0.calls ≤ 3
unfolding program
runs-start_holds = runs-start no_raise false false none (too_late ∷ comes_up ∷ []) idle

abbrev leaked : Container ℕ
leaked = record idle {
  container = true;
  terminate_result = true;
  calls =
      callback 1 ∷ run_container ∷ remove_container ∷ callback 3 ∷ run_container ∷ callback 2 ∷ [];
}

run-leaked : start no_raise false false none (dies ∷ comes_up ∷ []) idle ≡ (leaked, returns_true)
unfolding program
run-leaked = refl

terminate-start_leaks_example : (leaked.container ≡ true) × (terminate true leaked ≡ leaked)
unfolding program
terminate-start_leaks_example =
    terminate-start_leaks no_raise false true none dies (comes_up ∷ []) idle leaked refl refl refl
      refl

abbrev port_rounds : List (PortRound ℕ)
port_rounds =
    record { late = false; is_running = true; connectable = 80 ∷ [] }
    ∷ record { late = false; is_running = true; connectable = 80 ∷ 443 ∷ [] }
    ∷ record { late = false; is_running = true; connectable = [] }
    ∷ []

check_listening_ports-passed_holds :
    any (λ (r : PortRound ℕ). contains r.connectable 443) port_rounds ≡ true
unfolding program
check_listening_ports-passed_holds =
    check_listening_ports-passed port_rounds (80 ∷ 443 ∷ []) 443 refl refl

abbrev polled_rounds : List (CheckRound ℕ)
polled_rounds =
    record { late = false; is_running = true; confirms = λ c. c == 1 }
    ∷ record { late = false; is_running = true; confirms = λ c. c == 2 }
    ∷ record { late = false; is_running = true; confirms = λ c. false }
    ∷ []

run_container_start_checks-Confirmed_holds : Confirmed polled_rounds (1 ∷ 2 ∷ [])
unfolding program
run_container_start_checks-Confirmed_holds =
    run_container_start_checks-Confirmed polled_rounds (1 ∷ 2 ∷ []) refl

run-pair_first : check_ports_of (pair (pos 1) (pos 2) ∷ []) ≡ unbound_local
unfolding program
run-pair_first = refl

run-kwargs :
    add_run_ports
      ((codes "5000/tcp", none)
        ∷ (codes "12345/tcp", some (pos 54321))
        ∷ (codes "9/udp", none)
        ∷ [])
      []
    ≡ ok ((pos 5000, none) ∷ (pos 12345, some (pos 54321)) ∷ [])
unfolding program
run-kwargs = refl

lookup-check_ports_of_holds :
    (out : PortMap) × (check_ports_of (port (pos 1) ∷ pair (pos 2) (pos 3) ∷ []) ≡ ok out)
    × (lookup (pos 2) out
        ≡ mapped (pos 2) (any (is_port (pos 2)) (port (pos 1) ∷ pair (pos 2) (pos 3) ∷ [])))
lookup-check_ports_of_holds = lookup-check_ports_of (pos 1) (pair (pos 2) (pos 3) ∷ []) (pos 2)

abbrev bindings : List HostBinding
bindings =
    record { host_ip = codes "0.0.0.0"; host_port = pos 32 }
    ∷ record { host_ip = codes "::"; host_port = pos 33 }
    ∷ []

run-binding :
    get_check_ports
      (some ((codes "80/tcp", some bindings) ∷ []))
      ((pos 80, none) ∷ (pos 81, some (pos 7)) ∷ [])
    ≡ (pos 80, some (pos 32)) ∷ (pos 81, some (pos 7)) ∷ []
unfolding program
run-binding = refl

first_binding_lem_holds :
    (first_binding false bindings ≡ port_of_first (keep_if is_ipv4 bindings))
    × (first_binding true bindings ≡ port_of_first bindings)
first_binding_lem_holds = first_binding_lem bindings

-- A daemon that lists its callbacks and that runs, in a container that is up.
abbrev note : Hook → ℕ → List ℕ → List ℕ
note hook c d = d ++ (c ∷ [])

abbrev in_container : SaltContainer ℕ (List ℕ)
in_container = record {
  container = second_time;
  daemon = [];
  daemon_started = true;
  daemon_starting = true;
  in_container_post_init = false;
}

registered_apart :
    ((register_all note
        (λ d. true)
        (λ d. d)
        ((before_start, 7, true) ∷ (after_terminate, 8, false) ∷ [])
        in_container).container.before_start_callbacks
      ≡ 1 ∷ 7 ∷ [])
    × ((register_all note
          (λ d. true)
          (λ d. d)
          ((before_start, 7, true) ∷ (after_terminate, 8, false) ∷ [])
          in_container).daemon
        ≡ 8 ∷ [])
    × (is_running note (λ d. true) (λ d. d) true in_container ≡ true)
    × (is_running note
          (λ d. true)
          (λ d. d)
          true
          (terminate_both note (λ d. true) (λ d. d) true in_container)
        ≡ false)
    × (salt_check_ports (pos 1 ∷ pos 2 ∷ []) ((pos 2, some (pos 5)) ∷ [])
        ≡ (pos 1, some (pos 1)) ∷ (pos 2, some (pos 5)) ∷ [])
unfolding program
registered_apart = (refl, refl, refl, refl, refl)
