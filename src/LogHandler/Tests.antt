-- ===== src/LogHandler/Tests.antt =====
-- A handler in process 5 and in a fork of it, process 6.
use pytest_salt_factories.Base.{ℕ, ◌≡◌, refl, true, false, none, some, [], ◌∷◌, nat_eq, any}
use pytest_salt_factories.Base.Text.{codes, text_methods, text_eq}
use pytest_salt_factories.Base.Dict.{lookup}
use pytest_salt_factories.LogHandler.{
  ZmqHandler, Process, Emission, sends, again, is_pid, new_handler, stop, stop_for_retry,
  connect_socket, connect, start_here, start, Report, after_report, queue_message, send_again,
  send_first, send_prepared, emit_with, come_back, emit, close, set_state, emits,
}
use pytest_salt_factories.LogHandler.Coherent.{IsCoherent, IsOpen}
use pytest_salt_factories.LogHandler.Laws.{
  Reach, starts, emits_record, closes, here, next, Reach-new_IsCoherent, emits-close, start-IsOpen,
}
use pytest_salt_factories.LogHandler.Log.{
  log_of, fate, log_fates, fates_of, log_fate, log_emissions, emits_in,
}
use pytest_salt_factories.LogHandler.Refines.{log_of-emits_in}
use pytest_salt_factories.LogHandler.Setup.{
  LogOpts, PytestConfig, Opts, accepts, role_key_error, SetupResult, handler, key_error,
  check_log_port, check_log, check_config, check_role, virtual, level_name, level_or_error,
  ask_gateway, setup_port, setup_host, setup_log, setup_config, setup_role, setup_handlers,
}

program : Unit {0}
unfolding text_methods nat_eq any lookup is_pid new_handler stop stop_for_retry connect_socket
    connect start_here start after_report queue_message send_again send_first send_prepared
    emit_with come_back emit close set_state emits fate log_fates fates_of log_fate log_emissions
    emits_in check_log_port check_log check_config check_role virtual level_name level_or_error
    ask_gateway setup_port setup_host setup_log setup_config setup_role setup_handlers
program = tt

abbrev parent_process : Process
parent_process = record { getpid = 5; context_ok = true; socket_ok = true }

abbrev child_process : Process
child_process = record { getpid = 6; context_ok = true; socket_ok = true }

abbrev sent : ℕ → Emission ℕ
sent m = record { msg = some m; first = sends; second = sends; reports = [] }

abbrev lost : ℕ → Emission ℕ
lost m = record { msg = some m; first = again; second = again; reports = [] }

abbrev fresh : ZmqHandler ℕ
fresh = new_handler 5

-- The child_process connects a socket of its own; the high water mark is told of with the next message.
run-forked :
    emits ((parent_process, sent 1) ∷ (child_process, lost 2) ∷ (child_process, sent 3) ∷ []) fresh
    ≡ record {
      pid = some 6;
      context = true;
      pusher = true;
      exiting = false;
      dropped_messages_count = 0;
      queued = 1 ∷ 3 ∷ [];
      lost = 1;
    }
unfolding program
run-forked = refl

set_state_awake : set_state {M = ℕ} 5 ≡ record fresh { pid = none }
unfolding program
set_state_awake = refl

abbrev forked : Reach fresh (start child_process (emit parent_process (sent 1) fresh))
forked =
    next (next here (emits_record parent_process (sent 1) fresh))
      (starts child_process (emit parent_process (sent 1) fresh))

Reach-new_IsCoherent_example : IsCoherent (start child_process (emit parent_process (sent 1) fresh))
Reach-new_IsCoherent_example = Reach-new_IsCoherent 5 forked

emits-close_holds :
    emits ((child_process, sent 1) ∷ (parent_process, sent 2) ∷ []) (close fresh) ≡ close fresh
emits-close_holds = emits-close ((child_process, sent 1) ∷ (parent_process, sent 2) ∷ []) fresh

-- A closed handler starts again.
start-IsOpen_example : IsOpen parent_process (start parent_process (close fresh))
start-IsOpen_example = start-IsOpen 5 parent_process (next here (closes fresh)) refl refl

abbrev report : ℕ → Report ℕ
report m = record { msg = some m; first = sends; second = sends }

abbrev lost_report : ℕ → Report ℕ
lost_report m = record { msg = some m; first = again; second = again }

-- The third message: two of its reports are sent, and the next is lost.
abbrev told : Emission ℕ
told = record (sent 3) { reports = report 31 ∷ report 32 ∷ lost_report 33 ∷ report 34 ∷ [] }

log_of-emits_in_example :
    IsOpen parent_process
      (emits_in parent_process (sent 1 ∷ lost 2 ∷ told ∷ sent 4 ∷ []) (start parent_process fresh))
    × (log_of (
          emits_in parent_process
            (sent 1 ∷ lost 2 ∷ told ∷ sent 4 ∷ [])
            (start parent_process fresh))
        ≡ record { sent = 1 ∷ 3 ∷ 31 ∷ 32 ∷ 4 ∷ []; lost = 2; untold = 0 })
unfolding program
log_of-emits_in_example =
    log_of-emits_in parent_process (sent 1 ∷ lost 2 ∷ told ∷ sent 4 ∷ [])
      (start parent_process fresh) (refl, refl, refl) refl

abbrev log_opts : LogOpts
log_opts = record {
  disabled = false;
  host = some (codes "127.0.0.1");
  pytest_windows_guest = none;
  port = some 3330;
  prefix = none;
  level = some (codes "debug");
}

abbrev config : PytestConfig
config = record { log = some log_opts; returner_address = none }

abbrev of_master : Opts
of_master = record {
  role = some (codes "master");
  plain_role = none;
  configs = (codes "pytest-master", config) ∷ [];
}

-- The options have a configuration under `pytest` only.
abbrev of_any : Opts
of_any = record of_master { configs = (codes "pytest", config) ∷ [] }

abbrev setup : Opts → SetupResult
setup = setup_handlers ((codes "debug", 10) ∷ []) (λ t. t) (λ host port. true)

setup_master :
    setup of_master
    ≡ handler record { host = codes "127.0.0.1"; port = 3330; log_prefix = none; level = 10 }
unfolding program
setup_master = refl

setup_any :
    (virtual true true of_any ≡ accepts) × (setup of_any ≡ key_error (codes "pytest-master"))
unfolding program
setup_any = (refl, refl)

virtual-without_port :
    virtual true true (record of_master {
      configs =
          (codes "pytest-master", record config { log = some (record log_opts { port = none }) })
          ∷ [];
    })
    ≡ role_key_error
unfolding program
virtual-without_port = refl
