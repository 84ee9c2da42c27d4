-- ===== src/DaemonConfig/Tests.antt =====
-- A master, two minions, a syndic, a proxy and an api.
use pytest_salt_factories.Base.{
  any, ℕ, ◌+◌, ◌≡◌, refl, true, false, Option, none, some, List, [], ◌∷◌, ◌++◌, nat_eq, contains,
  add,
}
use pytest_salt_factories.Base.Text.{Text, codes, text_methods, text_eq, split}
use pytest_salt_factories.Base.Decimal.{decimals}
use pytest_salt_factories.TempFiles.{FilePath, path_eq, path_discrete, add_dirs}
use pytest_salt_factories.Manager.{Manager}
use pytest_salt_factories.Manager.RootDir.{
  numbered, free_from, new_root, make_root, default_root, get_root_dir_for_daemon,
}
use pytest_salt_factories.DaemonConfig.{
  str, num, table, Settings, empty, entry, settings, get, set_default, is_plain, override,
  merge_config, or_empty, MasterOf, id_of, match_transport, console_format, logfile_format,
  pytest_table, base_root, both_roots,
}
use pytest_salt_factories.DaemonConfig.Minion.{
  MinionPorts, port_or, master_port_or, asked_port, asked_ports, minion_ports, minion_start,
  log_formats, service_minion, rooted_minion, internal_minion, left_with, minion_default_config,
  event_of, table_events, events_of, minion_check_events,
}
use pytest_salt_factories.DaemonConfig.Master.{
  master_ports, master_start, service_master, rooted_master, internal_master, syndic_overrides,
  master_default_config, master_check_events, on_auth_event,
}
use pytest_salt_factories.DaemonConfig.Syndic.{
  syndic_port, syndic_start, service_syndic, rooted_syndic, internal_syndic, syndic_default_config,
  is_syndic_option, drop_syndic_options, get-drop_syndic_options,
}
use pytest_salt_factories.DaemonConfig.Proxy.{
  proxy_args, proxy_service_name, port_setting, api_ports, api_check_port,
}
use pytest_salt_factories.DaemonConfig.Merge.{put, merge, merge-UpdateLaws}
use pytest_salt_factories.DaemonConfig.Shared.{
  root_setting, given_root, MinionCall, Configured, configured, configure_minion,
  configure_minion-shared,
}

show_path : FilePath → Text
show_path [] = []
show_path (name ∷ path) = show_path path ++ (codes "/" ++ name)

path_of : FilePath → List Text → FilePath
path_of path [] = path
path_of path ([] ∷ names) = path_of path names
path_of path ((c ∷ name) ∷ names) = path_of ((c ∷ name) ∷ path) names

parse_path : Text → FilePath
parse_path t = path_of [] (split (codes "/") t)

program : Unit {0}
unfolding any syndic_port syndic_start service_syndic rooted_syndic internal_syndic
    syndic_default_config is_syndic_option drop_syndic_options proxy_args proxy_service_name
    port_setting api_ports api_check_port text_methods decimals nat_eq path_eq path_discrete
    contains add add_dirs numbered free_from new_root make_root default_root get_root_dir_for_daemon
    settings get set_default is_plain override merge_config or_empty id_of match_transport
    console_format logfile_format pytest_table base_root both_roots port_or master_port_or
    asked_port asked_ports minion_ports minion_start log_formats service_minion rooted_minion
    internal_minion left_with minion_default_config event_of table_events events_of
    minion_check_events master_ports master_start service_master rooted_master internal_master
    syndic_overrides master_default_config master_check_events on_auth_event root_setting given_root
    configured configure_minion put merge show_path path_of parse_path
program = tt

abbrev tmp_root : FilePath
tmp_root = codes "t" ∷ codes "tmp" ∷ []

abbrev manager : Manager
manager = record {
  root_dir = tmp_root;
  tmp_root_dir = tmp_root;
  log_server_host = codes "127.0.0.1";
  log_server_port = 3330;
  event_host = codes "127.0.0.1";
  event_port = 4440;
  system_service = false;
  scripts_dir = none;
  generate_scripts = true;
  python_executable = none;
  start_timeout = none;
  made = [];
}

abbrev some_ports : MinionPorts
some_ports = record { master_port = 4506; tcp_pub_port = 4510; tcp_pull_port = 4511 }

abbrev the_master : MasterOf
the_master = record {
  id = codes "m";
  interface = codes "127.0.0.1";
  ret_port = 5001;
  transport = str (codes "tcp");
}

abbrev unused : ℕ → ℕ
unused k = 6000 + k

abbrev minion_config : Settings
minion_config =
    (minion_default_config merge show_path some_ports unused tmp_root (codes "a") (codes "A") none
      none (some the_master) false).0

abbrev loaded_config : Settings
loaded_config = entry (codes "__role") (str (codes "minion")) minion_config

abbrev master_config : Settings
master_config =
    master_default_config merge show_path
      record {
        publish_port = 1;
        ret_port = 2;
        tcp_master_pub_port = 3;
        tcp_master_pull_port = 4;
        tcp_master_publish_pull = 5;
        tcp_master_workers = 6;
      }
      unused tmp_root (codes "m") (codes "M") none none false (some the_master) false

minion_ports_of :
    (get (codes "master_port") minion_config ≡ some (num 5001))
    × (get (codes "tcp_pub_port") minion_config ≡ some (num 6000))
    × (get (codes "root_dir") minion_config ≡ some (str (codes "/tmp/t")))
unfolding program
minion_ports_of = (refl, refl, refl)

master_syndic :
    (get (codes "syndic_master_port") master_config ≡ some (num 5001))
    × (get (codes "ret_port") master_config ≡ some (num 6001))
    × (master_check_events (codes "m") ≡ (codes "m", codes "salt/master/m/start") ∷ [])
    × (on_auth_event false (codes "a") (codes "pend") ≡ some (codes "a"))
unfolding program
master_syndic = (refl, refl, refl, refl)

abbrev call_of : Text → MinionCall
call_of id = record { id = id; prefix = id; overrides = none; master = none; unused = unused }

abbrev configure : Text → Settings → List FilePath → Option Configured
configure id defaults =
    configure_minion merge show_path parse_path some_ports 1 manager (call_of id) (some defaults)

abbrev first_made : List FilePath
first_made = add_dirs (codes "a" ∷ tmp_root) (tmp_root ∷ [])

abbrev first_made_config : Settings × Option Settings
first_made_config =
    minion_default_config merge show_path some_ports unused (codes "a" ∷ tmp_root) (codes "a")
      (codes "a") (some empty) none none false

abbrev first_call : Configured
first_call = record {
  root_dir = codes "a" ∷ tmp_root;
  config = first_made_config.0;
  defaults_left = first_made_config.1;
  dirs = first_made;
}

first_minion : configure (codes "a") empty (tmp_root ∷ []) ≡ some first_call
unfolding program
first_minion = refl

first_parses : parse_path (show_path first_call.root_dir) ≡ first_call.root_dir
unfolding program
first_parses = refl

-- What the call left in the dictionary.
abbrev shared : Settings
shared = first_made_config.0

no_override : get (codes "root_dir") (or_empty none) ≡ none
unfolding program
no_override = refl

shared_root :
    get (codes "root_dir") shared ≡ get (codes "root_dir") (or_empty first_call.defaults_left)
unfolding program
shared_root = refl

-- The minion `b` gets the directory of `a`.
configure_minion-shared_example :
    (s : Configured) × (configure (codes "b") shared first_made ≡ some s)
    × (s.root_dir ≡ codes "a" ∷ tmp_root)
    × (s.dirs ≡ add_dirs (codes "a" ∷ tmp_root) first_made)
configure_minion-shared_example =
    configure_minion-shared merge show_path parse_path some_ports merge-UpdateLaws 1 1 manager
      (call_of (codes "a")) (call_of (codes "b")) empty shared first_call (tmp_root ∷ []) first_made
      first_parses no_override first_minion shared_root

syndic_config :
    get (codes "syndic_master_port") (
      syndic_default_config merge show_path 4506 unused tmp_root
        (codes "s")
        (codes "S")
        none
        none
        (some the_master)
        false)
    ≡ some (num 5001)
unfolding program
syndic_config = refl

get-drop_syndic_options_holds :
    get (codes "syndic_master_port") (drop_syndic_options master_config) ≡ none
unfolding program
get-drop_syndic_options_holds = get-drop_syndic_options (codes "syndic_master_port") master_config

proxy-salt_proxy :
    (proxy_args true (codes "p") (codes "-d" ∷ []) ≡ codes "--proxyid=p" ∷ codes "-d" ∷ [])
    × (proxy_service_name none (codes "salt-proxy") (codes "p") ≡ codes "salt-proxy@p")
    × (api_check_port
          (settings ((codes "rest_tornado", table (settings ((codes "port", num 8000) ∷ []))) ∷ []))
        ≡ some (num 8000))
unfolding program
proxy-salt_proxy = (refl, refl, refl)
