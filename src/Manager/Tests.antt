-- ===== src/Manager/Tests.antt =====
-- A manager below `/tmp/t`.
use pytest_salt_factories.Base.{
  ◌≡◌, refl, Bool, true, false, none, some, List, [], ◌∷◌, ◌++◌, nat_eq, contains, add,
}
use pytest_salt_factories.Base.Text.{Text, codes, text_methods, text_eq}
use pytest_salt_factories.Base.Decimal.{decimals}
use pytest_salt_factories.Base.Dict.{lookup, insert}
use pytest_salt_factories.TempFiles.{FilePath, path_eq, path_discrete, add_dirs}
use pytest_salt_factories.LogHandler.Setup.{
  check_log_port, check_log, check_config, check_role, virtual, level_name, level_or_error,
  ask_gateway, setup_port, setup_host, setup_log, setup_config, setup_role, setup_handlers,
}
use pytest_salt_factories.Engine.Setup.{
  engine_accepts, no_returner_address, check_address, check_engine_config, check_engine_role,
  engine_virtual, both_of, address_parts, address_of_config, address_of_role, engine_address,
}
use pytest_salt_factories.Manager.{
  Manager, Config, set_default, no_log, no_config, no_address, reachable, tweak_address,
  tweak_returner, tweak_log_opts, tweak_log, change_pytest, add_engine, keep_user,
  final_common_config_tweaks, final_minion_config_tweaks, final_master_config_tweaks,
  final_syndic_config_tweaks, final_proxy_minion_config_tweaks, final_cloud_config_tweaks,
  final_spm_config_tweaks,
}
use pytest_salt_factories.Manager.Start.{
  attrs_post_init, init_python, init_generated, init_timeout, init_scripts, init_root, make_dir,
  own_scripts_dir, use_own_scripts, generated, generate_in, script_in, script_on_path,
  get_salt_script_path, get_salt_script_path-attrs_post_init,
}
use pytest_salt_factories.Manager.RootDir.{
  numbered, free_from, new_root, make_root, default_root, get_root_dir_for_daemon,
  get_root_dir_for_daemon-new, get_root_dir_for_daemon-outside,
}
use pytest_salt_factories.Manager.Tweaks.{opts_of, engine_address-final_tweaks}

program : Unit {0}
unfolding text_methods decimals nat_eq path_eq path_discrete lookup insert contains add add_dirs
    check_log_port check_log check_config check_role virtual level_name level_or_error ask_gateway
    setup_port setup_host setup_log setup_config setup_role setup_handlers check_address
    check_engine_config check_engine_role engine_virtual both_of address_parts address_of_config
    address_of_role engine_address set_default no_log no_config no_address reachable tweak_address
    tweak_returner tweak_log_opts tweak_log change_pytest add_engine keep_user
    final_common_config_tweaks final_minion_config_tweaks final_master_config_tweaks
    final_syndic_config_tweaks final_proxy_minion_config_tweaks final_cloud_config_tweaks
    final_spm_config_tweaks attrs_post_init init_python init_generated init_timeout init_scripts
    init_root make_dir own_scripts_dir use_own_scripts generate_in script_in script_on_path
    get_salt_script_path numbered free_from new_root make_root default_root get_root_dir_for_daemon
program = tt

abbrev tmp_root : FilePath
tmp_root = codes "t" ∷ codes "tmp" ∷ []

abbrev manager : Manager
manager = record {
  root_dir = tmp_root;
  tmp_root_dir = [];
  log_server_host = codes "127.0.0.1";
  log_server_port = 3330;
  event_host = codes "0.0.0.0";
  event_port = 4440;
  system_service = false;
  scripts_dir = none;
  generate_scripts = true;
  python_executable = none;
  start_timeout = none;
  made = [];
}

run-attrs_post_init : attrs_post_init false (codes "python3") manager ≡ record manager {
  tmp_root_dir = tmp_root;
  scripts_dir = some (codes "scripts" ∷ tmp_root);
  python_executable = some (codes "python3");
  start_timeout = some 60;
  made = (codes "scripts" ∷ tmp_root) ∷ (codes "scripts" ∷ tmp_root) ∷ tmp_root ∷ [];
}
unfolding program
run-attrs_post_init = refl

get_salt_script_path-attrs_post_init_holds :
    (get_salt_script_path
        (λ name. none)
        (λ dir name. false)
        (codes "salt-master")
        (attrs_post_init false (codes "python3") manager)
      ≡ generated (codes "scripts" ∷ tmp_root) (codes "salt-master"))
    × ((attrs_post_init false (codes "python3") manager).python_executable ≡ some (codes "python3"))
unfolding program
get_salt_script_path-attrs_post_init_holds =
    get_salt_script_path-attrs_post_init (λ name. none) (λ dir name. false) false (codes "python3")
      (codes "salt-master") manager refl

abbrev dirs : List FilePath
dirs =
    (codes "sshd" ∷ tmp_root)
    ∷ (codes "sshd_1" ∷ tmp_root)
    ∷ tmp_root
    ∷ (codes "tmp" ∷ [])
    ∷ []
    ∷ []

third-sshd :
    get_root_dir_for_daemon 3 manager none false (codes "sshd") dirs
    ≡ some (codes "sshd_2" ∷ tmp_root, dirs ++ ((codes "sshd_2" ∷ tmp_root) ∷ []))
unfolding program
third-sshd = refl

get_root_dir_for_daemon-new_example :
    (p : FilePath) × (get_root_dir_for_daemon 6 manager none false (codes "sshd") dirs
      ≡ some (p, add_dirs p dirs))
    × (contains dirs p ≡ false)
    × (contains (add_dirs p dirs) p ≡ true)
get_root_dir_for_daemon-new_example =
    get_root_dir_for_daemon-new manager false (codes "sshd") dirs refl

get_root_dir_for_daemon-outside_holds :
    get_root_dir_for_daemon 2
      (attrs_post_init false (codes "python3") (record manager { system_service = true }))
      none
      false
      (codes "sshd")
      dirs
    ≡ some (codes "sshd_1" ∷ [], add_dirs (codes "sshd_1" ∷ []) dirs)
unfolding program
get_root_dir_for_daemon-outside_holds =
    get_root_dir_for_daemon-outside false (codes "python3")
      (record manager { system_service = true }) 1 (codes "sshd") dirs refl refl refl

abbrev config : Config
config = record {
  engines = some (codes "other" ∷ []);
  engines_dirs = none;
  log_handlers_dirs = none;
  user = some [];
  pytest = [];
}

abbrev contains_key : Text → Config → Bool
contains_key key c = elim (lookup key c.pytest) [ none ↦ false | some found ↦ true ]

abbrev minion_config : Config
minion_config = final_minion_config_tweaks (codes "root") (codes "e") (codes "l") manager config

run-final_minion_config_tweaks : minion_config ≡ record {
  engines = some (codes "other" ∷ codes "pytest" ∷ []);
  engines_dirs = some (codes "e" ∷ []);
  log_handlers_dirs = some (codes "l" ∷ []);
  user = none;
  pytest =
      (
        codes "pytest-minion",
        record {
          log = some (record no_log {
            host = some (codes "127.0.0.1");
            port = some 3330;
            level = some (codes "debug");
          });
          returner_address = some record { host = some (codes "127.0.0.1"); port = some 4440 };
        },
      )
      ∷ [];
}
unfolding program
run-final_minion_config_tweaks = refl

-- A syndic, a cloud and an spm configuration get no address of the event listener.
syndic-engine :
    engine_virtual true (
      opts_of
        (codes "syndic")
        none
        (final_syndic_config_tweaks (codes "root") (codes "e") (codes "l") manager config))
    ≡ no_returner_address
unfolding program
syndic-engine = refl

cloud_spm_log :
    (contains_key
        (codes "pytest-cloud")
        (final_cloud_config_tweaks (codes "root") (codes "e") (codes "l") manager config)
      ≡ true)
    × (contains_key
          (codes "pytest-spm")
          (final_spm_config_tweaks (codes "root") (codes "e") (codes "l") manager config)
        ≡ true)
    × (contains_key
          (codes "pytest-minion")
          (final_proxy_minion_config_tweaks (codes "root") (codes "e") (codes "l") manager config)
        ≡ true)
unfolding program
cloud_spm_log = (refl, refl, refl)

engine_address-final_tweaks_example :
    ((engine_virtual true (
          opts_of
            (codes "master")
            none
            (final_master_config_tweaks (codes "root") (codes "e") (codes "l") manager config))
        ≡ engine_accepts)
      × (engine_address (
            opts_of
              (codes "master")
              none
              (final_master_config_tweaks (codes "root") (codes "e") (codes "l") manager config))
          ≡ some (codes "127.0.0.1", 4440)))
    × ((engine_virtual true (opts_of (codes "minion") none minion_config) ≡ engine_accepts)
        × (engine_address (opts_of (codes "minion") none minion_config)
            ≡ some (codes "127.0.0.1", 4440)))
unfolding program
engine_address-final_tweaks_example =
    engine_address-final_tweaks (codes "root") (codes "e") (codes "l") manager none config
