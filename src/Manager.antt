-- ===== src/Manager.antt =====
-- `FactoriesManager` of src/saltfactories/manager.py: the final tweaks of a configuration. A field that
-- is `none` is a key that is not there. `running_username`, of salt, and the paths of this plugin's
-- modules are parameters.
pub mod Start
pub mod RootDir
pub mod Tweaks
mod Tests
use pytest_salt_factories.Base.{
  ℕ, Bool, true, false, Option, none, some, List, [], ◌∷◌, ◌++◌, ◌==◌, contains, if◌then◌else◌,
}
use pytest_salt_factories.Base.Text.{Text, codes, text_eq}
use pytest_salt_factories.Base.Dict.{Dict, lookup, insert}
use pytest_salt_factories.LogHandler.Setup.{LogOpts, Address, PytestConfig, pytest_key}
use pytest_salt_factories.TempFiles.{FilePath}

-- `event_host` and `event_port` are those of the `event_listener`, and `made` are the directories that
-- the manager has made.
pub record Manager : Type 0 where
  pub root_dir : FilePath
  pub tmp_root_dir : FilePath
  pub log_server_host : Text
  pub log_server_port : ℕ
  pub event_host : Text
  pub event_port : ℕ
  pub system_service : Bool
  pub scripts_dir : Option FilePath
  pub generate_scripts : Bool
  pub python_executable : Option Text
  pub start_timeout : Option ℕ
  pub made : List FilePath

-- The configuration of a daemon, as far as the tweaks go. A `user` that is not truthy is empty.
pub record Config : Type 0 where
  pub engines : Option (List Text)
  pub engines_dirs : Option (List Text)
  pub log_handlers_dirs : Option (List Text)
  pub user : Option Text
  pub pytest : Dict Text PytestConfig

unfoldable pub set_default {ℓ} : {A : Type ℓ} → A → Option A → A
set_default a none = a
set_default a (some b) = b

unfoldable pub no_log : LogOpts
no_log = record {
  disabled = false;
  host = none;
  pytest_windows_guest = none;
  port = none;
  prefix = none;
  level = none;
}

unfoldable pub no_config : PytestConfig
no_config = record { log = none; returner_address = none }

unfoldable pub no_address : Address
no_address = record { host = none; port = none }

-- `0.0.0.0` is no address to connect to.
unfoldable pub reachable : Text → Text
reachable host = if host == codes "0.0.0.0" then codes "127.0.0.1" else host

unfoldable pub tweak_address : Manager → Address → Address
tweak_address m a = record {
  host = some (set_default (reachable m.event_host) a.host);
  port = some (set_default m.event_port a.port);
}

unfoldable pub tweak_returner : Manager → PytestConfig → PytestConfig
tweak_returner m c = record c {
  returner_address = some (tweak_address m (set_default no_address c.returner_address));
}

unfoldable pub tweak_log_opts : Manager → LogOpts → LogOpts
tweak_log_opts m l = record l {
  host = some (set_default m.log_server_host l.host);
  port = some (set_default m.log_server_port l.port);
  level = some (set_default (codes "debug") l.level);
}

unfoldable pub tweak_log : Manager → PytestConfig → PytestConfig
tweak_log m c = record c { log = some (tweak_log_opts m (set_default no_log c.log)) }

-- A change of the configuration under a key, which is made if it is not there.
unfoldable pub change_pytest : Text → (PytestConfig → PytestConfig) → Config → Config
change_pytest key f c = record c {
  pytest = insert key (f (set_default no_config (lookup key c.pytest))) c.pytest;
}

unfoldable pub add_engine : List Text → List Text
add_engine engines =
    if contains engines (codes "pytest") then engines else engines ++ (codes "pytest" ∷ [])

-- A `user` that is not truthy is removed.
unfoldable pub keep_user : Text → Option Text
keep_user [] = none
keep_user (c ∷ t) = some (c ∷ t)

module _ (running_username engines_path log_handlers_path : Text) where
  unfoldable pub final_common_config_tweaks : Manager → Text → Config → Config
  final_common_config_tweaks m role c = change_pytest (pytest_key role) (tweak_log m) (record c {
    engines = some (add_engine (set_default [] c.engines));
    engines_dirs = some (engines_path ∷ set_default [] c.engines_dirs);
    log_handlers_dirs = some (log_handlers_path ∷ set_default [] c.log_handlers_dirs);
    user = keep_user (set_default running_username c.user);
  })

  unfoldable pub final_minion_config_tweaks : Manager → Config → Config
  final_minion_config_tweaks m c =
      final_common_config_tweaks m (codes "minion")
        (change_pytest (pytest_key (codes "minion")) (tweak_returner m) c)

  unfoldable pub final_master_config_tweaks : Manager → Config → Config
  final_master_config_tweaks m c =
      final_common_config_tweaks m (codes "master")
        (change_pytest (pytest_key (codes "master")) (tweak_returner m) c)

  unfoldable pub final_syndic_config_tweaks : Manager → Config → Config
  final_syndic_config_tweaks m c = final_common_config_tweaks m (codes "syndic") c

  unfoldable pub final_proxy_minion_config_tweaks : Manager → Config → Config
  final_proxy_minion_config_tweaks m c = final_common_config_tweaks m (codes "minion") c

  unfoldable pub final_cloud_config_tweaks : Manager → Config → Config
  final_cloud_config_tweaks m c = final_common_config_tweaks m (codes "cloud") c

  unfoldable pub final_spm_config_tweaks : Manager → Config → Config
  final_spm_config_tweaks m c = final_common_config_tweaks m (codes "spm") c
