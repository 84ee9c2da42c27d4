-- ===== src/DaemonConfig/Minion.antt =====
-- `SaltMinion.default_config` and its `get_check_events`, src/saltfactories/daemons/minion.py. `show` is
-- `str` of a path, `prefix` is the text `SaltMinion(id=…)`, `default_opts` are the ports of
-- `DEFAULT_MINION_OPTS`, and `unused` tells the ports that `get_unused_localhost_port` finds, call by call.
use pytest_salt_factories.Base.{
  ℕ, zero, suc, ◌+◌, Bool, true, false, Option, none, some, List, [], ◌∷◌, ◌++◌,
}
use pytest_salt_factories.Base.Text.{Text, codes}
use pytest_salt_factories.TempFiles.{FilePath}
use pytest_salt_factories.DaemonConfig.{
  Setting, str, decimal, num, flag, table, Settings, settings, get, merge_config, or_empty,
  MasterOf, match_transport, console_format, logfile_format, pytest_table, base_root, both_roots,
}

pub record MinionPorts : Type 0 where
  pub master_port : ℕ
  pub tcp_pub_port : ℕ
  pub tcp_pull_port : ℕ

unfoldable pub port_or : ℕ → ℕ → ℕ
port_or zero other = other
port_or (suc n) other = suc n

-- `master_port or …`
unfoldable pub master_port_or : Option MasterOf → ℕ → ℕ
master_port_or none other = other
master_port_or (some m) other = port_or m.ret_port other

-- How many ports were asked_ports for to have a master port.
unfoldable pub asked_port : ℕ → ℕ
asked_port zero = 1
asked_port (suc n) = 0

unfoldable pub asked_ports : Option MasterOf → ℕ
asked_ports none = 1
asked_ports (some m) = asked_port m.ret_port

unfoldable pub minion_ports : Bool → MinionPorts → (ℕ → ℕ) → Option MasterOf → MinionPorts
minion_ports true default_opts unused m = record {
  master_port = master_port_or m default_opts.master_port;
  tcp_pub_port = default_opts.tcp_pub_port;
  tcp_pull_port = default_opts.tcp_pull_port;
}
minion_ports false default_opts unused m = record {
  master_port = master_port_or m (unused 0);
  tcp_pub_port = unused (asked_ports m);
  tcp_pull_port = unused (asked_ports m + 1);
}

-- What both kinds of minion have.
unfoldable pub minion_start : Text → Text → Text → MinionPorts → List (Text × Setting)
minion_start id conf_file root_dir p =
    (codes "id", str id)
    ∷ (codes "conf_file", str conf_file)
    ∷ (codes "root_dir", str root_dir)
    ∷ (codes "interface", str (codes "127.0.0.1"))
    ∷ (codes "master", str (codes "127.0.0.1"))
    ∷ (codes "master_port", num p.master_port)
    ∷ (codes "tcp_pub_port", num p.tcp_pub_port)
    ∷ (codes "tcp_pull_port", num p.tcp_pull_port)
    ∷ []

unfoldable pub log_formats : List (Text × Setting)
log_formats =
    (codes "log_fmt_console", str console_format)
    ∷ (codes "log_fmt_logfile", str logfile_format)
    ∷ []

-- The `_defaults` of an installed salt.
unfoldable pub service_minion :
    (FilePath → Text) → FilePath → Text → Text → MinionPorts → Option MasterOf → Settings
service_minion show root id prefix p m =
    let etc = codes "salt" ∷ codes "etc" ∷ root in
    settings (
      minion_start id (show (codes "minion" ∷ etc)) (show root) p
      ++ ((codes "pki_dir", str (show (codes "minion" ∷ codes "pki" ∷ etc)))
            ∷ (
              codes "log_file",
              str (show (codes "minion.log" ∷ codes "salt" ∷ codes "log" ∷ codes "var" ∷ root)),
            )
            ∷ (codes "log_level_logfile", str (codes "debug"))
            ∷ log_formats
          ++ ((codes "file_roots", base_root (show (codes "salt" ∷ codes "srv" ∷ root)))
              ∷ (codes "pillar_roots", base_root (show (codes "pillar" ∷ codes "srv" ∷ root)))
              ∷ (codes "pytest-minion", pytest_table m prefix)
              ∷ [])))

-- The `_defaults` of a salt below a root directory.
unfoldable pub rooted_minion :
    (FilePath → Text) → FilePath → Text → Text → MinionPorts → Option MasterOf → Settings
rooted_minion show root id prefix p m =
    let states = codes "state-tree" ∷ root in
    let pillars = codes "pillar-tree" ∷ root in
    settings (
      minion_start id (show (codes "minion" ∷ codes "conf" ∷ root)) (show root) p
      ++ ((codes "pidfile", str (codes "run/minion.pid"))
            ∷ (codes "pki_dir", str (codes "pki"))
            ∷ (codes "cachedir", str (codes "cache"))
            ∷ (codes "sock_dir", str (codes "run/minion"))
            ∷ (codes "log_file", str (codes "logs/minion.log"))
            ∷ (codes "log_level_logfile", str (codes "debug"))
            ∷ (codes "loop_interval", decimal (codes "0.05"))
            ∷ log_formats
          ++ ((
            codes "file_roots",
            both_roots (show (codes "base" ∷ states)) (show (codes "prod" ∷ states)),
          )
              ∷ (
                codes "pillar_roots",
                both_roots (show (codes "base" ∷ pillars)) (show (codes "prod" ∷ pillars)),
              )
              ∷ (codes "enable_legacy_startup_events", flag false)
              ∷ (codes "acceptance_wait_time", decimal (codes "0.5"))
              ∷ (codes "acceptance_wait_time_max", num 5)
              ∷ (codes "pytest-minion", pytest_table m prefix)
              ∷ [])))

unfoldable pub internal_minion :
    Bool → (FilePath → Text) → FilePath → Text → Text → MinionPorts → Option MasterOf → Settings
internal_minion true = service_minion
internal_minion false = rooted_minion

-- The caller's dictionary after the call: it is the one that is merged into and returned.
unfoldable pub left_with : Option Settings → Settings → Option Settings
left_with none config = none
left_with (some defaults) config = some config

-- `default_config`: the configuration that it returns, and what it leaves in the caller's `defaults`.
unfoldable pub minion_default_config :
    (Settings → Settings → Settings)
    → (FilePath → Text)
    → MinionPorts
    → (ℕ → ℕ)
    → FilePath
    → Text
    → Text
    → Option Settings
    → Option Settings
    → Option MasterOf
    → Bool
    → Settings × Option Settings
minion_default_config update show default_opts unused root id prefix defaults overrides m service =
    let config =
      merge_config update (match_transport m (or_empty defaults))
        (internal_minion service show root id prefix (minion_ports service default_opts unused m) m)
        overrides in
    (config, left_with defaults config)

-- `pytest_config.get("master-id")`
unfoldable pub event_of : Text → Text → Option Setting → List (Text × Text)
event_of role id (some (str (c ∷ master_id))) =
    (c ∷ master_id, codes "salt/" ++ (role ++ (codes "/" ++ (id ++ codes "/start")))) ∷ []
event_of role id _ = []

-- `none` is an exception.
unfoldable pub table_events : Text → Text → Option Setting → Option (List (Text × Text))
table_events role id (some (table s)) = some (event_of role id (get (codes "master-id") s))
table_events role id _ = none

unfoldable pub events_of : Option Setting → Option Setting → Settings → Option (List (Text × Text))
events_of (some (str role)) (some (str id)) config =
    table_events role id (get (codes "pytest-" ++ role) config)
events_of role id config = none

-- `get_check_events`, of the configuration that salt has loaded: `self.id` is its `id`.
unfoldable pub minion_check_events : Settings → Option (List (Text × Text))
minion_check_events config =
    events_of (get (codes "__role") config) (get (codes "id") config) config
