-- ===== src/DaemonConfig/Master.antt =====
-- `SaltMaster.default_config`, `get_check_events` and `_on_auth_event`,
-- src/saltfactories/daemons/master.py. `default_opts` are the ports of `DEFAULT_MASTER_OPTS`, and
-- `unused` tells the ports that `get_unused_localhost_port` finds, call by call.
use pytest_salt_factories.Base.{
  ℕ, Bool, true, false, Option, none, some, List, [], ◌∷◌, ◌++◌, ◌==◌, if◌then◌else◌,
}
use pytest_salt_factories.Base.Text.{Text, codes, text_eq}
use pytest_salt_factories.TempFiles.{FilePath}
use pytest_salt_factories.DaemonConfig.{
  Setting, str, num, flag, texts, table, Settings, entry, settings, merge_config, or_empty,
  MasterOf, match_transport, pytest_table, base_root, both_roots,
}
use pytest_salt_factories.DaemonConfig.Minion.{log_formats}

pub record MasterPorts : Type 0 where
  pub publish_port : ℕ
  pub ret_port : ℕ
  pub tcp_master_pub_port : ℕ
  pub tcp_master_pull_port : ℕ
  pub tcp_master_publish_pull : ℕ
  pub tcp_master_workers : ℕ

unfoldable pub master_ports : Bool → MasterPorts → (ℕ → ℕ) → MasterPorts
master_ports true default_opts unused = default_opts
master_ports false default_opts unused = record {
  publish_port = unused 0;
  ret_port = unused 1;
  tcp_master_pub_port = unused 2;
  tcp_master_pull_port = unused 3;
  tcp_master_publish_pull = unused 4;
  tcp_master_workers = unused 5;
}

-- What both kinds of master have.
unfoldable pub master_start : Text → Text → Text → MasterPorts → List (Text × Setting)
master_start id conf_file root_dir p =
    (codes "id", str id)
    ∷ (codes "conf_file", str conf_file)
    ∷ (codes "root_dir", str root_dir)
    ∷ (codes "interface", str (codes "127.0.0.1"))
    ∷ (codes "publish_port", num p.publish_port)
    ∷ (codes "ret_port", num p.ret_port)
    ∷ (codes "tcp_master_pub_port", num p.tcp_master_pub_port)
    ∷ (codes "tcp_master_pull_port", num p.tcp_master_pull_port)
    ∷ (codes "tcp_master_publish_pull", num p.tcp_master_publish_pull)
    ∷ (codes "tcp_master_workers", num p.tcp_master_workers)
    ∷ []

-- The `_defaults` of an installed salt.
unfoldable pub service_master :
    (FilePath → Text) → FilePath → Text → Text → MasterPorts → Option MasterOf → Bool → Settings
service_master show root id prefix p m order_masters =
    let etc = codes "salt" ∷ codes "etc" ∷ root in
    let logs = codes "salt" ∷ codes "log" ∷ codes "var" ∷ root in
    settings (
      master_start id (show (codes "master" ∷ etc)) (show root) p
      ++ ((codes "api_pidfile", str (show (codes "api.pid" ∷ codes "run" ∷ codes "var" ∷ root)))
            ∷ (codes "pki_dir", str (show (codes "master" ∷ codes "pki" ∷ etc)))
            ∷ (codes "fileserver_backend", texts (codes "roots" ∷ []))
            ∷ (codes "log_file", str (show (codes "master.log" ∷ logs)))
            ∷ (codes "log_level_logfile", str (codes "debug"))
            ∷ (codes "api_logfile", str (show (codes "api.log" ∷ logs)))
            ∷ (codes "key_logfile", str (show (codes "key.log" ∷ logs)))
            ∷ log_formats
          ++ ((codes "file_roots", base_root (show (codes "salt" ∷ codes "srv" ∷ root)))
              ∷ (codes "pillar_roots", base_root (show (codes "pillar" ∷ codes "srv" ∷ root)))
              ∷ (codes "order_masters", flag order_masters)
              ∷ (codes "max_open_files", num 10240)
              ∷ (codes "pytest-master", pytest_table m prefix)
              ∷ [])))

-- The `_defaults` of a salt below a root directory.
unfoldable pub rooted_master :
    (FilePath → Text) → FilePath → Text → Text → MasterPorts → Option MasterOf → Bool → Settings
rooted_master show root id prefix p m order_masters =
    let states = codes "state-tree" ∷ root in
    let pillars = codes "pillar-tree" ∷ root in
    settings (
      master_start id (show (codes "master" ∷ codes "conf" ∷ root)) (show root) p
      ++ ((codes "pidfile", str (codes "run/master.pid"))
            ∷ (codes "api_pidfile", str (codes "run/api.pid"))
            ∷ (codes "pki_dir", str (codes "pki"))
            ∷ (codes "cachedir", str (codes "cache"))
            ∷ (codes "sock_dir", str (codes "run/master"))
            ∷ (codes "fileserver_list_cache_time", num 0)
            ∷ (codes "fileserver_backend", texts (codes "roots" ∷ []))
            ∷ (codes "pillar_opts", flag false)
            ∷ (codes "peer", table (settings ((codes ".*", texts (codes "test.*" ∷ [])) ∷ [])))
            ∷ (codes "log_file", str (codes "logs/master.log"))
            ∷ (codes "log_level_logfile", str (codes "debug"))
            ∷ (codes "api_logfile", str (codes "logs/api.log"))
            ∷ (codes "key_logfile", str (codes "logs/key.log"))
            ∷ (codes "token_dir", str (codes "tokens"))
            ∷ (codes "token_file", str (show (codes "ksfjhdgiuebfgnkefvsikhfjdgvkjahcsidk" ∷ root)))
            ∷ (codes "file_buffer_size", num 8192)
            ∷ log_formats
          ++ ((
            codes "file_roots",
            both_roots (show (codes "base" ∷ states)) (show (codes "prod" ∷ states)),
          )
              ∷ (
                codes "pillar_roots",
                both_roots (show (codes "base" ∷ pillars)) (show (codes "prod" ∷ pillars)),
              )
              ∷ (codes "order_masters", flag order_masters)
              ∷ (codes "max_open_files", num 10240)
              ∷ (codes "enable_legacy_startup_events", flag false)
              ∷ (codes "pytest-master", pytest_table m prefix)
              ∷ [])))

unfoldable pub internal_master :
    Bool
    → (FilePath → Text)
    → FilePath
    → Text
    → Text
    → MasterPorts
    → Option MasterOf
    → Bool
    → Settings
internal_master true = service_master
internal_master false = rooted_master

-- `overrides["syndic_master"]` and `overrides["syndic_master_port"]`, set in a copy.
unfoldable pub syndic_overrides : Option MasterOf → Option Settings → Option Settings
syndic_overrides none overrides = overrides
syndic_overrides (some m) overrides = some (
    entry (codes "syndic_master") (str m.interface)
      (entry (codes "syndic_master_port") (num m.ret_port) (or_empty overrides)))

-- `default_config`: the dictionary `defaults` itself, if one is given, with what is merged into it.
unfoldable pub master_default_config :
    (Settings → Settings → Settings)
    → (FilePath → Text)
    → MasterPorts
    → (ℕ → ℕ)
    → FilePath
    → Text
    → Text
    → Option Settings
    → Option Settings
    → Bool
    → Option MasterOf
    → Bool
    → Settings
master_default_config update show default_opts unused root id prefix defaults overrides order m
      service =
    merge_config update (match_transport m (or_empty defaults))
      (internal_master service show root id prefix (master_ports service default_opts unused) m
        order)
      (syndic_overrides m overrides)

-- `get_check_events`
unfoldable pub master_check_events : Text → List (Text × Text)
master_check_events id = (id, codes "salt/master/" ++ (id ++ codes "/start")) ∷ []

-- `_on_auth_event`: the minion whose key `salt-key` accepts.
unfoldable pub on_auth_event : Bool → Text → Text → Option Text
on_auth_event open_mode minion_id keystate =
    if open_mode then none else if keystate == codes "pend" then some minion_id else none
