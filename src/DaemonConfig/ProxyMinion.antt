-- ===== src/DaemonConfig/ProxyMinion.antt =====
-- `SaltProxyMinion.default_config` of src/saltfactories/daemons/proxy.py. Its ports, and the settings that
-- it begins with, are those of a minion, as is what it does with the dictionaries that it is given.
use pytest_salt_factories.Base.{
  ℕ, suc, Bool, true, false, Option, none, some, [], ◌∷◌, ◌++◌, ◌≡◌, refl,
}
use pytest_salt_factories.Base.Text.{Text, codes, text_methods}
use pytest_salt_factories.TempFiles.{FilePath}
use pytest_salt_factories.DaemonConfig.{
  Setting, str, decimal, num, flag, table, Settings, settings, get, merge_config, or_empty,
  UpdateLaws, MasterOf, match_transport, pytest_table, base_root, both_roots,
}
use pytest_salt_factories.DaemonConfig.Minion.{
  MinionPorts, minion_ports, minion_start, log_formats, minion_check_events,
}
use pytest_salt_factories.DaemonConfig.Precedence.{IsLoaded, config-master}

unfoldable pub dummy_proxy : Setting
dummy_proxy = table (settings ((codes "proxytype", str (codes "dummy")) ∷ []))

-- The `_defaults` of an installed salt.
unfoldable pub service_proxy :
    (FilePath → Text) → FilePath → Text → Text → MinionPorts → Option MasterOf → Settings
service_proxy show root id prefix p m =
    let etc = codes "salt" ∷ codes "etc" ∷ root in
    settings (
      minion_start id (show (codes "proxy" ∷ etc)) (show root) p
      ++ ((codes "pki_dir", str (show (codes "minion" ∷ codes "pki" ∷ etc)))
            ∷ (
              codes "log_file",
              str (show (codes "proxy.log" ∷ codes "salt" ∷ codes "log" ∷ codes "var" ∷ root)),
            )
            ∷ (codes "log_level_logfile", str (codes "debug"))
            ∷ (codes "loop_interval", decimal (codes "0.05"))
            ∷ log_formats
          ++ ((codes "file_roots", base_root (show (codes "salt" ∷ codes "srv" ∷ root)))
              ∷ (codes "pillar_roots", base_root (show (codes "pillar" ∷ codes "srv" ∷ root)))
              ∷ (codes "proxy", dummy_proxy)
              ∷ (codes "pytest-minion", pytest_table m prefix)
              ∷ [])))

-- The `_defaults` of a salt below a root directory.
unfoldable pub rooted_proxy :
    (FilePath → Text) → FilePath → Text → Text → MinionPorts → Option MasterOf → Settings
rooted_proxy show root id prefix p m =
    let states = codes "state-tree" ∷ root in
    let pillars = codes "pillar-tree" ∷ root in
    settings (
      minion_start id (show (codes "proxy" ∷ codes "conf" ∷ root)) (show root) p
      ++ ((codes "pidfile", str (codes "run/proxy.pid"))
            ∷ (codes "pki_dir", str (codes "pki"))
            ∷ (codes "cachedir", str (codes "cache"))
            ∷ (codes "sock_dir", str (codes "run/proxy"))
            ∷ (codes "log_file", str (codes "logs/proxy.log"))
            ∷ (codes "log_level_logfile", str (codes "debug"))
            ∷ (codes "loop_interval", decimal (codes "0.05"))
            ∷ log_formats
          ++ ((
            codes "file_roots",
            both_roots (show (codes "base" ∷ states)) (show (codes "prod" ∷ states)),
          )
              ∷ (
                codes "pillar_roots",
                both_roots (show (codes "base" ∷ pillars)) (show (codes "prod" ∷ pillars)),
              )
              ∷ (codes "proxy", dummy_proxy)
              ∷ (codes "enable_legacy_startup_events", flag false)
              ∷ (codes "acceptance_wait_time", decimal (codes "0.5"))
              ∷ (codes "acceptance_wait_time_max", num 5)
              ∷ (codes "pytest-minion", pytest_table m prefix)
              ∷ [])))

unfoldable pub internal_proxy :
    Bool → (FilePath → Text) → FilePath → Text → Text → MinionPorts → Option MasterOf → Settings
internal_proxy true = service_proxy
internal_proxy false = rooted_proxy

-- `default_config`
unfoldable pub proxy_default_config :
    (Settings → Settings → Settings)
    → (FilePath → Text)
    → MinionPorts
    → (ℕ → ℕ)
    → FilePath
    → Text
    → Text
    → Option Settings
    → Option Settings
    → Option MasterOf
    → Bool
    → Settings
proxy_default_config update show default_opts unused root id prefix defaults overrides m service =
    merge_config update (match_transport m (or_empty defaults))
      (internal_proxy service show root id prefix (minion_ports service default_opts unused m) m)
      overrides

internal_proxy-keys :
    (service : Bool) (show : FilePath → Text) (root : FilePath) (id prefix : Text) (p : MinionPorts)
    (m : Option MasterOf)
    → (get (codes "id") (internal_proxy service show root id prefix p m) ≡ some (str id))
      × (get (codes "master_port") (internal_proxy service show root id prefix p m)
          ≡ some (num p.master_port))
      × (get (codes "transport") (internal_proxy service show root id prefix p m) ≡ none)
      × (get (codes "pytest-minion") (internal_proxy service show root id prefix p m)
          ≡ some (pytest_table m prefix))
unfolding get settings internal_proxy service_proxy rooted_proxy minion_start log_formats
    text_methods
internal_proxy-keys true show root id prefix p m = (refl, refl, refl, refl)
internal_proxy-keys false show root id prefix p m = (refl, refl, refl, refl)

module _ (update : Settings → Settings → Settings) (laws : UpdateLaws update) where
  -- A proxy minion of a master that has an id and a `ret_port` other than 0, where the overrides do not
  -- set the id, the transport, the master's port or the table `pytest-minion`, nor the caller's defaults
  -- the transport or that table: it has the master's `ret_port` as its `master_port`, and the master's
  -- transport, and its start is confirmed by the event `salt/minion/<id>/start` of that master, if salt
  -- loads it with the role `minion`, and with its id and that table unchanged.
  pub proxy_default_config-master :
      (show : FilePath → Text) (default_opts : MinionPorts) (unused : ℕ → ℕ) (root : FilePath)
      (id prefix : Text) (defaults overrides : Option Settings) (m : MasterOf) (service : Bool)
      (loaded : Settings) (n c : ℕ) (t : Text)
      → m.ret_port ≡ suc n
      → m.id ≡ c ∷ t
      → get (codes "transport") (or_empty defaults) ≡ none
      → get (codes "pytest-minion") (or_empty defaults) ≡ none
      → get (codes "id") (or_empty overrides) ≡ none
      → get (codes "transport") (or_empty overrides) ≡ none
      → get (codes "master_port") (or_empty overrides) ≡ none
      → get (codes "pytest-minion") (or_empty overrides) ≡ none
      → IsLoaded
          (proxy_default_config update show default_opts unused root id prefix defaults overrides
            (some m)
            service)
          loaded
      → (get (codes "master_port") (
            proxy_default_config update show default_opts unused root id prefix defaults overrides
              (some m)
              service)
          ≡ some (num m.ret_port))
        × (get (codes "transport") (
              proxy_default_config update show default_opts unused root id prefix defaults overrides
                (some m)
                service)
            ≡ some m.transport)
        × (minion_check_events loaded
            ≡ some ((m.id, codes "salt/minion/" ++ (id ++ codes "/start")) ∷ []))
  unfolding proxy_default_config
  proxy_default_config-master show default_opts unused root id prefix defaults overrides m service
        loaded n c t port named no_transport no_table o_id o_transport o_port o_table is_loaded =
      let ports = minion_ports service default_opts unused (some m) in
      let keys = internal_proxy-keys service show root id prefix ports (some m) in
      config-master update laws id prefix defaults overrides m service default_opts unused
        (internal_proxy service show root id prefix ports (some m)) loaded n c t port named
        no_transport no_table o_id o_transport o_port o_table keys.0 keys.1 keys.2 keys.3 is_loaded
