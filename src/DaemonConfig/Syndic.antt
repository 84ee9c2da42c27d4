-- ===== src/DaemonConfig/Syndic.antt =====
-- `SaltSyndic.default_config`, src/saltfactories/daemons/syndic.py, and what
-- `FactoriesManager.salt_syndic_daemon` of src/saltfactories/manager.py does to the configuration of the
-- syndic's own master.
use pytest_salt_factories.Base.{
  ℕ, ◌≡◌, ap, Bool, true, false, Option, none, List, [], ◌∷◌, ◌++◌, ◌==◌, ==_sound, arith,
  if◌then◌else◌, Bool-cases, inl, inr,
}
use pytest_salt_factories.Base.Text.{Text, codes, text_eq, starts_with}
use pytest_salt_factories.TempFiles.{FilePath}
use pytest_salt_factories.DaemonConfig.{
  Setting, str, num, flag, Settings, empty, entry, settings, get, merge_config, or_empty, MasterOf,
  match_transport, pytest_table,
}
use pytest_salt_factories.DaemonConfig.Minion.{master_port_or}

unfoldable pub syndic_port : Bool → ℕ → (ℕ → ℕ) → Option MasterOf → ℕ
syndic_port true default_ret_port unused m = master_port_or m default_ret_port
syndic_port false default_ret_port unused m = master_port_or m (unused 0)

-- What both kinds of syndic have.
unfoldable pub syndic_start : Text → Text → Text → ℕ → List (Text × Setting)
syndic_start id conf_file root_dir port =
    (codes "id", str id)
    ∷ (codes "master_id", str id)
    ∷ (codes "conf_file", str conf_file)
    ∷ (codes "root_dir", str root_dir)
    ∷ (codes "syndic_master", str (codes "127.0.0.1"))
    ∷ (codes "syndic_master_port", num port)
    ∷ []

-- The `_defaults` of an installed salt.
unfoldable pub service_syndic :
    (FilePath → Text) → FilePath → Text → Text → ℕ → Option MasterOf → Settings
service_syndic show root id prefix port m =
    let conf = codes "syndic.conf" ∷ codes "master.d" ∷ codes "salt" ∷ codes "etc" ∷ root in
    let logs = codes "salt" ∷ codes "log" ∷ codes "var" ∷ root in
    settings (
      syndic_start id (show conf) (show root) port
      ++ ((
        codes "syndic_pidfile",
        str (show (codes "syndic.pid" ∷ codes "run" ∷ codes "var" ∷ root)),
      )
          ∷ (codes "syndic_log_file", str (show (codes "syndic.log" ∷ logs)))
          ∷ (codes "syndic_log_level_logfile", str (codes "debug"))
          ∷ (codes "pytest-syndic", pytest_table m prefix)
          ∷ []))

-- The `_defaults` of a salt below a root directory.
unfoldable pub rooted_syndic :
    (FilePath → Text) → FilePath → Text → Text → ℕ → Option MasterOf → Settings
rooted_syndic show root id prefix port m =
    let conf = codes "syndic.conf" ∷ codes "master.d" ∷ codes "conf" ∷ root in
    settings (
      syndic_start id (show conf) (show root) port
      ++ ((codes "syndic_pidfile", str (codes "run/syndic.pid"))
          ∷ (codes "syndic_log_file", str (codes "logs/syndic.log"))
          ∷ (codes "syndic_log_level_logfile", str (codes "debug"))
          ∷ (codes "syndic_dir", str (codes "cache/syndics"))
          ∷ (codes "enable_legacy_startup_events", flag false)
          ∷ (codes "pytest-syndic", pytest_table m prefix)
          ∷ []))

unfoldable pub internal_syndic :
    Bool → (FilePath → Text) → FilePath → Text → Text → ℕ → Option MasterOf → Settings
internal_syndic true = service_syndic
internal_syndic false = rooted_syndic

-- `default_config`
unfoldable pub syndic_default_config :
    (Settings → Settings → Settings)
    → (FilePath → Text)
    → ℕ
    → (ℕ → ℕ)
    → FilePath
    → Text
    → Text
    → Option Settings
    → Option Settings
    → Option MasterOf
    → Bool
    → Settings
syndic_default_config update show default_ret_port unused root id prefix defaults overrides m
      service =
    merge_config update (match_transport m (or_empty defaults))
      (internal_syndic service show root id prefix (syndic_port service default_ret_port unused m)
        m)
      overrides

-- The options that the syndic's master does not keep.
unfoldable pub is_syndic_option : Text → Bool
is_syndic_option key = starts_with key (codes "syndic_")

unfoldable pub drop_syndic_options : Settings → Settings
drop_syndic_options empty = empty
drop_syndic_options (entry k v s) =
    let rest = drop_syndic_options s in if is_syndic_option k then rest else entry k v rest

-- The syndic's master loses the options whose names start with `syndic_`, and keeps the others.
pub get-drop_syndic_options :
    (k : Text) (s : Settings)
    → get k (drop_syndic_options s) ≡ (if is_syndic_option k then none else get k s)
unfolding get drop_syndic_options
get-drop_syndic_options k empty = ground arith
get-drop_syndic_options k (entry j v s) = elim (Bool-cases (k == j)) [
  | inl same ↦
      ground (arith, same, ap is_syndic_option (==_sound k j same), get-drop_syndic_options k s)
  | inr other ↦ ground (arith, other, get-drop_syndic_options k s)
]
