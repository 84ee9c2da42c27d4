-- ===== src/LogHandler/Setup.antt =====
-- `__virtual__` and `setup_handlers` of the module pytest_log_handler.py, in whose options a
-- configuration is kept under `pytest-<role>` or `pytest`. `Popen` gives bytes, which have no `encode`.
-- `LOG_LEVELS`, `str.lower` and whether the log server can be reached are parameters.
use pytest_salt_factories.Base.{
  ℕ, Bool, true, false, not, ◌&&◌, Option, none, some, [], ◌∷◌, ◌++◌, if◌then◌else◌,
}
use pytest_salt_factories.Base.Text.{Text, codes, text_eq}
use pytest_salt_factories.Base.Dict.{Dict, lookup}

-- `none` is a key that is not there; a text that is not truthy, `None` as well, is the empty one.
pub record LogOpts : Type 0 where
  pub disabled : Bool
  pub host : Option Text
  pub pytest_windows_guest : Option Bool
  pub port : Option ℕ
  pub prefix : Option Text
  pub level : Option Text

-- The address of the event listener, for the engine of the daemon.
pub record Address : Type 0 where
  pub host : Option Text
  pub port : Option ℕ

pub record PytestConfig : Type 0 where
  pub log : Option LogOpts
  pub returner_address : Option Address

-- `plain_role` is the option `role`.
pub record Opts : Type 0 where
  pub role : Option Text
  pub plain_role : Option Text
  pub configs : Dict Text PytestConfig

pub data Virtual : Type 0 where
  accepts no_msgpack no_zmq no_role no_config no_log no_port role_key_error : Virtual

pub record Handler : Type 0 where
  pub host : Text
  pub port : ℕ
  pub log_prefix : Option Text
  pub level : ℕ

pub data SetupResult : Type 0 where
  no_handler attribute_error : SetupResult
  handler : Handler → SetupResult
  key_error : Text → SetupResult

unfoldable pub check_log_port : Option ℕ → Option Text → Virtual
check_log_port (some p) role = accepts
check_log_port none (some r) = no_port
check_log_port none none = role_key_error

unfoldable pub check_log : Option LogOpts → Option Text → Virtual
check_log none role = no_log
check_log (some l) role = check_log_port l.port role

-- The configuration under `pytest-<role>`, else that under `pytest`.
unfoldable pub check_config : Option PytestConfig → Option PytestConfig → Option Text → Virtual
check_config (some c) other role = check_log c.log role
check_config none (some c) role = check_log c.log role
check_config none none role = no_config

abbrev pub pytest_key : Text → Text
pytest_key role = codes "pytest-" ++ role

unfoldable pub check_role : Option Text → Opts → Virtual
check_role none opts = no_role
check_role (some r) opts =
    check_config (lookup (pytest_key r) opts.configs) (lookup (codes "pytest") opts.configs)
      opts.plain_role

-- `__virtual__`
unfoldable pub virtual : Bool → Bool → Opts → Virtual
virtual false has_zmq opts = no_msgpack
virtual true false opts = no_zmq
virtual true true opts = check_role opts.role opts

-- `log_opts.get("level") or "error"`
unfoldable pub level_name : Option Text → Text
level_name none = codes "error"
level_name (some []) = codes "error"
level_name (some (c ∷ t)) = c ∷ t

unfoldable pub level_or_error : Option ℕ → ℕ
level_or_error none = 40
level_or_error (some n) = n

-- How the command for a host address that is not given ends.
unfoldable pub ask_gateway : Option Bool → SetupResult
ask_gateway none = key_error (codes "pytest_windows_guest")
ask_gateway (some guest) = attribute_error

abbrev pub raises : SetupResult → Bool
raises no_handler = false
raises (handler h) = false
raises attribute_error = true
raises (key_error k) = true

abbrev pub lacks_host : Option Text → Bool
lacks_host none = true
lacks_host (some []) = true
lacks_host (some (c ∷ t)) = false

abbrev pub log_blocks : Option LogOpts → Bool
log_blocks none = true
log_blocks (some l) = not l.disabled && lacks_host l.host

-- That no configuration of the role is there, or an enabled one without a host.
abbrev pub blocks : Option PytestConfig → Bool
blocks none = true
blocks (some c) = log_blocks c.log

module _ (log_levels : Dict Text ℕ) (lower : Text → Text) (connects : Text → ℕ → Bool) where
  unfoldable pub setup_port : Option ℕ → Text → LogOpts → SetupResult
  setup_port none host l = key_error (codes "port")
  setup_port (some p) host l =
      if connects host p
      then handler record {
        host = host;
        port = p;
        log_prefix = l.prefix;
        level = level_or_error (lookup (lower (level_name l.level)) log_levels);
      }
      else no_handler

  unfoldable pub setup_host : Option Text → LogOpts → SetupResult
  setup_host none l = ask_gateway l.pytest_windows_guest
  setup_host (some []) l = ask_gateway l.pytest_windows_guest
  setup_host (some (c ∷ t)) l = setup_port l.port (c ∷ t) l

  unfoldable pub setup_log : Option LogOpts → SetupResult
  setup_log none = key_error (codes "log")
  setup_log (some l) = if l.disabled then no_handler else setup_host l.host l

  unfoldable pub setup_config : Text → Option PytestConfig → SetupResult
  setup_config key none = key_error key
  setup_config key (some c) = setup_log c.log

  unfoldable pub setup_role : Option Text → Opts → SetupResult
  setup_role none opts = key_error (codes "__role")
  setup_role (some r) opts = setup_config (pytest_key r) (lookup (pytest_key r) opts.configs)

  -- `setup_handlers`
  unfoldable pub setup_handlers : Opts → SetupResult
  setup_handlers opts = setup_role opts.role opts
