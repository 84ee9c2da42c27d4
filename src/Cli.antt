-- ===== src/Cli.antt =====
-- The state of the CLI factories: `SaltCli` of src/saltfactories/bases.py and its subclasses in
-- src/saltfactories/cli. A subclass is a tag on the record, and what it overrides matches on the tag.
pub mod Flags
pub mod Timeout
pub mod Output
pub mod Cmdline
pub mod Process
mod Tests
use pytest_salt_factories.Base.{
  ℕ, Bool, true, false, Option, none, some, List, [], ◌∷◌, ◌++◌, if◌then◌else◌,
}
use pytest_salt_factories.Base.Text.{Text, codes}
use pytest_salt_factories.Base.Int.{ℤ}

-- The attributes that `SaltSsh` adds. `target_host` is the value after `__attrs_post_init__`.
pub record SshOptions : Type 0 where
  pub roster_file : Option Text
  pub client_key : Option Text
  pub target_host : Text
  pub ssh_user : Option Text

pub data Class : Type 0 where
  salt_call salt_cloud salt_cp salt_key salt_run salt spm : Class
  salt_ssh : SshOptions → Class

-- `terminal_timeout` is `impl._terminal_timeout`, `minion_tgt` is `_minion_tgt`, and
-- `use_merge` is `__merge_json_output__`. Timeouts are whole seconds.
pub record SaltCli : Type 0 where
  pub class : Class
  pub config_dir : Text
  pub python_executable : Option Text
  pub hard_crash : Bool
  pub merge_json_output : Bool
  pub timeout : Option ℤ
  pub minion_tgt : Option Text
  pub terminal_timeout : Option ℤ
  pub json_output : Bool
  pub use_merge : Bool
  pub log_level_flags : Bool

pub data Error : Type 0 where
  usage_error index_error type_error : Error

pub data Result {ℓ} (A : Type ℓ) : Type ℓ where
  ok : A → Result A
  err : Error → Result A

-- An argument of any type: a text, or another object.
pub data Value (V : Type 0) : Type 0 where
  text : Text → Value V
  other : V → Value V

-- What the factories call and do not implement: `str()` and `json.dumps()` of other objects, and
-- `get_script_args` and `cmdline` of `pytestshellutils.shell.ScriptSubprocess`.
pub record Host (V : Type 0) : Type 0 where
  pub str : V → Text
  pub dumps : V → Text
  pub base_script_args : List Text
  pub base_cmdline : List Text → List Text → List Text

-- A text that is given and not empty.
abbrev pub truthy : Option Text → Bool
truthy none = false
truthy (some []) = false
truthy (some (c ∷ s)) = true

-- `__cli_timeout_supported__`
unfoldable pub cli_timeout_supported : Class → Bool
cli_timeout_supported salt_call = true
cli_timeout_supported salt_cp = true
cli_timeout_supported salt_run = true
cli_timeout_supported salt = true
cli_timeout_supported _ = false

-- `__cli_output_supported__`
unfoldable pub cli_output_supported : Class → Bool
cli_output_supported spm = false
cli_output_supported _ = true

-- `__cli_log_level_supported__`. For `salt-key` it depends on the installed Salt, which
-- `log_level_flags` tells.
unfoldable pub cli_log_level_supported : SaltCli → Class → Bool
cli_log_level_supported c salt_key = c.log_level_flags
cli_log_level_supported c _ = true

-- `get_minion_tgt`
unfoldable pub get_minion_tgt : Class → Option Text → Option Text
get_minion_tgt salt_call tgt = none
get_minion_tgt salt_key tgt = none
get_minion_tgt salt_run tgt = none
get_minion_tgt spm tgt = none
get_minion_tgt (salt_ssh o) none = if truthy (some o.target_host) then some o.target_host else none
get_minion_tgt _ tgt = tgt

-- `SaltCli.get_script_args`
unfoldable pub cli_script_args : List Text → Bool → List Text
cli_script_args base hard_crash = if hard_crash then codes "--hard-crash" ∷ [] else base

-- `script_args.append(flag + value)` if the value is true.
abbrev option_arg : Text → Option Text → List Text
option_arg flag value = elim value [
  | none ↦ []
  | some v ↦ if truthy (some v) then (flag ++ v) ∷ [] else []
]

-- `get_script_args`
unfoldable pub get_script_args : List Text → SaltCli → Class → List Text
get_script_args base c (salt_ssh o) =
    cli_script_args base c.hard_crash
    ++ (option_arg (codes "--roster-file=") o.roster_file
        ++ (option_arg (codes "--priv=") o.client_key ++ option_arg (codes "--user=") o.ssh_user))
get_script_args base c _ = cli_script_args base c.hard_crash
