-- ===== src/Cli/Flags.antt =====
-- The loops of `SaltCli.cmdline` that look for a flag among the arguments, and default flags.
use pytest_salt_factories.Base.{
  ◌≡◌, Bool, true, ◌||◌, List, [], ◌∷◌, ◌++◌, arith, any, ◌==◌, if◌then◌else◌,
}
use pytest_salt_factories.Base.Text.{Text, codes, text_eq, starts_with, starts_with-append}

unfoldable pub is_config_dir : Text → Bool
is_config_dir arg =
    starts_with arg (codes "--config-dir=") || arg == codes "-c" || arg == codes "--config-dir"

unfoldable pub is_log_level : Text → Bool
is_log_level arg =
    arg == codes "-l" || arg == codes "--log-level" || starts_with arg (codes "--log-level=")

unfoldable pub is_out_indent : Text → Bool
is_out_indent arg =
    arg == codes "--out-indent"
    || arg == codes "--output-indent"
    || starts_with arg (codes "--out-indent=")
    || starts_with arg (codes "--output-indent=")

-- `for arg in args: if …: break` with `else: cmdline.append(default)`
unfoldable pub default_unless : (Text → Bool) → Text → List Text → List Text
default_unless given default args = if any given args then [] else default ∷ []

unfoldable pub config_dir_flag : Text → List Text → List Text
config_dir_flag config_dir = default_unless is_config_dir (codes "--config-dir=" ++ config_dir)

unfoldable pub log_level_flag : List Text → List Text
log_level_flag = default_unless is_log_level (codes "--log-level=critical")

unfoldable pub out_indent_flag : List Text → List Text
out_indent_flag = default_unless is_out_indent (codes "--out-indent=0")

-- With the default in front, the arguments hold the flag.
pub default_unless-any :
    (given : Text → Bool) (default : Text) (args : List Text)
    → given default ≡ true
    → any given (default_unless given default args ++ args) ≡ true
unfolding default_unless any
default_unless-any given default args h = ground (arith, h)

pub config_dir-is_config_dir :
    (config_dir : Text) → is_config_dir (codes "--config-dir=" ++ config_dir) ≡ true
unfolding is_config_dir
config_dir-is_config_dir config_dir =
    ground (arith, starts_with-append (codes "--config-dir=") config_dir)
