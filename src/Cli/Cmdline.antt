-- ===== src/Cli/Cmdline.antt =====
-- `SaltCli.cmdline` and `Salt.cmdline`.
pub mod Laws
pub mod Outcome
use pytest_salt_factories.Base.{
  Bool, true, false, Option, none, some, List, [], ◌∷◌, ◌++◌, map, contains, not, ◌&&◌, ◌||◌, ◌==◌,
  if◌then◌else◌,
}
use pytest_salt_factories.Base.Int.{ℤ}
use pytest_salt_factories.Base.Text.{Text, codes, text_eq}
use pytest_salt_factories.Cli.{
  Class, salt, SaltCli, Error, usage_error, index_error, Result, ok, err, Value, text, other, Host,
  truthy, cli_timeout_supported, cli_output_supported, cli_log_level_supported, get_minion_tgt,
  get_script_args,
}
use pytest_salt_factories.Cli.Flags.{config_dir_flag, log_level_flag}
use pytest_salt_factories.Cli.Timeout.{timeout_flag}
use pytest_salt_factories.Cli.Output.{output_flag}

abbrev pub tgt_args : Option Text → List Text
tgt_args none = []
tgt_args (some t) = if truthy (some t) then t ∷ [] else []

-- `if self.python_executable and cmdline[0] != self.python_executable`
unfoldable pub with_python : Option Text → List Text → Result (List Text)
with_python none line = ok line
with_python (some exe) line =
    if truthy (some exe)
    then elim line [
      | [] ↦ err index_error
      | first ∷ rest ↦ ok (if first == exe then first ∷ rest else exe ∷ first ∷ rest)
    ]
    else ok line

-- The `_minion_tgt` and `__merge_json_output__` that a call sets.
unfoldable pub set_target : Option Text → Option Bool → SaltCli → SaltCli
set_target tgt merge c = record c {
  minion_tgt = get_minion_tgt c.class tgt;
  use_merge = elim merge [ none ↦ c.merge_json_output | some m ↦ m ];
}

-- The timeout block, if the class has it: the new state and the flags.
unfoldable pub timeout_block : SaltCli → List Text → SaltCli × List Text
timeout_block c args =
    if cli_timeout_supported c.class
    then (
      record c { terminal_timeout = (timeout_flag c.timeout c.terminal_timeout args).0 },
      (timeout_flag c.timeout c.terminal_timeout args).1,
    )
    else (c, [])

-- The output block, if the class has it.
unfoldable pub output_block : SaltCli → List Text → Result (Bool × List Text)
output_block c args =
    if cli_output_supported c.class then output_flag args else ok (c.json_output, [])

unfoldable pub log_level_block : SaltCli → List Text → List Text
log_level_block c args = if cli_log_level_supported c c.class then log_level_flag args else []

-- `skip_raise_exception_args` of `Salt.cmdline`
abbrev pub skip_raise_exception_args : List Text
skip_raise_exception_args =
    codes "-V" ∷ codes "--version" ∷ codes "--versions-report" ∷ codes "--help" ∷ []

-- `set(args).intersection(skip_raise_exception_args)`
unfoldable pub asks_for_info : {V : Type 0} → List (Value V) → Bool
asks_for_info [] = false
asks_for_info (text t ∷ args) = contains skip_raise_exception_args t || asks_for_info args
asks_for_info (other v ∷ args) = asks_for_info args

-- The guard of `Salt.cmdline`; the other classes have none.
unfoldable pub tgt_guard : {V : Type 0} → Class → List (Value V) → Option Text → Bool
tgt_guard salt args none = asks_for_info args
tgt_guard _ args tgt = true

module _ {V : Type 0} (host : Host V) where
  -- `str(arg)`
  unfoldable pub str_of : Value V → Text
  str_of (text t) = t
  str_of (other v) = host.str v

  -- `f"{key}={value}"`, where only what is no text is dumped.
  unfoldable pub pair_arg : Text × Value V → Text
  pair_arg (key, text t) = key ++ (codes "=" ++ t)
  pair_arg (key, other v) = key ++ (codes "=" ++ host.dumps v)

  -- The last part: target, arguments, pairs, and the script in front.
  unfoldable pub assemble :
      SaltCli → List Text → List Text → List (Text × Value V) → Result (List Text)
  assemble c flags args kwargs = with_python c.python_executable (
      host.base_cmdline (get_script_args host.base_script_args c c.class)
        (flags ++ (tgt_args c.minion_tgt ++ (args ++ map pair_arg kwargs))))

  -- From the state after the timeout block on. An error leaves that state behind.
  unfoldable pub finish :
      SaltCli
      → List Text
      → List Text
      → List (Text × Value V)
      → Result (Bool × List Text)
      → SaltCli × Result (List Text)
  finish c flags args kwargs (err e) = (c, err e)
  finish c flags args kwargs (ok (json, out)) =
      let c' : SaltCli = record c { json_output = json } in
      (c', assemble c' (flags ++ (out ++ log_level_block c args)) args kwargs)

  -- `SaltCli.cmdline`, once the arguments are texts.
  unfoldable pub build_cmdline :
      SaltCli
      → List Text
      → Option Text
      → Option Bool
      → List (Text × Value V)
      → SaltCli × Result (List Text)
  build_cmdline c args tgt merge kwargs =
      let (timed, flags) = timeout_block (set_target tgt merge c) args in
      finish timed (config_dir_flag c.config_dir args ++ flags) args kwargs
        (output_block timed args)

  -- `cmdline(*args, minion_tgt, merge_json_output, **kwargs)` of a factory.
  unfoldable pub cmdline :
      SaltCli
      → List (Value V)
      → Option Text
      → Option Bool
      → List (Text × Value V)
      → SaltCli × Result (List Text)
  cmdline c args tgt merge kwargs =
      if tgt_guard c.class args tgt
      then build_cmdline c (map str_of args) tgt merge kwargs
      else (c, err usage_error)
