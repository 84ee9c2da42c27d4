-- ===== src/Cli/Tests.antt =====
-- Runs of the CLI model, and its theorems at concrete inputs.
use pytest_salt_factories.Base.{
  ℕ, ◌≡◌, ◌↔◌, refl, true, false, Option, none, some, List, [], ◌∷◌, ◌++◌, map, any, nat_eq,
  contains,
}
use mathlib.Core.Logic.{ite}
use pytest_salt_factories.Base.Int.{ℤ, pos, ◌+ℤ◌}
use pytest_salt_factories.Base.Decimal.{decimals, parse_int, parse_int-show_int}
use pytest_salt_factories.Base.Text.{Text, codes, text_eq, text_methods}
use pytest_salt_factories.Cli.{
  salt, salt_call, SaltCli, ok, err, usage_error, index_error, type_error, Value, text, other, Host,
  cli_timeout_supported, cli_output_supported, cli_log_level_supported, get_minion_tgt,
  cli_script_args, get_script_args,
}
use pytest_salt_factories.Cli.Flags.{
  default_unless, config_dir_flag, log_level_flag, out_indent_flag, is_config_dir, is_log_level,
  is_out_indent,
}
use pytest_salt_factories.Cli.Timeout.{
  scan_timeout, raise_terminal, default_timeout, use_default, apply_scan, timeout_flag,
}
use pytest_salt_factories.Cli.Timeout.Laws.{Exceeds, timeout_flag-Exceeds}
use pytest_salt_factories.Cli.Timeout.Given.{short}
use pytest_salt_factories.Cli.Output.{scan_output, output_of, output_flag, requested}
use pytest_salt_factories.Cli.Output.Laws.{EndsBare, output_flag-scan, output_flag-error}
use pytest_salt_factories.Cli.Cmdline.{
  with_python, set_target, timeout_block, output_block, log_level_block, str_of, pair_arg, assemble,
  finish, build_cmdline, asks_for_info, tgt_guard, cmdline,
}
use pytest_salt_factories.Cli.Cmdline.Laws.{KeepsArgs, cmdline-KeepsArgs}
use pytest_salt_factories.Cli.Cmdline.Outcome.{cmdline-usage_error, build_cmdline-Exceeds}
use pytest_salt_factories.Cli.Process.{
  Json, truthy_json, num, arr, obj, nil, item, end, field, get_field, pick_target, merge,
  load_output, unwrap_string, select_target, process_output, drop_no_minions, line_end, key_noise,
  drop_key_noise, clean_stdout, local_target, process,
}
use pytest_salt_factories.Cli.Process.Laws.{
  is_dict, names_minion, process_output-error, process-local,
}

-- All that a run computes with.
program : Unit {0}
unfolding text_methods decimals nat_eq contains any ◌+ℤ◌ cli_timeout_supported cli_output_supported
    cli_log_level_supported get_minion_tgt cli_script_args get_script_args default_unless
    config_dir_flag log_level_flag out_indent_flag is_config_dir is_log_level is_out_indent
    scan_timeout raise_terminal default_timeout use_default apply_scan timeout_flag scan_output
    output_of output_flag with_python set_target timeout_block output_block log_level_block str_of
    pair_arg assemble finish build_cmdline asks_for_info tgt_guard cmdline get_field pick_target
    merge load_output unwrap_string select_target process_output drop_no_minions line_end key_noise
    drop_key_noise clean_stdout local_target process
program = tt

-- Other objects are numbers, and the script is called by its path.
abbrev host : Host ℕ
host = record {
  str = λ n. codes "obj";
  dumps = λ n. codes "1";
  base_script_args = [];
  base_cmdline = λ script_args args. codes "/bin/salt" ∷ (script_args ++ args);
}

host-KeepsArgs : KeepsArgs host
host-KeepsArgs script_args args = (codes "/bin/salt" ∷ script_args, refl)

abbrev salt_cli : SaltCli
salt_cli = record {
  class = salt;
  config_dir = codes "/etc";
  python_executable = some (codes "python");
  hard_crash = false;
  merge_json_output = true;
  timeout = some (pos 30);
  minion_tgt = none;
  terminal_timeout = some (pos 60);
  json_output = false;
  use_merge = true;
  log_level_flags = true;
}

abbrev call_args : List (Value ℕ)
call_args = text (codes "test.ping") ∷ other 7 ∷ []

abbrev pairs : List (Text × Value ℕ)
pairs = (codes "a", text (codes "b")) ∷ (codes "n", other 3) ∷ []

abbrev built : List Text
built =
    codes "python"
    ∷ codes "/bin/salt"
    ∷ codes "--config-dir=/etc"
    ∷ codes "--timeout=60"
    ∷ codes "--out=json"
    ∷ codes "--out-indent=0"
    ∷ codes "--log-level=critical"
    ∷ codes "*"
    ∷ codes "test.ping"
    ∷ codes "obj"
    ∷ codes "a=b"
    ∷ codes "n=1"
    ∷ []

run-salt : (cmdline host salt_cli call_args (some (codes "*")) none pairs).1 ≡ ok built
unfolding program
run-salt = refl

run-terminal :
    (cmdline host salt_cli call_args (some (codes "*")) none pairs).0.terminal_timeout
    ≡ some (pos 80)
unfolding program
run-terminal = refl

abbrev passed_timeout : List Text
passed_timeout = codes "-t" ∷ codes "70" ∷ codes "--out" ∷ []

run-passed_timeout :
    (timeout_flag (some (pos 30)) (some (pos 60)) passed_timeout ≡ (some (pos 90), []))
    × (output_flag passed_timeout ≡ err index_error)
unfolding program
run-passed_timeout = (refl, refl)

passed-Exceeds : Exceeds (timeout_flag (some (pos 30)) (some (pos 60)) passed_timeout).0 (pos 70)
unfolding program
passed-Exceeds = timeout_flag-Exceeds (some (pos 30)) (some (pos 60)) passed_timeout (pos 70) refl

build_cmdline-Exceeds_example :
    Exceeds (build_cmdline host salt_cli passed_timeout none none pairs).0.terminal_timeout (pos 70)
unfolding program
build_cmdline-Exceeds_example =
    build_cmdline-Exceeds host salt_cli passed_timeout [] (codes "--out" ∷ []) none none pairs short
      (pos 70) refl refl refl

-- Only the first of two timeouts raises the hard timeout.
repeated_timeout :
    timeout_flag none (some (pos 20)) (codes "--timeout=5" ∷ codes "--timeout=60" ∷ [])
    ≡ (some (pos 20), [])
unfolding program
repeated_timeout = refl

output_flag-scan_holds :
    scan_output ((codes "--out=json" ∷ codes "--out-indent=0" ∷ []) ++ (codes "x" ∷ []))
    ≡ requested true
unfolding program
output_flag-scan_holds = output_flag-scan (codes "x" ∷ []) refl

output_flag-error_holds : (output_flag passed_timeout ≡ err index_error) ↔ EndsBare passed_timeout
output_flag-error_holds = output_flag-error passed_timeout

minus_seventeen : parse_int (codes "-17") ≡ some (ℤ.negsuc 16)
unfolding program
minus_seventeen = parse_int-show_int (ℤ.negsuc 16)

cmdline-KeepsArgs_example :
    (front : List Text) × (built
      ≡ front ++ (map (str_of host) call_args ++ map (pair_arg host) pairs))
    × (any is_config_dir (front ++ map (str_of host) call_args) ≡ true)
unfolding program
cmdline-KeepsArgs_example =
    cmdline-KeepsArgs host host-KeepsArgs salt_cli call_args (some (codes "*")) none pairs built
      refl

-- With `--version` the target may be left out, and with no such argument it may not.
abbrev version_args : List (Value ℕ)
version_args = text (codes "--version") ∷ []

run-version : tgt_guard salt version_args none ≡ true
unfolding program
run-version = refl

cmdline-usage_error_holds :
    ((cmdline host salt_cli call_args none none pairs).1 ≡ err usage_error)
    ↔ ((salt ≡ salt) × (◌≡◌ {A = Option Text} none none) × (asks_for_info call_args ≡ false))
cmdline-usage_error_holds = cmdline-usage_error host salt_cli call_args none none pairs

-- A decoder that knows three documents.
abbrev loads : Text → Option Json
loads s =
    ite (text_eq.dec s (codes "L")) (some (obj (field (codes "local") (num (pos 3)) end)))
      (ite (text_eq.dec s (codes "[1]")) (some (arr (item (num (pos 1)) nil))) none)

abbrev json_cli : SaltCli
json_cli = record salt_cli { json_output = true; minion_tgt = some (codes "m") }

process-local_holds :
    (process loads (record json_cli { class = salt_call }) (codes "L") [] none).1
    ≡ ok (record { stdout = codes "L"; stderr = []; data_ = num (pos 3) })
unfolding program
process-local_holds =
    process-local loads (record json_cli { class = salt_call }) b'L' [] [] none (codes "local")
      (num (pos 3)) end (num (pos 3)) refl refl refl refl

process_output-error_holds : (process_output loads json_cli (codes "[1]") [] ≡ err type_error) ↔ (
    (cli_output_supported salt ≡ true)
    × (names_minion (some (codes "m")) ≡ true)
    × (truthy_json
          (unwrap_string json_cli (codes "[1]") (load_output loads json_cli (codes "[1]"))).1
        ≡ true)
    × (is_dict (unwrap_string json_cli (codes "[1]") (load_output loads json_cli (codes "[1]"))).1
        ≡ false))
process_output-error_holds = process_output-error loads json_cli (codes "[1]") []

run-list : process_output loads json_cli (codes "[1]") [] ≡ err type_error
unfolding program
run-list = refl

run-key : clean_stdout salt_cli.class true (codes "jid: 12\nx ") ≡ codes "x"
unfolding program
run-key = refl

run-key_noise : drop_key_noise 0 (codes "a\nKey for minion m accepted.\nb") ≡ codes "a\nb"
unfolding program
run-key_noise = refl
