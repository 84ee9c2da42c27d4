-- ===== src/Cli/Output.antt =====
-- The output block of `SaltCli.cmdline`: `--out`, `--out-indent` and `__json_output__`.
pub mod Laws
use pytest_salt_factories.Base.{
  Bool, true, false, ◌||◌, Option, none, some, List, [], ◌∷◌, ◌++◌, ◌==◌, if◌then◌else◌, ◌≡◌, refl,
  arith,
}
use pytest_salt_factories.Base.Text.{Text, codes, text_eq, starts_with, split, last_or, strip}
use pytest_salt_factories.Cli.{Result, ok, err, index_error}
use pytest_salt_factories.Cli.Flags.{out_indent_flag}

abbrev pub is_bare_out : Text → Bool
is_bare_out arg = arg == codes "--out" || arg == codes "--output"

abbrev pub is_out_with : Text → Bool
is_out_with arg = starts_with arg (codes "--out=") || starts_with arg (codes "--output=")

-- `value == "json"`
abbrev pub is_json : Text → Bool
is_json value = value == codes "json"

-- Where the loop stops: nowhere, at a flag with nothing behind it, or at an outputter.
pub data OutputScan : Type 0 where
  absent missing : OutputScan
  requested : (json : Bool) → OutputScan

-- The argument behind a bare flag, `args[idx + 1]`.
abbrev pub next_output : List Text → OutputScan
next_output [] = missing
next_output (value ∷ args) = requested (is_json value)

unfoldable pub scan_output : List Text → OutputScan
scan_output [] = absent
scan_output (arg ∷ args) =
    let rest = scan_output args in
    if is_bare_out arg
    then next_output args
    else if is_out_with arg
    then requested (is_json (strip (last_or [] (split (codes "=") arg))))
    else rest

-- The flags that one outcome of the loop adds, with the new `__json_output__`.
unfoldable pub output_of : List Text → OutputScan → Result (Bool × List Text)
output_of args absent = ok (true, codes "--out=json" ∷ out_indent_flag args)
output_of args missing = err index_error
output_of args (requested true) = ok (true, out_indent_flag args)
output_of args (requested false) = ok (false, [])

unfoldable pub output_flag : List Text → Result (Bool × List Text)
output_flag args = output_of args (scan_output args)
