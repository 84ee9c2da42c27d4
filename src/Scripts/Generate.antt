-- ===== src/Scripts/Generate.antt =====
-- What `generate_script` leaves, and what a later call finds.
use pytest_salt_factories.Base.{◌≡◌, refl, ap, ◌∙◌, true, false, none, some, ◌==◌, ==_refl, arith}
use pytest_salt_factories.Base.Text.{Text, text_eq}
use pytest_salt_factories.Base.Dict.{lookup, insert, lookup-insert}
use pytest_salt_factories.Scripts.{
  Script, Scripts, Options, Result, ok, usage_error, key_error, script_contents, cli_script_name,
  empty_script, write_script, generate_found, generate_script,
}

-- The script that a text, or an error, leaves.
abbrev pub script_of : Result Text → Script
script_of (ok contents) = record { contents = contents; executable = true }
script_of _ = empty_script

abbrev pub path_or_error : Text → Result Text → Result Text
path_or_error path (ok contents) = ok path
path_or_error path usage_error = usage_error
path_or_error path key_error = key_error

write_script_lem :
    (path : Text) (r : Result Text) (scripts : Scripts)
    → write_script path r scripts ≡ (path_or_error path r, insert path (script_of r) scripts)
unfolding write_script
write_script_lem path (ok contents) scripts = refl
write_script_lem path usage_error scripts = refl
write_script_lem path key_error scripts = refl

generate-absent :
    (o : Options) (script_name : Text) (scripts : Scripts)
    → lookup (cli_script_name script_name) scripts ≡ none
    → generate_script o script_name scripts ≡ (
      path_or_error (cli_script_name script_name) (script_contents o script_name),
      insert (cli_script_name script_name) (script_of (script_contents o script_name)) scripts,
    )
unfolding generate_script generate_found
generate-absent o script_name scripts lacks =
    ap (λ found. generate_found o script_name (cli_script_name script_name) found scripts) lacks
    ∙ write_script_lem (cli_script_name script_name) (script_contents o script_name) scripts

generate-found :
    (o : Options) (script_name : Text) (scripts : Scripts) (script : Script)
    → lookup (cli_script_name script_name) scripts ≡ some script
    → generate_script o script_name scripts ≡ (ok (cli_script_name script_name), scripts)
unfolding generate_script generate_found
generate-found o script_name scripts script has =
    ap (λ found. generate_found o script_name (cli_script_name script_name) found scripts) has

-- A call for a script that is not there raises the error of its options or of its name, if there is one, and
-- returns the path otherwise. It leaves the script with its contents, which can be executed; but after
-- an error it leaves an empty file. In each case another call for the name, with whatever options,
-- returns the path of what the first has left, and writes nothing; and the other scripts are kept.
pub generate_script-generate_script :
    (o later : Options) (script_name other : Text) (scripts : Scripts)
    → lookup (cli_script_name script_name) scripts ≡ none
    → (other == cli_script_name script_name) ≡ false
    → ((generate_script o script_name scripts).0
        ≡ path_or_error (cli_script_name script_name) (script_contents o script_name))
      × (lookup (cli_script_name script_name) (generate_script o script_name scripts).1
          ≡ some (script_of (script_contents o script_name)))
      × (generate_script later script_name (generate_script o script_name scripts).1
          ≡ (ok (cli_script_name script_name), (generate_script o script_name scripts).1))
      × (lookup other (generate_script o script_name scripts).1 ≡ lookup other scripts)
generate_script-generate_script o later script_name other scripts lacks differs =
    let path = cli_script_name script_name in
    let left = script_of (script_contents o script_name) in
    let first = generate-absent o script_name scripts lacks in
    let after = generate_script o script_name scripts in
    let there : lookup path after.1 ≡ some left =
      ap (λ r. lookup path r.1) first
      ∙ ground (arith, lookup-insert path path left scripts, ==_refl path) in
    (
      ap (λ r. r.0) first,
      there,
      generate-found later script_name after.1 left there,
      ap (λ r. lookup other r.1) first
          ∙ ground (arith, differs, lookup-insert other path left scripts),
    )
