-- ===== src/Scripts/Tests.antt =====
-- The script of a minion, with and without what coverage needs.
use pytest_salt_factories.Base.{◌≡◌, refl, true, false, none, some, [], ◌==◌}
use pytest_salt_factories.Base.Text.{Text, codes, text_eq, text_methods, has_part}
use pytest_salt_factories.Base.Dict.{lookup, insert}
use pytest_salt_factories.Scripts.{
  Options, Script, Result, ok, usage_error, key_error, exit_lines, salt_lines, api_lines,
  common_lines, header_lines, code_lines, coverage_lines, sitecustomize_lines, as_text, block,
  code_block, coverage_block, sitecustomize_block, function_name, template_lines, contents_of,
  contents_with, script_contents, cli_script_name, empty_script, write_script, generate_found,
  generate_script,
}
use pytest_salt_factories.Scripts.Generate.{generate_script-generate_script}

program : Unit {0}
unfolding text_methods lookup insert exit_lines salt_lines api_lines common_lines header_lines
    code_lines coverage_lines sitecustomize_lines as_text block code_block coverage_block
    sitecustomize_block function_name template_lines contents_of contents_with script_contents
    cli_script_name empty_script write_script generate_found generate_script
program = tt

abbrev plain : Options
plain = record {
  code_dir = some (codes "/c");
  inject_sitecustomize = false;
  sitecustomize_dir = codes "/p/coverage";
  coverage_db_path = none;
  coverage_rc_path = none;
}

abbrev half : Options
half = record plain { coverage_db_path = some (codes "/db") }

names :
    (cli_script_name (codes "salt-minion") ≡ codes "cli_salt_minion.py")
    × (function_name (codes "salt-minion") ≡ codes "minion")
    × (script_contents plain (codes "coverage") ≡ key_error)
unfolding program
names = (refl, refl, refl)

no_script : lookup {V = Script} (cli_script_name (codes "salt-minion")) [] ≡ none
unfolding program
no_script = refl

another : (codes "cli_salt.py" == cli_script_name (codes "salt-minion")) ≡ false
unfolding program
another = refl

-- Half of what coverage needs: the second call returns the path of an empty file.
generate_script-generate_script_example :
    ((generate_script half (codes "salt-minion") []).0 ≡ usage_error)
    × (lookup (codes "cli_salt_minion.py") (generate_script half (codes "salt-minion") []).1
        ≡ some (record { contents = []; executable = false }))
    × (generate_script plain (codes "salt-minion") (generate_script half (codes "salt-minion") []).1
        ≡ (ok (codes "cli_salt_minion.py"), (generate_script half (codes "salt-minion") []).1))
    × (lookup (codes "cli_salt.py") (generate_script half (codes "salt-minion") []).1 ≡ none)
unfolding program
generate_script-generate_script_example =
    generate_script-generate_script half plain (codes "salt-minion") (codes "cli_salt.py") []
      no_script another

abbrev text_in : Result Text → Text
text_in (ok t) = t
text_in r = []

calls_main :
    has_part (codes "\n    salt_minion()\n") (text_in (script_contents plain (codes "salt-minion")))
    ≡ true
unfolding program
calls_main = refl
