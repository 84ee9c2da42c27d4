-- ===== src/Scripts.antt =====
-- `generate_script` of src/saltfactories/utils/cli_scripts.py. The files of `bin_dir` are a dict by their
-- names; a path is the name of its script there. A text is what `dedent`, `format` and `strip` make of a
-- template, line by line: none but `common` and `coverage`, and the directory of `sitecustomize`, has a
-- place for a value. Paths have no newlines.
pub mod Generate
mod Tests
use pytest_salt_factories.Base.{
  Bool, true, false, Option, none, some, List, [], ◌∷◌, ◌++◌, ◌==◌, if◌then◌else◌,
}
use pytest_salt_factories.Base.Text.{Text, codes, text_eq, join, replace}
use pytest_salt_factories.Base.Dict.{Dict, lookup, insert}

pub record Script : Type 0 where
  pub contents : Text
  pub executable : Bool

abbrev pub Scripts : Type 0
Scripts = Dict Text Script

-- The arguments of `generate_script`; `sitecustomize_dir` is the directory `coverage` beside its module.
pub record Options : Type 0 where
  pub code_dir : Option Text
  pub inject_sitecustomize : Bool
  pub sitecustomize_dir : Text
  pub coverage_db_path : Option Text
  pub coverage_rc_path : Option Text

pub data Result {ℓ} (A : Type ℓ) : Type ℓ where
  ok : A → Result A
  usage_error key_error : Result A

-- The end of all the scripts, from the first handler of an exception on.
unfoldable pub exit_lines : List Text
exit_lines =
    codes "    except SystemExit as exc:"
    ∷ codes "        exitcode = exc.code"
    ∷ codes "        # https://docs.python.org/3/library/exceptions.html#SystemExit"
    ∷ codes "        if exitcode is None:"
    ∷ codes "            exitcode = 0"
    ∷ codes "        if not isinstance(exitcode, int):"
    ∷ codes "            # A string?!"
    ∷ codes "            sys.stderr.write(exitcode)"
    ∷ codes "            exitcode = 1"
    ∷ codes "    except Exception as exc:"
    ∷ codes "        sys.stderr.write("
    ∷ codes
        "            \"An un-handled exception was caught: \" + str(exc) + \"\\n\" + traceback.format_exc()"
    ∷ codes "        )"
    ∷ codes "        exitcode = 1"
    ∷ codes "    sys.stdout.flush()"
    ∷ codes "    sys.stderr.flush()"
    ∷ codes "    atexit._run_exitfuncs()"
    ∷ codes "    os._exit(exitcode)"
    ∷ []

unfoldable pub salt_lines : List Text
salt_lines =
    codes "import atexit"
    ∷ codes "import traceback"
    ∷ codes "from salt.scripts import salt_main"
    ∷ []
    ∷ codes "if __name__ == '__main__':"
    ∷ codes "    exitcode = 0"
    ∷ codes "    try:"
    ∷ codes "        salt_main()"
    ∷ exit_lines

unfoldable pub api_lines : List Text
api_lines =
    codes "import atexit"
    ∷ codes "import traceback"
    ∷ codes "import salt.cli.api"
    ∷ codes "import salt.utils.process"
    ∷ []
    ∷ codes "salt.utils.process.notify_systemd()"
    ∷ []
    ∷ codes "def main():"
    ∷ codes "    sapi = salt.cli.api.SaltAPI()"
    ∷ codes "    sapi.start()"
    ∷ []
    ∷ codes "if __name__ == '__main__':"
    ∷ codes "    exitcode = 0"
    ∷ codes "    try:"
    ∷ codes "        main()"
    ∷ exit_lines

unfoldable pub common_lines : Text → List Text
common_lines name =
    codes "import atexit"
    ∷ codes "import traceback"
    ∷ (codes "from salt.scripts import salt_" ++ name)
    ∷ []
    ∷ codes "def main():"
    ∷ codes "    if sys.platform.startswith(\"win\"):"
    ∷ codes "        import os.path"
    ∷ codes "        import py_compile"
    ∷ codes "        cfile = os.path.splitext(__file__)[0] + '.pyc'"
    ∷ codes "        if not os.path.exists(cfile):"
    ∷ codes "            py_compile.compile(__file__, cfile)"
    ∷ (codes "    salt_" ++ (name ++ codes "()"))
    ∷ []
    ∷ codes "if __name__ == '__main__':"
    ∷ codes "    exitcode = 0"
    ∷ codes "    try:"
    ∷ codes "        main()"
    ∷ exit_lines

unfoldable pub header_lines : List Text
header_lines =
    codes "from __future__ import absolute_import"
    ∷ codes "import os"
    ∷ codes "import sys"
    ∷ []
    ∷ codes "# We really do not want buffered output"
    ∷ codes "os.environ[str(\"PYTHONUNBUFFERED\")] = str(\"1\")"
    ∷ codes "# Don't write .pyc files or create them in __pycache__ directories"
    ∷ codes "os.environ[str(\"PYTHONDONTWRITEBYTECODE\")] = str(\"1\")"
    ∷ []

unfoldable pub code_lines : Text → List Text
code_lines code_dir =
    (codes "CODE_DIR = r'" ++ (code_dir ++ codes "'"))
    ∷ codes "if CODE_DIR in sys.path:"
    ∷ codes "    sys.path.remove(CODE_DIR)"
    ∷ codes "sys.path.insert(0, CODE_DIR)"
    ∷ []

unfoldable pub coverage_lines : Text → Text → List Text
coverage_lines coverage_db_path coverage_rc_path =
    codes "# Setup coverage environment variables"
    ∷ (codes "COVERAGE_FILE = r'" ++ (coverage_db_path ++ codes "'"))
    ∷ (codes "COVERAGE_PROCESS_START = r'" ++ (coverage_rc_path ++ codes "'"))
    ∷ codes "os.environ[str('COVERAGE_FILE')] = str(COVERAGE_FILE)"
    ∷ codes "os.environ[str('COVERAGE_PROCESS_START')] = str(COVERAGE_PROCESS_START)"
    ∷ []

unfoldable pub sitecustomize_lines : Text → List Text
sitecustomize_lines sitecustomize_dir =
    codes "# Allow sitecustomize.py to be importable for test coverage purposes"
    ∷ (codes "SITECUSTOMIZE_DIR = r'" ++ (sitecustomize_dir ++ codes "'"))
    ∷ codes "PYTHONPATH = os.environ.get('PYTHONPATH') or None"
    ∷ codes "if PYTHONPATH is None:"
    ∷ codes "    PYTHONPATH_ENV_VAR = SITECUSTOMIZE_DIR"
    ∷ codes "else:"
    ∷ codes "    PYTHON_PATH_ENTRIES = PYTHONPATH.split(os.pathsep)"
    ∷ codes "    if SITECUSTOMIZE_DIR in PYTHON_PATH_ENTRIES:"
    ∷ codes "        PYTHON_PATH_ENTRIES.remove(SITECUSTOMIZE_DIR)"
    ∷ codes "    PYTHON_PATH_ENTRIES.insert(0, SITECUSTOMIZE_DIR)"
    ∷ codes "    PYTHONPATH_ENV_VAR = os.pathsep.join(PYTHON_PATH_ENTRIES)"
    ∷ codes "os.environ[str('PYTHONPATH')] = str(PYTHONPATH_ENV_VAR)"
    ∷ codes "if SITECUSTOMIZE_DIR in sys.path:"
    ∷ codes "    sys.path.remove(SITECUSTOMIZE_DIR)"
    ∷ codes "sys.path.insert(0, SITECUSTOMIZE_DIR)"
    ∷ []

unfoldable pub as_text : List Text → Text
as_text lines = join (codes "\n") lines

-- A block, and an empty line.
unfoldable pub block : List Text → Text
block lines = as_text lines ++ codes "\n\n"

unfoldable pub code_block : Option Text → Text
code_block none = []
code_block (some []) = []
code_block (some (c ∷ code_dir)) = block (code_lines (c ∷ code_dir))

-- Both paths, or neither: an empty path is none that was left out.
unfoldable pub coverage_block : Option Text → Option Text → Result Text
coverage_block none none = ok []
coverage_block (some (c ∷ db)) (some (e ∷ rc)) = ok (block (coverage_lines (c ∷ db) (e ∷ rc)))
coverage_block db rc = usage_error

unfoldable pub sitecustomize_block : Bool → Text → Text
sitecustomize_block true sitecustomize_dir = block (sitecustomize_lines sitecustomize_dir)
sitecustomize_block false sitecustomize_dir = []

-- `script_name.replace("salt-", "").replace("-", "_")`
unfoldable pub function_name : Text → Text
function_name script_name = replace (codes "-") (codes "_") (replace (codes "salt-") [] script_name)

-- The template of a name, formatted. Those of `coverage` and `sitecustomize` have no value for their
-- places.
unfoldable pub template_lines : Text → Result (List Text)
template_lines script_name =
    if script_name == codes "salt"
    then ok salt_lines
    else if script_name == codes "salt-api"
    then ok api_lines
    else if script_name == codes "coverage"
    then key_error
    else if script_name == codes "sitecustomize"
    then key_error
    else ok (common_lines (function_name script_name))

unfoldable pub contents_of : Options → Text → Result (List Text) → Result Text
contents_of o coverage usage_error = usage_error
contents_of o coverage key_error = key_error
contents_of o coverage (ok lines) = ok (
    block header_lines
    ++ (code_block o.code_dir
        ++ (coverage
            ++ (sitecustomize_block o.inject_sitecustomize o.sitecustomize_dir
                ++ (as_text lines ++ codes "\n")))))

-- What is written, with the coverage block.
unfoldable pub contents_with : Options → Text → Result Text → Result Text
contents_with o script_name usage_error = usage_error
contents_with o script_name key_error = key_error
contents_with o script_name (ok coverage) = contents_of o coverage (template_lines script_name)

unfoldable pub script_contents : Options → Text → Result Text
script_contents o script_name =
    contents_with o script_name (coverage_block o.coverage_db_path o.coverage_rc_path)

unfoldable pub cli_script_name : Text → Text
cli_script_name script_name =
    codes "cli_" ++ (replace (codes "-") (codes "_") script_name ++ codes ".py")

unfoldable pub empty_script : Script
empty_script = record { contents = []; executable = false }

-- The file is opened, and so made, before its contents are known.
unfoldable pub write_script : Text → Result Text → Scripts → Result Text × Scripts
write_script path usage_error scripts = (usage_error, insert path empty_script scripts)
write_script path key_error scripts = (key_error, insert path empty_script scripts)
write_script path (ok contents) scripts =
    (ok path, insert path (record { contents = contents; executable = true }) scripts)

unfoldable pub generate_found :
    Options → Text → Text → Option Script → Scripts → Result Text × Scripts
generate_found o script_name path (some script) scripts = (ok path, scripts)
generate_found o script_name path none scripts =
    write_script path (script_contents o script_name) scripts

unfoldable pub generate_script : Options → Text → Scripts → Result Text × Scripts
generate_script o script_name scripts =
    let path = cli_script_name script_name in
    generate_found o script_name path (lookup path scripts) scripts
