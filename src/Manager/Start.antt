-- ===== src/Manager/Start.antt =====
-- `__attrs_post_init__` and `get_salt_script_path` of `FactoriesManager`. `sys.executable`, whether the
-- platform spawns, `shutil.which` and whether a file exists are parameters.
use pytest_salt_factories.Base.{
  ◌≡◌, refl, Bool, true, false, not, ◌&&◌, Option, none, some, [], ◌∷◌, arith, if◌then◌else◌,
}
use pytest_salt_factories.Base.Text.{Text, codes}
use pytest_salt_factories.TempFiles.{FilePath}
use pytest_salt_factories.Manager.{Manager, set_default}

unfoldable pub make_dir : FilePath → Manager → Manager
make_dir path m = record m { made = path ∷ m.made }

unfoldable pub init_root : Manager → Manager
init_root m =
    make_dir m.root_dir (record m {
      tmp_root_dir = m.root_dir;
      root_dir = if m.system_service then [] else m.root_dir;
    })

unfoldable pub own_scripts_dir : Manager → FilePath
own_scripts_dir m = codes "scripts" ∷ m.root_dir

unfoldable pub use_own_scripts : Manager → Manager
use_own_scripts m =
    make_dir (own_scripts_dir m) (record m { scripts_dir = some (own_scripts_dir m) })

unfoldable pub init_scripts : Option FilePath → Manager → Manager
init_scripts (some d) m = record m { python_executable = none; generate_scripts = false }
init_scripts none m =
    if m.system_service then record m { generate_scripts = false } else use_own_scripts m

unfoldable pub init_timeout : Bool → Manager → Manager
init_timeout is_spawning m = record m {
  start_timeout = some (set_default (if is_spawning then 120 else 60) m.start_timeout);
}

unfoldable pub init_generated : Manager → Manager
init_generated m = if not m.system_service && m.generate_scripts then use_own_scripts m else m

unfoldable pub init_python : Text → Manager → Manager
init_python executable m =
    if m.generate_scripts
    then record m { python_executable = some (set_default executable m.python_executable) }
    else m

-- `__attrs_post_init__`
unfoldable pub attrs_post_init : Bool → Text → Manager → Manager
attrs_post_init is_spawning executable m =
    let rooted = init_root m in
    init_python executable
      (init_generated (init_timeout is_spawning (init_scripts rooted.scripts_dir rooted)))

-- `generated`: the script that `generate_script` writes. `none_dir`: a script is looked for in `None`.
pub data ScriptPath : Type 0 where
  generated in_dir : (dir : FilePath) (script_name : Text) → ScriptPath
  on_path : (path : Text) → ScriptPath
  file_not_found none_dir : ScriptPath

unfoldable pub generate_in : Option FilePath → Text → ScriptPath
generate_in none name = none_dir
generate_in (some d) name = generated d name

module _ (which : Text → Option Text) (exists : FilePath → Text → Bool) where
  unfoldable pub script_in : Option FilePath → Text → ScriptPath
  script_in none name = none_dir
  script_in (some d) name = if exists d name then in_dir d name else file_not_found

  unfoldable pub script_on_path : Option Text → ScriptPath
  script_on_path none = file_not_found
  script_on_path (some path) = on_path path

  unfoldable pub get_salt_script_path : Text → Manager → ScriptPath
  get_salt_script_path name m =
      if m.generate_scripts
      then generate_in m.scripts_dir name
      else if m.system_service
      then script_on_path (which name)
      else script_in m.scripts_dir name

  -- Where the scripts of a manager come from.
  abbrev pub script_of : Bool → Option FilePath → FilePath → Text → ScriptPath
  script_of true scripts_dir root name = script_on_path (which name)
  script_of false (some d) root name = script_in (some d) name
  script_of false none root name = generated (codes "scripts" ∷ root) name

  -- The interpreter of a manager's scripts.
  abbrev pub python_of : Bool → Option FilePath → Text → Option Text → Option Text
  python_of system_service (some d) executable own = none
  python_of true none executable own = own
  python_of false none executable own = some (set_default executable own)

  script-cases :
      (is_spawning : Bool) (executable name : Text) (m : Manager) (d : Option FilePath) (s : Bool)
      → m.generate_scripts ≡ true
      → m.scripts_dir ≡ d
      → m.system_service ≡ s
      → (get_salt_script_path name (attrs_post_init is_spawning executable m)
          ≡ script_of s d m.root_dir name)
        × ((attrs_post_init is_spawning executable m).python_executable
            ≡ python_of s d executable m.python_executable)
  unfolding get_salt_script_path attrs_post_init init_root make_dir init_scripts init_timeout
      init_generated init_python use_own_scripts own_scripts_dir generate_in
  script-cases is_spawning executable name m (some d) true new given system =
      ground (arith, new, given, system)
  script-cases is_spawning executable name m (some d) false new given system =
      ground (arith, new, given, system)
  script-cases is_spawning executable name m none true new given system =
      ground (arith, new, given, system)
  script-cases is_spawning executable name m none false new given system =
      ground (arith, new, given, system)

  -- A new manager takes its scripts from `$PATH` if it is for an installed salt, else from its scripts
  -- directory where one is given, and generates them below its root directory otherwise, never without
  -- a directory to look in. It has no interpreter where a scripts directory is given; otherwise it has
  -- the one that it was given and, if there is none and it generates its scripts, that which runs it.
  pub get_salt_script_path-attrs_post_init :
      (is_spawning : Bool) (executable name : Text) (m : Manager)
      → m.generate_scripts ≡ true
      → (get_salt_script_path name (attrs_post_init is_spawning executable m)
          ≡ script_of m.system_service m.scripts_dir m.root_dir name)
        × ((attrs_post_init is_spawning executable m).python_executable
            ≡ python_of m.system_service m.scripts_dir executable m.python_executable)
  get_salt_script_path-attrs_post_init is_spawning executable name m new =
      script-cases is_spawning executable name m m.scripts_dir m.system_service new refl refl
