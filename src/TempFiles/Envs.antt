-- ===== src/TempFiles/Envs.antt =====
-- `SaltEnv` and `SaltEnvs` of src/saltfactories/utils/tempfiles.py: the directories of the state
-- and pillar environments, and the part of the Salt configuration that names them.
use pytest_salt_factories.Base.{
  ◌≡◌, refl, ◌∙◌, Bool, true, false, ◌||◌, some, List, [], ◌∷◌, ◌++◌, ◌==◌, arith, any, contains,
  contains-add,
}
use pytest_salt_factories.Base.Text.{Text, text_eq}
use pytest_salt_factories.Base.Dict.{Dict, lookup, insert, lookup-insert}
use pytest_salt_factories.TempFiles.{FilePath, path_eq, FileSystem, make_dir, add_dirs}

pub record SaltEnv : Type 0 where
  pub name : Text
  pub paths : List FilePath

-- A value of `envs`: an environment, a list of paths or a single one.
pub data EnvTree : Type 0 where
  env : SaltEnv → EnvTree
  paths_of : List FilePath → EnvTree
  path_of : FilePath → EnvTree

-- `SaltEnv.__attrs_post_init__`: every path is made.
unfoldable pub make_paths : List FilePath → FileSystem → FileSystem
make_paths [] fs = fs
make_paths (path ∷ paths) fs = make_paths paths (make_dir path fs)

unfoldable pub salt_env : Text → EnvTree → SaltEnv
salt_env envname (env e) = e
salt_env envname (paths_of paths) = record { name = envname; paths = paths }
salt_env envname (path_of path) = record { name = envname; paths = path ∷ [] }

-- The paths that an item makes: those of an environment are there already.
unfoldable pub new_paths : EnvTree → List FilePath
new_paths (env e) = []
new_paths (paths_of paths) = paths
new_paths (path_of path) = path ∷ []

-- `SaltEnvs.__attrs_post_init__`
unfoldable pub salt_envs : Dict Text EnvTree → FileSystem → List SaltEnv × FileSystem
salt_envs [] fs = ([], fs)
salt_envs ((envname, tree) ∷ envs) fs =
    let (rest, fs') = salt_envs envs (make_paths (new_paths tree) fs) in
    (salt_env envname tree ∷ rest, fs')

-- The loop of `SaltEnvs.as_dict`, from the configuration so far.
unfoldable pub add_envs : Dict Text (List FilePath) → List SaltEnv → Dict Text (List FilePath)
add_envs config [] = config
add_envs config (e ∷ envs) = add_envs (insert e.name e.paths config) envs

unfoldable pub as_dict : List SaltEnv → Dict Text (List FilePath)
as_dict envs = add_envs [] envs

abbrev pub is_named : Text → SaltEnv → Bool
is_named k e = k == e.name

lookup-add_envs_absent :
    (k : Text) (config : Dict Text (List FilePath)) (envs : List SaltEnv)
    → any (is_named k) envs ≡ false
    → lookup k (add_envs config envs) ≡ lookup k config
unfolding add_envs any
lookup-add_envs_absent k config [] h = refl
lookup-add_envs_absent k config (e ∷ envs) h = ground (
  arith,
  h,
  lookup-add_envs_absent k (insert e.name e.paths config) envs,
  lookup-insert k e.name e.paths config,
)

lookup-add_envs :
    (config : Dict Text (List FilePath)) (front back : List SaltEnv) (e : SaltEnv)
    → any (is_named e.name) back ≡ false
    → lookup e.name (add_envs config (front ++ (e ∷ back))) ≡ some e.paths
unfolding add_envs
lookup-add_envs config [] back e h =
    lookup-add_envs_absent e.name (insert e.name e.paths config) back h
    ∙ ground (arith, lookup-insert e.name e.name e.paths config)
lookup-add_envs config (x ∷ front) back e h =
    lookup-add_envs (insert x.name x.paths config) front back e h

-- The configuration gives each environment its own paths, unless a later one has the same name.
pub lookup-as_dict :
    (front back : List SaltEnv) (e : SaltEnv)
    → any (is_named e.name) back ≡ false
    → lookup e.name (as_dict (front ++ (e ∷ back))) ≡ some e.paths
unfolding as_dict
lookup-as_dict front back e h = lookup-add_envs [] front back e h

add_dirs-made :
    (path q : FilePath) (dirs : List FilePath)
    → (q == path || contains dirs q) ≡ true
    → contains (add_dirs path dirs) q ≡ true
unfolding add_dirs
add_dirs-made [] q dirs h = ground (arith, h, contains-add [] q dirs)
add_dirs-made (name ∷ path) q dirs h =
    ground (arith, h, contains-add (name ∷ path) q (add_dirs path dirs), add_dirs-made path q dirs)

make_dir-made :
    (path q : FilePath) (fs : FileSystem)
    → (q == path || contains fs.dirs q) ≡ true
    → contains (make_dir path fs).dirs q ≡ true
unfolding make_dir
make_dir-made path q fs h = ground (arith, h, add_dirs-made path q fs.dirs)

make_paths-made :
    (paths : List FilePath) (q : FilePath) (fs : FileSystem)
    → (contains paths q || contains fs.dirs q) ≡ true
    → contains (make_paths paths fs).dirs q ≡ true
unfolding make_paths contains
make_paths-made [] q fs h = h
make_paths-made (path ∷ paths) q fs h =
    make_paths-made paths q (make_dir path fs) (ground (arith, h, make_dir-made path q fs))

abbrev pub makes : FilePath → Text × EnvTree → Bool
makes q item = contains (new_paths item.1) q

-- Every path that is given for an environment is a directory in the end, and so is every directory
-- there was.
pub salt_envs-made :
    (envs : Dict Text EnvTree) (q : FilePath) (fs : FileSystem)
    → (any (makes q) envs || contains fs.dirs q) ≡ true
    → contains (salt_envs envs fs).1.dirs q ≡ true
unfolding salt_envs any
salt_envs-made [] q fs h = h
salt_envs-made ((envname, tree) ∷ envs) q fs h =
    salt_envs-made envs q (make_paths (new_paths tree) fs)
      (ground (arith, h, make_paths-made (new_paths tree) q fs))
