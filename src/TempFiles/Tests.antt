-- ===== src/TempFiles/Tests.antt =====
-- A small file system.
use pytest_salt_factories.Base.{
  suc, ◌≡◌, ◌⊎◌, refl, true, false, none, some, [], ◌∷◌, ◌++◌, ◌==◌, nat_eq, contains, any, add,
  remove, length, if◌then◌else◌,
}
use pytest_salt_factories.Base.Text.{Text, codes, text_eq, text_methods, text_discrete}
use pytest_salt_factories.Base.Dict.{lookup, insert, erase}
use pytest_salt_factories.TempFiles.{
  FilePath, path_eq, path_discrete, FileSystem, unnamed, relative, absolute, join, parent, add_dirs,
  make_dir, is_child, has_entries, remove_if_empty, clean_up, temp_directory, relative_to,
  value_error, ended, ending, file_contents, write_file, unlink, write_or_touch, temp_file_in,
  temp_file,
}
use pytest_salt_factories.TempFiles.Laws.{is_under, HasFile}
use pytest_salt_factories.TempFiles.Files.{
  temp_directory-ends, temp_directory-endless, temp_directory-keeps, temp_directory-absent, left,
  temp_file-ends, temp_file-gone, temp_file-idle,
}
use pytest_salt_factories.TempFiles.Envs.{
  SaltEnv, path_of, make_paths, salt_env, new_paths, salt_envs, add_envs, as_dict, lookup-as_dict,
  salt_envs-made,
}

program : Unit {0}
unfolding text_methods nat_eq text_discrete path_discrete path_eq contains any add remove lookup
    insert erase join add_dirs make_dir is_child has_entries remove_if_empty clean_up temp_directory
    relative_to ending file_contents write_file unlink write_or_touch temp_file_in temp_file
    is_under make_paths salt_env new_paths salt_envs add_envs as_dict
program = tt

abbrev tmp : FilePath
tmp = codes "tmp" ∷ []

abbrev files : FileSystem
files = record {
  dirs = [] ∷ tmp ∷ (codes "old" ∷ tmp) ∷ [];
  files = ((codes "f" ∷ codes "old" ∷ tmp, codes "text")) ∷ [];
}

abbrev a_b : FilePath
a_b = codes "b" ∷ codes "a" ∷ []

abbrev idle : FilePath → FileSystem → FileSystem
idle path fs = fs

run-directory : temp_directory 4 tmp (codes "x") (relative a_b) idle files ≡ some files
unfolding program
run-directory = refl

-- The block sees the directories.
run-inside :
    (left tmp (codes "x") (relative a_b) idle files).dirs
    ≡ [] ∷ tmp ∷ (codes "old" ∷ tmp) ∷ (codes "a" ∷ tmp) ∷ (a_b ++ tmp) ∷ []
unfolding program
run-inside = refl

temp_directory-ends_example :
    (fs' : FileSystem) × (temp_directory
        (suc (length (a_b ++ tmp)))
        tmp
        (codes "x")
        (relative a_b)
        idle
        files
      ≡ some fs')
temp_directory-ends_example = temp_directory-ends tmp a_b (codes "x") idle files

temp_directory-endless_example :
    temp_directory 100 tmp (codes "x") (absolute (codes "var" ∷ [])) idle files ≡ none
unfolding program
temp_directory-endless_example =
    temp_directory-endless 100 tmp (codes "var" ∷ []) (codes "x") idle files refl

temp_directory-keeps_holds : HasFile (codes "old" ∷ tmp) files
unfolding program
temp_directory-keeps_holds =
    temp_directory-keeps 4 tmp (codes "x") (relative a_b) idle files files (codes "old" ∷ tmp) refl
      (refl, refl)

temp_directory-absent_holds : contains files.dirs (codes "z" ∷ tmp) ≡ false
unfolding program
temp_directory-absent_holds =
    temp_directory-absent 4 tmp (codes "x") (relative a_b) idle files files (codes "z" ∷ tmp) refl
      refl

-- `textwrap.dedent` of a text without indentation.
abbrev dedent : Text → Text
dedent s = s

run-file :
    temp_file dedent 4 tmp
      (codes "x")
      (relative (codes "g" ∷ codes "a" ∷ []))
      true
      (some (codes "\ntext"))
      idle
      files
    ≡ ended files
unfolding program
run-file = refl

temp_file-ends_holds :
    ((is_under tmp (parent (join tmp (codes "x") (absolute (codes "g" ∷ [])))) ≡ true)
      × ((fs' : FileSystem) × (temp_file dedent
              (suc (length (parent (join tmp (codes "x") (absolute (codes "g" ∷ []))))))
              tmp
              (codes "x")
              (absolute (codes "g" ∷ []))
              true
              none
              idle
              files
            ≡ ended fs')))
    ⊎ ((is_under tmp (parent (join tmp (codes "x") (absolute (codes "g" ∷ [])))) ≡ false)
        × (temp_file dedent
              (suc (length (parent (join tmp (codes "x") (absolute (codes "g" ∷ []))))))
              tmp
              (codes "x")
              (absolute (codes "g" ∷ []))
              true
              none
              idle
              files
            ≡ value_error))
temp_file-ends_holds =
    temp_file-ends dedent tmp (codes "x") (absolute (codes "g" ∷ [])) true none idle files

temp_file-gone_holds : lookup (codes "x" ∷ tmp) files.files ≡ none
unfolding program
temp_file-gone_holds =
    temp_file-gone dedent 4 tmp (codes "x") unnamed true (some (codes "\ntext")) idle files files
      refl

temp_file-idle_holds : lookup (codes "f" ∷ codes "old" ∷ tmp) files.files ≡ (
    if codes "f" ∷ codes "old" ∷ tmp == codes "x" ∷ tmp
    then none
    else lookup (codes "f" ∷ codes "old" ∷ tmp) files.files)
unfolding program
temp_file-idle_holds =
    temp_file-idle dedent 4 tmp (codes "x") unnamed true (some (codes "\ntext")) files files
      (codes "f" ∷ codes "old" ∷ tmp) refl

abbrev base_env : SaltEnv
base_env = record { name = codes "base"; paths = tmp ∷ [] }

lookup-as_dict_holds : lookup (codes "base") (as_dict (base_env ∷ [])) ≡ some (tmp ∷ [])
unfolding program
lookup-as_dict_holds = lookup-as_dict [] [] base_env refl

salt_envs-made_holds :
    contains
      (salt_envs ((codes "base", path_of (codes "s" ∷ tmp)) ∷ []) files).1.dirs
      (codes "s" ∷ tmp)
    ≡ true
unfolding program
salt_envs-made_holds =
    salt_envs-made ((codes "base", path_of (codes "s" ∷ tmp)) ∷ []) (codes "s" ∷ tmp) files refl
