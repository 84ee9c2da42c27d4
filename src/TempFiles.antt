-- ===== src/TempFiles.antt =====
-- src/saltfactories/utils/tempfiles.py. A path lists its names, the innermost first, so that the
-- parent is the tail; the file system is its directories and the texts of its files. What the test
-- does inside a `with` block is a function on the file system. A directory in the place of a file, or
-- a file in the place of a directory, is not modelled: the source raises an `OSError` there.
-- Names are plain: `..` and links do not occur.
pub mod Laws
pub mod Files
pub mod Envs
mod Tests
use pytest_salt_factories.Base.{
  ℕ, zero, suc, Bool, true, false, not, ◌||◌, ◌&&◌, Option, none, some, List, [], ◌∷◌, ◌++◌, ◌==◌,
  Eq, nat_eq, add, remove, contains, any, if◌then◌else◌,
}
use pytest_salt_factories.Base.Text.{Text, text_eq, text_discrete}
use pytest_salt_factories.Base.Dict.{Dict, lookup, insert, erase}

abbrev pub FilePath : Type 0
FilePath = List Text

unfoldable pub path_discrete : Discrete FilePath
path_discrete = hlevel text_discrete

instance unfoldable pub path_eq : Eq FilePath
path_eq = record { dec = path_discrete }

pub record FileSystem : Type 0 where
  pub dirs : List FilePath
  pub files : Dict FilePath Text

-- The `name` of a call: none, a relative path or an absolute one.
pub data Name : Type 0 where
  unnamed : Name
  relative absolute : (path : FilePath) → Name

-- `basepath / name`, or the path that `mkdtemp` or `mkstemp` makes up.
unfoldable pub join : FilePath → Text → Name → FilePath
join base fresh unnamed = fresh ∷ base
join base fresh (relative path) = path ++ base
join base fresh (absolute path) = path

abbrev pub parent : FilePath → FilePath
parent [] = []
parent (name ∷ path) = path

-- `mkdir(parents=True, exist_ok=True)`
unfoldable pub add_dirs : FilePath → List FilePath → List FilePath
add_dirs [] dirs = add [] dirs
add_dirs (name ∷ path) dirs = add (name ∷ path) (add_dirs path dirs)

unfoldable pub make_dir : FilePath → FileSystem → FileSystem
make_dir path fs = if contains fs.dirs path then fs else record fs { dirs = add_dirs path fs.dirs }

unfoldable pub is_child : FilePath → FilePath → Bool
is_child dir [] = false
is_child dir (name ∷ path) = path == dir

-- `any(path.iterdir())`
unfoldable pub has_entries : FileSystem → FilePath → Bool
has_entries fs dir = any (is_child dir) fs.dirs || any (λ f. is_child dir f.0) fs.files

unfoldable pub remove_if_empty : FilePath → FileSystem → FileSystem
remove_if_empty path fs =
    if contains fs.dirs path && not (has_entries fs path)
    then record fs { dirs = remove path fs.dirs }
    else fs

-- The loop of `temp_directory`; `none` is a loop that is still running.
unfoldable pub clean_up : ℕ → FilePath → FilePath → FileSystem → Option FileSystem
clean_up zero base path fs = none
clean_up (suc fuel) base path fs =
    let rest = clean_up fuel base (parent path) (remove_if_empty path fs) in
    if path == base then some fs else rest

-- `temp_directory`
unfoldable pub temp_directory :
    ℕ
    → FilePath
    → Text
    → Name
    → (FilePath → FileSystem → FileSystem)
    → FileSystem
    → Option FileSystem
temp_directory fuel base fresh name body fs =
    let path = join base fresh name in clean_up fuel base path (body path (make_dir path fs))

-- `path.relative_to(directory)`; `none` is a `ValueError`.
unfoldable pub relative_to : FilePath → FilePath → Option FilePath
relative_to [] directory = if [] == directory then some [] else none
relative_to (name ∷ path) directory =
    let rest = relative_to path directory in
    if name ∷ path == directory
    then some []
    else elim rest [ none ↦ none | some names ↦ some (name ∷ names) ]

pub data Ending : Type 0 where
  value_error still_running : Ending
  ended : FileSystem → Ending

unfoldable pub ending : Option FileSystem → Ending
ending none = still_running
ending (some fs) = ended fs

-- `if file_path.exists(): file_path.unlink()`
unfoldable pub unlink : FilePath → FileSystem → FileSystem
unlink path fs = record fs { files = erase path fs.files }

-- `dedent` is `textwrap.dedent`.
module _ (dedent : Text → Text) where
  unfoldable pub file_contents : Bool → Text → Text
  file_contents strip_first_newline [] = []
  file_contents strip_first_newline (c ∷ s) =
      dedent (if c == 10 && strip_first_newline then s else c ∷ s)

  -- What `_write_or_touch` does before the block: it writes, or touches without a text.
  unfoldable pub write_file : Bool → FilePath → Option Text → FileSystem → FileSystem
  write_file strip path (some contents) fs = record fs {
    files = insert path (file_contents strip contents) fs.files;
  }
  write_file strip path none fs = elim (lookup path fs.files) [
    | none ↦ record fs { files = insert path [] fs.files }
    | some old ↦ fs
  ]

  -- `_write_or_touch`
  unfoldable pub write_or_touch :
      Bool → FilePath → Option Text → (FilePath → FileSystem → FileSystem) → FileSystem → FileSystem
  write_or_touch strip path contents body fs =
      unlink path (body path (write_file strip path contents fs))

  unfoldable pub temp_file_in :
      ℕ
      → FilePath
      → Text
      → FilePath
      → Option FilePath
      → Bool
      → Option Text
      → (FilePath → FileSystem → FileSystem)
      → FileSystem
      → Ending
  temp_file_in fuel directory fresh path none strip contents body fs = value_error
  temp_file_in fuel directory fresh path (some names) strip contents body fs = ending (
      temp_directory fuel directory fresh (relative names)
        (λ dir. write_or_touch strip path contents body) fs)

  -- `temp_file`. A `pathlib.Path` is always true, so the directory is always entered by
  -- `temp_directory`. The file of `mkstemp` is the one that is written next.
  unfoldable pub temp_file :
      ℕ
      → FilePath
      → Text
      → Name
      → Bool
      → Option Text
      → (FilePath → FileSystem → FileSystem)
      → FileSystem
      → Ending
  temp_file fuel directory fresh name strip contents body fs =
      let path = join directory fresh name in
      temp_file_in fuel directory fresh path (relative_to (parent path) directory) strip contents
        body fs
