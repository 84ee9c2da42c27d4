-- ===== src/TempFiles/Laws.antt =====
-- The loop that removes the directories of `temp_directory`: when it ends, and what it leaves.
use pytest_salt_factories.Base.{
  ℕ, zero, suc, ◌≡◌, refl, sym, ◌∙◌, subst, Bool, true, false, ◌||◌, none, some, [], ◌∷◌, ◌==◌,
  arith, inl, inr, contains, any, contains-remove, length, Bool-cases,
}
use pytest_salt_factories.TempFiles.{
  FilePath, path_eq, FileSystem, parent, is_child, has_entries, remove_if_empty, clean_up,
}

-- Going up from a path, the loop meets the base.
unfoldable pub is_under : FilePath → FilePath → Bool
is_under base [] = [] == base
is_under base (name ∷ path) = name ∷ path == base || is_under base path

clean_up-zero : (base path : FilePath) (fs : FileSystem) → clean_up 0 base path fs ≡ none
unfolding clean_up
clean_up-zero base path fs = refl

clean_up-here :
    (fuel : ℕ) (base path : FilePath) (fs : FileSystem)
    → (path == base) ≡ true
    → clean_up (suc fuel) base path fs ≡ some fs
unfolding clean_up
clean_up-here fuel base path fs h = ground (arith, h)

clean_up-away :
    (fuel : ℕ) (base path : FilePath) (fs : FileSystem)
    → (path == base) ≡ false
    → clean_up (suc fuel) base path fs ≡ clean_up fuel base (parent path) (remove_if_empty path fs)
unfolding clean_up
clean_up-away fuel base path fs h = ground (arith, h)

-- A loop that starts at the base or under it ends, within as many rounds as the path has names, and
-- one more.
pub clean_up-ends :
    (base path : FilePath) (fs : FileSystem)
    → is_under base path ≡ true
    → (fs' : FileSystem) × (clean_up (suc (length path)) base path fs ≡ some fs')
unfolding is_under
clean_up-ends base [] fs h = (fs, clean_up-here 0 base [] fs h)
clean_up-ends base (name ∷ path) fs h = elim (Bool-cases (name ∷ path == base)) [
  | inl here ↦ (fs, clean_up-here (suc (length path)) base (name ∷ path) fs here)
  | inr away ↦
      let below : is_under base path ≡ true = ground (arith, h, away) in
      let (fs', ends) = clean_up-ends base path (remove_if_empty (name ∷ path) fs) below in
      (fs', clean_up-away (suc (length path)) base (name ∷ path) fs away ∙ ends)
]

-- A loop that starts outside the base never ends, however many rounds it is given.
pub clean_up-endless :
    (fuel : ℕ) (base path : FilePath) (fs : FileSystem)
    → is_under base path ≡ false
    → clean_up fuel base path fs ≡ none
unfolding is_under
clean_up-endless zero base path fs h = clean_up-zero base path fs
clean_up-endless (suc fuel) base [] fs h =
    clean_up-away fuel base [] fs h ∙ clean_up-endless fuel base [] (remove_if_empty [] fs) h
clean_up-endless (suc fuel) base (name ∷ path) fs h =
    let away : (name ∷ path == base) ≡ false = ground (arith, h) in
    let below : is_under base path ≡ false = ground (arith, h) in
    clean_up-away fuel base (name ∷ path) fs away
    ∙ clean_up-endless fuel base path (remove_if_empty (name ∷ path) fs) below

-- What the removal of a directory keeps, the loop keeps.
pub clean_up-keeps :
    (P : FileSystem → Type 0)
    → ((path : FilePath) (fs : FileSystem) → P fs → P (remove_if_empty path fs))
    → (fuel : ℕ) (base path : FilePath) (fs fs' : FileSystem)
    → clean_up fuel base path fs ≡ some fs'
    → P fs
    → P fs'
clean_up-keeps P keeps zero base path fs fs' h k = cc (clean_up-zero base path fs)
clean_up-keeps P keeps (suc fuel) base path fs fs' h k = elim (Bool-cases (path == base)) [
  | inl here ↦ let same : fs ≡ fs' = cc (clean_up-here fuel base path fs here) in subst P same k
  | inr away ↦
      clean_up-keeps P keeps fuel base (parent path) (remove_if_empty path fs) fs'
        (sym (clean_up-away fuel base path fs away) ∙ h) (keeps path fs k)
]

remove_if_empty-files :
    (path : FilePath) (fs : FileSystem) → (remove_if_empty path fs).files ≡ fs.files
unfolding remove_if_empty
remove_if_empty-files path fs = ground arith

-- The loop touches no file.
pub clean_up-files :
    (fuel : ℕ) (base path : FilePath) (fs fs' : FileSystem)
    → clean_up fuel base path fs ≡ some fs'
    → fs'.files ≡ fs.files
clean_up-files fuel base path fs fs' h =
    clean_up-keeps (λ (x : FileSystem). x.files ≡ fs.files)
      (λ p x same. remove_if_empty-files p x ∙ same) fuel base path fs fs' h refl

-- A directory with a file of its own in it.
abbrev pub HasFile : FilePath → FileSystem → Type 0
HasFile dir fs = (contains fs.dirs dir ≡ true) × (any (λ f. is_child dir f.0) fs.files ≡ true)

pub remove_if_empty-HasFile :
    (dir path : FilePath) (fs : FileSystem) → HasFile dir fs → HasFile dir (remove_if_empty path fs)
unfolding remove_if_empty has_entries
remove_if_empty-HasFile dir path fs (is_dir, has_file) =
    ground (arith, is_dir, has_file, contains-remove path dir fs.dirs)

pub remove_if_empty-absent :
    (dir path : FilePath) (fs : FileSystem)
    → contains fs.dirs dir ≡ false
    → contains (remove_if_empty path fs).dirs dir ≡ false
unfolding remove_if_empty
remove_if_empty-absent dir path fs h = ground (arith, h, contains-remove path dir fs.dirs)
