-- ===== src/TempFiles/Files.antt =====
-- `temp_directory` and `temp_file` as a whole.
use pytest_salt_factories.Base.{
  ℕ, suc, ◌≡◌, refl, sym, ap, Bool, true, false, Option, none, some, [], ◌∷◌, ◌++◌, ◌==◌, ==_sound,
  arith, ◌⊎◌, inl, inr, contains, length, if◌then◌else◌, Bool-cases,
}
use pytest_salt_factories.Base.Text.{Text}
use pytest_salt_factories.Base.Dict.{lookup, lookup-insert, lookup-erase}
use pytest_salt_factories.TempFiles.{
  FilePath, path_eq, FileSystem, Name, relative, absolute, join, parent, make_dir, temp_directory,
  relative_to, value_error, ended, ending, unlink, file_contents, write_file, write_or_touch,
  temp_file_in, temp_file,
}
use pytest_salt_factories.TempFiles.Laws.{
  is_under, clean_up-ends, clean_up-endless, clean_up-keeps, clean_up-files, HasFile,
  remove_if_empty-HasFile, remove_if_empty-absent,
}

abbrev pub Body : Type 0
Body = FilePath → FileSystem → FileSystem

is_under_self : (base : FilePath) → is_under base base ≡ true
unfolding is_under
is_under_self [] = ground arith
is_under_self (name ∷ base) = ground arith

is_under-append : (base names : FilePath) → is_under base (names ++ base) ≡ true
unfolding is_under
is_under-append base [] = is_under_self base
is_under-append base (name ∷ names) = ground (arith, is_under-append base names)

-- A directory with a relative name is always left, whatever the test does in it: as many rounds as
-- the whole path has names are enough, and one more.
pub temp_directory-ends :
    (base names : FilePath) (fresh : Text) (body : Body) (fs : FileSystem)
    → (fs' : FileSystem) × (temp_directory
          (suc (length (names ++ base)))
          base
          fresh
          (relative names)
          body
          fs
        ≡ some fs')
unfolding temp_directory join
temp_directory-ends base names fresh body fs =
    clean_up-ends base (names ++ base) (body (names ++ base) (make_dir (names ++ base) fs))
      (is_under-append base names)

-- With an absolute name that is not under the base path the call never ends, however many rounds the
-- loop is given.
pub temp_directory-endless :
    (fuel : ℕ) (base path : FilePath) (fresh : Text) (body : Body) (fs : FileSystem)
    → is_under base path ≡ false
    → temp_directory fuel base fresh (absolute path) body fs ≡ none
unfolding temp_directory join
temp_directory-endless fuel base path fresh body fs h =
    clean_up-endless fuel base path (body path (make_dir path fs)) h

-- What the test leaves when it is done.
abbrev pub left : FilePath → Text → Name → Body → FileSystem → FileSystem
left base fresh name body fs = body (join base fresh name) (make_dir (join base fresh name) fs)

-- A directory in which the test left a file is still there when the call has ended.
pub temp_directory-keeps :
    (fuel : ℕ) (base : FilePath) (fresh : Text) (name : Name) (body : Body) (fs fs' : FileSystem)
    (dir : FilePath)
    → temp_directory fuel base fresh name body fs ≡ some fs'
    → HasFile dir (left base fresh name body fs)
    → HasFile dir fs'
unfolding temp_directory
temp_directory-keeps fuel base fresh name body fs fs' dir h k =
    clean_up-keeps (HasFile dir) (remove_if_empty-HasFile dir) fuel base (join base fresh name)
      (left base fresh name body fs) fs' h k

-- A directory that was not there when the test was done is not there when the call has ended.
pub temp_directory-absent :
    (fuel : ℕ) (base : FilePath) (fresh : Text) (name : Name) (body : Body) (fs fs' : FileSystem)
    (dir : FilePath)
    → temp_directory fuel base fresh name body fs ≡ some fs'
    → contains (left base fresh name body fs).dirs dir ≡ false
    → contains fs'.dirs dir ≡ false
unfolding temp_directory
temp_directory-absent fuel base fresh name body fs fs' dir h k =
    clean_up-keeps (λ (x : FileSystem). contains x.dirs dir ≡ false) (remove_if_empty-absent dir)
      fuel base (join base fresh name) (left base fresh name body fs) fs' h k

relative_to-cases :
    (path directory : FilePath)
    → ((names : FilePath) × (relative_to path directory ≡ some names)
        × (names ++ directory ≡ path)
        × (is_under directory path ≡ true))
      ⊎ ((relative_to path directory ≡ none) × (is_under directory path ≡ false))
unfolding relative_to is_under
relative_to-cases [] directory = elim (Bool-cases ([] == directory)) [
  | inl here ↦ rw here (inl ([], refl, sym (==_sound [] directory here), refl))
  | inr away ↦ rw away (inr (refl, refl))
]
relative_to-cases (name ∷ path) directory = elim (Bool-cases (name ∷ path == directory)) [
  | inl here ↦ rw here (inl ([], refl, sym (==_sound (name ∷ path) directory here), refl))
  | inr away ↦ rw away (elim (relative_to-cases path directory) [
    | inl found ↦
        let (names, is, same, below) = found in
        rw (is, below) (inl (name ∷ names, refl, ap (λ p. name ∷ p) same, refl))
    | inr lost ↦ let (is, below) = lost in rw (is, below) (inr (refl, refl))
  ])
]

temp_directory-files :
    (fuel : ℕ) (base : FilePath) (fresh : Text) (name : Name) (body : Body) (fs fs' : FileSystem)
    → temp_directory fuel base fresh name body fs ≡ some fs'
    → fs'.files ≡ (left base fresh name body fs).files
unfolding temp_directory
temp_directory-files fuel base fresh name body fs fs' h =
    clean_up-files fuel base (join base fresh name) (left base fresh name body fs) fs' h

ending-ended : (o : Option FileSystem) (fs : FileSystem) → ending o ≡ ended fs → o ≡ some fs
unfolding ending
ending-ended none fs h = cc
ending-ended (some x) fs h = cc

module _ (dedent : Text → Text) where
  -- `temp_file` never runs forever: it raises a `ValueError` if the directory of the file is not
  -- under `directory`, and otherwise it ends, within as many rounds as that path has names, and one
  -- more.
  pub temp_file-ends :
      (directory : FilePath) (fresh : Text) (name : Name) (strip : Bool) (contents : Option Text)
      (body : Body) (fs : FileSystem)
      → ((is_under directory (parent (join directory fresh name)) ≡ true)
          × ((fs' : FileSystem) × (temp_file dedent
                  (suc (length (parent (join directory fresh name))))
                  directory
                  fresh
                  name
                  strip
                  contents
                  body
                  fs
                ≡ ended fs')))
        ⊎ ((is_under directory (parent (join directory fresh name)) ≡ false)
            × (temp_file dedent
                  (suc (length (parent (join directory fresh name))))
                  directory
                  fresh
                  name
                  strip
                  contents
                  body
                  fs
                ≡ value_error))
  unfolding temp_file temp_file_in ending
  temp_file-ends directory fresh name strip contents body fs =
      let path = join directory fresh name in
      elim (relative_to-cases (parent path) directory) [
        | inl found ↦
            let (names, is, same, below) = found in
            let (fs', ends) =
              temp_directory-ends directory names fresh
                (λ dir. write_or_touch dedent strip path contents body) fs in
            let rounds : suc (length (names ++ directory)) ≡ suc (length (parent path)) =
              ap (λ (p : FilePath). suc (length p)) same in
            inl (below, (fs', rw (is, sym rounds) (ap ending ends)))
        | inr lost ↦ let (is, below) = lost in inr (below, rw is refl)
      ]

  make_dir-files : (path : FilePath) (fs : FileSystem) → (make_dir path fs).files ≡ fs.files
  unfolding make_dir
  make_dir-files path fs = ground arith

  temp_file_in-files :
      (fuel : ℕ) (directory : FilePath) (fresh : Text) (path : FilePath) (o : Option FilePath)
      (strip : Bool) (contents : Option Text) (body : Body) (fs fs' : FileSystem)
      → temp_file_in dedent fuel directory fresh path o strip contents body fs ≡ ended fs'
      → (fs0 : FileSystem) × (fs0.files ≡ fs.files)
        × (fs'.files ≡ (write_or_touch dedent strip path contents body fs0).files)
  unfolding temp_file_in
  temp_file_in-files fuel directory fresh path none strip contents body fs fs' h = cc
  temp_file_in-files fuel directory fresh path (some names) strip contents body fs fs' h =
      let inner = λ (dir : FilePath). write_or_touch dedent strip path contents body in
      let done =
        ending-ended (temp_directory fuel directory fresh (relative names) inner fs) fs' h in
      (
        make_dir (join directory fresh (relative names)) fs,
        make_dir-files (join directory fresh (relative names)) fs,
        temp_directory-files fuel directory fresh (relative names) inner fs fs' done,
      )

  -- When `temp_file` has ended, its file is gone, whatever the test did.
  pub temp_file-gone :
      (fuel : ℕ) (directory : FilePath) (fresh : Text) (name : Name) (strip : Bool)
      (contents : Option Text) (body : Body) (fs fs' : FileSystem)
      → temp_file dedent fuel directory fresh name strip contents body fs ≡ ended fs'
      → lookup (join directory fresh name) fs'.files ≡ none
  unfolding temp_file write_or_touch unlink
  temp_file-gone fuel directory fresh name strip contents body fs fs' h =
      let path = join directory fresh name in
      let (fs0, same, files) =
        temp_file_in-files fuel directory fresh path (relative_to (parent path) directory) strip
          contents body fs fs' h in
      rw files (
        ground (
          arith,
          lookup-erase path path (body path (write_file dedent strip path contents fs0)).files,
        ))

  lookup-write_file :
      (q path : FilePath) (strip : Bool) (contents : Option Text) (fs : FileSystem)
      → (q == path) ≡ false
      → lookup q (write_file dedent strip path contents fs).files ≡ lookup q fs.files
  unfolding write_file
  lookup-write_file q path strip (some contents) fs h =
      ground (arith, h, lookup-insert q path (file_contents dedent strip contents) fs.files)
  lookup-write_file q path strip none fs h = ground (arith, h, lookup-insert q path [] fs.files)

  -- When the test leaves the file system as it finds it, every other file is as it was.
  pub temp_file-idle :
      (fuel : ℕ) (directory : FilePath) (fresh : Text) (name : Name) (strip : Bool)
      (contents : Option Text) (fs fs' : FileSystem) (q : FilePath)
      → temp_file dedent fuel directory fresh name strip contents (λ path x. x) fs ≡ ended fs'
      → lookup q fs'.files ≡ (if q == join directory fresh name then none else lookup q fs.files)
  unfolding temp_file write_or_touch unlink
  temp_file-idle fuel directory fresh name strip contents fs fs' q h =
      let path = join directory fresh name in
      let (fs0, same, files) =
        temp_file_in-files fuel directory fresh path (relative_to (parent path) directory) strip
          contents (λ path x. x) fs fs' h in
      rw files (
        ground (
          arith,
          lookup-erase q path (write_file dedent strip path contents fs0).files,
          lookup-write_file q path strip contents fs0,
          same,
        ))
