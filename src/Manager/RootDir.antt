-- ===== src/Manager/RootDir.antt =====
-- `get_root_dir_for_daemon` of `FactoriesManager`: the directories are a list, and a given `root_dir` is
-- the path that `resolve` makes of it. The loop over the counter has a fuel.
use pytest_salt_factories.Base.{
  ℕ, zero, suc, ◌+◌, ◌≤◌, ◌<◌, ◌≡◌, refl, sym, ◌∙◌, ap, ◌⊎◌, inl, inr, Bool, true, false, ◌&&◌,
  Option, none, some, List, [], ◌∷◌, ◌++◌, ◌==◌, ==_refl, ==_sound, Eq, contains, remove,
  contains-remove, contains-add, length, drop, arith, if◌then◌else◌, Bool-cases,
}
use pytest_salt_factories.Base.Text.{Text, codes}
use pytest_salt_factories.Base.Int.{ℤ, pos}
use pytest_salt_factories.Base.Decimal.{show_nat, show_int, parse_int, parse_int-show_int}
use pytest_salt_factories.TempFiles.{FilePath, path_eq, add_dirs}
use pytest_salt_factories.Manager.{Manager}
use pytest_salt_factories.Manager.Start.{
  attrs_post_init, init_python, init_generated, init_timeout, init_scripts, init_root, make_dir,
  use_own_scripts,
}

unfoldable pub numbered : FilePath → Text → ℕ → FilePath
numbered root id k = (id ++ (codes "_" ++ show_nat k)) ∷ root

-- `none` is a loop that is still running.
unfoldable pub free_from : ℕ → FilePath → Text → ℕ → List FilePath → Option FilePath
free_from zero root id k dirs = none
free_from (suc fuel) root id k dirs =
    let rest = free_from fuel root id (k + 1) dirs in
    if contains dirs (numbered root id k) then rest else some (numbered root id k)

unfoldable pub new_root : ℕ → FilePath → FilePath → Text → List FilePath → Option FilePath
new_root fuel base root id dirs =
    let rest = free_from fuel root id 1 dirs in
    if contains dirs (id ∷ base) then rest else some (id ∷ base)

-- The directory, made if it is not there.
unfoldable pub make_root : Option FilePath → List FilePath → Option (FilePath × List FilePath)
make_root none dirs = none
make_root (some path) dirs = some (path, add_dirs path dirs)

-- `is_salt`: that the factory is a `SaltMixin`.
unfoldable pub default_root :
    ℕ → Manager → Bool → Text → List FilePath → Option (FilePath × List FilePath)
default_root fuel m is_salt id dirs =
    let base = if m.system_service then m.tmp_root_dir else m.root_dir in
    if m.system_service && is_salt
    then some (m.root_dir, dirs)
    else make_root (new_root fuel base m.root_dir id dirs) dirs

unfoldable pub get_root_dir_for_daemon :
    ℕ → Manager → Option FilePath → Bool → Text → List FilePath → Option (FilePath × List FilePath)
get_root_dir_for_daemon fuel m (some given) is_salt id dirs = make_root (some given) dirs
get_root_dir_for_daemon fuel m none is_salt id dirs = default_root fuel m is_salt id dirs

drop-append : {A : Type 0} (xs ys : List A) → drop (length xs) (xs ++ ys) ≡ ys
drop-append [] ys = refl
drop-append (x ∷ xs) ys = drop-append xs ys

abbrev first_name : FilePath → Text
first_name [] = []
first_name (name ∷ path) = name

abbrev number_of : Option ℤ → ℕ
number_of none = 0
number_of (some (pos n)) = n
number_of (some _) = 0

show_nat_injective : (j k : ℕ) → show_nat j ≡ show_nat k → j ≡ k
unfolding show_int
show_nat_injective j k same =
    ap number_of (sym (parse_int-show_int (pos j)) ∙ ap parse_int same ∙ parse_int-show_int (pos k))

numbered_injective :
    (root : FilePath) (id : Text) (j k : ℕ) → numbered root id j ≡ numbered root id k → j ≡ k
unfolding numbered codes
numbered_injective root id j k same = show_nat_injective j k (
    sym (drop-append (codes "_") (show_nat j))
    ∙ ap (drop 1) (
        sym (drop-append id (codes "_" ++ show_nat j))
        ∙ ap (λ p. drop (length id) (first_name p)) same
        ∙ drop-append id (codes "_" ++ show_nat k))
    ∙ drop-append (codes "_") (show_nat k))

numbered_other :
    (root : FilePath) (id : Text) (j k : ℕ)
    → j < k
    → (numbered root id k == numbered root id j) ≡ false
numbered_other root id j k less = elim (Bool-cases (numbered root id k == numbered root id j)) [
  | inl same ↦ ground (
    arith,
    less,
    numbered_injective root id k j (==_sound (numbered root id k) (numbered root id j) same),
  )
  | inr other ↦ other
]

module _ {A : Type 0} ⦃e : Eq A⦄ where
  length-remove_le : (a : A) (xs : List A) → length (remove a xs) ≤ length xs
  unfolding remove
  length-remove_le a [] = ground arith
  length-remove_le a (x ∷ xs) = ground (arith, length-remove_le a xs)

  length-remove :
      (a : A) (xs : List A) → contains xs a ≡ true → length (remove a xs) + 1 ≤ length xs
  unfolding remove contains
  length-remove a [] there = cc
  length-remove a (x ∷ xs) there = ground (arith, there, length-remove_le a xs, length-remove a xs)

free_from-remove :
    (fuel : ℕ) (root : FilePath) (id : Text) (j k : ℕ) (dirs : List FilePath)
    → j < k
    → free_from fuel root id k (remove (numbered root id j) dirs) ≡ free_from fuel root id k dirs
unfolding free_from
free_from-remove zero root id j k dirs less = refl
free_from-remove (suc fuel) root id j k dirs less = ground (
  arith,
  numbered_other root id j k less,
  contains-remove (numbered root id j) (numbered root id k) dirs,
  free_from-remove fuel root id j (k + 1) dirs (ground (arith, less)),
)

-- A loop that is still running has found as many directories.
free_from-length :
    (fuel : ℕ) (root : FilePath) (id : Text) (k : ℕ) (dirs : List FilePath)
    → free_from fuel root id k dirs ≡ none
    → fuel ≤ length dirs
unfolding free_from
free_from-length zero root id k dirs runs = ground arith
free_from-length (suc fuel) root id k dirs runs =
    elim (Bool-cases (contains dirs (numbered root id k))) [
      | inl there ↦
          let taken = numbered root id k in
          let after : free_from fuel root id (k + 1) dirs ≡ none = ground (arith, runs, there) in
          let tail =
            free_from-length fuel root id (k + 1) (remove taken dirs)
              (free_from-remove fuel root id k (k + 1) dirs (ground arith) ∙ after) in
          ground (arith, tail, length-remove taken dirs there)
      | inr free ↦ ground (arith, runs, free)
    ]

free_from-cases :
    (fuel : ℕ) (root : FilePath) (id : Text) (k : ℕ) (dirs : List FilePath)
    → (free_from fuel root id k dirs ≡ none)
      ⊎ ((p : FilePath) × (free_from fuel root id k dirs ≡ some p) × (contains dirs p ≡ false))
unfolding free_from
free_from-cases zero root id k dirs = inl refl
free_from-cases (suc fuel) root id k dirs = elim (Bool-cases (contains dirs (numbered root id k))) [
  | inl there ↦ rw there (free_from-cases fuel root id (k + 1) dirs)
  | inr free ↦ inr (numbered root id k, ground (arith, free), free)
]

contains-add_dirs : (p : FilePath) (dirs : List FilePath) → contains (add_dirs p dirs) p ≡ true
unfolding add_dirs
contains-add_dirs [] dirs = ground (arith, contains-add [] [] dirs, ==_refl {A = FilePath} [])
contains-add_dirs (name ∷ p) dirs =
    ground (arith, contains-add (name ∷ p) (name ∷ p) (add_dirs p dirs), ==_refl (name ∷ p))

new_root-cases :
    (base root : FilePath) (id : Text) (dirs : List FilePath)
    → (p : FilePath) × (new_root (suc (length dirs)) base root id dirs ≡ some p)
      × (contains dirs p ≡ false)
unfolding new_root
new_root-cases base root id dirs = elim (Bool-cases (contains dirs (id ∷ base))) [
  | inl there ↦ elim (free_from-cases (suc (length dirs)) root id 1 dirs) [
    | inl runs ↦ absurd (ground (arith, free_from-length (suc (length dirs)) root id 1 dirs runs))
    | inr (p, found, free) ↦ (p, ground (arith, there, found), free)
  ]
  | inr free ↦ (id ∷ base, ground (arith, free), free)
]

-- A daemon whose defaults have no `root_dir` gets a directory that was not there before the call, and
-- that is there after it, whatever directories there are: the loop ends, with a fuel of one more than the
-- number of directories. Daemons of salt's own, where salt is installed, are the exception.
pub get_root_dir_for_daemon-new :
    (m : Manager) (is_salt : Bool) (id : Text) (dirs : List FilePath)
    → (m.system_service && is_salt) ≡ false
    → (p : FilePath) × (get_root_dir_for_daemon (suc (length dirs)) m none is_salt id dirs
        ≡ some (p, add_dirs p dirs))
      × (contains dirs p ≡ false)
      × (contains (add_dirs p dirs) p ≡ true)
unfolding get_root_dir_for_daemon default_root make_root
get_root_dir_for_daemon-new m is_salt id dirs other =
    let found =
      new_root-cases (if m.system_service then m.tmp_root_dir else m.root_dir) m.root_dir id dirs in
    (found.0, ground (arith, other, found.1), found.2, contains-add_dirs found.0 dirs)

roots_of :
    (is_spawning : Bool) (executable : Text) (m : Manager)
    → m.system_service ≡ true
    → ((attrs_post_init is_spawning executable m).root_dir ≡ [])
      × ((attrs_post_init is_spawning executable m).tmp_root_dir ≡ m.root_dir)
      × ((attrs_post_init is_spawning executable m).system_service ≡ true)
unfolding attrs_post_init init_python init_generated init_timeout init_scripts init_root make_dir
    use_own_scripts
roots_of is_spawning executable m system = ground (arith, system)

-- With an installed salt, a daemon that is none of salt's, and whose directory below the temporary
-- root directory is there, gets the directory `/<id>_1`, unless that is there.
pub get_root_dir_for_daemon-outside :
    (is_spawning : Bool) (executable : Text) (m : Manager) (fuel : ℕ) (id : Text)
    (dirs : List FilePath)
    → m.system_service ≡ true
    → contains dirs (id ∷ m.root_dir) ≡ true
    → contains dirs (numbered [] id 1) ≡ false
    → get_root_dir_for_daemon
        (suc fuel)
        (attrs_post_init is_spawning executable m)
        none
        false
        id
        dirs
      ≡ some (numbered [] id 1, add_dirs (numbered [] id 1) dirs)
unfolding get_root_dir_for_daemon default_root make_root new_root free_from
get_root_dir_for_daemon-outside is_spawning executable m fuel id dirs system there free =
    let fields = roots_of is_spawning executable m system in ground (arith, there, free, fields)
