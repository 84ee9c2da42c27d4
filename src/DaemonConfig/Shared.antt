-- ===== src/DaemonConfig/Shared.antt =====
-- `FactoriesManager.salt_minion_daemon` of src/saltfactories/manager.py, up to the tweaks, with
-- `defaults` that several calls share: `default_config` merges into the dictionary that it is given.
-- A call gives back what that dictionary is after it.
-- `parse` is the path that `resolve` makes of a text.
use pytest_salt_factories.Base.{
  ℕ, ◌≡◌, refl, sym, ◌∙◌, ap, Bool, true, false, Option, none, some, List, [],
}
use pytest_salt_factories.Base.Text.{Text, codes, text_methods}
use pytest_salt_factories.TempFiles.{FilePath, add_dirs}
use pytest_salt_factories.Manager.{Manager}
use pytest_salt_factories.Manager.RootDir.{get_root_dir_for_daemon, make_root}
use pytest_salt_factories.DaemonConfig.{
  Setting, str, Settings, settings, get, UpdateLaws, merge_config, or_empty, is_plain, MasterOf,
  match_transport,
}
use pytest_salt_factories.DaemonConfig.Minion.{
  MinionPorts, minion_ports, minion_start, service_minion, rooted_minion, internal_minion,
  left_with, minion_default_config,
}
use pytest_salt_factories.DaemonConfig.Precedence.{get-override}

-- `defaults["root_dir"]`, if it is there.
unfoldable pub root_setting : (Text → FilePath) → Option Setting → Option FilePath
root_setting parse (some (str t)) = some (parse t)
root_setting parse _ = none

unfoldable pub given_root : (Text → FilePath) → Option Settings → Option FilePath
given_root parse defaults = root_setting parse (get (codes "root_dir") (or_empty defaults))

-- A call of `salt_minion_daemon`: what differs from one to the other.
pub record MinionCall : Type 0 where
  pub id : Text
  pub prefix : Text
  pub overrides : Option Settings
  pub master : Option MasterOf
  pub unused : ℕ → ℕ

-- The root directory of the minion, its configuration, what the call leaves in the caller's `defaults`, and
-- the directories that there are then.
pub record Configured : Type 0 where
  pub root_dir : FilePath
  pub config : Settings
  pub defaults_left : Option Settings
  pub dirs : List FilePath

module _ (update : Settings → Settings → Settings) (show : FilePath → Text)
    (parse : Text → FilePath) (default_opts : MinionPorts) where
  unfoldable pub configured :
      Manager → MinionCall → Option Settings → Option (FilePath × List FilePath) → Option Configured
  configured m call defaults none = none
  configured m call defaults (some (root, made)) =
      let made_config =
        minion_default_config update show default_opts call.unused root call.id call.prefix defaults
          call.overrides call.master m.system_service in
      some (record {
        root_dir = root;
        config = made_config.0;
        defaults_left = made_config.1;
        dirs = made;
      })

  unfoldable pub configure_minion :
      ℕ → Manager → MinionCall → Option Settings → List FilePath → Option Configured
  configure_minion fuel m call defaults dirs =
      configured m call defaults
        (get_root_dir_for_daemon fuel m (given_root parse defaults) true call.id dirs)

  internal-root_dir :
      (service : Bool) (root : FilePath) (id prefix : Text) (p : MinionPorts) (m : Option MasterOf)
      → get (codes "root_dir") (internal_minion service show root id prefix p m)
        ≡ some (str (show root))
  unfolding get settings internal_minion service_minion rooted_minion minion_start text_methods
  internal-root_dir true root id prefix p m = refl
  internal-root_dir false root id prefix p m = refl

  -- What the caller's dictionary has as its `root_dir` after a call.
  default_config-root_dir :
      UpdateLaws update
      → (service : Bool) (unused : ℕ → ℕ) (root : FilePath) (id prefix : Text) (given : Settings)
        (overrides : Option Settings) (m : Option MasterOf)
      → get (codes "root_dir") (or_empty overrides) ≡ none
      → get (codes "root_dir") (
          or_empty
            (minion_default_config update show default_opts unused root id prefix
              (some given)
              overrides
              m
              service).1)
        ≡ some (str (show root))
  unfolding minion_default_config left_with or_empty merge_config is_plain
  default_config-root_dir laws service unused root id prefix defaults overrides m lacks =
      let ports = minion_ports service default_opts unused m in
      let internal = internal_minion service show root id prefix ports m in
      let given = match_transport m defaults in
      get-override update laws (codes "root_dir") overrides (update given internal) lacks
      ∙ laws.replaced (codes "root_dir") given internal (str (show root))
          (internal-root_dir service root id prefix ports m) refl

  abbrev left_in : Option Configured → Option Settings
  left_in none = none
  left_in (some r) = r.defaults_left

  abbrev root_in : Option Configured → FilePath
  root_in none = []
  root_in (some r) = r.root_dir

  configured-root_dir :
      UpdateLaws update
      → (m : Manager) (call : MinionCall) (defaults : Settings)
        (o : Option (FilePath × List FilePath)) (r : Configured)
      → get (codes "root_dir") (or_empty call.overrides) ≡ none
      → configured m call (some defaults) o ≡ some r
      → get (codes "root_dir") (or_empty r.defaults_left) ≡ some (str (show r.root_dir))
  unfolding configured
  configured-root_dir laws m call defaults none r lacks done = cc
  configured-root_dir laws m call defaults (some (root, made)) r lacks done =
      ap (λ o. get (codes "root_dir") (or_empty o)) (sym (ap left_in done))
      ∙ default_config-root_dir laws m.system_service call.unused root call.id call.prefix defaults
          call.overrides call.master lacks
      ∙ ap (λ p. some (str (show p))) (ap root_in done)

  -- Two minions that are made with the same dictionary of defaults share a root directory, whatever their
  -- ids are: the first call, with no override of `root_dir`, merges its own `root_dir` into the dictionary.
  -- A later call with that dictionary gets the same directory, even if the dictionary changes between
  -- them, so long as its `root_dir` stays. The text of the directory is to be read as the same path.
  pub configure_minion-shared :
      UpdateLaws update
      → (fuel later : ℕ) (m : Manager) (first second : MinionCall) (defaults shared : Settings)
        (r : Configured) (dirs found : List FilePath)
      → parse (show r.root_dir) ≡ r.root_dir
      → get (codes "root_dir") (or_empty first.overrides) ≡ none
      → configure_minion fuel m first (some defaults) dirs ≡ some r
      → get (codes "root_dir") shared ≡ get (codes "root_dir") (or_empty r.defaults_left)
      → (s : Configured) × (configure_minion later m second (some shared) found ≡ some s)
        × (s.root_dir ≡ r.root_dir)
        × (s.dirs ≡ add_dirs r.root_dir found)
  unfolding configure_minion configured get_root_dir_for_daemon make_root given_root root_setting
      or_empty
  configure_minion-shared laws fuel later m first second defaults shared r dirs found parses lacks
        done same =
      let opened =
        get_root_dir_for_daemon fuel m (given_root parse (some defaults)) true first.id dirs in
      let kept = same ∙ configured-root_dir laws m first defaults opened r lacks done in
      let asked = ap (root_setting parse) kept ∙ ap (λ p. some p) parses in
      let made_config =
        minion_default_config update show default_opts second.unused r.root_dir second.id
          second.prefix (some shared) second.overrides second.master m.system_service in
      (
        record {
          root_dir = r.root_dir;
          config = made_config.0;
          defaults_left = made_config.1;
          dirs = add_dirs r.root_dir found;
        },
        ap
            (λ g.
              configured m second (some shared)
                (get_root_dir_for_daemon later m g true second.id found))
            asked,
        refl,
        refl,
      )
