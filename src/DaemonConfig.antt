-- ===== src/DaemonConfig.antt =====
-- The configurations of the daemons, src/saltfactories/daemons/*.py: what they have
-- in common. `salt.utils.dictupdate.update(dest, upd, merge_lists=True)` is a parameter, of which
-- `UpdateLaws` says what is documented: it goes into tables that are on both sides, and else the value
-- of `upd` takes the place of the other, but for two lists.
pub mod Minion
pub mod Master
pub mod Syndic
pub mod Proxy
pub mod ProxyMinion
pub mod Precedence
pub mod Shared
mod Merge
mod Tests
use pytest_salt_factories.Base.{
  ℕ, ◌≡◌, Bool, true, false, Option, none, some, List, [], ◌∷◌, ◌==◌, if◌then◌else◌,
}
use pytest_salt_factories.Base.Text.{Text, codes, text_eq}

-- A value of a configuration; `decimal` is a number that is not whole.
mutual
  pub data Setting : Type 0 where
    str decimal : Text → Setting
    num : ℕ → Setting
    flag : Bool → Setting
    nothing : Setting
    texts : List Text → Setting
    table : Settings → Setting

  pub data Settings : Type 0 where
    empty : Settings
    entry : Text → Setting → Settings → Settings

unfoldable pub settings : List (Text × Setting) → Settings
settings [] = empty
settings ((k, v) ∷ rest) = entry k v (settings rest)

-- `settings.get(key)`
unfoldable pub get : Text → Settings → Option Setting
get k empty = none
get k (entry j v s) = if k == j then some v else get k s

unfoldable pub set_default : Text → Setting → Settings → Settings
set_default k v s = elim (get k s) [ none ↦ entry k v s | some old ↦ s ]

-- Neither a table nor a list.
unfoldable pub is_plain : Setting → Bool
is_plain (table s) = false
is_plain (texts t) = false
is_plain _ = true

pub record UpdateLaws (update : Settings → Settings → Settings) : Type 0 where
  pub kept : (k : Text) (d u : Settings) → get k u ≡ none → get k (update d u) ≡ get k d
  pub added :
      (k : Text) (d u : Settings) (v : Setting)
      → get k d ≡ none
      → get k u ≡ some v
      → get k (update d u) ≡ some v
  pub replaced :
      (k : Text) (d u : Settings) (v : Setting)
      → get k u ≡ some v
      → is_plain v ≡ true
      → get k (update d u) ≡ some v

-- `if overrides:`
unfoldable pub override : (Settings → Settings → Settings) → Option Settings → Settings → Settings
override update none s = s
override update (some empty) s = s
override update (some (entry k v overrides)) s = update s (entry k v overrides)

-- The internal defaults go over those of the caller, and the overrides over both.
unfoldable pub merge_config :
    (Settings → Settings → Settings) → Settings → Settings → Option Settings → Settings
merge_config update defaults internal overrides =
    override update overrides (update defaults internal)

-- `defaults`, or a new dictionary.
unfoldable pub or_empty : Option Settings → Settings
or_empty none = empty
or_empty (some s) = s

-- The master of a minion or of a syndic: its `id` and what is read of its configuration.
pub record MasterOf : Type 0 where
  pub id : Text
  pub interface : Text
  pub ret_port : ℕ
  pub transport : Setting

unfoldable pub id_of : Option MasterOf → Setting
id_of none = nothing
id_of (some m) = str m.id

-- `defaults.setdefault("transport", …)`
unfoldable pub match_transport : Option MasterOf → Settings → Settings
match_transport none s = s
match_transport (some m) s = set_default (codes "transport") m.transport s

unfoldable pub console_format : Text
console_format =
    codes
      "%(asctime)s,%(msecs)03.0f [%(name)-17s:%(lineno)-4d][%(levelname)-8s][%(processName)18s(%(process)d)] %(message)s"

unfoldable pub logfile_format : Text
logfile_format =
    codes
      "[%(asctime)s,%(msecs)03.0f][%(name)-17s:%(lineno)-4d][%(levelname)-8s][%(processName)18s(%(process)d)] %(message)s"

-- `{"master-id": …, "log": {"prefix": …}}`
unfoldable pub pytest_table : Option MasterOf → Text → Setting
pytest_table m prefix = table (
    settings (
      (codes "master-id", id_of m)
      ∷ (codes "log", table (settings ((codes "prefix", str prefix) ∷ [])))
      ∷ []))

-- The roots of a tree, by environment.
unfoldable pub base_root : Text → Setting
base_root base = table (settings ((codes "base", texts (base ∷ [])) ∷ []))

unfoldable pub both_roots : Text → Text → Setting
both_roots base prod =
    table (settings ((codes "base", texts (base ∷ [])) ∷ (codes "prod", texts (prod ∷ [])) ∷ []))
