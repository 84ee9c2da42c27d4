-- ===== src/Loaders.antt =====
-- `Loaders` of src/saltfactories/utils/functional.py. The options are deep copies that are counted; what
-- salt loads is told apart by the copy that it was loaded with. `calls` are the calls of salt, and what is
-- done to the context and the cache. A function of `_reload_all_funcs` that fails is only logged.
pub mod Fresh
pub mod Loads
pub mod Reads
pub mod Once
pub mod Wrappers
mod Tests
use pytest_salt_factories.Base.{ℕ, ◌+◌, Bool, true, false, Option, none, some, List, [], ◌∷◌, ◌++◌}

pub data Kind : Type 0 where
  grains utils minion_mods serializers states : Kind

-- A load or a compilation with the options of a number, or the end of a loader.
pub data Call : Type 0 where
  load : Kind → ℕ → Call
  get_pillar : ℕ → Call
  clean_modules : Kind → Call
  clear_context clean_cache sync_all : Call

-- The options that the modules, and the states with the parts that they are given, were loaded with.
pub record Modules : Type 0 where
  pub opts : ℕ
  pub utils : ℕ

pub record States : Type 0 where
  pub opts : ℕ
  pub functions : Modules
  pub utils : ℕ
  pub serializers : ℕ

-- `opts` is the number of the current options; `opts_grains` and `opts_pillar` are their keys `grains`
-- and `pillar`.
pub record Loaders : Type 0 where
  pub opts : ℕ
  pub opts_grains : Option ℕ
  pub opts_pillar : Option ℕ
  pub grains : Option ℕ
  pub modules : Option Modules
  pub pillar : Option ℕ
  pub serializers : Option ℕ
  pub states : Option States
  pub utils : Option ℕ
  pub calls : List Call

unfoldable pub call : Call → Loaders → Loaders
call c s = record s { calls = s.calls ++ (c ∷ []) }

-- The properties: what they return, and the state after it.
unfoldable pub grains_of : Option ℕ → Loaders → ℕ × Loaders
grains_of (some g) s = (g, s)
grains_of none s = (s.opts, call (load grains s.opts) (record s { grains = some s.opts }))

unfoldable pub get_grains : Loaders → ℕ × Loaders
get_grains s = grains_of s.grains s

unfoldable pub utils_of : Option ℕ → Loaders → ℕ × Loaders
utils_of (some u) s = (u, s)
utils_of none s = (s.opts, call (load utils s.opts) (record s { utils = some s.opts }))

unfoldable pub get_utils : Loaders → ℕ × Loaders
get_utils s = utils_of s.utils s

unfoldable pub serializers_of : Option ℕ → Loaders → ℕ × Loaders
serializers_of (some z) s = (z, s)
serializers_of none s =
    (s.opts, call (load serializers s.opts) (record s { serializers = some s.opts }))

unfoldable pub get_serializers : Loaders → ℕ × Loaders
get_serializers s = serializers_of s.serializers s

unfoldable pub load_modules : ℕ × Loaders → Modules × Loaders
load_modules (u, s) =
    let m : Modules = record { opts = s.opts; utils = u } in
    (m, call (load minion_mods s.opts) (record s { modules = some m }))

unfoldable pub modules_of : Option Modules → Loaders → Modules × Loaders
modules_of (some m) s = (m, s)
modules_of none s = load_modules (get_utils s)

unfoldable pub get_modules : Loaders → Modules × Loaders
get_modules s = modules_of s.modules s

unfoldable pub load_states : Modules → ℕ → ℕ × Loaders → States × Loaders
load_states m u (z, s) =
    let t : States = record { opts = s.opts; functions = m; utils = u; serializers = z } in
    (t, call (load states s.opts) (record s { states = some t }))

unfoldable pub with_utils : Modules → ℕ × Loaders → States × Loaders
with_utils m (u, s) = load_states m u (get_serializers s)

unfoldable pub with_modules : Modules × Loaders → States × Loaders
with_modules (m, s) = with_utils m (get_utils s)

unfoldable pub states_of : Option States → Loaders → States × Loaders
states_of (some t) s = (t, s)
states_of none s = with_modules (get_modules s)

unfoldable pub get_states : Loaders → States × Loaders
get_states s = states_of s.states s

unfoldable pub compile_pillar : ℕ × Loaders → ℕ × Loaders
compile_pillar (g, s) = (s.opts, call (get_pillar s.opts) (record s { pillar = some s.opts }))

-- The property `pillar`, which does not look at `_pillar`.
unfoldable pub get_pillar_of : Loaders → ℕ × Loaders
get_pillar_of s = compile_pillar (get_grains s)

unfoldable pub put_pillar : ℕ × Loaders → Loaders
put_pillar (p, s) = record s { opts_pillar = some p }

unfoldable pub refresh_pillar : Loaders → Loaders
refresh_pillar s = put_pillar (get_pillar_of (record s { pillar = none }))

unfoldable pub reset_state : Loaders → Loaders
reset_state s = call clean_cache (call clear_context s)

-- `clean_modules` and `clear`, for a loader that is there.
unfoldable pub clean {ℓ} : {A : Type ℓ} → Kind → Option A → Loaders → Loaders
clean kind none s = s
clean kind (some a) s = call (clean_modules kind) s

unfoldable pub clean_all : Loaders → Loaders
clean_all s =
    let cleaned =
      clean utils s.utils
        (clean states s.states (clean serializers s.serializers (clean minion_mods s.modules s))) in
    record cleaned { modules = none; serializers = none; states = none; utils = none }

unfoldable pub put_grains : ℕ × Loaders → Loaders
put_grains (g, s) = record s { opts_grains = some g }

unfoldable pub new_opts : Loaders → Loaders
new_opts s = record s {
  opts = s.opts + 1;
  opts_grains = none;
  opts_pillar = none;
  pillar = none;
  grains = none;
}

unfoldable pub reload_all : Loaders → Loaders
reload_all s = refresh_pillar (put_grains (get_grains (new_opts (clean_all (reset_state s)))))

-- `modules.saltutil.sync_all()`
unfoldable pub sync : Modules × Loaders → Loaders
sync (m, s) = call sync_all s

-- `__init__`
unfoldable pub init : Loaders
init =
    let created : Loaders = record {
      opts = 0;
      opts_grains = none;
      opts_pillar = none;
      grains = none;
      modules = none;
      pillar = none;
      serializers = none;
      states = none;
      utils = none;
      calls = [];
    } in
    reload_all (sync (get_modules (reload_all created)))
