-- ===== src/Loader.antt =====
-- `LoaderModuleMock` of src/saltfactories/utils/loader.py. The content of a dictionary that lives on
-- after a patch (`sys.modules`, the globals of a module) is a function from keys to values.
-- `unittest.mock.patch.dict` and `patch.multiple` are what their documentation says: they remember
-- the old content, the second for the patched names only, and `stop` puts it back.
pub mod Laws
pub mod Restore
pub mod Leak
mod Tests
use pytest_salt_factories.Base.{
  Bool, true, false, not, ◌&&◌, ◌||◌, Option, none, some, List, [], ◌∷◌, ◌++◌, ◌==◌, contains, map,
  if◌then◌else◌,
}
use pytest_salt_factories.Base.Text.{Text, codes, text_eq, starts_with}
use pytest_salt_factories.Base.Dict.{Dict, lookup, insert}

abbrev pub Content : Type 0 → Type 0
Content V = Text → Option V

abbrev pub set_key : {V : Type 0} → Content V → Text → Option V → Content V
set_key f k o j = if j == k then o else f j

-- `f.update(values)`
unfoldable pub update : {V : Type 0} → Content V → Dict Text V → Content V
update f [] = f
update f ((k, v) ∷ d) = update (set_key f k (some v)) d

-- Every name gets back what is saved for it.
unfoldable pub restore : {V : Type 0} → Content V → List (Text × Option V) → Content V
restore f [] = f
restore f ((k, o) ∷ saved) = restore (set_key f k o) saved

unfoldable pub save : {V : Type 0} → Content V → Dict Text V → List (Text × Option V)
save f [] = []
save f ((k, v) ∷ d) = (k, f k) ∷ save f d

pub record World (V : Type 0) : Type 0 where
  pub sys_modules : Content V
  pub globals : Text → Content V

-- A registered `patcher.stop`.
pub data Finalizer (V : Type 0) : Type 0 where
  stop_dict : (original : Content V) → Finalizer V
  stop_multiple : (module_name : Text) (saved : List (Text × Option V)) → Finalizer V

-- The world, and `_finalizers`.
pub record State (V : Type 0) : Type 0 where
  pub world : World V
  pub finalizers : List (Finalizer V)

abbrev pub set_globals : {V : Type 0} → (Text → Content V) → Text → Content V → Text → Content V
set_globals g m f n = if n == m then f else g n

unfoldable pub run_finalizer : {V : Type 0} → World V → Finalizer V → World V
run_finalizer w (stop_dict original) = record w { sys_modules = original }
run_finalizer w (stop_multiple m saved) = record w {
  globals = set_globals w.globals m (restore (w.globals m) saved);
}

-- The loop of `stop`: the finalizer that was registered first runs first.
unfoldable pub run_finalizers : {V : Type 0} → World V → List (Finalizer V) → World V
run_finalizers w [] = w
run_finalizers w (f ∷ fs) = run_finalizers (run_finalizer w f) fs

unfoldable pub stop : {V : Type 0} → State V → State V
stop s = record { world = run_finalizers s.world s.finalizers; finalizers = [] }

-- The attributes `salt_module_dunders`, `…_optional` and `salt_module_dunder_attributes`.
pub record Dunders : Type 0 where
  pub always : List Text
  pub optional : List Text
  pub attributes : List Text

abbrev pub default_dunders : Dunders
default_dunders = record {
  always =
      codes "__opts__"
      ∷ codes "__salt__"
      ∷ codes "__runner__"
      ∷ codes "__context__"
      ∷ codes "__utils__"
      ∷ codes "__ext_pillar__"
      ∷ codes "__thorium__"
      ∷ codes "__states__"
      ∷ codes "__serializers__"
      ∷ codes "__ret__"
      ∷ codes "__grains__"
      ∷ codes "__pillar__"
      ∷ codes "__sdb__"
      ∷ [];
  optional = codes "__proxy__" ∷ [];
  attributes =
      codes "__env__"
      ∷ codes "__low__"
      ∷ codes "__instance_id__"
      ∷ codes "__orchestration_jid__"
      ∷ codes "__jid_event__"
      ∷ codes "__active_provider_name__"
      ∷ codes "__proxyenabled__"
      ∷ [];
}

abbrev pub allowed_salt_dunders : Dunders → List Text
allowed_salt_dunders d = (d.always ++ d.optional) ++ d.attributes

-- A key of a mocks dictionary that raises a usage error.
unfoldable pub is_bad_key : Dunders → Text → Bool
is_bad_key d key =
    not (key == codes "sys.modules")
    && starts_with key (codes "__")
    && (contains (codes "__init__" ∷ codes "__virtual__" ∷ []) key
        || not (contains (allowed_salt_dunders d) key))

-- An item of `setup_loader_modules`. A key that is no module, or a value that is no dictionary,
-- is `none`.
pub record Setup (V : Type 0) : Type 0 where
  pub module_name : Option Text
  pub mocks : Option (Dict Text V)

pub data Outcome (V : Type 0) : Type 0 where
  done : State V → Outcome V
  usage_error : State V → Outcome V

module _ {V : Type 0} where
  unfoldable pub patch_dict : State V → Dict Text V → State V
  patch_dict s values = record {
    world = record (s.world) { sys_modules = update s.world.sys_modules values };
    finalizers = s.finalizers ++ (stop_dict s.world.sys_modules ∷ []);
  }

  unfoldable pub patch_multiple : State V → Text → Dict Text V → State V
  patch_multiple s m values = record {
    world = record (s.world) {
      globals = set_globals s.world.globals m (update (s.world.globals m) values);
    };
    finalizers = s.finalizers ++ (stop_multiple m (save (s.world.globals m) values) ∷ []);
  }

  -- The end of `_patch_module_globals`.
  unfoldable pub patch_module_globals : State V → Text → Option (Dict Text V) → Outcome V
  patch_module_globals s m none = usage_error s
  patch_module_globals s m (some values) = done (patch_multiple s m values)

  unfoldable pub and_then : Outcome V → (State V → Outcome V) → Outcome V
  and_then (usage_error s) k = usage_error s
  and_then (done s) k = k s

-- `as_dict` reads a value that is a dictionary, and `empty` is the `{}` of the default globals.
module _ {V : Type 0} (as_dict : V → Option (Dict Text V)) (empty : V) (d : Dunders) where
  abbrev pub default_globals : List Text → Dict Text V
  default_globals = map (λ dunder. (dunder, empty))

  unfoldable pub patch_sys_with : State V → Option (Dict Text V) → Outcome V
  patch_sys_with s none = usage_error s
  patch_sys_with s (some values) = done (patch_dict s values)

  -- `_patch_sys_modules`, for the value of the key `sys.modules`, if there is one.
  unfoldable pub patch_sys_modules : State V → Option V → Outcome V
  patch_sys_modules s none = done s
  patch_sys_modules s (some v) = patch_sys_with s (as_dict v)

  -- The loop over the mocks: the globals to patch, or `none` for a usage error.
  unfoldable pub collect_globals : Dict Text V → Dict Text V → Option (Dict Text V)
  collect_globals [] module_globals = some module_globals
  collect_globals ((key, v) ∷ mocks) module_globals = elim (is_bad_key d key) [
    | true ↦ none
    | false ↦
        collect_globals mocks
          (if key == codes "sys.modules" then module_globals else insert key v module_globals)
  ]

  -- One round of the loop of `start`.
  unfoldable pub start_module : State V → Text → Dict Text V → Outcome V
  start_module s m mocks =
      and_then (patch_sys_modules s (lookup (codes "sys.modules") mocks))
        (λ s'. patch_module_globals s' m (collect_globals mocks (default_globals d.always)))

  unfoldable pub start_item : State V → Option Text → Option (Dict Text V) → Outcome V
  start_item s none mocks = usage_error s
  start_item s (some m) none = usage_error s
  start_item s (some m) (some mocks) = start_module s m mocks

  unfoldable pub start : State V → List (Setup V) → Outcome V
  start s [] = done s
  start s (item ∷ items) =
      and_then (start_item s item.module_name item.mocks) (λ s'. start s' items)
