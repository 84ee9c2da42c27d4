-- ===== src/Loader/Tests.antt =====
-- Runs of the loader mocks, and the theorems at concrete inputs.
use pytest_salt_factories.Base.{
  ◌≡◌, refl, true, Option, none, some, List, [], ◌∷◌, nat_eq, contains,
}
use pytest_salt_factories.Base.Text.{Text, codes, text_eq, text_methods}
use pytest_salt_factories.Base.Dict.{Dict, lookup, insert}
use pytest_salt_factories.Loader.{
  update, World, State, run_finalizer, run_finalizers, stop, save, restore, Setup, Outcome, done,
  usage_error, default_dunders, is_bad_key, patch_dict, patch_sys_with, patch_sys_modules,
  collect_globals, patch_multiple, patch_module_globals, start_module, start_item, and_then, start,
}
use pytest_salt_factories.Loader.Restore.{fresh_state, stop-start}
use pytest_salt_factories.Loader.Leak.{module_item, stop-start_leaks}

program : Unit {0}
unfolding text_methods lookup insert update restore save run_finalizer run_finalizers stop
    is_bad_key patch_dict patch_sys_with patch_sys_modules collect_globals patch_multiple
    patch_module_globals start_module start_item and_then start contains
program = tt

-- A value is a number, or a dictionary of numbers.
data Value : Type 0 where
  plain : Text → Value
  dict : Dict Text Text → Value

abbrev as_dict : Value → Option (Dict Text Value)
as_dict (plain t) = none
as_dict (dict []) = some []
as_dict (dict ((k, v) ∷ d)) = some ((k, plain v) ∷ [])

abbrev world : World Value
world = record { sys_modules = λ k. none; globals = λ m k. none }

abbrev sys_mocks : Text → Dict Text Value
sys_mocks name = (codes "sys.modules", dict ((name, codes "mock") ∷ [])) ∷ []

abbrev opts_mocks : Dict Text Value
opts_mocks = (codes "__opts__", plain (codes "x")) ∷ []

abbrev good_items : List (Setup Value)
good_items =
    module_item (codes "m") opts_mocks ∷ module_item (codes "n") (sys_mocks (codes "zmq")) ∷ []

abbrev state_of : Outcome Value → State Value
state_of (done s) = s
state_of (usage_error s) = s

started : List (Setup Value) → Outcome Value
unfolding program
started items = start as_dict (plain []) default_dunders (fresh_state world) items

stop-start_example : stop (state_of (started good_items)) ≡ fresh_state world
unfolding started
stop-start_example =
    stop-start as_dict (plain []) default_dunders world good_items (state_of (started good_items))
      (refl, refl, (refl, refl, tt)) refl

abbrev two_sys : List (Setup Value)
two_sys =
    module_item (codes "m") (sys_mocks (codes "a"))
    ∷ module_item (codes "n") (sys_mocks (codes "b"))
    ∷ []

abbrev only : Text → Dict Text Value
only name = (name, plain (codes "mock")) ∷ []

stop-start_leaks_example :
    (stop (state_of (started two_sys))).world.sys_modules
    ≡ update world.sys_modules (only (codes "a"))
unfolding started
stop-start_leaks_example =
    stop-start_leaks as_dict (plain []) default_dunders world (codes "m") (codes "n")
      (sys_mocks (codes "a")) (sys_mocks (codes "b")) (dict ((codes "a", codes "mock") ∷ []))
      (dict ((codes "b", codes "mock") ∷ [])) (only (codes "a")) (only (codes "b"))
      (state_of (started two_sys)) refl refl refl refl refl

leaked :
    (stop (state_of (started two_sys))).world.sys_modules (codes "a") ≡ some (plain (codes "mock"))
unfolding started
leaked = refl

-- A private name that the loader does not know is refused.
bad_key : is_bad_key default_dunders (codes "__nope__") ≡ true
unfolding program
bad_key = refl
