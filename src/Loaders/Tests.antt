-- ===== src/Loaders/Tests.antt =====
-- Loaders that a test uses, and a state function that it calls.
use pytest_salt_factories.Base.{
  ◌≤◌, ℕ, ◌≡◌, refl, none, some, List, [], ◌∷◌, ◌==◌, contains, nat_eq, if◌then◌else◌,
}
use pytest_salt_factories.Base.Text.{Text, codes, text_eq, text_methods}
use pytest_salt_factories.Base.Dict.{Dict, lookup, insert}
use pytest_salt_factories.States.{ok, Datum, text, num, state_result}
use pytest_salt_factories.Loaders.{
  utils, call, grains_of, get_grains, utils_of, get_utils, serializers_of, get_serializers,
  load_modules, modules_of, get_modules, load_states, with_utils, with_modules, states_of,
  get_states, compile_pillar, get_pillar_of, put_pillar, refresh_pillar, reset_state, clean,
  clean_all, put_grains, new_opts, reload_all, sync, init,
}
use pytest_salt_factories.Loaders.Fresh.{
  IsFresh, Op, read_states, reload, read_utils, do_op, do_ops, do_ops-init-IsFresh,
}
use pytest_salt_factories.Loaders.Loads.{loads}
use pytest_salt_factories.Loaders.Once.{loads-do_ops}
use pytest_salt_factories.Loaders.Wrappers.{
  Ret, a_dict, a_list, single, state_keys, single_keys, wrapper_cls, wrap_value, set_module,
  copy_modules, modules_dict, set_state, copy_states, states_with, states_dict, as_dict_return,
  multi_state_result, wrap_return, call_function, call_state, call_found, call_loaded,
  call_loaded-states_dict,
}

program : Unit {0}
unfolding text_methods nat_eq contains lookup insert state_result call grains_of get_grains utils_of
    get_utils serializers_of get_serializers load_modules modules_of get_modules load_states
    with_utils with_modules states_of get_states compile_pillar get_pillar_of put_pillar
    refresh_pillar reset_state clean clean_all put_grains new_opts reload_all sync init do_op do_ops
    state_keys single_keys wrapper_cls wrap_value set_module copy_modules modules_dict set_state
    copy_states states_with states_dict as_dict_return multi_state_result wrap_return call_function
    call_state call_found call_loaded
program = tt

abbrev used : List Op
used = read_utils ∷ reload ∷ read_states ∷ []

-- The third copy of the options is the one that everything is loaded with.
states_used :
    (do_ops used init).states
    ≡ some (record {
      opts = 3;
      functions = record { opts = 3; utils = 3 };
      utils = 3;
      serializers = 3;
    })
unfolding program
states_used = refl

do_ops-init-IsFresh_example : IsFresh (do_ops used init)
do_ops-init-IsFresh_example = do_ops-init-IsFresh used

loads-do_ops_example : loads utils 3 (do_ops used init).calls ≤ 1
loads-do_ops_example = loads-do_ops used utils 3

abbrev modules : Dict Text ℕ
modules = (codes "test.ping", 1) ∷ (codes "state.single", 2) ∷ (codes "state.sls", 3) ∷ []

abbrev loaded_states : Dict Text ℕ
loaded_states = (codes "user.absent", 4) ∷ (codes "file.managed", 5) ∷ []

-- The salt function of a number returns its arguments, but for the first one, as the state's data.
abbrev as_data : List (Datum ℕ) → Dict Text (Datum ℕ)
as_data [] = []
as_data (value ∷ args) = (codes "name", value) ∷ []

abbrev salt : ℕ → List (Datum ℕ) → Dict Text (Datum ℕ) → Ret ℕ
salt f args kwargs =
    if f == 2 then a_dict ((codes "id", some (as_data args)) ∷ []) else a_list (f ∷ [])

call_loaded-states_dict_example :
    call_loaded salt (states_dict modules loaded_states) (codes "file.managed") (num 7 ∷ []) []
    ≡ some (
        single (
          ok (record {
            state_id = codes "id";
            full_return = (codes "name", text (codes "file.managed")) ∷ [];
          })))
unfolding program
call_loaded-states_dict_example =
    call_loaded-states_dict salt modules loaded_states 2 (codes "file.managed") (num 7 ∷ []) [] refl
      refl

no_other_state :
    call_loaded salt (states_dict modules loaded_states) (codes "user.present") [] [] ≡ none
unfolding program
no_other_state = refl

list_of_sls :
    lookup (codes "state.sls") (modules_dict modules) ≡ some (wrap_value (codes "state.sls") 3)
unfolding program
list_of_sls = refl
