-- ===== src/Loaders/Wrappers.antt =====
-- The loader dicts of `Loaders` of src/saltfactories/utils/functional.py, `StateFunction` and
-- `StateModuleFuncWrapper`: the functions that salt has loaded, and what a call of one returns. What a
-- function of salt returns is a parameter, and so is what it is called with; it raises no exception here.
use pytest_salt_factories.Base.{
  ◌≡◌, refl, ap, ◌∙◌, Bool, true, false, not, ◌&&◌, Option, none, some, List, [], ◌∷◌, ◌==◌,
  ==_sound, contains, arith, if◌then◌else◌, Bool-cases, inl, inr,
}
use pytest_salt_factories.Base.Text.{Text, codes, text_eq, text_methods}
use pytest_salt_factories.Base.Dict.{Dict, lookup, insert, lookup-insert}
use pytest_salt_factories.States.{
  attribute_error, Result, err, Return, Datum, text, StateResult, state_result, states, error_list,
  structured,
}

pub data Wrapper : Type 0 where
  state_result_class multi_state_result_class : Wrapper

-- A function as the dict of the modules holds it.
pub data Function (F : Type 0) : Type 0 where
  plain : F → Function F
  state_module_func_wrapper : F → Wrapper → Function F

-- A function of salt that is called through `state.single`.
pub record StateFunction (F : Type 0) : Type 0 where
  pub proxy_func : Function F
  pub state_func : Text

unfoldable pub state_keys : List Text
state_keys =
    codes "state.apply"
    ∷ codes "state.high"
    ∷ codes "state.highstate"
    ∷ codes "state.low"
    ∷ codes "state.single"
    ∷ codes "state.sls"
    ∷ codes "state.sls_id"
    ∷ codes "state.template"
    ∷ codes "state.template_str"
    ∷ codes "state.test"
    ∷ codes "state.top"
    ∷ []

unfoldable pub single_keys : List Text
single_keys = codes "state.low" ∷ codes "state.single" ∷ codes "state.sls_id" ∷ []

unfoldable pub wrapper_cls : Text → Wrapper
wrapper_cls key = if contains single_keys key then state_result_class else multi_state_result_class

module _ {F : Type 0} where
  unfoldable pub wrap_value : Text → F → Function F
  wrap_value key value =
      if contains state_keys key
      then state_module_func_wrapper value (wrapper_cls key)
      else plain value

  -- `ModulesLoaderDict.__setitem__`
  unfoldable pub set_module : Text → F → Dict Text (Function F) → Dict Text (Function F)
  set_module key value d = insert key (wrap_value key value) d

  -- `for key, value in loader_dict.items()`
  unfoldable pub copy_modules : Dict Text F → Dict Text (Function F) → Dict Text (Function F)
  copy_modules [] d = d
  copy_modules ((key, value) ∷ loader_dict) d = copy_modules loader_dict (set_module key value d)

  unfoldable pub modules_dict : Dict Text F → Dict Text (Function F)
  modules_dict loader_dict = copy_modules loader_dict []

  -- `StatesLoaderDict.__setitem__`, which forgets the function.
  unfoldable pub set_state :
      Function F → Text → F → Dict Text (StateFunction F) → Dict Text (StateFunction F)
  set_state proxy name func d = insert name (record { proxy_func = proxy; state_func = name }) d

  unfoldable pub copy_states :
      Function F → Dict Text F → Dict Text (StateFunction F) → Dict Text (StateFunction F)
  copy_states proxy [] d = d
  copy_states proxy ((name, func) ∷ loader_dict) d =
      copy_states proxy loader_dict (set_state proxy name func d)

  -- `none`: there is no `self.modules.state.single`.
  unfoldable pub states_with :
      Option (Function F) → Dict Text F → Option (Dict Text (StateFunction F))
  states_with none loader_dict = none
  states_with (some proxy) loader_dict = some (copy_states proxy loader_dict [])

  unfoldable pub states_dict : Dict Text F → Dict Text F → Option (Dict Text (StateFunction F))
  states_dict modules loader_dict =
      states_with (lookup (codes "state.single") (modules_dict modules)) loader_dict

-- What a function of salt returns.
pub data Ret (V : Type 0) : Type 0 where
  a_dict : Dict Text (Option (Return V)) → Ret V
  a_list : List V → Ret V
  a_value : V → Ret V

-- What a test gets.
pub data Wrapped (V : Type 0) : Type 0 where
  unwrapped : Ret V → Wrapped V
  single : Result (StateResult V) → Wrapped V
  multi : Result (List (StateResult V)) → Wrapped V

module _ {V : Type 0} where
  -- `isinstance(self.raw, dict)`
  unfoldable pub as_dict_return : Ret V → Option (Dict Text (Option (Return V)))
  as_dict_return (a_dict d) = some d
  as_dict_return (a_list xs) = none
  as_dict_return (a_value v) = none

  -- `_set_structured`, which asks any value but a list for its `items`.
  unfoldable pub multi_state_result : Ret V → Result (List (StateResult V))
  multi_state_result (a_dict d) = structured (states d)
  multi_state_result (a_list xs) = structured (error_list xs)
  multi_state_result (a_value v) = err attribute_error

  unfoldable pub wrap_return : Wrapper → Ret V → Wrapped V
  wrap_return state_result_class ret = single (state_result (as_dict_return ret))
  wrap_return multi_state_result_class ret = multi (multi_state_result ret)

  module _ {F : Type 0} (salt : F → List (Datum V) → Dict Text (Datum V) → Ret V) where
    unfoldable pub call_function : Function F → List (Datum V) → Dict Text (Datum V) → Wrapped V
    call_function (plain func) args kwargs = unwrapped (salt func args kwargs)
    call_function (state_module_func_wrapper func wrapper) args kwargs =
        wrap_return wrapper (salt func args kwargs)

    -- `StateFunction.__call__`
    unfoldable pub call_state : StateFunction F → List (Datum V) → Dict Text (Datum V) → Wrapped V
    call_state f args kwargs = call_function f.proxy_func (text f.state_func ∷ args) kwargs

    unfoldable pub call_found :
        Option (StateFunction F) → List (Datum V) → Dict Text (Datum V) → Option (Wrapped V)
    call_found none args kwargs = none
    call_found (some f) args kwargs = some (call_state f args kwargs)

    unfoldable pub call_loaded :
        Option (Dict Text (StateFunction F))
        → Text
        → List (Datum V)
        → Dict Text (Datum V)
        → Option (Wrapped V)
    call_loaded none name args kwargs = none
    call_loaded (some d) name args kwargs = call_found (lookup name d) args kwargs

abbrev pub has_key {ℓ} : {A : Type ℓ} → Text → Dict Text A → Bool
has_key j [] = false
has_key j ((key, value) ∷ d) = if j == key then true else has_key j d

-- That the keys of a list are distinct, as those of a dict are.
abbrev pub distinct {ℓ} : {A : Type ℓ} → Dict Text A → Bool
distinct [] = true
distinct ((key, value) ∷ d) = not (has_key key d) && distinct d

abbrev or_old {ℓ} : {A : Type ℓ} → Option A → Option A → Option A
or_old none old = old
or_old (some a) old = some a

abbrev pub map_found {ℓ κ} : {A : Type ℓ} {B : Type κ} → (A → B) → Option A → Option B
map_found f none = none
map_found f (some a) = some (f a)

module _ {F : Type 0} where
  lookup-absent : (j : Text) (d : Dict Text F) → has_key j d ≡ false → lookup j d ≡ none
  unfolding lookup
  lookup-absent j [] absent = refl
  lookup-absent j ((key, value) ∷ d) absent = ground (arith, absent, lookup-absent j d)

  lookup-copy_modules :
      (j : Text) (d : Dict Text F) (acc : Dict Text (Function F))
      → distinct d ≡ true
      → lookup j (copy_modules d acc)
        ≡ or_old (map_found (wrap_value j) (lookup j d)) (lookup j acc)
  unfolding copy_modules set_module lookup
  lookup-copy_modules j [] acc keys = refl
  lookup-copy_modules j ((key, value) ∷ d) acc keys =
      let rest = lookup-copy_modules j d (set_module key value acc) (ground (arith, keys)) in
      let added = lookup-insert j key (wrap_value key value) acc in
      elim (Bool-cases (j == key)) [
        | inl same ↦
            let own : j ≡ key = ==_sound j key same in
            let gone : lookup j d ≡ none = lookup-absent j d (ground (arith, keys, own)) in
            ground (arith, rest, added, same, own, gone)
        | inr other ↦ ground (arith, rest, added, other)
      ]

  lookup-copy_states :
      (j : Text) (proxy : Function F) (d : Dict Text F) (acc : Dict Text (StateFunction F))
      → lookup j (copy_states proxy d acc) ≡ (
          if has_key j d
          then some (record { proxy_func = proxy; state_func = j })
          else lookup j acc)
  unfolding copy_states set_state
  lookup-copy_states j proxy [] acc = refl
  lookup-copy_states j proxy ((key, func) ∷ d) acc =
      let rest = lookup-copy_states j proxy d (set_state proxy key func acc) in
      let added = lookup-insert j key (record { proxy_func = proxy; state_func = key }) acc in
      elim (Bool-cases (j == key)) [
        | inl same ↦
            let own : j ≡ key = ==_sound j key same in ground (arith, rest, added, same, own)
        | inr other ↦ ground (arith, rest, added, other)
      ]

  wrap_value-single :
      (f : F) → wrap_value (codes "state.single") f ≡ state_module_func_wrapper f state_result_class
  unfolding wrap_value wrapper_cls state_keys single_keys contains text_methods
  wrap_value-single f = refl

  states_dict-single :
      (modules loader_dict : Dict Text F) (state_single : F)
      → distinct modules ≡ true
      → lookup (codes "state.single") modules ≡ some state_single
      → states_dict modules loader_dict
        ≡ some
            (copy_states (state_module_func_wrapper state_single state_result_class) loader_dict [])
  unfolding states_dict modules_dict states_with lookup
  states_dict-single modules loader_dict state_single keys found =
      ap (λ proxy. states_with proxy loader_dict)
        (lookup-copy_modules (codes "state.single") modules [] keys
          ∙ ap (λ o. or_old (map_found (wrap_value (codes "state.single")) o) none) found
          ∙ ap some (wrap_value-single state_single))

module _ {V F : Type 0} (salt : F → List (Datum V) → Dict Text (Datum V) → Ret V) where
  -- Where salt has loaded a `state.single`, and the keys of its execution modules are distinct, a call of a
  -- state function of a name that salt has loaded is one call of that `state.single`, with the name before
  -- the arguments, and the test gets the `StateResult` of what it returns, or the error of making that.
  -- What salt's own function of the name does is never used. There is no other state function.
  pub call_loaded-states_dict :
      (modules loader_dict : Dict Text F) (state_single : F) (name : Text) (args : List (Datum V))
      (kwargs : Dict Text (Datum V))
      → distinct modules ≡ true
      → lookup (codes "state.single") modules ≡ some state_single
      → call_loaded salt (states_dict modules loader_dict) name args kwargs ≡ (
          if has_key name loader_dict
          then some
              (single (state_result (as_dict_return (salt state_single (text name ∷ args) kwargs))))
          else none)
  unfolding call_loaded call_found call_state call_function wrap_return lookup
  call_loaded-states_dict modules loader_dict state_single name args kwargs keys found =
      let proxy = state_module_func_wrapper state_single state_result_class in
      ap (λ d. call_loaded salt d name args kwargs)
        (states_dict-single modules loader_dict state_single keys found)
      ∙ ap (λ f. call_found salt f args kwargs) (lookup-copy_states name proxy loader_dict [])
      ∙ ground (arith)
