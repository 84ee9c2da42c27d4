-- ===== src/Loaders/Fresh.antt =====
-- The parts that `Loaders` has loaded fit together.
use pytest_salt_factories.Base.{
  ℕ, ◌≡◌, subst, sym, ◌∙◌, inl, inr, Option, none, some, List, [], ◌∷◌, arith, Option-cases,
}
use pytest_salt_factories.Loaders.{
  Modules, States, Loaders, call, grains_of, get_grains, utils_of, get_utils, serializers_of,
  get_serializers, load_modules, modules_of, get_modules, load_states, with_utils, with_modules,
  states_of, get_states, compile_pillar, get_pillar_of, put_pillar, refresh_pillar, reset_state,
  clean_all, put_grains, new_opts, reload_all, init,
}

abbrev pub Current : ℕ → Option ℕ → Type 0
Current n none = Unit {0}
Current n (some m) = m ≡ n

abbrev pub CurrentModules : ℕ → Option Modules → Type 0
CurrentModules n none = Unit {0}
CurrentModules n (some m) = (m.opts ≡ n) × (m.utils ≡ n)

abbrev pub CurrentStates : ℕ → Option States → Type 0
CurrentStates n none = Unit {0}
CurrentStates n (some t) =
    (t.opts ≡ n)
    × (t.functions.opts ≡ n)
    × (t.functions.utils ≡ n)
    × (t.utils ≡ n)
    × (t.serializers ≡ n)

-- Every part is loaded with the current options, and so are the parts that it was given.
pub record IsFresh (s : Loaders) : Type 0 where
  pub fresh_grains : Current s.opts s.grains
  pub fresh_utils : Current s.opts s.utils
  pub fresh_serializers : Current s.opts s.serializers
  pub fresh_modules : CurrentModules s.opts s.modules
  pub fresh_states : CurrentStates s.opts s.states

get_grains-IsFresh : (s : Loaders) → IsFresh s → IsFresh (get_grains s).1
unfolding get_grains grains_of call
get_grains-IsFresh s good = ground (arith, good)

get_utils-IsFresh :
    (s : Loaders)
    → IsFresh s
    → IsFresh (get_utils s).1
      × ((get_utils s).0 ≡ (get_utils s).1.opts)
      × ((get_utils s).1.opts ≡ s.opts)
unfolding get_utils utils_of call
get_utils-IsFresh s good = ground (arith, good)

get_serializers-IsFresh :
    (s : Loaders)
    → IsFresh s
    → IsFresh (get_serializers s).1
      × ((get_serializers s).0 ≡ s.opts)
      × ((get_serializers s).1.opts ≡ s.opts)
unfolding get_serializers serializers_of call
get_serializers-IsFresh s good = ground (arith, good)

get_modules-IsFresh :
    (s : Loaders)
    → IsFresh s
    → IsFresh (get_modules s).1
      × ((get_modules s).0.opts ≡ (get_modules s).1.opts)
      × ((get_modules s).0.utils ≡ (get_modules s).1.opts)
unfolding get_modules modules_of load_modules call
get_modules-IsFresh s good = elim (Option-cases s.modules) [
  | inl none_yet ↦ ground (arith, none_yet, get_utils-IsFresh s good)
  | inr (m, has) ↦ ground (arith, has, good)
]

with_utils-IsFresh :
    (m : Modules) (u : ℕ) (s : Loaders)
    → IsFresh s
    → m.opts ≡ s.opts
    → m.utils ≡ s.opts
    → u ≡ s.opts
    → IsFresh (with_utils m (u, s)).1
unfolding with_utils load_states call
with_utils-IsFresh m u s good same same_utils own =
    ground (arith, good, same, same_utils, own, get_serializers-IsFresh s good)

get_states-IsFresh : (s : Loaders) → IsFresh s → IsFresh (get_states s).1
unfolding get_states states_of with_modules
get_states-IsFresh s good = elim (Option-cases s.states) [
  | inl none_yet ↦
      let loaded = get_modules-IsFresh s good in
      let used = get_utils-IsFresh (get_modules s).1 loaded.0 in
      subst (λ o. IsFresh (states_of o s).1) (sym none_yet)
        (with_utils-IsFresh (get_modules s).0 (get_utils (get_modules s).1).0
          (get_utils (get_modules s).1).1 used.0 (loaded.1 ∙ sym used.2) (loaded.2 ∙ sym used.2)
          used.1)
  | inr (t, has) ↦ ground (arith, has, good)
]

refresh_pillar-IsFresh : (s : Loaders) → IsFresh s → IsFresh (refresh_pillar s)
unfolding refresh_pillar put_pillar get_pillar_of compile_pillar get_grains grains_of call
refresh_pillar-IsFresh s good = ground (arith, good)

get_pillar-IsFresh : (s : Loaders) → IsFresh s → IsFresh (get_pillar_of s).1
unfolding get_pillar_of compile_pillar get_grains grains_of call
get_pillar-IsFresh s good = ground (arith, good)

reset_state-IsFresh : (s : Loaders) → IsFresh s → IsFresh (reset_state s)
unfolding reset_state call
reset_state-IsFresh s good = ground (arith, good)

-- A reload needs no fresh parts: it leaves none but the grains, and the options with theirs and their
-- pillar.
reload_all-IsFresh : (s : Loaders) → IsFresh (reload_all s)
unfolding reload_all put_grains get_grains grains_of new_opts clean_all call
reload_all-IsFresh s =
    refresh_pillar-IsFresh (put_grains (get_grains (new_opts (clean_all (reset_state s)))))
      (ground arith)

-- What a test does with the loaders.
pub data Op : Type 0 where
  read_grains read_utils read_modules read_serializers read_states read_pillar : Op
  refresh reset reload : Op

unfoldable pub do_op : Op → Loaders → Loaders
do_op read_grains s = (get_grains s).1
do_op read_utils s = (get_utils s).1
do_op read_modules s = (get_modules s).1
do_op read_serializers s = (get_serializers s).1
do_op read_states s = (get_states s).1
do_op read_pillar s = (get_pillar_of s).1
do_op refresh s = refresh_pillar s
do_op reset s = reset_state s
do_op reload s = reload_all s

unfoldable pub do_ops : List Op → Loaders → Loaders
do_ops [] s = s
do_ops (o ∷ os) s = do_ops os (do_op o s)

do_op-IsFresh : (o : Op) (s : Loaders) → IsFresh s → IsFresh (do_op o s)
unfolding do_op
do_op-IsFresh read_grains s good = get_grains-IsFresh s good
do_op-IsFresh read_utils s good = (get_utils-IsFresh s good).0
do_op-IsFresh read_modules s good = (get_modules-IsFresh s good).0
do_op-IsFresh read_serializers s good = (get_serializers-IsFresh s good).0
do_op-IsFresh read_states s good = get_states-IsFresh s good
do_op-IsFresh read_pillar s good = get_pillar-IsFresh s good
do_op-IsFresh refresh s good = refresh_pillar-IsFresh s good
do_op-IsFresh reset s good = reset_state-IsFresh s good
do_op-IsFresh reload s good = reload_all-IsFresh s

do_ops-IsFresh : (os : List Op) (s : Loaders) → IsFresh s → IsFresh (do_ops os s)
unfolding do_ops
do_ops-IsFresh [] s good = good
do_ops-IsFresh (o ∷ os) s good = do_ops-IsFresh os (do_op o s) (do_op-IsFresh o s good)

-- After the constructor and any accesses, refreshes, resets and reloads, every loader that is held (the grains,
-- the utils, the serializers, the modules, the states) was loaded with the current options, and so were
-- the modules that the states were given, the utils that each of the two was given, and the serializers.
pub do_ops-init-IsFresh : (os : List Op) → IsFresh (do_ops os init)
unfolding init
do_ops-init-IsFresh os = do_ops-IsFresh os init (reload_all-IsFresh _)
