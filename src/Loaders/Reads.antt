-- ===== src/Loaders/Reads.antt =====
-- The accesses of `Loaders`: none loads a part that is held.
use pytest_salt_factories.Base.{ℕ, ◌≡◌, refl, ◌∙◌, ap, false, Option, none, some, nat_eq, arith}
use pytest_salt_factories.Loaders.{
  Kind, grains, utils, minion_mods, serializers, states, Modules, States, Loaders, call, grains_of,
  get_grains, utils_of, get_utils, serializers_of, get_serializers, load_modules, modules_of,
  get_modules, load_states, with_utils, with_modules, states_of, get_states,
}
use pytest_salt_factories.Loaders.Loads.{same_kind, is_some, held, IsOnce, loaded-IsOnce}

-- The state of a loader after a step, where the other loaders are as they were.
abbrev pub Keeps : Kind → Loaders → Loaders → Type 0
Keeps k s t = IsOnce t × ((j : Kind) → same_kind j k ≡ false → held j t ≡ held j s)

keeps-grains :
    (s : Loaders) (j : Kind) → same_kind j grains ≡ false → held j (grains_of none s).1 ≡ held j s
unfolding grains_of call
keeps-grains s grains other = absurd (ground (arith, other))
keeps-grains s utils other = refl
keeps-grains s minion_mods other = refl
keeps-grains s serializers other = refl
keeps-grains s states other = refl

grains_of-IsOnce :
    (o : Option ℕ) (s : Loaders) → s.grains ≡ o → IsOnce s → Keeps grains s (grains_of o s).1
unfolding grains_of call
grains_of-IsOnce none s lacks good = (
  loaded-IsOnce grains s (grains_of none s).1 good (ap is_some lacks) refl refl refl
      (keeps-grains s),
  keeps-grains s,
)
grains_of-IsOnce (some a) s has good = (good, λ j other. refl)

pub get_grains-IsOnce : (s : Loaders) → IsOnce s → Keeps grains s (get_grains s).1
unfolding get_grains
get_grains-IsOnce s good = grains_of-IsOnce s.grains s refl good

keeps-utils :
    (s : Loaders) (j : Kind) → same_kind j utils ≡ false → held j (utils_of none s).1 ≡ held j s
unfolding utils_of call
keeps-utils s grains other = refl
keeps-utils s utils other = absurd (ground (arith, other))
keeps-utils s minion_mods other = refl
keeps-utils s serializers other = refl
keeps-utils s states other = refl

utils_of-IsOnce :
    (o : Option ℕ) (s : Loaders) → s.utils ≡ o → IsOnce s → Keeps utils s (utils_of o s).1
unfolding utils_of call
utils_of-IsOnce none s lacks good = (
  loaded-IsOnce utils s (utils_of none s).1 good (ap is_some lacks) refl refl refl (keeps-utils s),
  keeps-utils s,
)
utils_of-IsOnce (some a) s has good = (good, λ j other. refl)

pub get_utils-IsOnce : (s : Loaders) → IsOnce s → Keeps utils s (get_utils s).1
unfolding get_utils
get_utils-IsOnce s good = utils_of-IsOnce s.utils s refl good

keeps-serializers :
    (s : Loaders) (j : Kind)
    → same_kind j serializers ≡ false
    → held j (serializers_of none s).1 ≡ held j s
unfolding serializers_of call
keeps-serializers s grains other = refl
keeps-serializers s utils other = refl
keeps-serializers s minion_mods other = refl
keeps-serializers s serializers other = absurd (ground (arith, other))
keeps-serializers s states other = refl

serializers_of-IsOnce :
    (o : Option ℕ) (s : Loaders)
    → s.serializers ≡ o
    → IsOnce s
    → Keeps serializers s (serializers_of o s).1
unfolding serializers_of call
serializers_of-IsOnce none s lacks good = (
  loaded-IsOnce serializers s (serializers_of none s).1 good (ap is_some lacks) refl refl refl
      (keeps-serializers s),
  keeps-serializers s,
)
serializers_of-IsOnce (some a) s has good = (good, λ j other. refl)

pub get_serializers-IsOnce : (s : Loaders) → IsOnce s → Keeps serializers s (get_serializers s).1
unfolding get_serializers
get_serializers-IsOnce s good = serializers_of-IsOnce s.serializers s refl good

keeps-minion_mods :
    (u : ℕ) (s : Loaders) (j : Kind)
    → same_kind j minion_mods ≡ false
    → held j (load_modules (u, s)).1 ≡ held j s
unfolding load_modules call
keeps-minion_mods u s grains other = refl
keeps-minion_mods u s utils other = refl
keeps-minion_mods u s minion_mods other = absurd (ground (arith, other))
keeps-minion_mods u s serializers other = refl
keeps-minion_mods u s states other = refl

modules_of-IsOnce :
    (o : Option Modules) (s : Loaders)
    → s.modules ≡ o
    → IsOnce s
    → IsOnce (modules_of o s).1 × (held states (modules_of o s).1 ≡ held states s)
unfolding modules_of load_modules call nat_eq
modules_of-IsOnce none s lacks good =
    let (once, kept) = get_utils-IsOnce s good in
    let u = get_utils s in
    (
      loaded-IsOnce minion_mods u.1 (load_modules u).1 once
          (kept minion_mods refl ∙ ap is_some lacks) refl refl refl (keeps-minion_mods u.0 u.1),
      kept states refl,
    )
modules_of-IsOnce (some m) s has good = (good, refl)

pub get_modules-IsOnce :
    (s : Loaders)
    → IsOnce s
    → IsOnce (get_modules s).1 × (held states (get_modules s).1 ≡ held states s)
unfolding get_modules
get_modules-IsOnce s good = modules_of-IsOnce s.modules s refl good

keeps-states :
    (m : Modules) (u z : ℕ) (s : Loaders) (j : Kind)
    → same_kind j states ≡ false
    → held j (load_states m u (z, s)).1 ≡ held j s
unfolding load_states call
keeps-states m u z s grains other = refl
keeps-states m u z s utils other = refl
keeps-states m u z s minion_mods other = refl
keeps-states m u z s serializers other = refl
keeps-states m u z s states other = absurd (ground (arith, other))

states_of-IsOnce :
    (o : Option States) (s : Loaders) → s.states ≡ o → IsOnce s → IsOnce (states_of o s).1
unfolding states_of with_modules with_utils load_states call nat_eq
states_of-IsOnce none s lacks good =
    let m = get_modules s in
    let u = get_utils m.1 in
    let z = get_serializers u.1 in
    let (first, kept) = get_modules-IsOnce s good in
    let (second, kept_u) = get_utils-IsOnce m.1 first in
    let (third, kept_z) = get_serializers-IsOnce u.1 second in
    loaded-IsOnce states z.1 (load_states m.0 u.0 z).1 third
      (kept_z states refl ∙ kept_u states refl ∙ kept ∙ ap is_some lacks) refl refl refl
      (keeps-states m.0 u.0 z.0 z.1)
states_of-IsOnce (some t) s has good = good

pub get_states-IsOnce : (s : Loaders) → IsOnce s → IsOnce (get_states s).1
unfolding get_states
get_states-IsOnce s good = states_of-IsOnce s.states s refl good
