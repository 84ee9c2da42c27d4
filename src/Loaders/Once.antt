-- ===== src/Loaders/Once.antt =====
-- How often `Loaders` loads a part.
use pytest_salt_factories.Base.{
  ℕ, ◌+◌, ◌≤◌, ◌≡◌, refl, ◌∙◌, ap, false, Option, none, some, List, [], ◌∷◌, nat_eq, arith,
}
use pytest_salt_factories.Loaders.{
  Kind, grains, utils, minion_mods, serializers, states, Call, clear_context, clean_cache,
  clean_modules, get_pillar, sync_all, Loaders, call, get_grains, compile_pillar, get_pillar_of,
  put_pillar, refresh_pillar, reset_state, clean, clean_all, put_grains, new_opts, reload_all, sync,
  init,
}
use pytest_salt_factories.Loaders.Fresh.{
  Op, read_grains, read_utils, read_modules, read_serializers, read_states, read_pillar, refresh,
  reset, reload, do_op, do_ops,
}
use pytest_salt_factories.Loaders.Loads.{
  is_load, loads, loads-call, is_some, held, IsOnce, quiet-IsOnce, renewed-IsOnce,
}
use pytest_salt_factories.Loaders.Reads.{
  get_grains-IsOnce, get_utils-IsOnce, get_serializers-IsOnce, get_modules-IsOnce,
  get_states-IsOnce,
}

same_held :
    (s t : Loaders)
    → t.grains ≡ s.grains
    → t.utils ≡ s.utils
    → t.modules ≡ s.modules
    → t.serializers ≡ s.serializers
    → t.states ≡ s.states
    → (j : Kind) → held j t ≡ held j s
same_held s t g u m z h grains = ap is_some g
same_held s t g u m z h utils = ap is_some u
same_held s t g u m z h minion_mods = ap is_some m
same_held s t g u m z h serializers = ap is_some z
same_held s t g u m z h states = ap is_some h

compile_pillar-IsOnce : (g : ℕ) (s : Loaders) → IsOnce s → IsOnce (compile_pillar (g, s)).1
unfolding compile_pillar call
compile_pillar-IsOnce g s good =
    let t = (compile_pillar (g, s)).1 in
    quiet-IsOnce s t good refl (λ j n. loads-call j n (get_pillar s.opts) s ∙ ground arith)
      (same_held s t refl refl refl refl refl)

get_pillar-IsOnce : (s : Loaders) → IsOnce s → IsOnce (get_pillar_of s).1
unfolding get_pillar_of
get_pillar-IsOnce s good =
    compile_pillar-IsOnce (get_grains s).0 (get_grains s).1 (get_grains-IsOnce s good).0

refresh_pillar-IsOnce : (s : Loaders) → IsOnce s → IsOnce (refresh_pillar s)
unfolding refresh_pillar put_pillar
refresh_pillar-IsOnce s good =
    let emptied : Loaders = record s { pillar = none } in
    let first =
      quiet-IsOnce s emptied good refl (λ j n. refl)
        (same_held s emptied refl refl refl refl refl) in
    let t = (get_pillar_of emptied).1 in
    quiet-IsOnce t (refresh_pillar s) (get_pillar-IsOnce emptied first) refl (λ j n. refl)
      (same_held t (refresh_pillar s) refl refl refl refl refl)

-- A call that is no load, with the same parts.
call-IsOnce :
    (c : Call) (s : Loaders)
    → ((j : Kind) (n : ℕ) → is_load j n c ≡ false)
    → IsOnce s
    → IsOnce (call c s)
unfolding call
call-IsOnce c s other good =
    quiet-IsOnce s (call c s) good refl (λ j n. ground (arith, loads-call j n c s, other j n))
      (same_held s (call c s) refl refl refl refl refl)

reset_state-IsOnce : (s : Loaders) → IsOnce s → IsOnce (reset_state s)
unfolding reset_state
reset_state-IsOnce s good =
    call-IsOnce clean_cache (call clear_context s) (λ j n. refl)
      (call-IsOnce clear_context s (λ j n. refl) good)

clean-loads :
    {A : Type 0} (k j : Kind) (n : ℕ) (o : Option A) (s : Loaders)
    → (loads j n (clean k o s).calls ≡ loads j n s.calls) × ((clean k o s).opts ≡ s.opts)
unfolding clean call
clean-loads k j n none s = (refl, refl)
clean-loads k j n (some a) s = (loads-call j n (clean_modules k) s ∙ ground arith, refl)

clean_all-loads :
    (j : Kind) (n : ℕ) (s : Loaders)
    → (loads j n (clean_all s).calls ≡ loads j n s.calls) × ((clean_all s).opts ≡ s.opts)
unfolding clean_all
clean_all-loads j n s =
    let a = clean minion_mods s.modules s in
    let b = clean serializers s.serializers a in
    let c = clean states s.states b in
    let first = clean-loads minion_mods j n s.modules s in
    let second = clean-loads serializers j n s.serializers a in
    let third = clean-loads states j n s.states b in
    let fourth = clean-loads utils j n s.utils c in
    (fourth.0 ∙ third.0 ∙ second.0 ∙ first.0, fourth.1 ∙ third.1 ∙ second.1 ∙ first.1)

reload_all-IsOnce : (s : Loaders) → IsOnce s → IsOnce (reload_all s)
unfolding reload_all put_grains new_opts
reload_all-IsOnce s good =
    let quiet = reset_state s in
    let cleaned = clean_all quiet in
    let renewed = new_opts cleaned in
    let fresh =
      renewed-IsOnce quiet renewed (reset_state-IsOnce s good)
        (ap (λ o. o + 1) (clean_all-loads grains 0 quiet).1)
        (λ j n. (clean_all-loads j n quiet).0) in
    let read = (get_grains renewed).1 in
    let put = put_grains (get_grains renewed) in
    refresh_pillar-IsOnce put (
      quiet-IsOnce read put (get_grains-IsOnce renewed fresh).0 refl (λ j n. refl)
        (same_held read put refl refl refl refl refl))

do_op-IsOnce : (o : Op) (s : Loaders) → IsOnce s → IsOnce (do_op o s)
unfolding do_op
do_op-IsOnce read_grains s good = (get_grains-IsOnce s good).0
do_op-IsOnce read_utils s good = (get_utils-IsOnce s good).0
do_op-IsOnce read_modules s good = (get_modules-IsOnce s good).0
do_op-IsOnce read_serializers s good = (get_serializers-IsOnce s good).0
do_op-IsOnce read_states s good = get_states-IsOnce s good
do_op-IsOnce read_pillar s good = get_pillar-IsOnce s good
do_op-IsOnce refresh s good = refresh_pillar-IsOnce s good
do_op-IsOnce reset s good = reset_state-IsOnce s good
do_op-IsOnce reload s good = reload_all-IsOnce s good

do_ops-IsOnce : (os : List Op) (s : Loaders) → IsOnce s → IsOnce (do_ops os s)
unfolding do_ops
do_ops-IsOnce [] s good = good
do_ops-IsOnce (o ∷ os) s good = do_ops-IsOnce os (do_op o s) (do_op-IsOnce o s good)

no_calls-IsOnce : (s : Loaders) → s.calls ≡ [] → IsOnce s
no_calls-IsOnce s none_yet =
    let zero_of = λ (k : Kind) (n : ℕ). ap (loads k n) none_yet in
    record {
      once = λ k n. ground (arith, zero_of k n);
      not_yet = λ k n below. zero_of k n;
      idle = λ k absent. zero_of k s.opts;
    }

init-IsOnce : IsOnce init
unfolding init sync
init-IsOnce = reload_all-IsOnce _ (
    call-IsOnce sync_all _ (λ j n. refl)
      ((get_modules-IsOnce _ (reload_all-IsOnce _ (no_calls-IsOnce _ refl))).0))

-- After the constructor and any accesses, refreshes, resets and reloads, no kind of part (the grains, the utils, the
-- modules, the serializers, the states) has been loaded more than once with the same copy of the
-- options: what was loaded is kept, up to a reload, which makes a new copy. The compilation of a pillar
-- is none of these.
pub loads-do_ops : (os : List Op) (k : Kind) (n : ℕ) → loads k n (do_ops os init).calls ≤ 1
loads-do_ops os k n = (do_ops-IsOnce os init init-IsOnce).once k n
