-- ===== src/Loader/Leak.antt =====
-- Two modules that both mock `sys.modules`: the first module's mocks stay behind.
use pytest_salt_factories.Base.{◌≡◌, refl, ◌∙◌, subst, Option, none, some, [], ◌∷◌, arith}
use pytest_salt_factories.Base.Text.{Text, codes, text_eq}
use pytest_salt_factories.Base.Dict.{Dict, lookup}
use pytest_salt_factories.Loader.{
  Content, update, World, State, run_finalizers, stop, Dunders, Setup, done, patch_dict,
  patch_sys_with, patch_sys_modules, patch_multiple, patch_module_globals, start_module, start_item,
  start,
}
use pytest_salt_factories.Loader.Laws.{sys_after, sys_after-append, run_finalizers-sys_modules}
use pytest_salt_factories.Loader.Restore.{and_then-done, fresh_state}

module _ {V : Type 0} where
  globals-keep_sys :
      (s s' : State V) (m : Text) (r : Option (Dict Text V)) (c : Content V)
      → patch_module_globals s m r ≡ done s'
      → (s'.world.sys_modules ≡ s.world.sys_modules)
        × (sys_after s'.finalizers c ≡ sys_after s.finalizers c)
  unfolding patch_module_globals patch_multiple sys_after
  globals-keep_sys s s' m none c h = cc
  globals-keep_sys s s' m (some values) c h =
      let same : patch_multiple s m values ≡ s' = cc in
      subst
        (λ (x : State V).
          (x.world.sys_modules ≡ s.world.sys_modules)
          × (sys_after x.finalizers c ≡ sys_after s.finalizers c))
        same (refl, sys_after-append s.finalizers _ c)

module _ {V : Type 0} (as_dict : V → Option (Dict Text V)) (empty : V) (d : Dunders) where
  sys-patched :
      (s s' : State V) (o : Option V) (v : V) (r : Option (Dict Text V)) (values : Dict Text V)
      (c : Content V)
      → o ≡ some v
      → as_dict v ≡ some values
      → patch_sys_modules as_dict empty d s o ≡ done s'
      → (s'.world.sys_modules ≡ update s.world.sys_modules values)
        × (sys_after s'.finalizers c ≡ s.world.sys_modules)
  unfolding patch_sys_modules patch_sys_with patch_dict sys_after
  sys-patched s s' o v r values c e f h =
      let equal : done (patch_dict s values) ≡ done s' = ground (arith, e, f, h) in
      let same : patch_dict s values ≡ s' = cc in
      subst
        (λ (x : State V).
          (x.world.sys_modules ≡ update s.world.sys_modules values)
          × (sys_after x.finalizers c ≡ s.world.sys_modules))
        same (refl, sys_after-append s.finalizers _ c)

  -- A module whose value for `sys.modules` is a dictionary, and what `stop` would leave.
  start_module-sys :
      (s s' : State V) (m : Text) (mocks : Dict Text V) (v : V) (values : Dict Text V)
      (c : Content V)
      → lookup (codes "sys.modules") mocks ≡ some v
      → as_dict v ≡ some values
      → start_module as_dict empty d s m mocks ≡ done s'
      → (s'.world.sys_modules ≡ update s.world.sys_modules values)
        × (sys_after s'.finalizers c ≡ s.world.sys_modules)
  unfolding start_module
  start_module-sys s s' m mocks v values c e f h =
      let (mid, first, second) =
        and_then-done as_dict empty d
          (patch_sys_modules as_dict empty d s (lookup (codes "sys.modules") mocks)) _ s' h in
      let (now, after) =
        sys-patched s mid (lookup (codes "sys.modules") mocks) v (as_dict v) values c e f first in
      let (now', after') = globals-keep_sys mid s' m _ c second in (now' ∙ now, after' ∙ after)

abbrev pub module_item : {V : Type 0} → Text → Dict Text V → Setup V
module_item m mocks = record { module_name = some m; mocks = some mocks }

-- Where the setup has exactly two modules, and both mock `sys.modules` with dictionaries, a successful
-- start, followed by a stop, leaves `sys.modules` with the first module's values merged into it: the
-- finalizers run in the order of the patches, and the second puts back what the first had patched.
pub stop-start_leaks :
    {V : Type 0} (as_dict : V → Option (Dict Text V)) (empty : V) (d : Dunders) (w : World V)
    (m n : Text) (mocks mocks' : Dict Text V) (v v' : V) (values values' : Dict Text V)
    (s : State V)
    → lookup (codes "sys.modules") mocks ≡ some v
    → as_dict v ≡ some values
    → lookup (codes "sys.modules") mocks' ≡ some v'
    → as_dict v' ≡ some values'
    → start as_dict empty d (fresh_state w) (module_item m mocks ∷ module_item n mocks' ∷ [])
      ≡ done s
    → (stop s).world.sys_modules ≡ update w.sys_modules values
unfolding stop start start_item
stop-start_leaks as_dict empty d w m n mocks mocks' v v' values values' s e f e' f' h =
    let (one, first, rest) =
      and_then-done as_dict empty d (start_module as_dict empty d (fresh_state w) m mocks) _ s h in
    let (two, second, last) =
      and_then-done as_dict empty d (start_module as_dict empty d one n mocks') _ s rest in
    let same : two ≡ s = cc in
    let (now, _) =
      start_module-sys as_dict empty d (fresh_state w) one m mocks v values w.sys_modules e f
        first in
    let (_, after) =
      start_module-sys as_dict empty d one two n mocks' v' values' two.world.sys_modules e' f'
        second in
    subst
      (λ (x : State _).
        (run_finalizers x.world x.finalizers).sys_modules ≡ update w.sys_modules values)
      same (run_finalizers-sys_modules two.finalizers two.world ∙ after ∙ now)
