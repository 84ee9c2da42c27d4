-- ===== src/Loader/Restore.antt =====
-- `start`, then `stop`.
use pytest_salt_factories.Base.{
  ◌≡◌, refl, ◌∙◌, subst, Bool, true, false, ◌&&◌, ◌||◌, Option, none, some, List, [], ◌∷◌, arith,
  contains, any, any-append,
}
use pytest_salt_factories.Base.Text.{Text, codes, text_eq}
use pytest_salt_factories.Base.Dict.{Dict, lookup}
use pytest_salt_factories.Loader.{
  World, State, run_finalizers, stop, Dunders, Setup, Outcome, done, usage_error, patch_dict,
  patch_sys_with, patch_sys_modules, patch_multiple, patch_module_globals, start_module, start_item,
  and_then, start,
}
use pytest_salt_factories.Loader.Laws.{
  is_stop_dict, restores, Same, Same-trans, patch_dict-Same, patch_multiple-Same, stop-Same,
}

abbrev pub is_given : {V : Type 0} → Option V → Bool
is_given none = false
is_given (some v) = true

-- The item mocks `sys.modules`.
abbrev pub mocks_sys : {V : Type 0} → Dict Text V → Bool
mocks_sys mocks = is_given (lookup (codes "sys.modules") mocks)

abbrev pub FitsItem :
    {V : Type 0}
    → Bool
    → List Text
    → Option Text
    → Option (Dict Text V)
    → (Bool → List Text → Type 0)
    → Type 0
FitsItem sys names none mocks Rest = Unit
FitsItem sys names (some m) none Rest = Unit
FitsItem sys names (some m) (some mocks) Rest =
    ((mocks_sys mocks && sys) ≡ false)
    × (contains names m ≡ false)
    × Rest (mocks_sys mocks || sys) (m ∷ names)

-- No module stands twice, and `sys.modules` is mocked once at most, `sys` and `names` counted.
abbrev pub Fits : {V : Type 0} → Bool → List Text → List (Setup V) → Type 0
Fits sys names [] = Unit
Fits sys names (item ∷ items) =
    FitsItem sys names item.module_name item.mocks (λ sys' names'. Fits sys' names' items)

-- The finalizers of a state touch these parts of the world.
abbrev Tracks : {V : Type 0} → State V → Bool → List Text → Type 0
Tracks s sys names =
    (any is_stop_dict s.finalizers ≡ sys)
    × ((n : Text) → any (restores n) s.finalizers ≡ contains names n)

-- From `s` to `s'` nothing is lost for `stop`, and the finalizers touch what is listed.
abbrev Leads : {V : Type 0} → State V → Bool → List Text → State V → Type 0
Leads s sys names s' = Same s' s × Tracks s' sys names

module _ {V : Type 0} where
  patch_dict-Leads :
      (s : State V) (names : List Text) (values : Dict Text V)
      → Tracks s false names
      → Leads s true names (patch_dict s values)
  unfolding patch_dict any
  patch_dict-Leads s names values (no_sys, listed) = (
    patch_dict-Same s values no_sys,
    (
      any-append is_stop_dict s.finalizers _ ∙ ground (arith, no_sys),
      λ n. any-append (restores n) s.finalizers _ ∙ ground (arith, listed n),
    ),
  )

  patch_multiple-Leads :
      (s : State V) (sys : Bool) (names : List Text) (m : Text) (values : Dict Text V)
      → Tracks s sys names
      → contains names m ≡ false
      → Leads s sys (m ∷ names) (patch_multiple s m values)
  unfolding patch_multiple any contains
  patch_multiple-Leads s sys names m values (on_sys, listed) fresh = (
    patch_multiple-Same s m values (listed m ∙ fresh),
    (
      any-append is_stop_dict s.finalizers _ ∙ ground (arith, on_sys),
      λ n. any-append (restores n) s.finalizers _ ∙ ground (arith, listed n),
    ),
  )

  patch_sys_with-Leads :
      (as_dict : V → Option (Dict Text V)) (empty : V) (d : Dunders) (s s' : State V)
      (r : Option (Dict Text V)) (names : List Text)
      → patch_sys_with as_dict empty d s r ≡ done s'
      → Tracks s false names
      → Leads s true names s'
  unfolding patch_sys_with
  patch_sys_with-Leads as_dict empty d s s' none names h t = cc
  patch_sys_with-Leads as_dict empty d s s' (some values) names h t =
      subst (Leads s true names) (cc) (patch_dict-Leads s names values t)

  Same-refl : (s : State V) → Same s s
  Same-refl s = record { same_sys = refl; same_globals = λ n. refl }

module _ {V : Type 0} (as_dict : V → Option (Dict Text V)) (empty : V) (d : Dunders) where
  patch_sys_modules-Leads :
      (s s' : State V) (o : Option V) (sys : Bool) (names : List Text)
      → patch_sys_modules as_dict empty d s o ≡ done s'
      → Tracks s sys names
      → (is_given o && sys) ≡ false
      → Leads s (is_given o || sys) names s'
  unfolding patch_sys_modules
  patch_sys_modules-Leads s s' none sys names h t once =
      subst (Leads s sys names) (cc) (Same-refl s, t)
  patch_sys_modules-Leads s s' (some v) sys names h (on_sys, listed) once =
      patch_sys_with-Leads as_dict empty d s s' (as_dict v) names h (on_sys ∙ once, listed)

  patch_module_globals-Leads :
      (s s' : State V) (sys : Bool) (names : List Text) (m : Text) (r : Option (Dict Text V))
      → patch_module_globals s m r ≡ done s'
      → Tracks s sys names
      → contains names m ≡ false
      → Leads s sys (m ∷ names) s'
  unfolding patch_module_globals
  patch_module_globals-Leads s s' sys names m none h t fresh = cc
  patch_module_globals-Leads s s' sys names m (some values) h t fresh =
      subst (Leads s sys (m ∷ names)) (cc) (patch_multiple-Leads s sys names m values t fresh)

  -- Inversion of a chain that succeeds.
  pub and_then-done :
      (o : Outcome V) (k : State V → Outcome V) (s' : State V)
      → and_then o k ≡ done s'
      → (s : State V) × (o ≡ done s) × (k s ≡ done s')
  unfolding and_then
  and_then-done (usage_error s) k s' h = cc
  and_then-done (done s) k s' h = (s, refl, h)

  start_module-Leads :
      (s s' : State V) (sys : Bool) (names : List Text) (m : Text) (mocks : Dict Text V)
      → start_module as_dict empty d s m mocks ≡ done s'
      → Tracks s sys names
      → (mocks_sys mocks && sys) ≡ false
      → contains names m ≡ false
      → Leads s (mocks_sys mocks || sys) (m ∷ names) s'
  unfolding start_module
  start_module-Leads s s' sys names m mocks h t once fresh =
      let (mid, first, second) =
        and_then-done (patch_sys_modules as_dict empty d s (lookup (codes "sys.modules") mocks)) _
          s' h in
      let (same, t') =
        patch_sys_modules-Leads s mid (lookup (codes "sys.modules") mocks) sys names first t once in
      let (same', t'') =
        patch_module_globals-Leads mid s' (mocks_sys mocks || sys) names m _ second t' fresh in
      (Same-trans s' mid s same' same, t'')

  start_item-Leads :
      (s s' : State V) (sys : Bool) (names : List Text) (name : Option Text)
      (mocks : Option (Dict Text V)) (Rest : Bool → List Text → Type 0)
      → start_item as_dict empty d s name mocks ≡ done s'
      → Tracks s sys names
      → FitsItem sys names name mocks Rest
      → (sys' : Bool) × (names' : List Text) × Leads s sys' names' s' × Rest sys' names'
  unfolding start_item
  start_item-Leads s s' sys names none mocks Rest h t f = cc
  start_item-Leads s s' sys names (some m) none Rest h t f = cc
  start_item-Leads s s' sys names (some m) (some mocks) Rest h t (once, fresh, rest) = (
    mocks_sys mocks || sys,
    m ∷ names,
    start_module-Leads s s' sys names m mocks h t once fresh,
    rest,
  )

  start-Same :
      (items : List (Setup V)) (s s' : State V) (sys : Bool) (names : List Text)
      → start as_dict empty d s items ≡ done s'
      → Tracks s sys names
      → Fits sys names items
      → Same s' s
  unfolding start
  start-Same [] s s' sys names h t f = subst (λ x. Same x s) (cc) (Same-refl s)
  start-Same (item ∷ items) s s' sys names h t f =
      let (mid, first, second) =
        and_then-done (start_item as_dict empty d s item.module_name item.mocks) _ s' h in
      let (sys', names', (same, t'), f') =
        start_item-Leads s mid sys names item.module_name item.mocks _ first t f in
      Same-trans s' mid s (start-Same items mid s' sys' names' second t' f') same

abbrev pub fresh_state : {V : Type 0} → World V → State V
fresh_state w = record { world = w; finalizers = [] }

-- If no module stands twice in the setup and one at most mocks `sys.modules`, then a successful
-- start, followed by a stop, leaves `sys.modules` and the globals of every module as they were, and
-- no finalizer.
pub stop-start :
    {V : Type 0} (as_dict : V → Option (Dict Text V)) (empty : V) (d : Dunders) (w : World V)
    (items : List (Setup V)) (s : State V)
    → Fits false [] items
    → start as_dict empty d (fresh_state w) items ≡ done s
    → stop s ≡ fresh_state w
unfolding stop run_finalizers any contains
stop-start as_dict empty d w items s f h =
    stop-Same s (fresh_state w)
      (start-Same as_dict empty d items (fresh_state w) s false [] h (refl, λ n. refl) f)
