-- ===== src/Loader/Laws.antt =====
-- Stopping the mocks puts everything back if at most one module mocks `sys.modules`.
use mathlib.Core.Path.{fun_ext}
use pytest_salt_factories.Base.{
  ◌≡◌, refl, sym, ◌∙◌, ap, Bool, true, false, ◌||◌, some, List, [], ◌∷◌, ◌++◌, ◌==◌, arith, any,
  if◌then◌else◌,
}
use pytest_salt_factories.Base.Text.{Text, text_eq}
use pytest_salt_factories.Base.Dict.{Dict}
use pytest_salt_factories.Loader.{
  Content, set_key, update, restore, save, World, Finalizer, stop_dict, stop_multiple, State,
  run_finalizer, run_finalizers, stop, patch_dict, patch_multiple,
}

module _ {V : Type 0} where
  has_key : Text → Dict Text V → Bool
  has_key k [] = false
  has_key k ((j, v) ∷ d) = k == j || has_key k d

  restore-save :
      (f g : Content V) (d : Dict Text V) (k : Text)
      → restore g (save f d) k ≡ (if has_key k d then f k else g k)
  unfolding restore save has_key
  restore-save f g [] k = refl
  restore-save f g ((j, v) ∷ d) k = restore-save f (set_key g j (f j)) d k ∙ ground arith

  update-absent :
      (f : Content V) (d : Dict Text V) (k : Text) → has_key k d ≡ false → update f d k ≡ f k
  unfolding update has_key
  update-absent f [] k h = refl
  update-absent f ((j, v) ∷ d) k h =
      update-absent (set_key f j (some v)) d k (ground (arith, h)) ∙ ground (arith, h)

  -- Restoring what was saved undoes an update.
  restore-update : (f : Content V) (d : Dict Text V) → restore (update f d) (save f d) ≡ f
  restore-update f d =
      fun_ext λ k. restore-save f (update f d) d k ∙ ground (arith, update-absent f d k)

  -- What finalizers leave of `sys.modules`, and of the globals of one module.
  unfoldable pub sys_after : List (Finalizer V) → Content V → Content V
  sys_after [] c = c
  sys_after (stop_dict original ∷ fs) c = sys_after fs original
  sys_after (stop_multiple m saved ∷ fs) c = sys_after fs c

  pub globals_after : Text → List (Finalizer V) → Content V → Content V
  globals_after n [] c = c
  globals_after n (stop_dict original ∷ fs) c = globals_after n fs c
  globals_after n (stop_multiple m saved ∷ fs) c =
      globals_after n fs (if n == m then restore c saved else c)

  pub run_finalizers-sys_modules :
      (fs : List (Finalizer V)) (w : World V)
      → (run_finalizers w fs).sys_modules ≡ sys_after fs w.sys_modules
  unfolding run_finalizers run_finalizer sys_after
  run_finalizers-sys_modules [] w = refl
  run_finalizers-sys_modules (stop_dict original ∷ fs) w = run_finalizers-sys_modules fs _
  run_finalizers-sys_modules (stop_multiple m saved ∷ fs) w = run_finalizers-sys_modules fs _

  run_finalizers-globals :
      (fs : List (Finalizer V)) (w : World V) (n : Text)
      → (run_finalizers w fs).globals n ≡ globals_after n fs (w.globals n)
  unfolding run_finalizers run_finalizer globals_after
  run_finalizers-globals [] w n = refl
  run_finalizers-globals (stop_dict original ∷ fs) w n = run_finalizers-globals fs _ n
  run_finalizers-globals (stop_multiple m saved ∷ fs) w n =
      run_finalizers-globals fs _ n ∙ ap (globals_after n fs) (ground arith)

  abbrev pub is_stop_dict : Finalizer V → Bool
  is_stop_dict (stop_dict original) = true
  is_stop_dict (stop_multiple m saved) = false

  abbrev pub restores : Text → Finalizer V → Bool
  restores n (stop_dict original) = false
  restores n (stop_multiple m saved) = n == m

  pub sys_after-append :
      (fs gs : List (Finalizer V)) (c : Content V)
      → sys_after (fs ++ gs) c ≡ sys_after gs (sys_after fs c)
  unfolding sys_after
  sys_after-append [] gs c = refl
  sys_after-append (stop_dict original ∷ fs) gs c = sys_after-append fs gs original
  sys_after-append (stop_multiple m saved ∷ fs) gs c = sys_after-append fs gs c

  globals_after-append :
      (n : Text) (fs gs : List (Finalizer V)) (c : Content V)
      → globals_after n (fs ++ gs) c ≡ globals_after n gs (globals_after n fs c)
  unfolding globals_after
  globals_after-append n [] gs c = refl
  globals_after-append n (stop_dict original ∷ fs) gs c = globals_after-append n fs gs c
  globals_after-append n (stop_multiple m saved ∷ fs) gs c = globals_after-append n fs gs _

  sys_after-untouched :
      (fs : List (Finalizer V)) (c : Content V) → any is_stop_dict fs ≡ false → sys_after fs c ≡ c
  unfolding sys_after any
  sys_after-untouched [] c h = refl
  sys_after-untouched (stop_dict original ∷ fs) c h = cc
  sys_after-untouched (stop_multiple m saved ∷ fs) c h = sys_after-untouched fs c h

  globals_after-untouched :
      (n : Text) (fs : List (Finalizer V)) (c : Content V)
      → any (restores n) fs ≡ false
      → globals_after n fs c ≡ c
  unfolding globals_after any
  globals_after-untouched n [] c h = refl
  globals_after-untouched n (stop_dict original ∷ fs) c h = globals_after-untouched n fs c h
  globals_after-untouched n (stop_multiple m saved ∷ fs) c h =
      ground (arith, h, globals_after-untouched n fs c)

  -- Where a `stop` would lead: it is the same world for two states.
  pub record Same (s t : State V) : Type 0 where
    pub same_sys :
        sys_after s.finalizers s.world.sys_modules ≡ sys_after t.finalizers t.world.sys_modules
    pub same_globals :
        (n : Text)
        → globals_after n s.finalizers (s.world.globals n)
          ≡ globals_after n t.finalizers (t.world.globals n)

  pub patch_dict-Same :
      (s : State V) (values : Dict Text V)
      → any is_stop_dict s.finalizers ≡ false
      → Same (patch_dict s values) s
  unfolding patch_dict sys_after globals_after
  patch_dict-Same s values h = record {
    same_sys = sys_after-append s.finalizers _ _ ∙ sym (sys_after-untouched s.finalizers _ h);
    same_globals = λ n. globals_after-append n s.finalizers _ _;
  }

  pub patch_multiple-Same :
      (s : State V) (m : Text) (values : Dict Text V)
      → any (restores m) s.finalizers ≡ false
      → Same (patch_multiple s m values) s
  unfolding patch_multiple sys_after globals_after
  patch_multiple-Same s m values h = record {
    same_sys = sys_after-append s.finalizers _ _;
    same_globals = λ n.
        globals_after-append n s.finalizers _ _
        ∙ (let f = s.world.globals m in
            ground (
              arith,
              globals_after-untouched m s.finalizers (update f values) h,
              globals_after-untouched m s.finalizers f h,
              restore-update f values,
            ));
  }

  pub Same-trans : (s t u : State V) → Same s t → Same t u → Same s u
  Same-trans s t u p q = record {
    same_sys = p.same_sys ∙ q.same_sys;
    same_globals = λ n. p.same_globals n ∙ q.same_globals n;
  }

  -- States that lead to the same world are stopped alike.
  pub stop-Same : (s t : State V) → Same s t → stop s ≡ stop t
  unfolding stop
  stop-Same s t p =
      let sys =
        run_finalizers-sys_modules s.finalizers s.world
        ∙ p.same_sys
        ∙ sym (run_finalizers-sys_modules t.finalizers t.world) in
      let globals = fun_ext (λ n.
        run_finalizers-globals s.finalizers s.world n
        ∙ p.same_globals n
        ∙ sym (run_finalizers-globals t.finalizers t.world n)) in
      λ i. record { world = record { sys_modules = sys i; globals = globals i }; finalizers = [] }
