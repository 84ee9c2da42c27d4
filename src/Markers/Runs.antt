-- ===== src/Markers/Runs.antt =====
-- When `evaluate_markers` lets a test run.
use pytest_salt_factories.Base.{
  ◌≡◌, refl, sym, ◌∙◌, ap, Bool, false, not, ◌&&◌, Option, none, some, List, [], ◌∷◌, contains,
}
use pytest_salt_factories.Base.Text.{Text, text_eq}
use pytest_salt_factories.Markers.{
  Loaders, Item, Outcome, runs, usage_error, skipped_modules, skipped_states, skipped_service,
  is_available, check_required_loader_attributes, required_names, modules_outcome, states_outcome,
  check_modules, check_states, check_service, and_then, evaluate_markers,
}
use pytest_salt_factories.Markers.Laws.{IsCoherent, check_required-coherent}

abbrev pub requires : Option (List Text) → Text → Bool
requires none x = false
requires (some names) x = contains names x

and_then-runs :
    (r : Loaders × Outcome) (next : Loaders → Loaders × Outcome) (l : Loaders)
    → and_then r next ≡ (l, runs)
    → (r.1 ≡ runs) × (next r.0 ≡ (l, runs))
unfolding and_then
and_then-runs (m, runs) next l h = (refl, h)
and_then-runs (m, usage_error) next l h = cc
and_then-runs (m, skipped_modules missing) next l h = cc
and_then-runs (m, skipped_states missing) next l h = cc
and_then-runs (m, skipped_service reason) next l h = cc

modules_outcome-runs :
    (missing : List Text) (x : Text) → modules_outcome missing ≡ runs → contains missing x ≡ false
unfolding modules_outcome contains
modules_outcome-runs [] x h = refl
modules_outcome-runs (y ∷ missing) x h = cc

states_outcome-runs :
    (missing : List Text) (x : Text) → states_outcome missing ≡ runs → contains missing x ≡ false
unfolding states_outcome contains
states_outcome-runs [] x h = refl
states_outcome-runs (y ∷ missing) x h = cc

check_modules-runs :
    (l : Loaders) (o : Option (List Text)) (x : Text)
    → IsCoherent l.modules l.not_available_modules
    → (check_modules l o).1 ≡ runs
    → (requires o x && not (is_available l.modules x)) ≡ false
unfolding check_modules
check_modules-runs l none x coherent h = cc
check_modules-runs l (some names) x coherent h =
    sym (check_required-coherent l.modules l.not_available_modules names x coherent)
    ∙ modules_outcome-runs
        (check_required_loader_attributes l.modules l.not_available_modules names).not_available x h

check_states-runs :
    (l : Loaders) (o : Option (List Text)) (x : Text)
    → IsCoherent l.states l.not_available_states
    → (check_states l o).1 ≡ runs
    → (requires o x && not (is_available l.states x)) ≡ false
unfolding check_states
check_states-runs l none x coherent h = cc
check_states-runs l (some names) x coherent h =
    sym (check_required-coherent l.states l.not_available_states names x coherent)
    ∙ states_outcome-runs
        (check_required_loader_attributes l.states l.not_available_states names).not_available x h

check_modules-states :
    (l : Loaders) (o : Option (List Text))
    → ((check_modules l o).0.states ≡ l.states)
      × ((check_modules l o).0.not_available_states ≡ l.not_available_states)
unfolding check_modules
check_modules-states l none = (refl, refl)
check_modules-states l (some names) = (refl, refl)

-- If the caches hold no available item and a test is let run, then every module and every state
-- that its markers require is available, and the marker for the system service does not skip it.
pub evaluate_markers-runs :
    (system_service : Bool) (item : Item) (l l' : Loaders) (x : Text)
    → IsCoherent l.modules l.not_available_modules
    → IsCoherent l.states l.not_available_states
    → evaluate_markers system_service item l ≡ (l', runs)
    → ((requires (required_names item.requires_salt_modules) x && not (is_available l.modules x))
        ≡ false)
      × ((requires (required_names item.requires_salt_states) x && not (is_available l.states x))
          ≡ false)
      × (check_service system_service item.skip_on_salt_system_service ≡ runs)
unfolding evaluate_markers
evaluate_markers-runs system_service item l l' x modules_good states_good h =
    let o = required_names item.requires_salt_modules in
    let p = required_names item.requires_salt_states in
    let m = check_modules l o in
    let (m_runs, rest) =
      and_then-runs m
        (λ n.
          and_then (check_states n p)
            (λ k. (k, check_service system_service item.skip_on_salt_system_service)))
        l' h in
    let (s_runs, last) =
      and_then-runs (check_states m.0 p)
        (λ k. (k, check_service system_service item.skip_on_salt_system_service)) l' rest in
    let (same, same_cache) = check_modules-states l o in
    let good : IsCoherent m.0.states m.0.not_available_states = rw (same, same_cache) states_good in
    (
      check_modules-runs l o x modules_good m_runs,
      rw (sym same) (check_states-runs m.0 p x good s_runs),
      ap (λ (q : Loaders × Outcome). q.1) last,
    )
