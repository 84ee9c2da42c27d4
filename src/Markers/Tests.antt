-- ===== src/Markers/Tests.antt =====
-- Concrete loaders and markers.
use pytest_salt_factories.Base.{
  ◌≡◌, refl, true, false, not, ◌&&◌, ◌||◌, none, some, List, [], ◌∷◌, nat_eq, contains, any, add,
  remove,
}
use pytest_salt_factories.Base.Text.{Text, codes, text_eq, text_methods}
use pytest_salt_factories.Base.Dict.{lookup, erase}
use pytest_salt_factories.Events.Fnmatch.{
  parse_ranges, close_at, parse_set, parse_from, any_end, accepts, matches, fnmatch,
}
use pytest_salt_factories.Markers.{
  take_cached, search_name, is_available, search, check_required_loader_attributes, Marker, Item,
  Loaders, runs, skipped_modules, skipped_service, texts_of, names_of, required_names,
  modules_outcome, states_outcome, check_modules, check_states, reason_of, service_with,
  check_service, and_then, evaluate_markers,
}
use pytest_salt_factories.Markers.Laws.{
  check_required_loader_attributes_lem, IsCoherent, check_required-IsCoherent,
}
use pytest_salt_factories.Markers.Runs.{requires, evaluate_markers-runs}

program : Unit {0}
unfolding text_methods nat_eq contains any add remove lookup erase parse_ranges close_at parse_set
    parse_from any_end accepts matches fnmatch take_cached search_name is_available search
    check_required_loader_attributes texts_of names_of required_names modules_outcome states_outcome
    check_modules check_states reason_of service_with check_service and_then evaluate_markers
program = tt

abbrev modules : List Text
modules = codes "test.ping" ∷ codes "cmd.run" ∷ []

abbrev loaders : Loaders
loaders = record {
  modules = modules;
  states = codes "file.managed" ∷ [];
  not_available_modules = [];
  not_available_states = [];
}

abbrev marker_of : Text → Marker
marker_of name = record { args = some name ∷ []; kwargs = [] }

abbrev item : Item
item = record {
  requires_salt_modules = some (marker_of (codes "cmd"));
  requires_salt_states = none;
  skip_on_salt_system_service = some (record { args = []; kwargs = [] });
}

run-runs : evaluate_markers false item loaders ≡ (loaders, runs)
unfolding program
run-runs = refl

run-skips :
    (evaluate_markers true item loaders).1
    ≡ skipped_service (codes "Test should not run against system install of Salt")
unfolding program
run-skips = refl

run-missing :
    (evaluate_markers false
      (record item { requires_salt_modules = some (marker_of (codes "nope")) })
      loaders).1
    ≡ skipped_modules (codes "nope" ∷ [])
unfolding program
run-missing = refl

no_cache : (available : List Text) → IsCoherent available []
unfolding contains
no_cache available x = refl

evaluate_markers-runs_example :
    ((requires (required_names item.requires_salt_modules) (codes "cmd")
        && not (is_available loaders.modules (codes "cmd")))
      ≡ false)
    × ((requires (required_names item.requires_salt_states) (codes "cmd")
          && not (is_available loaders.states (codes "cmd")))
        ≡ false)
    × (check_service false item.skip_on_salt_system_service ≡ runs)
evaluate_markers-runs_example =
    evaluate_markers-runs false item loaders loaders (codes "cmd") (no_cache modules)
      (no_cache (codes "file.managed" ∷ [])) run-runs

abbrev asked : List Text
asked = codes "cmd" ∷ codes "nope" ∷ []

check_required_loader_attributes_lem_holds :
    (contains (check_required_loader_attributes modules [] asked).not_available (codes "nope") ≡ (
      contains asked (codes "nope")
      && (contains [] (codes "nope") || not (is_available modules (codes "nope")))))
    × (contains (check_required_loader_attributes modules [] asked).items (codes "nope") ≡ (
        contains [] (codes "nope")
        || (contains asked (codes "nope") && not (is_available modules (codes "nope")))))
check_required_loader_attributes_lem_holds =
    check_required_loader_attributes_lem modules [] asked (codes "nope")

check_required-IsCoherent_holds :
    IsCoherent modules (check_required_loader_attributes modules [] asked).items
check_required-IsCoherent_holds = check_required-IsCoherent modules [] asked (no_cache modules)
