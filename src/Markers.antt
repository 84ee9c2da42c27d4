-- ===== src/Markers.antt =====
-- src/saltfactories/utils/markers.py: the markers that skip a test, over the functions that the
-- loaders of a Salt installation offer. A cached set that is not made yet is the empty one.
pub mod Laws
pub mod Runs
mod Tests
use pytest_salt_factories.Base.{
  Bool, true, false, not, Option, none, some, List, [], ◌∷◌, ◌++◌, ◌==◌, nat_eq, add, remove,
  contains, any, if◌then◌else◌,
}
use pytest_salt_factories.Base.Text.{Text, codes, text_eq}
use pytest_salt_factories.Base.Dict.{Dict, lookup, erase}
use pytest_salt_factories.Events.Fnmatch.{fnmatch}

-- `not_available_items`, and the items still required or the cached set.
pub record Missing : Type 0 where
  pub not_available : List Text
  pub items : List Text

-- `if not_available_item in required_salt_items`, for each cached item.
unfoldable pub take_cached : List Text → Missing → Missing
take_cached [] s = s
take_cached (item ∷ cached) s = take_cached cached (
    if contains s.items item
    then record { not_available = add item s.not_available; items = remove item s.items }
    else s)

-- A name without a dot is a module.
unfoldable pub search_name : Text → Text
search_name name = if contains name b'.' then name else name ++ codes ".*"

unfoldable pub is_available : List Text → Text → Bool
is_available available name = any (λ item. fnmatch item (search_name name)) available

-- The items that are searched for; `items` is the cached set.
unfoldable pub search : List Text → List Text → Missing → Missing
search available [] s = s
search available (name ∷ required) s = search available required (
    if is_available available name
    then s
    else record { not_available = add name s.not_available; items = add name s.items })

-- `check_required_loader_attributes`: the items that are not available, and the cached set.
unfoldable pub check_required_loader_attributes : List Text → List Text → List Text → Missing
check_required_loader_attributes available cached required =
    let known = take_cached cached (record { not_available = []; items = required }) in
    search available known.items (record { not_available = known.not_available; items = cached })

-- An argument that is no text is `none`.
pub record Marker : Type 0 where
  pub args : List (Option Text)
  pub kwargs : Dict Text (Option Text)

pub record Item : Type 0 where
  pub requires_salt_modules : Option Marker
  pub requires_salt_states : Option Marker
  pub skip_on_salt_system_service : Option Marker

-- What the loaders offer, and the cached sets.
pub record Loaders : Type 0 where
  pub modules : List Text
  pub states : List Text
  pub not_available_modules : List Text
  pub not_available_states : List Text

pub data Outcome : Type 0 where
  runs usage_error : Outcome
  skipped_modules skipped_states : (not_available : List Text) → Outcome
  skipped_service : (reason : Text) → Outcome

unfoldable pub texts_of : List (Option Text) → Option (List Text)
texts_of [] = some []
texts_of (none ∷ args) = none
texts_of (some arg ∷ args) = elim (texts_of args) [ none ↦ none | some rest ↦ some (arg ∷ rest) ]

unfoldable pub names_of : List (Option Text) → Dict Text (Option Text) → Option (List Text)
names_of args (k ∷ kwargs) = none
names_of [] [] = none
names_of (arg ∷ args) [] = texts_of (arg ∷ args)

-- The names that a marker requires: `none` for a usage error, and no name without the marker.
unfoldable pub required_names : Option Marker → Option (List Text)
required_names none = some []
required_names (some marker) = names_of marker.args marker.kwargs

-- `if not_available_modules: raise`
unfoldable pub modules_outcome : List Text → Outcome
modules_outcome [] = runs
modules_outcome (x ∷ xs) = skipped_modules (x ∷ xs)

unfoldable pub states_outcome : List Text → Outcome
states_outcome [] = runs
states_outcome (x ∷ xs) = skipped_states (x ∷ xs)

unfoldable pub check_modules : Loaders → Option (List Text) → Loaders × Outcome
check_modules l none = (l, usage_error)
check_modules l (some names) =
    let found = check_required_loader_attributes l.modules l.not_available_modules names in
    (record l { not_available_modules = found.items }, modules_outcome found.not_available)

unfoldable pub check_states : Loaders → Option (List Text) → Loaders × Outcome
check_states l none = (l, usage_error)
check_states l (some names) =
    let found = check_required_loader_attributes l.states l.not_available_states names in
    (record l { not_available_states = found.items }, states_outcome found.not_available)

abbrev pub default_reason : Text
default_reason = codes "Test should not run against system install of Salt"

-- `kwargs.pop("reason", None)`, or the default.
unfoldable pub reason_of : Dict Text (Option Text) → Text
reason_of kwargs = elim (lookup (codes "reason") kwargs) [
  | none ↦ default_reason
  | some none ↦ default_reason
  | some (some reason) ↦ reason
]

unfoldable pub service_with : Bool → List (Option Text) → Dict Text (Option Text) → Outcome
service_with system_service (arg ∷ args) kwargs = usage_error
service_with system_service [] kwargs = elim (erase (codes "reason") kwargs) [
  | [] ↦ if system_service then skipped_service (reason_of kwargs) else runs
  | k ∷ rest ↦ usage_error
]

unfoldable pub check_service : Bool → Option Marker → Outcome
check_service system_service none = runs
check_service system_service (some marker) = service_with system_service marker.args marker.kwargs

-- The next check, unless an exception is raised.
unfoldable pub and_then : Loaders × Outcome → (Loaders → Loaders × Outcome) → Loaders × Outcome
and_then (l, runs) next = next l
and_then (l, usage_error) next = (l, usage_error)
and_then (l, skipped_modules missing) next = (l, skipped_modules missing)
and_then (l, skipped_states missing) next = (l, skipped_states missing)
and_then (l, skipped_service reason) next = (l, skipped_service reason)

-- `evaluate_markers`
unfoldable pub evaluate_markers : Bool → Item → Loaders → Loaders × Outcome
evaluate_markers system_service item l =
    and_then (check_modules l (required_names item.requires_salt_modules)) (λ l'.
      and_then (check_states l' (required_names item.requires_salt_states))
        (λ l''. (l'', check_service system_service item.skip_on_salt_system_service)))
