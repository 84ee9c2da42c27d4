-- ===== src/Events/Query.antt =====
-- `EventListener.get_events`: one pass over the store.
pub mod Laws
use pytest_salt_factories.Base.{
  ℕ, Bool, true, false, not, ◌&&◌, ◌||◌, List, [], ◌∷◌, Eq, ◌==◌, ltb, add, any, if◌then◌else◌,
}
use pytest_salt_factories.Base.Text.{Text, text_eq}
use pytest_salt_factories.Events.{Event, event_eq, expired}
use pytest_salt_factories.Events.Fnmatch.{fnmatch}

-- A pair of a daemon's name and a pattern for the tag.
abbrev pub EventPattern : Type 0
EventPattern = Text × Text

unfoldable pub is_match : {V : Type 0} → Event V → EventPattern → Bool
is_match e (daemon_id, pattern) = e.daemon_id == daemon_id && fnmatch e.tag pattern

-- Not too old, and not before the time asked for.
unfoldable pub in_time : {V : Type 0} → ℕ → ℕ → Event V → Bool
in_time now after_time e = not (expired now e) && not (ltb e.stamp after_time)

module _ {V : Type 0} ⦃v : Eq V⦄ where
  -- `for pattern in set(patterns)`
  unfoldable pub visit_patterns : Event V → List EventPattern → List (Event V) → List (Event V)
  visit_patterns e [] found = found
  visit_patterns e (p ∷ patterns) found =
      visit_patterns e patterns (if is_match e p then add e found else found)

  unfoldable pub visit_events :
      ℕ → ℕ → List EventPattern → List (Event V) → List (Event V) → List (Event V)
  visit_events now after_time patterns [] found = found
  visit_events now after_time patterns (e ∷ store) found =
      visit_events now after_time patterns store
        (if in_time now after_time e then visit_patterns e patterns found else found)

  -- `get_events(patterns, after_time)` at the time `now`.
  unfoldable pub get_events : ℕ → ℕ → List EventPattern → List (Event V) → List (Event V)
  get_events now after_time patterns store = visit_events now after_time patterns store []
