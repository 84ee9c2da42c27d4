-- ===== src/Events/Query/Laws.antt =====
-- `get_events` returns the events that are asked for, and cleaning up loses none of them.
use pytest_salt_factories.Base.{
  ℕ, ◌≤◌, ◌≡◌, Bool, not, ◌&&◌, ◌||◌, List, [], ◌∷◌, Eq, ◌==◌, contains, contains-add,
  contains-keep_if, any, arith,
}
use pytest_salt_factories.Events.{Event, event_eq, expired, cleanup}
use pytest_salt_factories.Events.Store.{cleanup-eq-keep_if}
use pytest_salt_factories.Events.Query.{
  EventPattern, is_match, in_time, visit_patterns, visit_events, get_events,
}

module _ {V : Type 0} ⦃v : Eq V⦄ where
  contains-visit_patterns :
      (e b : Event V) (patterns : List EventPattern) (found : List (Event V))
      → contains (visit_patterns e patterns found) b
        ≡ (contains found b || (b == e && any (is_match e) patterns))
  unfolding visit_patterns any
  contains-visit_patterns e b [] found = ground arith
  contains-visit_patterns e b (p ∷ patterns) found =
      rw (contains-visit_patterns e b patterns) (ground (arith, contains-add e b found))

  -- What an event has to be in order to be returned.
  abbrev pub is_wanted : ℕ → ℕ → List EventPattern → Event V → Bool
  is_wanted now after_time patterns e = in_time now after_time e && any (is_match e) patterns

  contains-visit_events :
      (now after_time : ℕ) (patterns : List EventPattern) (store found : List (Event V))
      (b : Event V)
      → contains (visit_events now after_time patterns store found) b
        ≡ (contains found b || (contains store b && is_wanted now after_time patterns b))
  unfolding visit_events contains
  contains-visit_events now after_time patterns [] found b = ground arith
  contains-visit_events now after_time patterns (e ∷ store) found b =
      rw (contains-visit_events now after_time patterns store)
        (ground (arith, contains-visit_patterns e b patterns found))

  -- `get_events` returns exactly the events of the store that have not expired, are not older than
  -- the time asked for, and match one of the patterns.
  pub contains-get_events :
      (now after_time : ℕ) (patterns : List EventPattern) (store : List (Event V)) (e : Event V)
      → contains (get_events now after_time patterns store) e
        ≡ (contains store e && is_wanted now after_time patterns e)
  unfolding get_events contains
  contains-get_events now after_time patterns store e =
      contains-visit_events now after_time patterns store [] e

  -- A cleanup at an earlier time, or at the same, changes nothing of what `get_events` returns.
  pub get_events-cleanup :
      (before now after_time : ℕ) (patterns : List EventPattern) (store : List (Event V))
      (e : Event V)
      → before ≤ now
      → contains (get_events now after_time patterns (cleanup before store)) e
        ≡ contains (get_events now after_time patterns store) e
  unfolding in_time expired
  get_events-cleanup before now after_time patterns store e h =
      let kept = cleanup-eq-keep_if before store in
      rw (contains-get_events now after_time patterns (cleanup before store) e, kept)
        (ground (
          arith,
          contains-get_events now after_time patterns store e,
          contains-keep_if (λ x. not (expired before x)) e store,
        ))
