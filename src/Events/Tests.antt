-- ===== src/Events/Tests.antt =====
-- Runs of the event listener, and its theorems at concrete inputs.
use pytest_salt_factories.Base.{
  ℕ, ◌≤◌, ◌≡◌, refl, ◌⊎◌, true, false, not, ◌&&◌, ◌||◌, some, List, [], ◌∷◌, arith, nat_eq,
  contains, any, add, remove, remove_first, keep_if, length,
}
use pytest_salt_factories.Base.Text.{Text, codes, text_eq, text_methods}
use pytest_salt_factories.Base.Dict.{lookup, insert, erase}
use pytest_salt_factories.Events.{
  Event, event_eq, event_discrete, expired, push, EventListener, Payload, pop_private, make_event,
  call_handler, store_event, process_event_payload, remove_all, cleanup,
  register_auth_event_handler, max_events,
}
use pytest_salt_factories.Events.Fnmatch.{
  parse_ranges, close_at, parse_set, parse_from, any_end, accepts, matches, fnmatch,
}
use pytest_salt_factories.Events.Fnmatch.Laws.{fnmatch-plain, fnmatch-prefix}
use pytest_salt_factories.Events.Query.{
  EventPattern, is_match, in_time, visit_patterns, visit_events, get_events,
}
use pytest_salt_factories.Events.Query.Laws.{is_wanted, contains-get_events, get_events-cleanup}
use pytest_salt_factories.Events.Store.{cleanup-eq-keep_if, Reach-IsBounded, here, next, Step}
use pytest_salt_factories.Events.Retained.{Follows, Run, Run-process_event_payload}
use pytest_salt_factories.Events.Wait.{
  Round, pattern_eq, try_patterns, try_events, returns_true, matched, end_round, rounds,
  wait_for_events,
}
use pytest_salt_factories.Events.Wait.Laws.{
  until_late, seen, wait_for_events-missed, wait_for_events-returns,
}
use mathlib.Core.Option.{bind, map}

program : Unit {0}
unfolding text_methods bind map contains any add remove remove_first keep_if lookup insert erase
    event_eq event_discrete nat_eq expired push pop_private make_event call_handler store_event
    process_event_payload remove_all cleanup register_auth_event_handler parse_ranges close_at
    parse_set parse_from any_end accepts matches fnmatch is_match in_time visit_patterns
    visit_events get_events pattern_eq try_patterns try_events end_round rounds wait_for_events
    until_late
program = tt

match_runs :
    (fnmatch (codes "salt/job/12/new") (codes "salt/job/*/ne?") ≡ true)
    × (fnmatch (codes "a5") (codes "a[0-9]") ≡ true)
    × (fnmatch (codes "ax") (codes "a[!0-9]") ≡ true)
    × (fnmatch (codes "a[") (codes "a[") ≡ true)
    × (fnmatch (codes "salt/auth") (codes "salt") ≡ false)
unfolding program
match_runs = (refl, refl, refl, refl, refl)

plain_pattern : fnmatch (codes "salt/auth") (codes "salt/auth") ≡ true
unfolding program
plain_pattern = fnmatch-plain (codes "salt/auth") (codes "salt/auth") refl

star_pattern : fnmatch (codes "salt/auth") (codes "salt/*") ≡ true
unfolding program
star_pattern = fnmatch-prefix (codes "salt/auth") (codes "salt/") refl

-- Values are numbers, and a stamp is its number.
abbrev payload : Payload ℕ
payload = record {
  id = some (codes "m");
  tag = some (codes "salt/auth");
  data_ = some ((codes "_stamp", 5) ∷ (codes "act", 1) ∷ []);
}

abbrev listener : EventListener ℕ Text
listener = record {
  timeout = 120;
  store = [];
  auth_event_handlers = (codes "m", codes "accept") ∷ [];
  calls = [];
}

abbrev auth_event : Event ℕ
auth_event = record {
  daemon_id = codes "m";
  tag = codes "salt/auth";
  stamp = 5;
  data_ = (codes "act", 1) ∷ [];
  full_data = (codes "_stamp", 5) ∷ (codes "act", 1) ∷ [];
  expire_seconds = 120;
}

run-payload : process_event_payload (λ v. some v) listener payload ≡ record listener {
  store = auth_event ∷ [];
  calls = (codes "accept", (codes "act", 1) ∷ []) ∷ [];
}
unfolding program
run-payload = refl

Reach-IsBounded_holds :
    length (process_event_payload (λ v. some v) listener payload).store ≤ max_events
Reach-IsBounded_holds =
    Reach-IsBounded (λ v. some v) {l = listener} (next here (Step.receive payload)) (omega arith)

made : make_event (λ v. some v) 120 payload ≡ some auth_event
unfolding program
made = refl

abbrev received : EventListener ℕ Text
received = process_event_payload (λ v. some v) listener payload

-- Another payload, and a pass of the cleanup.
abbrev later : EventListener ℕ Text
later = process_event_payload (λ v. some v) received payload

abbrev cleaned : EventListener ℕ Text
cleaned = record later { store = cleanup 7 later.store }

cleaned-Run : Run (λ v. some v) auth_event received 1 cleaned
cleaned-Run = Run.clean 7 (omega arith) (Run.receive payload Run.here)

Run-process_event_payload_example : Follows 1 auth_event cleaned.store
Run-process_event_payload_example =
    Run-process_event_payload (λ v. some v) listener payload auth_event made cleaned-Run
      (omega arith)

abbrev patterns : List EventPattern
patterns = (codes "m", codes "salt/*") ∷ (codes "n", codes "x") ∷ []

contains-get_events_example :
    contains (get_events 7 0 patterns (auth_event ∷ [])) auth_event
    ≡ (contains (auth_event ∷ []) auth_event && is_wanted 7 0 patterns auth_event)
contains-get_events_example = contains-get_events 7 0 patterns (auth_event ∷ []) auth_event

run-get : get_events 7 0 patterns (auth_event ∷ []) ≡ auth_event ∷ []
unfolding program
run-get = refl

get_events-cleanup_holds :
    contains (get_events 7 0 patterns (cleanup 6 (auth_event ∷ []))) auth_event
    ≡ contains (get_events 7 0 patterns (auth_event ∷ [])) auth_event
get_events-cleanup_holds =
    get_events-cleanup 6 7 0 patterns (auth_event ∷ []) auth_event (omega arith)

cleanup-eq-keep_if_holds :
    cleanup 200000000 (auth_event ∷ []) ≡ keep_if (λ e. not (expired 200000000 e)) (auth_event ∷ [])
cleanup-eq-keep_if_holds = cleanup-eq-keep_if 200000000 (auth_event ∷ [])

abbrev two_rounds : List (Round ℕ)
two_rounds =
    record { store = []; now = 1; after = 2 }
    ∷ record { store = auth_event ∷ []; now = 7; after = 20 }
    ∷ []

run-wait :
    wait_for_events 0 10 two_rounds patterns
    ≡ matched (auth_event ∷ []) ((codes "n", codes "x") ∷ [])
unfolding program
run-wait = refl

abbrev wanted : EventPattern
wanted = (codes "m", codes "salt/*")

wait_for_events-missed_example :
    (contains ((codes "n", codes "x") ∷ []) wanted
      ≡ (contains patterns wanted && not (any (seen 0 wanted) (until_late 10 two_rounds))))
    × ((not (contains patterns wanted)
          || (contains ((codes "n", codes "x") ∷ []) wanted
              || any (λ e. is_match e wanted) (auth_event ∷ [])))
        ≡ true)
wait_for_events-missed_example =
    wait_for_events-missed 0 10 two_rounds patterns (auth_event ∷ []) ((codes "n", codes "x") ∷ [])
      wanted run-wait

wait_for_events-returns_example :
    ((patterns ≡ []) × (wait_for_events 0 10 two_rounds patterns ≡ returns_true))
    ⊎ ((matches : List (Event ℕ)) × (missed : List EventPattern) × (wait_for_events 0 10 two_rounds
            patterns
          ≡ matched matches missed))
unfolding program
wait_for_events-returns_example = wait_for_events-returns 0 10 two_rounds patterns refl
