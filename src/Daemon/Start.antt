-- ===== src/Daemon/Start.antt =====
-- The check of the start events.
use pytest_salt_factories.Base.{
  ℕ, ◌≡◌, refl, sym, ◌∙◌, Bool, true, false, not, ◌&&◌, some, List, [], ◌∷◌, ◌==◌, Eq, arith,
  remove, contains, contains-remove, any, any-contains, ltb, Bool-cases, ◌⊎◌, inl, inr,
}
use pytest_salt_factories.Base.Text.{text_eq}
use pytest_salt_factories.Events.{Event, event_eq}
use pytest_salt_factories.Events.Query.{EventPattern, in_time, get_events}
use pytest_salt_factories.Events.Query.Laws.{is_wanted, contains-get_events}
use pytest_salt_factories.Events.Wait.{pattern_eq, is_empty}
use pytest_salt_factories.Daemon.{
  Check, StartCheck, confirmed, timed_out, factory_not_started, pattern_of, remove_found,
  next_check, check_rounds, check_start_events,
}

any-find :
    {A : Type 0} ⦃e : Eq A⦄ (f : A → Bool) (xs : List A)
    → any f xs ≡ true
    → (x : A) × (contains xs x ≡ true) × (f x ≡ true)
unfolding any contains
any-find f [] h = cc
any-find f (x ∷ xs) h = elim (Bool-cases (f x)) [
  | inl here ↦ (x, ground arith, here)
  | inr away ↦
      let (y, found, good) = any-find f xs (ground (arith, h, away)) in
      (y, ground (arith, found), good)
]

contains-is_empty :
    (xs : List EventPattern) (p : EventPattern) → is_empty xs ≡ true → contains xs p ≡ false
unfolding contains
contains-is_empty [] p h = refl
contains-is_empty (x ∷ xs) p h = cc

next_check-confirmed :
    (late is_running : Bool) (check_events : List EventPattern) (rest : StartCheck)
    → next_check late is_running check_events rest ≡ confirmed
    → (is_empty check_events ≡ true) ⊎ (rest ≡ confirmed)
unfolding next_check
next_check-confirmed true is_running check_events rest h = cc
next_check-confirmed false false check_events rest h = cc
next_check-confirmed false true [] rest h = inl refl
next_check-confirmed false true (x ∷ xs) rest h = inr h

-- The check is over.
abbrev pub IsOver : StartCheck → Type 0
IsOver s = (s ≡ confirmed) ⊎ ((s ≡ timed_out) ⊎ (s ≡ factory_not_started))

next_check-IsOver :
    (late is_running : Bool) (check_events : List EventPattern) (rest : StartCheck)
    → (late ≡ true) ⊎ IsOver rest
    → IsOver (next_check late is_running check_events rest)
unfolding next_check
next_check-IsOver true is_running check_events rest h = inr (inl refl)
next_check-IsOver false false check_events rest h = inr (inr refl)
next_check-IsOver false true [] rest h = inl refl
next_check-IsOver false true (x ∷ xs) rest (inl absurd) = cc
next_check-IsOver false true (x ∷ xs) rest (inr over) = over

module _ {V : Type 0} ⦃v : Eq V⦄ where
  abbrev pub is_of : EventPattern → Event V → Bool
  is_of p e = p == pattern_of e

  contains-remove_found :
      (found : List (Event V)) (check_events : List EventPattern) (p : EventPattern)
      → contains (remove_found found check_events) p
        ≡ (contains check_events p && not (any (is_of p) found))
  unfolding remove_found any
  contains-remove_found [] check_events p = ground arith
  contains-remove_found (e ∷ found) check_events p = ground (
    arith,
    contains-remove_found found (remove (pattern_of e) check_events) p,
    contains-remove (pattern_of e) p check_events,
  )

  -- An event that is in the store of a round, in time, and of just this daemon and tag.
  abbrev pub is_seen : ℕ → EventPattern → Check V → Bool
  is_seen started_at p r = any (λ e. is_of p e && in_time r.now started_at e) r.store

  found-is_seen :
      (started_at : ℕ) (p : EventPattern) (check_events : List EventPattern) (r : Check V)
      → any (is_of p) (get_events r.now started_at check_events r.store) ≡ true
      → is_seen started_at p r ≡ true
  found-is_seen started_at p check_events r h =
      let (e, found, same) =
        any-find (is_of p) (get_events r.now started_at check_events r.store) h in
      let wanted : (contains r.store e && is_wanted r.now started_at check_events e) ≡ true =
        sym (contains-get_events r.now started_at check_events r.store e) ∙ found in
      any-contains (λ x. is_of p x && in_time r.now started_at x) e r.store (ground (arith, wanted))
        (ground (arith, wanted, same))

  check_rounds-confirmed :
      (started_at timeout_at : ℕ) (rs : List (Check V)) (check_events : List EventPattern)
      (p : EventPattern)
      → check_rounds started_at timeout_at rs check_events ≡ confirmed
      → contains check_events p ≡ true
      → any (is_seen started_at p) rs ≡ true
  unfolding check_rounds any
  check_rounds-confirmed started_at timeout_at [] check_events p h k = cc
  check_rounds-confirmed started_at timeout_at (r ∷ rs) check_events p h k =
      let found = get_events r.now started_at check_events r.store in
      let tail = check_rounds started_at timeout_at rs (remove_found found check_events) in
      elim (next_check-confirmed (ltb timeout_at r.clock) r.is_running check_events tail h) [
        | inl none_left ↦ cc (contains-is_empty check_events p none_left)
        | inr confirms ↦ elim (Bool-cases (any (is_of p) found)) [
          | inl here ↦ ground (arith, found-is_seen started_at p check_events r here)
          | inr away ↦
              let still : contains (remove_found found check_events) p ≡ true =
                ground (arith, contains-remove_found found check_events p, k, away) in
              ground (
                arith,
                check_rounds-confirmed started_at timeout_at rs (remove_found found check_events) p
                    confirms still,
              )
        ]
      ]

  check_rounds-IsOver :
      (started_at timeout_at : ℕ) (rs : List (Check V)) (check_events : List EventPattern)
      → any (λ r. ltb timeout_at r.clock) rs ≡ true
      → IsOver (check_rounds started_at timeout_at rs check_events)
  unfolding check_rounds any
  check_rounds-IsOver started_at timeout_at [] check_events h = cc
  check_rounds-IsOver started_at timeout_at (r ∷ rs) check_events h =
      let next_events =
        remove_found (get_events r.now started_at check_events r.store) check_events in
      let tail = check_rounds started_at timeout_at rs next_events in
      next_check-IsOver (ltb timeout_at r.clock) r.is_running check_events tail
        (elim (Bool-cases (ltb timeout_at r.clock)) [
          | inl late ↦ inl late
          | inr early ↦
              inr (
                check_rounds-IsOver started_at timeout_at rs next_events (ground (arith, h, early)))
        ])

  -- A daemon with an event listener counts as started only if each of the events to check was in the
  -- store at some round, not expired and not from before the start, with just that daemon and tag.
  pub check_start_events-confirmed :
      (started_at timeout_at : ℕ) (rs : List (Check V)) (check_events : List EventPattern)
      (p : EventPattern)
      → check_start_events started_at timeout_at (some rs) check_events ≡ confirmed
      → contains check_events p ≡ true
      → any (is_seen started_at p) rs ≡ true
  unfolding check_start_events contains
  check_start_events-confirmed started_at timeout_at rs [] p h k = cc
  check_start_events-confirmed started_at timeout_at rs (q ∷ check_events) p h k =
      check_rounds-confirmed started_at timeout_at rs (q ∷ check_events) p h k

  -- When the clock of some round is past the timeout, the check is over by then: confirmed, timed
  -- out, or with the daemon found dead.
  pub check_start_events-IsOver :
      (started_at timeout_at : ℕ) (rs : List (Check V)) (check_events : List EventPattern)
      → any (λ r. ltb timeout_at r.clock) rs ≡ true
      → IsOver (check_start_events started_at timeout_at (some rs) check_events)
  unfolding check_start_events
  check_start_events-IsOver started_at timeout_at rs [] h = inl refl
  check_start_events-IsOver started_at timeout_at rs (q ∷ check_events) h =
      check_rounds-IsOver started_at timeout_at rs (q ∷ check_events) h
