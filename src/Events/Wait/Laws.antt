-- ===== src/Events/Wait/Laws.antt =====
-- What `wait_for_events` returns.
use pytest_salt_factories.Base.{
  ℕ, ◌≡◌, ◌⊎◌, refl, ◌∙◌, Bool, true, false, not, ◌&&◌, ◌||◌, List, [], ◌∷◌, Eq, arith, ltb,
  contains, contains-remove, any, any-add, if◌then◌else◌, Bool-cases, inl, inr,
}
use pytest_salt_factories.Base.Text.{text_eq}
use pytest_salt_factories.Events.{Event, event_eq}
use pytest_salt_factories.Events.Query.{EventPattern, is_match, in_time}
use pytest_salt_factories.Events.Wait.{
  Round, Progress, pattern_eq, try_patterns, try_events, returns_true, matched, is_empty, end_round,
  rounds, wait_for_events,
}

not-contains_of_empty :
    (p : EventPattern) (ps : List EventPattern) → is_empty ps ≡ true → contains ps p ≡ false
unfolding contains
not-contains_of_empty p [] h = refl
not-contains_of_empty p (q ∷ ps) h = cc

module _ {V : Type 0} ⦃v : Eq V⦄ where
  patterns-try_patterns :
      (e : Event V) (copy : List EventPattern) (s : Progress V) (p : EventPattern)
      → contains (try_patterns e copy s).patterns p
        ≡ (contains s.patterns p && not (contains copy p && is_match e p))
  unfolding try_patterns contains
  patterns-try_patterns e [] s p = ground arith
  patterns-try_patterns e (q ∷ copy) s p =
      patterns-try_patterns e copy _ p ∙ ground (arith, contains-remove q p s.patterns)

  -- An event that counts at a time, for one pattern.
  abbrev hits : ℕ → ℕ → EventPattern → Event V → Bool
  hits now after_time p e = in_time now after_time e && is_match e p

  patterns-try_events :
      (now after_time : ℕ) (store : List (Event V)) (s : Progress V) (p : EventPattern)
      → contains (try_events now after_time store s).patterns p
        ≡ (contains s.patterns p && not (any (hits now after_time p) store))
  unfolding try_events any
  patterns-try_events now after_time [] s p = ground arith
  patterns-try_events now after_time (e ∷ store) s p =
      patterns-try_events now after_time store _ p
      ∙ ground (arith, patterns-try_patterns e s.patterns s p)

  -- The pattern still waits, or a found event matches it.
  abbrev covered : EventPattern → Progress V → Bool
  covered p s = contains s.patterns p || any (λ e. is_match e p) s.found

  covered-try_patterns :
      (e : Event V) (copy : List EventPattern) (s : Progress V) (p : EventPattern)
      → covered p s ≡ true
      → covered p (try_patterns e copy s) ≡ true
  unfolding try_patterns
  covered-try_patterns e [] s p h = h
  covered-try_patterns e (q ∷ copy) s p h =
      covered-try_patterns e copy _ p
        (ground (arith, h, contains-remove q p s.patterns, any-add (λ x. is_match x p) e s.found))

  covered-try_events :
      (now after_time : ℕ) (store : List (Event V)) (s : Progress V) (p : EventPattern)
      → covered p s ≡ true
      → covered p (try_events now after_time store s) ≡ true
  unfolding try_events
  covered-try_events now after_time [] s p h = h
  covered-try_events now after_time (e ∷ store) s p h =
      covered-try_events now after_time store _ p
        (ground (arith, h, covered-try_patterns e s.patterns s p))

  -- The rounds up to the first one that ends past the deadline.
  unfoldable pub until_late : ℕ → List (Round V) → List (Round V)
  until_late timeout_at [] = []
  until_late timeout_at (r ∷ rs) =
      let rest = until_late timeout_at rs in if ltb timeout_at r.after then r ∷ [] else r ∷ rest

  -- Some event of a round's snapshot counts for the pattern.
  abbrev pub seen : ℕ → EventPattern → Round V → Bool
  seen after_time p r = any (hits r.now after_time p) r.store

  rounds-missed :
      (after_time timeout_at : ℕ) (rs : List (Round V)) (s : Progress V) (p : EventPattern)
      (matches : List (Event V)) (missed : List EventPattern)
      → rounds after_time timeout_at rs s ≡ matched matches missed
      → contains missed p
        ≡ (contains s.patterns p && not (any (seen after_time p) (until_late timeout_at rs)))
  unfolding rounds end_round until_late any
  rounds-missed after_time timeout_at [] s p matches missed h = cc
  rounds-missed after_time timeout_at (r ∷ rs) s p matches missed h =
      let s' = try_events r.now after_time r.store s in
      ground (
        arith,
        h,
        patterns-try_events r.now after_time r.store s p,
        not-contains_of_empty p s'.patterns,
        rounds-missed after_time timeout_at rs s' p matches missed,
      )

  rounds-covered :
      (after_time timeout_at : ℕ) (rs : List (Round V)) (s : Progress V) (p : EventPattern)
      (matches : List (Event V)) (missed : List EventPattern)
      → rounds after_time timeout_at rs s ≡ matched matches missed
      → covered p s ≡ true
      → (contains missed p || any (λ e. is_match e p) matches) ≡ true
  unfolding rounds end_round
  rounds-covered after_time timeout_at [] s p matches missed h k = cc
  rounds-covered after_time timeout_at (r ∷ rs) s p matches missed h k =
      let s' = try_events r.now after_time r.store s in
      ground (
        arith,
        h,
        covered-try_events r.now after_time r.store s p k,
        rounds-covered after_time timeout_at rs s' p matches missed,
      )

  rounds-ends :
      (after_time timeout_at : ℕ) (rs : List (Round V)) (s : Progress V)
      → any (λ r. ltb timeout_at r.after) rs ≡ true
      → (matches : List (Event V)) × (missed : List EventPattern) × (rounds after_time timeout_at rs
            s
          ≡ matched matches missed)
  unfolding rounds end_round any
  rounds-ends after_time timeout_at [] s h = cc
  rounds-ends after_time timeout_at (r ∷ rs) s h =
      let s' = try_events r.now after_time r.store s in
      elim (Bool-cases (is_empty s'.patterns || ltb timeout_at r.after)) [
        | inl last ↦ (s'.found, s'.patterns, ground (arith, last))
        | inr more ↦
            let (matches, missed, e) =
              rounds-ends after_time timeout_at rs s' (ground (arith, h, more)) in
            (matches, missed, ground (arith, more, e))
      ]

  -- A call that returns a `MatchedEvents` misses exactly the patterns for which no event counted in
  -- the snapshots of the rounds up to the deadline, and every other pattern has a matching event
  -- among the matches.
  pub wait_for_events-missed :
      (after_time timeout_at : ℕ) (rs : List (Round V)) (patterns : List EventPattern)
      (matches : List (Event V)) (missed : List EventPattern) (p : EventPattern)
      → wait_for_events after_time timeout_at rs patterns ≡ matched matches missed
      → (contains missed p
          ≡ (contains patterns p && not (any (seen after_time p) (until_late timeout_at rs))))
        × ((not (contains patterns p) || (contains missed p || any (λ e. is_match e p) matches))
            ≡ true)
  unfolding wait_for_events
  wait_for_events-missed after_time timeout_at rs [] matches missed p h = cc
  wait_for_events-missed after_time timeout_at rs (q ∷ patterns) matches missed p h =
      let s : Progress V = record { found = []; patterns = q ∷ patterns } in
      (
        rounds-missed after_time timeout_at rs s p matches missed h,
        ground (arith, rounds-covered after_time timeout_at rs s p matches missed h),
      )

  -- As soon as some round ends past the deadline, the call has returned: with `True` if no pattern
  -- was given, and with a `MatchedEvents` otherwise.
  pub wait_for_events-returns :
      (after_time timeout_at : ℕ) (rs : List (Round V)) (patterns : List EventPattern)
      → any (λ r. ltb timeout_at r.after) rs ≡ true
      → ((patterns ≡ []) × (wait_for_events after_time timeout_at rs patterns ≡ returns_true))
        ⊎ ((matches : List (Event V)) × (missed : List EventPattern) × (wait_for_events after_time
                timeout_at rs patterns
              ≡ matched matches missed))
  unfolding wait_for_events
  wait_for_events-returns after_time timeout_at rs [] h = inl (refl, refl)
  wait_for_events-returns after_time timeout_at rs (q ∷ patterns) h =
      inr (rounds-ends after_time timeout_at rs _ h)
