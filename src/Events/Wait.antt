-- ===== src/Events/Wait.antt =====
-- `EventListener.wait_for_events`. Each round of its loop sees a snapshot of the store and two
-- readings of the clock, which the environment gives: `now` while the store is read, and `after`.
pub mod Laws
use pytest_salt_factories.Base.{
  ℕ, Bool, true, false, List, [], ◌∷◌, Eq, ltb, add, remove, if◌then◌else◌,
}
use pytest_salt_factories.Base.Text.{Text, text_eq}
use pytest_salt_factories.Events.{Event, event_eq}
use pytest_salt_factories.Events.Query.{EventPattern, is_match, in_time}

instance unfoldable pub pattern_eq : Eq EventPattern
pattern_eq = record { dec = hlevel text_eq.dec }

pub record Round (V : Type 0) : Type 0 where
  pub store : List (Event V)
  pub now : ℕ
  pub after : ℕ

-- `found_events` and `patterns`
pub record Progress (V : Type 0) : Type 0 where
  pub found : List (Event V)
  pub patterns : List EventPattern

-- What the call returns: `True`, a `MatchedEvents`, or nothing yet after these rounds.
pub data Outcome (V : Type 0) : Type 0 where
  returns_true : Outcome V
  matched : (matches : List (Event V)) (missed : List EventPattern) → Outcome V
  waiting : Progress V → Outcome V

abbrev pub is_empty {ℓ} : {A : Type ℓ} → List A → Bool
is_empty [] = true
is_empty (x ∷ xs) = false

module _ {V : Type 0} ⦃v : Eq V⦄ where
  -- `for pattern in set(patterns)`, over the copy of the patterns that it is given first.
  unfoldable pub try_patterns : Event V → List EventPattern → Progress V → Progress V
  try_patterns e [] s = s
  try_patterns e (p ∷ copy) s =
      try_patterns e copy (
        if is_match e p
        then record { found = add e s.found; patterns = remove p s.patterns }
        else s)

  -- `for event in copy.copy(self.store)`
  unfoldable pub try_events : ℕ → ℕ → List (Event V) → Progress V → Progress V
  try_events now after_time [] s = s
  try_events now after_time (e ∷ store) s =
      try_events now after_time store
        (if in_time now after_time e then try_patterns e s.patterns s else s)

  -- The tests at the end of a round; `rest` is what the next rounds return.
  unfoldable pub end_round : Bool → Progress V → Outcome V → Outcome V
  end_round late s rest =
      if is_empty s.patterns
      then matched s.found s.patterns
      else (if late then matched s.found s.patterns else rest)

  unfoldable pub rounds : ℕ → ℕ → List (Round V) → Progress V → Outcome V
  rounds after_time timeout_at [] s = waiting s
  rounds after_time timeout_at (r ∷ rs) s =
      let s' = try_events r.now after_time r.store s in
      let rest = rounds after_time timeout_at rs s' in end_round (ltb timeout_at r.after) s' rest

  -- The call, at a deadline. With no patterns it returns at once.
  unfoldable pub wait_for_events : ℕ → ℕ → List (Round V) → List EventPattern → Outcome V
  wait_for_events after_time timeout_at rs [] = returns_true
  wait_for_events after_time timeout_at rs (p ∷ patterns) =
      rounds after_time timeout_at rs (record { found = []; patterns = p ∷ patterns })
