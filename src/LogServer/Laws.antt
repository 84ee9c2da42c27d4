-- ===== src/LogServer/Laws.antt =====
-- What the log server hands to `logging`, and that it ends.
use pytest_salt_factories.Base.{
  ℕ, ◌+◌, ◌≡◌, refl, sym, ◌∙◌, ap, subst, Bool, true, false, Option, none, some, List, [], ◌∷◌,
  ◌++◌, append-nil, append_assoc, any, arith, leb, Bool-cases, inl, inr,
}
use pytest_salt_factories.Base.Text.{Text}
use pytest_salt_factories.LogServer.{
  Record, Message, no_message, sentinel, invalid, interrupt, log_record, Round, End, still_running,
  timed_out, Server, timeout_of, readable, handle, receive, wait_for_exit, one_round, process_logs,
}

abbrev pub is_timed_out : End → Bool
is_timed_out timed_out = true
is_timed_out _ = false

abbrev pub is_over : End → Bool
is_over still_running = false
is_over _ = true

module _ {V : Type 0} (decode : Text → Option Text) where
  abbrev in_front : Option (Record V) → List (Record V) → List (Record V)
  in_front none rs = rs
  in_front (some r) rs = r ∷ rs

  abbrev records_of : Message V → List (Record V) → List (Record V)
  records_of no_message rs = rs
  records_of invalid rs = rs
  records_of (log_record r) rs = in_front (readable decode r) rs
  records_of sentinel rs = []
  records_of interrupt rs = []

  -- The records of the messages up to the first that ends the loop, without those that cannot be decoded.
  abbrev pub records : List (Round V) → List (Record V)
  records [] = []
  records (round ∷ rounds) = records_of round.message (records rounds)

  handle-handled :
      (o : Option (Record V)) (s : Server V) (rs : List (Record V))
      → (handle decode o s).handled ++ rs ≡ s.handled ++ in_front o rs
  unfolding handle
  handle-handled none s rs = refl
  handle-handled (some r) s rs = append_assoc s.handled (r ∷ []) rs

  receive-handled :
      (m : Message V) (s : Server V) (rest : Server V → Server V × End) (rs : List (Record V))
      → ((t : Server V) → is_timed_out (rest t).1 ≡ false → (rest t).0.handled ≡ t.handled ++ rs)
      → is_timed_out (receive decode m s rest).1 ≡ false
      → (receive decode m s rest).0.handled ≡ s.handled ++ records_of m rs
  unfolding receive
  receive-handled no_message s rest rs next in_time = next s in_time
  receive-handled invalid s rest rs next in_time = next s in_time
  receive-handled (log_record r) s rest rs next in_time =
      next (handle decode (readable decode r) s) in_time ∙ handle-handled (readable decode r) s rs
  receive-handled sentinel s rest rs next in_time = sym (append-nil s.handled)
  receive-handled interrupt s rest rs next in_time = sym (append-nil s.handled)

  one_round-handled :
      (running : Bool) (round : Round V) (s : Server V) (rest : Server V → Server V × End)
      (rs : List (Record V))
      → ((t : Server V) → is_timed_out (rest t).1 ≡ false → (rest t).0.handled ≡ t.handled ++ rs)
      → is_timed_out (one_round decode running round s rest).1 ≡ false
      → (one_round decode running round s rest).0.handled ≡ s.handled ++ records_of round.message rs
  unfolding one_round wait_for_exit
  one_round-handled true round s rest rs next in_time =
      receive-handled round.message s rest rs next in_time
  one_round-handled false round s rest rs next in_time =
      let at = timeout_of s.exit_timeout round.now in
      let waiting : Server V = record s { exit_timeout = some at } in
      elim (Bool-cases (leb at round.later)) [
        | inl late ↦ absurd (ground (arith, late, in_time))
        | inr early ↦
            rw early
              (receive-handled round.message waiting rest rs next (ground (arith, early, in_time)))
      ]

  -- Unless its time to exit is over, the server has handed the records of all messages to `logging`, in their
  -- order, up to the sentinel or an interrupt, but for those that cannot be decoded: messages that
  -- raise an exception end nothing.
  pub handled-process_logs :
      (rounds : List (Round V)) (s : Server V)
      → is_timed_out (process_logs decode rounds s).1 ≡ false
      → (process_logs decode rounds s).0.handled ≡ s.handled ++ records rounds
  unfolding process_logs
  handled-process_logs [] s in_time = sym (append-nil s.handled)
  handled-process_logs (round ∷ rounds) s in_time =
      one_round-handled round.running round s (process_logs decode rounds) (records rounds)
        (λ t. handled-process_logs rounds t) in_time

  handle-exit_timeout :
      (o : Option (Record V)) (s : Server V) → (handle decode o s).exit_timeout ≡ s.exit_timeout
  unfolding handle
  handle-exit_timeout none s = refl
  handle-exit_timeout (some r) s = refl

  receive-over :
      (at : ℕ) (m : Message V) (s : Server V) (rest : Server V → Server V × End)
      → ((t : Server V) → t.exit_timeout ≡ some at → is_over (rest t).1 ≡ true)
      → s.exit_timeout ≡ some at
      → is_over (receive decode m s rest).1 ≡ true
  unfolding receive
  receive-over at no_message s rest next set = next s set
  receive-over at invalid s rest next set = next s set
  receive-over at (log_record r) s rest next set =
      next (handle decode (readable decode r) s) (handle-exit_timeout (readable decode r) s ∙ set)
  receive-over at sentinel s rest next set = refl
  receive-over at interrupt s rest next set = refl

  abbrev pub is_running : Round V → Bool
  is_running round = round.running

  abbrev pub is_late : ℕ → Round V → Bool
  is_late at round = leb at round.later

  one_round-over :
      (at : ℕ) (round : Round V) (s : Server V) (rest : Server V → Server V × End)
      → timeout_of s.exit_timeout round.now ≡ at
      → (leb at round.later ≡ false
          → (t : Server V) → t.exit_timeout ≡ some at
          → is_over (rest t).1 ≡ true)
      → is_over (one_round decode false round s rest).1 ≡ true
  unfolding one_round wait_for_exit
  one_round-over at round s rest same next =
      let own = timeout_of s.exit_timeout round.now in
      let waiting : Server V = record s { exit_timeout = some own } in
      elim (Bool-cases (leb own round.later)) [
        | inl late ↦ rw late refl
        | inr early ↦ rw early (
            receive-over at round.message waiting rest
              (next (ap (λ a. leb a round.later) (sym same) ∙ early)) (ap some same))
      ]

  process_logs-over_at :
      (at : ℕ) (round : Round V) (rounds : List (Round V)) (s : Server V)
      → timeout_of s.exit_timeout round.now ≡ at
      → any is_running (round ∷ rounds) ≡ false
      → any (is_late at) (round ∷ rounds) ≡ true
      → is_over (process_logs decode (round ∷ rounds) s).1 ≡ true
  unfolding process_logs any timeout_of
  process_logs-over_at at round [] s same off late =
      subst (λ b. is_over (one_round decode b round s (process_logs decode [])).1 ≡ true)
        (sym (ground (arith, off)))
        (one_round-over at round s (process_logs decode []) same
          (λ early t set. absurd (ground (arith, early, late))))
  process_logs-over_at at round (next ∷ rounds) s same off late =
      subst
        (λ b. is_over (one_round decode b round s (process_logs decode (next ∷ rounds))).1 ≡ true)
        (sym (ground (arith, off)))
        (one_round-over at round s (process_logs decode (next ∷ rounds)) same (λ early t set.
          process_logs-over_at at next rounds t (ap (λ o. timeout_of o next.now) set)
            (ground (arith, off)) (ground (arith, early, late))))

  -- Once `running_event` is cleared, the loop has ended before the first round that looks at the clock five
  -- seconds or more after it was noticed, or in it, whatever messages still arrive.
  pub process_logs-over :
      (round : Round V) (rounds : List (Round V)) (s : Server V)
      → s.exit_timeout ≡ none
      → any is_running (round ∷ rounds) ≡ false
      → any (is_late (round.now + 5)) (round ∷ rounds) ≡ true
      → is_over (process_logs decode (round ∷ rounds) s).1 ≡ true
  unfolding timeout_of
  process_logs-over round rounds s unset off late =
      process_logs-over_at (round.now + 5) round rounds s (ap (λ o. timeout_of o round.now) unset)
        off late
