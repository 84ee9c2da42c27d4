-- ===== src/LogHandler/Refines.antt =====
-- A connected handler refines the abstract log.
use pytest_salt_factories.Base.{
  ◌≡◌, refl, sym, ◌∙◌, ap, subst, Bool, true, false, ◌||◌, Option, none, some, List, [], ◌∷◌, ◌++◌,
  ◌==◌, nat_eq, arith, any, if◌then◌else◌, Bool-cases, inl, inr,
}
use pytest_salt_factories.LogHandler.{
  ZmqHandler, Process, Emission, Send, sends, again, exits, fails, after_report, queue_message,
  send_again, send_first, send_prepared, come_back, emit,
}
use pytest_salt_factories.LogHandler.Coherent.{IsOpen}
use pytest_salt_factories.LogHandler.Log.{
  Log, interrupts, is_interrupted, Fate, taken, log_of, fate, log_fates, fates_of, log_fate,
  log_emissions, emits_in,
}
use pytest_salt_factories.LogHandler.Reports.{
  emit_with-open, settle, Settles, with_message, queue_message-Settles, come_back-Settles,
}

module _ {M : Type 0} where
  log_fate-untold :
      (m : M) (fates : List (Fate M)) (l : Log M)
      → (l.untold == 0) ≡ false
      → log_fate (taken m) fates l
        ≡ settle (log_fates fates (record l { sent = l.sent ++ (m ∷ []) }))
  unfolding log_fate
  log_fate-untold m fates l some_lost =
      let next : Log M = record l { sent = l.sent ++ (m ∷ []) } in
      ap (λ b. if b then next else settle (log_fates fates next)) some_lost

  queue_message-told :
      (process : Process) (report : ZmqHandler M → ZmqHandler M × Bool) (m : M)
      (fates : List (Fate M)) (h : ZmqHandler M)
      → IsOpen process h
      → (h.dropped_messages_count == 0) ≡ true
      → IsOpen process (queue_message report m h).0
        × (log_of (queue_message report m h).0 ≡ log_fate (taken m) fates (log_of h))
  unfolding queue_message log_fate
  queue_message-told process report m fates h open_ none_lost =
      let next : Log M = log_of (with_message m h) in
      let after = after_report (report (with_message m h)) in
      let left = ap (λ b. if b then (with_message m h, false) else after) none_lost in
      (
        subst (λ r. IsOpen process r.0) (sym left) open_,
        ap (λ r. log_of r.0) left
            ∙ sym (ap (λ b. if b then next else settle (log_fates fates next)) none_lost),
      )

  -- A message that the socket takes, with the reports that follow a loss.
  queue_message-log :
      (process : Process) (report : ZmqHandler M → ZmqHandler M × Bool) (m : M)
      (fates : List (Fate M)) (h : ZmqHandler M)
      → IsOpen process h
      → ((h.dropped_messages_count == 0) ≡ false
          → Settles process
              (report (with_message m h))
              (log_fates fates (log_of (with_message m h))))
      → IsOpen process (queue_message report m h).0
        × (log_of (queue_message report m h).0 ≡ log_fate (taken m) fates (log_of h))
  unfolding log_fate
  queue_message-log process report m fates h open_ inner =
      elim (Bool-cases (h.dropped_messages_count == 0)) [
        | inl none_lost ↦ queue_message-told process report m fates h open_ none_lost
        | inr some_lost ↦
            let (quiet, kept, same) =
              queue_message-Settles process report m h (log_fates fates (log_of (with_message m h)))
                some_lost (inner some_lost) in
            (kept, same ∙ sym (log_fate-untold m fates (log_of h) some_lost))
      ]

  send_prepared-log :
      (process : Process) (report : ZmqHandler M → ZmqHandler M × Bool) (o : Option M)
      (first second : Send) (fates : List (Fate M)) (h : ZmqHandler M)
      → (interrupts first || interrupts second) ≡ false
      → IsOpen process h
      → ((m : M)
          → (h.dropped_messages_count == 0) ≡ false
          → Settles process
              (report (with_message m h))
              (log_fates fates (log_of (with_message m h))))
      → IsOpen process (send_prepared report o first second h).0
        × (log_of (send_prepared report o first second h).0
            ≡ log_fate (fate o first second) fates (log_of h))
  unfolding send_prepared send_first send_again fate log_fate
  send_prepared-log process report none first second fates h calm open_ inner = (open_, refl)
  send_prepared-log process report (some m) sends second fates h calm open_ inner =
      queue_message-log process report m fates h open_ (inner m)
  send_prepared-log process report (some m) again sends fates h calm open_ inner =
      queue_message-log process report m fates h open_ (inner m)
  send_prepared-log process report (some m) again again fates h calm open_ inner = (open_, refl)
  send_prepared-log process report (some m) again exits fates h calm open_ inner = cc
  send_prepared-log process report (some m) again fails fates h calm open_ inner = (open_, refl)
  send_prepared-log process report (some m) exits second fates h calm open_ inner = cc
  send_prepared-log process report (some m) fails second fates h calm open_ inner = (open_, refl)

  emit-log :
      (process : Process) (x : Emission M) (h : ZmqHandler M)
      → is_interrupted x ≡ false
      → IsOpen process h
      → IsOpen process (emit process x h)
        × (log_of (emit process x h)
            ≡ log_fate (fate x.msg x.first x.second) (fates_of x.reports) (log_of h))
  unfolding emit
  emit-log process x h calm open_ =
      let report = come_back process x.reports in
      subst
        (λ r.
          IsOpen process r.0
          × (log_of r.0 ≡ log_fate (fate x.msg x.first x.second) (fates_of x.reports) (log_of h)))
        (sym (emit_with-open process report x.msg x.first x.second h open_))
        (send_prepared-log process report x.msg x.first x.second (fates_of x.reports) h
          (ground (arith, calm)) open_
          (λ m some_lost.
            come_back-Settles process x.reports (with_message m h) (ground (arith, calm)) open_
              some_lost))

  -- While a handler is connected in its own process and no send is interrupted, it works as the
  -- abstract log: each message is sent, in its order, counted as lost if it meets the high water
  -- mark twice, or passed over if it cannot be made or its send fails otherwise; the first message that is
  -- sent after a loss is followed by the reports of it that come back, up to the first that is not
  -- sent, and then no loss is left to report; and the handler stays connected.
  pub log_of-emits_in :
      (process : Process) (xs : List (Emission M)) (h : ZmqHandler M)
      → IsOpen process h
      → any is_interrupted xs ≡ false
      → IsOpen process (emits_in process xs h)
        × (log_of (emits_in process xs h) ≡ log_emissions xs (log_of h))
  unfolding emits_in log_emissions any
  log_of-emits_in process [] h open_ calm = (open_, refl)
  log_of-emits_in process (x ∷ xs) h open_ calm =
      let (kept, same) = emit-log process x h (ground (arith, calm)) open_ in
      let (last, rest) =
        log_of-emits_in process xs (emit process x h) kept (ground (arith, calm)) in
      (last, rest ∙ ap (log_emissions xs) same)
