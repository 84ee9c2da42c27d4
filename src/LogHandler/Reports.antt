-- ===== src/LogHandler/Reports.antt =====
-- What the reports about dropped messages do to a connected handler.
use pytest_salt_factories.Base.{
  ◌≡◌, refl, sym, ap, subst, Bool, true, false, ◌||◌, Option, none, some, List, [], ◌∷◌, ◌++◌, ◌==◌,
  nat_eq, arith, any, if◌then◌else◌,
}
use pytest_salt_factories.LogHandler.{
  ZmqHandler, Process, Report, Send, sends, again, exits, fails, start, start_here, after_report,
  queue_message, send_again, send_first, send_prepared, emit_with, come_back,
}
use pytest_salt_factories.LogHandler.Coherent.{IsOpen}
use pytest_salt_factories.LogHandler.Log.{
  Log, interrupts, is_cut, Fate, log_of, fate, log_fates, fates_of,
}

module _ {M : Type 0} where
  start-open : (process : Process) (h : ZmqHandler M) → IsOpen process h → start process h ≡ h
  unfolding start start_here
  start-open process h open_ = ground (arith, open_)

  pub emit_with-open :
      (process : Process) (report : ZmqHandler M → ZmqHandler M × Bool) (o : Option M)
      (first second : Send) (h : ZmqHandler M)
      → IsOpen process h
      → emit_with process report o first second h ≡ send_prepared report o first second h
  unfolding emit_with
  emit_with-open process report o first second h open_ =
      ground (arith, open_, start-open process h open_)

  -- All is told.
  abbrev pub settle : Log M → Log M
  settle l = record l { untold = 0 }

  -- A call that is not interrupted, leaves the handler connected, and has the log, but for what is untold.
  abbrev pub Settles : Process → ZmqHandler M × Bool → Log M → Type 0
  Settles process r l = (r.1 ≡ false) × IsOpen process r.0 × (settle (log_of r.0) ≡ settle l)

  after_report-Settles :
      (process : Process) (r : ZmqHandler M × Bool) (l : Log M)
      → Settles process r l
      → ((after_report r).1 ≡ false)
        × IsOpen process (after_report r).0
        × (log_of (after_report r).0 ≡ settle l)
  unfolding after_report
  after_report-Settles process (h, true) l (calm, open_, same) = cc
  after_report-Settles process (h, false) l (calm, open_, same) = (refl, open_, same)

  -- A handler that has taken a message after a loss.
  pub queue_message-Settles :
      (process : Process) (report : ZmqHandler M → ZmqHandler M × Bool) (m : M) (h : ZmqHandler M)
      (l : Log M)
      → (h.dropped_messages_count == 0) ≡ false
      → Settles process (report (record h { queued = h.queued ++ (m ∷ []) })) l
      → ((queue_message report m h).1 ≡ false)
        × IsOpen process (queue_message report m h).0
        × (log_of (queue_message report m h).0 ≡ settle l)
  unfolding queue_message
  queue_message-Settles process report m h l some_lost settles =
      let r = report (record h { queued = h.queued ++ (m ∷ []) }) in
      let after = after_report-Settles process r l settles in
      subst
        (λ (b : Bool).
          ((if b then (record h { queued = h.queued ++ (m ∷ []) }, false) else after_report r).1
            ≡ false)
          × IsOpen process
              (if b then (record h { queued = h.queued ++ (m ∷ []) }, false) else after_report r).0
          × (log_of
                (if b
                  then (record h { queued = h.queued ++ (m ∷ []) }, false)
                  else after_report r).0
              ≡ settle l))
        (sym some_lost) after

  -- What the handler is once the socket has taken a message.
  abbrev pub with_message : M → ZmqHandler M → ZmqHandler M
  with_message m h = record h { queued = h.queued ++ (m ∷ []) }

  -- A report that is sent, before anything is told.
  send_prepared-Settles :
      (process : Process) (report : ZmqHandler M → ZmqHandler M × Bool) (o : Option M)
      (first second : Send) (fates : List (Fate M)) (h : ZmqHandler M)
      → (interrupts first || interrupts second) ≡ false
      → IsOpen process h
      → (h.dropped_messages_count == 0) ≡ false
      → ((m : M)
          → Settles process
              (report (with_message m h))
              (log_fates fates (log_of (with_message m h))))
      → Settles process
          (send_prepared report o first second h)
          (log_fates (fate o first second ∷ fates) (log_of h))
  unfolding send_prepared send_first send_again fate log_fates
  send_prepared-Settles process report none first second fates h calm open_ some_lost inner =
      (refl, open_, refl)
  send_prepared-Settles process report (some m) sends second fates h calm open_ some_lost inner =
      let (quiet, kept, same) =
        queue_message-Settles process report m h (log_fates fates (log_of (with_message m h)))
          some_lost (inner m) in
      (quiet, kept, ap settle same)
  send_prepared-Settles process report (some m) again sends fates h calm open_ some_lost inner =
      let (quiet, kept, same) =
        queue_message-Settles process report m h (log_fates fates (log_of (with_message m h)))
          some_lost (inner m) in
      (quiet, kept, ap settle same)
  send_prepared-Settles process report (some m) again again fates h calm open_ some_lost inner =
      (refl, open_, refl)
  send_prepared-Settles process report (some m) again exits fates h calm open_ some_lost inner = cc
  send_prepared-Settles process report (some m) again fails fates h calm open_ some_lost inner =
      (refl, open_, refl)
  send_prepared-Settles process report (some m) exits second fates h calm open_ some_lost inner = cc
  send_prepared-Settles process report (some m) fails second fates h calm open_ some_lost inner =
      (refl, open_, refl)

  -- The reports that come back, one inside the other.
  pub come_back-Settles :
      (process : Process) (reports : List (Report M)) (h : ZmqHandler M)
      → any is_cut reports ≡ false
      → IsOpen process h
      → (h.dropped_messages_count == 0) ≡ false
      → Settles process (come_back process reports h) (log_fates (fates_of reports) (log_of h))
  unfolding come_back fates_of log_fates any
  come_back-Settles process [] h calm open_ some_lost = (refl, open_, refl)
  come_back-Settles process (r ∷ reports) h calm open_ some_lost =
      subst (λ x. Settles process x (log_fates (fates_of (r ∷ reports)) (log_of h)))
        (sym (emit_with-open process (come_back process reports) r.msg r.first r.second h open_))
        (send_prepared-Settles process (come_back process reports) r.msg r.first r.second
          (fates_of reports) h (ground (arith, calm)) open_ some_lost
          (λ m.
            come_back-Settles process reports (with_message m h) (ground (arith, calm)) open_
              some_lost))
