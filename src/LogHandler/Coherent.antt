-- ===== src/LogHandler/Coherent.antt =====
-- What the calls keep of a handler.
use pytest_salt_factories.Base.{
  ℕ, ◌≡◌, refl, sym, ◌∙◌, ◌⊎◌, inl, inr, true, false, ◌||◌, ◌&&◌, Option, none, some, List, [], ◌∷◌,
  ◌++◌, ◌==◌, Bool, nat_eq, arith, Bool-cases,
}
use pytest_salt_factories.LogHandler.{
  ZmqHandler, Process, Emission, Send, sends, again, exits, fails, is_pid, new_handler, stop,
  stop_for_retry, connect_socket, connect, start_here, start, Report, after_report, queue_message,
  send_again, send_first, send_prepared, emit_with, come_back, emit, close,
}

module _ {M : Type 0} where
  -- The socket and its context come and go together, a stopped handler has neither and knows no
  -- process, and one that has them knows one.
  pub record IsCoherent (h : ZmqHandler M) : Type 0 where
    pub together : h.context ≡ h.pusher
    pub stopped : (h.exiting && h.pusher) ≡ false
    pub forgets : (h.exiting ≡ false) ⊎ (h.pid ≡ none)
    pub owned : (h.pusher ≡ false) ⊎ ((p : ℕ) × (h.pid ≡ some p))

  -- Connected, in its own process.
  abbrev pub IsOpen : Process → ZmqHandler M → Type 0
  IsOpen process h = (h.pusher ≡ true) × (h.exiting ≡ false) × (is_pid process.getpid h.pid ≡ true)

  pub new_handler-IsCoherent : (me : ℕ) → IsCoherent (new_handler me)
  unfolding new_handler
  new_handler-IsCoherent me = record {
    together = refl;
    stopped = refl;
    forgets = inl refl;
    owned = inl refl;
  }

  pub stop-IsCoherent : (h : ZmqHandler M) → IsCoherent h → IsCoherent (stop h)
  unfolding stop
  stop-IsCoherent h good = ground (arith, good)

  pub stop_for_retry-IsCoherent : (h : ZmqHandler M) → IsCoherent h → IsCoherent (stop_for_retry h)
  unfolding stop_for_retry stop
  stop_for_retry-IsCoherent h good = ground (arith, good)

  IsCoherent-of_idle :
      (h : ZmqHandler M) → h.context ≡ false → h.pusher ≡ false → h.exiting ≡ false → IsCoherent h
  IsCoherent-of_idle h c p e = record {
    together = c ∙ sym p;
    stopped = ground (arith, p);
    forgets = inl e;
    owned = inl p;
  }

  connect-cases :
      (process : Process) (h : ZmqHandler M)
      → h.exiting ≡ false
      → (((connect process h).context ≡ false)
          × ((connect process h).pusher ≡ false)
          × ((connect process h).exiting ≡ false))
        ⊎ (((connect process h).context ≡ true)
            × ((connect process h).pusher ≡ true)
            × ((connect process h).exiting ≡ false)
            × ((connect process h).pid ≡ some process.getpid))
  unfolding connect connect_socket stop_for_retry stop
  connect-cases process h awake = ground (arith, awake)

  IsCoherent-of_connected :
      (h : ZmqHandler M) (p : ℕ)
      → h.context ≡ true
      → h.pusher ≡ true
      → h.exiting ≡ false
      → h.pid ≡ some p
      → IsCoherent h
  IsCoherent-of_connected h p c u e i = record {
    together = c ∙ sym u;
    stopped = ground (arith, e);
    forgets = inl e;
    owned = inr (p, i);
  }

  pub connect-IsCoherent :
      (process : Process) (h : ZmqHandler M) → h.exiting ≡ false → IsCoherent (connect process h)
  connect-IsCoherent process h awake = elim (connect-cases process h awake) [
    | inl (c, p, e) ↦ IsCoherent-of_idle (connect process h) c p e
    | inr (c, p, e, i) ↦ IsCoherent-of_connected (connect process h) process.getpid c p e i
  ]

  pub start_here-IsCoherent :
      (process : Process) (h : ZmqHandler M) → IsCoherent h → IsCoherent (start_here process h)
  unfolding start_here
  start_here-IsCoherent process h good = elim (Bool-cases (h.exiting || h.pusher)) [
    | inl runs ↦ rw runs good
    | inr idle ↦ rw idle (connect-IsCoherent process h (ground (arith, idle)))
  ]

  pub start-IsCoherent :
      (process : Process) (h : ZmqHandler M) → IsCoherent h → IsCoherent (start process h)
  unfolding start
  start-IsCoherent process h good = elim (Bool-cases (is_pid process.getpid h.pid)) [
    | inl mine ↦ rw mine (start_here-IsCoherent process h good)
    | inr other ↦
        rw other
          (start_here-IsCoherent process (stop_for_retry h) (stop_for_retry-IsCoherent h good))
  ]

  -- That the log call of `_send_message` leaves a coherent handler.
  abbrev Keeps : (ZmqHandler M → ZmqHandler M × Bool) → Type 0
  Keeps report = (h : ZmqHandler M) → IsCoherent h → IsCoherent (report h).0

  after_report-IsCoherent :
      (r : ZmqHandler M × Bool) → IsCoherent r.0 → IsCoherent (after_report r).0
  unfolding after_report
  after_report-IsCoherent (h, true) good = good
  after_report-IsCoherent (h, false) good = ground (arith, good)

  queue_message-IsCoherent :
      (report : ZmqHandler M → ZmqHandler M × Bool)
      → Keeps report
      → (m : M) (h : ZmqHandler M) → IsCoherent h
      → IsCoherent (queue_message report m h).0
  unfolding queue_message
  queue_message-IsCoherent report keeps m h good =
      let taken : ZmqHandler M = record h { queued = h.queued ++ (m ∷ []) } in
      let fine : IsCoherent taken = ground (arith, good) in
      elim (Bool-cases (h.dropped_messages_count == 0)) [
        | inl none_lost ↦ rw none_lost fine
        | inr some_lost ↦ rw some_lost (after_report-IsCoherent (report taken) (keeps taken fine))
      ]

  send_again-IsCoherent :
      (report : ZmqHandler M → ZmqHandler M × Bool)
      → Keeps report
      → (r : Send) (m : M) (h : ZmqHandler M) → IsCoherent h
      → IsCoherent (send_again report r m h).0
  unfolding send_again
  send_again-IsCoherent report keeps sends m h good = queue_message-IsCoherent report keeps m h good
  send_again-IsCoherent report keeps again m h good = ground (arith, good)
  send_again-IsCoherent report keeps exits m h good = stop-IsCoherent h good
  send_again-IsCoherent report keeps fails m h good = good

  send_prepared-IsCoherent :
      (report : ZmqHandler M → ZmqHandler M × Bool)
      → Keeps report
      → (o : Option M) (first second : Send) (h : ZmqHandler M) → IsCoherent h
      → IsCoherent (send_prepared report o first second h).0
  unfolding send_prepared send_first
  send_prepared-IsCoherent report keeps none first second h good = good
  send_prepared-IsCoherent report keeps (some m) sends second h good =
      queue_message-IsCoherent report keeps m h good
  send_prepared-IsCoherent report keeps (some m) again second h good =
      send_again-IsCoherent report keeps second m h good
  send_prepared-IsCoherent report keeps (some m) exits second h good = stop-IsCoherent h good
  send_prepared-IsCoherent report keeps (some m) fails second h good = good

  emit_with-IsCoherent :
      (process : Process) (report : ZmqHandler M → ZmqHandler M × Bool)
      → Keeps report
      → (o : Option M) (first second : Send) (h : ZmqHandler M) → IsCoherent h
      → IsCoherent (emit_with process report o first second h).0
  unfolding emit_with
  emit_with-IsCoherent process report keeps o first second h good =
      let ready = start process h in
      let fine = start-IsCoherent process h good in
      let sent = send_prepared-IsCoherent report keeps o first second ready fine in
      ground (arith, good, fine, sent)

  come_back-IsCoherent :
      (process : Process) (reports : List (Report M)) → Keeps (come_back process reports)
  unfolding come_back
  come_back-IsCoherent process [] h good = good
  come_back-IsCoherent process (r ∷ reports) h good =
      emit_with-IsCoherent process (come_back process reports)
        (come_back-IsCoherent process reports) r.msg r.first r.second h good

  pub emit-IsCoherent :
      (process : Process) (x : Emission M) (h : ZmqHandler M)
      → IsCoherent h
      → IsCoherent (emit process x h)
  unfolding emit
  emit-IsCoherent process x h good =
      emit_with-IsCoherent process (come_back process x.reports)
        (come_back-IsCoherent process x.reports) x.msg x.first x.second h good

  pub close-IsCoherent : (h : ZmqHandler M) → IsCoherent h → IsCoherent (close h)
  unfolding close stop
  close-IsCoherent h good = ground (arith, good)
