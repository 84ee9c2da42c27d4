-- ===== src/LogHandler/Log.antt =====
-- What the log handler is to do, as an abstract log, and `emits_in`, records that it emits in one process.
use pytest_salt_factories.Base.{
  ℕ, ◌+◌, Bool, true, false, ◌||◌, Option, some, List, [], ◌∷◌, ◌++◌, ◌==◌, nat_eq, any,
  if◌then◌else◌,
}
use pytest_salt_factories.LogHandler.{
  ZmqHandler, Process, Emission, Report, Send, sends, again, exits, emit,
}

-- The abstract log: what was sent, how many messages were ever lost to the high water mark, and how many of
-- these are not reported yet.
pub record Log (M : Type 0) : Type 0 where
  pub sent : List M
  pub lost : ℕ
  pub untold : ℕ

abbrev pub interrupts : Send → Bool
interrupts exits = true
interrupts _ = false

abbrev pub is_cut : {M : Type 0} → Report M → Bool
is_cut r = interrupts r.first || interrupts r.second

-- A send, of the message or of a report, is interrupted by the end of the process.
abbrev pub is_interrupted : {M : Type 0} → Emission M → Bool
is_interrupted x = interrupts x.first || interrupts x.second || any is_cut x.reports

-- What becomes of a message.
pub data Fate (M : Type 0) : Type 0 where
  taken : M → Fate M
  dropped passed_over : Fate M

module _ {M : Type 0} where
  -- The log of a handler.
  abbrev pub log_of : ZmqHandler M → Log M
  log_of h = record { sent = h.queued; lost = h.lost; untold = h.dropped_messages_count }

  -- A message is taken by one of two sends, dropped if both meet the high water mark, and passed over if it
  -- cannot be made, or its send fails otherwise.
  unfoldable pub fate : Option M → Send → Send → Fate M
  fate (some m) sends second = taken m
  fate (some m) again sends = taken m
  fate (some m) again again = dropped
  fate o first second = passed_over

  -- The reports are messages themselves: each that is taken makes the next, and the others end them.
  unfoldable pub log_fates : List (Fate M) → Log M → Log M
  log_fates [] l = l
  log_fates (taken m ∷ fates) l = log_fates fates (record l { sent = l.sent ++ (m ∷ []) })
  log_fates (dropped ∷ fates) l = record l { lost = l.lost + 1 }
  log_fates (passed_over ∷ fates) l = l

  unfoldable pub fates_of : List (Report M) → List (Fate M)
  fates_of [] = []
  fates_of (r ∷ reports) = fate r.msg r.first r.second ∷ fates_of reports

  -- After a loss, the next message that is taken is followed by the reports, and all is told then.
  unfoldable pub log_fate : Fate M → List (Fate M) → Log M → Log M
  log_fate (taken m) fates l =
      let next = record l { sent = l.sent ++ (m ∷ []) } in
      if l.untold == 0 then next else record (log_fates fates next) { untold = 0 }
  log_fate dropped fates l = record l { lost = l.lost + 1; untold = l.untold + 1 }
  log_fate passed_over fates l = l

  unfoldable pub log_emissions : List (Emission M) → Log M → Log M
  log_emissions [] l = l
  log_emissions (x ∷ xs) l =
      log_emissions xs (log_fate (fate x.msg x.first x.second) (fates_of x.reports) l)

  unfoldable pub emits_in : Process → List (Emission M) → ZmqHandler M → ZmqHandler M
  emits_in process [] h = h
  emits_in process (x ∷ xs) h = emits_in process xs (emit process x h)
