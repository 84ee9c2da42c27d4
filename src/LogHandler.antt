-- ===== src/LogHandler.antt =====
-- `ZMQHandler` of src/saltfactories/utils/saltext/log_handlers/pytest_log_handler.py. `queued` are the
-- messages that the ZMQ socket took, and `lost` counts all that were dropped. A call is given the process
-- it runs in and whether ZMQ can make its context and its socket. Closing a socket or a context does not
-- fail here. `_send_message` logs a debug message about dropped messages, which the root logger may give
-- to this very handler: what such reports do, one inside the other, is part of an emission.
pub mod Coherent
pub mod Laws
pub mod Log
pub mod Reports
pub mod Refines
pub mod Setup
mod Tests
use pytest_salt_factories.Base.{
  ℕ, ◌+◌, Bool, true, false, not, ◌&&◌, ◌||◌, Option, none, some, List, [], ◌∷◌, ◌++◌, ◌==◌, nat_eq,
  if◌then◌else◌,
}

-- `context` and `pusher`: that the attribute is not `None`.
pub record ZmqHandler (M : Type 0) : Type 0 where
  pub pid : Option ℕ
  pub context : Bool
  pub pusher : Bool
  pub exiting : Bool
  pub dropped_messages_count : ℕ
  pub queued : List M
  pub lost : ℕ

-- What a call meets: the process, and whether ZMQ works.
pub record Process : Type 0 where
  pub getpid : ℕ
  pub context_ok : Bool
  pub socket_ok : Bool

-- What `pusher.send` does. `again`: the high water mark is reached; `exits`: `SystemExit` or
-- `KeyboardInterrupt`; `fails`: any other exception.
pub data Send : Type 0 where
  sends again exits fails : Send

-- A debug message about dropped messages that comes back to the handler.
pub record Report (M : Type 0) : Type 0 where
  pub msg : Option M
  pub first : Send
  pub second : Send

-- A record to emit: what `prepare` makes of it, if anything, and what two sends of it do. `reports` are the
-- reports that come back while it is sent, each inside the emission of the one before; the list ends where
-- the next does not come back, as the level is higher or Python's recursion limit is met.
pub record Emission (M : Type 0) : Type 0 where
  pub msg : Option M
  pub first : Send
  pub second : Send
  pub reports : List (Report M)

unfoldable pub is_pid : ℕ → Option ℕ → Bool
is_pid me none = false
is_pid me (some p) = p == me

module _ {M : Type 0} where
  -- `__init__`
  unfoldable pub new_handler : ℕ → ZmqHandler M
  new_handler me = record {
    pid = some me;
    context = false;
    pusher = false;
    exiting = false;
    dropped_messages_count = 0;
    queued = [];
    lost = 0;
  }

  -- `stop`; `flush` only tells how long the socket lingers.
  unfoldable pub stop : ZmqHandler M → ZmqHandler M
  stop h =
      if h.exiting
      then h
      else record h { exiting = true; pusher = false; context = false; pid = none }

  -- `stop`, and the handler may start again.
  unfoldable pub stop_for_retry : ZmqHandler M → ZmqHandler M
  stop_for_retry h = let stopped = stop h in record stopped { exiting = false }

  -- The ZMQ part of `start`, once it has a context.
  unfoldable pub connect_socket : Process → ZmqHandler M → ZmqHandler M
  connect_socket process h =
      if process.socket_ok
      then record h { pusher = true; pid = some process.getpid }
      else stop_for_retry h

  unfoldable pub connect : Process → ZmqHandler M → ZmqHandler M
  connect process h =
      let reset = record h { dropped_messages_count = 0 } in
      if process.context_ok
      then connect_socket process (record reset { context = true })
      else stop_for_retry reset

  -- `start`, once it is in its own process.
  unfoldable pub start_here : Process → ZmqHandler M → ZmqHandler M
  start_here process h = if h.exiting || h.pusher then h else connect process h

  unfoldable pub start : Process → ZmqHandler M → ZmqHandler M
  start process h = start_here process (if is_pid process.getpid h.pid then h else stop_for_retry h)

  -- After the log call of `_send_message`; `true`: an interrupt passes through, after `stop`.
  unfoldable pub after_report : ZmqHandler M × Bool → ZmqHandler M × Bool
  after_report (h, true) = (h, true)
  after_report (h, false) = (record h { dropped_messages_count = 0 }, false)

  -- `_send_message`, when the socket takes the message. `report` is what the log call does.
  unfoldable pub queue_message :
      (ZmqHandler M → ZmqHandler M × Bool) → M → ZmqHandler M → ZmqHandler M × Bool
  queue_message report m h =
      let taken = record h { queued = h.queued ++ (m ∷ []) } in
      if h.dropped_messages_count == 0 then (taken, false) else after_report (report taken)

  unfoldable pub send_again :
      (ZmqHandler M → ZmqHandler M × Bool) → Send → M → ZmqHandler M → ZmqHandler M × Bool
  send_again report sends m h = queue_message report m h
  send_again report again m h =
      (record h { dropped_messages_count = h.dropped_messages_count + 1; lost = h.lost + 1 }, false)
  send_again report exits m h = (stop h, true)
  send_again report fails m h = (h, false)

  unfoldable pub send_first :
      (ZmqHandler M → ZmqHandler M × Bool) → Send → Send → M → ZmqHandler M → ZmqHandler M × Bool
  send_first report sends second m h = queue_message report m h
  send_first report again second m h = send_again report second m h
  send_first report exits second m h = (stop h, true)
  send_first report fails second m h = (h, false)

  unfoldable pub send_prepared :
      (ZmqHandler M → ZmqHandler M × Bool)
      → Option M
      → Send
      → Send
      → ZmqHandler M
      → ZmqHandler M × Bool
  send_prepared report none first second h = (h, false)
  send_prepared report (some m) first second h = send_first report first second m h

  -- `emit`, of a record or of a report.
  unfoldable pub emit_with :
      Process
      → (ZmqHandler M → ZmqHandler M × Bool)
      → Option M
      → Send
      → Send
      → ZmqHandler M
      → ZmqHandler M × Bool
  emit_with process report msg first second h =
      if h.exiting
      then (h, false)
      else let ready = start process h in
        if ready.pusher then send_prepared report msg first second ready else (ready, false)

  -- The log call of `_send_message`.
  unfoldable pub come_back : Process → List (Report M) → ZmqHandler M → ZmqHandler M × Bool
  come_back process [] h = (h, false)
  come_back process (r ∷ reports) h =
      emit_with process (come_back process reports) r.msg r.first r.second h

  unfoldable pub emit : Process → Emission M → ZmqHandler M → ZmqHandler M
  emit process x h = (emit_with process (come_back process x.reports) x.msg x.first x.second h).0

  -- `close`
  unfoldable pub close : ZmqHandler M → ZmqHandler M
  close h = let stopped = stop h in record stopped { exiting = true }

  -- `__setstate__`: the handler that a pickle makes.
  unfoldable pub set_state : ℕ → ZmqHandler M
  set_state me = stop_for_retry (new_handler me)

  -- Records that are emitted one after the other, each in its process.
  unfoldable pub emits : List (Process × Emission M) → ZmqHandler M → ZmqHandler M
  emits [] h = h
  emits ((process, x) ∷ rest) h = emits rest (emit process x h)
