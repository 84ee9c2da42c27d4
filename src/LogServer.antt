-- ===== src/LogServer.antt =====
-- `LogServer.process_logs` of src/saltfactories/plugins/log_server.py. A round of its loop is what the
-- events, the clock and the socket give it. A record is a dict, whose keys and values may be bytes;
-- `decode` is `bytes.decode("utf-8")`, which fails with `none`. What `logging` does with a record is not
-- modelled: the records that it is given are listed.
pub mod Laws
mod Tests
use pytest_salt_factories.Base.{
  ℕ, ◌+◌, Bool, true, false, Option, none, some, List, [], ◌∷◌, ◌++◌, ◌==◌, Eq, leb, if◌then◌else◌,
}
use pytest_salt_factories.Base.Text.{Text, codes, text_eq}
use pytest_salt_factories.Base.Dict.{Dict, lookup, insert}

-- A key: whether it is bytes, and its contents.
abbrev pub Key : Type 0
Key = Bool × Text

pub bool_discrete : Discrete Bool
bool_discrete = hlevel

instance unfoldable pub key_eq : Eq Key
key_eq = record { dec = hlevel (text_eq.dec, bool_discrete) }

pub data Value (V : Type 0) : Type 0 where
  bytes text : Text → Value V
  other : V → Value V

abbrev pub Record : Type 0 → Type 0
Record V = Dict Key (Value V)

-- What a poll finds: no message, or one. `invalid` is a message that raises an `Exception` before it is a
-- dictionary, and `interrupt` an `EOFError`, a `KeyboardInterrupt` or a `SystemExit`.
pub data Message (V : Type 0) : Type 0 where
  no_message sentinel invalid interrupt : Message V
  log_record : Record V → Message V

-- `running`: that `running_event` is set. `now` and `later` are the readings of the clock.
pub record Round (V : Type 0) : Type 0 where
  pub running : Bool
  pub now : ℕ
  pub later : ℕ
  pub message : Message V

pub data End : Type 0 where
  stopped timed_out interrupted still_running : End

pub record Server (V : Type 0) : Type 0 where
  pub exit_timeout : Option ℕ
  pub sentinel_event : Bool
  pub handled : List (Record V)

unfoldable pub decode_key : (Text → Option Text) → Key → Option Key
decode_key decode (false, key) = some (false, key)
decode_key decode (true, key) = elim (decode key) [ none ↦ none | some t ↦ some (false, t) ]

unfoldable pub timeout_of : Option ℕ → ℕ → ℕ
timeout_of none now = now + 5
timeout_of (some at) now = at

module _ {V : Type 0} (decode : Text → Option Text) where
  unfoldable pub decode_value : Value V → Option (Value V)
  decode_value (bytes value) = elim (decode value) [ none ↦ none | some t ↦ some (text t) ]
  decode_value (other value) = some (other value)
  decode_value (text value) = some (text value)

  unfoldable pub is_bytes : Key → Value V → Bool
  is_bytes (true, key) value = true
  is_bytes (false, key) (bytes value) = true
  is_bytes (false, key) (other value) = false
  is_bytes (false, key) (text value) = false

  unfoldable pub insert_decoded : Option Key → Option (Value V) → Record V → Option (Record V)
  insert_decoded (some key) (some value) r = some (insert key value r)
  insert_decoded key value r = none

  -- An entry of the copy, and the record so far.
  unfoldable pub decode_entry : Key → Value V → Option (Record V) → Option (Record V)
  decode_entry key value none = none
  decode_entry key value (some r) =
      if is_bytes key value
      then insert_decoded (decode_key decode key) (decode_value value) r
      else some r

  unfoldable pub decode_entries : Record V → Option (Record V) → Option (Record V)
  decode_entries [] r = r
  decode_entries ((key, value) ∷ entries) r = decode_entries entries (decode_entry key value r)

  unfoldable pub checked : Option (Value V) → Record V → Option (Record V)
  checked (some message) r = some r
  checked none r = decode_entries r (some r)

  -- The record that is logged; `none` is an exception.
  unfoldable pub readable : Record V → Option (Record V)
  readable r = checked (lookup (false, codes "message") r) r

  unfoldable pub handle : Option (Record V) → Server V → Server V
  handle none s = s
  handle (some r) s = record s { handled = s.handled ++ (r ∷ []) }

  unfoldable pub receive : Message V → Server V → (Server V → Server V × End) → Server V × End
  receive no_message s rest = rest s
  receive invalid s rest = rest s
  receive (log_record r) s rest = rest (handle (readable r) s)
  receive sentinel s rest = (record s { sentinel_event = true }, stopped)
  receive interrupt s rest = (s, interrupted)

  -- What comes before the poll.
  unfoldable pub wait_for_exit : Round V → Server V → (Server V → Server V × End) → Server V × End
  wait_for_exit round s rest =
      let at = timeout_of s.exit_timeout round.now in
      let s' = record s { exit_timeout = some at } in
      let last = receive round.message s' rest in
      if leb at round.later then (s', timed_out) else last

  unfoldable pub one_round :
      Bool → Round V → Server V → (Server V → Server V × End) → Server V × End
  one_round true round s rest = receive round.message s rest
  one_round false round s rest = wait_for_exit round s rest

  -- `while True`
  unfoldable pub process_logs : List (Round V) → Server V → Server V × End
  process_logs [] s = (s, still_running)
  process_logs (round ∷ rounds) s = one_round round.running round s (process_logs rounds)
