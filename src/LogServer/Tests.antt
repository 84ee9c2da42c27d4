-- ===== src/LogServer/Tests.antt =====
-- A log server that gets some records, one of them of Python 2, and one that nobody stops.
use pytest_salt_factories.Base.{
  ℕ, ◌≡◌, refl, Bool, true, false, Option, none, some, List, [], ◌∷◌, ◌++◌, nat_eq, any,
  if◌then◌else◌,
}
use pytest_salt_factories.Base.Text.{Text, codes, text_eq, text_methods, starts_with}
use pytest_salt_factories.Base.Dict.{lookup, insert}
use pytest_salt_factories.LogServer.{
  bool_discrete, key_eq, bytes, text, other, Record, Message, no_message, sentinel, invalid,
  log_record, Round, stopped, timed_out, Server, decode_key, timeout_of, decode_value, is_bytes,
  insert_decoded, decode_entry, decode_entries, checked, readable, handle, receive, wait_for_exit,
  one_round, process_logs,
}
use pytest_salt_factories.LogServer.Laws.{is_over, handled-process_logs, process_logs-over}

program : Unit {0}
unfolding text_methods nat_eq any lookup insert bool_discrete key_eq decode_key timeout_of
    decode_value is_bytes insert_decoded decode_entry decode_entries checked readable handle receive
    wait_for_exit one_round process_logs
program = tt

-- Bytes that start with a `?` cannot be decoded.
abbrev decode : Text → Option Text
decode t = if starts_with t (codes "?") then none else some t

abbrev said : Record ℕ
said = ((false, codes "message"), text (codes "a")) ∷ []

abbrev old : Record ℕ
old = ((true, codes "message"), bytes (codes "b")) ∷ ((false, codes "level"), other 3) ∷ []

abbrev broken : Record ℕ
broken = ((true, codes "?"), other 1) ∷ []

abbrev new_server : Server ℕ
new_server = record { exit_timeout = none; sentinel_event = false; handled = [] }

abbrev round_with : Bool → ℕ → Message ℕ → Round ℕ
round_with running now message = record {
  running = running;
  now = now;
  later = now;
  message = message;
}

abbrev busy : List (Round ℕ)
busy =
    round_with true 1 (log_record said)
    ∷ round_with true 2 invalid
    ∷ round_with true 3 (log_record broken)
    ∷ round_with true 4 (log_record old)
    ∷ round_with true 5 sentinel
    ∷ round_with true 6 (log_record said)
    ∷ []

-- The keys of bytes stay, beside those that they are decoded to.
abbrev old_decoded : Record ℕ
old_decoded = old ++ (((false, codes "message"), text (codes "b")) ∷ [])

busy_ends : (process_logs decode busy new_server).1 ≡ stopped
unfolding program
busy_ends = refl

handled-process_logs_example :
    (process_logs decode busy new_server).0.handled ≡ said ∷ old_decoded ∷ []
unfolding program
handled-process_logs_example = handled-process_logs decode busy new_server refl

abbrev idle : List (Round ℕ)
idle = round_with false 3 (log_record said) ∷ round_with false 8 no_message ∷ []

idle_ends : (process_logs decode idle new_server).1 ≡ timed_out
unfolding program
idle_ends = refl

process_logs-over_example : is_over (process_logs decode idle new_server).1 ≡ true
unfolding program
process_logs-over_example =
    process_logs-over decode (round_with false 3 (log_record said))
      (round_with false 8 no_message ∷ []) new_server refl refl refl
