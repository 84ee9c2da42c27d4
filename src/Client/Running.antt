-- ===== src/Client/Running.antt =====
-- `STATE_FUNCTION_RUNNING_RE` of src/saltfactories/client.py, with the greedy matching of Python's
-- `re.match` written out for what it uses. Digits are those of ASCII.
use pytest_salt_factories.Base.{
  ℕ, Bool, ◌&&◌, ◌||◌, Option, none, some, List, [], ◌∷◌, ◌==◌, nat_eq, leb, length, drop,
  if◌then◌else◌,
}
use pytest_salt_factories.Base.Text.{Text, codes, starts_with}

-- A piece of a pattern: a text, either quote, `.*` or `\d+`.
pub data Piece : Type 0 where
  lit : Text → Piece
  quote any_text digits : Piece

unfoldable pub or_else : Option Text → Option Text → Option Text
or_else (some t) o = some t
or_else none o = o

unfoldable pub is_quote : ℕ → Bool
is_quote c = c == 34 || c == 39

unfoldable pub is_digit : ℕ → Bool
is_digit c = leb 48 c && leb c 57

-- `.*`: as much as can be, so that the rest matches. A dot is no newline.
unfoldable pub greedy : (Text → Option Text) → Text → Option Text
greedy rest [] = rest []
greedy rest (c ∷ s) =
    let longer = greedy rest s in or_else (if c == 10 then none else longer) (rest (c ∷ s))

unfoldable pub some_digits : (Text → Option Text) → Text → Option Text
some_digits rest [] = rest []
some_digits rest (c ∷ s) =
    let longer = some_digits rest s in or_else (if is_digit c then longer else none) (rest (c ∷ s))

unfoldable pub after_quote : (Text → Option Text) → Text → Option Text
after_quote rest [] = none
after_quote rest (c ∷ s) = if is_quote c then rest s else none

unfoldable pub after_digits : (Text → Option Text) → Text → Option Text
after_digits rest [] = none
after_digits rest (c ∷ s) = if is_digit c then some_digits rest s else none

-- The digits that a text starts with.
unfoldable pub leading_digits : Text → Text
leading_digits [] = []
leading_digits (c ∷ s) = let more = leading_digits s in if is_digit c then c ∷ more else []

-- The last group, `\d+`.
unfoldable pub last_digits : Text → Option Text
last_digits [] = none
last_digits (c ∷ s) = if is_digit c then some (c ∷ leading_digits s) else none

unfoldable pub match_pieces : List Piece → Text → Option Text
match_pieces [] s = last_digits s
match_pieces (lit t ∷ pieces) s =
    if starts_with s t then match_pieces pieces (drop (length t) s) else none
match_pieces (quote ∷ pieces) s = after_quote (match_pieces pieces) s
match_pieces (any_text ∷ pieces) s = greedy (match_pieces pieces) s
match_pieces (digits ∷ pieces) s = after_digits (match_pieces pieces) s

unfoldable pub state_function_running : List Piece
state_function_running =
    lit (codes "The function ")
    ∷ quote
    ∷ any_text
    ∷ quote
    ∷ lit (codes " is running as PID ")
    ∷ digits
    ∷ lit (codes " and was started at ")
    ∷ any_text
    ∷ lit (codes " with jid ")
    ∷ []

-- The group `jid`, where a text matches.
unfoldable pub jid_of : Text → Option Text
jid_of t = match_pieces state_function_running t
