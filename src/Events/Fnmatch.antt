-- ===== src/Events/Fnmatch.antt =====
-- `fnmatch.fnmatch` on a system with case-sensitive paths: a pattern is read into tokens, and the
-- tokens are matched against the whole text.
pub mod Laws
use pytest_salt_factories.Base.{
  ℕ, zero, suc, ◌+◌, Bool, true, false, not, ◌&&◌, ◌||◌, Option, none, some, List, [], ◌∷◌, ◌++◌,
  ◌==◌, nat_eq, any, leb, drop, if◌then◌else◌,
}
use mathlib.Core.Option
use pytest_salt_factories.Base.Text.{Text}

pub data Token : Type 0 where
  star any_char : Token
  lit : ℕ → Token
  one_of : (negated : Bool) (ranges : List (ℕ × ℕ)) → Token

abbrev in_range : ℕ → ℕ × ℕ → Bool
in_range c (lo, hi) = leb lo c && leb c hi

-- The ranges between the brackets. A reversed range holds nothing.
unfoldable pub parse_ranges : Text → List (ℕ × ℕ)
parse_ranges [] = []
parse_ranges (a ∷ []) = (a, a) ∷ []
parse_ranges (a ∷ b ∷ []) = (a, a) ∷ (b, b) ∷ []
parse_ranges (a ∷ dash ∷ b ∷ r) = elim (dash == b'-') [
  | true ↦ (a, b) ∷ parse_ranges r
  | false ↦ (a, a) ∷ parse_ranges (dash ∷ b ∷ r)
]

-- The position of the first `]`.
unfoldable pub close_at : Text → Option ℕ
close_at [] = none
close_at (c ∷ s) =
    let rest = close_at s in if c == b']' then some 0 else Option.map (λ i. suc i) rest

abbrev take_ : ℕ → Text → Text
take_ zero s = []
take_ (suc n) [] = []
take_ (suc n) (c ∷ s) = c ∷ take_ n s

-- `!` behind the bracket, and a `]` that stands first and is an item.
abbrev bang : Text → Bool
bang [] = false
bang (c ∷ s) = c == b'!'

abbrev leading_close : Text → ℕ
leading_close [] = 0
leading_close (c ∷ s) = if c == b']' then 1 else 0

-- A set behind `[`: its token, and the characters that it takes up, `]` included.
unfoldable pub parse_set : Text → Option (Token × ℕ)
parse_set s =
    let start : ℕ = if bang s then 1 else 0 in
    let body = drop start s in
    let first = leading_close body in
    Option.map
      (λ i. (one_of (bang s) (parse_ranges (take_ (first + i) body)), start + first + i + 1))
      (close_at (drop first body))

unfoldable pub parse_from : ℕ → Text → List Token
parse_from skip [] = []
parse_from (suc skip) (c ∷ s) = parse_from skip s
parse_from zero (c ∷ s) = elim (c == b'*') [
  | true ↦ star ∷ parse_from zero s
  | false ↦ elim (c == b'?') [
    | true ↦ any_char ∷ parse_from zero s
    | false ↦ elim (c == b'[') [
      | true ↦ elim (parse_set s) [
        | none ↦ lit c ∷ parse_from zero s
        | some (t, n) ↦ t ∷ parse_from n s
      ]
      | false ↦ lit c ∷ parse_from zero s
    ]
  ]
]

-- Some end of the text is accepted.
unfoldable pub any_end : (Text → Bool) → Text → Bool
any_end p [] = p []
any_end p (c ∷ s) = p (c ∷ s) || any_end p s

unfoldable pub accepts : Token → ℕ → Bool
accepts star c = false
accepts any_char c = true
accepts (lit d) c = c == d
accepts (one_of negated ranges) c =
    if negated then not (any (in_range c) ranges) else any (in_range c) ranges

-- One token, and the rest of the pattern as a test.
abbrev token_match : Token → (Text → Bool) → Text → Bool
token_match star rest s = any_end rest s
token_match t rest [] = false
token_match t rest (c ∷ s) = accepts t c && rest s

unfoldable pub matches : List Token → Text → Bool
matches [] [] = true
matches [] (c ∷ s) = false
matches (t ∷ ts) s = token_match t (matches ts) s

unfoldable pub fnmatch : Text → Text → Bool
fnmatch name pat = matches (parse_from 0 pat) name
