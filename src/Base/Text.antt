-- ===== src/Base/Text.antt =====
-- Python's `str` as the list of its code points, with the methods that the program calls.
pub mod Split
use Prim.Native.Char.{code}
use Prim.Native.Nat.{ℕ, zero, suc, ◌-◌}
use Prim.Native.String
use Prim.Native.String.{String}
use mathlib.Core.Path.{◌≡◌, refl}
use mathlib.Core.Bool.{Bool, true, false, ◌||◌, ◌&&◌, not}
use mathlib.Core.Option.{Option, none, some}
use mathlib.Core.List.{List, [], ◌∷◌, ◌++◌, reverse}
use native.Mathlib.Decide.{ℕ_discrete}
use native.Mathlib.Omega.{arith}
use pytest_salt_factories.Base.Tests.{if◌then◌else◌, leb}
use pytest_salt_factories.Base.Equality.{Eq, ◌==◌, nat_eq}
use pytest_salt_factories.Base.Lists.{length}

abbrev pub Text : Type 0
Text = List ℕ

-- A literal.
unfoldable pub codes : String → Text
codes String.[] = []
codes (String.◌∷◌ c s) = code c ∷ codes s

unfoldable pub text_discrete : Discrete Text
unfolding ℕ_discrete
text_discrete = hlevel ℕ_discrete

instance unfoldable pub text_eq : Eq Text
text_eq = record { dec = text_discrete }

-- `s.startswith(prefix)`
unfoldable pub starts_with : Text → Text → Bool
starts_with s [] = true
starts_with [] (p ∷ ps) = false
starts_with (c ∷ s) (p ∷ ps) = c == p && starts_with s ps

-- `part in s`
unfoldable pub has_part : Text → Text → Bool
has_part part [] = starts_with [] part
has_part part (c ∷ s) = starts_with (c ∷ s) part || has_part part s

-- The pieces of `s.split(sep)`. `skip` characters of a separator are still to pass.
unfoldable pub split_from : Text → ℕ → Text → Text → List Text
split_from sep skip piece [] = piece ∷ []
split_from sep (suc skip) piece (c ∷ s) = split_from sep skip piece s
split_from sep zero piece (c ∷ s) = elim (starts_with (c ∷ s) sep) [
  | true ↦ piece ∷ split_from sep (length sep - 1) [] s
  | false ↦ split_from sep zero (piece ++ (c ∷ [])) s
]

unfoldable pub split : Text → Text → List Text
split sep s = split_from sep 0 [] s

-- `pieces[-1]`; `split` returns at least one piece.
abbrev pub last_or {ℓ} : {A : Type ℓ} → A → List A → A
last_or d [] = d
last_or d (x ∷ xs) = last_or x xs

-- `new.join(pieces)`
abbrev pub join : Text → List Text → Text
join sep [] = []
join sep (x ∷ []) = x
join sep (x ∷ y ∷ r) = x ++ (sep ++ join sep (y ∷ r))

-- `s.replace(old, new)`
unfoldable pub replace : Text → Text → Text → Text
replace old new s = join new (split old s)

-- `s.split("\n", 1)[1]`, if there is a second piece.
unfoldable pub after_newline : Text → Option Text
after_newline [] = none
after_newline (c ∷ s) = let rest = after_newline s in if c == 10 then some s else rest

-- ASCII white space.
abbrev pub is_space : ℕ → Bool
is_space c = c == 32 || (leb 9 c && leb c 13) || (leb 28 c && leb c 31)

unfoldable pub lstrip : Text → Text
lstrip [] = []
lstrip (c ∷ s) = let rest = lstrip s in if is_space c then rest else c ∷ s

-- `s.strip()`
unfoldable pub strip : Text → Text
strip s = reverse (lstrip (reverse (lstrip s)))

pub starts_with-append : (p s : Text) → starts_with (p ++ s) p ≡ true
unfolding starts_with
starts_with-append [] s = refl
starts_with-append (c ∷ p) s = ground (arith, starts_with-append p s)

-- All of this module, for the runs of tests.
unfoldable pub text_methods : Unit {0}
unfolding codes text_eq text_discrete nat_eq starts_with has_part split_from split replace
    after_newline lstrip strip
text_methods = tt
