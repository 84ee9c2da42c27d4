-- ===== src/Base/Decimal.antt =====
-- `str(n)` and `int(s)`, over ASCII digits.
use Prim.Native.Nat.{ℕ, zero, suc, ◌+◌, ◌-◌, ◌*◌, ◌/◌, ◌%◌, ◌≤◌, ◌<◌}
use mathlib.Core.Path.{◌≡◌, refl, ◌∙◌, ap}
use mathlib.Core.Bool.{Bool, true, false, ◌&&◌}
use mathlib.Core.Logic.{inl, inr}
use mathlib.Core.Option
use mathlib.Core.Option.{Option, none, some}
use mathlib.Core.List.{[], ◌∷◌, ◌++◌, reverse, reverse-reverse, reverse-append}
use native.Mathlib.Omega.{arith}
use native.Mathlib.Nat.{zero-add}
use pytest_salt_factories.Base.Tests.{if◌then◌else◌, leb, ltb, Bool-cases}
use pytest_salt_factories.Base.Equality.{◌==◌, nat_eq}
use pytest_salt_factories.Base.Int.{ℤ, pos, negsuc, sub_ℕ}
use pytest_salt_factories.Base.Text.{Text, strip, lstrip}

abbrev is_digit : ℕ → Bool
is_digit c = leb 48 c && leb c 57

digits_of : ℕ → ℕ → Text → Text
digits_of zero n s = s
digits_of (suc fuel) n s =
    let more = digits_of fuel (n / 10) ((48 + n % 10) ∷ s) in
    if ltb n 10 then (48 + n) ∷ s else more

-- `str(n)`. A number has at most as many digits as it is large, and one more.
unfoldable pub show_nat : ℕ → Text
unfolding digits_of
show_nat n = digits_of (suc n) n []

unfoldable pub show_int : ℤ → Text
show_int (pos n) = show_nat n
show_int (negsuc n) = 45 ∷ show_nat (suc n)

-- Digits with single underscores between them. `last` tells that a digit came last.
parse_digits : Bool → ℕ → Text → Option ℕ
unfolding nat_eq
parse_digits last acc [] = if last then some acc else none
parse_digits last acc (c ∷ s) = elim (is_digit c) [
  | true ↦ parse_digits true (acc * 10 + (c - 48)) s
  | false ↦ elim (last && c == 95) [ true ↦ parse_digits false acc s | false ↦ none ]
]

parse_signed : Text → Option ℤ
unfolding parse_digits nat_eq
parse_signed [] = none
parse_signed (c ∷ s) =
    if c == 45
    then Option.map (λ n. sub_ℕ 0 n) (parse_digits false 0 s)
    else if c == 43
    then Option.map pos (parse_digits false 0 s)
    else Option.map pos (parse_digits false 0 (c ∷ s))

-- `int(s)`; `none` is the `ValueError`.
unfoldable pub parse_int : Text → Option ℤ
unfolding parse_signed
parse_int s = parse_signed (strip s)

parse_digits-cons :
    (last : Bool) (acc d : ℕ) (s : Text)
    → d < 10
    → parse_digits last acc ((48 + d) ∷ s) ≡ parse_digits true (acc * 10 + d) s
unfolding parse_digits
parse_digits-cons last acc d s h = ground arith

parse_digits-digits_of :
    (fuel n : ℕ) (last : Bool) (s : Text)
    → n < fuel
    → parse_digits last 0 (digits_of fuel n s) ≡ parse_digits true n s
unfolding digits_of
parse_digits-digits_of zero n last s h = elim h [ ]
parse_digits-digits_of (suc fuel) n last s h = elim (Bool-cases (ltb n 10)) [
  | inl small ↦ rw small (parse_digits-cons last 0 n s (ground arith) ∙ rw zero-add)
  | inr large ↦ rw large (
      parse_digits-digits_of fuel (n / 10) last _ (ground arith)
      ∙ parse_digits-cons true (n / 10) (n % 10) s (omega arith)
      ∙ ap (λ k. parse_digits true k s) (omega arith))
]

-- A character of the decimal form of a number.
abbrev pub AllDigits : Text → Type 0
AllDigits [] = Unit
AllDigits (c ∷ s) = (48 ≤ c) × (c ≤ 57) × AllDigits s

digits_of-AllDigits : (fuel n : ℕ) (s : Text) → AllDigits s → AllDigits (digits_of fuel n s)
unfolding digits_of
digits_of-AllDigits zero n s h = h
digits_of-AllDigits (suc fuel) n s h = elim (Bool-cases (ltb n 10)) [
  | inl small ↦ rw small (omega arith, ground arith, h)
  | inr large ↦ rw large (digits_of-AllDigits fuel (n / 10) _ (omega arith, omega arith, h))
]

pub show_nat-AllDigits : (n : ℕ) → AllDigits (show_nat n)
unfolding show_nat
show_nat-AllDigits n = digits_of-AllDigits (suc n) n [] tt

AllDigits-append : (s t : Text) → AllDigits s → AllDigits t → AllDigits (s ++ t)
AllDigits-append [] t hs ht = ht
AllDigits-append (c ∷ s) t (lo, hi, hs) ht = (lo, hi, AllDigits-append s t hs ht)

AllDigits-reverse : (s : Text) → AllDigits s → AllDigits (reverse s)
AllDigits-reverse [] h = tt
AllDigits-reverse (c ∷ s) (lo, hi, h) =
    rw (reverse-append (c ∷ []) s)
      (AllDigits-append (reverse s) (c ∷ []) (AllDigits-reverse s h) (lo, hi, tt))

lstrip-AllDigits : (s : Text) → AllDigits s → lstrip s ≡ s
unfolding lstrip nat_eq
lstrip-AllDigits [] h = refl
lstrip-AllDigits (c ∷ s) h = ground arith

lstrip-append_minus : (s : Text) → AllDigits s → lstrip (s ++ 45 ∷ []) ≡ s ++ 45 ∷ []
unfolding lstrip nat_eq
lstrip-append_minus [] h = refl
lstrip-append_minus (c ∷ s) h = ground arith

strip-AllDigits : (s : Text) → AllDigits s → strip s ≡ s
unfolding strip
strip-AllDigits s h =
    rw (lstrip-AllDigits s h)
      (rw (lstrip-AllDigits (reverse s) (AllDigits-reverse s h)) (reverse-reverse s))

lstrip-minus : (s : Text) → lstrip (45 ∷ s) ≡ 45 ∷ s
unfolding lstrip nat_eq
lstrip-minus s = refl

strip-minus : (s : Text) → AllDigits s → strip (45 ∷ s) ≡ 45 ∷ s
unfolding strip
strip-minus s h =
    rw (lstrip-minus s, reverse-append (45 ∷ []) s)
      (rw (lstrip-append_minus (reverse s) (AllDigits-reverse s h))
        (rw (reverse-append (reverse s) (45 ∷ []), reverse-reverse s)))

parse_signed-AllDigits :
    (s : Text) {n : ℕ}
    → AllDigits s
    → parse_digits false 0 s ≡ some n
    → parse_signed s ≡ some (pos n)
unfolding parse_signed nat_eq
parse_signed-AllDigits [] h e = cc
parse_signed-AllDigits (c ∷ s) h e = ground (arith, e)

parse_signed-minus :
    (s : Text) (n : ℕ)
    → parse_digits false 0 s ≡ some (suc n)
    → parse_signed (45 ∷ s) ≡ some (negsuc n)
unfolding parse_signed nat_eq
parse_signed-minus s n e = rw e (ground arith)

parse_digits-show_nat : (n : ℕ) → parse_digits false 0 (show_nat n) ≡ some n
unfolding show_nat parse_digits
parse_digits-show_nat n = parse_digits-digits_of (suc n) n false [] (omega arith)

-- Reading the decimal form of an integer gives it back.
pub parse_int-show_int : (z : ℤ) → parse_int (show_int z) ≡ some z
unfolding parse_int show_int
parse_int-show_int (pos n) =
    let digits = show_nat-AllDigits n in
    rw (strip-AllDigits (show_nat n) digits)
      (parse_signed-AllDigits (show_nat n) digits (parse_digits-show_nat n))
parse_int-show_int (negsuc n) =
    rw (strip-minus (show_nat (suc n)) (show_nat-AllDigits (suc n)))
      (parse_signed-minus (show_nat (suc n)) n (parse_digits-show_nat (suc n)))

-- All of this module, for the runs of tests.
unfoldable pub decimals : Unit {0}
unfolding show_int show_nat parse_int
decimals = tt
