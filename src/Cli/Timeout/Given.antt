-- ===== src/Cli/Timeout/Given.antt =====
-- The ways to give a timeout on a command line, and that the loop over the arguments finds it.
use pytest_salt_factories.Base.{
  suc, ◌≡◌, refl, Bool, true, false, ◌||◌, some, List, [], ◌∷◌, ◌++◌, ◌==◌, any, arith,
}
use pytest_salt_factories.Base.Text.{Text, codes, text_eq, text_methods, starts_with}
use pytest_salt_factories.Base.Int.{ℤ, pos, negsuc}
use pytest_salt_factories.Base.Decimal.{show_nat, show_nat-AllDigits, show_int, parse_int-show_int}
use pytest_salt_factories.Cli.Timeout.{scan_timeout}
use pytest_salt_factories.Cli.Timeout.Laws.{
  starts_with-AllDigits, starts_with-minus, scan_timeout-flag,
}

-- `--timeout=N`, `--timeout N` and `-t N`
pub data Spelling : Type 0 where
  joined long short : Spelling

abbrev pub spell : Spelling → ℤ → List Text
spell joined n = (codes "--timeout=" ++ show_int n) ∷ []
spell long n = codes "--timeout" ∷ show_int n ∷ []
spell short n = codes "-t" ∷ show_int n ∷ []

-- An argument that is `-t` or that begins with `--timeout`.
abbrev pub is_timeout_flag : Text → Bool
is_timeout_flag arg = arg == codes "-t" || starts_with arg (codes "--timeout")

starts_with-shorter : (s p q : Text) → starts_with s p ≡ false → starts_with s (p ++ q) ≡ false
unfolding starts_with
starts_with-shorter s [] q h = cc
starts_with-shorter [] (c ∷ p) q h = refl
starts_with-shorter (d ∷ s) (c ∷ p) q h = ground (arith, h, starts_with-shorter s p q)

show_int-no_flag : (n : ℤ) → starts_with (show_int n) (codes "--timeout=") ≡ false
unfolding codes show_int
show_int-no_flag (pos n) =
    starts_with-AllDigits (codes "-timeout=") (show_nat n) (show_nat-AllDigits n)
show_int-no_flag (negsuc n) =
    starts_with-minus (codes "timeout=") (show_nat (suc n)) (show_nat-AllDigits (suc n))

scan_timeout-next :
    (n : ℤ) (args : List Text) → scan_timeout true (show_int n ∷ args) ≡ some (some n)
unfolding scan_timeout
scan_timeout-next n args = ground (arith, show_int-no_flag n, parse_int-show_int n)

scan_timeout-spell :
    (how : Spelling) (n : ℤ) (args : List Text)
    → scan_timeout false (spell how n ++ args) ≡ some (some n)
unfolding scan_timeout starts_with text_methods
scan_timeout-spell joined n args = scan_timeout-flag n args
scan_timeout-spell long n args = scan_timeout-next n args
scan_timeout-spell short n args = scan_timeout-next n args

no_flag-joined :
    (arg : Text) → is_timeout_flag arg ≡ false → starts_with arg (codes "--timeout=") ≡ false
unfolding codes
no_flag-joined arg h = starts_with-shorter arg (codes "--timeout") (codes "=") (ground (arith, h))

pub scan_timeout-given :
    (before after : List Text) (how : Spelling) (n : ℤ)
    → any is_timeout_flag before ≡ false
    → scan_timeout false (before ++ (spell how n ++ after)) ≡ some (some n)
unfolding scan_timeout any starts_with codes
scan_timeout-given [] after how n none_before = scan_timeout-spell how n after
scan_timeout-given (arg ∷ before) after how n none_before =
    let plain : is_timeout_flag arg ≡ false = ground (arith, none_before) in
    let rest : any is_timeout_flag before ≡ false = ground (arith, none_before) in
    rw (no_flag-joined arg plain, plain) (scan_timeout-given before after how n rest)
