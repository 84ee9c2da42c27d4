-- ===== src/Cli/Timeout/Laws.antt =====
-- What the timeout block guarantees.
use pytest_salt_factories.Base.{
  suc, ◌≡◌, refl, false, Option, none, some, List, [], ◌∷◌, ◌++◌, arith, ap,
}
use pytest_salt_factories.Base.Text.{
  Text, codes, starts_with, has_part, split, last_or, starts_with-append,
}
use pytest_salt_factories.Base.Text.Split.{last_or-split}
use pytest_salt_factories.Base.Int.{ℤ, pos, negsuc, ◌<ℤ◌, lt_ℤ-add}
use pytest_salt_factories.Base.Decimal.{
  AllDigits, show_nat, show_nat-AllDigits, show_int, parse_int, parse_int-show_int,
}
use pytest_salt_factories.Cli.Timeout.{
  scan_timeout, raise_terminal, use_default, timeout_flag, apply_scan,
}

-- The decimal form of an integer does not hold the flag.
AllDigits-absent : (p s : Text) → AllDigits s → has_part (45 ∷ p) s ≡ false
unfolding has_part starts_with
AllDigits-absent p [] h = refl
AllDigits-absent p (c ∷ s) h = ground (arith, AllDigits-absent p s h.2)

pub starts_with-AllDigits : (p s : Text) → AllDigits s → starts_with s (45 ∷ p) ≡ false
unfolding starts_with
starts_with-AllDigits p [] h = refl
starts_with-AllDigits p (c ∷ s) h = ground arith

pub starts_with-minus : (p s : Text) → AllDigits s → starts_with (45 ∷ s) (45 ∷ 45 ∷ p) ≡ false
unfolding starts_with
starts_with-minus p [] h = ground arith
starts_with-minus p (c ∷ s) h = ground arith

negative-absent : (p s : Text) → AllDigits s → has_part (45 ∷ 45 ∷ p) (45 ∷ s) ≡ false
unfolding has_part
negative-absent p s h = ground (arith, starts_with-minus p s h, AllDigits-absent (45 ∷ p) s h)

show_int-absent : (z : ℤ) → has_part (codes "--timeout=") (show_int z) ≡ false
unfolding codes show_int has_part starts_with
show_int-absent (pos n) = AllDigits-absent (codes "-timeout=") (show_nat n) (show_nat-AllDigits n)
show_int-absent (negsuc n) =
    negative-absent (codes "timeout=") (show_nat (suc n)) (show_nat-AllDigits (suc n))

last_or-timeout :
    (z : ℤ)
    → last_or [] (split (codes "--timeout=") (codes "--timeout=" ++ show_int z)) ≡ show_int z
unfolding codes
last_or-timeout z = last_or-split 45 (codes "-timeout=") (show_int z) (show_int-absent z)

pub scan_timeout-flag :
    (z : ℤ) (args : List Text)
    → scan_timeout false ((codes "--timeout=" ++ show_int z) ∷ args) ≡ some (some z)
unfolding scan_timeout
scan_timeout-flag z args = ground (
  arith,
  starts_with-append (codes "--timeout=") (show_int z),
  ap (λ s. some (parse_int s)) (last_or-timeout z),
  parse_int-show_int z,
)

-- A hard timeout that is set, and greater than `n`.
abbrev pub Exceeds : Option ℤ → ℤ → Type 0
Exceeds none n = ⊥
Exceeds (some t) n = n <ℤ t

raise_terminal-Exceeds : (terminal : Option ℤ) (n : ℤ) → Exceeds (raise_terminal terminal n) n
unfolding raise_terminal
raise_terminal-Exceeds none n = lt_ℤ-add n 20 (omega arith)
raise_terminal-Exceeds (some t) n = ground (arith, lt_ℤ-add n 20)

use_default-Exceeds :
    (wanted terminal : Option ℤ) (args : List Text) (n : ℤ)
    → scan_timeout false args ≡ none
    → scan_timeout false ((use_default wanted terminal).1 ++ args) ≡ some (some n)
    → Exceeds (use_default wanted terminal).0 n
unfolding use_default
use_default-Exceeds none terminal args n none_given h = cc
use_default-Exceeds (some z) terminal args n none_given h =
    ground (arith, scan_timeout-flag z args, lt_ℤ-add z 20)

apply_scan-Exceeds :
    (timeout terminal : Option ℤ) (args : List Text) (n : ℤ) (r : Option (Option ℤ))
    → scan_timeout false args ≡ r
    → scan_timeout false ((apply_scan timeout terminal r).1 ++ args) ≡ some (some n)
    → Exceeds (apply_scan timeout terminal r).0 n
unfolding apply_scan
apply_scan-Exceeds timeout terminal args n none e h = use_default-Exceeds _ terminal args n e h
apply_scan-Exceeds timeout terminal args n (some none) e h = cc
apply_scan-Exceeds timeout terminal args n (some (some z)) e h =
    let same : n ≡ z = cc in rw same (raise_terminal-Exceeds terminal z)

-- Whatever timeout Salt reads from the arguments that it is given, passed or default, the hard
-- timeout is set and greater.
pub timeout_flag-Exceeds :
    (timeout terminal : Option ℤ) (args : List Text) (n : ℤ)
    → scan_timeout false ((timeout_flag timeout terminal args).1 ++ args) ≡ some (some n)
    → Exceeds (timeout_flag timeout terminal args).0 n
unfolding timeout_flag
timeout_flag-Exceeds timeout terminal args n h =
    apply_scan-Exceeds timeout terminal args n (scan_timeout false args) refl h
