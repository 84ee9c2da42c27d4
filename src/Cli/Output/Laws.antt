-- ===== src/Cli/Output/Laws.antt =====
-- `__json_output__` tells what the command line asks for, and when the look-ahead fails.
use pytest_salt_factories.Base.{
  ◌≡◌, refl, ◌↔◌, Bool, true, false, ◌||◌, List, [], ◌∷◌, ◌++◌, arith, any, ap, Bool-cases, inl,
  inr,
}
use pytest_salt_factories.Base.Text.{Text, codes, text_eq, text_methods}
use pytest_salt_factories.Cli.{ok, err, index_error}
use pytest_salt_factories.Cli.Flags.{out_indent_flag, default_unless}
use pytest_salt_factories.Cli.Output.{
  is_bare_out, is_out_with, OutputScan, absent, missing, requested, scan_output, output_of,
  output_flag,
}

scan_output-default : (args : List Text) → scan_output (codes "--out=json" ∷ args) ≡ requested true
unfolding scan_output text_methods
scan_output-default args = refl

scan_output-indent_arg :
    (rest : List Text) → scan_output (codes "--out-indent=0" ∷ rest) ≡ scan_output rest
unfolding scan_output text_methods
scan_output-indent_arg rest = refl

scan_output-out_indent :
    (args rest : List Text) → scan_output (out_indent_flag args ++ rest) ≡ scan_output rest
unfolding out_indent_flag default_unless
scan_output-out_indent args rest = ground (arith, scan_output-indent_arg rest)

output_of-scan :
    (args : List Text) (r : OutputScan) {json : Bool} {out : List Text}
    → scan_output args ≡ r
    → output_of args r ≡ ok (json, out)
    → scan_output (out ++ args) ≡ requested json
unfolding output_of
output_of-scan args absent e h = ground (arith, scan_output-default (out_indent_flag args ++ args))
output_of-scan args missing e h = cc
output_of-scan args (requested true) e h = ground (arith, scan_output-out_indent args args)
output_of-scan args (requested false) e h = ground arith

-- When the output block succeeds, its flags in front of the arguments ask Salt for exactly the
-- output, JSON or not, that the block reports.
pub output_flag-scan :
    (args : List Text) {json : Bool} {out : List Text}
    → output_flag args ≡ ok (json, out)
    → scan_output (out ++ args) ≡ requested json
unfolding output_flag
output_flag-scan args h = output_of-scan args (scan_output args) refl h

-- The arguments end in an output flag with no value behind it, and no output flag before it.
abbrev pub EndsBare : List Text → Type 0
EndsBare args =
    (front : List Text) × (flag : Text) × (args ≡ front ++ (flag ∷ []))
    × (is_bare_out flag ≡ true)
    × (any (λ arg. is_bare_out arg || is_out_with arg) front ≡ false)

scan_output-missing : (args : List Text) → scan_output args ≡ missing → EndsBare args
unfolding scan_output any
scan_output-missing [] h = cc
scan_output-missing (arg ∷ []) h = elim (Bool-cases (is_bare_out arg)) [
  | inl bare ↦ ([], arg, refl, bare, refl)
  | inr other ↦ absurd (ground (arith, h, other))
]
scan_output-missing (arg ∷ next ∷ args) h =
    let (front, flag, split_at, bare, clean) =
      scan_output-missing (next ∷ args) (ground (arith, h)) in
    (arg ∷ front, flag, ap {B = List Text} (λ l. arg ∷ l) split_at, bare, ground (arith, h, clean))

EndsBare-missing :
    (front : List Text) (flag : Text)
    → is_bare_out flag ≡ true
    → any (λ arg. is_bare_out arg || is_out_with arg) front ≡ false
    → scan_output (front ++ (flag ∷ [])) ≡ missing
unfolding scan_output any
EndsBare-missing [] flag bare clean = ground arith
EndsBare-missing (arg ∷ front) flag bare clean = ground (arith, EndsBare-missing front flag bare)

output_of-error :
    (args : List Text) (r : OutputScan) → output_of args r ≡ err index_error → r ≡ missing
unfolding output_of
output_of-error args absent h = cc
output_of-error args missing h = refl
output_of-error args (requested true) h = cc
output_of-error args (requested false) h = cc

-- The output block fails, with an `IndexError`, exactly when the first output flag is a bare one at
-- the end of the arguments.
pub output_flag-error : (args : List Text) → (output_flag args ≡ err index_error) ↔ EndsBare args
unfolding output_flag output_of
output_flag-error args = (
  λ h. scan_output-missing args (output_of-error args (scan_output args) h),
  λ (front, flag, split_at, bare, clean). rw split_at (rw (EndsBare-missing front flag bare clean)),
)
