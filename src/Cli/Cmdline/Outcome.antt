-- ===== src/Cli/Cmdline/Outcome.antt =====
-- When `cmdline` fails, and the state that it leaves.
use pytest_salt_factories.Base.{
  ◌≡◌, refl, ◌↔◌, Bool, true, false, Option, none, some, List, [], ◌∷◌, ◌++◌, map, any, ap, ◌∙◌,
  arith, Bool-cases, inl, inr,
}
use pytest_salt_factories.Base.Int.{ℤ}
use pytest_salt_factories.Base.Text.{Text, text_eq}
use pytest_salt_factories.Cli.{
  Class, SaltCli, usage_error, index_error, type_error, Result, ok, err, Value, Host,
  cli_timeout_supported, salt, salt_call, salt_cloud, salt_cp, salt_key, salt_run, spm, salt_ssh,
}
use pytest_salt_factories.Cli.Timeout.{scan_timeout, timeout_flag}
use pytest_salt_factories.Cli.Timeout.Laws.{Exceeds, timeout_flag-Exceeds}
use pytest_salt_factories.Cli.Timeout.Given.{Spelling, spell, is_timeout_flag, scan_timeout-given}
use pytest_salt_factories.Cli.Output.{
  OutputScan, absent, missing, requested, scan_output, output_of, output_flag,
}
use pytest_salt_factories.Cli.Cmdline.{
  with_python, set_target, timeout_block, output_block, str_of, assemble, finish, build_cmdline,
  asks_for_info, tgt_guard, cmdline,
}

with_python-ne-usage :
    (exe : Option Text) (line : List Text) → ¬ (with_python exe line ≡ err usage_error)
unfolding with_python
with_python-ne-usage none line h = cc
with_python-ne-usage (some []) line h = cc
with_python-ne-usage (some (c ∷ s)) [] h = cc
with_python-ne-usage (some (c ∷ s)) (first ∷ rest) h = ground (arith, h)

output_of-ne-usage : (args : List Text) (r : OutputScan) → ¬ (output_of args r ≡ err usage_error)
unfolding output_of
output_of-ne-usage args absent h = cc
output_of-ne-usage args missing h = cc
output_of-ne-usage args (requested true) h = cc
output_of-ne-usage args (requested false) h = cc

output_block-ne-usage : (c : SaltCli) (args : List Text) → ¬ (output_block c args ≡ err usage_error)
unfolding output_block output_flag
output_block-ne-usage c args h = ground (arith, h, output_of-ne-usage args (scan_output args))

module _ {V : Type 0} (host : Host V) where
  finish-ne-usage :
      (c : SaltCli) (flags args : List Text) (kwargs : List (Text × Value V))
      (out : Result (Bool × List Text))
      → ¬ (out ≡ err usage_error)
      → ¬ ((finish host c flags args kwargs out).1 ≡ err usage_error)
  unfolding finish assemble
  finish-ne-usage c flags args kwargs (err usage_error) n h = n refl
  finish-ne-usage c flags args kwargs (err index_error) n h = cc
  finish-ne-usage c flags args kwargs (err type_error) n h = cc
  finish-ne-usage c flags args kwargs (ok (json, out)) n h = with_python-ne-usage _ _ h

  build_cmdline-ne-usage :
      (c : SaltCli) (args : List Text) (tgt : Option Text) (merge : Option Bool)
      (kwargs : List (Text × Value V))
      → ¬ ((build_cmdline host c args tgt merge kwargs).1 ≡ err usage_error)
  unfolding build_cmdline
  build_cmdline-ne-usage c args tgt merge kwargs h =
      finish-ne-usage _ _ args kwargs _ (output_block-ne-usage _ args) h

  -- The hard timeout that a finished call leaves is the one of the timeout block.
  finish-terminal :
      (c : SaltCli) (flags args : List Text) (kwargs : List (Text × Value V))
      (out : Result (Bool × List Text))
      → (finish host c flags args kwargs out).0.terminal_timeout ≡ c.terminal_timeout
  unfolding finish
  finish-terminal c flags args kwargs (err e) = refl
  finish-terminal c flags args kwargs (ok (json, out)) = refl

tgt_guard-fails :
    {V : Type 0} (class : Class) (args : List (Value V)) (tgt : Option Text)
    → (tgt_guard class args tgt ≡ false)
      ↔ ((class ≡ salt) × (tgt ≡ none) × (asks_for_info args ≡ false))
unfolding tgt_guard
tgt_guard-fails salt args none = ground arith
tgt_guard-fails salt args (some t) = ground arith
tgt_guard-fails salt_call args tgt = ground arith
tgt_guard-fails salt_cloud args tgt = ground arith
tgt_guard-fails salt_cp args tgt = ground arith
tgt_guard-fails salt_key args tgt = ground arith
tgt_guard-fails salt_run args tgt = ground arith
tgt_guard-fails spm args tgt = ground arith
tgt_guard-fails (salt_ssh o) args tgt = ground arith

-- `cmdline` raises a usage error exactly for the `salt` CLI with no target and none of the
-- arguments that only ask for information.
pub cmdline-usage_error :
    {V : Type 0} (host : Host V) (c : SaltCli) (args : List (Value V)) (tgt : Option Text)
    (merge : Option Bool) (kwargs : List (Text × Value V))
    → ((cmdline host c args tgt merge kwargs).1 ≡ err usage_error)
      ↔ ((c.class ≡ salt) × (tgt ≡ none) × (asks_for_info args ≡ false))
unfolding cmdline
cmdline-usage_error host c args tgt merge kwargs = elim (Bool-cases (tgt_guard c.class args tgt)) [
  | inl passes ↦ (
    λ h. absurd (
        build_cmdline-ne-usage host c (map (str_of host) args) tgt merge kwargs
          (ground (arith, h, passes))),
    λ h. absurd (ground (arith, passes, (tgt_guard-fails c.class args tgt).1 h)),
  )
  | inr fails ↦ (λ h. (tgt_guard-fails c.class args tgt).0 fails, λ h. rw fails)
]

-- Where the class takes a timeout, and the flags that `cmdline` adds and the caller's arguments have a
-- timeout `N` on them, written `--timeout=N`, `--timeout N` or `-t N`, with no argument before it that is
-- `-t` or begins with `--timeout`: every call, failed ones included, that gets past the target check leaves
-- a hard timeout greater than that first timeout.
pub build_cmdline-Exceeds :
    {V : Type 0} (host : Host V) (c : SaltCli) (args before after : List Text) (tgt : Option Text)
    (merge : Option Bool) (kwargs : List (Text × Value V)) (how : Spelling) (n : ℤ)
    → cli_timeout_supported c.class ≡ true
    → (timeout_flag c.timeout c.terminal_timeout args).1 ++ args ≡ before ++ (spell how n ++ after)
    → any is_timeout_flag before ≡ false
    → Exceeds (build_cmdline host c args tgt merge kwargs).0.terminal_timeout n
unfolding build_cmdline timeout_block set_target
build_cmdline-Exceeds host c args before after tgt merge kwargs how n supported given first =
    rw (finish-terminal, supported)
      (timeout_flag-Exceeds c.timeout c.terminal_timeout args n
        (ap (scan_timeout false) given ∙ scan_timeout-given before after how n first))
