-- ===== src/Cli/Timeout.antt =====
-- The timeout block of `SaltCli.cmdline`: the `--timeout` flag and the hard timeout of the process.
pub mod Laws
pub mod Given
use pytest_salt_factories.Base.{
  Bool, true, false, ◌||◌, ◌&&◌, Option, none, some, List, [], ◌∷◌, ◌++◌, ◌==◌, if◌then◌else◌,
}
use pytest_salt_factories.Base.Text.{Text, codes, text_eq, starts_with, split, last_or}
use pytest_salt_factories.Base.Int.{ℤ, pos, ◌+ℤ◌, leb_ℤ, ltb_ℤ, truthy_ℤ}
use pytest_salt_factories.Base.Decimal.{show_int, parse_int}

-- `SALT_TIMEOUT_FLAG_INCREASE`
abbrev pub salt_timeout_flag_increase : ℤ
salt_timeout_flag_increase = pos 20

-- The loop over the arguments. `next` is `salt_cli_timeout_next`. `none`: the loop ran to its end;
-- `some none`: it met a value that is no number; `some (some n)`: it met the timeout `n`.
unfoldable pub scan_timeout : Bool → List Text → Option (Option ℤ)
scan_timeout next [] = none
scan_timeout next (arg ∷ args) = elim (starts_with arg (codes "--timeout=")) [
  | true ↦ some (parse_int (last_or [] (split (codes "--timeout=") arg)))
  | false ↦ elim next [
    | true ↦ some (parse_int arg)
    | false ↦ scan_timeout (arg == codes "-t" || starts_with arg (codes "--timeout")) args
  ]
]

-- A timeout that the caller passed raises the hard timeout above it.
unfoldable pub raise_terminal : Option ℤ → ℤ → Option ℤ
raise_terminal none n = some (n +ℤ salt_timeout_flag_increase)
raise_terminal (some t) n = if leb_ℤ t n then some (n +ℤ salt_timeout_flag_increase) else some t

-- `salt_cli_timeout` of the loop's `else`, from `self.timeout` and the hard timeout.
unfoldable pub default_timeout : Option ℤ → Option ℤ → Option ℤ
default_timeout none none = none
default_timeout (some s) none = some s
default_timeout none (some t) = if truthy_ℤ t then some t else none
default_timeout (some s) (some t) =
    if truthy_ℤ s
    then (if truthy_ℤ t && ltb_ℤ s t then some t else some s)
    else (if truthy_ℤ t then some t else some s)

-- The hard timeout and the flags that the default adds.
unfoldable pub use_default : Option ℤ → Option ℤ → Option ℤ × List Text
use_default none terminal = (terminal, [])
use_default (some n) terminal =
    if truthy_ℤ n
    then (some (n +ℤ salt_timeout_flag_increase), (codes "--timeout=" ++ show_int n) ∷ [])
    else (terminal, [])

-- What follows the loop's outcome.
unfoldable pub apply_scan : Option ℤ → Option ℤ → Option (Option ℤ) → Option ℤ × List Text
apply_scan timeout terminal (some none) = (terminal, [])
apply_scan timeout terminal (some (some n)) = (raise_terminal terminal n, [])
apply_scan timeout terminal none = use_default (default_timeout timeout terminal) terminal

-- The whole block: from `self.timeout`, the hard timeout and the arguments, the new hard timeout
-- and the flags to add.
unfoldable pub timeout_flag : Option ℤ → Option ℤ → List Text → Option ℤ × List Text
timeout_flag timeout terminal args = apply_scan timeout terminal (scan_timeout false args)
