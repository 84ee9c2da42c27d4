-- ===== src/Daemon/Laws.antt =====
-- The command line of a daemon.
use pytest_salt_factories.Base.{
  ◌≡◌, refl, sym, ◌∙◌, ap, true, ◌&&◌, not, Option, none, some, List, [], ◌∷◌, ◌++◌, arith, any,
  any-append, Bool-cases, inl, inr, ◌⊎◌, ◌||◌,
}
use pytest_salt_factories.Base.Text.{Text, codes, text_eq, starts_with, text_methods}
use pytest_salt_factories.Cli.{Value, text, ok, err, usage_error}
use pytest_salt_factories.Cli.Flags.{
  is_config_dir, is_log_level, default_unless, default_unless-any, config_dir-is_config_dir,
}
use pytest_salt_factories.Events.Wait.{is_empty}
use pytest_salt_factories.Daemon.{
  SaltDaemon, salt_daemon, texts, as_values, is_the, insert_python, added_args, cmdline,
}

-- A base class whose command line ends in the arguments that it is given.
abbrev pub KeepsArgs : {V : Type 0} → (List (Value V) → List (Value V)) → Type 0
KeepsArgs {V} base_cmdline =
    (args : List (Value V)) → (front : List (Value V)) × (base_cmdline args ≡ front ++ args)

insert_python-ends :
    {V : Type 0} (exe : Option Text) (front args out : List (Value V))
    → insert_python exe (front ++ args) ≡ ok out
    → (front' : List (Value V)) × (out ≡ front' ++ args)
unfolding insert_python
insert_python-ends none front args out h = (front, cc)
insert_python-ends (some []) front args out h = (front, cc)
insert_python-ends (some (c ∷ exe)) [] [] out h = cc
insert_python-ends (some (c ∷ exe)) [] (x ∷ args) out h = elim (Bool-cases (is_the (c ∷ exe) x)) [
  | inl same ↦ ([], ground (arith, h, same))
  | inr new ↦ (text (c ∷ exe) ∷ [], ground (arith, h, new))
]
insert_python-ends (some (c ∷ exe)) (x ∷ front) args out h =
    elim (Bool-cases (is_the (c ∷ exe) x)) [
      | inl same ↦ (x ∷ front, ground (arith, h, same))
      | inr new ↦ (text (c ∷ exe) ∷ x ∷ front, ground (arith, h, new))
    ]

critical-is_log_level : is_log_level (codes "--log-level=critical") ≡ true
unfolding is_log_level codes starts_with text_methods
critical-is_log_level = refl

debug-is_log_level : is_log_level (codes "--log-level=debug") ≡ true
unfolding is_log_level codes starts_with text_methods
debug-is_log_level = refl

-- The flags in front of the arguments.
abbrev pub flagged : {V : Type 0} → SaltDaemon → List (Value V) → List Text
flagged d args = added_args d args ++ texts args

added_args-is_config_dir :
    {V : Type 0} (d : SaltDaemon) (args : List (Value V))
    → any is_config_dir (flagged d args) ≡ true
unfolding added_args
added_args-is_config_dir d args =
    let flag = codes "--config-dir=" ++ d.config_dir in
    let ours = default_unless is_config_dir flag (texts args) in
    let level = default_unless is_log_level (codes "--log-level=critical") (texts args) in
    ground (
      arith,
      any-append is_config_dir (ours ++ level) (texts args),
      any-append is_config_dir ours level,
      any-append is_config_dir ours (texts args),
      default_unless-any is_config_dir flag (texts args) (config_dir-is_config_dir d.config_dir),
    )

added_args-is_log_level :
    {V : Type 0} (d : SaltDaemon) (args : List (Value V)) → any is_log_level (flagged d args) ≡ true
unfolding added_args
added_args-is_log_level d args =
    let flag = codes "--log-level=critical" in
    let dir = default_unless is_config_dir (codes "--config-dir=" ++ d.config_dir) (texts args) in
    let ours = default_unless is_log_level flag (texts args) in
    ground (
      arith,
      any-append is_log_level (dir ++ ours) (texts args),
      any-append is_log_level dir ours,
      any-append is_log_level ours (texts args),
      default_unless-any is_log_level flag (texts args) critical-is_log_level,
    )

-- A command line that ends in the added flags and the arguments, and these hold both flags.
abbrev pub HasFlags : {V : Type 0} → SaltDaemon → List (Value V) → List (Value V) → Type 0
HasFlags {V} d args line =
    ((front : List (Value V)) × (line ≡ front ++ (as_values (added_args d args) ++ args)))
    × (any is_config_dir (flagged d args) ≡ true)
    × (any is_log_level (flagged d args) ≡ true)

-- If the base class puts its own arguments in front, then the command line of a daemon, when it is
-- built, ends in the flags that are added and the caller's arguments, in their order, and among
-- these are a flag for the configuration directory and one for the log level.
pub cmdline-HasFlags :
    {V : Type 0} (base_cmdline : List (Value V) → List (Value V))
    → KeepsArgs base_cmdline
    → (d : SaltDaemon) (args line : List (Value V)) → cmdline base_cmdline d args ≡ ok line
    → HasFlags d args line
unfolding cmdline
cmdline-HasFlags base_cmdline keeps d args line h =
    let all = as_values (added_args d args) ++ args in
    let (front, same) = keeps all in
    (
      insert_python-ends d.python_executable front all line
          (ap (insert_python d.python_executable) (sym same) ∙ h),
      added_args-is_config_dir d args,
      added_args-is_log_level d args,
    )

extra_args-is_log_level :
    (extra : List Text)
    → any is_log_level (extra ++ default_unless is_log_level (codes "--log-level=debug") extra)
      ≡ true
extra_args-is_log_level extra =
    let flag = codes "--log-level=debug" in
    let ours = default_unless is_log_level flag extra in
    ground (
      arith,
      any-append is_log_level extra ours,
      any-append is_log_level ours extra,
      default_unless-any is_log_level flag extra debug-is_log_level,
    )

-- A daemon is refused, with a usage error, if it is a system service with arguments for a failed
-- first start; otherwise it is built, and then it is a system service or its arguments for a failed
-- first start hold a flag for the log level.
pub salt_daemon-outcome :
    (d : SaltDaemon)
    → ((salt_daemon d ≡ err usage_error)
        × ((d.system_service && not (is_empty d.extra_cli_arguments_after_first_start_failure))
            ≡ true))
      ⊎ ((d' : SaltDaemon) × (salt_daemon d ≡ ok d')
          × ((d.system_service || any is_log_level d'.extra_cli_arguments_after_first_start_failure)
              ≡ true))
unfolding salt_daemon
salt_daemon-outcome d =
    let extra = d.extra_cli_arguments_after_first_start_failure in
    elim (Bool-cases d.system_service) [
      | inl system ↦ elim (Bool-cases (is_empty extra)) [
        | inl empty ↦ inr (d, rw (system, empty) refl, ground (arith, system))
        | inr given ↦ inl (rw (system, given) refl, ground (arith, system, given))
      ]
      | inr own ↦ inr (
        record d {
          extra_cli_arguments_after_first_start_failure =
              extra ++ default_unless is_log_level (codes "--log-level=debug") extra;
        },
        rw own refl,
        ground (arith, extra_args-is_log_level extra),
      )
    ]
