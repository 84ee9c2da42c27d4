-- ===== src/Cli/Cmdline/Laws.antt =====
-- What a built command line holds.
use pytest_salt_factories.Base.{
  ◌≡◌, ◌∙◌, sym, ap, Bool, true, Option, none, some, List, [], ◌∷◌, ◌++◌, map, arith, any,
  any-append, ◌==◌, Bool-cases, inl, inr, append_assoc,
}
use pytest_salt_factories.Base.Text.{Text, text_eq}
use pytest_salt_factories.Cli.{SaltCli, Result, ok, err, Value, Host, get_script_args}
use pytest_salt_factories.Cli.Flags.{
  is_config_dir, config_dir_flag, default_unless-any, config_dir-is_config_dir,
}
use pytest_salt_factories.Cli.Cmdline.{
  tgt_args, with_python, log_level_block, str_of, pair_arg, assemble, finish, build_cmdline,
  tgt_guard, cmdline,
}

-- The line with or without the python executable in front.
with_python-ends :
    (exe : Option Text) (line line' : List Text)
    → with_python exe line ≡ ok line'
    → (front : List Text) × (line' ≡ front ++ line)
unfolding with_python
with_python-ends none line line' h = ([], ground arith)
with_python-ends (some []) line line' h = ([], ground arith)
with_python-ends (some (c ∷ s)) [] line' h = cc
with_python-ends (some (c ∷ s)) (first ∷ rest) line' h = elim (Bool-cases (first == (c ∷ s))) [
  | inl same ↦ ([], ground (arith, same))
  | inr differ ↦ ((c ∷ s) ∷ [], ground (arith, differ))
]

-- The script's own command line ends in the arguments that it is given.
abbrev pub KeepsArgs : {V : Type 0} → Host V → Type 0
KeepsArgs host =
    (script_args args : List Text)
    → (front : List Text) × (host.base_cmdline script_args args ≡ front ++ args)

module _ {V : Type 0} (host : Host V) (keeps : KeepsArgs host) where
  assemble-ends :
      (c : SaltCli) (flags args : List Text) (kwargs : List (Text × Value V)) (line : List Text)
      → assemble host c flags args kwargs ≡ ok line
      → (front : List Text) × (line
          ≡ front ++ (flags ++ (tgt_args c.minion_tgt ++ (args ++ map (pair_arg host) kwargs))))
  unfolding assemble
  assemble-ends c flags args kwargs line h =
      let inner = flags ++ (tgt_args c.minion_tgt ++ (args ++ map (pair_arg host) kwargs)) in
      let (exe, e) = with_python-ends c.python_executable _ line h in
      let (script, k) = keeps (get_script_args host.base_script_args c c.class) inner in
      (exe ++ script, e ∙ ap (λ l. exe ++ l) k ∙ sym (append_assoc exe script inner))

  finish-ends :
      (c : SaltCli) (config more args : List Text) (kwargs : List (Text × Value V))
      (out : Result (Bool × List Text)) (line : List Text)
      → (finish host c (config ++ more) args kwargs out).1 ≡ ok line
      → (front rest : List Text) × (line
          ≡ (front ++ (config ++ rest)) ++ (args ++ map (pair_arg host) kwargs))
  unfolding finish
  finish-ends c config more args kwargs (err e) line h = cc
  finish-ends c config more args kwargs (ok (json, out)) line h =
      let given = args ++ map (pair_arg host) kwargs in
      let flags = (config ++ more) ++ (out ++ log_level_block c args) in
      let (front, e) = assemble-ends (record c { json_output = json }) flags args kwargs line h in
      (
        front,
        more ++ ((out ++ log_level_block c args) ++ tgt_args c.minion_tgt),
        e ∙ simp append_assoc,
      )

  build_cmdline-ends :
      (c : SaltCli) (args : List Text) (tgt : Option Text) (merge : Option Bool)
      (kwargs : List (Text × Value V)) (line : List Text)
      → (build_cmdline host c args tgt merge kwargs).1 ≡ ok line
      → (front rest : List Text) × (line
          ≡ (front ++ (config_dir_flag c.config_dir args ++ rest))
            ++ (args ++ map (pair_arg host) kwargs))
  unfolding build_cmdline
  build_cmdline-ends c args tgt merge kwargs line h =
      finish-ends _ (config_dir_flag c.config_dir args) _ args kwargs _ line h

any-middle :
    (p : Text → Bool) (front config rest args : List Text)
    → any p (config ++ args) ≡ true
    → any p ((front ++ (config ++ rest)) ++ args) ≡ true
any-middle p front config rest args h =
    let h' = rw (any-append p config args) at h in
    rw (any-append p, any-append p front, any-append p config) (ground arith)

config_dir_flag-any :
    (config_dir : Text) (args : List Text)
    → any is_config_dir (config_dir_flag config_dir args ++ args) ≡ true
unfolding config_dir_flag
config_dir_flag-any config_dir args =
    default_unless-any is_config_dir _ args (config_dir-is_config_dir config_dir)

-- If the script's own command line ends in the arguments given to it, then a command line that is
-- built ends in the caller's arguments, as texts and in order, and then the keyword pairs; and up to
-- the end of the arguments it has a flag for the configuration directory.
pub cmdline-KeepsArgs :
    {V : Type 0} (host : Host V) (keeps : KeepsArgs host) (c : SaltCli) (args : List (Value V))
    (tgt : Option Text) (merge : Option Bool) (kwargs : List (Text × Value V)) (line : List Text)
    → (cmdline host c args tgt merge kwargs).1 ≡ ok line
    → (front : List Text) × (line ≡ front ++ (map (str_of host) args ++ map (pair_arg host) kwargs))
      × (any is_config_dir (front ++ map (str_of host) args) ≡ true)
unfolding cmdline
cmdline-KeepsArgs host keeps c args tgt merge kwargs line h =
    elim (Bool-cases (tgt_guard c.class args tgt)) [
      | inl passes ↦
          let texts = map (str_of host) args in
          let (front, rest, e) =
            build_cmdline-ends host keeps c texts tgt merge kwargs line
              (ground (arith, h, passes)) in
          (
            front ++ (config_dir_flag c.config_dir texts ++ rest),
            e,
            any-middle is_config_dir front _ rest texts (config_dir_flag-any c.config_dir texts),
          )
      | inr fails ↦ absurd (ground (arith, h, fails))
    ]
