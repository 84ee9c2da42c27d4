-- ===== src/Cli/Process.antt =====
-- `process_output` of the CLI factories: the raw output of a finished command becomes the text, the
-- error text and the loaded JSON. `json.loads` is an argument of the model, `none` its `ValueError`.
pub mod Laws
use pytest_salt_factories.Base.{
  ℕ, suc, zero, ◌-◌, Bool, true, false, not, ◌&&◌, ◌||◌, Option, none, some, List, [], ◌∷◌, ◌++◌,
  ◌==◌, nat_eq, length, contains, if◌then◌else◌,
}
use pytest_salt_factories.Base.Text.{
  Text, codes, text_eq, starts_with, has_part, replace, after_newline, strip, last_or,
}
use pytest_salt_factories.Base.Int.{ℤ, truthy_ℤ}
use pytest_salt_factories.Cli.{
  Class, salt, salt_call, salt_cp, salt_key, salt_run, SaltCli, Result, ok, err, type_error, truthy,
  cli_output_supported,
}

-- A loaded value. A float is its literal and whether it is zero. `null` is Python's `None`.
mutual
  pub data Json : Type 0 where
    null : Json
    bool : Bool → Json
    num : ℤ → Json
    float : (literal : Text) (is_zero : Bool) → Json
    str : Text → Json
    arr : Items → Json
    obj : Fields → Json

  pub data Items : Type 0 where
    nil : Items
    item : Json → Items → Items

  pub data Fields : Type 0 where
    end : Fields
    field : Text → Json → Fields → Fields

-- `bool(value)`
abbrev pub truthy_json : Json → Bool
truthy_json null = false
truthy_json (bool b) = b
truthy_json (num n) = truthy_ℤ n
truthy_json (float literal is_zero) = not is_zero
truthy_json (str []) = false
truthy_json (str (c ∷ s)) = true
truthy_json (arr nil) = false
truthy_json (arr (item j js)) = true
truthy_json (obj end) = false
truthy_json (obj (field k j fs)) = true

-- `fields.get(key)`; `loads` keeps one field of each key.
unfoldable pub get_field : Text → Fields → Option Json
get_field key end = none
get_field key (field k j fs) = let rest = get_field key fs in if key == k then some j else rest

-- `with contextlib.suppress(KeyError): json_out = json_out[tgt]`. Indexing anything but a dict by a
-- text is a `TypeError`, which is not suppressed.
unfoldable pub pick_target : Text → Json → Result Json
pick_target tgt (obj fs) = elim (get_field tgt fs) [ none ↦ ok (obj fs) | some j ↦ ok j ]
pick_target tgt _ = err type_error

pub record Output : Type 0 where
  pub stdout : Text
  pub stderr : Text
  pub data_ : Json

-- Output that is only a JSON string is text.
unfoldable pub unwrap_string : SaltCli → Text → Json → Text × Json
unwrap_string c stdout (str (ch ∷ s)) =
    if cli_output_supported c.class && c.json_output then (ch ∷ s, null) else (stdout, str (ch ∷ s))
unwrap_string c stdout j = (stdout, j)

-- The part of the targeted minion.
unfoldable pub select_target : SaltCli → Json → Result Json
select_target c j = elim c.minion_tgt [
  | none ↦ ok j
  | some tgt ↦
      if cli_output_supported c.class
        && truthy_json j
        && truthy (some tgt)
        && not (tgt == codes "*")
      then pick_target tgt j
      else ok j
]

abbrev pub output_with : Text → Text → Result Json → Result Output
output_with stdout stderr (err e) = err e
output_with stdout stderr (ok j) = ok (record { stdout = stdout; stderr = stderr; data_ = j })

module _ (loads : Text → Option Json) where
  -- Several JSON documents, one to a minion, read as one dictionary.
  unfoldable pub merge : Bool → Text → Json
  merge use_merge stdout =
      if use_merge
      then elim (loads (replace (codes "}\n{") (codes ", ") stdout)) [ none ↦ null | some j ↦ j ]
      else null

  unfoldable pub load_output : SaltCli → Text → Json
  load_output c [] = null
  load_output c (ch ∷ stdout) =
      if c.json_output
      then elim (loads (ch ∷ stdout)) [ none ↦ merge c.use_merge (ch ∷ stdout) | some j ↦ j ]
      else null

  -- `SaltCli.process_output`
  unfoldable pub process_output : SaltCli → Text → Text → Result Output
  process_output c stdout stderr =
      let (stdout', j) = unwrap_string c stdout (load_output c stdout) in
      output_with stdout' stderr (select_target c j)

abbrev pub no_minions : Text
no_minions = codes "No minions matched the target. No command was sent, no jid was assigned.\n"

-- `if no_minions in stdout: stdout = stdout.split("\n", 1)[1:][0]`
unfoldable pub drop_no_minions : Text → Text
drop_no_minions stdout =
    if has_part no_minions stdout
    then elim (after_newline stdout) [ none ↦ stdout | some rest ↦ rest ]
    else stdout

-- `stdout.split("\n", 1)[-1]`
abbrev pub last_line_break : Text → Text
last_line_break stdout = elim (after_newline stdout) [ none ↦ stdout | some rest ↦ rest ]

-- The end of a line, past its line break, if the character before the break is accepted.
unfoldable pub line_end : (ℕ → Bool) → ℕ → Text → Option Text
line_end accept last [] = none
line_end accept last (c ∷ s) =
    let rest = line_end accept c s in
    if c == 10 then (if accept last then some s else none) else rest

-- What `_output_replace_re` matches at the front of a text: the rest behind the match.
unfoldable pub key_noise : Text → Option Text
key_noise s =
    if starts_with s (codes "The following keys are going to be")
    then line_end (λ c. c == b':') 0 s
    else if starts_with s (codes "Key for minion")
    then line_end (λ c. true) 0 s
    else none

-- `_output_replace_re.sub("", stdout)`. `skip` characters of a match are still to pass.
unfoldable pub drop_key_noise : ℕ → Text → Text
drop_key_noise skip [] = []
drop_key_noise (suc skip) (c ∷ s) = drop_key_noise skip s
drop_key_noise zero (c ∷ s) = elim (key_noise (c ∷ s)) [
  | some rest ↦ drop_key_noise (length s - length rest) s
  | none ↦ c ∷ drop_key_noise zero s
]

-- What a class does to the output first. `shows_jid` is `cmdline and "--show-jid" in cmdline`.
unfoldable pub clean_stdout : Class → Bool → Text → Text
clean_stdout salt_cp shows_jid stdout = drop_no_minions stdout
clean_stdout salt_run shows_jid stdout = drop_no_minions stdout
clean_stdout salt shows_jid stdout =
    let rest = drop_no_minions stdout in
    if shows_jid && starts_with rest (codes "jid: ") then strip (last_line_break rest) else rest
clean_stdout salt_key shows_jid stdout = drop_key_noise zero stdout
clean_stdout _ shows_jid stdout = stdout

-- `SaltCall.process_output` sets the target.
unfoldable pub local_target : Class → SaltCli → SaltCli
local_target salt_call c = record c { minion_tgt = some (codes "local") }
local_target _ c = c

-- `process_output(stdout, stderr, cmdline)` of a factory, with the factory that it leaves.
unfoldable pub process :
    (Text → Option Json) → SaltCli → Text → Text → Option (List Text) → SaltCli × Result Output
process loads c stdout stderr cmdline =
    let c' = local_target c.class c in
    let shows_jid : Bool = elim cmdline [
      | none ↦ false
      | some line ↦ contains line (codes "--show-jid")
    ] in
    (c', process_output loads c' (clean_stdout c.class shows_jid stdout) stderr)
