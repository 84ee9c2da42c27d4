-- ===== src/Cli/Process/Laws.antt =====
-- What the processed output is.
use pytest_salt_factories.Base.{
  ℕ, ◌≡◌, refl, ◌↔◌, Bool, true, false, ◌&&◌, not, Option, none, some, List, ◌∷◌, arith, ◌==◌,
}
use pytest_salt_factories.Base.Text.{Text, codes, text_eq, text_methods}
use pytest_salt_factories.Cli.{
  SaltCli, salt_call, ok, err, type_error, truthy, cli_output_supported,
}
use pytest_salt_factories.Cli.Process.{
  Json, null, bool, num, float, str, arr, obj, Fields, field, get_field, truthy_json, load_output,
  unwrap_string, pick_target, select_target, process_output, clean_stdout, local_target, process,
}

abbrev pub is_dict : Json → Bool
is_dict (obj fs) = true
is_dict _ = false

-- A minion is targeted by its name.
abbrev pub names_minion : Option Text → Bool
names_minion none = false
names_minion (some tgt) = truthy (some tgt) && not (tgt == codes "*")

local_is_minion : names_minion (some (codes "local")) ≡ true
unfolding text_methods
local_is_minion = refl

pick_target-error :
    (tgt : Text) (j : Json) → (pick_target tgt j ≡ err type_error) ↔ (is_dict j ≡ false)
unfolding pick_target
pick_target-error tgt (obj fs) = ground arith
pick_target-error tgt null = ground arith
pick_target-error tgt (bool b) = ground arith
pick_target-error tgt (num n) = ground arith
pick_target-error tgt (float l z) = ground arith
pick_target-error tgt (str s) = ground arith
pick_target-error tgt (arr js) = ground arith

select_target-error :
    (c : SaltCli) (tgt : Option Text) (j : Json)
    → c.minion_tgt ≡ tgt
    → (select_target c j ≡ err type_error) ↔ (
        (cli_output_supported c.class ≡ true)
        × (names_minion tgt ≡ true)
        × (truthy_json j ≡ true)
        × (is_dict j ≡ false))
unfolding select_target
select_target-error c none j e = rw e (ground arith)
select_target-error c (some tgt) j e = rw e (ground (arith, pick_target-error tgt j))

module _ (loads : Text → Option Json) where
  -- Processing fails exactly if the class has an outputter, a minion is targeted by its name, and
  -- what was loaded, once a bare text is moved to `stdout`, is a value that is true and no dict.
  pub process_output-error :
      (c : SaltCli) (stdout stderr : Text)
      → (process_output loads c stdout stderr ≡ err type_error) ↔ (
          (cli_output_supported c.class ≡ true)
          × (names_minion c.minion_tgt ≡ true)
          × (truthy_json (unwrap_string c stdout (load_output loads c stdout)).1 ≡ true)
          × (is_dict (unwrap_string c stdout (load_output loads c stdout)).1 ≡ false))
  unfolding process_output
  process_output-error c stdout stderr = ground (
    arith,
    select_target-error c c.minion_tgt (unwrap_string c stdout (load_output loads c stdout)).1 refl,
  )

  -- `salt-call` with JSON output returns the part of the key `local`, and leaves the text as it is.
  pub process-local :
      (c : SaltCli) (ch : ℕ) (s stderr : Text) (cmdline : Option (List Text)) (key : Text)
      (v : Json) (fs : Fields) (j : Json)
      → c.class ≡ salt_call
      → c.json_output ≡ true
      → loads (ch ∷ s) ≡ some (obj (field key v fs))
      → get_field (codes "local") (field key v fs) ≡ some j
      → (process loads c (ch ∷ s) stderr cmdline).1
        ≡ ok (record { stdout = ch ∷ s; stderr = stderr; data_ = j })
  unfolding process local_target clean_stdout process_output load_output unwrap_string select_target
      pick_target cli_output_supported
  process-local c ch s stderr cmdline key v fs j is_call json loaded found =
      rw is_call (rw (json, loaded) (ground (arith, found, local_is_minion)))
