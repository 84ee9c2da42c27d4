-- ===== src/Sshd/Tests.antt =====
-- An sshd in an empty directory.
use pytest_salt_factories.Base.{
  ◌≡◌, ◌++◌, any, refl, true, false, Option, none, some, List, [], ◌∷◌, contains, nat_eq,
}
use pytest_salt_factories.Base.Text.{Text, codes, text_eq, text_methods, split}
use pytest_salt_factories.Base.Dict.{Dict, lookup, insert, update}
use pytest_salt_factories.Base.Decimal.{decimals}
use pytest_salt_factories.Events.Fnmatch.{
  parse_ranges, close_at, parse_set, parse_from, any_end, accepts, matches, fnmatch,
}
use pytest_salt_factories.Sshd.{
  File, Directory, Result, ok, and_then, Value, one, many, is_there, exists, chmod_found, chmod,
  pub_of, chmod_keys, config_line, item_lines, value_lines, config_lines, host_key_line,
  is_host_key, host_key_lines, text_leb, insert_line, sort_lines, fips_config, Platform,
  plain_config, default_config, sshd_config, write_file, contents_of, authorize, key_made,
  generate_key, generate_dsa, generate_host_keys, write_config, write_keys, is_key, keys_of,
  scan_host_keys, get_host_keys, get_base_script_args,
}

abbrev new_key : File
new_key = record { contents = codes "key\n"; mode = 420 }

unfoldable keygen : Text → Text → Text → Directory → Option Directory
keygen name key_type bits d = some (
    insert (pub_of name) new_key
      (insert name (record { contents = key_type ++ codes "\n"; mode = 384 }) d))

program : Unit {0}
unfolding any text_methods decimals nat_eq contains lookup insert update parse_ranges close_at
    parse_set parse_from any_end accepts matches fnmatch and_then is_there exists chmod_found chmod
    pub_of chmod_keys config_line item_lines value_lines config_lines host_key_line is_host_key
    host_key_lines text_leb insert_line sort_lines fips_config plain_config default_config
    sshd_config write_file contents_of authorize key_made generate_key generate_dsa
    generate_host_keys write_config write_keys is_key keys_of scan_host_keys get_host_keys
    get_base_script_args keygen
program = tt

-- The type of a key is its first line.
first_line : List Text → Text
first_line [] = []
first_line (line ∷ lines) = line

type_of : Text → Text
type_of contents = first_line (split (codes "\n") contents)

abbrev plain : Platform
plain = record { is_root = false; fips = false }

abbrev strict : Platform
strict = record { is_root = true; fips = true }

abbrev dir : Text
dir = codes "/s"

abbrev own_values : Dict Text Value
own_values =
    (codes "Port", one (codes "22")) ∷ (codes "AcceptEnv", many (codes "A" ∷ codes "B" ∷ [])) ∷ []

no_config : exists (codes "sshd_config") [] ≡ false
unfolding program
no_config = refl

sorted_lines :
    sort_lines (config_lines own_values)
    ≡ codes "AcceptEnv A\n" ∷ codes "AcceptEnv B\n" ∷ codes "Port 22\n" ∷ []
unfolding program
sorted_lines = refl

own_settings :
    (lookup
        (codes "PrintMotd")
        (sshd_config strict dir (codes "h") ((codes "PrintMotd", one (codes "yes")) ∷ []))
      ≡ some (one (codes "yes")))
    × (lookup (codes "PermitRootLogin") (sshd_config strict dir (codes "h") [])
        ≡ some (one (codes "yes")))
    × (get_host_keys none (some (codes "# a\nb\n\n c \n")) ≡ ok (codes "b" ∷ codes "c" ∷ []))
unfolding program
own_settings = (refl, refl, refl)

authorized : Result (List Text × Directory) → List Text
authorized (ok (keys, d)) = keys
authorized r = []

client_key : authorized (write_keys keygen (codes "k" ∷ []) []) ≡ codes "k" ∷ codes "key" ∷ []
unfolding program authorized
client_key = refl

args :
    get_base_script_args dir 22
    ≡ codes "-D" ∷ codes "-e" ∷ codes "-f" ∷ codes "/s/sshd_config" ∷ codes "-p" ∷ codes "22" ∷ []
unfolding program
args = refl
