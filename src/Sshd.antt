-- ===== src/Sshd.antt =====
-- `Sshd` of src/saltfactories/daemons/sshd.py: its keys, its configuration file, and the keys that
-- `ssh-keyscan` finds. The files of the configuration directory are a dict. `keygen` is `ssh-keygen`: the
-- name, the type and the bits of a key, and the directory after it; `none` is a failure. Lines that are
-- read end with a newline.
pub mod Order
pub mod Keys
pub mod Config
mod Tests
use pytest_salt_factories.Base.{
  ℕ, Bool, true, false, not, ◌&&◌, ◌||◌, Option, none, some, List, [], ◌∷◌, ◌++◌, ◌==◌, nat_eq, ltb,
  if◌then◌else◌,
}
use pytest_salt_factories.Base.Text.{Text, codes, text_eq, starts_with, split, strip, join}
use pytest_salt_factories.Base.Dict.{Dict, lookup, insert, update}
use pytest_salt_factories.Base.Decimal.{show_nat}
use pytest_salt_factories.Events.Fnmatch.{fnmatch}

pub record File : Type 0 where
  pub contents : Text
  pub mode : ℕ

abbrev pub Directory : Type 0
Directory = Dict Text File

pub data Error : Type 0 where
  factory_failure file_not_found : Error

pub data Result {ℓ} (A : Type ℓ) : Type ℓ where
  ok : A → Result A
  err : Error → Result A

unfoldable pub and_then : {A B : Type 0} → Result A → (A → Result B) → Result B
and_then (ok a) f = f a
and_then (err e) f = err e

-- A value of the configuration: one, or a list of them.
pub data Value : Type 0 where
  one : Text → Value
  many : List Text → Value

unfoldable pub is_there : Option File → Bool
is_there none = false
is_there (some f) = true

-- `exists()`
unfoldable pub exists : Text → Directory → Bool
exists name d = is_there (lookup name d)

unfoldable pub chmod_found : Text → ℕ → Option File → Directory → Result Directory
chmod_found name mode none d = err file_not_found
chmod_found name mode (some f) d = ok (insert name (record f { mode = mode }) d)

unfoldable pub chmod : Text → ℕ → Directory → Result Directory
chmod name mode d = chmod_found name mode (lookup name d) d

unfoldable pub pub_of : Text → Text
pub_of key_filename = key_filename ++ codes ".pub"

-- The modes `0o0400` and `0o0600`.
unfoldable pub chmod_keys : Text → Directory → Result Directory
chmod_keys key_filename d = and_then (chmod key_filename 256 d) (chmod (pub_of key_filename) 256)

unfoldable pub config_line : Text → Text → Text
config_line key value = key ++ (codes " " ++ (value ++ codes "\n"))

unfoldable pub item_lines : Text → List Text → List Text
item_lines key [] = []
item_lines key (item ∷ items) = config_line key item ∷ item_lines key items

unfoldable pub value_lines : Text → Value → List Text
value_lines key (one value) = config_line key value ∷ []
value_lines key (many items) = item_lines key items

unfoldable pub config_lines : Dict Text Value → List Text
config_lines [] = []
config_lines ((key, value) ∷ config) = value_lines key value ++ config_lines config

unfoldable pub host_key_line : Text → Text → Text
host_key_line config_dir name = config_line (codes "HostKey") (config_dir ++ (codes "/" ++ name))

unfoldable pub is_host_key : Text → Bool
is_host_key name = fnmatch name (codes "ssh_host_*_key")

-- `glob("ssh_host_*_key")`
unfoldable pub host_key_lines : Text → Directory → List Text
host_key_lines config_dir [] = []
host_key_lines config_dir ((name, f) ∷ d) =
    let rest = host_key_lines config_dir d in
    if is_host_key name then host_key_line config_dir name ∷ rest else rest

-- `<=` of texts
unfoldable pub text_leb : Text → Text → Bool
text_leb [] t = true
text_leb (c ∷ s) [] = false
text_leb (c ∷ s) (e ∷ t) = let rest = text_leb s t in ltb c e || ((c == e) && rest)

unfoldable pub insert_line : Text → List Text → List Text
insert_line l [] = l ∷ []
insert_line l (x ∷ xs) =
    let rest = insert_line l xs in if text_leb l x then l ∷ x ∷ xs else x ∷ rest

-- `sorted(config_lines)`
unfoldable pub sort_lines : List Text → List Text
sort_lines [] = []
sort_lines (l ∷ ls) = insert_line l (sort_lines ls)

unfoldable pub fips_config : Dict Text Value
fips_config =
    (
      codes "Ciphers",
      one (
          codes
            "aes256-gcm@openssh.com,aes256-ctr,aes256-cbc,aes128-gcm@openssh.com,aes128-ctr,aes128-cbc"),
    )
    ∷ (
      codes "MACs",
      one (
          codes
            "hmac-sha2-256-etm@openssh.com,hmac-sha1-etm@openssh.com,hmac-sha2-512-etm@openssh.com,hmac-sha2-256,hmac-sha1,hmac-sha2-512"),
    )
    ∷ (
      codes "KexAlgorithms",
      one (
          codes
            "ecdh-sha2-nistp256,ecdh-sha2-nistp384,ecdh-sha2-nistp521,diffie-hellman-group-exchange-sha256,diffie-hellman-group14-sha256,diffie-hellman-group16-sha512,diffie-hellman-group18-sha512"),
    )
    ∷ (
      codes "HostKeyAlgorithms",
      one (
          codes
            "ecdsa-sha2-nistp256,ecdsa-sha2-nistp256-cert-v01@openssh.com,ecdsa-sha2-nistp384,ecdsa-sha2-nistp384-cert-v01@openssh.com,ecdsa-sha2-nistp521,ecdsa-sha2-nistp521-cert-v01@openssh.com,rsa-sha2-256,rsa-sha2-256-cert-v01@openssh.com,rsa-sha2-512,rsa-sha2-512-cert-v01@openssh.com"),
    )
    ∷ (
      codes "PubkeyAcceptedKeyTypes",
      one (
          codes
            "ecdsa-sha2-nistp256,ecdsa-sha2-nistp256-cert-v01@openssh.com,ecdsa-sha2-nistp384,ecdsa-sha2-nistp384-cert-v01@openssh.com,ecdsa-sha2-nistp521,ecdsa-sha2-nistp521-cert-v01@openssh.com,rsa-sha2-256,rsa-sha2-256-cert-v01@openssh.com,rsa-sha2-512,rsa-sha2-512-cert-v01@openssh.com"),
    )
    ∷ (
      codes "CASignatureAlgorithms",
      one (
          codes
            "ecdsa-sha2-nistp256,ecdsa-sha2-nistp384,ecdsa-sha2-nistp521,rsa-sha2-256,rsa-sha2-512"),
    )
    ∷ []

-- What the platform says: the user `root`, and that FIPS is on.
pub record Platform : Type 0 where
  pub is_root : Bool
  pub fips : Bool

unfoldable pub plain_config : Platform → Text → Text → Dict Text Value
plain_config p config_dir listen_address =
    (codes "ListenAddress", one listen_address)
    ∷ (codes "PermitRootLogin", one (if p.is_root then codes "yes" else codes "no"))
    ∷ (codes "ChallengeResponseAuthentication", one (codes "no"))
    ∷ (codes "PasswordAuthentication", one (codes "no"))
    ∷ (codes "PubkeyAuthentication", one (codes "yes"))
    ∷ (codes "PrintMotd", one (codes "no"))
    ∷ (codes "PidFile", one (config_dir ++ codes "/sshd.pid"))
    ∷ (codes "AuthorizedKeysFile", one (config_dir ++ codes "/authorized_keys"))
    ∷ []

unfoldable pub default_config : Platform → Text → Text → Dict Text Value
default_config p config_dir listen_address =
    let plain = plain_config p config_dir listen_address in
    if p.fips then update plain fips_config else plain

-- The settings of the caller go over the default ones.
unfoldable pub sshd_config : Platform → Text → Text → Dict Text Value → Dict Text Value
sshd_config p config_dir listen_address sshd_config_dict =
    update (default_config p config_dir listen_address) sshd_config_dict

-- The sorted lines, and the mode `0o0600`.
unfoldable pub write_file : Text → Dict Text Value → Directory → Directory
write_file config_dir config d =
    insert (codes "sshd_config")
      (record {
        contents = join [] (sort_lines (config_lines config ++ host_key_lines config_dir d));
        mode = 384;
      })
      d

unfoldable pub contents_of : Option File → Result Text
contents_of none = err file_not_found
contents_of (some f) = ok f.contents

-- The authorized keys are written with the client's at their end.
unfoldable pub authorize : List Text → Directory → Text → Result (List Text × Directory)
authorize keys d pubkey =
    let all = keys ++ (strip pubkey ∷ []) in
    ok (
      all,
      insert (codes "authorized_keys") (record { contents = join (codes "\n") all; mode = 384 }) d,
    )

module _ (keygen : Text → Text → Text → Directory → Option Directory) where
  unfoldable pub key_made : Text → Option Directory → Result Directory
  key_made key_filename none = err factory_failure
  key_made key_filename (some d) = chmod_keys key_filename d

  -- `_generate_…_key`
  unfoldable pub generate_key : Text → Text → Text → Directory → Result Directory
  generate_key key_filename key_type bits d =
      if exists key_filename d && exists (pub_of key_filename) d
      then ok d
      else key_made key_filename (keygen key_filename key_type bits d)

  unfoldable pub generate_dsa : Platform → Directory → Result Directory
  generate_dsa p d =
      if p.fips
      then ok d
      else generate_key (codes "ssh_host_dsa_key") (codes "dsa") (codes "1024") d

  unfoldable pub generate_host_keys : Platform → Directory → Result Directory
  generate_host_keys p d = and_then (generate_dsa p d) λ d₁.
      and_then (generate_key (codes "ssh_host_ecdsa_key") (codes "ecdsa") (codes "521") d₁)
        (generate_key (codes "ssh_host_ed25519_key") (codes "ed25519") (codes "521"))

  -- `_write_config`
  unfoldable pub write_config : Platform → Text → Dict Text Value → Directory → Result Directory
  write_config p config_dir config d =
      if exists (codes "sshd_config") d
      then ok d
      else and_then (generate_host_keys p d) (λ e. ok (write_file config_dir config e))

  -- The client's key, and the file of the authorized keys.
  unfoldable pub write_keys : List Text → Directory → Result (List Text × Directory)
  write_keys authorized_keys d =
      and_then (generate_key (codes "client_key") (codes "ecdsa") (codes "521") d) λ e.
        and_then (contents_of (lookup (pub_of (codes "client_key")) e))
          (authorize authorized_keys e)

-- `get_host_keys`: the lines of `ssh-keyscan` that are keys.
unfoldable pub is_key : Text → Bool
is_key [] = false
is_key (c ∷ line) = not (starts_with (c ∷ line) (codes "#"))

unfoldable pub keys_of : List Text → List Text
keys_of [] = []
keys_of (line ∷ lines) =
    let rest = keys_of lines in if is_key (strip line) then strip line ∷ rest else rest

-- What is known already, and else what `ssh-keyscan` prints, which fails with `none`.
unfoldable pub scan_host_keys : Option Text → Result (List Text)
scan_host_keys none = err factory_failure
scan_host_keys (some out) = ok (keys_of (split (codes "\n") out))

unfoldable pub get_host_keys : Option (List Text) → Option Text → Result (List Text)
get_host_keys (some keys) out = ok keys
get_host_keys none out = scan_host_keys out

unfoldable pub get_base_script_args : Text → ℕ → List Text
get_base_script_args config_dir listen_port =
    codes "-D"
    ∷ codes "-e"
    ∷ codes "-f"
    ∷ (config_dir ++ codes "/sshd_config")
    ∷ codes "-p"
    ∷ show_nat listen_port
    ∷ []
