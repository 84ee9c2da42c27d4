-- ===== src/Sshd/Config.antt =====
-- What the configuration file of the sshd has.
use pytest_salt_factories.Base.{◌+◌, ◌≡◌, true, some, List, [], ◌++◌}
use pytest_salt_factories.Base.Text.{Text, codes, text_eq, join}
use pytest_salt_factories.Base.Dict.{Dict, lookup}
use pytest_salt_factories.Sshd.{File, Directory, Value, config_lines, host_key_lines, sort_lines}
use pytest_salt_factories.Sshd.Order.{is_sorted, count}

-- The file has the mode `0o0600`, and its lines, in their order, are those of the settings and one for each
-- host key of the directory, each as often as it is there.
abbrev pub IsConfig : Text → Dict Text Value → Directory → List Text → Type 0
IsConfig config_dir config d lines =
    (lookup (codes "sshd_config") d ≡ some (record { contents = join [] lines; mode = 384 }))
    × (is_sorted lines ≡ true)
    × ((line : Text)
        → count lines line
          ≡ count (config_lines config) line + count (host_key_lines config_dir d) line)

abbrev file_of : Text → Dict Text Value → Directory → File
file_of config_dir config d = record {
  contents = join [] (sort_lines (config_lines config ++ host_key_lines config_dir d));
  mode = 384;
}
