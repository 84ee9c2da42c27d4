-- ===== src/Manager/Tweaks.antt =====
-- What the tweaks of a configuration are for: the log handler and the engine of the daemon read it.
use pytest_salt_factories.Base.{ℕ, ◌≡◌, refl, Bool, true, false, Option, none, some, ==_refl, arith}
use pytest_salt_factories.Base.Text.{Text, codes, text_eq}
use pytest_salt_factories.Base.Dict.{Dict, lookup, lookup-insert}
use pytest_salt_factories.LogHandler.Setup.{
  LogOpts, Address, PytestConfig, Opts, pytest_key, lacks_host,
}
use pytest_salt_factories.Engine.Setup.{
  engine_accepts, check_address, check_engine_config, check_engine_role, engine_virtual, both_of,
  address_parts, address_of_config, address_of_role, engine_address,
}
use pytest_salt_factories.Manager.{
  Manager, Config, set_default, no_config, no_address, reachable, tweak_address, tweak_returner,
  tweak_log, change_pytest, final_common_config_tweaks, final_minion_config_tweaks,
  final_master_config_tweaks,
}

-- The options that a daemon has from a configuration.
abbrev pub opts_of : Text → Option Text → Config → Opts
opts_of role plain_role c = record { role = some role; plain_role = plain_role; configs = c.pytest }

lookup-change_pytest :
    (key : Text) (f : PytestConfig → PytestConfig) (c : Config)
    → lookup key (change_pytest key f c).pytest
      ≡ some (f (set_default no_config (lookup key c.pytest)))
unfolding change_pytest
lookup-change_pytest key f c = ground (
  arith,
  ==_refl key,
  lookup-insert key key (f (set_default no_config (lookup key c.pytest))) c.pytest,
)

abbrev blank_text : Option Text → Bool
blank_text none = false
blank_text (some host) = lacks_host (some host)

abbrev blank_log_host : Option LogOpts → Bool
blank_log_host none = false
blank_log_host (some l) = blank_text l.host

-- That a configuration has a host for its log, which is empty.
abbrev pub blank_host : Option PytestConfig → Bool
blank_host none = false
blank_host (some c) = blank_log_host c.log

abbrev host_in : Option Address → Option Text
host_in none = none
host_in (some a) = a.host

abbrev port_in : Option Address → Option ℕ
port_in none = none
port_in (some a) = a.port

abbrev host_of : Option PytestConfig → Option Text
host_of none = none
host_of (some c) = host_in c.returner_address

abbrev port_of : Option PytestConfig → Option ℕ
port_of none = none
port_of (some c) = port_in c.returner_address

-- The address of the event listener, but for what the configuration says itself.
abbrev pub address_for : Manager → Option PytestConfig → Text × ℕ
address_for m o =
    (set_default (reachable m.event_host) (host_of o), set_default m.event_port (port_of o))

address_parts-tweak_address :
    (m : Manager) (o : Option Address)
    → address_parts (some (tweak_address m (set_default no_address o)))
      ≡ some
          (set_default (reachable m.event_host) (host_in o), set_default m.event_port (port_in o))
unfolding tweak_address set_default no_address address_parts both_of
address_parts-tweak_address m none = refl
address_parts-tweak_address m (some a) = refl

address_of_config-tweak_returner :
    (m : Manager) (o : Option PytestConfig)
    → address_of_config (some (tweak_log m (tweak_returner m (set_default no_config o))))
      ≡ some (address_for m o)
unfolding tweak_log tweak_returner set_default no_config address_of_config
address_of_config-tweak_returner m none = address_parts-tweak_address m none
address_of_config-tweak_returner m (some c) = address_parts-tweak_address m c.returner_address

module _ (running_username engines_path log_handlers_path : Text) where
  abbrev tweaked : Manager → Text → Config → Config
  tweaked = final_common_config_tweaks running_username engines_path log_handlers_path

  lookup-tweaked :
      (m : Manager) (role : Text) (c : Config)
      → lookup (pytest_key role) (tweaked m role c).pytest
        ≡ some (tweak_log m (set_default no_config (lookup (pytest_key role) c.pytest)))
  unfolding final_common_config_tweaks change_pytest
  lookup-tweaked m role c = lookup-change_pytest (pytest_key role) (tweak_log m) c

  engine_address-tweaked :
      (m : Manager) (role : Text) (plain_role : Option Text) (c : Config)
      → (engine_virtual true (
            opts_of role plain_role
              (tweaked m role (change_pytest (pytest_key role) (tweak_returner m) c)))
          ≡ engine_accepts)
        × (engine_address (
              opts_of role plain_role
                (tweaked m role (change_pytest (pytest_key role) (tweak_returner m) c)))
            ≡ some (address_for m (lookup (pytest_key role) c.pytest)))
  unfolding engine_virtual check_engine_role check_engine_config engine_address address_of_role
      check_address set_default tweak_log tweak_returner
  engine_address-tweaked m role plain_role c =
      rw
        (
          lookup-tweaked m role (change_pytest (pytest_key role) (tweak_returner m) c),
          lookup-change_pytest (pytest_key role) (tweak_returner m) c,
        )
        (refl, address_of_config-tweak_returner m (lookup (pytest_key role) c.pytest))

  -- The engine of a master accepts the options that the master has after its final tweaks, and connects
  -- to the event listener, at `127.0.0.1` where that listens at `0.0.0.0`, unless the configuration
  -- has an address itself; and so does that of a minion.
  pub engine_address-final_tweaks :
      (m : Manager) (plain_role : Option Text) (c : Config)
      → ((engine_virtual true (
              opts_of
                (codes "master")
                plain_role
                (final_master_config_tweaks running_username engines_path log_handlers_path m c))
            ≡ engine_accepts)
          × (engine_address (
                opts_of
                  (codes "master")
                  plain_role
                  (final_master_config_tweaks running_username engines_path log_handlers_path m c))
              ≡ some (address_for m (lookup (codes "pytest-master") c.pytest))))
        × ((engine_virtual true (
                opts_of
                  (codes "minion")
                  plain_role
                  (final_minion_config_tweaks running_username engines_path log_handlers_path m c))
              ≡ engine_accepts)
            × (engine_address (
                  opts_of (codes "minion") plain_role (
                    final_minion_config_tweaks running_username engines_path log_handlers_path m c))
                ≡ some (address_for m (lookup (codes "pytest-minion") c.pytest))))
  unfolding final_master_config_tweaks final_minion_config_tweaks codes
  engine_address-final_tweaks m plain_role c = (
    engine_address-tweaked m (codes "master") plain_role c,
    engine_address-tweaked m (codes "minion") plain_role c,
  )
