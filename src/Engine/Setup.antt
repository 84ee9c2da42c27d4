-- ===== src/Engine/Setup.antt =====
-- `__virtual__` of pytest_engine.py, and the address that `PyTestEventForwardEngine.__init__` reads.
use pytest_salt_factories.Base.{ℕ, Option, none, some, Bool, true, false}
use pytest_salt_factories.Base.Text.{Text, text_eq}
use pytest_salt_factories.Base.Dict.{lookup}
use pytest_salt_factories.LogHandler.Setup.{Address, PytestConfig, Opts, pytest_key}

pub data EngineVirtual : Type 0 where
  engine_accepts no_msgpack no_role no_engine_config no_returner_address : EngineVirtual

unfoldable pub check_address : Option Address → EngineVirtual
check_address none = no_returner_address
check_address (some a) = engine_accepts

unfoldable pub check_engine_config : Option PytestConfig → EngineVirtual
check_engine_config none = no_engine_config
check_engine_config (some c) = check_address c.returner_address

unfoldable pub check_engine_role : Option Text → Opts → EngineVirtual
check_engine_role none opts = no_role
check_engine_role (some r) opts = check_engine_config (lookup (pytest_key r) opts.configs)

-- `__virtual__`
unfoldable pub engine_virtual : Bool → Opts → EngineVirtual
engine_virtual false opts = no_msgpack
engine_virtual true opts = check_engine_role opts.role opts

-- `returner_address["host"]` and `returner_address["port"]`; `none` is a `KeyError`.
unfoldable pub both_of : Option Text → Option ℕ → Option (Text × ℕ)
both_of (some h) (some p) = some (h, p)
both_of _ _ = none

unfoldable pub address_parts : Option Address → Option (Text × ℕ)
address_parts none = none
address_parts (some a) = both_of a.host a.port

unfoldable pub address_of_config : Option PytestConfig → Option (Text × ℕ)
address_of_config none = none
address_of_config (some c) = address_parts c.returner_address

unfoldable pub address_of_role : Option Text → Opts → Option (Text × ℕ)
address_of_role none opts = none
address_of_role (some r) opts = address_of_config (lookup (pytest_key r) opts.configs)

-- The address of an engine that is made of the options.
unfoldable pub engine_address : Opts → Option (Text × ℕ)
engine_address opts = address_of_role opts.role opts
