-- ===== src/DaemonConfig/Proxy.antt =====
-- The proxy minion, src/saltfactories/daemons/proxy.py, and the api, src/saltfactories/daemons/api.py:
-- the arguments and the service name of the one, and the ports that the other checks.
use pytest_salt_factories.Base.{
  ◌≡◌, refl, Bool, true, false, Option, none, some, List, ◌∷◌, ◌++◌, any, arith, Bool-cases, inl,
  inr, if◌then◌else◌,
}
use pytest_salt_factories.Base.Text.{Text, codes, text_eq, starts_with, starts_with-append}
use pytest_salt_factories.DaemonConfig.{Setting, table, Settings, get}

abbrev is_proxyid : Text → Bool
is_proxyid arg = starts_with arg (codes "--proxyid")

-- `cmdline`: the arguments for that of `SaltDaemon`.
unfoldable pub proxy_args : Bool → Text → List Text → List Text
proxy_args include_proxyid_cli_flag id args =
    if include_proxyid_cli_flag
    then (if any is_proxyid args then args else (codes "--proxyid=" ++ id) ∷ args)
    else args

-- `SystemdSaltProxyImpl.get_service_name`; `base` is the name that `SystemdSaltDaemonImpl` has.
unfoldable pub proxy_service_name : Option Text → Text → Text → Text
proxy_service_name (some name) base id = name
proxy_service_name none base id = base ++ (codes "@" ++ id)

-- `self.config[…]["port"]`; `none` is an exception.
unfoldable pub port_setting : Setting → Option Setting
port_setting (table s) = get (codes "port") s
port_setting v = none

-- The `check_ports` of `SaltApi.__attrs_post_init__`; no entry for an api is a usage error.
unfoldable pub api_ports : Option Setting → Option Setting → Option Setting
api_ports (some cherrypy) tornado = port_setting cherrypy
api_ports none (some tornado) = port_setting tornado
api_ports none none = none

unfoldable pub api_check_port : Settings → Option Setting
api_check_port config =
    api_ports (get (codes "rest_cherrypy") config) (get (codes "rest_tornado") config)

is_proxyid-flag : (id : Text) → is_proxyid (codes "--proxyid=" ++ id) ≡ true
unfolding codes starts_with
is_proxyid-flag id = starts_with-append (codes "--proxyid") (codes "=" ++ id)

-- The arguments name a proxy, once: no flag is added to arguments that have one, nor where the flag is
-- switched off.
pub proxy_args_lem :
    (id : Text) (args : List Text)
    → (any is_proxyid (proxy_args true id args) ≡ true)
      × (proxy_args true id (proxy_args true id args) ≡ proxy_args true id args)
      × (proxy_args false id args ≡ args)
unfolding proxy_args any
proxy_args_lem id args = elim (Bool-cases (any is_proxyid args)) [
  | inl named ↦ (ground (arith, named), ground (arith, named), refl)
  | inr unnamed ↦ (
    ground (arith, unnamed, is_proxyid-flag id),
    ground (arith, unnamed, is_proxyid-flag id),
    refl,
  )
]
