-- ===== src/Container/Ports.antt =====
-- The ports of `Container`: the mapping that `__attrs_post_init__` builds, `get_host_port_binding` and
-- `get_check_ports`. A host port that is not known is `none`. An entry of a sequence of ports is a
-- number or a pair.
use pytest_salt_factories.Base.{
  ◌≡◌, refl, Bool, true, false, not, ◌&&◌, Option, none, some, List, [], ◌∷◌, ◌++◌, ◌==◌, keep_if,
  arith, any, if◌then◌else◌,
}
use pytest_salt_factories.Base.Text.{Text, codes, text_eq, has_part, split}
use pytest_salt_factories.Base.Dict.{Dict, lookup, insert, lookup-insert}
use pytest_salt_factories.Base.Int.{ℤ, int_eq, truthy_ℤ}
use pytest_salt_factories.Base.Decimal.{parse_int, show_int}

abbrev pub PortMap : Type 0
PortMap = Dict ℤ (Option ℤ)

pub data Entry : Type 0 where
  port : ℤ → Entry
  pair : ℤ → ℤ → Entry

-- An exception: `UnboundLocalError`, or the `ValueError` of a port that is not of the form `1/tcp`.
pub data PortsResult : Type 0 where
  ok : PortMap → PortsResult
  unbound_local value_error : PortsResult

-- The loop over a sequence of ports. A pair leaves `container_binding` and `host_binding` as the
-- entry before has set them.
unfoldable pub check_ports_from : Option ℤ → PortMap → List Entry → PortsResult
check_ports_from bound ports [] = ok ports
check_ports_from bound ports (port p ∷ entries) =
    check_ports_from (some p) (insert p (some p) ports) entries
check_ports_from none ports (pair c h ∷ entries) = unbound_local
check_ports_from (some p) ports (pair c h ∷ entries) =
    check_ports_from (some p) (insert p (some p) ports) entries

unfoldable pub check_ports_of : List Entry → PortsResult
check_ports_of entries = check_ports_from none [] entries

-- `if int(port) not in self.check_ports`
unfoldable pub add_port : ℤ → Option ℤ → PortMap → PortMap
add_port p host ports = elim (lookup p ports) [ none ↦ insert p host ports | some old ↦ ports ]

-- `port, proto = container_binding.split("/")`; `none` is a `ValueError`.
unfoldable pub port_and_proto : List Text → Option (Text × Text)
port_and_proto (number ∷ proto ∷ []) = some (number, proto)
port_and_proto pieces = none

unfoldable pub add_tcp : Option (Text × Text) → Option ℤ → PortMap → Option PortMap
add_tcp none host ports = none
add_tcp (some (number, proto)) host ports =
    if proto == codes "tcp"
    then elim (parse_int number) [ none ↦ none | some p ↦ some (add_port p host ports) ]
    else some ports

-- `container_run_kwargs["ports"]`
unfoldable pub add_run_ports : Dict Text (Option ℤ) → PortMap → PortsResult
add_run_ports [] ports = ok ports
add_run_ports ((binding, host) ∷ bindings) ports =
    elim (add_tcp (port_and_proto (split (codes "/") binding)) host ports) [
      | none ↦ value_error
      | some next ↦ add_run_ports bindings next
    ]

-- A host binding as docker gives it.
pub record HostBinding : Type 0 where
  pub host_ip : Text
  pub host_port : ℤ

-- The loop of `get_host_port_binding`
unfoldable pub first_binding : Bool → List HostBinding → Option ℤ
first_binding ipv6 [] = none
first_binding ipv6 (b ∷ bindings) =
    let rest = first_binding ipv6 bindings in
    if has_part (codes "::") b.host_ip && not ipv6 then rest else some b.host_port

-- `host_port_bindings`: none of the port, or an empty one, or some.
unfoldable pub binding_of : Bool → ℤ → Option (Option (List HostBinding)) → Option ℤ
binding_of ipv6 p none = none
binding_of ipv6 p (some none) = some p
binding_of ipv6 p (some (some [])) = some p
binding_of ipv6 p (some (some (b ∷ bindings))) = first_binding ipv6 (b ∷ bindings)

-- `get_host_port_binding`; the first argument is `self.container.ports`, if there is a container.
unfoldable pub get_host_port_binding :
    Option (Dict Text (Option (List HostBinding))) → ℤ → Text → Bool → Option ℤ
get_host_port_binding none p protocol ipv6 = none
get_host_port_binding (some ports) p protocol ipv6 =
    binding_of ipv6 p (lookup (show_int p ++ (codes "/" ++ protocol)) ports)

-- The host port that is asked of docker where none is known.
unfoldable pub host_port : Option (Dict Text (Option (List HostBinding))) → ℤ → Option ℤ → Option ℤ
host_port ports p (some host) = some host
host_port ports p none = elim (get_host_port_binding ports p (codes "tcp") false) [
  | none ↦ none
  | some host ↦ if truthy_ℤ host then some host else none
]

-- `get_check_ports`
unfoldable pub get_check_ports : Option (Dict Text (Option (List HostBinding))) → PortMap → PortMap
get_check_ports ports [] = []
get_check_ports ports ((p, host) ∷ bindings) =
    (p, host_port ports p host) ∷ get_check_ports ports bindings

abbrev pub is_port : ℤ → Entry → Bool
is_port p (port q) = p == q
is_port p (pair c h) = false

-- What a port is mapped to.
abbrev pub mapped : ℤ → Bool → Option (Option ℤ)
mapped p given = if given then some (some p) else none

check_ports_from_lem :
    (b : ℤ) (ports : PortMap) (entries : List Entry)
    → lookup b ports ≡ some (some b)
    → (out : PortMap) × (check_ports_from (some b) ports entries ≡ ok out)
      × ((p : ℤ)
          → lookup p out ≡ (if any (is_port p) entries then some (some p) else lookup p ports))
unfolding check_ports_from any
check_ports_from_lem b ports [] h = (ports, refl, λ p. refl)
check_ports_from_lem b ports (port q ∷ entries) h =
    let (out, same, at) =
      check_ports_from_lem q (insert q (some q) ports) entries
        (ground (arith, lookup-insert q q (some q) ports)) in
    (out, same, λ p. ground (arith, at p, lookup-insert p q (some q) ports))
check_ports_from_lem b ports (pair c k ∷ entries) h =
    let (out, same, at) =
      check_ports_from_lem b (insert b (some b) ports) entries
        (ground (arith, lookup-insert b b (some b) ports)) in
    (out, same, λ p. ground (arith, at p, lookup-insert p b (some b) ports, h))

-- A sequence of ports whose first entry is a number is read, and then its pairs are as if they were
-- not there: a port is mapped, to itself, exactly if it is an entry by itself.
pub lookup-check_ports_of :
    (q : ℤ) (entries : List Entry) (p : ℤ)
    → (out : PortMap) × (check_ports_of (port q ∷ entries) ≡ ok out)
      × (lookup p out ≡ mapped p (any (is_port p) (port q ∷ entries)))
unfolding check_ports_of check_ports_from any lookup insert
lookup-check_ports_of q entries p =
    let (out, same, at) = check_ports_from_lem q ((q, some q) ∷ []) entries (ground arith) in
    (out, same, ground (arith, at p))

abbrev pub is_ipv4 : HostBinding → Bool
is_ipv4 b = not (has_part (codes "::") b.host_ip)

abbrev pub port_of_first : List HostBinding → Option ℤ
port_of_first [] = none
port_of_first (b ∷ bindings) = some b.host_port

-- Without `ipv6` the port of the first binding is found whose address has no `::`; with it, that of
-- the first binding, whatever its address is.
pub first_binding_lem :
    (bindings : List HostBinding)
    → (first_binding false bindings ≡ port_of_first (keep_if is_ipv4 bindings))
      × (first_binding true bindings ≡ port_of_first bindings)
unfolding first_binding keep_if
first_binding_lem [] = (refl, refl)
first_binding_lem (b ∷ bindings) = ground (arith, (first_binding_lem bindings).0)
