-- ===== src/Probe/Network.antt =====
-- internal/probe/networking.go: which addresses of the host the probe reports. The package net of
-- the host is a parameter: its interfaces, with what the code reads of them.
use text.Mathlib.Text.{starts_with}
use metal_operator.Base.{
  String, Bool, not, ◌&&◌, ◌||◌, ◌==◌, Option, none, some, List, [], ◌∷◌, ◌++◌, if◌then◌else◌,
}
use metal_operator.Effects.{Result}
use metal_operator.Effects.Env.{RegistryInterface}
use metal_operator.BmcUtils.Clients.{next}
use metal_operator.Redfish.Text.{contains}

-- net.IP: its text, and whether it is a loopback address and has a form of four bytes
pub record Ip : Type 0 where
  pub text : String
  pub is_loopback : Bool
  pub is_v4 : Bool

-- net.Interface; an address that is neither an IPNet nor an IPAddr has no IP.
pub record Interface : Type 0 where
  pub name : String
  pub hardware_addr : String
  pub is_loopback : Bool
  pub is_up : Bool
  pub addrs : Result (List (Option Ip))

unfoldable pub is_slaac : String → Bool
is_slaac ip = contains ip "ff:fe"

-- The interfaces that are passed over.
unfoldable pub is_skipped : Interface → Bool
is_skipped i =
    i.is_loopback
    || i.hardware_addr == ""
    || starts_with i.name "tun"
    || starts_with i.name "docker0"
    || not i.is_up

-- The addresses that are passed over.
unfoldable pub is_ignored : Ip → Bool
unfolding is_slaac
is_ignored ip = ip.is_loopback || not ip.is_v4 && is_slaac ip.text

unfoldable pub network_interface : Interface → Ip → RegistryInterface
network_interface i ip = record {
  name = i.name;
  ip_address = ip.text;
  mac_address = i.hardware_addr;
}

-- The loop over the addresses of an interface.
unfoldable pub collect_addresses : Interface → List (Option Ip) → List RegistryInterface
unfolding is_ignored network_interface
collect_addresses i [] = []
collect_addresses i (none ∷ addrs) = collect_addresses i addrs
collect_addresses i (some ip ∷ addrs) =
    let rest = collect_addresses i addrs in
    if is_ignored ip then rest else network_interface i ip ∷ rest

unfoldable pub collect_interfaces : List Interface → Result (List RegistryInterface)
unfolding is_skipped collect_addresses next
collect_interfaces [] = Result.ok []
collect_interfaces (i ∷ interfaces) =
    let rest = collect_interfaces interfaces in
    if is_skipped i
    then rest
    else (next i.addrs λ addrs. next rest λ found. Result.ok (collect_addresses i addrs ++ found))

-- collectNetworkData, on the answer of net.Interfaces
unfoldable pub collect_network_data : Result (List Interface) → Result (List RegistryInterface)
unfolding next collect_interfaces
collect_network_data interfaces = next interfaces collect_interfaces
