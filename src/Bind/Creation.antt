-- ===== src/Bind/Creation.antt =====
-- iface/bind/udp_mux.go and udp_mux_universal.go: the constructors of the two muxes, with the
-- addresses of the host's interfaces that a mux on an unspecified address listens on.
pub mod Listening
mod Tests
use punch.Common.{
  ℕ, String, Bool, true, false, not, ◌&&◌, ◌||◌, Option, none, some, List, [], ◌∷◌, ◌++◌, ◌==◌,
  nat_eq, length, map, if◌then◌else◌, is_some, Result, ok, err,
}
use punch.Bind.Addr.{
  Ip, UdpAddr, Addr, udp, other, to4, to16, is_zeros, is_loopback, is_supported_ipv6,
}
use punch.Bind.Mux.{Mux}
use punch.Bind.Mapped.{Universal}
use punch.Bind.Receiver.{UniversalMux, IceBind}

-- pion/ice's types of networks.
pub record Ice (T : Type 0) : Type 0 where
  pub udp4 : T
  pub udp6 : T
  pub is_ipv4 : T → Bool
  pub is_ipv6 : T → Bool

-- A transport.Interface with what its Addrs returns, `none` for an error; an address of another
-- type than net.IPNet and net.IPAddr is `none`, and the nil IP is empty.
pub record Interface : Type 0 where
  pub name : String
  pub flag_up : Bool
  pub flag_loopback : Bool
  pub addrs : Option (List (Option Ip))

pub data Error : Type 0 where
  no_interfaces : Error

-- net.IP's IsUnspecified: 0.0.0.0, also in its IPv6 form, or ::.
unfoldable pub is_unspecified : Ip → Bool
unfolding to4 is_zeros
is_unspecified ip = elim (to4 ip) [
  | some ip4 ↦ is_zeros ip4
  | none ↦ length ip == 16 && is_zeros ip
]

-- A filter that is nil lets everything pass.
abbrev pub passes : {A : Type 0} → Option (A → Bool) → A → Bool
passes none x = true
passes (some filter) x = filter x

any : {T : Type 0} → (T → Bool) → List T → Bool
any f [] = false
any f (t ∷ ts) = f t || any f ts

-- IPv4Requested and IPv6Requested, with what localInterfaces is called with.
pub record Request : Type 0 where
  pub interface_filter : Option (String → Bool)
  pub ip_filter : Option (Ip → Bool)
  pub ipv4_requested : Bool
  pub ipv6_requested : Bool
  pub include_loopback : Bool

module _ (r : Request) where
  -- The rest of the inner loop's body, from the switch over the IP's family on.
  unfoldable pub keep_ip : Ip → Bool
  unfolding to4 is_supported_ipv6
  keep_ip ip =
      if is_some (to4 ip)
      then (if not r.ipv4_requested then false else passes r.ip_filter ip)
      else if not r.ipv6_requested
      then false
      else if not (is_supported_ipv6 ip)
      then false
      else passes r.ip_filter ip

  unfoldable pub ips_of_addrs : List (Option Ip) → List Ip
  unfolding is_loopback keep_ip
  ips_of_addrs [] = []
  ips_of_addrs (none ∷ addrs) = ips_of_addrs addrs
  ips_of_addrs (some ip ∷ addrs) =
      let rest = ips_of_addrs addrs in
      if length ip == 0 || (is_loopback ip && not r.include_loopback)
      then rest
      else if keep_ip ip
      then ip ∷ rest
      else rest

  unfoldable pub ips_of_interface : Interface → List Ip
  unfolding ips_of_addrs
  ips_of_interface i =
      if not i.flag_up
      then []
      else if i.flag_loopback && not r.include_loopback
      then []
      else if not (passes r.interface_filter i.name)
      then []
      else elim i.addrs [ none ↦ [] | some addrs ↦ ips_of_addrs addrs ]

  unfoldable pub ips_of_interfaces : List Interface → List Ip
  unfolding ips_of_interface
  ips_of_interfaces [] = []
  ips_of_interfaces (i ∷ is) = ips_of_interface i ++ ips_of_interfaces is

abbrev pub at_port : ℕ → Ip → UdpAddr
at_port port ip = record { ip = ip; port = port; zone = [] }

listed : ℕ → Result Error (List Ip) → List UdpAddr
listed port (err e) = []
listed port (ok ips) = map (at_port port) ips

module _ {T : Type 0} (ice : Ice T) where
  unfoldable pub local_interfaces :
      Option (List Interface)
      → Option (String → Bool)
      → Option (Ip → Bool)
      → List T
      → Bool
      → Result Error (List Ip)
  unfolding any ips_of_interfaces
  local_interfaces none interface_filter ip_filter network_types include_loopback =
      err no_interfaces
  local_interfaces (some ifaces) interface_filter ip_filter network_types include_loopback = ok (
      ips_of_interfaces
        (record {
          interface_filter = interface_filter;
          ip_filter = ip_filter;
          ipv4_requested = any ice.is_ipv4 network_types;
          ipv6_requested = any ice.is_ipv6 network_types;
          include_loopback = include_loopback;
        })
        ifaces)

  -- The switch over the family of an unspecified address.
  unfoldable pub networks_of : Ip → List T
  unfolding to4 to16
  networks_of ip =
      if is_some (to4 ip)
      then ice.udp4 ∷ []
      else if is_some (to16 ip)
      then ice.udp4 ∷ ice.udp6 ∷ []
      else []

  unfoldable pub local_addrs :
      Option (List Interface) → Option (String → Bool) → Addr → List UdpAddr
  unfolding local_interfaces networks_of listed
  local_addrs ifaces filter (other text) = []
  local_addrs ifaces filter (udp a) =
      let networks = networks_of a.ip in
      if is_unspecified a.ip
      then (if length networks == 0
          then []
          else listed a.port (local_interfaces ifaces filter none networks true))
      else []

  -- NewUDPMuxDefault on a socket with the given local address; `ifaces` is what the Net's
  -- Interfaces returns, of the one that is given or else of a new one.
  unfoldable pub new_udp_mux_default :
      {B : Type 0} → Option (List Interface) → Option (String → Bool) → Addr → Mux B
  unfolding local_addrs
  new_udp_mux_default ifaces filter local_addr = record {
    heap = [];
    conns_ipv4 = [];
    conns_ipv6 = [];
    address_map = [];
    closed = false;
    local_addr = local_addr;
    local_addrs_for_unspecified = local_addrs ifaces filter local_addr;
  }

  -- NewUniversalUDPMuxDefault: a time to live of 0 is 25 seconds, and no interface is filtered.
  unfoldable pub new_universal_udp_mux_default :
      {B : Type 0} → Option (List Interface) → ℕ → Addr → UniversalMux B
  unfolding new_udp_mux_default
  new_universal_udp_mux_default ifaces ttl local_addr = record {
    mapped = record { heap = []; xor_mapped_map = []; cache_ttl = if ttl == 0 then 25 else ttl };
    udp_mux = new_udp_mux_default ifaces none local_addr;
  }

  -- createIPv4ReceiverFn up to its return: the bind has a new mux, in place of an older one.
  unfoldable pub create_ipv4_receiver_fn :
      {B : Type 0} → Option (List Interface) → Addr → IceBind B → IceBind B
  unfolding new_universal_udp_mux_default
  create_ipv4_receiver_fn ifaces local_addr s = record s {
    udp_mux = some (new_universal_udp_mux_default ifaces 0 local_addr);
  }

unfoldable pub get_listen_addresses : {B : Type 0} → Mux B → List Addr
get_listen_addresses m =
    if length m.local_addrs_for_unspecified == 0
    then m.local_addr ∷ []
    else map udp m.local_addrs_for_unspecified
