-- ===== src/Bind/Creation/Listening.antt =====
-- iface/bind/udp_mux.go: the addresses that a new mux listens on, and whom it serves.
use punch.Common.{
  suc, String, ◌≡◌, refl, sym, ap, inl, inr, Bool, true, false, not, ◌&&◌, ◌||◌, Option, none, some,
  List, [], ◌∷◌, ◌++◌, ◌==◌, nat_eq, length, map, if◌then◌else◌, is_some, arith, string_eq,
  Bool-cases, Option-cases, ok, err,
}
use punch.Text.{text_eq, same_text_iff}
use punch.Bind.Addr.{Ip, UdpAddr, Addr, udp, to4, to16, is_supported_ipv6}
use punch.Common.Map.{lookup}
use punch.Bind.Mux.{Net, Mux, get_conn, create_muxed_conn, find_conn, invalid_address}
use punch.Bind.Creation.{
  Ice, Interface, Request, at_port, passes, any, is_unspecified, keep_ip, ips_of_addrs,
  ips_of_interface, ips_of_interfaces, local_interfaces, networks_of, listed, local_addrs,
  new_udp_mux_default,
}

-- What pion/ice says of its two types of UDP networks.
pub record IsIce {T : Type 0} (ice : Ice T) : Type 0 where
  pub udp4_is_ipv4 : ice.is_ipv4 ice.udp4 ≡ true
  pub udp4_is_not_ipv6 : ice.is_ipv6 ice.udp4 ≡ false
  pub udp6_is_ipv6 : ice.is_ipv6 ice.udp6 ≡ true

abbrev pub has : Ip → List Ip → Bool
has ip [] = false
has ip (other_ip ∷ ips) = ip == other_ip || has ip ips

abbrev pub has_addr : Ip → List (Option Ip) → Bool
has_addr ip [] = false
has_addr ip (none ∷ addrs) = has_addr ip addrs
has_addr ip (some other_ip ∷ addrs) = ip == other_ip || has_addr ip addrs

abbrev pub addrs_or_none : Option (List (Option Ip)) → List (Option Ip)
addrs_or_none none = []
addrs_or_none (some addrs) = addrs

-- An interface that is up and passes the filter has the address.
abbrev pub offers : Option (String → Bool) → Ip → List Interface → Bool
offers filter ip [] = false
offers filter ip (i ∷ ifaces) =
    i.flag_up && passes filter i.name && has_addr ip (addrs_or_none i.addrs)
    || offers filter ip ifaces

-- An IPv4 address, or an IPv6 address where those are wanted and it is supported.
unfoldable pub is_wanted : Bool → Ip → Bool
unfolding to4 is_supported_ipv6
is_wanted v6 ip = not (length ip == 0) && (is_some (to4 ip) || v6 && is_supported_ipv6 ip)

abbrev request : Option (String → Bool) → Bool → Request
request filter v6 = record {
  interface_filter = filter;
  ip_filter = none;
  ipv4_requested = true;
  ipv6_requested = v6;
  include_loopback = true;
}

length-map : {A C : Type 0} (f : A → C) (xs : List A) → length (map f xs) ≡ length xs
length-map f [] = refl
length-map f (x ∷ xs) = ap suc (length-map f xs)

has-append : (ip : Ip) (xs ys : List Ip) → has ip (xs ++ ys) ≡ (has ip xs || has ip ys)
has-append ip [] ys = refl
has-append ip (x ∷ xs) ys = ground (arith, has-append ip xs ys)

module _ (filter : Option (String → Bool)) (v6 : Bool) where
  wanted-same : (ip x : Ip) → (ip == x) ≡ true → is_wanted v6 x ≡ is_wanted v6 ip
  wanted-same ip x h = ap (is_wanted v6) (sym ((same_text_iff ip x).0 h))

  ips_of_addrs-next :
      (x : Ip) (addrs : List (Option Ip))
      → let rest = ips_of_addrs (request filter v6) addrs in
        ips_of_addrs (request filter v6) (some x ∷ addrs)
        ≡ (if is_wanted v6 x then x ∷ rest else rest)
  unfolding ips_of_addrs keep_ip is_wanted
  ips_of_addrs-next x addrs = ground arith

  has-ips_of_addrs :
      (ip : Ip) (addrs : List (Option Ip))
      → has ip (ips_of_addrs (request filter v6) addrs) ≡ (has_addr ip addrs && is_wanted v6 ip)
  unfolding ips_of_addrs
  has-ips_of_addrs ip [] = refl
  has-ips_of_addrs ip (none ∷ addrs) = has-ips_of_addrs ip addrs
  has-ips_of_addrs ip (some x ∷ addrs) =
      rw (ips_of_addrs-next x addrs) (ground (arith, wanted-same ip x, has-ips_of_addrs ip addrs))

  has-ips_of_interface :
      (ip : Ip) (i : Interface)
      → has ip (ips_of_interface (request filter v6) i) ≡ (
          i.flag_up
          && passes filter i.name
          && has_addr ip (addrs_or_none i.addrs)
          && is_wanted v6 ip)
  unfolding ips_of_interface
  has-ips_of_interface ip i = elim (Option-cases i.addrs) [
    | inl e ↦ rw (e, ips_of_interface) (ground arith)
    | inr (addrs, e) ↦ rw (e, ips_of_interface) (ground (arith, has-ips_of_addrs ip addrs))
  ]

  has-ips_of_interfaces :
      (ip : Ip) (ifaces : List Interface)
      → has ip (ips_of_interfaces (request filter v6) ifaces)
        ≡ (offers filter ip ifaces && is_wanted v6 ip)
  unfolding ips_of_interfaces
  has-ips_of_interfaces ip [] = refl
  has-ips_of_interfaces ip (i ∷ ifaces) =
      rw
        (has-append ip (ips_of_interface (request filter v6) i)
          (ips_of_interfaces (request filter v6) ifaces))
        (ground (arith, has-ips_of_interface ip i, has-ips_of_interfaces ip ifaces))

abbrev pub all_interfaces : Option (List Interface) → List Interface
all_interfaces none = []
all_interfaces (some ifaces) = ifaces

-- What a new mux on the socket at `a` listens on, beside its own address.
abbrev pub listens_on : Option (List Interface) → Option (String → Bool) → UdpAddr → Ip → Bool
listens_on ifaces filter a ip =
    is_unspecified a.ip
    && offers filter ip (all_interfaces ifaces)
    && is_wanted (not (is_some (to4 a.ip))) ip

-- The new mux lists the addresses, with the socket's port, and serves a connection that is asked
-- for at its own address, or at any where it lists one.
pub record IsListening {B : Type 0} (net : Net B) (ifaces : Option (List Interface))
    (filter : Option (String → Bool)) (a : UdpAddr) (m : Mux B) : Type 0 where
  pub ips : List Ip
  pub lists : m.local_addrs_for_unspecified ≡ map (at_port a.port) ips
  pub has_offered : (ip : Ip) → has ip ips ≡ listens_on ifaces filter a ip
  pub serves :
      (ufrag : String) (addr : Addr)
      → (get_conn net ufrag addr m).1 ≡ (
          if length ips == 0 && not (net.to_string (udp a) == net.to_string addr)
          then err invalid_address
          else ok 0)

module _ {T : Type 0} (ice : Ice T) (law : IsIce ice) where
  networks-one : (ip ip4 : Ip) → to4 ip ≡ some ip4 → networks_of ice ip ≡ ice.udp4 ∷ []
  unfolding networks_of
  networks-one ip ip4 e = rw (e, networks_of)

  networks-both :
      (ip : Ip)
      → to4 ip ≡ none
      → is_unspecified ip ≡ true
      → networks_of ice ip ≡ ice.udp4 ∷ ice.udp6 ∷ []
  unfolding networks_of is_unspecified to16
  networks-both ip e h = ground (arith, e, h)

  networks_of-families :
      (ip : Ip)
      → is_unspecified ip ≡ true
      → (any ice.is_ipv4 (networks_of ice ip) ≡ true)
        × (any ice.is_ipv6 (networks_of ice ip) ≡ not (is_some (to4 ip)))
        × ((length (networks_of ice ip) == 0) ≡ false)
  unfolding any
  networks_of-families ip h = elim (Option-cases (to4 ip)) [
    | inl e ↦
        rw (networks-both ip e h, e, law.udp4_is_ipv4, law.udp4_is_not_ipv6, law.udp6_is_ipv6)
          (refl, refl, refl)
    | inr (ip4, e) ↦
        rw (networks-one ip ip4 e, e, law.udp4_is_ipv4, law.udp4_is_not_ipv6) (refl, refl, refl)
  ]

  ips_listed : Option (List Interface) → Option (String → Bool) → UdpAddr → List Ip
  unfolding is_unspecified
  ips_listed none filter a = []
  ips_listed (some ifaces) filter a =
      if is_unspecified a.ip
      then ips_of_interfaces (request filter (not (is_some (to4 a.ip)))) ifaces
      else []

  local_addrs-listed :
      (ifaces : Option (List Interface)) (filter : Option (String → Bool)) (a : UdpAddr)
      → local_addrs ice ifaces filter (udp a) ≡ map (at_port a.port) (ips_listed ifaces filter a)
  unfolding local_addrs listed local_interfaces ips_listed
  local_addrs-listed none filter a = ground arith
  local_addrs-listed (some ifaces) filter a = elim (Bool-cases (is_unspecified a.ip)) [
    | inl e ↦
        let (v4, v6, some_network) = networks_of-families a.ip e in rw (e, some_network, v4, v6)
    | inr e ↦ rw e
  ]

  has-ips_listed :
      (ifaces : Option (List Interface)) (filter : Option (String → Bool)) (a : UdpAddr) (ip : Ip)
      → has ip (ips_listed ifaces filter a) ≡ listens_on ifaces filter a ip
  unfolding ips_listed
  has-ips_listed none filter a ip = ground arith
  has-ips_listed (some ifaces) filter a ip =
      ground (arith, has-ips_of_interfaces filter (not (is_some (to4 a.ip))) ip ifaces)

  get_conn-new :
      {B : Type 0} (net : Net B) (ifaces : Option (List Interface))
      (filter : Option (String → Bool)) (a : UdpAddr) (ufrag : String) (addr : Addr)
      → (get_conn net ufrag addr (new_udp_mux_default ice ifaces filter (udp a))).1 ≡ (
          if length (ips_listed ifaces filter a) == 0
            && not (net.to_string (udp a) == net.to_string addr)
          then err invalid_address
          else ok 0)
  unfolding new_udp_mux_default get_conn find_conn lookup create_muxed_conn
  get_conn-new net ifaces filter a ufrag addr =
      rw
        (
          local_addrs-listed ifaces filter a,
          length-map (at_port a.port) (ips_listed ifaces filter a),
        )
        (ground arith)

  -- NewUDPMuxDefault on a UDP socket, and GetConn on the mux that it returns: the mux lists
  -- addresses of its own only on an unspecified address, and then those of the interfaces that are
  -- up and pass the filter, with the IPv6 ones, where supported, only on ::. Where it lists none,
  -- also since the interfaces cannot be read, it serves only who asks for its own address.
  pub new_udp_mux_default-IsListening :
      {B : Type 0} (net : Net B) (ifaces : Option (List Interface))
      (filter : Option (String → Bool)) (a : UdpAddr)
      → IsListening net ifaces filter a (new_udp_mux_default ice ifaces filter (udp a))
  unfolding new_udp_mux_default
  new_udp_mux_default-IsListening net ifaces filter a = record {
    ips = ips_listed ifaces filter a;
    lists = local_addrs-listed ifaces filter a;
    has_offered = has-ips_listed ifaces filter a;
    serves = get_conn-new net ifaces filter a;
  }
