-- ===== src/Bind/Mux/State.antt =====
-- iface/bind/udp_mux.go and udp_muxed_conn.go: the mux with its connections, and its maps.
use punch.Common.{
  ℕ, String, Bool, true, false, Option, none, some, List, [], ◌∷◌, ◌++◌, ◌==◌, nat_eq, string_eq,
  get_elem?, set, if◌then◌else◌,
}
use punch.Common.Map.{Map, lookup, insert, erase}
use punch.Bind.Addr.{UdpAddr, Addr}
use punch.Bind.Wire.{IpText, WireError}

-- packetio.Buffer of pion: a queue of packets. `none` is an error; `write` and `read` fail on a
-- closed buffer, for instance.
pub record PacketBuffer (B : Type 0) : Type 0 where
  pub new_buffer : B
  pub write : B → List ℕ → Option B
  pub read : B → ℕ → Option (List ℕ × B)
  pub close_buffer : B → B

-- What the code takes from other packages: pion's buffer, the text of an IP address (net.IP's
-- MarshalText) and that of a `net.Addr` (its String).
pub record Net (B : Type 0) : Type 0 where
  pub buffer : PacketBuffer B
  pub ip_text : IpText
  pub to_string : Addr → String

pub data Error : Type 0 where
  invalid_address closed_pipe not_udp_addr short_read : Error
  wire : WireError → Error

pub record MuxedConn (B : Type 0) : Type 0 where
  pub key : String
  pub addresses : List String
  pub buf : B
  pub closed : Bool

pub record Mux (B : Type 0) : Type 0 where
  pub heap : List (MuxedConn B)
  pub conns_ipv4 : Map String ℕ
  pub conns_ipv6 : Map String ℕ
  pub address_map : Map String (List ℕ)
  pub closed : Bool
  pub local_addr : Addr
  pub local_addrs_for_unspecified : List UdpAddr

-- `for _, a := range addresses { if addr == a { return true } }`
unfoldable pub contains_string : String → List String → Bool
contains_string addr [] = false
contains_string addr (a ∷ rest) =
    let later = contains_string addr rest in if addr == a then true else later

-- Each address of a removed connection, deleted with all that is registered there.
unfoldable pub erase_addresses : List String → Map String (List ℕ) → Map String (List ℕ)
erase_addresses [] am = am
erase_addresses (a ∷ rest) am = erase_addresses rest (erase a am)

module _ {B : Type 0} where
  -- The method `f` of the connection `id`.
  unfoldable pub update_conn :
      ℕ → (MuxedConn B → MuxedConn B) → List (MuxedConn B) → List (MuxedConn B)
  update_conn id f heap = elim (get_elem? heap id) [ none ↦ heap | some c ↦ set heap id (f c) ]

  abbrev pub on_heap : (List (MuxedConn B) → List (MuxedConn B)) → Mux B → Mux B
  on_heap f m = record m { heap = f m.heap }

  unfoldable pub find_conn : String → Bool → Mux B → Option ℕ
  find_conn ufrag v6 m = if v6 then lookup ufrag m.conns_ipv6 else lookup ufrag m.conns_ipv4

  unfoldable pub register_conn_for_address : ℕ → String → Mux B → Mux B
  register_conn_for_address id addr m = if m.closed then m else elim (lookup addr m.address_map) [
    | none ↦ record m { address_map = insert addr (id ∷ []) m.address_map }
    | some existing ↦ record m { address_map = insert addr (existing ++ id ∷ []) m.address_map }
  ]

  unfoldable pub append_address : String → MuxedConn B → MuxedConn B
  append_address addr c = record c { addresses = c.addresses ++ addr ∷ [] }

  unfoldable pub add_address : ℕ → String → Mux B → Mux B
  unfolding register_conn_for_address append_address
  add_address id addr m =
      register_conn_for_address id addr (on_heap (update_conn id (append_address addr)) m)

  unfoldable pub addresses_of : Option ℕ → List (MuxedConn B) → List String
  addresses_of none heap = []
  addresses_of (some id) heap = elim (get_elem? heap id) [ none ↦ [] | some c ↦ c.addresses ]

  unfoldable pub remove_conn_by_ufrag : String → Mux B → Mux B
  unfolding erase_addresses addresses_of
  remove_conn_by_ufrag ufrag m = record m {
    conns_ipv4 = erase ufrag m.conns_ipv4;
    conns_ipv6 = erase ufrag m.conns_ipv6;
    address_map =
        erase_addresses (addresses_of (lookup ufrag m.conns_ipv6) m.heap)
          (erase_addresses (addresses_of (lookup ufrag m.conns_ipv4) m.heap) m.address_map);
  }
