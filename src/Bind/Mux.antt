-- ===== src/Bind/Mux.antt =====
-- iface/bind/udp_mux.go and udp_muxed_conn.go: the muxed connections, the maps by which the mux
-- finds them, and the delivery of STUN packets to them. A `*udpMuxedConn` is an index of the
-- heap, so that two maps can hold the same connection.
mod State
unfoldable pub use State.*
pub mod Heap
pub mod Lookups
pub mod Addresses
pub mod Dispatch
pub mod Extends
pub mod Links
pub mod Invariant
pub mod Closing
pub mod Unregistered
mod Tests
use Prim.Native.Char.{code}
use Prim.Native.String
use punch.Common.{
  ℕ, String, Bool, true, false, not, ◌&&◌, Option, none, some, List, [], ◌∷◌, ◌++◌, ◌==◌, nat_eq,
  string_eq, length, drop, get_elem?, set, if◌then◌else◌, is_some, Result, ok, err,
}
use punch.Common.Map.{Map, lookup, insert, erase}
use punch.Bind.Addr.{UdpAddr, Addr, udp, other, is_ipv6}
use punch.Bind.Wire.{IpText, WireError, write_packet, read_packet, holder_size}

-- What is handed to the UDP socket, whose answer WriteTo returns.
pub record Sent : Type 0 where
  pub bytes : List ℕ
  pub to : Addr

module _ {B : Type 0} (net : Net B) where
  pub new_udp_muxed_conn : String → MuxedConn B
  new_udp_muxed_conn key = record {
    key = key;
    addresses = [];
    buf = net.buffer.new_buffer;
    closed = false;
  }

  unfoldable pub create_muxed_conn : String → Bool → Mux B → Mux B × Result Error ℕ
  unfolding new_udp_muxed_conn
  create_muxed_conn ufrag v6 m =
      let id = length m.heap in
      let m' = record m { heap = m.heap ++ new_udp_muxed_conn ufrag ∷ [] } in
      (
        if v6
            then record m' { conns_ipv6 = insert ufrag id m'.conns_ipv6 }
            else record m' { conns_ipv4 = insert ufrag id m'.conns_ipv4 },
        ok id,
      )

  unfoldable pub get_conn : String → Addr → Mux B → Mux B × Result Error ℕ
  unfolding create_muxed_conn find_conn
  get_conn ufrag addr m =
      if length m.local_addrs_for_unspecified == 0
        && not (net.to_string m.local_addr == net.to_string addr)
      then (m, err invalid_address)
      else if m.closed
      then (m, err closed_pipe)
      else elim (find_conn ufrag (is_ipv6 addr) m) [
        | some id ↦ (m, ok id)
        | none ↦ create_muxed_conn ufrag (is_ipv6 addr) m
      ]

  -- `closeOnce`
  pub close_muxed_conn : MuxedConn B → MuxedConn B
  close_muxed_conn c =
      if c.closed then c else record c { buf = net.buffer.close_buffer c.buf; closed = true }

  unfoldable pub close_conn : ℕ → Mux B → Mux B
  unfolding close_muxed_conn
  close_conn id m = on_heap (update_conn id close_muxed_conn) m

  pub close_all : Map String ℕ → List (MuxedConn B) → List (MuxedConn B)
  unfolding close_muxed_conn
  close_all [] heap = heap
  close_all ((ufrag, id) ∷ rest) heap = close_all rest (update_conn id close_muxed_conn heap)

  unfoldable pub close : Mux B → Mux B
  unfolding close_all
  close m = if m.closed then m else record m {
    heap = close_all m.conns_ipv6 (close_all m.conns_ipv4 m.heap);
    conns_ipv4 = [];
    conns_ipv6 = [];
    closed = true;
  }

  write_from : ℕ → MuxedConn B → List ℕ → Addr → Mux B → Mux B × Result Error Sent
  write_from id c bytes to m =
      let addr = net.to_string to in
      if c.closed then (m, err closed_pipe) else (
        if contains_string addr c.addresses then m else add_address id addr m,
        ok (record { bytes = bytes; to = to }),
      )

  unfoldable pub write_to : ℕ → List ℕ → Addr → Mux B → Mux B × Result Error Sent
  unfolding write_from
  write_to id bytes to m = elim (get_elem? m.heap id) [
    | none ↦ (m, err closed_pipe)
    | some c ↦ write_from id c bytes to m
  ]

  -- `ReadFrom` into `room` bytes: the queue's next packet is read into a pooled buffer, over
  -- what the buffer holds from earlier packets.
  pub read_held : List ℕ → ℕ → MuxedConn B → MuxedConn B × Result Error (List ℕ × UdpAddr)
  read_held held room c = elim (net.buffer.read c.buf holder_size) [
    | none ↦ (c, err short_read)
    | some (packet, buf) ↦ (
      record c { buf = buf },
      elim (read_packet net.ip_text (packet ++ drop (length packet) held) (length packet) room) [
        | err e ↦ err (wire e)
        | ok r ↦ ok r
      ],
    )
  ]

  unfoldable pub read_from : ℕ → List ℕ → ℕ → Mux B → Mux B × Result Error (List ℕ × UdpAddr)
  unfolding read_held
  read_from id held room m = elim (get_elem? m.heap id) [
    | none ↦ (m, err closed_pipe)
    | some c ↦
        (on_heap (update_conn id (λ d. (read_held held room d).0)) m, (read_held held room c).1)
  ]

-- The part of a username in front of its first colon: `strings.Split(s, ":")[0]`.
unfoldable pub before_colon : String → String
before_colon String.[] = String.[]
before_colon (String.◌∷◌ c s) =
    let rest = String.◌∷◌ c (before_colon s) in if code c == b':' then String.[] else rest

-- A decoded STUN message: its bytes, and its USERNAME attribute if it has one.
pub record StunMessage : Type 0 where
  pub raw : List ℕ
  pub username : Option String

same_key : Option String → Option String → Bool
same_key (some a) (some b) = a == b
same_key _ _ = false

pub stored_conns : Option (List ℕ) → List ℕ
stored_conns none = []
stored_conns (some ids) = ids

module _ {B : Type 0} where
  unfoldable pub key_of : List (MuxedConn B) → ℕ → Option String
  key_of heap id = elim (get_elem? heap id) [ none ↦ none | some c ↦ some c.key ]

  pub exists_key : List (MuxedConn B) → Option String → List ℕ → Bool
  unfolding same_key key_of
  exists_key heap key [] = false
  exists_key heap key (id ∷ ids) =
      let rest = exists_key heap key ids in if same_key (key_of heap id) key then true else rest

  add_destination : List (MuxedConn B) → Option ℕ → List ℕ → List ℕ
  unfolding exists_key
  add_destination heap none ids = ids
  add_destination heap (some id) ids =
      if exists_key heap (key_of heap id) ids then ids else ids ++ id ∷ []

  pub by_username : Option String → Bool → Mux B → Option ℕ
  unfolding before_colon find_conn
  by_username none v6 m = none
  by_username (some attr) v6 m = find_conn (before_colon attr) v6 m

  -- The connections to which a message from `addr`, in text, is forwarded.
  unfoldable pub destinations : StunMessage → String → Bool → Mux B → List ℕ
  unfolding add_destination by_username stored_conns
  destinations msg addr v6 m =
      add_destination m.heap (by_username msg.username v6 m)
        (stored_conns (lookup addr m.address_map))

module _ {B : Type 0} (net : Net B) where
  -- `writePacket`; its error is logged by the caller, and the connection is left as it was.
  pub queue_packet : List ℕ → UdpAddr → MuxedConn B → MuxedConn B
  queue_packet bytes addr c = elim (write_packet net.ip_text bytes addr) [
    | err e ↦ c
    | ok packet ↦ elim (net.buffer.write c.buf packet) [
      | none ↦ c
      | some buf ↦ record c { buf = buf }
    ]
  ]

  unfoldable pub deliver : List ℕ → List ℕ → UdpAddr → List (MuxedConn B) → List (MuxedConn B)
  unfolding queue_packet
  deliver [] bytes addr heap = heap
  deliver (id ∷ ids) bytes addr heap =
      deliver ids bytes addr (update_conn id (queue_packet bytes addr) heap)

  unfoldable pub handle_stun_message : StunMessage → Addr → Mux B → Mux B × Option Error
  unfolding deliver destinations
  handle_stun_message msg (other text) m = (m, some not_udp_addr)
  handle_stun_message msg (udp a) m =
      let ids = destinations msg (net.to_string (udp a)) (is_ipv6 (udp a)) m in
      (on_heap (deliver ids msg.raw a) m, none)

-- The events that change a mux: its own operations and those of its connections. The goroutine
-- that GetConn starts calls `remove_conn_by_ufrag` once its connection is closed.
pub data Op : Type 0 where
  get : String → Addr → Op
  write : ℕ → List ℕ → Addr → Op
  read : ℕ → List ℕ → ℕ → Op
  conn_closes : ℕ → Op
  remove : String → Op
  stun : StunMessage → Addr → Op
  closes : Op

module _ {B : Type 0} (net : Net B) where
  unfoldable pub step : Op → Mux B → Mux B
  unfolding get_conn write_to read_from close_conn remove_conn_by_ufrag handle_stun_message close
  step (get ufrag addr) m = (get_conn net ufrag addr m).0
  step (write id bytes to) m = (write_to net id bytes to m).0
  step (read id held room) m = (read_from net id held room m).0
  step (conn_closes id) m = close_conn net id m
  step (remove ufrag) m = remove_conn_by_ufrag ufrag m
  step (stun msg addr) m = (handle_stun_message net msg addr m).0
  step closes m = close net m

  unfoldable pub run : List Op → Mux B → Mux B
  unfolding step
  run [] m = m
  run (o ∷ os) m = run os (step o m)
