-- ===== src/Bind/Receiver.antt =====
-- iface/bind/bind.go: ICEBind, whose receiver takes the STUN messages out of what WireGuard
-- reads, and hands them to the universal mux: first to the STUN servers' side of it, and what is
-- not for that to the UDP mux.
pub mod Sorting
mod Tests
use Prim.Native.String.{◌++◌}
use punch.Common.{
  ℕ, String, Bool, true, false, ◌&&◌, Option, none, some, List, [], ◌∷◌, ◌+◌, length, take, set,
  ltb, if◌then◌else◌, Result,
}
use punch.Common
use punch.Common.Panics.{Outcome, ok, err, panic, ◌>>=◌}
use punch.Bind.Addr.{UdpAddr, Addr, udp, other}
use punch.Bind.Mux.{Mux, Net, StunMessage}
use punch.Bind.Mux
use punch.Bind.Mapped.{Universal}
use punch.Bind.Mapped

-- A decoded message with its XOR-MAPPED-ADDRESS: whether it has the attribute, and the address
-- that `GetFrom` reads of it.
pub record Packet : Type 0 where
  pub message : StunMessage
  pub has_xor_mapped : Bool
  pub xor_mapped : Option UdpAddr

-- github.com/pion/stun: `IsMessage`, and `Decode` of the bytes that a message is made of.
pub record Stun : Type 0 where
  pub is_message : List ℕ → Bool
  pub decode : List ℕ → Option Packet

-- UniversalUDPMuxDefault with the UDPMuxDefault that it embeds.
pub record UniversalMux (B : Type 0) : Type 0 where
  pub mapped : Universal UdpAddr
  pub udp_mux : Mux B

pub data BindError : Type 0 where
  not_initialized read_failed : BindError

pub record IceBind (B : Type 0) : Type 0 where
  pub udp_mux : Option (UniversalMux B)

unfoldable pub get_ice_mux : {B : Type 0} → IceBind B → Result BindError (UniversalMux B)
get_ice_mux s = elim s.udp_mux [ none ↦ Common.err not_initialized | some m ↦ Common.ok m ]

-- An ipv4.Message behind a read: its buffers, how many bytes were read, at most as many as there
-- is room for, and from whom.
pub record Message : Type 0 where
  pub buffers : List (List ℕ)
  pub n : ℕ
  pub addr : Addr

-- What the receiver fills in for WireGuard: the sizes and the endpoints of the packets.
pub record Slots : Type 0 where
  pub sizes : List ℕ
  pub eps : List UdpAddr

-- `sizes[i] = …` and `eps[i] = …`; the assertion that the address is a UDP address stands
-- between the two.
fill : ℕ → ℕ → Addr → Slots → Outcome BindError Slots
fill i size (other text) s = panic
fill i size (udp a) s =
    if ltb i (length s.sizes) && ltb i (length s.eps)
    then ok (record { sizes = set s.sizes i size; eps = set s.eps i a })
    else panic

module _ {B : Type 0} (net : Net B) where
  -- GetConnForURL: the ufrag and the URL of a server are the key of a connection of its own.
  unfoldable pub get_conn_for_url :
      String → String → Addr → UniversalMux B → UniversalMux B × Result Mux.Error ℕ
  unfolding Mux.get_conn
  get_conn_for_url ufrag url addr m =
      let (udp_mux, conn) = Mux.get_conn net (ufrag ++ url) addr m.udp_mux in
      (record m { udp_mux = udp_mux }, conn)

  forward : Packet → Addr → UniversalMux B → Universal UdpAddr × Bool → UniversalMux B
  unfolding Mux.handle_stun_message
  forward p addr m (mapped, true) = record {
    mapped = mapped;
    udp_mux = (Mux.handle_stun_message net p.message addr m.udp_mux).0;
  }
  forward p addr m (mapped, false) = record m { mapped = mapped }

  -- UniversalUDPMuxDefault.HandleSTUNMessage; its caller only logs the error.
  unfoldable pub handle_stun_message : Packet → Addr → UniversalMux B → UniversalMux B
  unfolding forward Mapped.handle_stun_message
  handle_stun_message p (other text) m = m
  handle_stun_message p (udp a) m =
      forward p (udp a) m
        (Mapped.handle_stun_message (net.to_string (udp a)) p.has_xor_mapped p.xor_mapped m.mapped)

  handle_decoded : Option Packet → Addr → UniversalMux B → UniversalMux B
  unfolding handle_stun_message
  handle_decoded none addr m = m
  handle_decoded (some p) addr m = handle_stun_message p addr m

module _ {B : Type 0} (net : Net B) (stun : Stun) where
  -- Whether the packet is kept from WireGuard; the error beside it is dropped by the caller. The
  -- whole buffer is asked, also what an earlier packet left in it, but only `n` bytes are decoded.
  unfoldable pub filter_out_stun_messages :
      List (List ℕ) → ℕ → Addr → UniversalMux B → UniversalMux B × Bool
  unfolding handle_decoded
  filter_out_stun_messages [] n addr m = (m, false)
  filter_out_stun_messages (b ∷ bs) n addr m =
      let rest = filter_out_stun_messages bs n addr m in
      if stun.is_message b then (handle_decoded net (stun.decode (take n b)) addr m, true) else rest

  unfoldable pub receive_message :
      ℕ → Message → Slots → UniversalMux B → Outcome BindError (Slots × UniversalMux B)
  unfolding filter_out_stun_messages fill
  receive_message i msg s m =
      let (m', filtered) = filter_out_stun_messages msg.buffers msg.n msg.addr m in
      fill i (if filtered then 0 else msg.n) msg.addr s >>= (λ s'. ok (s', m'))

  unfoldable pub receive_from :
      ℕ → List Message → Slots → UniversalMux B → Outcome BindError (Slots × UniversalMux B)
  unfolding receive_message
  receive_from i [] s m = ok (s, m)
  receive_from i (msg ∷ msgs) s m =
      receive_message i msg s m >>= (λ r. receive_from (1 + i) msgs r.0 r.1)

  -- The function that createIPv4ReceiverFn returns: `read` are the messages that ReadBatch or
  -- ReadMsgUDP filled, and the number that is returned is how many they are.
  unfoldable pub receive :
      Option (List Message)
      → Slots
      → UniversalMux B
      → Outcome BindError (ℕ × Slots × UniversalMux B)
  unfolding receive_from
  receive none s m = err read_failed
  receive (some msgs) s m = receive_from 0 msgs s m >>= (λ r. ok (length msgs, r.0, r.1))

-- A round of ReadFromConn's loop: the context is done, ReadFrom fails, or it reads a packet.
pub data Round : Type 0 where
  stopped failed : Round
  reads : List ℕ → Addr → Round

module _ {B : Type 0} (net : Net B) (stun : Stun) where
  -- ReadFromConn, and whether it has returned; a packet that cannot be decoded is skipped.
  unfoldable pub read_from_conn : List Round → UniversalMux B → UniversalMux B × Bool
  unfolding handle_decoded
  read_from_conn [] m = (m, false)
  read_from_conn (stopped ∷ rounds) m = (m, true)
  read_from_conn (failed ∷ rounds) m = read_from_conn rounds m
  read_from_conn (reads bytes addr ∷ rounds) m =
      read_from_conn rounds (handle_decoded net (stun.decode bytes) addr m)
