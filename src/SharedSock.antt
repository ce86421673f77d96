-- ===== src/SharedSock.antt =====
-- sharedsock: the raw socket that shares a port with another process, and the filter of its
-- packets.
pub mod StunFilter
pub mod Accepting
pub mod Listening
pub mod Reading
mod Tests
use punch.Common.{
  ℕ, ◌+◌, Bool, true, false, not, ◌&&◌, Option, none, some, List, [], ◌∷◌, ◌++◌, take, drop, length,
  if◌then◌else◌, Result, ok, err,
}
use punch.Bind.Addr.{Ip, UdpAddr, Addr, udp, other, to4, to16}

pub data Error : Type 0 where
  no_router no_socket4 no_mark4 no_mark6 no_instructions no_filter4 no_filter6 : Error
  stopped receive_failed invalid_family decode_failed : Error
  invalid_address no_route serialize_failed send_failed : Error

-- A raw socket, as Listen has set it up: with SO_MARK, and with the filter's instructions.
pub data Sock : Type 0 where
  absent closed : Sock
  opened : Bool → Bool → Sock

-- `reading4` and `reading6` are the two goroutines of `read`, `updating` that of `updateRouter`.
pub record SharedSocket : Type 0 where
  pub port : ℕ
  pub router : Bool
  pub conn4 : Sock
  pub conn6 : Sock
  pub reading4 : Bool
  pub reading6 : Bool
  pub updating : Bool
  pub cancelled : Bool

-- The system's answers while Listen runs.
pub record Host : Type 0 where
  pub has_router : Bool
  pub opens4 : Bool
  pub marks4 : Bool
  pub opens6 : Bool
  pub marks6 : Bool
  pub assembles : Bool
  pub filters4 : Bool
  pub filters6 : Bool

abbrev pub Listens : Type 0
Listens = SharedSocket × Option Error

-- A later step, which an error leaves out.
abbrev pub and_then : Listens → (SharedSocket → Listens) → Listens
and_then (s, some e) next = (s, some e)
and_then (s, none) next = next s

abbrev pub check : Bool → Error → SharedSocket → Listens
check works e s = (s, if works then none else some e)

abbrev pub close_sock : Sock → Sock
close_sock absent = absent
close_sock closed = closed
close_sock (opened _ _) = closed

-- Close cancels the context, which ends the three goroutines.
unfoldable pub close : SharedSocket → SharedSocket
close s = record s {
  cancelled = true;
  conn4 = close_sock s.conn4;
  conn6 = close_sock s.conn6;
  reading4 = false;
  reading6 = false;
  updating = false;
}

-- The filter of a socket; one that is absent has no SetBPF.
abbrev pub filtered : Sock → Sock
filtered (opened marked _) = opened marked true
filtered sock = sock

abbrev pub is_open : Sock → Bool
is_open (opened _ _) = true
is_open _ = false

-- The deferred function of Listen closes what is open where an error is returned.
abbrev pub close_failed : Listens → Listens
close_failed (s, none) = (s, none)
close_failed (s, some e) = (close s, some e)

module _ (h : Host) where
  unfoldable pub open_conn4 : SharedSocket → Listens
  open_conn4 s =
      if h.opens4 then (record s { conn4 = opened false false }, none) else (s, some no_socket4)

  unfoldable pub mark_conn4 : SharedSocket → Listens
  mark_conn4 s =
      if h.marks4 then (record s { conn4 = opened true false }, none) else (s, some no_mark4)

  -- An error of the IPv6 socket is logged only.
  unfoldable pub open_conn6 : SharedSocket → Listens
  open_conn6 s =
      if not h.opens6
      then (s, none)
      else if h.marks6
      then (record s { conn6 = opened true false }, none)
      else (record s { conn6 = opened false false }, some no_mark6)

  unfoldable pub filter_conn4 : SharedSocket → Listens
  filter_conn4 s =
      if h.filters4 then (record s { conn4 = filtered s.conn4 }, none) else (s, some no_filter4)

  unfoldable pub filter_conn6 : SharedSocket → Listens
  filter_conn6 s =
      if not (is_open s.conn6)
      then (s, none)
      else if h.filters6
      then (record s { conn6 = filtered s.conn6 }, none)
      else (s, some no_filter6)

  unfoldable pub start : SharedSocket → Listens
  start s = (record s { reading4 = true; reading6 = is_open s.conn6; updating = true }, none)

  unfoldable pub set_up : SharedSocket → Listens
  unfolding open_conn4 mark_conn4 open_conn6 filter_conn4 filter_conn6 start
  set_up s =
      and_then
        (and_then
          (and_then
            (and_then
              (and_then
                (and_then
                  (and_then (check h.has_router no_router (record s { router = h.has_router }))
                    open_conn4)
                  mark_conn4)
                open_conn6)
              (check h.assembles no_instructions))
            filter_conn4)
          filter_conn6)
        start

  unfoldable pub listen : ℕ → Listens
  unfolding set_up close
  listen port = close_failed (
      set_up (record {
        port = port;
        router = false;
        conn4 = absent;
        conn6 = absent;
        reading4 = false;
        reading6 = false;
        updating = false;
        cancelled = false;
      }))

-- unix.Sockaddr: of IPv4, of IPv6, or of another family.
pub data Sockaddr : Type 0 where
  inet4 inet6 : List ℕ → Sockaddr
  other_family : Sockaddr

-- `rcvdPacket`: `err` is whether the receiver failed.
pub record RcvdPacket : Type 0 where
  pub addr : Sockaddr
  pub buf : List ℕ
  pub failed : Bool

-- What gopacket decodes of a packet: the UDP header's source port and length, and the payload.
pub record Datagram : Type 0 where
  pub src_port : ℕ
  pub udp_length : ℕ
  pub payload : List ℕ

-- DecodeLayers of a packet with an IPv4 header in front, and of one without.
pub record Parser : Type 0 where
  pub parse4 : List ℕ → Option Datagram
  pub parse6 : List ℕ → Option Datagram

-- copy(b, payload)
abbrev pub copy_into : List ℕ → List ℕ → List ℕ
copy_into b payload = take (length b) payload ++ drop (length payload) b

-- What ReadFrom returns, and its buffer afterwards.
pub record Read : Type 0 where
  pub n : ℕ
  pub from : UdpAddr
  pub buffer : List ℕ

abbrev pub decoded : List ℕ → Ip → Option Datagram → Result Error Read
decoded b ip none = err decode_failed
decoded b ip (some d) = ok (record {
  n = d.udp_length;
  from = record { ip = ip; port = d.src_port; zone = [] };
  buffer = copy_into b d.payload;
})

abbrev pub by_family : Parser → List ℕ → List ℕ → Sockaddr → Result Error Read
by_family parser b buf (inet4 a) = decoded b a (parser.parse4 buf)
by_family parser b buf (inet6 a) = decoded b a (parser.parse6 buf)
by_family parser b buf other_family = err invalid_family

-- `none` is the select's other branch: the context is done.
unfoldable pub read_from : Parser → List ℕ → Option RcvdPacket → Result Error Read
read_from parser b none = err stopped
read_from parser b (some p) =
    if p.failed then err receive_failed else by_family parser b p.buf p.addr

-- What WriteTo calls: the router, and gopacket for a UDP packet from one address to another.
pub record Network : Type 0 where
  pub route : Ip → Option Ip
  pub serialize : ℕ → ℕ → Ip → Ip → List ℕ → Option (List ℕ)
  pub sends : Sockaddr → List ℕ → Bool

-- WriteTo's outcome: the packet and the socket's address that were sent to, and what it returns;
-- sending on the IPv6 socket that is not there is a nil dereference.
pub data Written : Type 0 where
  returned : Option (Sockaddr × List ℕ) → Result Error ℕ → Written
  panicked : Written

-- `copy` into the socket's address of 16 bytes; an invalid IP leaves it zero.
abbrev pub six_bytes : Option Ip → Ip
six_bytes (some ip) = ip
six_bytes none = 0 ∷ 0 ∷ 0 ∷ 0 ∷ 0 ∷ 0 ∷ 0 ∷ 0 ∷ 0 ∷ 0 ∷ 0 ∷ 0 ∷ 0 ∷ 0 ∷ 0 ∷ 0 ∷ []

unfoldable pub get_writer_objects : SharedSocket → Ip → Sockaddr × Sock
unfolding to4 to16
get_writer_objects s dest = elim (to4 dest) [
  | none ↦ (inet6 (six_bytes (to16 dest)), s.conn6)
  | some ip ↦ (inet4 ip, s.conn4)
]

-- Sendto on a socket. WriteTo returns 0 bytes, whatever was sent.
abbrev pub send_on : Network → Sockaddr → List ℕ → Sock → Written
send_on net to packet absent = panicked
send_on net to packet closed = returned none (err send_failed)
send_on net to packet (opened _ _) =
    returned (some (to, packet)) (if net.sends to packet then ok 0 else err send_failed)

abbrev pub write_packet : Network → Sockaddr × Sock → Option (List ℕ) → Written
write_packet net (to, sock) none = returned none (err serialize_failed)
write_packet net (to, sock) (some packet) = send_on net to packet sock

unfoldable pub write_to : Network → List ℕ → Addr → SharedSocket → Written
unfolding get_writer_objects
write_to net buf (other text) s = returned none (err invalid_address)
write_to net buf (udp a) s = elim (net.route a.ip) [
  | none ↦ returned none (err no_route)
  | some src ↦
      write_packet net (get_writer_objects s a.ip) (net.serialize s.port a.port src a.ip buf)
]
