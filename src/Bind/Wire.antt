-- ===== src/Bind/Wire.antt =====
-- iface/bind/udp_muxed_conn.go: the format in which a muxed connection keeps a packet and the
-- address that it came from, | data len | data | addr len | addr |, in one pooled buffer.
pub mod RoundTrip
mod Tests
use punch.Common.{
  ℕ, zero, suc, ◌+◌, ◌-◌, ◌*◌, ◌/◌, ◌%◌, ◌^◌, Bool, true, false, ◌||◌, Option, none, some, List, [],
  ◌∷◌, ◌++◌, ltb, length, take, drop, if◌then◌else◌, Result, ok, err, ◌>>=◌,
}
use punch.Bind.Addr.{Ip, UdpAddr}

-- net.IP's MarshalText and UnmarshalText; `none` is an error.
pub record IpText : Type 0 where
  pub marshal : Ip → Option (List ℕ)
  pub unmarshal : List ℕ → Option Ip

pub data WireError : Type 0 where
  short_buffer marshal_text unmarshal_text : WireError
  -- a slice or an index out of range
  panic : WireError

abbrev pub receive_mtu : ℕ
receive_mtu = 8192

abbrev pub max_addr_size : ℕ
max_addr_size = 512

-- The size of the buffers in the pool.
abbrev pub holder_size : ℕ
holder_size = receive_mtu + max_addr_size

abbrev pub u16 : ℕ → ℕ
u16 n = n % 65536

-- binary.LittleEndian.PutUint16 of `uint16(n)`.
abbrev pub put_uint16 : ℕ → List ℕ → List ℕ
put_uint16 n rest = u16 n % 256 ∷ u16 n / 256 ∷ rest

-- binary.LittleEndian.Uint16 of the first two bytes.
abbrev pub uint16 : List ℕ → Option ℕ
uint16 (a ∷ b ∷ _) = some (a + 256 * b)
uint16 _ = none

-- The bytes written to a buffer with `room` bytes left.
unfoldable pub encode_udp_addr : IpText → UdpAddr → ℕ → Result WireError (List ℕ)
encode_udp_addr net addr room = elim (net.marshal addr.ip) [
  | none ↦ err marshal_text
  | some ip_data ↦
      let total = 2 + length ip_data + 2 + length addr.zone in
      if ltb room total
      then err short_buffer
      else ok (put_uint16 (length ip_data) (ip_data ++ put_uint16 addr.port addr.zone))
]

-- What `writePacket` hands to the connection's queue: all of it is written side by side, so
-- nothing that the pooled buffer held before stands in between.
unfoldable pub write_packet : IpText → List ℕ → UdpAddr → Result WireError (List ℕ)
write_packet net bytes addr =
    if ltb holder_size (length bytes + max_addr_size) then err short_buffer else do
      encoded ← encode_udp_addr net addr (holder_size - (2 + length bytes + 2))
      ok (put_uint16 (length bytes) (bytes ++ put_uint16 (length encoded) encoded))

abbrev or_error : {A : Type 0} → WireError → Option A → Result WireError A
or_error e none = err e
or_error e (some a) = ok a

-- `decodeUDPAddr` of a slice of `len` bytes; `buf` is the slice up to its capacity, which Go's
-- reslicing may reach, `buf[:2]` for example.
unfoldable pub decode_udp_addr : IpText → List ℕ → ℕ → Result WireError UdpAddr
decode_udp_addr net buf len = do
  ip_len ← or_error panic (uint16 buf)
  if ltb len (ip_len + 2) then err short_buffer else do
    ip ← or_error unmarshal_text (net.unmarshal (take ip_len (drop 2 buf)))
    let at_port = drop ip_len (drop 2 buf)
    port ← or_error panic (uint16 at_port)
    if ltb len (ip_len + 4)
        then err panic
        else ok (record { ip = ip; port = port; zone = take (len - (ip_len + 4)) (drop 2 at_port) })

-- `ReadFrom` into `room` bytes, once the queue has put a packet of `total` bytes into the
-- pooled buffer: `buf` is that buffer, with its older bytes behind the packet.
unfoldable pub read_packet : IpText → List ℕ → ℕ → ℕ → Result WireError (List ℕ × UdpAddr)
unfolding decode_udp_addr
read_packet net buf total room = do
  data_len ← or_error panic (uint16 buf)
  if ltb total data_len || ltb room data_len then err short_buffer else do
    let bytes = take data_len (drop 2 buf)
    let at_addr = drop data_len (drop 2 buf)
    addr_len ← or_error panic (uint16 at_addr)
    if ltb (length (drop 2 at_addr)) addr_len
        then err panic
        else do addr ← decode_udp_addr net (drop 2 at_addr) addr_len; ok (bytes, addr)
