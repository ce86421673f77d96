-- ===== src/Bind/Wire/RoundTrip.antt =====
-- iface/bind/udp_muxed_conn.go: what `writePacket` queues, `ReadFrom` reads.
use punch.Common.{
  ℕ, ◌+◌, ◌-◌, ◌*◌, ◌/◌, ◌%◌, ◌≤◌, ◌<◌, ◌≡◌, refl, ap, ◌∙◌, inl, inr, Option-cases, false, some,
  List, ◌++◌, arith, ltb, length, length-append, take-length-append, drop-length-append,
  Result-cases, ok,
}
use mathlib.Core.List
use punch.Bind.Addr.{Ip, UdpAddr, to16}
use punch.Bind.Wire.{
  IpText, u16, holder_size, put_uint16, encode_udp_addr, decode_udp_addr, write_packet, read_packet,
}

-- The text of an address reads back as the address in its 16-byte form.
pub record IsFaithful (net : IpText) : Type 0 where
  pub reads_back :
      (ip ip' : Ip) (text : List ℕ)
      → to16 ip ≡ some ip'
      → net.marshal ip ≡ some text
      → net.unmarshal text ≡ some ip'

-- The two bytes of a uint16 make it up again.
two_bytes : (n : ℕ) → n < 65536 → u16 n % 256 + 256 * (u16 n / 256) ≡ n
two_bytes n h = omega arith

ltb-false : (a b : ℕ) → b ≤ a → ltb a b ≡ false
ltb-false a b h = ground arith

-- What the encoder wrote, given that it wrote something.
pub record Encoded (net : IpText) (addr : UdpAddr) (room : ℕ) (encoded : List ℕ) : Type 0 where
  pub text : List ℕ
  pub marshalled : net.marshal addr.ip ≡ some text
  pub fits : 2 + length text + 2 + length addr.zone ≤ room
  pub bytes : encoded ≡ put_uint16 (length text) (text ++ put_uint16 addr.port addr.zone)

encode-Encoded :
    (net : IpText) (addr : UdpAddr) (room : ℕ) (encoded : List ℕ)
    → encode_udp_addr net addr room ≡ ok encoded
    → Encoded net addr room encoded
unfolding encode_udp_addr
encode-Encoded net addr room encoded e = elim (Option-cases (net.marshal addr.ip)) [
  | inl bad ↦ ground arith
  | inr (text, good) ↦ record {
    text = text;
    marshalled = good;
    fits = ground arith;
    bytes = ground arith;
  }
]

length-Encoded :
    (net : IpText) (addr : UdpAddr) (room : ℕ) (encoded : List ℕ)
    (r : Encoded net addr room encoded)
    → length encoded ≡ length r.text + 4 + length addr.zone
length-Encoded net addr room encoded r =
    rw r.bytes (omega (arith, length-append r.text (put_uint16 addr.port addr.zone)))

-- Decoding the parts of an address, with anything behind it.
decode_parts :
    (net : IpText) (text zone rest : List ℕ) (port len : ℕ) (ip : Ip)
    → length text < 65536
    → port < 65536
    → len ≡ length text + 4 + length zone
    → net.unmarshal text ≡ some ip
    → decode_udp_addr net (put_uint16 (length text) (text ++ put_uint16 port (zone ++ rest))) len
      ≡ ok (record { ip = ip; port = port; zone = zone })
unfolding decode_udp_addr
decode_parts net text zone rest port len ip small small_port e reads =
    let room : len - (length text + 4) ≡ length zone = omega arith in
    rw (two_bytes (length text) small, ltb-false len (length text + 2) (omega arith))
      (rw (take-length-append text (put_uint16 port (zone ++ rest)), reads)
        (rw (drop-length-append text (put_uint16 port (zone ++ rest))) (
          rw (two_bytes port small_port, ltb-false len (length text + 4) (omega arith))
            (rw (room, take-length-append zone rest) refl))))

-- Reading the parts of a packet, given how its address decodes.
read_parts :
    (net : IpText) (bytes rest : List ℕ) (addr_len total room : ℕ) (addr : UdpAddr)
    → length bytes < 65536
    → addr_len < 65536
    → length bytes ≤ total
    → length bytes ≤ room
    → addr_len ≤ length rest
    → decode_udp_addr net rest addr_len ≡ ok addr
    → read_packet net (put_uint16 (length bytes) (bytes ++ put_uint16 addr_len rest)) total room
      ≡ ok (bytes, addr)
unfolding read_packet
read_parts net bytes rest addr_len total room addr small small_addr in_total in_room there decodes =
    rw (two_bytes (length bytes) small, ltb-false total (length bytes) in_total)
      (rw
        (ltb-false room (length bytes) in_room, drop-length-append bytes (put_uint16 addr_len rest))
        (rw (two_bytes addr_len small_addr, ltb-false (length rest) addr_len there)
          (rw decodes (rw (take-length-append bytes (put_uint16 addr_len rest))))))

-- What `writePacket` queued, given that it queued something.
record Written (net : IpText) (bytes : List ℕ) (addr : UdpAddr) (pkt : List ℕ) : Type 0 where
  size : length bytes + 512 ≤ holder_size
  encoded : List ℕ
  encodes : encode_udp_addr net addr (holder_size - (2 + length bytes + 2)) ≡ ok encoded
  packed : pkt ≡ put_uint16 (length bytes) (bytes ++ put_uint16 (length encoded) encoded)

write-Written :
    (net : IpText) (bytes : List ℕ) (addr : UdpAddr) (pkt : List ℕ)
    → write_packet net bytes addr ≡ ok pkt
    → Written net bytes addr pkt
unfolding write_packet
write-Written net bytes addr pkt e =
    elim (Result-cases (encode_udp_addr net addr (holder_size - (2 + length bytes + 2)))) [
      | inl (x, bad) ↦ ground arith
      | inr (encoded, good) ↦ record {
        size = ground arith;
        encoded = encoded;
        encodes = good;
        packed = ground arith;
      }
    ]

module _ (net : IpText) (faithful : IsFaithful net) where
  -- A packet that was queued for an address in one of Go's two forms is read back whole, the
  -- address in its 16-byte form, whatever older bytes the pooled buffer holds behind it; and it
  -- fits the pooled buffer. The reader's buffer must have room for the bytes.
  pub read-write :
      (bytes : List ℕ) (addr : UdpAddr) (ip' : Ip) (pkt stale : List ℕ) (room : ℕ)
      → to16 addr.ip ≡ some ip'
      → addr.port < 65536
      → length bytes ≤ room
      → write_packet net bytes addr ≡ ok pkt
      → (read_packet net (pkt ++ stale) (length pkt) room ≡ ok (bytes, record addr { ip = ip' }))
        × (length pkt ≤ holder_size)
  read-write bytes addr ip' pkt stale room valid port fits e =
      let w = write-Written net bytes addr pkt e in
      let r = encode-Encoded net addr _ w.encoded w.encodes in
      let enc = length-Encoded net addr _ w.encoded r in
      let len : length pkt ≡ length bytes + 4 + length w.encoded =
        rw w.packed
          (omega (arith, length-append bytes (put_uint16 (length w.encoded) w.encoded))) in
      let reads = faithful.reads_back addr.ip ip' r.text valid r.marshalled in
      let shape_enc : w.encoded ++ stale
          ≡ put_uint16 (length r.text) (r.text ++ put_uint16 addr.port (addr.zone ++ stale)) =
        ap (λ (x : List ℕ). x ++ stale) r.bytes
        ∙ ap (put_uint16 (length r.text))
            (List.append_assoc r.text (put_uint16 addr.port addr.zone) stale) in
      let decodes : decode_udp_addr net (w.encoded ++ stale) (length w.encoded)
          ≡ ok (record addr { ip = ip' }) =
        rw shape_enc (
          decode_parts net r.text addr.zone stale addr.port (length w.encoded) ip'
            (omega (arith, r.fits)) port enc reads) in
      let shape : pkt ++ stale
          ≡ put_uint16 (length bytes)
              (bytes ++ put_uint16 (length w.encoded) (w.encoded ++ stale)) =
        ap (λ (x : List ℕ). x ++ stale) w.packed
        ∙ ap (put_uint16 (length bytes))
            (List.append_assoc bytes (put_uint16 (length w.encoded) w.encoded) stale) in
      (
        rw shape (
            read_parts net bytes (w.encoded ++ stale) (length w.encoded) (length pkt) room _
              (omega (arith, w.size)) (omega (arith, enc, r.fits)) (omega (arith, len)) fits
              (omega (arith, length-append w.encoded stale)) decodes),
        omega (arith, len, enc, r.fits, w.size),
      )
