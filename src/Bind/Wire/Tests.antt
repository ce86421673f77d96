-- ===== src/Bind/Wire/Tests.antt =====
-- The packet format at concrete inputs.
use punch.Common.{ℕ, ◌≤◌, ◌≡◌, refl, some, List, [], ◌∷◌, ◌++◌, arith, ok, err}
use punch.Bind.Addr.{Ip, UdpAddr, to16}
use punch.Bind.Wire.{IpText, holder_size, short_buffer, encode_udp_addr, write_packet, read_packet}
use punch.Bind.Wire.RoundTrip.{IsFaithful, read-write}

-- A text form that is the sixteen bytes themselves.
abbrev bytes_net : IpText
bytes_net = record { marshal = to16; unmarshal = λ text. some text }

bytes_net-IsFaithful : IsFaithful bytes_net
bytes_net-IsFaithful = record { reads_back = λ ip ip' text valid e. cc }

abbrev peer : UdpAddr
peer = record { ip = 10 ∷ 0 ∷ 0 ∷ 7 ∷ []; port = 51820; zone = [] }

abbrev peer_ip : Ip
peer_ip = 0 ∷ 0 ∷ 0 ∷ 0 ∷ 0 ∷ 0 ∷ 0 ∷ 0 ∷ 0 ∷ 0 ∷ 255 ∷ 255 ∷ 10 ∷ 0 ∷ 0 ∷ 7 ∷ []

abbrev packet : List ℕ
packet = 2 ∷ 0 ∷ 8 ∷ 9 ∷ 20 ∷ 0 ∷ 16 ∷ 0 ∷ (peer_ip ++ 108 ∷ 202 ∷ [])

write_packet-peer : write_packet bytes_net (8 ∷ 9 ∷ []) peer ≡ ok packet
unfolding write_packet encode_udp_addr to16
write_packet-peer = refl

read-write_example :
    (read_packet bytes_net (packet ++ 77 ∷ 78 ∷ []) 26 1500
      ≡ ok (8 ∷ 9 ∷ [], record peer { ip = peer_ip }))
    × (26 ≤ holder_size)
unfolding to16
read-write_example =
    read-write bytes_net bytes_net-IsFaithful (8 ∷ 9 ∷ []) peer peer_ip packet (77 ∷ 78 ∷ []) 1500
      refl (omega arith) (omega arith) write_packet-peer

-- The reader's buffer is too small.
no_room : read_packet bytes_net packet 26 1 ≡ err short_buffer
unfolding read_packet
no_room = refl
