-- ===== src/Bind/Receiver/Tests.antt =====
-- iface/bind/bind.go: a batch of a STUN server's answer and a WireGuard packet.
use punch.Common.{
  ℕ, ◌≡◌, ◌++◌, Bool, false, refl, true, some, none, ◌==◌, nat_eq, List, [], ◌∷◌, map, drop, arith,
}
use punch.Common.Panics.{ok}
use punch.Common.Map.{lookup, insert}
use punch.Bind.Addr.{UdpAddr, udp, to16, is_ipv6}
use punch.Bind.Mux.{Net}
use punch.Bind.Receiver.{get_conn_for_url, Stun, UniversalMux, Message, Slots, receive}
use punch.Bind.Receiver.Sorting.{size_for_wireguard, stun_messages, handle_all, receive-sorted}

abbrev test_net : Net (List (List ℕ))
test_net = record {
  buffer = record {
    new_buffer = [];
    write = λ b packet. some (packet ∷ b);
    read = λ b size. none;
    close_buffer = λ b. b;
  };
  ip_text = record { marshal = to16; unmarshal = λ text. some text };
  to_string = λ a. "server";
}

abbrev server : UdpAddr
server = record { ip = 10 ∷ 0 ∷ 0 ∷ 7 ∷ []; port = 3478; zone = [] }

-- A message begins with 1 and is followed by an attribute.
abbrev is_stun : List ℕ → Bool
is_stun [] = false
is_stun (b ∷ bytes) = b == 1

abbrev test_stun : Stun
test_stun = record {
  is_message = is_stun;
  decode = λ raw. some (record {
    message = record { raw = raw; username = none };
    has_xor_mapped = true;
    xor_mapped = some server;
  });
}

abbrev asked : UniversalMux (List (List ℕ))
asked = record {
  mapped = record {
    heap = record { addr = none; received = false; expires_at = 25 } ∷ [];
    xor_mapped_map = ("server", 0) ∷ [];
    cache_ttl = 25;
  };
  udp_mux = record {
    heap = [];
    conns_ipv4 = [];
    conns_ipv6 = [];
    address_map = [];
    closed = false;
    local_addr = udp server;
    local_addrs_for_unspecified = [];
  };
}

abbrev from_server : List ℕ → Message
from_server bytes = record { buffers = bytes ∷ []; n = 2; addr = udp server }

abbrev batch : List Message
batch = from_server (1 ∷ 32 ∷ 9 ∷ []) ∷ from_server (4 ∷ 0 ∷ []) ∷ []

abbrev slots : Slots
slots = record { sizes = 5 ∷ 5 ∷ 5 ∷ []; eps = server ∷ server ∷ server ∷ [] }

answer_is_taken_out :
    receive test_net test_stun (some batch) slots asked
    ≡ ok (
      2,
      record slots { sizes = 0 ∷ 2 ∷ 5 ∷ [] },
      record asked {
        mapped = record asked.mapped {
          heap = record { addr = some server; received = true; expires_at = 25 } ∷ [];
        };
      },
    )
unfolding receive lookup
answer_is_taken_out = refl

receive-sorted_example :
    receive test_net test_stun (some batch) slots asked
    ≡ ok (
      2,
      record {
        sizes = map (size_for_wireguard test_stun) batch ++ drop 2 slots.sizes;
        eps = server ∷ server ∷ drop 2 slots.eps;
      },
      handle_all test_net (stun_messages test_stun batch) asked,
    )
receive-sorted_example =
    receive-sorted test_net test_stun batch (server ∷ server ∷ []) slots asked (refl, (refl, tt))
      (omega arith) (omega arith)

conn_of_server :
    (get_conn_for_url test_net "u" "stun:one" (udp server) asked).0.udp_mux.conns_ipv4
    ≡ ("ustun:one", 0) ∷ []
unfolding get_conn_for_url lookup insert is_ipv6
conn_of_server = refl
