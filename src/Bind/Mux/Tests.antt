-- ===== src/Bind/Mux/Tests.antt =====
-- The mux at concrete inputs: a buffer is the list of its packets, and addresses are told apart
-- by their ports.
use punch.Common.{
  ℕ, String, ◌≡◌, refl, true, false, none, some, List, [], ◌∷◌, ◌++◌, arith, get_elem?, ◌==◌,
  string_eq, if◌then◌else◌,
}
use punch.Common.Map.{lookup, insert}
use punch.Bind.Addr.{Addr, UdpAddr, udp, other, to16, is_ipv6}
use punch.Bind.Mux.{
  Net, Mux, MuxedConn, PacketBuffer, Op, StunMessage, get, write, remove, stun, closes, get_conn,
  write_to, find_conn, run, update_conn, contains_string, remove_conn_by_ufrag, handle_stun_message,
  stored_conns, by_username, queue_packet, before_colon, add_address, addresses_of, destinations,
  key_of,
}
use punch.Bind.Mux.Heap.{lists}
use punch.Bind.Mux.Lookups.{Handed, get_conn-Handed}
use punch.Bind.Mux.Addresses.{member, registered_at, write_to-registers}
use punch.Bind.Mux.Unregistered.{remove_unregisters_others}
use punch.Bind.Mux.Dispatch.{WithNamed, count, times, handle_stun_message-delivers}
use punch.Bind.Mux.Heap.{apply_to}
use punch.Bind.Mux.Links.{IsLinked}
use punch.Bind.Mux.Invariant.{run-IsLinked}

abbrev queues : PacketBuffer (List (List ℕ))
queues = record {
  new_buffer = [];
  write = λ b packet. some (b ++ packet ∷ []);
  read = λ b size. elim b [ [] ↦ none | packet ∷ rest ↦ some (packet, rest) ];
  close_buffer = λ b. b;
}

abbrev texts : Addr → String
texts (other text) = text
texts (udp a) = elim a.port [ ℕ.zero ↦ "local" | ℕ.suc _ ↦ "peer" ]

abbrev test_net : Net (List (List ℕ))
test_net = record {
  buffer = queues;
  ip_text = record { marshal = to16; unmarshal = λ text. some text };
  to_string = texts;
}

abbrev local : Addr
local = udp (record { ip = 10 ∷ 0 ∷ 0 ∷ 1 ∷ []; port = 0; zone = [] })

abbrev peer : UdpAddr
peer = record { ip = 10 ∷ 0 ∷ 0 ∷ 7 ∷ []; port = 51820; zone = [] }

abbrev empty : Mux (List (List ℕ))
empty = record {
  heap = [];
  conns_ipv4 = [];
  conns_ipv6 = [];
  address_map = [];
  closed = false;
  local_addr = local;
  local_addrs_for_unspecified = [];
}

-- The host candidate `u` and the server-reflexive one `us` of a peer share the socket; each has
-- written to the peer's address.
abbrev conn_of : String → MuxedConn (List (List ℕ))
conn_of key = record { key = key; addresses = "peer" ∷ []; buf = []; closed = false }

abbrev shared : Mux (List (List ℕ))
shared = record empty {
  heap = conn_of "u" ∷ conn_of "us" ∷ [];
  conns_ipv4 = ("u", 0) ∷ ("us", 1) ∷ [];
  address_map = ("peer", 0 ∷ 1 ∷ []) ∷ [];
}

reached :
    run test_net
      (get "u" local ∷ get "us" local ∷ write 0 [] (udp peer) ∷ write 1 [] (udp peer) ∷ [])
      empty
    ≡ shared
unfolding run update_conn lookup insert is_ipv6 contains_string add_address
reached = refl

get_conn-Handed_example : Handed test_net "u" local empty (get_conn test_net "u" local empty)
get_conn-Handed_example = get_conn-Handed test_net "u" local empty

abbrev opened : Mux (List (List ℕ))
opened = record empty {
  heap = record (conn_of "u") { addresses = [] } ∷ [];
  conns_ipv4 = ("u", 0) ∷ [];
}

write_to-registers_example :
    let m' = (write_to test_net 0 (1 ∷ []) (udp peer) opened).0 in
    ((a : String) → lookup a m'.address_map ≡ (if "peer" == a then some (0 ∷ []) else lookup a []))
    × ((again : List ℕ) → (write_to test_net 0 again (udp peer) m').0 ≡ m')
unfolding contains_string lookup
write_to-registers_example =
    write_to-registers test_net 0 (record (conn_of "u") { addresses = [] }) (1 ∷ []) (udp peer)
      opened refl refl refl refl

-- The other connection writes again, and is looked up anew.
abbrev later : List Op
later = write 1 (3 ∷ []) (udp peer) ∷ get "x" (udp peer) ∷ write 1 (4 ∷ []) (udp peer) ∷ []

remove_unregisters_others_example :
    let m' = remove_conn_by_ufrag "u" shared in
    (lookup "peer" m'.address_map ≡ none)
    × (lists "peer" (run test_net later m').heap 1 ≡ true)
    × (member 1 (registered_at "peer" (run test_net later m')) ≡ false)
unfolding lists contains_string lookup addresses_of
remove_unregisters_others_example =
    remove_unregisters_others test_net "peer" 1 "u" later shared refl refl

abbrev hello : StunMessage
hello = record { raw = 7 ∷ []; username = some "us:x" }

handle_stun_message-delivers_example :
    let m' = (handle_stun_message test_net hello (udp peer) shared).0 in
    (ids : List ℕ) × WithNamed shared.heap
      (by_username (some "us:x") (is_ipv6 (udp peer)) shared)
      (stored_conns (lookup "peer" shared.address_map))
      ids
    × ((j : ℕ)
        → get_elem? m'.heap j
          ≡ apply_to
              (times (count j ids) (queue_packet test_net (7 ∷ []) peer))
              (get_elem? shared.heap j))
    × (m' ≡ record shared { heap = m'.heap })
handle_stun_message-delivers_example = handle_stun_message-delivers test_net hello peer shared

-- Both connections get the message; the one that it names is registered already.
hello_reaches_both : destinations hello "peer" false shared ≡ 0 ∷ 1 ∷ []
unfolding destinations before_colon find_conn lookup key_of
hello_reaches_both = refl

empty-IsLinked : IsLinked empty
unfolding find_conn lookup
empty-IsLinked = record {
  keyed = λ u v6 id h. ground arith;
  registered = λ a ids id h k. cc;
  emptied = λ c u v6. cc;
}

abbrev script : List Op
script =
    get "u" local
    ∷ write 0 (1 ∷ []) (udp peer)
    ∷ stun (record { raw = 7 ∷ []; username = some "u:v" }) (udp peer)
    ∷ remove "u"
    ∷ closes
    ∷ []

run-IsLinked_example : IsLinked (run test_net script empty)
run-IsLinked_example = run-IsLinked test_net script empty empty-IsLinked
