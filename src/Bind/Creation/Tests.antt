-- ===== src/Bind/Creation/Tests.antt =====
-- iface/bind: a new mux on 0.0.0.0, on a host with one interface that is up and one that is not.
use punch.Common.{
  ℕ, if◌then◌else◌, ◌≡◌, refl, Bool, true, false, none, some, List, [], ◌∷◌, err, ok,
}
use punch.Bind.Addr.{Ip, UdpAddr, udp, to16}
use punch.Bind.Mux.{Net}
use punch.Bind.Receiver.{UniversalMux, get_ice_mux, not_initialized}
use punch.Bind.Creation.{
  Ice, Interface, create_ipv4_receiver_fn, new_udp_mux_default, new_universal_udp_mux_default,
  get_listen_addresses, at_port, is_unspecified,
}
use punch.Bind.Creation.Listening.{IsIce, IsListening, new_udp_mux_default-IsListening}

abbrev test_ice : Ice Bool
test_ice = record {
  udp4 = false;
  udp6 = true;
  is_ipv4 = λ t. if t then false else true;
  is_ipv6 = λ t. t;
}

test_ice-IsIce : IsIce test_ice
test_ice-IsIce = record { udp4_is_ipv4 = refl; udp4_is_not_ipv6 = refl; udp6_is_ipv6 = refl }

abbrev test_net : Net (List (List ℕ))
test_net = record {
  buffer = record {
    new_buffer = [];
    write = λ b packet. some (packet ∷ b);
    read = λ b size. none;
    close_buffer = λ b. b;
  };
  ip_text = record { marshal = to16; unmarshal = λ text. some text };
  to_string = λ a. "address";
}

abbrev lan : Ip
lan = 192 ∷ 168 ∷ 1 ∷ 2 ∷ []

abbrev local_v6 : Ip
local_v6 = 0xfd ∷ 0 ∷ 0 ∷ 0 ∷ 0 ∷ 0 ∷ 0 ∷ 0 ∷ 0 ∷ 0 ∷ 0 ∷ 0 ∷ 0 ∷ 0 ∷ 0 ∷ 1 ∷ []

abbrev interfaces : List Interface
interfaces =
    record {
      name = "eth0";
      flag_up = true;
      flag_loopback = false;
      addrs = some (some local_v6 ∷ none ∷ some lan ∷ []);
    }
    ∷ record {
      name = "eth1";
      flag_up = false;
      flag_loopback = false;
      addrs = some (some (10 ∷ 0 ∷ 0 ∷ 1 ∷ []) ∷ []);
    }
    ∷ []

abbrev anywhere : UdpAddr
anywhere = at_port 51820 (0 ∷ 0 ∷ 0 ∷ 0 ∷ [])

only_ipv4_that_is_up :
    get_listen_addresses
      (new_universal_udp_mux_default test_ice {B = List (List ℕ)}
        (some interfaces)
        0
        (udp anywhere)).udp_mux
    ≡ udp (at_port 51820 lan) ∷ []
unfolding get_listen_addresses new_universal_udp_mux_default is_unspecified
only_ipv4_that_is_up = refl

not_initialized_at_first :
    get_ice_mux {B = List (List ℕ)} (record { udp_mux = none }) ≡ err not_initialized
unfolding get_ice_mux
not_initialized_at_first = refl

mux_of_receiver :
    (m : UniversalMux (List (List ℕ)))
    → get_ice_mux
        (create_ipv4_receiver_fn test_ice none (udp anywhere) (record { udp_mux = some m }))
      ≡ ok (new_universal_udp_mux_default test_ice none 0 (udp anywhere))
unfolding get_ice_mux create_ipv4_receiver_fn
mux_of_receiver m = refl

new_udp_mux_default-IsListening_example :
    IsListening test_net
      (some interfaces)
      none
      anywhere
      (new_udp_mux_default test_ice (some interfaces) none (udp anywhere))
new_udp_mux_default-IsListening_example =
    new_udp_mux_default-IsListening test_ice test_ice-IsIce test_net (some interfaces) none anywhere
