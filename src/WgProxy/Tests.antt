-- ===== src/WgProxy/Tests.antt =====
-- The relay proxy at concrete inputs.
use punch.Common.{
  ℕ, ◌≡◌, refl, Bool, true, false, some, List, [], ◌∷◌, arith, ◌==◌, nat_eq, ◌||◌, ok,
}
use punch.Common.Map.{lookup}
use punch.Ebpf.{Kernel, initial, load_wg_proxy}
use punch.Ebpf.Features.{no_features, initial-Holds}
use punch.WgProxy.{
  WgEbpfProxy, Host, Event, Endpoint, add, from_turn, turn_ends, from_wg, to_turn, search_port,
  next_free_port, store_turn_conn, add_turn_conn, listen, step, run, route, send_pkg,
  search_free_port, new_factory, get_proxy, user_space_proxy,
}
use punch.WgProxy.Ports.{IsSound, Allotted, next_free_port-Allotted}
use punch.WgProxy.Routing.{delivers}
use punch.WgProxy.Startup.{Started, listen-Started}

-- The last port was given out, and port 1 is in use.
abbrev wrapped : WgEbpfProxy ℕ
wrapped = record {
  ebpf_manager = initial;
  last_used_port = 65535;
  local_wg_listen_port = 51820;
  turn_conn_store = (1, 7) ∷ [];
  raw_conn = true;
  conn = true;
}

wrapped-IsSound : IsSound wrapped
unfolding lookup
wrapped-IsSound = record {
  last_in_range = omega arith;
  not_overfull = omega arith;
  ports_in_range = λ q stored. ground arith;
}

wrapped_next : (next_free_port wrapped).1 ≡ ok 2
unfolding next_free_port search_port lookup
wrapped_next = refl

next_free_port-Allotted_example : Allotted wrapped (next_free_port wrapped)
next_free_port-Allotted_example = next_free_port-Allotted wrapped wrapped-IsSound

abbrev second : Endpoint
second = record { port = 2 }

wrapped_endpoint : (add_turn_conn 9 wrapped).1 ≡ ok second
unfolding add_turn_conn store_turn_conn next_free_port search_port lookup
wrapped_endpoint = refl

abbrev events : List (Event ℕ)
events = add 4 ∷ turn_ends 1 ∷ from_turn 2 (5 ∷ []) ∷ add 5 ∷ []

delivers_example :
    ((step (from_wg 2 (8 ∷ [])) (run events (add_turn_conn 9 wrapped).0)).1 ≡ to_turn 9 (8 ∷ []))
    × ((sent : List ℕ)
        → route
            (send_pkg (run events (add_turn_conn 9 wrapped).0) sent 2).src_port
            (run events (add_turn_conn 9 wrapped).0)
          ≡ some 9)
delivers_example =
    delivers 9 wrapped second events (8 ∷ []) wrapped-IsSound wrapped_endpoint (omega arith)

abbrev two_ports : ℕ → Bool
two_ports port = port == 3130 || port == 3200

two_ports_found : search_free_port two_ports ≡ ok 3130
unfolding search_free_port
two_ports_found = refl

abbrev healthy : Kernel
healthy = record {
  memlock_ok = true;
  interface_ok = true;
  load_ok = true;
  attach_ok = true;
  put_features_ok = true;
  put_proxy_port_ok = true;
  put_wg_port_ok = true;
  put_dns_ip_ok = true;
  put_dns_port_ok = true;
  close_link_ok = true;
}

-- All goes well but the UDP socket.
abbrev no_udp : Host
no_udp = record {
  can_bind = two_ports;
  socket_ok = λ _. true;
  kernel = healthy;
  listen_udp_ok = false;
  close_conn_ok = true;
  close_raw_conn_ok = true;
}

abbrev fresh : WgEbpfProxy ℕ
fresh = record {
  ebpf_manager = initial;
  last_used_port = 0;
  local_wg_listen_port = 51820;
  turn_conn_store = [];
  raw_conn = false;
  conn = false;
}

listen-Started_example : Started no_udp no_features fresh (listen no_udp fresh)
listen-Started_example = listen-Started no_udp no_features fresh initial-Holds

-- Then the factory hands out proxies in user space.
falls_back : get_proxy {C = ℕ} (new_factory no_udp initial false 51820) ≡ user_space_proxy 51820
unfolding get_proxy new_factory search_free_port load_wg_proxy
falls_back = refl
