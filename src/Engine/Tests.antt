-- ===== src/Engine/Tests.antt =====
-- The engine at concrete inputs: one peer listed by two polls, the second time at a new port.
use punch.Common.{ℕ, true, false, ◌≡◌, none, List, [], ◌∷◌, ◌==◌, nat_eq, arith}
use punch.Common.Map.{lookup}
use punch.Signal.Exchange.{PeerInfo}
use punch.Engine.{start_port, Engine, add_new_peers}
use punch.Engine.Polls.{InHeap, conn_of, latest, times_listed, workers_of, add_new_peers-latest}
use punch.Engine.Lifecycle.{Answers, Running, Begun, absent, start, start-Begun}
use punch.Engine.Connect.{Attempt, run}
use punch.Engine.Connect.Runs.{IsRun, run-IsRun}
use punch.WgProxy.{Host}
use punch.Ebpf.{Kernel, initial}
use punch.Ebpf.Features.{no_features, initial-Holds}

abbrev peer : PeerInfo
peer = record {
  client_id = "b";
  ip = "1.2.3.4";
  port = 5;
  wg_pub_key = "key b";
  allowed_ip = "10.0.0.2";
  last_keep_alive_at = "";
}

abbrev listed : List PeerInfo
listed = peer ∷ record peer { port = 6 } ∷ []

abbrev idle : Engine
idle = record { heap = []; peer_conns = []; workers = []; wg_port = 51822 }

idle-InHeap : InHeap idle
unfolding InHeap lookup
idle-InHeap key id h = absurd (ground (arith, h))

add_new_peers-latest_example :
    (conn_of "key b" (add_new_peers listed idle) ≡ latest 51822 "key b" listed none)
    × (workers_of "key b" (add_new_peers listed idle).workers ≡ 2)
    × InHeap (add_new_peers listed idle)
unfolding conn_of workers_of times_listed lookup
add_new_peers-latest_example = add_new_peers-latest listed idle "key b" idle-InHeap

abbrev healthy : Kernel
healthy = record {
  memlock_ok = true;
  interface_ok = true;
  load_ok = true;
  attach_ok = true;
  put_features_ok = true;
  put_proxy_port_ok = true;
  put_wg_port_ok = true;
  put_dns_ip_ok = true;
  put_dns_port_ok = true;
  close_link_ok = true;
}

abbrev host : Host
host = record {
  can_bind = λ x. x == 3130;
  socket_ok = λ _. true;
  kernel = healthy;
  listen_udp_ok = true;
  close_conn_ok = true;
  close_raw_conn_ok = true;
}

abbrev cannot_up : Answers
cannot_up = record {
  new_iface_ok = true;
  is_userspace_bind = false;
  create_ok = true;
  up_ok = false;
  close_ok = true;
}

abbrev not_begun : Running ℕ
not_begun = record { wg_interface = absent; wg_proxy_factory = none; polling = false }

start-Begun_example :
    Begun host no_features cannot_up not_begun (start host initial cannot_up 51822 not_begun)
start-Begun_example = start-Begun host no_features initial cannot_up 51822 not_begun initial-Holds

abbrev refused : Attempt
refused = record {
  stopped = false;
  can_listen = λ x. x == 51821;
  registers_ok = false;
  starts_ok = true;
  stops_ok = true;
}

abbrev attempts : List Attempt
attempts =
    record refused { registers_ok = true; starts_ok = false }
    ∷ record refused { registers_ok = true }
    ∷ []

run-IsRun_example : IsRun 51820 (refused ∷ attempts) (run true 51820 refused attempts)
run-IsRun_example = run-IsRun 51820 true refused attempts (unfold start_port in omega arith)
