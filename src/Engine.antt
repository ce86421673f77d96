-- ===== src/Engine.antt =====
-- client/internal/engine.go and connect.go: the engine's connections, one poll of the server
-- after another, and the port that WireGuard listens on.
pub mod Polls
pub mod Port
pub mod Connect
pub mod Lifecycle
mod Tests
use punch.Common.{
  ℕ, zero, suc, String, ◌+◌, ◌-◌, Bool, true, false, Option, none, some, List, [], ◌∷◌, ◌++◌, ◌==◌,
  nat_eq, string_eq, length, get_elem?, if◌then◌else◌, Result, ok, err,
}
use punch.Common.Map.{Map, lookup, insert}
use punch.Signal.Exchange.{PeerInfo}
use punch.WgProxy.{first_port}
use punch.Config.{default_wg_port}

pub record OfferAnswer : Type 0 where
  pub wg_listen_port : ℕ
  pub wg_addr : String

-- peer.Conn, as far as the engine sets it: `allowed_ip` is followed by "/32".
pub record Conn : Type 0 where
  pub key : String
  pub allowed_ip : String
  pub local_wg_port : ℕ
  pub remote_answer : OfferAnswer

-- A `*peer.Conn` is an index of `heap`. `workers` are the goroutines of `connWorker`, with the
-- connection and the peer's key that each was started with.
pub record Engine : Type 0 where
  pub heap : List Conn
  pub peer_conns : Map String ℕ
  pub workers : List (ℕ × String)
  pub wg_port : ℕ

-- createPeerConn and OnRemoteAnswer; neither can fail.
pub create_peer_conn : ℕ → PeerInfo → Conn
create_peer_conn wg_port p = record {
  key = p.wg_pub_key;
  allowed_ip = p.allowed_ip;
  local_wg_port = wg_port;
  remote_answer = record { wg_listen_port = p.port; wg_addr = p.ip };
}

pub add_new_peer : PeerInfo → Engine → Engine
unfolding create_peer_conn
add_new_peer p e =
    let id = length e.heap in
    record e {
      heap = e.heap ++ create_peer_conn e.wg_port p ∷ [];
      peer_conns = insert p.wg_pub_key id e.peer_conns;
      workers = e.workers ++ (id, p.wg_pub_key) ∷ [];
    }

unfoldable pub add_new_peers : List PeerInfo → Engine → Engine
unfolding add_new_peer
add_new_peers [] e = e
add_new_peers (p ∷ ps) e = add_new_peers ps (add_new_peer p e)

-- One round of `receiveManagementEvents`: an error of GetRemotePeers is logged, with no peers.
pub receive_peers : {E : Type 0} → Result E (List PeerInfo) → Engine → Engine
unfolding add_new_peers
receive_peers (err _) e = e
receive_peers (ok ps) e = add_new_peers ps e

pub peer_exists : String → Engine → Bool
peer_exists key e = elim (lookup key e.peer_conns) [ none ↦ false | some _ ↦ true ]

-- How `Conn.Open` ends: it blocks until one of these.
pub data OpenEnd : Type 0 where
  update_failed closed disconnected : OpenEnd

-- One round of `connWorker`: whether it goes on. `opened` is how Open ends, if it is called.
pub conn_worker : Bool → String → OpenEnd → Engine → Bool
unfolding peer_exists
conn_worker ctx_done key opened e =
    if ctx_done
    then false
    else if peer_exists key e
    then elim opened [ closed ↦ false | _ ↦ true ]
    else false

pub data PortError : Type 0 where
  no_free_ports : PortError

unfoldable pub start_port : ℕ → ℕ
start_port start = if start == 0 then default_wg_port else start

-- `for x := start; x <= 65535; x++`: the rounds are the ports from the start to 65535.
unfoldable pub free_port : (ℕ → Bool) → ℕ → Result PortError ℕ
unfolding start_port
free_port can_listen start =
    let from = start_port start in
    elim (first_port can_listen from (65536 - from)) [ none ↦ err no_free_ports | some x ↦ ok x ]
