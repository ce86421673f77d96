-- ===== src/WgProxy.antt =====
-- client/internal/wgproxy: the proxies between WireGuard and the relayed (TURN) connections.
-- proxy_ebpf.go gives every relayed connection a port of 127.0.0.1; portlookup.go finds the
-- port of the proxy itself; factory.go and factory_linux.go choose the kind of proxy.
pub mod UserSpace
pub mod Lookup
pub mod Ports
pub mod Routing
pub mod Startup
mod Tests
use punch.Common.{
  ℕ, zero, suc, ◌+◌, ◌%◌, ◌^◌, Bool, true, false, Option, none, some, List, [], ◌∷◌, ◌==◌, nat_eq,
  length, if◌then◌else◌, is_some, Result, ok, err, unless_err,
}
use punch.Common.Map.{Map, lookup, insert, erase}
use punch.Ebpf
use punch.Ebpf.{Kernel, GeneralManager}

-- The steps of `prepareSenderRawSocket`, each of which can fail.
pub data SocketStep : Type 0 where
  create_socket set_hdrincl bind_to_device set_fwmark to_file to_packet_conn : SocketStep

pub data Error : Type 0 where
  no_free_port max_turn_conns listen_udp close_conn close_raw_conn : Error
  socket : SocketStep → Error
  manager : Ebpf.Failure → Error
  -- `goto generatePort` ran past the fuel: Ports shows that it never does
  out_of_fuel : Error

-- What the system answers during one call: `true` is a nil error.
pub record Host : Type 0 where
  pub can_bind : ℕ → Bool
  pub socket_ok : SocketStep → Bool
  pub kernel : Kernel
  pub listen_udp_ok : Bool
  pub close_conn_ok : Bool
  pub close_raw_conn_ok : Bool

-- `conn` and `raw_conn` are whether the sockets are not nil; `C` is Go's net.Conn.
pub record WgEbpfProxy (C : Type 0) : Type 0 where
  pub ebpf_manager : GeneralManager
  pub last_used_port : ℕ  -- uint16
  pub local_wg_listen_port : ℕ
  pub turn_conn_store : Map ℕ C
  pub raw_conn : Bool
  pub conn : Bool

abbrev u16 : ℕ → ℕ
u16 n = n % 2 ^ 16

abbrev pub port_range_start : ℕ
port_range_start = 3128

abbrev pub port_range_end : ℕ
port_range_end = 3228

-- `for i := port; …; i++ { if ok(i) { return i } }` with the rounds that are left.
unfoldable pub first_port : (ℕ → Bool) → ℕ → ℕ → Option ℕ
first_port free port zero = none
first_port free port (suc rounds) =
    let rest = first_port free (port + 1) rounds in if free port then some port else rest

-- `i` runs from 3128 to 3228, which are 101 rounds.
unfoldable pub search_free_port : (ℕ → Bool) → Result Error ℕ
unfolding first_port
search_free_port can_bind = elim (first_port can_bind port_range_start 101) [
  | none ↦ err no_free_port
  | some port ↦ ok port
]

check_step : Host → SocketStep → Result Error (Unit {0}) → Result Error (Unit {0})
check_step h s rest = if h.socket_ok s then rest else err (socket s)

prepare_sender_raw_socket : Host → Result Error (Unit {0})
unfolding check_step
prepare_sender_raw_socket h = check_step h create_socket (
    check_step h set_hdrincl (
      check_step h bind_to_device
        (check_step h set_fwmark (check_step h to_file (check_step h to_packet_conn (ok tt))))))

close_error : Bool → Bool → Error → Option Error
close_error is_open closes e = if is_open then (if closes then none else some e) else none

manager_error : Option Ebpf.Failure → Option Error
manager_error none = none
manager_error (some e) = some (manager e)

first_error : Option Error → Option Error → Option Error
first_error none e = e
first_error (some e) _ = some e

-- One round of `generatePort`: the `++` on a uint16 is written with its wrap.
next_port : ℕ → ℕ
next_port last = if last == 65535 then 1 else u16 (last + 1)

module _ {C : Type 0} where
  -- NewWGEBPFProxy, around the manager that the process shares.
  unfoldable pub new_wg_ebpf_proxy : GeneralManager → ℕ → WgEbpfProxy C
  new_wg_ebpf_proxy shared wg_port = record {
    ebpf_manager = shared;
    last_used_port = 0;
    local_wg_listen_port = wg_port;
    turn_conn_store = [];
    raw_conn = false;
    conn = false;
  }

  -- All three are released, and the first error is returned.
  unfoldable pub free : Host → WgEbpfProxy C → WgEbpfProxy C × Option Error
  unfolding close_error manager_error first_error
  free h p =
      let (tf, failure) = Ebpf.free_wg_proxy h.kernel p.ebpf_manager in
      (
        record p { ebpf_manager = tf },
        first_error (close_error p.conn h.close_conn_ok close_conn) (
            first_error (manager_error failure)
              (close_error p.raw_conn h.close_raw_conn_ok close_raw_conn)),
      )

  -- From `ListenUDP` on; what `Free` returns is logged only.
  listen_on : Host → WgEbpfProxy C → WgEbpfProxy C × Option Error
  unfolding free
  listen_on h p =
      if h.listen_udp_ok then (record p { conn = true }, none) else ((free h p).0, some listen_udp)

  after_load :
      Host → WgEbpfProxy C → GeneralManager × Option Ebpf.Failure → WgEbpfProxy C × Option Error
  unfolding listen_on
  after_load h p (tf, none) = listen_on h (record p { ebpf_manager = tf })
  after_load h p (tf, some e) = (record p { ebpf_manager = tf }, some (manager e))

  load_program : Host → ℕ → WgEbpfProxy C → WgEbpfProxy C × Option Error
  unfolding after_load
  load_program h port p =
      after_load h p (Ebpf.load_wg_proxy h.kernel port p.local_wg_listen_port p.ebpf_manager)

  -- The sockets and the program, once the port is known.
  after_socket : Host → ℕ → Result Error (Unit {0}) → WgEbpfProxy C → WgEbpfProxy C × Option Error
  unfolding load_program
  after_socket h port (err e) p = (record p { raw_conn = false }, some e)
  after_socket h port (ok _) p = load_program h port (record p { raw_conn = true })

  start_on : Host → Result Error ℕ → WgEbpfProxy C → WgEbpfProxy C × Option Error
  unfolding prepare_sender_raw_socket after_socket
  start_on h (err e) p = (p, some e)
  start_on h (ok port) p = after_socket h port (prepare_sender_raw_socket h) p

  unfoldable pub listen : Host → WgEbpfProxy C → WgEbpfProxy C × Option Error
  unfolding start_on
  listen h p = start_on h (search_free_port h.can_bind) p

  pub search_port : ℕ → ℕ → Map ℕ C → Option ℕ
  unfolding next_port
  search_port zero last store = none
  search_port (suc fuel) last store =
      let port = next_port last in
      let rest = search_port fuel port store in
      if is_some (lookup port store) then rest else some port

  -- 65535 rounds of fuel: each port once.
  unfoldable pub next_free_port : WgEbpfProxy C → WgEbpfProxy C × Result Error ℕ
  next_free_port p =
      let found = search_port 65535 p.last_used_port p.turn_conn_store in
      if length p.turn_conn_store == 65535 then (p, err max_turn_conns) else elim found [
        | none ↦ (p, err out_of_fuel)
        | some port ↦ (record p { last_used_port = port }, ok port)
      ]

  insert_at : C → WgEbpfProxy C × Result Error ℕ → WgEbpfProxy C × Result Error ℕ
  insert_at c (p, err e) = (p, err e)
  insert_at c (p, ok np) = (record p { turn_conn_store = insert np c p.turn_conn_store }, ok np)

  unfoldable pub store_turn_conn : C → WgEbpfProxy C → WgEbpfProxy C × Result Error ℕ
  unfolding insert_at
  store_turn_conn c p = insert_at c (next_free_port p)

  unfoldable pub remove_turn_conn : ℕ → WgEbpfProxy C → WgEbpfProxy C
  remove_turn_conn id p = record p { turn_conn_store = erase id p.turn_conn_store }

-- A UDP endpoint of 127.0.0.1.
pub record Endpoint : Type 0 where
  pub port : ℕ

-- The packet of `sendPkg`: from a port of 127.0.0.1 to the port of WireGuard there.
pub record Datagram : Type 0 where
  pub src_port : ℕ
  pub dst_port : ℕ
  pub payload : List ℕ

module _ {C : Type 0} where
  to_endpoint : WgEbpfProxy C × Result Error ℕ → WgEbpfProxy C × Result Error Endpoint
  to_endpoint (p, err e) = (p, err e)
  to_endpoint (p, ok port) = (p, ok (record { port = port }))

  unfoldable pub add_turn_conn : C → WgEbpfProxy C → WgEbpfProxy C × Result Error Endpoint
  unfolding to_endpoint
  add_turn_conn c p = to_endpoint (store_turn_conn c p)

  unfoldable pub send_pkg : WgEbpfProxy C → List ℕ → ℕ → Datagram
  send_pkg p payload port = record {
    src_port = port;
    dst_port = u16 p.local_wg_listen_port;
    payload = payload;
  }

  -- The connection to which `proxyToRemote` writes what came from a port of WireGuard's side;
  -- with none the packet is dropped.
  unfoldable pub route : ℕ → WgEbpfProxy C → Option C
  route port p = lookup (u16 port) p.turn_conn_store

-- What happens to a proxy that listens: a connection is added; the goroutine of an endpoint
-- (`proxyToLocal`) reads a packet, or ends, because of a read error or of the context;
-- `proxyToRemote` reads a packet that WireGuard sent from its side to a port.
pub data Event (C : Type 0) : Type 0 where
  add : C → Event C
  from_turn : ℕ → List ℕ → Event C
  turn_ends : ℕ → Event C
  from_wg : ℕ → List ℕ → Event C

pub data Output (C : Type 0) : Type 0 where
  to_wg : Datagram → Output C
  to_turn : C → List ℕ → Output C
  endpoint : Result Error Endpoint → Output C
  silent : Output C

module _ {C : Type 0} where
  write_to : Option C → List ℕ → Output C
  write_to none bytes = silent
  write_to (some c) bytes = to_turn c bytes

  unfoldable pub step : Event C → WgEbpfProxy C → WgEbpfProxy C × Output C
  unfolding send_pkg remove_turn_conn route write_to
  step (add c) p = let (p', e) = add_turn_conn c p in (p', endpoint e)
  step (from_turn port bytes) p = (p, to_wg (send_pkg p bytes port))
  step (turn_ends port) p = (remove_turn_conn port p, silent)
  step (from_wg port bytes) p = (p, write_to (route port p) bytes)

  unfoldable pub run : List (Event C) → WgEbpfProxy C → WgEbpfProxy C
  unfolding step
  run [] p = p
  run (e ∷ es) p = run es (step e p).0

-- factory.go: what GetProxy hands out.
pub data Proxy (C : Type 0) : Type 0 where
  ebpf_proxy : WgEbpfProxy C → Proxy C
  user_space_proxy : ℕ → Proxy C

pub record Factory (C : Type 0) : Type 0 where
  pub wg_port : ℕ
  pub ebpf : Option (WgEbpfProxy C)

module _ {C : Type 0} where
  -- NewFactory on Linux: an error of `listen` means the proxy in user space.
  unfoldable pub new_factory : Host → GeneralManager → Bool → ℕ → Factory C
  unfolding listen new_wg_ebpf_proxy
  new_factory h shared userspace wg_port =
      let (p, e) = listen h (new_wg_ebpf_proxy shared wg_port) in
      if userspace
      then record { wg_port = wg_port; ebpf = none }
      else record { wg_port = wg_port; ebpf = elim e [ none ↦ some p | some _ ↦ none ] }

  unfoldable pub get_proxy : Factory C → Proxy C
  get_proxy f = elim f.ebpf [ none ↦ user_space_proxy f.wg_port | some p ↦ ebpf_proxy p ]
