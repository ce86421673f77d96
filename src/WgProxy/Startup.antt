-- ===== src/WgProxy/Startup.antt =====
-- client/internal/wgproxy: what `listen` starts and what it takes back.
use punch.Common.{
  ℕ, ◌%◌, ◌≡◌, refl, true, false, Option, none, some, arith, nat_eq, if◌then◌else◌, Result, ok, err,
  ◌+◌, Bool-cases, inl, inr, sym, subst,
}
use punch.Ebpf
use punch.Ebpf.Features.{FeatureSet, Holds, free_wg-Holds, load_wg_proxy_ports, load_wg-Holds}
use punch.WgProxy.{
  Error, Host, WgEbpfProxy, free, listen_on, load_program, after_load, after_socket, start_on,
  check_step, SocketStep, socket, create_socket, set_hdrincl, bind_to_device, set_fwmark, to_file,
  to_packet_conn, listen, listen_udp, manager, search_free_port, prepare_sender_raw_socket,
  port_range_start, port_range_end,
}
use punch.WgProxy.Lookup.{LeastFree, Answers, search_free_port-Answers}

abbrev turned_off : FeatureSet → FeatureSet
turned_off s = record s { wg = false }

abbrev turned_on : FeatureSet → FeatureSet
turned_on s = record s { wg = true }

-- The error of `prepareSenderRawSocket` names a step that failed; none did otherwise.
abbrev pub Prepared : Host → Result Error (Unit {0}) → Type 0
Prepared h (ok _) = Unit
Prepared h (err e) = (t : SocketStep) × (e ≡ socket t) × (h.socket_ok t ≡ false)

check_step-Prepared :
    (h : Host) (t : SocketStep) (r : Result Error (Unit {0}))
    → Prepared h r
    → Prepared h (check_step h t r)
unfolding check_step
check_step-Prepared h t r ok_so_far = elim (Bool-cases (h.socket_ok t)) [
  | inl good ↦ subst (λ b. Prepared h (if b then r else err (socket t))) (sym good) ok_so_far
  | inr bad ↦ subst (λ b. Prepared h (if b then r else err (socket t))) (sym bad) (t, refl, bad)
]

prepare-Prepared : (h : Host) → Prepared h (prepare_sender_raw_socket h)
unfolding prepare_sender_raw_socket
prepare-Prepared h = check_step-Prepared h create_socket _ (
    check_step-Prepared h set_hdrincl _ (
      check_step-Prepared h bind_to_device _ (
        check_step-Prepared h set_fwmark _
          (check_step-Prepared h to_file _ (check_step-Prepared h to_packet_conn _ tt)))))

module _ {C : Type 0} (h : Host) (s : FeatureSet) where
  -- A proxy that runs: both sockets are open, the feature is on, and the kernel's program has
  -- the port of the proxy, the least one that was free.
  pub record Runs (p : WgEbpfProxy C) : Type 0 where
    pub conn_open : p.conn ≡ true
    pub raw_open : p.raw_conn ≡ true
    pub feature_on : Holds (record s { wg = true }) p.ebpf_manager
    pub port : ℕ
    pub port_least : LeastFree h.can_bind port_range_start (port_range_end + 1) port
    pub port_known : p.ebpf_manager.proxy_port ≡ some port

  -- What `listen` returned, and the proxy that it left.
  abbrev pub Started : WgEbpfProxy C → WgEbpfProxy C × Option Error → Type 0
  Started p (p', none) = Runs p'
  Started p (p', some listen_udp) = Holds (record s { wg = false }) p'.ebpf_manager
  Started p (p', some (manager e)) =
      (port : ℕ) × (Ebpf.load_wg_proxy h.kernel port p.local_wg_listen_port p.ebpf_manager
        ≡ (p'.ebpf_manager, some e))
  Started p (p', some _) = p'.ebpf_manager ≡ p.ebpf_manager

  listen_on-Started :
      (p q : WgEbpfProxy C) (port : ℕ)
      → q.raw_conn ≡ true
      → Holds (turned_on s) q.ebpf_manager
      → LeastFree h.can_bind port_range_start (port_range_end + 1) port
      → q.ebpf_manager.proxy_port ≡ some port
      → Started p (listen_on h q)
  unfolding listen_on free
  listen_on-Started p q port raw feature least known =
      elim h.listen_udp_ok
        as (λ b.
          Started p
            (if b then (record q { conn = true }, none) else ((free h q).0, some listen_udp))) [
              | true ↦ record {
                conn_open = refl;
                raw_open = raw;
                feature_on = feature;
                port = port;
                port_least = least;
                port_known = known;
              }
              | false ↦ free_wg-Holds h.kernel q.ebpf_manager (turned_on s) feature
            ]

  after_load-Started :
      (p : WgEbpfProxy C) (port : ℕ) (r : Ebpf.GeneralManager × Option Ebpf.Failure)
      → LeastFree h.can_bind port_range_start (port_range_end + 1) port
      → Ebpf.load_wg_proxy h.kernel port p.local_wg_listen_port p.ebpf_manager ≡ r
      → (r.1 ≡ none → Holds (turned_on s) r.0 × (r.0.proxy_port ≡ some (port % 65536)))
      → Started p (after_load h (record p { raw_conn = true }) r)
  unfolding after_load
  after_load-Started p port (tf, none) least e loaded =
      let (feature, known) = loaded refl in
      let same : port % 65536 ≡ port = omega (arith, least.below_end) in
      listen_on-Started p _ port refl feature least (rw same at known)
  after_load-Started p port (tf, some x) least e loaded = (port, e)

  load_program-Started :
      (p : WgEbpfProxy C) (port : ℕ)
      → Holds s p.ebpf_manager
      → LeastFree h.can_bind port_range_start (port_range_end + 1) port
      → Started p (load_program h port (record p { raw_conn = true }))
  unfolding load_program
  load_program-Started p port holds least = after_load-Started p port _ least refl λ good. (
    load_wg-Holds h.kernel p.ebpf_manager port p.local_wg_listen_port s holds good,
    (load_wg_proxy_ports h.kernel p.ebpf_manager port p.local_wg_listen_port good).1,
  )

  after_socket-Started :
      (p : WgEbpfProxy C) (port : ℕ) (r : Result Error (Unit {0}))
      → Holds s p.ebpf_manager
      → LeastFree h.can_bind port_range_start (port_range_end + 1) port
      → Prepared h r
      → Started p (after_socket h port r p)
  unfolding after_socket
  after_socket-Started p port (ok _) holds least r = load_program-Started p port holds least
  after_socket-Started p port (err e) holds least (t, same, _) =
      subst (λ x. Started p (record p { raw_conn = false }, some x)) (sym same) refl

  start_on-Started :
      (p : WgEbpfProxy C) (r : Result Error ℕ)
      → Holds s p.ebpf_manager
      → Answers h.can_bind r
      → Started p (start_on h r p)
  unfolding start_on
  start_on-Started p (err e) holds a = subst (λ x. Started p (p, some x)) (sym a.0) refl
  start_on-Started p (ok port) holds least =
      after_socket-Started p port _ holds least (prepare-Prepared h)

  -- `listen` returns with no error only where the proxy runs; where the last step fails, the
  -- UDP socket, the feature is off again.
  pub listen-Started : (p : WgEbpfProxy C) → Holds s p.ebpf_manager → Started p (listen h p)
  unfolding listen
  listen-Started p holds =
      start_on-Started p (search_free_port h.can_bind) holds (search_free_port-Answers h.can_bind)
