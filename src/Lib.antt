-- ===== src/Lib.antt =====
-- Verification of punch: the logic of a WireGuard overlay's client and its signalling server.
--
-- The client (client/internal) asks the server (signal) for its peers, gathers ICE candidates
-- over the UDP mux (iface/bind), and, where two peers reach each other only through a relay,
-- gives the relayed connection a local port that WireGuard can send to (wgproxy). The eBPF
-- program (ebpf) rewrites the ports of the packets between the two.
--
-- The files, and the code that they are about:
--   Common      the shared names, tests on numbers, lists, Go's maps and its error results
--   Ebpf        client/internal/ebpf/ebpf: GeneralManager, the program and its flag byte
--   WgProxy     client/internal/wgproxy: searchFreePort, WGEBPFProxy, the factory;
--               WgProxy.UserSpace, the proxy in user space
--   Bind.Addr   iface/bind/udp_mux.go: the forms of an IP address
--   Bind.Wire   iface/bind/udp_muxed_conn.go: the packet format of a connection's queue
--   Bind.Mux    iface/bind/udp_mux.go, udp_muxed_conn.go: UDPMuxDefault and its connections
--   Bind.Filter, Bind.Mapped  iface/bind/udp_mux_universal.go: udpConn with its route filter, and
--               the addresses that the STUN servers report
--   Bind.Receiver  iface/bind/bind.go: ICEBind's receiver, which parts STUN from WireGuard
--   Bind.Creation  iface/bind/udp_mux.go: the muxes' constructors and the host's addresses
--   Signal      signal/server/signal.go, signal/store/peer.go: the handlers and the store;
--               Signal.Exchange, client/internal/exchange.go, the client's side of it
--   Config      client/internal/config.go, util/common.go: the configuration and its file
--   FreeBsd     iface/freebsd: a link's ifconfig commands, and the output that is read
--   KernelModule  iface/module_linux.go: the kernel modules, their lists and their loading
--   JsonFile    util/file.go: JSON files and copies of files
--   Text        Go's strings and hex on the bytes of a text
--   UspConfigurer  iface/wg_configurer_usp.go: the IPC text of the device in user space
--   KernelConfigurer  iface/wg_configurer_kernel_unix.go: the same for the kernel's device
--   Engine      client/internal/engine.go, connect.go: the peers' connections, freePort
--               and run
--   NetHooks    util/net: the hooks around the sockets that are listened on and dialled
--   Stdnet      client/internal/stdnet: the filter of interfaces, and a phone's list of them
--   Peer        client/internal/peer/conn.go: Open and Close of a connection, as steps on its mutex
--   SharedSock  sharedsock: the raw socket that shares WireGuard's port, and its STUN filter
--   Retry       util/retry.go: Retry
-- Each has its theorems in child modules, named for what they prove, and its tests in a child
-- Tests. A struct is a record and a method a function from the struct to the new struct and
-- what it returns, with an error as a value; a pointer that several maps share is an index of
-- a heap; a goroutine's steps are events, in any order, that each run under the code's mutex.
--
-- Fuel: `search_port` has 65535 rounds, one for each port; Ports shows that they are enough.
-- `first_port` has the rounds of the source's loop: 101 in searchFreePort, and in freePort one
-- for each port up to 65535. `trim_exts` has one round more than the file's name has bytes;
-- Names shows that they are enough.
--
-- Parameters: wgtypes.ParseKey and net.ParseCIDR (UspConfigurer.WgText), gorm's table
-- (Signal.PeerTable) and encoding/json (Signal.ServerJson, Signal.Exchange.ClientJson), the
-- kernel's and the host's answers (Ebpf.Kernel, WgProxy.Host, KernelModule.Kernel,
-- JsonFile.Host), the text of an IP address (Bind.Wire.IpText), pion's packet buffer and a
-- `net.Addr`'s text (Bind.Mux.Net), what ifconfig does (FreeBsd), the device of wgctrl
-- (KernelConfigurer), gopacket and the kernel's BPF machine (SharedSock), the resolver
-- (NetHooks), the route filter, whose answers depend on the time (Bind.Filter), pion's stun and
-- ice (Bind.Receiver, Bind.Creation), which writes of the file work (Config.Disk), and
-- fmt.Sscanf, net.ParseCIDR and wgctrl (Stdnet).
--
-- Not modelled: logging, pools of buffers, deadlines, and the system calls that configure
-- devices, routes and firewalls. The server's goroutines take a packet from the shared buffer in
-- one step (Signal.Event): a read in the middle of an Unmarshal is not modelled.
pub mod Common
pub mod Ebpf
pub mod WgProxy
pub mod Bind
pub mod Signal
pub mod Config
pub mod Text
pub mod UspConfigurer
pub mod Engine
pub mod Retry
pub mod NetHooks
pub mod Stdnet
pub mod SharedSock
pub mod KernelConfigurer
pub mod Peer
pub mod FreeBsd
pub mod KernelModule
pub mod JsonFile
