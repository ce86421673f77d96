-- ===== src/Bind.antt =====
-- iface/bind: the socket that ICE and WireGuard share.
pub mod Addr
pub mod Wire
pub mod Mux
pub mod Filter
pub mod Mapped
pub mod Receiver
pub mod Creation
