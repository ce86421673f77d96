-- ===== src/NetHooks.antt =====
-- util/net: listener_nonios.go and dialer_nonios.go, the hooks that are called before a socket is
-- used for an address and after it is closed.
pub mod Writes
pub mod Dials
mod Tests
use punch.Common.{
  ℕ, String, Bool, true, false, ◌||◌, Option, none, some, List, [], ◌∷◌, ◌++◌, ◌==◌, string_eq, map,
  length, if◌then◌else◌, Result, ok, err,
}

-- The four lists of hooks of the package. A hook is known by a number; its error is logged only.
pub record Hooks : Type 0 where
  pub listener_write : List ℕ
  pub listener_close : List ℕ
  pub dialer_dial : List ℕ
  pub dialer_close : List ℕ

unfoldable pub add_listener_write_hook : ℕ → Hooks → Hooks
add_listener_write_hook hook hs = record hs { listener_write = hs.listener_write ++ hook ∷ [] }

unfoldable pub add_listener_close_hook : ℕ → Hooks → Hooks
add_listener_close_hook hook hs = record hs { listener_close = hs.listener_close ++ hook ∷ [] }

unfoldable pub remove_listener_hooks : Hooks → Hooks
remove_listener_hooks hs = record hs { listener_write = []; listener_close = [] }

unfoldable pub add_dialer_hook : ℕ → Hooks → Hooks
add_dialer_hook hook hs = record hs { dialer_dial = hs.dialer_dial ++ hook ∷ [] }

unfoldable pub add_dialer_close_hook : ℕ → Hooks → Hooks
add_dialer_close_hook hook hs = record hs { dialer_close = hs.dialer_close ++ hook ∷ [] }

unfoldable pub remove_dialer_hooks : Hooks → Hooks
remove_dialer_hooks hs = record hs { dialer_dial = []; dialer_close = [] }

-- The calls of the hooks of one list, in its order: with the connection's id and, before a
-- socket is used, the addresses that it is used for.
pub record Call (I : Type 0) : Type 0 where
  pub hook : ℕ
  pub conn_id : ℕ
  pub addresses : List I

abbrev pub call_all : {I : Type 0} → ℕ → List I → List ℕ → List (Call I)
call_all id addresses [] = []
call_all id addresses (hook ∷ hooks) =
    record { hook = hook; conn_id = id; addresses = addresses } ∷ call_all id addresses hooks

-- PacketConn, and UDPConn alike. `seen` has the keys of `seenAddrs`.
pub record PacketConn : Type 0 where
  pub id : ℕ
  pub seen : List String

abbrev pub has : String → List String → Bool
has a [] = false
has a (b ∷ bs) = b == a || has a bs

module _ {I : Type 0} (resolve : String → Option I) where
  abbrev pub call_hooks : ℕ → List ℕ → Option I → List (Call I)
  call_hooks id hooks none = []
  call_hooks id hooks (some ip) = call_all id (ip ∷ []) hooks

  -- The address is stored as seen before it is split and resolved, which may fail.
  unfoldable pub call_write_hooks : Hooks → String → PacketConn → PacketConn × List (Call I)
  call_write_hooks hs addr c =
      if has addr c.seen
      then (c, [])
      else (record c { seen = addr ∷ c.seen }, call_hooks c.id hs.listener_write (resolve addr))

  -- Close forgets the addresses, and calls the hooks once the socket is closed.
  unfoldable pub close_packet_conn : Hooks → PacketConn → PacketConn × List (Call I)
  close_packet_conn hs c = (record c { seen = [] }, call_all c.id [] hs.listener_close)

-- A socket with the package's wrapping or without.
pub data Socket : Type 0 where
  plain : Socket
  wrapped : PacketConn → Socket

pub data Error : Type 0 where
  listen_failed dial_failed wrong_type : Error

-- ListenPacket: `disabled` is CustomRoutingDisabled, `id` what GenerateConnID gives.
unfoldable pub listen_packet : Bool → Bool → ℕ → Result Error Socket
listen_packet disabled works id =
    if works
    then ok (if disabled then plain else wrapped (record { id = id; seen = [] }))
    else err listen_failed

-- ListenUDP, without custom routing the same as ListenPacket on the package's socket; the new
-- wrapping has the id of the old one. `is_udp` is whether the socket is a net.UDPConn: another
-- one is closed, with the hooks called.
abbrev pub as_udp : {I : Type 0} → Hooks → Bool → Socket → List (Call I) × Result Error Socket
as_udp hs is_udp plain = ([], ok plain)
as_udp hs is_udp (wrapped c) =
    if is_udp
    then ([], ok (wrapped (record { id = c.id; seen = [] })))
    else (call_all c.id [] hs.listener_close, err wrong_type)

unfoldable pub listen_udp :
    {I : Type 0} → Hooks → Bool → Bool → Bool → ℕ → List (Call I) × Result Error Socket
unfolding listen_packet
listen_udp hs disabled works is_udp id = elim (listen_packet disabled works id) [
  | err e ↦ ([], err e)
  | ok s ↦ as_udp hs is_udp s
]

-- A connection that was dialled, with the package's wrapping, which is its id, or without.
pub data Dialled : Type 0 where
  bare : Dialled
  with_id : ℕ → Dialled

-- What is dialled, and how that ends: `lookup` are the addresses of the host, if it has a port
-- and is found.
pub record Dialling (I : Type 0) : Type 0 where
  pub disabled : Bool
  pub lookup : Option (List I)
  pub works : Bool
  pub right_type : Bool

module _ {I : Type 0} where
  -- Every hook is called, whatever the ones before it return.
  abbrev pub call_dialer_hooks : Hooks → ℕ → Option (List I) → List (Call I)
  call_dialer_hooks hs id none = []
  call_dialer_hooks hs id (some ips) = call_all id ips hs.dialer_dial

  -- An error of the hooks is logged only. With no hooks the host is not looked up.
  unfoldable pub dial_context : Hooks → ℕ → Dialling I → List (Call I) × Result Error Dialled
  dial_context hs id d =
      if d.disabled
      then ([], if d.works then ok bare else err dial_failed)
      else (call_dialer_hooks hs id d.lookup, if d.works then ok (with_id id) else err dial_failed)

  -- Conn.Close calls the hooks once the connection is closed; a bare one has none.
  unfoldable pub close_dialled : Hooks → Dialled → List (Call I)
  close_dialled hs bare = []
  close_dialled hs (with_id id) = call_all id [] hs.dialer_close

  -- The connection inside the wrapping is returned, or the wrapped one is closed.
  abbrev pub unwrapped :
      Hooks → Bool → List (Call I) × Result Error Dialled → List (Call I) × Result Error Dialled
  unwrapped hs right_type (calls, err e) = (calls, err e)
  unwrapped hs true (calls, ok c) = (calls, ok bare)
  unwrapped hs false (calls, ok c) = (calls ++ close_dialled hs c, err wrong_type)

  -- DialUDP, and DialTCP alike.
  unfoldable pub dial_udp : Hooks → ℕ → Dialling I → List (Call I) × Result Error Dialled
  unfolding dial_context close_dialled
  dial_udp hs id d =
      if d.disabled
      then ([], if d.works then ok bare else err dial_failed)
      else unwrapped hs d.right_type (dial_context hs id d)
