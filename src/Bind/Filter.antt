-- ===== src/Bind/Filter.antt =====
-- iface/bind/udp_mux_universal.go: udpConn, the socket that refuses to write to an address of a
-- routed network, with its cache of what the filter has answered.
pub mod Cache
mod Tests
use punch.Common.{
  ℕ, String, ◌≡◌, refl, Bool, true, false, Option, none, some, List, [], ◌∷◌, ◌==◌, string_eq,
  if◌then◌else◌, arith, Option-cases, Bool-cases, inl, inr, ◌⊎◌,
}
use punch.Common.Map.{Map, lookup, insert, lookup-insert}

pub data Error : Type 0 where
  cached_routed routed : Error

-- What the code calls for an address in text: `net.SplitHostPort` and `netip.ParseAddr` (`none`
-- is an error of one of them), and the filter (`none` is its error), whose
-- answers depend on the routes of the time.
pub record Checks (A : Type 0) : Type 0 where
  pub parse_host : String → Option A
  pub filter_fn : ℕ → A → Option Bool

pub record UdpConn (A : Type 0) : Type 0 where
  pub checks : Option (Checks A)  -- none: `filterFn` is nil
  pub addr_cache : Map String Bool

pub handle_cached_address : Bool → Option Error
handle_cached_address is_routed = if is_routed then some cached_routed else none

module _ {A : Type 0} where
  -- `none` is a nil error: the write goes on.
  pub perform_filter_check : ℕ → Checks A → String → UdpConn A → UdpConn A × Option Error
  perform_filter_check now c addr u = elim (c.parse_host addr) [
    | none ↦ (u, none)
    | some a ↦ elim (c.filter_fn now a) [
      | none ↦ (u, none)
      | some is_routed ↦ (
        record u { addr_cache = insert addr is_routed u.addr_cache },
        if is_routed then some routed else none,
      )
    ]
  ]

  pub filtered : ℕ → Checks A → String → UdpConn A → UdpConn A × Option Error
  unfolding handle_cached_address perform_filter_check
  filtered now c addr u = elim (lookup addr u.addr_cache) [
    | some is_routed ↦ (u, handle_cached_address is_routed)
    | none ↦ perform_filter_check now c addr u
  ]

  -- `WriteTo`: an error, or none where the bytes are handed to the socket.
  unfoldable pub write_to : ℕ → String → UdpConn A → UdpConn A × Option Error
  unfolding filtered
  write_to now addr u = elim u.checks [ none ↦ (u, none) | some c ↦ filtered now c addr u ]
