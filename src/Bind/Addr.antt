-- ===== src/Bind/Addr.antt =====
-- Go's net.IP and net.Addr, as far as iface/bind uses them, and `isSupportedIPv6` and `isZeros`
-- of udp_mux.go.
use Prim.Native.Nat.{bit_and}
use punch.Common.{
  ℕ, zero, suc, String, Bool, true, false, not, ◌&&◌, ◌||◌, Option, none, some, List, [], ◌∷◌, ◌++◌,
  ◌==◌, nat_eq, length, take, drop, if◌then◌else◌, is_some,
}

-- An IP address is its bytes: 4 of them, 16 of them, or an invalid number.
abbrev pub Ip : Type 0
Ip = List ℕ

pub record UdpAddr : Type 0 where
  pub ip : Ip
  pub port : ℕ
  pub zone : List ℕ

-- A `net.Addr` is a UDP address, or of another type that is known by its text alone.
pub data Addr : Type 0 where
  udp : UdpAddr → Addr
  other : String → Addr

unfoldable pub is_zeros : Ip → Bool
is_zeros [] = true
is_zeros (b ∷ bs) = b == 0 && is_zeros bs

-- The byte at an index; where it is out of range, which the callers rule out, it is 0.
abbrev pub byte_at : Ip → ℕ → ℕ
byte_at [] i = 0
byte_at (b ∷ bs) zero = b
byte_at (b ∷ bs) (suc i) = byte_at bs i

abbrev pub v4_in_v6_prefix : Ip
v4_in_v6_prefix = 0 ∷ 0 ∷ 0 ∷ 0 ∷ 0 ∷ 0 ∷ 0 ∷ 0 ∷ 0 ∷ 0 ∷ 255 ∷ 255 ∷ []

unfoldable pub to4 : Ip → Option Ip
unfolding is_zeros
to4 ip =
    if length ip == 4
    then some ip
    else if length ip == 16 && is_zeros (take 10 ip) && byte_at ip 10 == 255 && byte_at ip 11 == 255
    then some (drop 12 ip)
    else none

unfoldable pub to16 : Ip → Option Ip
to16 ip =
    if length ip == 4
    then some (v4_in_v6_prefix ++ ip)
    else if length ip == 16
    then some ip
    else none

-- GetConn and HandleSTUNMessage: an IPv6 address is a UDP address with no IPv4 form.
unfoldable pub is_ipv6 : Addr → Bool
unfolding to4
is_ipv6 (udp a) = not (is_some (to4 a.ip))
is_ipv6 (other _) = false

unfoldable pub is_loopback : Ip → Bool
unfolding to4 is_zeros
is_loopback ip = elim (to4 ip) [
  | some ip4 ↦ byte_at ip4 0 == 127
  | none ↦ length ip == 16 && is_zeros (take 15 ip) && byte_at ip 15 == 1
]

is_link_local_unicast : Ip → Bool
unfolding to4
is_link_local_unicast ip = elim (to4 ip) [
  | some ip4 ↦ byte_at ip4 0 == 169 && byte_at ip4 1 == 254
  | none ↦ length ip == 16 && byte_at ip 0 == 0xfe && bit_and (byte_at ip 1) 0xc0 == 0x80
]

is_link_local_multicast : Ip → Bool
unfolding to4
is_link_local_multicast ip = elim (to4 ip) [
  | some ip4 ↦ byte_at ip4 0 == 224 && byte_at ip4 1 == 0 && byte_at ip4 2 == 0
  | none ↦ length ip == 16 && byte_at ip 0 == 0xff && bit_and (byte_at ip 1) 0x0f == 0x02
]

unfoldable pub is_supported_ipv6 : Ip → Bool
unfolding is_zeros is_link_local_unicast is_link_local_multicast
is_supported_ipv6 ip =
    if not (length ip == 16)
      || is_zeros (take 12 ip)
      || (byte_at ip 0 == 0xfe && bit_and (byte_at ip 1) 0xc0 == 0xc0)
      || is_link_local_unicast ip
      || is_link_local_multicast ip
    then false
    else true
