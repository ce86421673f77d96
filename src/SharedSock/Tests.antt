-- ===== src/SharedSock/Tests.antt =====
-- sharedsock with concrete packets and answers.
use punch.Common.{
  ℕ, zero, suc, ◌+◌, ◌≡◌, refl, Bool, true, false, none, some, List, [], ◌∷◌, ◌++◌, ◌==◌, nat_eq,
  leb, take, drop, length, arith, if◌then◌else◌, ok,
}
use punch.SharedSock.{
  Host, listen, Parser, RcvdPacket, inet4, read_from, closed, opened, absent, Network, write_to,
  returned, SharedSocket,
}
use punch.Bind.Addr.{udp}
use punch.SharedSock.StunFilter.{
  Instruction, load_absolute, jump_not_equal, ret_constant, IsMachine, big_endian, get_instructions,
}
use punch.SharedSock.Accepting.{Filtered, datagram, get_instructions-Filtered}
use punch.SharedSock.Listening.{Listened, listen-Listened}
use punch.SharedSock.Reading.{CountsHeader, Returned, read_from-Returned}

-- A machine for the three instructions, with the number of instructions that a jump goes over.
exec_from : ℕ → List Instruction → ℕ → List ℕ → ℕ
exec_from skip [] a p = 0
exec_from (suc skip) (i ∷ rest) a p = exec_from skip rest a p
exec_from zero (load_absolute off size ∷ rest) a p =
    let later = exec_from 0 rest (big_endian 0 (take size (drop off p))) p in
    if leb (off + size) (length p) then later else 0
exec_from zero (jump_not_equal value skip ∷ rest) a p =
    exec_from (if a == value then 0 else skip) rest a p
exec_from zero (ret_constant value ∷ rest) a p = value

exec_from-drop :
    (skip : ℕ) (is : List Instruction) (a : ℕ) (p : List ℕ)
    → exec_from skip is a p ≡ exec_from 0 (drop skip is) a p
unfolding exec_from
exec_from-drop zero is a p = refl
exec_from-drop (suc skip) [] a p = refl
exec_from-drop (suc skip) (i ∷ is) a p = exec_from-drop skip is a p

exec_from-IsMachine : IsMachine (exec_from 0)
unfolding exec_from
exec_from-IsMachine = record {
  loads = λ off size a p rest. refl;
  jumps = λ value skip a p rest. ground (arith, exec_from-drop skip rest a p);
  returns = λ value a p rest. refl;
}

-- A binding request's first words, from port 3478 to port 51820.
abbrev stun : List ℕ
stun = 0 ∷ 1 ∷ 0 ∷ 0 ∷ 0x21 ∷ 0x12 ∷ 0xA4 ∷ 0x42 ∷ []

abbrev header : List ℕ
header = 0x45 ∷ 0 ∷ 0 ∷ 36 ∷ 0 ∷ 0 ∷ 0 ∷ 0 ∷ 64 ∷ 17 ∷ 0 ∷ 0 ∷ 10 ∷ 0 ∷ 0 ∷ 1 ∷ 10 ∷ 0 ∷ 0 ∷ 2 ∷ []

lets_through :
    exec_from 0 (get_instructions 51820).0 0 (header ++ datagram 13 150 202 108 0 16 0 0 stun)
    ≡ 0xffffffff
unfolding exec_from get_instructions
lets_through = refl

get_instructions-Filtered_example :
    Filtered
      (exec_from 0)
      exec_from-IsMachine
      (get_instructions 51820).0
      (header ++ datagram 13 150 202 108 0 16 0 0 stun)
      51820
      202
      108
      stun
    × Filtered
        (exec_from 0)
        exec_from-IsMachine
        (get_instructions 51820).1
        (datagram 13 150 202 108 0 16 0 0 stun)
        51820
        202
        108
        stun
get_instructions-Filtered_example =
    get_instructions-Filtered (exec_from 0) exec_from-IsMachine 51820 13 150 202 108 0 16 0 0 stun
      header refl

abbrev host : Bool → Host
host filters6 = record {
  has_router = true;
  opens4 = true;
  marks4 = true;
  opens6 = true;
  marks6 = true;
  assembles = true;
  filters4 = true;
  filters6 = filters6;
}

closes_both : (listen (host false) 51820).0.conn4 ≡ closed
unfolding listen
closes_both = refl

listen-Listened_example : Listened (host false) 51820 (listen (host false) 51820)
listen-Listened_example = listen-Listened (host false) 51820

-- A parser for packets whose UDP payload is the whole buffer.
abbrev parser : Parser
parser = record {
  parse4 = λ buf. some (record { src_port = 7; udp_length = length buf + 8; payload = buf });
  parse6 = λ buf. none;
}

parser-CountsHeader : CountsHeader parser
parser-CountsHeader = record { counts4 = λ buf d e. ground (arith, e); counts6 = λ buf d e. cc }

abbrev packet : RcvdPacket
packet = record { addr = inet4 (1 ∷ 2 ∷ 3 ∷ 4 ∷ []); buf = 5 ∷ 6 ∷ []; failed = false }

abbrev buffer : List ℕ
buffer = 9 ∷ 9 ∷ 9 ∷ []

reads_ten :
    read_from parser buffer (some packet)
    ≡ ok (record {
      n = 10;
      from = record { ip = 1 ∷ 2 ∷ 3 ∷ 4 ∷ []; port = 7; zone = [] };
      buffer = 5 ∷ 6 ∷ 9 ∷ [];
    })
unfolding read_from
reads_ten = refl

read_from-Returned_example :
    Returned parser buffer (some packet) (read_from parser buffer (some packet))
read_from-Returned_example = read_from-Returned parser parser-CountsHeader buffer (some packet)

-- The network sends everything, to a peer in IPv6, on a socket that has none.
abbrev network : Network
network = record {
  route = λ ip. some ip;
  serialize = λ from to src dst buf. some buf;
  sends = λ to buf. true;
}

abbrev without_ipv6 : SharedSocket
without_ipv6 = record {
  port = 51820;
  router = true;
  conn4 = opened true true;
  conn6 = absent;
  reading4 = true;
  reading6 = false;
  updating = true;
  cancelled = false;
}

returns_zero :
    write_to network
      (1 ∷ [])
      (udp (record { ip = 1 ∷ 2 ∷ 3 ∷ 4 ∷ []; port = 7; zone = [] }))
      without_ipv6
    ≡ returned (some (inet4 (1 ∷ 2 ∷ 3 ∷ 4 ∷ []), 1 ∷ [])) (ok 0)
unfolding write_to
returns_zero = refl
