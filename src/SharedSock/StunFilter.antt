-- ===== src/SharedSock/StunFilter.antt =====
-- sharedsock/stun_filter_linux.go: the BPF instructions that let STUN packets to a port through.
use punch.Common.{
  ℕ, ◌+◌, ◌*◌, ◌≡◌, List, [], ◌∷◌, ◌==◌, nat_eq, leb, take, drop, length, if◌then◌else◌,
}

-- The bpf.Instructions that the filter uses; JumpIf is with JumpNotEqual.
pub data Instruction : Type 0 where
  load_absolute jump_not_equal : ℕ → ℕ → Instruction
  ret_constant : ℕ → Instruction

abbrev pub magic_cookie : ℕ
magic_cookie = 0x2112A442

abbrev pub raw_instructions : ℕ → ℕ → ℕ → List Instruction
raw_instructions dst_port_off cookie_off dst_port =
    load_absolute dst_port_off 2
    ∷ jump_not_equal dst_port 3
    ∷ load_absolute cookie_off 4
    ∷ jump_not_equal magic_cookie 1
    ∷ ret_constant 0xffffffff
    ∷ ret_constant 0
    ∷ []

-- For the socket of IPv4, whose packets have the IP header, and for that of IPv6. bpf.Assemble
-- keeps the instructions.
unfoldable pub get_instructions : ℕ → List Instruction × List Instruction
get_instructions dst_port = (raw_instructions 22 32 dst_port, raw_instructions 2 12 dst_port)

abbrev pub big_endian : ℕ → List ℕ → ℕ
big_endian acc [] = acc
big_endian acc (b ∷ bs) = big_endian (acc * 256 + b) bs

-- The kernel's machine, from an accumulator and a packet to the bytes that are let through: a
-- load past the packet's end ends the program with 0.
pub record IsMachine (exec : List Instruction → ℕ → List ℕ → ℕ) : Type 0 where
  pub loads :
      (off size a : ℕ) (p : List ℕ) (rest : List Instruction)
      → exec (load_absolute off size ∷ rest) a p ≡ (
          if leb (off + size) (length p)
          then exec rest (big_endian 0 (take size (drop off p))) p
          else 0)
  pub jumps :
      (value skip a : ℕ) (p : List ℕ) (rest : List Instruction)
      → exec (jump_not_equal value skip ∷ rest) a p
        ≡ (if a == value then exec rest a p else exec (drop skip rest) a p)
  pub returns :
      (value a : ℕ) (p : List ℕ) (rest : List Instruction)
      → exec (ret_constant value ∷ rest) a p ≡ value
