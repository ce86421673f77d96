-- ===== src/Stdnet.antt =====
-- client/internal/stdnet: the filter of interfaces, and the text in which a mobile app lists them.
pub mod Lines
mod Tests
use punch.Common.{
  ℕ, ◌+◌, Bool, true, false, not, ◌&&◌, Option, none, some, List, [], ◌∷◌, ◌++◌, ◌==◌, nat_eq,
  length, if◌then◌else◌, Result, ok, err,
}
use punch.Text.{Text, text, has_prefix, trim_space}
use punch.Text.Fields.{ℤ}
use punch.Text.Split.{split_on, has, trim}

-- wgctrl's answer to InterfaceFilter: there is no client, or its Device fails or finds a device.
pub data WgAnswer : Type 0 where
  no_client no_device device : WgAnswer

unfoldable pub is_disallowed : Bool → Text → List Text → Bool
unfolding has_prefix
is_disallowed ios iface [] = false
is_disallowed ios iface (s ∷ disallow_list) =
    let rest = is_disallowed ios iface disallow_list in
    if has_prefix iface s && not ios then true else rest

-- InterfaceFilter; `ios` is whether it runs on that system.
unfoldable pub interface_filter : Bool → (Text → WgAnswer) → List Text → Text → Bool
unfolding is_disallowed has_prefix
interface_filter ios wg disallow_list iface =
    if has_prefix iface (text "lo")
    then false
    else if is_disallowed ios iface disallow_list
    then false
    else elim (wg iface) [ no_client ↦ true | no_device ↦ true | device ↦ false ]

-- What Sscanf reads of the part in front of the bar.
pub record Scanned : Type 0 where
  pub name : Text
  pub index : ℤ
  pub mtu : ℤ
  pub up : Bool
  pub broadcast : Bool
  pub loopback : Bool
  pub point_to_point : Bool
  pub multicast : Bool

-- A transport.Interface with the addresses that were added, each of which is an `A`.
pub record Interface (A : Type 0) : Type 0 where
  pub name : Text
  pub index : ℤ
  pub mtu : ℤ
  pub flags : ℕ
  pub addrs : List A

-- fmt.Sscanf with the format of the source, and net.ParseCIDR with the address put into the net.
pub record Parsers (A : Type 0) : Type 0 where
  pub sscanf : Text → Option Scanned
  pub parse_cidr : Text → Option A

abbrev pub flag : Bool → ℕ → ℕ
flag on bit = if on then bit else 0

-- The flags are the bits that net.FlagUp and the others name.
unfoldable pub flags_of : Scanned → ℕ
flags_of s =
    flag s.up 1
    + flag s.broadcast 2
    + flag s.loopback 4
    + flag s.point_to_point 8
    + flag s.multicast 16

module _ {A : Type 0} (parsers : Parsers A) where
  abbrev pub and_addr : Option A → List A → List A
  and_addr none addrs = addrs
  and_addr (some a) addrs = a ∷ addrs

  -- The loop over the addresses; one with a zone is left out.
  unfoldable pub parse_addrs : List Text → List A
  unfolding has
  parse_addrs [] = []
  parse_addrs (addr ∷ addrs) =
      let rest = parse_addrs addrs in
      if has b'%' addr then rest else and_addr (parsers.parse_cidr addr) rest

  -- An interface is kept where an address was found.
  pub with_addrs : Scanned → List A → List (Interface A)
  unfolding flags_of
  with_addrs s [] = []
  with_addrs s (a ∷ addrs) =
      record { name = s.name; index = s.index; mtu = s.mtu; flags = flags_of s; addrs = a ∷ addrs }
      ∷ []

  parse_scanned : Option Scanned → Text → List (Interface A)
  unfolding parse_addrs with_addrs split_on trim
  parse_scanned none addrs = []
  parse_scanned (some s) addrs =
      with_addrs s (parse_addrs (split_on b' ' (trim (text " \n") addrs)))

  parse_fields : List Text → List (Interface A)
  unfolding parse_scanned
  parse_fields (front ∷ addrs ∷ []) = parse_scanned (parsers.sscanf front) addrs
  parse_fields parts = []

  unfoldable pub parse_line : Text → List (Interface A)
  unfolding parse_fields split_on trim_space
  parse_line iface =
      if length (trim_space iface) == 0 then [] else parse_fields (split_on b'|' iface)

  unfoldable pub parse_lines : List Text → List (Interface A)
  unfolding parse_line
  parse_lines [] = []
  parse_lines (iface ∷ ifaces) = parse_line iface ++ parse_lines ifaces

  unfoldable pub parse_interfaces_string : Text → List (Interface A)
  unfolding parse_lines split_on
  parse_interfaces_string interfaces = parse_lines (split_on b'\n' interfaces)

  -- `iFaces`, of what the app returns.
  unfoldable pub i_faces : {E : Type 0} → Result E Text → Result E (List (Interface A))
  unfolding parse_interfaces_string
  i_faces (err e) = err e
  i_faces (ok interfaces) = ok (parse_interfaces_string interfaces)
