-- ===== src/FreeBsd/Tests.antt =====
-- iface/freebsd at concrete answers of ifconfig.
use punch.Common.{◌≡◌, refl, true, List, [], ◌∷◌, ◌++◌, ◌==◌, nat_eq}
use punch.Text.{Text, text, text_eq}
use punch.Text.Fields.{scan_lines, pos}
use punch.Common.Panics.{ok, err, panic}
use punch.FreeBsd.{
  Command, Answer, parse_ifconfig_output, parse_if_name, create_command, rename_command,
  destroy_command, recreate, del_on_rename,
}
use punch.FreeBsd.Creation.{Recreated, recreate-Recreated}
use punch.FreeBsd.Output.{Described, parse_ifconfig_output-Described}

abbrev wt0 : Text
wt0 = text "wt0"

abbrev newline : Text
newline = 10 ∷ []

abbrev output : Text
output =
    text "wt0: flags=80c1 metric 0 mtu 1420"
    ++ newline
    ++ text " inet 10.0.0.1 netmask 0xff"
    ++ newline
    ++ text " groups: wg"
    ++ newline

wt0_iface :
    parse_ifconfig_output output
    ≡ ok (record { name = wt0; mtu = pos 1420; group = text "wg"; ip_addrs = text "10.0.0.1" ∷ [] })
unfolding parse_ifconfig_output
wt0_iface = refl

-- "mtu" as the last part of the line.
mtu_last : parse_ifconfig_output (text "wt0: flags=80c1 metric mtu") ≡ panic
unfolding parse_ifconfig_output
mtu_last = refl

blank_line : parse_if_name (text "  ") ≡ panic
unfolding parse_if_name
blank_line = refl

parse_ifconfig_output-Described_example :
    Described (scan_lines output) (parse_ifconfig_output output)
parse_ifconfig_output-Described_example = parse_ifconfig_output-Described output

-- There is no interface of the name yet, and the new one cannot be renamed.
abbrev stubborn : List Command → Command → Answer
stubborn h [] = record { output = []; failed = true }
stubborn h (name ∷ []) = record { output = text "interface wt0 does not exist"; failed = true }
stubborn h (name ∷ args ∷ []) = record { output = text "wg0" ++ newline; failed = name == [] }
stubborn h (name ∷ args ∷ more ∷ rest) = record { output = []; failed = true }

recreate_leaks : recreate stubborn wt0 [] ≡ (
  (wt0 ∷ []) ∷ create_command ∷ rename_command (text "wg0") wt0 ∷ destroy_command [] ∷ [],
  err del_on_rename,
)
unfolding recreate
recreate_leaks = refl

recreate-Recreated_example : Recreated stubborn wt0 [] (recreate stubborn wt0 [])
recreate-Recreated_example = recreate-Recreated stubborn wt0 []
