-- ===== src/FreeBsd.antt =====
-- iface/freebsd: the links of FreeBSD, made and configured by ifconfig, whose output is read.
pub mod Creation
pub mod Lines
pub mod Output
mod Tests
use punch.Common.{
  ℕ, ◌+◌, Bool, true, false, not, Option, none, some, List, [], ◌∷◌, ◌++◌, ◌==◌, nat_eq, ltb,
  length, get_elem?, if◌then◌else◌,
}
use punch.Common.Panics
use punch.Common.Panics.{ok, err, panic, ◌>>=◌}
use punch.Text.{Text, text, text_eq, split_lines, same_text}
use punch.Text.Fields.{fields, contains_text, trim_suffix, scan_lines, atoi, ℤ}

pub data Error : Type 0 where
  does_not_exist name_does_not_match command_run parse_line no_name parse_mtu : Error
  no_output invalid_output create_link is_exist del_link rename_link : Error
  -- both errors, of the renaming and of the removal behind it
  del_on_rename set_failed : Error

abbrev pub Outcome : Type 0 → Type 0
Outcome A = Panics.Outcome Error A

pub record Iface : Type 0 where
  pub name : Text
  pub mtu : ℤ
  pub group : Text
  pub ip_addrs : List Text

unfoldable pub parse_error : Text → Option Error
unfolding contains_text
parse_error output =
    if contains_text (text "does not exist") output then some does_not_exist else none

-- The variables of the loop of parseIfconfigOutput.
pub record Found : Type 0 where
  pub name : Text
  pub mtu : Text
  pub group : Text
  pub ips : List Text

abbrev pub nothing_found : Found
nothing_found = record { name = []; mtu = []; group = []; ips = [] }

-- `parts[i]`, which panics out of range.
abbrev pub part_at : ℕ → List Text → Outcome Text
part_at i parts = elim (get_elem? parts i) [ none ↦ panic | some p ↦ ok p ]

-- `mtuIndex`: 0 where no part is "mtu".
unfoldable pub mtu_index : ℕ → List Text → ℕ
unfolding same_text
mtu_index i [] = 0
mtu_index i (p ∷ ps) = let rest = mtu_index (i + 1) ps in if p == text "mtu" then i else rest

unfoldable pub read_mtu : Text → List Text → Found → Outcome Found
unfolding contains_text mtu_index
read_mtu line parts f =
    if contains_text (text "mtu") line
    then (part_at (mtu_index 0 parts + 1) parts >>= λ mtu. ok (record f { mtu = mtu }))
    else ok f

-- A line with ": flags" names the interface.
unfoldable pub read_flags : Text → Found → Outcome Found
unfolding contains_text read_mtu fields trim_suffix
read_flags line f =
    if not (contains_text (text ": flags") line)
    then ok f
    else if ltb (length (fields line)) 4
    then err parse_line
    else (part_at 0 (fields line) >>= λ name.
        read_mtu line (fields line) (record f { name = trim_suffix (text ":") name }))

unfoldable pub read_group : Text → Found → Outcome Found
unfolding contains_text fields
read_group line f =
    if not (contains_text (text "groups:") line)
    then ok f
    else if ltb (length (fields line)) 2
    then err parse_line
    else (part_at 1 (fields line) >>= λ group. ok (record f { group = group }))

unfoldable pub read_inet : Text → Found → Outcome Found
unfolding contains_text fields
read_inet line f =
    if not (contains_text (text "inet ") line)
    then ok f
    else if ltb (length (fields line)) 2
    then err parse_line
    else (part_at 1 (fields line) >>= λ ip. ok (record f { ips = f.ips ++ ip ∷ [] }))

unfoldable pub read_line : Text → Found → Outcome Found
unfolding read_flags read_group read_inet
read_line line f = read_flags line f >>= read_group line >>= read_inet line

unfoldable pub read_lines : List Text → Found → Outcome Found
unfolding read_line
read_lines [] f = ok f
read_lines (line ∷ lines) f = read_line line f >>= read_lines lines

-- What follows the loop.
unfoldable pub to_iface : Found → Outcome Iface
unfolding atoi same_text
to_iface f = if f.name == [] then err no_name else elim (atoi f.mtu) [
  | none ↦ err parse_mtu
  | some mtu ↦ ok (record { name = f.name; mtu = mtu; group = f.group; ip_addrs = f.ips })
]

unfoldable pub parse_ifconfig_output : Text → Outcome Iface
unfolding read_lines to_iface scan_lines
parse_ifconfig_output output = read_lines (scan_lines output) nothing_found >>= to_iface

abbrev pub first_line : List Text → Text
first_line [] = []
first_line (line ∷ lines) = line

-- `fields[0]` of a line that has only white space panics.
abbrev pub only_field : List Text → Outcome Text
only_field [] = panic
only_field (name ∷ []) = ok name
only_field (name ∷ more ∷ rest) = err invalid_output

unfoldable pub parse_if_name : Text → Outcome Text
unfolding fields split_lines same_text
parse_if_name output =
    let line = first_line (split_lines output) in
    if line == [] then err no_output else only_field (fields line)

-- The arguments of one run of ifconfig, and what it answers.
abbrev pub Command : Type 0
Command = List Text

pub record Answer : Type 0 where
  pub output : Text
  pub failed : Bool

abbrev pub wg_if_group : Text
wg_if_group = text "wg"

abbrev pub create_command : Command
create_command = wg_if_group ∷ text "create" ∷ []

abbrev pub rename_command : Text → Text → Command
rename_command old new = old ∷ text "name" ∷ new ∷ []

abbrev pub destroy_command : Text → Command
destroy_command name = name ∷ text "destroy" ∷ []

abbrev pub checked_name : Text → Iface → Outcome Text
checked_name name i = if i.name == name then ok name else err name_does_not_match

abbrev pub or_error : Option Error → Error → Error
or_error none e = e
or_error (some e') e = e'

-- ifconfig's answer to a command may depend on all commands before it. The state is the list of
-- the commands so far.
module _ (ifconfig : List Command → Command → Answer) where
  unfoldable pub link_by_name : Text → List Command → List Command × Outcome Text
  unfolding parse_error parse_ifconfig_output same_text
  link_by_name name h =
      let a = ifconfig h (name ∷ []) in
      (
        h ++ (name ∷ []) ∷ [],
        if a.failed
            then err (or_error (parse_error a.output) command_run)
            else (parse_ifconfig_output a.output >>= checked_name name),
      )

  -- `create` and `rename`: a command that prints the name of the interface.
  unfoldable pub naming : Command → Error → List Command → List Command × Outcome Text
  unfolding parse_if_name
  naming c e h =
      let a = ifconfig h c in (h ++ c ∷ [], if a.failed then err e else parse_if_name a.output)

  -- `del`, `setMTU`, `setAddr`, `up` and `down`.
  unfoldable pub command : Command → Error → List Command → List Command × Outcome (Unit {0})
  command c e h = (h ++ c ∷ [], if (ifconfig h c).failed then err e else ok tt)

  unfoldable pub del : Text → List Command → List Command × Outcome (Unit {0})
  unfolding command
  del name h = command (destroy_command name) del_link h

  abbrev del_ended : List Command × Outcome (Unit {0}) → List Command × Outcome (Unit {0})
  del_ended (h, ok _) = (h, err rename_link)
  del_ended (h, err e) = (h, err del_on_rename)
  del_ended (h, panic) = (h, panic)

  -- `parsedName` is what `rename` returned: at an error it is empty.
  abbrev after_rename : List Command × Outcome Text → List Command × Outcome (Unit {0})
  after_rename (h, ok _) = (h, ok tt)
  after_rename (h, err e) = del_ended (del [] h)
  after_rename (h, panic) = (h, panic)

  abbrev after_create : Text → List Command × Outcome Text → List Command × Outcome (Unit {0})
  after_create name (h, err e) = (h, err create_link)
  after_create name (h, panic) = (h, panic)
  after_create name (h, ok parsed) =
      if parsed == name
      then (h, ok tt)
      else after_rename (naming (rename_command parsed name) rename_link h)

  unfoldable pub add : Text → List Command → List Command × Outcome (Unit {0})
  unfolding naming del same_text
  add name h = after_create name (naming create_command create_link h)

  -- isExist
  abbrev exists : Outcome Text → Outcome Bool
  exists (ok _) = ok true
  exists (err does_not_exist) = ok false
  exists (err e) = err is_exist
  exists panic = panic

  abbrev after_del : Text → List Command × Outcome (Unit {0}) → List Command × Outcome (Unit {0})
  after_del name (h, ok _) = add name h
  after_del name (h, err e) = (h, err del_link)
  after_del name (h, panic) = (h, panic)

  abbrev recreate_if : Text → List Command → Outcome Bool → List Command × Outcome (Unit {0})
  recreate_if name h (ok true) = after_del name (del name h)
  recreate_if name h (ok false) = add name h
  recreate_if name h (err e) = (h, err e)
  recreate_if name h panic = (h, panic)

  unfoldable pub recreate : Text → List Command → List Command × Outcome (Unit {0})
  unfolding link_by_name add del
  recreate name h = let (h', found) = link_by_name name h in recreate_if name h' (exists found)

  unfoldable pub assign_addr : Text → Text → Text → List Command → List Command × Outcome (Unit {0})
  unfolding command
  assign_addr name ip netmask h =
      command (name ∷ text "inet" ∷ ip ∷ text "netmask" ∷ netmask ∷ []) set_failed h

  -- `mtu` is strconv.Itoa's text.
  unfoldable pub set_mtu : Text → Text → List Command → List Command × Outcome (Unit {0})
  unfolding command
  set_mtu name mtu h = command (name ∷ text "mtu" ∷ mtu ∷ []) set_failed h

  unfoldable pub up : Text → List Command → List Command × Outcome (Unit {0})
  unfolding command
  up name h = command (name ∷ text "up" ∷ []) set_failed h

  unfoldable pub down : Text → List Command → List Command × Outcome (Unit {0})
  unfolding command
  down name h = command (name ∷ text "down" ∷ []) set_failed h
