-- ===== src/Config/Tests.antt =====
-- The configuration at concrete inputs.
use punch.Common.{
  String, ◌≡◌, refl, true, false, none, some, [], ◌∷◌, arith, subst, ◌==◌, string_eq, Option,
}
use punch.Config.{
  Config, ConfigInput, contains, Disk, holds, apply, slice_diff, update_or_create_config,
}
use punch.Config.Apply.{IsUsable}
use punch.Config.Files.{Saved, update_or_create_config-Saved}

abbrev input : ConfigInput
input = record {
  config_path = "config.json";
  interface_name = some "wt1";
  wireguard_port = none;
  extra_iface_black_list = "eth9" ∷ "lo" ∷ [];
}

abbrev old_config : Config
old_config = record {
  private_key = "key";
  wg_iface = "wt0";
  wg_port = 51822;
  iface_black_list = "lo" ∷ [];
}

abbrev disk : Disk
disk = record { file = holds old_config; writes = λ _. true }

IsNamed : Option String → Type 0
IsNamed none = true ≡ true
IsNamed (some name) = (name == "") ≡ false

input-IsUsable : IsUsable "new key" input
unfolding IsNamed
input-IsUsable = record {
  key_usable = refl;
  port_usable = λ port e. absurd (ground (arith, e));
  name_usable = λ name e. subst IsNamed e refl;
}

update_or_create_config-Saved_example :
    Saved input disk (update_or_create_config "new key" input disk)
update_or_create_config-Saved_example =
    update_or_create_config-Saved "new key" input disk input-IsUsable

only_new : slice_diff ("eth9" ∷ "lo" ∷ []) ("lo" ∷ []) ≡ "eth9" ∷ []
unfolding slice_diff contains
only_new = refl

-- Asked for the port 0, `apply` sets it, and then the default, in turn.
abbrev port_zero : ConfigInput
port_zero = record input {
  interface_name = none;
  wireguard_port = some 0;
  extra_iface_black_list = [];
}

port_toggles :
    ((apply "new key" port_zero old_config).0.wg_port ≡ 0)
    × ((apply "new key" port_zero (apply "new key" port_zero old_config).0).0.wg_port ≡ 51822)
unfolding apply slice_diff
port_toggles = (refl, refl)
