-- ===== src/Ebpf.antt =====
-- client/internal/ebpf/ebpf: the manager that attaches the XDP program to `lo` and tells it, by
-- one byte of flags in a shared map, which features are on.
pub mod Features
mod Tests
use Prim.Native.Nat.{bit_or, bit_and, bit_xor}
use punch.Common.{
  ℕ, ◌+◌, ◌*◌, ◌%◌, ◌^◌, Bool, true, false, Option, none, some, ◌==◌, nat_eq, if◌then◌else◌,
}

-- The maps that the program shares with the kernel, by their fields of `bpfObjects`.
pub data BpfMap : Type 0 where
  nb_features nb_wg_proxy_settings_map nb_map_dns_ip nb_map_dns_port : BpfMap

pub data Failure : Type 0 where
  remove_memlock interface_by_name load_objects attach_xdp close_link : Failure
  put : BpfMap → Failure
  -- `ip.To4()` is nil and `Uint32` indexes it
  panic : Failure

-- What the kernel and the eBPF library answer during one call: `true` is a nil error.
pub record Kernel : Type 0 where
  pub memlock_ok : Bool
  pub interface_ok : Bool
  pub load_ok : Bool
  pub attach_ok : Bool
  pub put_features_ok : Bool
  pub put_proxy_port_ok : Bool
  pub put_wg_port_ok : Bool
  pub put_dns_ip_ok : Bool
  pub put_dns_port_ok : Bool
  pub close_link_ok : Bool

-- `link` is whether `tf.link` is not nil; the last five fields are the contents of the maps.
pub record GeneralManager : Type 0 where
  pub link : Bool
  pub feature_flags : ℕ  -- uint16
  pub features : Option ℕ
  pub proxy_port : Option ℕ
  pub wg_port : Option ℕ
  pub dns_ip : Option ℕ
  pub dns_port : Option ℕ

abbrev pub initial : GeneralManager
initial = record {
  link = false;
  feature_flags = 0;
  features = none;
  proxy_port = none;
  wg_port = none;
  dns_ip = none;
  dns_port = none;
}

abbrev pub feature_flag_wg_proxy : ℕ
feature_flag_wg_proxy = 1

abbrev pub feature_flag_dns_forwarder : ℕ
feature_flag_dns_forwarder = 2

abbrev u16 : ℕ → ℕ
u16 n = n % 2 ^ 16

set_feature_flag : ℕ → GeneralManager → GeneralManager
set_feature_flag feature tf = record tf { feature_flags = bit_or tf.feature_flags feature }

-- New objects come with empty maps; if the program cannot be attached they are closed again.
load_xdp : Kernel → GeneralManager → GeneralManager × Option Failure
load_xdp k tf =
    if tf.link
    then (tf, none)
    else if k.memlock_ok
    then if k.interface_ok
      then if k.load_ok
        then if k.attach_ok
          then (record initial { link = true; feature_flags = tf.feature_flags }, none)
          else (record initial { feature_flags = tf.feature_flags }, some attach_xdp)
        else (tf, some load_objects)
      else (tf, some interface_by_name)
    else (tf, some remove_memlock)

-- The end of both `Load` functions: the flag is set, then the byte is written to the map.
publish : Kernel → ℕ → GeneralManager → GeneralManager × Option Failure
unfolding set_feature_flag
publish k feature tf =
    let tf' = set_feature_flag feature tf in
    if k.put_features_ok
    then (record tf' { features = some tf'.feature_flags }, none)
    else (tf', some (put nb_features))

put_wg_ports : Kernel → ℕ → ℕ → GeneralManager → GeneralManager × Option Failure
unfolding publish
put_wg_ports k proxy wg tf =
    if k.put_proxy_port_ok
    then (let tf' = record tf { proxy_port = some (u16 proxy) } in
        if k.put_wg_port_ok
        then publish k feature_flag_wg_proxy (record tf' { wg_port = some (u16 wg) })
        else (tf', some (put nb_wg_proxy_settings_map)))
    else (tf, some (put nb_wg_proxy_settings_map))

-- `if err != nil { return err }` behind a step on the manager.
abbrev pub then_step :
    GeneralManager × Option Failure
    → (GeneralManager → GeneralManager × Option Failure)
    → GeneralManager × Option Failure
then_step (tf, none) next = next tf
then_step (tf, some e) next = (tf, some e)

unfoldable pub load_wg_proxy : Kernel → ℕ → ℕ → GeneralManager → GeneralManager × Option Failure
unfolding load_xdp put_wg_ports
load_wg_proxy k proxy wg tf = then_step (load_xdp k tf) (put_wg_ports k proxy wg)

-- The four bytes of an IPv4 address, most significant first; `none` is a nil `net.IP`.
ip2int : Option (ℕ × ℕ × ℕ × ℕ) → Option ℕ
ip2int none = none
ip2int (some (a, b, c, d)) = some (((a * 256 + b) * 256 + c) * 256 + d)

put_dns : Kernel → Option ℕ → ℕ → GeneralManager → GeneralManager × Option Failure
unfolding publish
put_dns k none port tf = (tf, some panic)
put_dns k (some ip) port tf =
    if k.put_dns_ip_ok
    then (let tf' = record tf { dns_ip = some ip } in
        if k.put_dns_port_ok
        then publish k feature_flag_dns_forwarder (record tf' { dns_port = some (u16 port) })
        else (tf', some (put nb_map_dns_port)))
    else (tf, some (put nb_map_dns_ip))

unfoldable pub load_dns_fwd :
    Kernel → Option (ℕ × ℕ × ℕ × ℕ) → ℕ → GeneralManager → GeneralManager × Option Failure
unfolding load_xdp ip2int put_dns
load_dns_fwd k ip port tf = then_step (load_xdp k tf) (put_dns k (ip2int ip) port)

-- The objects are closed, whatever comes of it, and with them the maps; `link` is cleared also
-- where closing it fails.
close : Kernel → GeneralManager → GeneralManager × Option Failure
close k tf =
    let tf' = record initial { feature_flags = tf.feature_flags } in
    (tf', if k.close_link_ok then none else some close_link)

-- `tf.featureFlags &^= feature` on a uint16.
unset_feature_flag : Kernel → ℕ → GeneralManager → GeneralManager × Option Failure
unfolding close
unset_feature_flag k feature tf =
    let tf' = record tf { feature_flags = bit_and tf.feature_flags (bit_xor 65535 feature) } in
    if tf.link
    then if tf'.feature_flags == 0
      then close k tf'
      else if k.put_features_ok
      then (record tf' { features = some tf'.feature_flags }, none)
      else (tf', some (put nb_features))
    else (tf', none)

unfoldable pub free_wg_proxy : Kernel → GeneralManager → GeneralManager × Option Failure
unfolding unset_feature_flag
free_wg_proxy k tf = unset_feature_flag k feature_flag_wg_proxy tf

unfoldable pub free_dns_fwd : Kernel → GeneralManager → GeneralManager × Option Failure
unfolding unset_feature_flag
free_dns_fwd k tf = unset_feature_flag k feature_flag_dns_forwarder tf
