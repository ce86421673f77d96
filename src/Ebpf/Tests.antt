-- ===== src/Ebpf/Tests.antt =====
-- The eBPF manager at concrete inputs.
use punch.Common.{◌≡◌, refl, true, false, none, some, List, [], ◌∷◌}
use punch.Ebpf.{Kernel, GeneralManager, initial, load_wg_proxy, put, nb_features}
use punch.Ebpf.Features.{
  Call, Holds, load_wg, load_dns, free_wg, call, settle_all, run, seen, shown_all, run-Holds,
}

abbrev healthy : Kernel
healthy = record {
  memlock_ok = true;
  interface_ok = true;
  load_ok = true;
  attach_ok = true;
  put_features_ok = true;
  put_proxy_port_ok = true;
  put_wg_port_ok = true;
  put_dns_ip_ok = true;
  put_dns_port_ok = true;
  close_link_ok = true;
}

abbrev stuck_map : Kernel
stuck_map = record healthy { put_features_ok = false }

-- The flag stays set where the byte could not be written.
flag_without_byte :
    let (tf, e) = load_wg_proxy stuck_map 3128 51820 initial in
    (tf.feature_flags ≡ 1) × (tf.features ≡ none) × (e ≡ some (put nb_features))
unfolding load_wg_proxy
flag_without_byte = (refl, refl, refl)

abbrev both_on : GeneralManager
both_on = record initial { link = true; feature_flags = 3; features = some 3 }

abbrev script : List (Kernel × Call)
script =
    (healthy, load_wg 3128 51820)
    ∷ (stuck_map, load_dns (some (127, 0, 0, 1)) 53)
    ∷ (healthy, free_wg)
    ∷ []

run-Holds_example :
    Holds (record { wg = false; dns = true }) (run script initial)
    × (seen (run script initial) ≡ some 2)
unfolding run settle_all shown_all call
run-Holds_example = run-Holds script
