-- ===== src/UspConfigurer/Tests.antt =====
-- The configurer at concrete inputs: a key and a network are the bytes of their texts.
use punch.Common.{◌≡◌, refl, true, false, none, some, [], ◌∷◌, ◌++◌, ok, err}
use punch.UspConfigurer.{
  WgText, remove_allowed_ip, to_wg_userspace_string, public_key_prefix, allowed_ip_prefix,
  allowed_ip_not_found, only_peer,
}
use punch.UspConfigurer.{scan}
use punch.Text.{Text, text, trim_space, same_text, has_prefix, split_lines, hex_text}
use punch.Common.Map.{insert, lookup}
use punch.UspConfigurer.PeerInfo.{
  collect, find_peer_info, FoundInfo, first_section, find_peer_info-FoundInfo,
}
use punch.UspConfigurer.Sections.{Removal, own_lines, remove_allowed_ip-Removal}

abbrev wg : WgText Text
wg = record {
  parse_key = λ s. some (1 ∷ []);
  parse_cidr = λ s. some s;
  net_text = λ n. n;
  decimal = λ n. 48 ∷ [];
}

abbrev ipc : Text
ipc =
    text "public_key=02"
    ++ 10 ∷ text "allowed_ip=10.0.0.9/32"
    ++ 10 ∷ text "public_key=01"
    ++ 10 ∷ text "allowed_ip=10.0.0.1/32"
    ++ 10 ∷ text "allowed_ip=10.0.0.2/32"
    ++ 10 ∷ text "tx_bytes=7"
    ++ 10 ∷ []

remove_allowed_ip-Removal_example :
    Removal wg
      (1 ∷ [])
      (allowed_ip_prefix ++ text "10.0.0.1/32")
      (own_lines (public_key_prefix ++ hex_text (1 ∷ [])) (split_lines ipc) false)
      (remove_allowed_ip wg (some ipc) (text "key") (text "10.0.0.1/32"))
remove_allowed_ip-Removal_example =
    remove_allowed_ip-Removal wg ipc (text "key") (text "10.0.0.1/32") (1 ∷ []) refl

-- The other peer's allowed IP is not this peer's.
of_another_peer :
    remove_allowed_ip wg (some ipc) (text "key") (text "10.0.0.9/32") ≡ err allowed_ip_not_found
unfolding remove_allowed_ip scan split_lines trim_space same_text has_prefix hex_text
of_another_peer = refl

sends_the_rest :
    remove_allowed_ip wg (some ipc) (text "key") (text "10.0.0.1/32")
    ≡ ok (
        text "public_key=01"
        ++ 10 ∷ text "replace_allowed_ips=true"
        ++ 10 ∷ text "allowed_ip=10.0.0.2/32"
        ++ 10 ∷ [])
unfolding remove_allowed_ip scan split_lines trim_space same_text has_prefix hex_text
sends_the_rest = refl

finds_bytes :
    find_peer_info wg ipc (text "key") (text "tx_bytes" ∷ [])
    ≡ ok ((text "tx_bytes", text "7") ∷ [])
unfolding find_peer_info collect split_lines trim_space same_text has_prefix hex_text insert lookup
finds_bytes = refl

find_peer_info-FoundInfo_example :
    FoundInfo
      (text "tx_bytes" ∷ text "rx_bytes" ∷ [])
      (first_section (public_key_prefix ++ hex_text (1 ∷ [])) (split_lines ipc))
      (find_peer_info wg ipc (text "key") (text "tx_bytes" ∷ text "rx_bytes" ∷ []))
find_peer_info-FoundInfo_example =
    find_peer_info-FoundInfo wg ipc (text "key") (text "tx_bytes" ∷ text "rx_bytes" ∷ []) (1 ∷ [])
      refl

-- "remove=true" and what follows it are one line.
runs_together :
    to_wg_userspace_string wg (
      only_peer wg (record {
        public_key = 1 ∷ [];
        remove = true;
        preshared_key = none;
        endpoint = none;
        keepalive_seconds = none;
        replace_allowed_ips = true;
        allowed_ips = [];
      }))
    ≡ text "public_key=01" ++ 10 ∷ text "remove=truereplace_allowed_ips=true" ++ 10 ∷ []
unfolding to_wg_userspace_string hex_text
runs_together = refl
