-- ===== src/KernelConfigurer/Tests.antt =====
-- The kernel configurer at concrete inputs: a key and a network are the bytes of their texts.
use punch.Common.{◌≡◌, refl, true, none, some, [], ◌∷◌}
use punch.Text.{Text, text}
use punch.UspConfigurer.{WgText}
use punch.KernelConfigurer.{Peer, Wgctrl, ips_request, remove_allowed_ip, peer_not_found}
use punch.KernelConfigurer.Agreement.{Agree, configurers-Agree}
use punch.KernelConfigurer.Removal.{Removed, remove_allowed_ip-Removed}

abbrev wg : WgText Text
wg = record {
  parse_key = λ s. some s;
  parse_cidr = λ s. some s;
  net_text = λ n. n;
  decimal = λ n. 48 ∷ [];
}

abbrev peer : Peer Text
peer = record {
  key = text "key";
  allowed_ips = text "10.0.0.1/32" ∷ text "10.0.0.2/32" ∷ [];
  last_handshake_time = 0;
  transmit_bytes = 7;
  receive_bytes = 8;
}

abbrev ctl : Wgctrl Text
ctl = record { opens = true; device = some (peer ∷ []); takes = true }

sends_the_rest :
    remove_allowed_ip wg (λ k. k) ctl (text "key") (text "10.0.0.1/32")
    ≡ (some (ips_request wg (text "key") true (text "10.0.0.2/32" ∷ [])), none)
unfolding remove_allowed_ip
sends_the_rest = refl

-- The kernel configurer asks even where the peer has no such network.
sends_all :
    remove_allowed_ip wg (λ k. k) ctl (text "key") (text "10.0.0.9/32")
    ≡ (some (ips_request wg (text "key") true peer.allowed_ips), none)
unfolding remove_allowed_ip
sends_all = refl

no_such_peer :
    remove_allowed_ip wg (λ k. k) ctl (text "other") (text "10.0.0.1/32")
    ≡ (none, some peer_not_found)
unfolding remove_allowed_ip
no_such_peer = refl

remove_allowed_ip-Removed_example :
    Removed wg
      (λ k. k)
      ctl
      (text "key")
      (text "10.0.0.1/32")
      (remove_allowed_ip wg (λ k. k) ctl (text "key") (text "10.0.0.1/32"))
remove_allowed_ip-Removed_example =
    remove_allowed_ip-Removed wg (λ k. k) ctl (text "key") (text "10.0.0.1/32")

configurers-Agree_example : Agree wg ctl
configurers-Agree_example = configurers-Agree wg ctl
