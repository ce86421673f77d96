-- ===== src/KernelConfigurer.antt =====
-- iface/wg_configurer_kernel_unix.go: the configuration of a WireGuard device of the kernel,
-- through wgctrl.
pub mod Agreement
pub mod Removal
mod Tests
use punch.Common.{
  ℕ, Bool, true, false, Option, none, some, List, [], ◌∷◌, ◌==◌, if◌then◌else◌, Result, ok, err,
  ◌>>=◌,
}
use punch.Text.{Text, text_eq, same_text}
use punch.UspConfigurer.{WgText, PeerConfig, WgConfig, only_peer}

pub data Error : Type 0 where
  parse_key_error parse_cidr_error : Error
  no_wgctrl no_device configure_error peer_not_found : Error

-- wgtypes.Config, whose one peer, if there is one, has UpdateOnly.
pub record Request (N : Type 0) : Type 0 where
  pub config : WgConfig N
  pub update_only : Bool

-- A peer as the device lists it.
pub record Peer (N : Type 0) : Type 0 where
  pub key : List ℕ
  pub allowed_ips : List N
  pub last_handshake_time : ℕ
  pub transmit_bytes : ℕ
  pub receive_bytes : ℕ

-- wgctrl's answers: whether it can be opened, the peers of the device of the name, if there is
-- one, and whether the device takes a configuration.
pub record Wgctrl (N : Type 0) : Type 0 where
  pub opens : Bool
  pub device : Option (List (Peer N))
  pub takes : Bool

pub record WgStats : Type 0 where
  pub last_handshake : ℕ
  pub tx_bytes : ℕ
  pub rx_bytes : ℕ

-- What ConfigureDevice was asked for, if it was called, and the error that is returned.
abbrev pub Outcome : Type 0 → Type 0
Outcome N = Option (Request N) × Option Error

module _ {N : Type 0} where
  abbrev pub with_device : Bool → Request N → Option (List (Peer N)) → Outcome N
  with_device takes r none = (none, some no_device)
  with_device takes r (some _) = (some r, if takes then none else some configure_error)

  unfoldable pub configure : Wgctrl N → Request N → Outcome N
  configure ctl r = if ctl.opens then with_device ctl.takes r ctl.device else (none, some no_wgctrl)

  abbrev pub configured : Wgctrl N → Result Error (Request N) → Outcome N
  configured ctl (err e) = (none, some e)
  configured ctl (ok r) = configure ctl r

module _ {N : Type 0} (wg : WgText N) where
  abbrev pub parsed_key : Text → Result Error (List ℕ)
  parsed_key key = elim (wg.parse_key key) [ none ↦ err parse_key_error | some k ↦ ok k ]

  abbrev pub parsed_net : Text → Result Error N
  parsed_net cidr = elim (wg.parse_cidr cidr) [ none ↦ err parse_cidr_error | some n ↦ ok n ]

  abbrev pub one_peer : Bool → PeerConfig N → Request N
  one_peer update_only p = record { config = only_peer wg p; update_only = update_only }

  -- What each operation asks the device for. `fwmark` is what `getFwmark` gives.
  unfoldable pub interface_request : ℕ → Text → ℕ → Result Error (Request N)
  interface_request fwmark private_key port = parsed_key private_key >>= λ key. ok (record {
    config = record {
      private_key = some key;
      listen_port = some port;
      replace_peers = true;
      firewall_mark = some fwmark;
      peers = [];
    };
    update_only = false;
  })

  unfoldable pub update_request :
      Text → Text → ℕ → Option Text → Option (List ℕ) → Result Error (Request N)
  update_request peer_key allowed_ips keepalive endpoint preshared_key =
      parsed_net allowed_ips >>= λ n. parsed_key peer_key >>= λ key. ok (
        one_peer false (record {
          public_key = key;
          remove = false;
          preshared_key = preshared_key;
          endpoint = endpoint;
          keepalive_seconds = some keepalive;
          replace_allowed_ips = true;
          allowed_ips = n ∷ [];
        }))

  unfoldable pub remove_request : Text → Result Error (Request N)
  remove_request peer_key = parsed_key peer_key >>= λ key. ok (
      one_peer false (record {
        public_key = key;
        remove = true;
        preshared_key = none;
        endpoint = none;
        keepalive_seconds = none;
        replace_allowed_ips = false;
        allowed_ips = [];
      }))

  -- A peer with some allowed IPs, to be changed only where the device has it.
  unfoldable pub ips_request : List ℕ → Bool → List N → Request N
  ips_request key replaces ips = one_peer true (record {
    public_key = key;
    remove = false;
    preshared_key = none;
    endpoint = none;
    keepalive_seconds = none;
    replace_allowed_ips = replaces;
    allowed_ips = ips;
  })

  unfoldable pub add_request : Text → Text → Result Error (Request N)
  unfolding ips_request
  add_request peer_key allowed_ip = parsed_net allowed_ip >>= λ n.
      parsed_key peer_key >>= λ key. ok (ips_request key false (n ∷ []))

  unfoldable pub configure_interface : ℕ → Wgctrl N → Text → ℕ → Outcome N
  unfolding interface_request configure
  configure_interface fwmark ctl private_key port =
      configured ctl (interface_request fwmark private_key port)

  unfoldable pub update_peer :
      Wgctrl N → Text → Text → ℕ → Option Text → Option (List ℕ) → Outcome N
  unfolding update_request configure
  update_peer ctl peer_key allowed_ips keepalive endpoint preshared_key =
      configured ctl (update_request peer_key allowed_ips keepalive endpoint preshared_key)

  unfoldable pub remove_peer : Wgctrl N → Text → Outcome N
  unfolding remove_request configure
  remove_peer ctl peer_key = configured ctl (remove_request peer_key)

  unfoldable pub add_allowed_ip : Wgctrl N → Text → Text → Outcome N
  unfolding add_request configure
  add_allowed_ip ctl peer_key allowed_ip = configured ctl (add_request peer_key allowed_ip)

  -- `key_text` is the key's String.
  unfoldable pub find_peer : (List ℕ → Text) → Text → List (Peer N) → Result Error (Peer N)
  unfolding same_text
  find_peer key_text peer_key [] = err peer_not_found
  find_peer key_text peer_key (p ∷ ps) =
      let rest = find_peer key_text peer_key ps in if key_text p.key == peer_key then ok p else rest

  abbrev pub in_device : (List ℕ → Text) → Text → Option (List (Peer N)) → Result Error (Peer N)
  in_device key_text peer_key none = err no_device
  in_device key_text peer_key (some ps) = find_peer key_text peer_key ps

  unfoldable pub get_peer : (List ℕ → Text) → Wgctrl N → Text → Result Error (Peer N)
  unfolding find_peer
  get_peer key_text ctl peer_key =
      if ctl.opens then in_device key_text peer_key ctl.device else err no_wgctrl

  -- The loop of removeAllowedIP takes out the first network of the same text.
  unfoldable pub without_first : Text → List N → List N
  unfolding same_text
  without_first ip [] = []
  without_first ip (n ∷ ns) =
      let rest = without_first ip ns in if wg.net_text n == ip then ns else n ∷ rest

  unfoldable pub remove_ip_request :
      (List ℕ → Text) → Wgctrl N → Text → Text → Result Error (Request N)
  unfolding get_peer without_first ips_request
  remove_ip_request key_text ctl peer_key allowed_ip = parsed_net allowed_ip >>= λ n.
      parsed_key peer_key >>= λ key. get_peer key_text ctl peer_key >>= λ p.
      ok (ips_request key true (without_first (wg.net_text n) p.allowed_ips))

  unfoldable pub remove_allowed_ip : (List ℕ → Text) → Wgctrl N → Text → Text → Outcome N
  unfolding remove_ip_request configure
  remove_allowed_ip key_text ctl peer_key allowed_ip =
      configured ctl (remove_ip_request key_text ctl peer_key allowed_ip)

  unfoldable pub get_stats : (List ℕ → Text) → Wgctrl N → Text → Result Error WgStats
  unfolding get_peer
  get_stats key_text ctl peer_key = get_peer key_text ctl peer_key >>= λ p. ok (record {
    last_handshake = p.last_handshake_time;
    tx_bytes = p.transmit_bytes;
    rx_bytes = p.receive_bytes;
  })
