-- ===== src/UspConfigurer.antt =====
-- iface/wg_configurer_usp.go: the configuration of the WireGuard device in user space, in the
-- text of its IPC protocol.
pub mod Sections
pub mod PeerInfo
mod Tests
use punch.Common.{
  ℕ, String, Bool, true, false, ◌&&◌, Option, none, some, List, [], ◌∷◌, ◌++◌, length, drop,
  if◌then◌else◌, Result, ok, err,
}
use punch.Text.{Text, text, same_text, has_prefix, trim_space, split_lines, hex_text}

abbrev pub public_key_prefix : Text
public_key_prefix = text "public_key="

abbrev pub allowed_ip_prefix : Text
allowed_ip_prefix = text "allowed_ip="

-- wgtypes.ParseKey, net.ParseCIDR (of which the network is used), a network's String, and a
-- number in decimal.
pub record WgText (N : Type 0) : Type 0 where
  pub parse_key : Text → Option (List ℕ)
  pub parse_cidr : Text → Option N
  pub net_text : N → Text
  pub decimal : ℕ → Text

-- UpdateOnly, which two operations set, is never written, so it is left out.
pub record PeerConfig (N : Type 0) : Type 0 where
  pub public_key : List ℕ
  pub remove : Bool
  pub preshared_key : Option (List ℕ)
  pub endpoint : Option Text
  pub keepalive_seconds : Option ℕ
  pub replace_allowed_ips : Bool
  pub allowed_ips : List N

pub record WgConfig (N : Type 0) : Type 0 where
  pub private_key : Option (List ℕ)
  pub listen_port : Option ℕ
  pub replace_peers : Bool
  pub firewall_mark : Option ℕ
  pub peers : List (PeerConfig N)

pub data Error : Type 0 where
  ipc_get parse_key_error parse_cidr_error allowed_ip_not_found peer_not_found : Error
  config_key_not_found : Text → Error

line_of : Text → Text → Text
line_of key value = key ++ value ++ 10 ∷ []

optional : {A : Type 0} → Text → (A → Text) → Option A → Text
unfolding line_of
optional key show none = []
optional key show (some a) = line_of key (show a)

module _ {N : Type 0} (wg : WgText N) where
  allowed_lines : List N → Text
  unfolding line_of
  allowed_lines [] = []
  allowed_lines (n ∷ ns) = line_of allowed_ip_prefix (wg.net_text n) ++ allowed_lines ns

  -- There is no newline behind "remove=true".
  peer_text : PeerConfig N → Text
  unfolding allowed_lines optional
  peer_text p =
      line_of public_key_prefix (hex_text p.public_key)
      ++ optional (text "preshared_key=") hex_text p.preshared_key
      ++ (if p.remove then text "remove=true" else [])
      ++ (if p.replace_allowed_ips then line_of (text "replace_allowed_ips=") (text "true") else [])
      ++ allowed_lines p.allowed_ips
      ++ optional (text "endpoint=") (λ e. e) p.endpoint
      ++ optional (text "persistent_keepalive_interval=") wg.decimal p.keepalive_seconds

  peers_text : List (PeerConfig N) → Text
  unfolding peer_text
  peers_text [] = []
  peers_text (p ∷ ps) = peer_text p ++ peers_text ps

  unfoldable pub to_wg_userspace_string : WgConfig N → Text
  unfolding peers_text optional
  to_wg_userspace_string c =
      optional (text "private_key=") hex_text c.private_key
      ++ optional (text "listen_port=") wg.decimal c.listen_port
      ++ (if c.replace_peers then line_of (text "replace_peers=") (text "true") else [])
      ++ optional (text "fwmark=") wg.decimal c.firewall_mark
      ++ peers_text c.peers

  abbrev pub only_peer : PeerConfig N → WgConfig N
  only_peer p = record {
    private_key = none;
    listen_port = none;
    replace_peers = false;
    firewall_mark = none;
    peers = p ∷ [];
  }

  -- The flag after a line: a key line of another peer resets it, the peer's own sets it.
  pub next_found : Text → Text → Bool → Bool
  next_found key_line line found =
      let reset = if has_prefix line public_key_prefix && found then false else found in
      if same_text line key_line then true else reset

  mark_removed : Result Error (Bool × List N) → Result Error (Bool × List N)
  mark_removed (err e) = err e
  mark_removed (ok (removed, ips)) = ok (true, ips)

  keep_ip : Option N → Result Error (Bool × List N) → Result Error (Bool × List N)
  keep_ip none rest = err parse_cidr_error
  keep_ip (some n) (err e) = err e
  keep_ip (some n) (ok (removed, ips)) = ok (removed, n ∷ ips)

  -- One line of the peer, in front of what the later lines give.
  pub take_line : Text → Text → Result Error (Bool × List N) → Result Error (Bool × List N)
  unfolding mark_removed keep_ip
  take_line ip_line line rest =
      if same_text line ip_line
      then mark_removed rest
      else if has_prefix line allowed_ip_prefix
      then keep_ip (wg.parse_cidr (drop (length allowed_ip_prefix) line)) rest
      else rest

  -- The loop of `removeAllowedIP`: whether the IP was there, and the networks that stay.
  unfoldable pub scan : Text → Text → List Text → Bool → Result Error (Bool × List N)
  unfolding next_found take_line
  scan key_line ip_line [] found = ok (false, [])
  scan key_line ip_line (l ∷ lines) found =
      let line = trim_space l in
      let found' = next_found key_line line found in
      let rest = scan key_line ip_line lines found' in
      if found' then take_line ip_line line rest else rest

  -- The peer with some allowed IPs in place of those that it has.
  pub replacing : List ℕ → List N → WgConfig N
  replacing key ips = only_peer (record {
    public_key = key;
    remove = false;
    preshared_key = none;
    endpoint = none;
    keepalive_seconds = none;
    replace_allowed_ips = true;
    allowed_ips = ips;
  })

  pub kept_peer : List ℕ → Result Error (Bool × List N) → Result Error Text
  unfolding to_wg_userspace_string replacing
  kept_peer key (err e) = err e
  kept_peer key (ok (false, ips)) = err allowed_ip_not_found
  kept_peer key (ok (true, ips)) = ok (to_wg_userspace_string (replacing key ips))

  -- What `removeAllowedIP` hands to IpcSet; `ipc` is IpcGet's answer.
  unfoldable pub remove_allowed_ip : Option Text → Text → Text → Result Error Text
  unfolding kept_peer
  remove_allowed_ip none peer_key ip = err ipc_get
  remove_allowed_ip (some ipc) peer_key ip = elim (wg.parse_key peer_key) [
    | none ↦ err parse_key_error
    | some key ↦
        kept_peer key (
          scan (public_key_prefix ++ hex_text key) (allowed_ip_prefix ++ ip) (split_lines ipc)
            false)
  ]

module _ {N : Type 0} (wg : WgText N) where
  -- What the four operations hand to IpcSet. `fwmark` is what `getFwmark` gives.
  unfoldable pub configure_interface : ℕ → Text → ℕ → Result Error Text
  configure_interface fwmark private_key port = elim (wg.parse_key private_key) [
    | none ↦ err parse_key_error
    | some key ↦ ok (
        to_wg_userspace_string wg (record {
          private_key = some key;
          listen_port = some port;
          replace_peers = true;
          firewall_mark = some fwmark;
          peers = [];
        }))
  ]

  with_key : Text → (List ℕ → PeerConfig N) → Result Error Text
  with_key peer_key peer = elim (wg.parse_key peer_key) [
    | none ↦ err parse_key_error
    | some key ↦ ok (to_wg_userspace_string wg (only_peer wg (peer key)))
  ]

  with_net : Text → (N → Result Error Text) → Result Error Text
  with_net cidr rest = elim (wg.parse_cidr cidr) [ none ↦ err parse_cidr_error | some n ↦ rest n ]

  unfoldable pub update_peer : Text → Text → ℕ → Option Text → Option (List ℕ) → Result Error Text
  unfolding with_key with_net
  update_peer peer_key allowed_ips keepalive endpoint preshared_key = with_net allowed_ips (λ n.
      with_key peer_key (λ key. record {
        public_key = key;
        remove = false;
        preshared_key = preshared_key;
        endpoint = endpoint;
        keepalive_seconds = some keepalive;
        replace_allowed_ips = true;
        allowed_ips = n ∷ [];
      }))

  unfoldable pub remove_peer : Text → Result Error Text
  unfolding with_key
  remove_peer peer_key = with_key peer_key (λ key. record {
    public_key = key;
    remove = true;
    preshared_key = none;
    endpoint = none;
    keepalive_seconds = none;
    replace_allowed_ips = false;
    allowed_ips = [];
  })

  unfoldable pub add_allowed_ip : Text → Text → Result Error Text
  unfolding with_key with_net
  add_allowed_ip peer_key allowed_ip = with_net allowed_ip (λ n. with_key peer_key (λ key. record {
    public_key = key;
    remove = false;
    preshared_key = none;
    endpoint = none;
    keepalive_seconds = none;
    replace_allowed_ips = false;
    allowed_ips = n ∷ [];
  }))
