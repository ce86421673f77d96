-- ===== src/KernelConfigurer/Agreement.antt =====
-- iface: the two configurers, of the kernel's device and of the one in user space, ask for the same.
use punch.Common.{
  ℕ, ◌≡◌, refl, Bool, true, false, Option, none, some, List, [], ◌∷◌, Result, ok, err, ◌>>=◌,
  if◌then◌else◌,
}
use punch.Text.{Text}
use punch.UspConfigurer
use punch.UspConfigurer.{WgText, to_wg_userspace_string, only_peer}
use punch.KernelConfigurer.{
  Error, Request, Peer, Wgctrl, Outcome, parse_key_error, parse_cidr_error, no_wgctrl, no_device,
  with_device, configure, configured, one_peer, ips_request, configure_interface, update_peer,
  remove_peer, add_allowed_ip,
}

module _ {N : Type 0} (wg : WgText N) (ctl : Wgctrl N) where
  -- What the kernel's device is asked for is what is written for the other one, without
  -- UpdateOnly; both refuse the same texts; and the kernel's device is asked for nothing else
  -- only where wgctrl or the device is missing.
  abbrev pub Same : Outcome N → Result UspConfigurer.Error Text → Type 0
  Same (some r, e) (ok t) = t ≡ to_wg_userspace_string wg r.config
  Same (none, some parse_key_error) (err e) = e ≡ UspConfigurer.parse_key_error
  Same (none, some parse_cidr_error) (err e) = e ≡ UspConfigurer.parse_cidr_error
  Same (none, some no_wgctrl) (ok t) = ctl.opens ≡ false
  Same (none, some no_device) (ok t) = ctl.device ≡ none
  Same _ _ = ⊥

  asked-Same :
      (r : Request N) (opens : Bool) (device : Option (List (Peer N)))
      → ctl.opens ≡ opens
      → ctl.device ≡ device
      → Same
          (if opens then with_device ctl.takes r device else (none, some no_wgctrl))
          (ok (to_wg_userspace_string wg r.config))
  asked-Same r false device o d = o
  asked-Same r true none o d = d
  asked-Same r true (some ps) o d = refl

  configure-Same :
      (r : Request N) → Same (configure ctl r) (ok (to_wg_userspace_string wg r.config))
  unfolding configure
  configure-Same r = asked-Same r ctl.opens ctl.device refl refl

  abbrev key_text : Option (List ℕ) → (List ℕ → Request N) → Result UspConfigurer.Error Text
  key_text key r = elim key [
    | none ↦ err UspConfigurer.parse_key_error
    | some k ↦ ok (to_wg_userspace_string wg (r k).config)
  ]

  key-Same :
      (key : Option (List ℕ)) (r : List ℕ → Request N)
      → Same
          (configured ctl (
            (elim key as (λ o. Result Error (List ℕ)) [
              | none ↦ err parse_key_error
              | some k ↦ ok k
            ])
            >>= λ k. ok (r k)))
          (key_text key r)
  key-Same none r = refl
  key-Same (some k) r = configure-Same (r k)

  abbrev net_text :
      Option N → (N → Result UspConfigurer.Error Text) → Result UspConfigurer.Error Text
  net_text net t = elim net [ none ↦ err UspConfigurer.parse_cidr_error | some n ↦ t n ]

  net-Same :
      (net : Option N) (key : Option (List ℕ)) (r : N → List ℕ → Request N)
      → Same
          (configured ctl (
            (elim net as (λ o. Result Error N) [ none ↦ err parse_cidr_error | some n ↦ ok n ])
            >>= λ n.
                (elim key as (λ o. Result Error (List ℕ)) [
                  | none ↦ err parse_key_error
                  | some k ↦ ok k
                ])
                >>= λ k. ok (r n k)))
          (net_text net (λ n. key_text key (r n)))
  net-Same none key r = refl
  net-Same (some n) key r = key-Same key (r n)

  interface-Same :
      (fwmark : ℕ) (key : Text) (port : ℕ)
      → Same
          (configure_interface wg fwmark ctl key port)
          (UspConfigurer.configure_interface wg fwmark key port)
  unfolding configure_interface UspConfigurer.configure_interface
  interface-Same fwmark key port = key-Same (wg.parse_key key) λ k. record {
    config = record {
      private_key = some k;
      listen_port = some port;
      replace_peers = true;
      firewall_mark = some fwmark;
      peers = [];
    };
    update_only = false;
  }

  update-Same :
      (key ips : Text) (keepalive : ℕ) (endpoint : Option Text) (preshared : Option (List ℕ))
      → Same
          (update_peer wg ctl key ips keepalive endpoint preshared)
          (UspConfigurer.update_peer wg key ips keepalive endpoint preshared)
  unfolding update_peer UspConfigurer.update_peer
  update-Same key ips keepalive endpoint preshared =
      net-Same (wg.parse_cidr ips) (wg.parse_key key) λ n k. one_peer wg false (record {
        public_key = k;
        remove = false;
        preshared_key = preshared;
        endpoint = endpoint;
        keepalive_seconds = some keepalive;
        replace_allowed_ips = true;
        allowed_ips = n ∷ [];
      })

  remove-Same : (key : Text) → Same (remove_peer wg ctl key) (UspConfigurer.remove_peer wg key)
  unfolding remove_peer UspConfigurer.remove_peer
  remove-Same key = key-Same (wg.parse_key key) λ k. one_peer wg false (record {
    public_key = k;
    remove = true;
    preshared_key = none;
    endpoint = none;
    keepalive_seconds = none;
    replace_allowed_ips = false;
    allowed_ips = [];
  })

  add-Same :
      (key ip : Text) → Same (add_allowed_ip wg ctl key ip) (UspConfigurer.add_allowed_ip wg key ip)
  unfolding add_allowed_ip UspConfigurer.add_allowed_ip ips_request
  add-Same key ip =
      net-Same (wg.parse_cidr ip) (wg.parse_key key) λ n k. ips_request wg k false (n ∷ [])

  -- The four operations of both configurers, on the same arguments.
  pub record Agree : Type 0 where
    pub interfaces :
        (fwmark : ℕ) (key : Text) (port : ℕ)
        → Same
            (configure_interface wg fwmark ctl key port)
            (UspConfigurer.configure_interface wg fwmark key port)
    pub updates :
        (key ips : Text) (keepalive : ℕ) (endpoint : Option Text) (preshared : Option (List ℕ))
        → Same
            (update_peer wg ctl key ips keepalive endpoint preshared)
            (UspConfigurer.update_peer wg key ips keepalive endpoint preshared)
    pub removals : (key : Text) → Same (remove_peer wg ctl key) (UspConfigurer.remove_peer wg key)
    pub additions :
        (key ip : Text)
        → Same (add_allowed_ip wg ctl key ip) (UspConfigurer.add_allowed_ip wg key ip)

  pub configurers-Agree : Agree
  configurers-Agree = record {
    interfaces = interface-Same;
    updates = update-Same;
    removals = remove-Same;
    additions = add-Same;
  }
