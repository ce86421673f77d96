-- ===== src/KernelConfigurer/Removal.antt =====
-- iface/wg_configurer_kernel_unix.go: what removeAllowedIP asks the device for.
use punch.Common.{
  ℕ, ◌≡◌, ◌≢◌, refl, sym, ap, subst, Bool, true, false, Option, none, some, List, [], ◌∷◌, ◌++◌,
  ◌==◌, Result, ok, err, ◌>>=◌, if◌then◌else◌, arith,
}
use punch.Text.{Text, text_eq, same_text_iff}
use punch.Text.Fields.{All}
use punch.UspConfigurer.{WgText}
use punch.KernelConfigurer.{
  Error, Request, Peer, Wgctrl, Outcome, parse_key_error, parse_cidr_error, no_wgctrl, no_device,
  configure_error, peer_not_found, configure, configured, find_peer, in_device, get_peer,
  without_first, ips_request, remove_allowed_ip,
}

module _ {N : Type 0} (wg : WgText N) (key_text : List ℕ → Text) where
  abbrev pub NoneReads : Text → List N → Type 0
  NoneReads ip ns = All (λ (n : N). wg.net_text n ≢ ip) ns

  -- The networks with the first that reads as the given one taken out; all of them where none
  -- does.
  pub data Without (ip : Text) (old new : List N) : Type 0 where
    taken :
        (before after : List N) (n : N)
        → NoneReads ip before
        → wg.net_text n ≡ ip
        → old ≡ before ++ n ∷ after
        → new ≡ before ++ after
        → Without ip old new
    untaken : NoneReads ip old → new ≡ old → Without ip old new

  cons-Without :
      (ip : Text) (n : N) (old new : List N)
      → wg.net_text n ≢ ip
      → Without ip old new
      → Without ip (n ∷ old) (n ∷ new)
  cons-Without ip n old new ne (taken before after m unread e o w) =
      taken (n ∷ before) after m (ne, unread) e (ap (λ (ns : List N). n ∷ ns) o)
        (ap (λ (ns : List N). n ∷ ns) w)
  cons-Without ip n old new ne (untaken unread e) =
      untaken (ne, unread) (ap (λ (ns : List N). n ∷ ns) e)

  if-Without :
      (ip : Text) (n : N) (ns new : List N) (same : Bool)
      → (wg.net_text n == ip) ≡ same
      → Without ip ns new
      → Without ip (n ∷ ns) (if same then ns else n ∷ new)
  if-Without ip n ns new true e w =
      taken [] ns n tt ((same_text_iff (wg.net_text n) ip).0 e) refl refl
  if-Without ip n ns new false e w =
      cons-Without ip n ns new (λ r. ground (arith, e, (same_text_iff (wg.net_text n) ip).1 r)) w

  without_first-Without : (ip : Text) (ns : List N) → Without ip ns (without_first wg ip ns)
  unfolding without_first
  without_first-Without ip [] = untaken tt refl
  without_first-Without ip (n ∷ ns) =
      if-Without ip n ns (without_first wg ip ns) _ refl (without_first-Without ip ns)

  -- The first peer of the key, among those of the device.
  abbrev pub NoneHas : Text → List (Peer N) → Type 0
  NoneHas key ps = All (λ (p : Peer N). key_text p.key ≢ key) ps

  pub record IsFirst (key : Text) (ps : List (Peer N)) (p : Peer N) : Type 0 where
    pub before : List (Peer N)
    pub after : List (Peer N)
    pub split : ps ≡ before ++ p ∷ after
    pub others : NoneHas key before
    pub has_key : key_text p.key ≡ key

  abbrev Looked : Text → List (Peer N) → Result Error (Peer N) → Type 0
  Looked key ps (ok p) = IsFirst key ps p
  Looked key ps (err e) = (e ≡ peer_not_found) × NoneHas key ps

  cons-Looked :
      (key : Text) (p : Peer N) (ps : List (Peer N)) (r : Result Error (Peer N))
      → key_text p.key ≢ key
      → Looked key ps r
      → Looked key (p ∷ ps) r
  cons-Looked key p ps (err e) ne l = (l.0, (ne, l.1))
  cons-Looked key p ps (ok q) ne l = record {
    before = p ∷ l.before;
    after = l.after;
    split = ap (λ (qs : List (Peer N)). p ∷ qs) l.split;
    others = (ne, l.others);
    has_key = l.has_key;
  }

  if-Looked :
      (key : Text) (p : Peer N) (ps : List (Peer N)) (r : Result Error (Peer N)) (same : Bool)
      → (key_text p.key == key) ≡ same
      → Looked key ps r
      → Looked key (p ∷ ps) (if same then ok p else r)
  if-Looked key p ps r true e l = record {
    before = [];
    after = ps;
    split = refl;
    others = tt;
    has_key = (same_text_iff (key_text p.key) key).0 e;
  }
  if-Looked key p ps r false e l =
      cons-Looked key p ps r (λ h. ground (arith, e, (same_text_iff (key_text p.key) key).1 h)) l

  find_peer-Looked :
      (key : Text) (ps : List (Peer N)) → Looked key ps (find_peer wg key_text key ps)
  unfolding find_peer
  find_peer-Looked key [] = (refl, tt)
  find_peer-Looked key (p ∷ ps) =
      if-Looked key p ps (find_peer wg key_text key ps) _ refl (find_peer-Looked key ps)

  module _ (ctl : Wgctrl N) (peer_key allowed_ip : Text) where
    -- What the device is asked for: its peer of the key with the networks `new`.
    pub record IsRemoval (r : Request N) (e : Option Error) : Type 0 where
      pub peers : List (Peer N)
      pub peer : Peer N
      pub net : N
      pub key : List ℕ
      pub new : List N
      pub listed : ctl.device ≡ some peers
      pub first : IsFirst peer_key peers peer
      pub net_read : wg.parse_cidr allowed_ip ≡ some net
      pub key_read : wg.parse_key peer_key ≡ some key
      pub without : Without (wg.net_text net) peer.allowed_ips new
      pub asked : r ≡ ips_request wg key true new
      pub answered : e ≡ (if ctl.takes then none else some configure_error)

    abbrev pub Removed : Outcome N → Type 0
    Removed (some r, e) = IsRemoval r e
    Removed (none, some parse_cidr_error) = wg.parse_cidr allowed_ip ≡ none
    Removed (none, some parse_key_error) = wg.parse_key peer_key ≡ none
    Removed (none, some no_wgctrl) = ctl.opens ≡ false
    Removed (none, some no_device) = ctl.device ≡ none
    Removed (none, some peer_not_found) =
        (peers : List (Peer N)) × (ctl.device ≡ some peers) × NoneHas peer_key peers
    Removed _ = ⊥

    configure-present :
        (r : Request N) (ps : List (Peer N))
        → ctl.opens ≡ true
        → ctl.device ≡ some ps
        → configure ctl r ≡ (some r, if ctl.takes then none else some configure_error)
    unfolding configure
    configure-present r ps o d = ground (arith, o, d)

    sent-Removed :
        (n : N) (key : List ℕ) (ps : List (Peer N)) (found : Result Error (Peer N))
        → wg.parse_cidr allowed_ip ≡ some n
        → wg.parse_key peer_key ≡ some key
        → ctl.opens ≡ true
        → ctl.device ≡ some ps
        → Looked peer_key ps found
        → Removed (
            configured ctl (
              found >>= λ p.
              ok (ips_request wg key true (without_first wg (wg.net_text n) p.allowed_ips))))
    sent-Removed n key ps (err e) rn rk o d l =
        subst (λ (x : Error). Removed (none, some x)) (sym l.0) (ps, d, l.1)
    sent-Removed n key ps (ok p) rn rk o d l =
        let new = without_first wg (wg.net_text n) p.allowed_ips in
        subst Removed (sym (configure-present (ips_request wg key true new) ps o d)) (record {
          peers = ps;
          peer = p;
          net = n;
          key = key;
          new = new;
          listed = d;
          first = l;
          net_read = rn;
          key_read = rk;
          without = without_first-Without (wg.net_text n) p.allowed_ips;
          asked = refl;
          answered = refl;
        })

    device-Removed :
        (n : N) (key : List ℕ) (opens : Bool) (device : Option (List (Peer N)))
        → wg.parse_cidr allowed_ip ≡ some n
        → wg.parse_key peer_key ≡ some key
        → ctl.opens ≡ opens
        → ctl.device ≡ device
        → Removed (
            configured ctl (
              (if opens then in_device wg key_text peer_key device else err no_wgctrl) >>= λ p.
              ok (ips_request wg key true (without_first wg (wg.net_text n) p.allowed_ips))))
    device-Removed n key false device rn rk o d = o
    device-Removed n key true none rn rk o d = d
    device-Removed n key true (some ps) rn rk o d =
        sent-Removed n key ps (find_peer wg key_text peer_key ps) rn rk o d
          (find_peer-Looked peer_key ps)

    read-Removed :
        (net : Option N) (key : Option (List ℕ))
        → wg.parse_cidr allowed_ip ≡ net
        → wg.parse_key peer_key ≡ key
        → Removed (
            configured ctl (
              (elim net as (λ o. Result Error N) [ none ↦ err parse_cidr_error | some n ↦ ok n ])
              >>= λ n.
                  (elim key as (λ o. Result Error (List ℕ)) [
                    | none ↦ err parse_key_error
                    | some k ↦ ok k
                  ])
                  >>= λ k. get_peer wg key_text ctl peer_key >>= λ p.
                      ok (ips_request wg k true (without_first wg (wg.net_text n) p.allowed_ips))))
    unfolding get_peer
    read-Removed none key rn rk = rn
    read-Removed (some n) none rn rk = rk
    read-Removed (some n) (some key) rn rk =
        device-Removed n key ctl.opens ctl.device rn rk refl refl

    -- The kernel configurer's removeAllowedIP asks for the first peer of the key, with all of its
    -- networks but the first that reads as the given one, in their order, or with all of them
    -- where none does; so it always asks, and returns what wgctrl answers, where both texts
    -- parse and the device lists the peer. Otherwise it asks for nothing, and the error says
    -- what is missing.
    pub remove_allowed_ip-Removed : Removed (remove_allowed_ip wg key_text ctl peer_key allowed_ip)
    unfolding remove_allowed_ip
    remove_allowed_ip-Removed =
        read-Removed (wg.parse_cidr allowed_ip) (wg.parse_key peer_key) refl refl
