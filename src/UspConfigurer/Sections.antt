-- ===== src/UspConfigurer/Sections.antt =====
-- iface/wg_configurer_usp.go: the two loops over the device's text, against the lines that
-- belong to a peer.
use punch.Common.{
  ℕ, ◌≡◌, refl, sym, Bool, true, false, ◌&&◌, Option, none, some, List, [], ◌∷◌, ◌++◌, nat_eq,
  length, drop, if◌then◌else◌, Bool-cases, Option-cases, inl, inr, ◌⊎◌, Result, ok, err, not, ◌||◌,
  arith, subst,
}
use punch.Text.{Text, same_text, same_text_iff, has_prefix, trim_space, split_lines, hex_text}
use punch.UspConfigurer.{
  allowed_ip_not_found, kept_peer, replacing, to_wg_userspace_string, Error, parse_cidr_error,
  public_key_prefix, allowed_ip_prefix, WgText, next_found, take_line, scan, remove_allowed_ip,
}

-- Whether a line belongs to the peer: the last key line up to it is the peer's.
pub owned : Text → Text → Bool → Bool
owned key_line line before =
    if has_prefix line public_key_prefix then same_text line key_line else before

-- The peer's lines, without the white space around them.
pub own_lines : Text → List Text → Bool → List Text
unfolding owned
own_lines key_line [] before = []
own_lines key_line (l ∷ lines) before =
    let line = trim_space l in
    let now = owned key_line line before in
    let rest = own_lines key_line lines now in if now then line ∷ rest else rest

-- What stays of a peer's lines when an IP is removed: the other allowed IPs.
pub kept_lines : Text → List Text → List Text
kept_lines ip_line [] = []
kept_lines ip_line (line ∷ lines) =
    let rest = kept_lines ip_line lines in
    if has_prefix line allowed_ip_prefix && not (same_text line ip_line) then line ∷ rest else rest

pub has_line : Text → List Text → Bool
has_line ip_line [] = false
has_line ip_line (line ∷ lines) = same_text line ip_line || has_line ip_line lines

module _ {N : Type 0} (wg : WgText N) where
  -- The networks of some lines, if all of them parse.
  pub networks : List Text → Option (List N)
  networks [] = some []
  networks (line ∷ lines) = elim (wg.parse_cidr (drop (length allowed_ip_prefix) line)) [
    | none ↦ none
    | some n ↦ elim (networks lines) [ none ↦ none | some ns ↦ some (n ∷ ns) ]
  ]

  pub remaining : Text → List Text → Result Error (Bool × List N)
  unfolding networks kept_lines has_line
  remaining ip_line lines = elim (networks (kept_lines ip_line lines)) [
    | none ↦ err parse_cidr_error
    | some ns ↦ ok (has_line ip_line lines, ns)
  ]

  next_found-owned :
      (key_line line : Text) (before : Bool)
      → has_prefix key_line public_key_prefix ≡ true
      → next_found wg key_line line before ≡ owned key_line line before
  unfolding next_found owned
  next_found-owned key_line line before keyed = elim (Bool-cases (same_text line key_line)) [
    | inl same ↦
        let e = (same_text_iff line key_line).0 same in
        let prefixed : has_prefix line public_key_prefix ≡ true =
          subst (λ (x : Text). has_prefix x public_key_prefix ≡ true) (sym e) keyed in
        rw (same, prefixed) refl
    | inr differ ↦ rw differ (elim (Bool-cases (has_prefix line public_key_prefix)) [
      | inl prefixed ↦ ground (arith, prefixed)
      | inr not_prefixed ↦ rw not_prefixed refl
    ])
  ]

  take_line-remaining :
      (ip_line line : Text) (lines : List Text)
      → has_prefix ip_line allowed_ip_prefix ≡ true
      → take_line wg ip_line line (remaining ip_line lines) ≡ remaining ip_line (line ∷ lines)
  unfolding take_line remaining
  take_line-remaining ip_line line lines keyed =
      let kept = kept_lines ip_line lines in
      elim (Bool-cases (same_text line ip_line)) [
        | inl same ↦
            let prefixed : has_prefix line allowed_ip_prefix ≡ true =
              subst (λ (x : Text). has_prefix x allowed_ip_prefix ≡ true)
                (sym ((same_text_iff line ip_line).0 same)) keyed in
            elim (Option-cases (networks kept)) [
              | inl bad ↦ rw (take_line, same, prefixed, remaining, bad) refl
              | inr (ns, good) ↦
                  rw (take_line, same, prefixed, remaining, good, has_line, same) refl
            ]
        | inr differ ↦ elim (Bool-cases (has_prefix line allowed_ip_prefix)) [
          | inr not_prefixed ↦ elim (Option-cases (networks kept)) [
            | inl bad ↦ rw (take_line, differ, not_prefixed, remaining, bad) refl
            | inr (ns, good) ↦
                rw (take_line, differ, not_prefixed, remaining, good, has_line, differ) refl
          ]
          | inl prefixed ↦
              elim (Option-cases (wg.parse_cidr (drop (length allowed_ip_prefix) line))) [
                | inl unparsed ↦
                    rw (take_line, differ, prefixed, remaining, networks, unparsed) refl
                | inr (n, parsed) ↦ elim (Option-cases (networks kept)) [
                  | inl bad ↦
                      rw (take_line, differ, prefixed, remaining, bad, networks, parsed, bad) refl
                  | inr (ns, good) ↦
                      rw
                        (
                          take_line, differ, prefixed, remaining, good, networks, parsed, good,
                          has_line, differ,
                        )
                        refl
                ]
              ]
        ]
      ]

  -- The loop of `removeAllowedIP` over any lines gives what remains of the peer's own.
  pub scan-remaining :
      (key_line ip_line : Text) (lines : List Text) (before : Bool)
      → has_prefix key_line public_key_prefix ≡ true
      → has_prefix ip_line allowed_ip_prefix ≡ true
      → scan wg key_line ip_line lines before ≡ remaining ip_line (own_lines key_line lines before)
  unfolding scan own_lines
  scan-remaining key_line ip_line [] before keyed ip_keyed = unfold remaining in refl
  scan-remaining key_line ip_line (l ∷ lines) before keyed ip_keyed =
      let line = trim_space l in
      let now = owned key_line line before in
      let ih = scan-remaining key_line ip_line lines now keyed ip_keyed in
      elim (Bool-cases now) [
        | inl mine ↦
            rw (next_found-owned key_line line before keyed, ih, mine)
              (take_line-remaining ip_line line _ ip_keyed)
        | inr not_mine ↦ rw (next_found-owned key_line line before keyed, ih, not_mine) refl
      ]

  -- What `removeAllowedIP` may return, of the peer's own lines.
  abbrev pub Removal : List ℕ → Text → List Text → Result Error Text → Type 0
  Removal key ip_line own (ok sent) =
      (has_line ip_line own ≡ true)
      × ((ips : List N) × (networks (kept_lines ip_line own) ≡ some ips)
          × (sent ≡ to_wg_userspace_string wg (replacing wg key ips)))
  Removal key ip_line own (err e) =
      ((e ≡ parse_cidr_error) × (networks (kept_lines ip_line own) ≡ none))
      ⊎ ((e ≡ allowed_ip_not_found) × (has_line ip_line own ≡ false))

  kept_peer-Removal :
      (key : List ℕ) (ip_line : Text) (own : List Text)
      → Removal key ip_line own (kept_peer wg key (remaining ip_line own))
  unfolding kept_peer remaining
  kept_peer-Removal key ip_line own = elim (Option-cases (networks (kept_lines ip_line own))) [
    | inl bad ↦ rw (remaining, bad) (inl (refl, bad))
    | inr (ips, good) ↦ elim (Bool-cases (has_line ip_line own)) [
      | inl has ↦ rw (remaining, good, has) (has, (ips, good, refl))
      | inr has_not ↦ rw (remaining, good, has_not) (inr (refl, has_not))
    ]
  ]

  pub remove_allowed_ip-Removal :
      (ipc peer_key ip : Text) (key : List ℕ)
      → wg.parse_key peer_key ≡ some key
      → Removal key
          (allowed_ip_prefix ++ ip)
          (own_lines (public_key_prefix ++ hex_text key) (split_lines ipc) false)
          (remove_allowed_ip wg (some ipc) peer_key ip)
  unfolding remove_allowed_ip
  remove_allowed_ip-Removal ipc peer_key ip key parsed =
      let lines = split_lines ipc in
      let key_line = public_key_prefix ++ hex_text key in
      let ip_line = allowed_ip_prefix ++ ip in
      let keyed : has_prefix key_line public_key_prefix ≡ true = unfold has_prefix in refl in
      let ip_keyed : has_prefix ip_line allowed_ip_prefix ≡ true = unfold has_prefix in refl in
      rw (remove_allowed_ip, parsed, scan-remaining key_line ip_line lines false keyed ip_keyed)
        (kept_peer-Removal key ip_line (own_lines key_line lines false))
