-- ===== src/UspConfigurer/PeerInfo.antt =====
-- iface/wg_configurer_usp.go, `findPeerInfo`: it reads the first section of the peer.
use punch.Common.{
  ℕ, ◌≡◌, refl, Bool, true, false, ◌&&◌, Option, none, some, List, [], ◌∷◌, ◌++◌, if◌then◌else◌,
  Bool-cases, Option-cases, inl, inr, ◌⊎◌, Result, ok, err, is_some, ◌==◌, nat_eq,
}
use punch.Common.Map.{Map, lookup, insert}
use punch.Text.{Text, text_eq, same_text, has_prefix, trim_space, split_lines, hex_text}
use punch.UspConfigurer.{
  Error, public_key_prefix, WgText, peer_not_found, config_key_not_found, parse_key_error,
}

-- The part of a line in front of its first "=", and the part behind it.
until_equals : Text → Text
until_equals [] = []
until_equals (c ∷ s) = let rest = c ∷ until_equals s in if c == 61 then [] else rest

after_equals : Text → Text
after_equals [] = []
after_equals (c ∷ s) = let rest = after_equals s in if c == 61 then s else rest

-- The loop over the search keys: `strings.SplitN(line, "=", 2)` into the map.
pub add_keys : Text → List Text → Map Text Text → Map Text Text
unfolding until_equals after_equals
add_keys line [] known = known
add_keys line (key ∷ keys) known =
    let known' =
      if has_prefix line (key ++ 61 ∷ [])
      then insert (until_equals line) (after_equals line) known
      else known in
    add_keys line keys known'

-- The loop of `findPeerInfo`: it stops at the next peer's key line.
unfoldable pub collect : Text → List Text → List Text → Bool → Map Text Text → Bool × Map Text Text
unfolding add_keys
collect key_line keys [] found known = (found, known)
collect key_line keys (l ∷ lines) found known =
    let line = trim_space l in
    let found' = if same_text line key_line then true else found in
    let known' = if found' then add_keys line keys known else known in
    let rest = collect key_line keys lines found' known' in
    if has_prefix line public_key_prefix && found then (found, known) else rest

unfoldable pub missing_key : List Text → Map Text Text → Option Text
missing_key [] known = none
missing_key (key ∷ keys) known =
    let rest = missing_key keys known in if is_some (lookup key known) then rest else some key

-- The map, or the first error.
pub checked : List Text → Bool × Map Text Text → Result Error (Map Text Text)
unfolding missing_key
checked keys (found, known) = elim (missing_key keys known) [
  | some key ↦ err (config_key_not_found key)
  | none ↦ if found then ok known else err peer_not_found
]

module _ {N : Type 0} (wg : WgText N) where
  unfoldable pub find_peer_info : Text → Text → List Text → Result Error (Map Text Text)
  unfolding checked collect
  find_peer_info ipc peer_key keys = elim (wg.parse_key peer_key) [
    | none ↦ err parse_key_error
    | some key ↦
        checked keys (collect (public_key_prefix ++ hex_text key) keys (split_lines ipc) false [])
  ]

-- The lines up to the next key line.
pub until_key_line : List Text → List Text
until_key_line [] = []
until_key_line (l ∷ lines) =
    let line = trim_space l in
    let rest = until_key_line lines in if has_prefix line public_key_prefix then [] else line ∷ rest

-- The peer's first section, with its key line, if it has one.
pub first_section : Text → List Text → Option (List Text)
unfolding until_key_line
first_section key_line [] = none
first_section key_line (l ∷ lines) =
    let line = trim_space l in
    let later = first_section key_line lines in
    if same_text line key_line then some (line ∷ until_key_line lines) else later

pub add_lines : List Text → List Text → Map Text Text → Map Text Text
add_lines keys [] known = known
add_lines keys (line ∷ lines) known = add_lines keys lines (add_keys line keys known)

-- Once the peer is found its section is read to the end, and no further.
collect-found :
    (key_line : Text) (keys : List Text) (lines : List Text) (known : Map Text Text)
    → has_prefix key_line public_key_prefix ≡ true
    → collect key_line keys lines true known ≡ (true, add_lines keys (until_key_line lines) known)
unfolding collect until_key_line add_lines
collect-found key_line keys [] known keyed = refl
collect-found key_line keys (l ∷ lines) known keyed =
    let line = trim_space l in
    let ih = collect-found key_line keys lines (add_keys line keys known) keyed in
    elim (Bool-cases (has_prefix line public_key_prefix)) [
      | inl next ↦ rw (next, collect) refl
      | inr inside ↦ elim (Bool-cases (same_text line key_line)) [
        | inl same ↦ rw (inside, collect, same) ih
        | inr differ ↦ rw (inside, collect, differ) ih
      ]
    ]

abbrev pub section_of : List Text → Option (List Text) → Bool × Map Text Text
section_of keys none = (false, [])
section_of keys (some lines) = (true, add_lines keys lines [])

pub collect-section :
    (key_line : Text) (keys : List Text) (lines : List Text)
    → has_prefix key_line public_key_prefix ≡ true
    → collect key_line keys lines false [] ≡ section_of keys (first_section key_line lines)
unfolding collect first_section add_lines
collect-section key_line keys [] keyed = refl
collect-section key_line keys (l ∷ lines) keyed =
    let line = trim_space l in
    elim (Bool-cases (same_text line key_line)) [
      | inl same ↦ elim (Bool-cases (has_prefix line public_key_prefix)) [
        | inl prefixed ↦
            rw (collect, same, first_section, prefixed)
              (collect-found key_line keys lines (add_keys line keys []) keyed)
        | inr not_prefixed ↦
            rw (collect, same, first_section, not_prefixed)
              (collect-found key_line keys lines (add_keys line keys []) keyed)
      ]
      | inr differ ↦ elim (Bool-cases (has_prefix line public_key_prefix)) [
        | inl prefixed ↦
            rw (collect, differ, first_section, prefixed)
              (collect-section key_line keys lines keyed)
        | inr not_prefixed ↦
            rw (collect, differ, first_section, not_prefixed)
              (collect-section key_line keys lines keyed)
      ]
    ]

-- The error for a peer that the device does not have: it is ErrPeerNotFound only where no key is
-- asked for.
abbrev pub absent_error : List Text → Error
absent_error [] = peer_not_found
absent_error (key ∷ keys) = config_key_not_found key

-- What `findPeerInfo` may return, of the peer's first section.
abbrev pub FoundInfo : List Text → Option (List Text) → Result Error (Map Text Text) → Type 0
FoundInfo keys section (ok known) =
    (lines : List Text) × (section ≡ some lines)
    × (known ≡ add_lines keys lines [])
    × (missing_key keys known ≡ none)
FoundInfo keys section (err e) =
    ((lines : List Text) × (key : Text) × (section ≡ some lines)
      × (missing_key keys (add_lines keys lines []) ≡ some key)
      × (e ≡ config_key_not_found key))
    ⊎ ((section ≡ none) × (e ≡ absent_error keys))

checked-FoundInfo :
    (keys : List Text) (section : Option (List Text))
    → FoundInfo keys section (checked keys (section_of keys section))
unfolding checked missing_key
checked-FoundInfo [] none = inr (refl, refl)
checked-FoundInfo (key ∷ keys) none = unfold lookup in inr (refl, refl)
checked-FoundInfo keys (some lines) =
    elim (Option-cases (missing_key keys (add_lines keys lines []))) [
      | inl all ↦ rw (checked, all) (lines, refl, refl, all)
      | inr (key, missing) ↦ rw (checked, missing) (inl (lines, key, refl, missing, refl))
    ]

module _ {N : Type 0} (wg : WgText N) where
  pub find_peer_info-FoundInfo :
      (ipc peer_key : Text) (keys : List Text) (key : List ℕ)
      → wg.parse_key peer_key ≡ some key
      → FoundInfo keys
          (first_section (public_key_prefix ++ hex_text key) (split_lines ipc))
          (find_peer_info wg ipc peer_key keys)
  unfolding find_peer_info
  find_peer_info-FoundInfo ipc peer_key keys key parsed =
      let key_line = public_key_prefix ++ hex_text key in
      let keyed : has_prefix key_line public_key_prefix ≡ true = unfold has_prefix in refl in
      rw (find_peer_info, parsed, collect-section key_line keys (split_lines ipc) keyed)
        (checked-FoundInfo keys (first_section key_line (split_lines ipc)))
