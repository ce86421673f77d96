-- ===== src/Signal/Directory.antt =====
-- The server as a directory: for each token a map from the client's id to what is known of it.
use punch.Common.{
  ℕ, String, ◌≡◌, refl, ap, ◌∙◌, sym, subst, true, false, Option, none, some, List, [], ◌∷◌, ◌++◌,
  map, ◌==◌, nat_eq, string_eq, eq_refl, if◌then◌else◌, is_some, arith, Bool-cases, inl, inr,
}
use punch.Common.Map.{Map, lookup, insert, erase, lookup-insert}
use punch.Signal.{
  Peer, PeerLogin, PeerConfig, Changes, PeerTable, IsTable, update_row, has_client, other_clients,
  config_of, or_old_text, or_old_number, register, get_clients,
}

pub record Info : Type 0 where
  pub ip : String
  pub port : ℕ
  pub wg_pub_key : String
  pub token : String
  pub allowed_ip : String

unfoldable pub info_of : Peer → Info
info_of p = record {
  ip = p.ip;
  port = p.port;
  wg_pub_key = p.wg_pub_key;
  token = p.token;
  allowed_ip = p.allowed_ip;
}

unfoldable pub entries : List Peer → Map String Info
unfolding info_of
entries [] = []
entries (p ∷ rest) = (p.client_id, info_of p) ∷ entries rest

-- What a login makes of what was known: a new client has all of it; a known one keeps its
-- allowed IP, and also what the login leaves empty.
pub merge : PeerLogin → Option Info → Info
unfolding or_old_text or_old_number
merge login none = record {
  ip = login.ip;
  port = login.port;
  wg_pub_key = login.wg_pub_key;
  token = login.token;
  allowed_ip = login.allowed_ip;
}
merge login (some old) = record old {
  ip = or_old_text login.ip old.ip;
  port = or_old_number login.port old.port;
  wg_pub_key = or_old_text login.wg_pub_key old.wg_pub_key;
}

pub enroll : PeerLogin → Map String Info → Map String Info
unfolding merge
enroll login known = insert login.client_id (merge login (lookup login.client_id known)) known

unfoldable pub config : String × Info → PeerConfig
config (client_id, info) = record {
  ip = info.ip;
  port = info.port;
  client_id = client_id;
  wg_pub_key = info.wg_pub_key;
  token = info.token;
  allowed_ip = info.allowed_ip;
  last_keep_alive_at = "";
}

-- No client has two entries.
unfoldable pub IsUnique : Map String Info → Type 0
IsUnique [] = Unit {0}
IsUnique ((client_id, _) ∷ rest) = (lookup client_id rest ≡ none) × IsUnique rest

pub changes_of : PeerLogin → Changes
changes_of login = record { wg_pub_key = login.wg_pub_key; ip = login.ip; port = login.port }

insert-IsUnique :
    (client_id : String) (info : Info) (known : Map String Info)
    → IsUnique known
    → IsUnique (insert client_id info known)
unfolding IsUnique insert lookup
insert-IsUnique client_id info [] u = (refl, tt)
insert-IsUnique client_id info ((at, old) ∷ rest) (fresh, u) =
    let later = insert-IsUnique client_id info rest u in
    elim (Bool-cases (at == client_id)) [
      | inl same ↦ rw same (fresh, u)
      | inr differ ↦ rw differ (
        ground (
          arith,
          lookup-insert client_id at info rest,
          string_eq.same_iff client_id at,
          string_eq.same_iff at client_id,
        ),
        later,
      )
    ]

has_client-entries :
    (client_id : String) (rows : List Peer)
    → has_client client_id rows ≡ is_some (lookup client_id (entries rows))
unfolding has_client entries lookup
has_client-entries client_id [] = refl
has_client-entries client_id (p ∷ rest) = ground (arith, has_client-entries client_id rest)

entries-append_new :
    (p : Peer) (rows : List Peer)
    → lookup p.client_id (entries rows) ≡ none
    → entries (rows ++ p ∷ []) ≡ insert p.client_id (info_of p) (entries rows)
unfolding entries lookup insert
entries-append_new p [] h = refl
entries-append_new p (q ∷ rest) h = elim (Bool-cases (q.client_id == p.client_id)) [
  | inl same ↦ absurd (ground (arith, same, h))
  | inr differ ↦ rw differ (
      ap (λ (known : Map String Info). (q.client_id, info_of q) ∷ known)
        (entries-append_new p rest (ground (arith, differ, h))))
]

entries-update_none :
    (client_id : String) (new : Changes) (rows : List Peer)
    → lookup client_id (entries rows) ≡ none
    → entries (map (update_row client_id new) rows) ≡ entries rows
unfolding entries lookup update_row
entries-update_none client_id new [] h = refl
entries-update_none client_id new (q ∷ rest) h = elim (Bool-cases (q.client_id == client_id)) [
  | inl same ↦ absurd (ground (arith, same, h))
  | inr differ ↦ rw differ (
      ap (λ (known : Map String Info). (q.client_id, info_of q) ∷ known)
        (entries-update_none client_id new rest (ground (arith, differ, h))))
]

enroll-cons_other :
    (login : PeerLogin) (at : String) (info : Info) (known : Map String Info)
    → (at == login.client_id) ≡ false
    → (at, info) ∷ enroll login known ≡ enroll login ((at, info) ∷ known)
unfolding enroll
enroll-cons_other login at info known differ =
    let skipped : lookup login.client_id ((at, info) ∷ known) ≡ lookup login.client_id known =
      unfold lookup in rw differ refl in
    rw skipped (unfold insert in rw differ refl)

enroll-cons_same :
    (login : PeerLogin) (at : String) (info : Info) (known : Map String Info)
    → (at == login.client_id) ≡ true
    → (at, merge login (some info)) ∷ known ≡ enroll login ((at, info) ∷ known)
unfolding enroll
enroll-cons_same login at info known same =
    let found : lookup login.client_id ((at, info) ∷ known) ≡ some info =
      unfold lookup in rw same refl in
    rw found (unfold insert in rw same refl)

entries-update :
    (login : PeerLogin) (rows : List Peer)
    → IsUnique (entries rows)
    → is_some (lookup login.client_id (entries rows)) ≡ true
    → entries (map (update_row login.client_id (changes_of login)) rows)
      ≡ enroll login (entries rows)
unfolding entries lookup update_row IsUnique changes_of info_of merge or_old_text or_old_number
entries-update login [] u h = absurd (ground (arith, h))
entries-update login (q ∷ rest) (fresh, u) h = elim (Bool-cases (q.client_id == login.client_id)) [
  | inl same ↦ rw same (
      ap (λ (known : Map String Info). (q.client_id, merge login (some (info_of q))) ∷ known)
        (entries-update_none login.client_id (changes_of login) rest (
          subst (λ (at : String). lookup at (entries rest) ≡ none)
            ((string_eq.same_iff q.client_id login.client_id).0 same) fresh))
      ∙ enroll-cons_same login q.client_id (info_of q) (entries rest) same)
  | inr differ ↦ rw differ (
      ap (λ (known : Map String Info). (q.client_id, info_of q) ∷ known)
        (entries-update login rest u (ground (arith, differ, h)))
      ∙ enroll-cons_other login q.client_id (info_of q) (entries rest) differ)
]

other_clients-erase :
    (client_id : String) (rows : List Peer)
    → other_clients client_id rows ≡ map config (erase client_id (entries rows))
unfolding other_clients config_of config entries erase info_of
other_clients-erase client_id [] = refl
other_clients-erase client_id (p ∷ rest) = elim (Bool-cases (p.client_id == client_id)) [
  | inl same ↦ rw same (other_clients-erase client_id rest)
  | inr differ ↦
      rw differ (
        ap (λ (others : List PeerConfig). config_of p ∷ others)
          (other_clients-erase client_id rest))
]

new_row : ℕ → PeerLogin → Peer
new_row now login = record {
  id = 0;
  client_id = login.client_id;
  ip = login.ip;
  port = login.port;
  wg_pub_key = login.wg_pub_key;
  token = login.token;
  allowed_ip = login.allowed_ip;
  last_keep_alive_at = now;
}

entries-append_login :
    (now id : ℕ) (login : PeerLogin) (rows : List Peer)
    → lookup login.client_id (entries rows) ≡ none
    → entries (rows ++ record (new_row now login) { id = id } ∷ []) ≡ enroll login (entries rows)
unfolding enroll merge new_row info_of
entries-append_login now id login rows h =
    rw h (entries-append_new (record (new_row now login) { id = id }) rows h)

module _ {D : Type 0} (db : PeerTable D) where
  -- What is known of the clients of a token.
  unfoldable pub members : String → D → Map String Info
  unfolding entries
  members token d = entries (db.find token d)

  -- A query is answered with all clients of the token but the one that asks.
  pub get_clients-members :
      (client_id token : String) (d : D)
      → get_clients db client_id token d ≡ map config (erase client_id (members token d))
  unfolding get_clients members
  get_clients-members client_id token d = other_clients-erase client_id (db.find token d)

  module _ (laws : IsTable db) where
    register-same :
        (now : ℕ) (login : PeerLogin) (d : D)
        → IsUnique (members login.token d)
        → members login.token (register db now login d) ≡ enroll login (members login.token d)
    unfolding register members changes_of new_row
    register-same now login d u =
        elim (Bool-cases (has_client login.client_id (db.find login.token d))) [
          | inl known ↦
              rw
                (
                  known,
                  laws.find-updates login.token login.client_id (changes_of login) d login.token,
                  eq_refl login.token,
                )
                (entries-update login (db.find login.token d) u
                  (sym (has_client-entries login.client_id (db.find login.token d)) ∙ known))
          | inr new ↦
              rw (new, laws.find-create (new_row now login) d login.token, eq_refl login.token)
                (entries-append_login now (laws.new_id d) login (db.find login.token d)
                  (ground (arith, has_client-entries login.client_id (db.find login.token d), new)))
        ]

    register-other :
        (now : ℕ) (login : PeerLogin) (d : D) (token : String)
        → (login.token == token) ≡ false
        → members token (register db now login d) ≡ members token d
    unfolding register members changes_of new_row
    register-other now login d token differ =
        elim (Bool-cases (has_client login.client_id (db.find login.token d))) [
          | inl known ↦
              rw
                (
                  known,
                  laws.find-updates login.token login.client_id (changes_of login) d token,
                  differ,
                )
                refl
          | inr new ↦ rw (new, laws.find-create (new_row now login) d token, differ) refl
        ]

    -- A login changes the directory of its own token alone, and there the entry of its client:
    -- a new client gets all that it sent, a known one keeps its allowed IP and whatever the login
    -- leaves empty. No client of any token ever has two entries.
    pub register-members :
        (now : ℕ) (login : PeerLogin) (d : D)
        → ((token : String) → IsUnique (members token d))
        → (token : String)
        → (members token (register db now login d)
            ≡ (if login.token == token then enroll login (members token d) else members token d))
          × IsUnique (members token (register db now login d))
    unfolding enroll
    register-members now login d u token = elim (Bool-cases (login.token == token)) [
      | inl same ↦
          let e = (string_eq.same_iff login.token token).0 same in
          let here =
            subst (λ (t : String). members t (register db now login d) ≡ enroll login (members t d))
              e (register-same now login d (u login.token)) in
          (rw same here, subst IsUnique (sym here) (insert-IsUnique login.client_id _ _ (u token)))
      | inr differ ↦
          let here = register-other now login d token differ in
          (rw differ here, subst IsUnique (sym here) (u token))
    ]
