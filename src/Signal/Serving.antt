-- ===== src/Signal/Serving.antt =====
-- The whole server, from packets to answers, against the directory that it stands for.
use punch.Common.{
  ℕ, String, ◌≡◌, refl, ap, subst, Option, none, some, List, [], ◌∷◌, ◌++◌, map, take, drop, length,
  get_elem?, take-length-append, ◌==◌, nat_eq, string_eq, if◌then◌else◌, Bool-cases, Option-cases,
  inl, inr,
}
use punch.Common.Map.{Map, erase}
use punch.Signal.{
  PeerLogin, PeerTable, IsTable, ServerJson, Message, Remote, Waiting, Server, Event, reads,
  handles, packet_size, fill_buffer, remove_at, server_step, login_type, query_type, register,
  handle_connection, serve, handle_login_request, handle_query_request, handle_message,
}
use punch.Signal.Directory.{
  Info, IsUnique, enroll, config, members, get_clients-members, register-members,
}

abbrev pub Directory : Type 0
Directory = String → Map String Info

pub enroll_at : PeerLogin → Directory → Directory
enroll_at login dir token = if login.token == token then enroll login (dir token) else dir token

-- What a goroutine finds in its slice of the buffer, from where, and when it is handled.
pub record Packet : Type 0 where
  pub bytes : List ℕ
  pub remote : Remote
  pub now : ℕ

-- What the goroutines find, in the order in which they take the store's mutex.
unfoldable pub found : List Event → List ℕ → List Waiting → List Packet
found [] buffer waiting = []
found (reads bytes remote ∷ events) buffer waiting =
    found events (fill_buffer bytes buffer)
      (waiting ++ record { n = length (take packet_size bytes); remote = remote } ∷ [])
found (handles i now ∷ events) buffer waiting = elim (get_elem? waiting i) [
  | none ↦ found events buffer waiting
  | some w ↦
      record { bytes = take w.n buffer; remote = w.remote; now = now }
      ∷ found events buffer (remove_at i waiting)
]

-- Each packet is handled before the next one is read.
abbrev pub in_turn : List Packet → List Event
in_turn [] = []
in_turn (p ∷ packets) = reads p.bytes p.remote ∷ handles 0 p.now ∷ in_turn packets

abbrev pub cut : Packet → Packet
cut p = record p { bytes = take packet_size p.bytes }

found-in_turn :
    (packets : List Packet) (buffer : List ℕ) → found (in_turn packets) buffer [] ≡ map cut packets
unfolding found
found-in_turn [] buffer = refl
found-in_turn (p ∷ packets) buffer =
    let read = take packet_size p.bytes in
    rw (
      take-length-append read (drop (length read) buffer),
      found-in_turn packets (fill_buffer p.bytes buffer),
    )

module _ {B : Type 0} (json : ServerJson B) where
  -- The login that a message asks for, from the address that its packet came from.
  pub login_in : Message B → Remote → Option PeerLogin
  login_in m remote = elim (json.decode_login m.body) [
    | none ↦ none
    | some req ↦ some (record {
      ip = remote.ip;
      port = remote.port;
      client_id = req.client_id;
      wg_pub_key = req.wg_pub_key;
      token = m.token;
      allowed_ip = req.allowed_ip;
    })
  ]

  pub log_in : Option PeerLogin → Directory → Directory × List ℕ
  unfolding enroll_at
  log_in none dir = (dir, [])
  log_in (some l) dir =
      (enroll_at l dir, json.encode_response (record { ip = l.ip; port = l.port }))

  pub query : Message B → Directory → List ℕ
  query m dir = elim (json.decode_query m.body) [
    | none ↦ []
    | some req ↦ json.encode_configs (map config (erase req.client_id (dir m.token)))
  ]

  pub answer_message : Message B → Remote → Directory → Directory × List ℕ
  unfolding log_in login_in query
  answer_message m remote dir =
      if m.message_type == login_type
      then log_in (login_in m remote) dir
      else if m.message_type == query_type
      then (dir, query m dir)
      else (dir, [])

  -- One packet, at the directory: a login enrolls its client and is told the address that it
  -- was seen at, a query is told the other clients of its token, any other message gets an
  -- empty answer, and what is no message gets none.
  pub answer : Packet → Directory → Directory × Option (List ℕ)
  unfolding answer_message
  answer p dir = elim (json.decode_message p.bytes) [
    | none ↦ (dir, none)
    | some m ↦ let (dir', bytes) = answer_message m p.remote dir in (dir', some bytes)
  ]

  pub answers : List Packet → Directory → Directory × List (Remote × Option (List ℕ))
  unfolding answer
  answers [] dir = (dir, [])
  answers (p ∷ rest) dir =
      let (dir', bytes) = answer p dir in
      let (dir'', all) = answers rest dir' in (dir'', (p.remote, bytes) ∷ all)

module _ {D B : Type 0} (db : PeerTable D) (laws : IsTable db) (json : ServerJson B) where
  pub view : D → Directory
  view d token = members db token d

  unfoldable pub AllUnique : D → Type 0
  AllUnique d = (token : String) → IsUnique (members db token d)

  -- The server at `d` is the directory `dir`.
  pub Shows : {A : Type 0} → D × A → Directory × A → Type 0
  Shows (d, a) (dir, a') = AllUnique d × (view d ≡ dir) × (a ≡ a')

  register-view :
      (now : ℕ) (login : PeerLogin) (d : D)
      → AllUnique d
      → AllUnique (register db now login d)
        × (view (register db now login d) ≡ enroll_at login (view d))
  unfolding view enroll_at AllUnique
  register-view now login d u = (
    λ token. (register-members db laws now login d u token).1,
    λ i token. (register-members db laws now login d u token).0 i,
  )

  query-view : (m : Message B) (d : D) → handle_query_request db json m d ≡ query json m (view d)
  unfolding handle_query_request query view
  query-view m d = elim (Option-cases (json.decode_query m.body)) [
    | inl e ↦ rw (e, handle_query_request, query) refl
    | inr (req, e) ↦
        rw (e, handle_query_request, query)
          (ap json.encode_configs (get_clients-members db req.client_id m.token d))
  ]

  login-Shows :
      (m : Message B) (remote : Remote) (now : ℕ) (d : D)
      → AllUnique d
      → Shows
          (handle_login_request db json m remote now d)
          (log_in json (login_in json m remote) (view d))
  unfolding Shows handle_login_request log_in login_in
  login-Shows m remote now d u = elim (Option-cases (json.decode_login m.body)) [
    | inl e ↦ rw (e, handle_login_request, login_in) (u, refl, refl)
    | inr (req, e) ↦
        rw (e, handle_login_request, login_in)
          (let (u', v) = register-view now _ d u in (u', v, refl))
  ]

  message-Shows :
      (m : Message B) (remote : Remote) (now : ℕ) (d : D)
      → AllUnique d
      → Shows (handle_message db json m remote now d) (answer_message json m remote (view d))
  unfolding handle_message answer_message
  message-Shows m remote now d u = elim (Bool-cases (m.message_type == login_type)) [
    | inl login ↦ rw login (login-Shows m remote now d u)
    | inr other ↦ elim (Bool-cases (m.message_type == query_type)) [
      | inl asks ↦ rw (other, asks) (unfold Shows in (u, refl, query-view m d))
      | inr neither ↦ rw (other, neither) (unfold Shows in (u, refl, refl))
    ]
  ]

  handle-Shows :
      (p : Packet) (d : D)
      → AllUnique d
      → Shows (handle_connection db json p.bytes p.remote p.now d) (answer json p (view d))
  unfolding Shows handle_connection answer
  handle-Shows p d u = elim (Option-cases (json.decode_message p.bytes)) [
    | inl e ↦ rw (e, handle_connection, answer) (u, refl, refl)
    | inr (m, e) ↦
        rw (e, handle_connection, answer)
          (let (u', v, b) = message-Shows m p.remote p.now d u in
            (u', v, ap (λ (bytes : List ℕ). some bytes) b))
  ]

  abbrev pub stored : {A : Type 0} → Server D × A → D × A
  stored (s, a) = (s.store, a)

  handled-Shows :
      (events : List Event)
      → ((s : Server D)
          → AllUnique s.store
          → Shows
              (stored (serve db json events s))
              (answers json (found events s.buffer s.waiting) (view s.store)))
      → (i now : ℕ) (s : Server D) (w : Waiting) → get_elem? s.waiting i ≡ some w
      → AllUnique s.store
      → Shows
          (stored (serve db json (handles i now ∷ events) s))
          (answers json (found (handles i now ∷ events) s.buffer s.waiting) (view s.store))
  unfolding Shows serve server_step answers found
  handled-Shows events later i now s w is u =
      let p : Packet = record { bytes = take w.n s.buffer; remote = w.remote; now = now } in
      let d : D = (handle_connection db json p.bytes p.remote p.now s.store).0 in
      let s' : Server D = record s { waiting = remove_at i s.waiting; store = d } in
      let (u', v, b) = handle-Shows p s.store u in
      let (u'', v', bs) =
        subst
          (λ (dir : Directory).
            Shows (stored (serve db json events s'))
              (answers json (found events s.buffer (remove_at i s.waiting)) dir))
          v (later s' u') in
      rw (is, found) (u'', v', cc (b, bs))

  serve_from-Shows :
      (events : List Event) (s : Server D)
      → AllUnique s.store
      → Shows
          (stored (serve db json events s))
          (answers json (found events s.buffer s.waiting) (view s.store))
  unfolding Shows serve server_step answers found
  serve_from-Shows [] s u = (u, refl, refl)
  serve_from-Shows (reads bytes remote ∷ events) s u = serve_from-Shows events _ u
  serve_from-Shows (handles i now ∷ events) s u = elim (Option-cases (get_elem? s.waiting i)) [
    | inl none_there ↦ rw (none_there, found) (serve_from-Shows events s u)
    | inr (w, is) ↦ handled-Shows events (serve_from-Shows events) i now s w is u
  ]

  pub serve-Shows :
      (events : List Event) (s : Server D)
      → AllUnique s.store
      → Shows
          (stored (serve db json events s))
          (answers json (found events s.buffer s.waiting) (view s.store))
        × ((packets : List Packet) → found (in_turn packets) s.buffer [] ≡ map cut packets)
  serve-Shows events s u = (serve_from-Shows events s u, λ packets. found-in_turn packets s.buffer)
