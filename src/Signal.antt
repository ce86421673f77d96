-- ===== src/Signal.antt =====
-- signal/server/signal.go and signal/store/peer.go: the signalling server. It keeps a row for
-- every client of every token, answers a login with the address that the packet came from, and
-- a query with the other clients of the token.
pub mod Directory
pub mod Serving
pub mod Exchange
mod Tests
use punch.Common.{
  ℕ, zero, suc, String, ◌≡◌, Bool, true, false, Option, none, some, List, [], ◌∷◌, ◌++◌, map, take,
  drop, length, get_elem?, ◌==◌, nat_eq, string_eq, if◌then◌else◌,
}

-- ypeer.Peer; a time is a number.
pub record Peer : Type 0 where
  pub id : ℕ
  pub client_id : String
  pub ip : String
  pub port : ℕ
  pub wg_pub_key : String
  pub token : String
  pub allowed_ip : String
  pub last_keep_alive_at : ℕ

pub record PeerLogin : Type 0 where
  pub ip : String
  pub port : ℕ
  pub client_id : String
  pub wg_pub_key : String
  pub token : String
  pub allowed_ip : String

pub record PeerConfig : Type 0 where
  pub ip : String
  pub port : ℕ
  pub client_id : String
  pub wg_pub_key : String
  pub token : String
  pub allowed_ip : String
  pub last_keep_alive_at : String

-- The fields that Register hands to `Updates`.
pub record Changes : Type 0 where
  pub wg_pub_key : String
  pub ip : String
  pub port : ℕ

-- What the code calls of gorm: the rows with a token, `Updates` of the rows with a token and a
-- client id, and `Create`. Their errors are not looked at, so none is returned.
pub record PeerTable (D : Type 0) : Type 0 where
  pub find : String → D → List Peer
  pub updates : String → String → Changes → D → D
  pub create : Peer → D → D

or_old_text : String → String → String
or_old_text text old = if text == "" then old else text

or_old_number : ℕ → ℕ → ℕ
or_old_number n old = if n == 0 then old else n

-- gorm's `Updates` with a struct: "only update non-zero fields by default".
unfoldable pub update_row : String → Changes → Peer → Peer
unfolding or_old_text or_old_number
update_row client_id new p =
    if p.client_id == client_id
    then record p {
      wg_pub_key = or_old_text new.wg_pub_key p.wg_pub_key;
      ip = or_old_text new.ip p.ip;
      port = or_old_number new.port p.port;
    }
    else p

-- gorm and SQLite where no statement fails: a table is scanned in the order of its row ids, and
-- `Create` chooses the id of the new row.
pub record IsTable {D : Type 0} (db : PeerTable D) : Type 0 where
  pub new_id : D → ℕ
  pub find-create :
      (p : Peer) (d : D) (token : String)
      → db.find token (db.create p d) ≡ (
          if p.token == token
          then db.find token d ++ record p { id = new_id d } ∷ []
          else db.find token d)
  pub find-updates :
      (of client_id : String) (new : Changes) (d : D) (token : String)
      → db.find token (db.updates of client_id new d) ≡ (
          if of == token then map (update_row client_id new) (db.find token d) else db.find token d)

-- `for _, peer := range peers { if peer.ClientID == clientId { …; return } }`
pub has_client : String → List Peer → Bool
has_client client_id [] = false
has_client client_id (p ∷ rest) =
    let later = has_client client_id rest in if p.client_id == client_id then true else later

pub config_of : Peer → PeerConfig
config_of p = record {
  ip = p.ip;
  port = p.port;
  client_id = p.client_id;
  wg_pub_key = p.wg_pub_key;
  token = p.token;
  allowed_ip = p.allowed_ip;
  last_keep_alive_at = "";
}

pub other_clients : String → List Peer → List PeerConfig
unfolding config_of
other_clients client_id [] = []
other_clients client_id (p ∷ rest) =
    let others = other_clients client_id rest in
    if p.client_id == client_id then others else config_of p ∷ others

module _ {D : Type 0} (db : PeerTable D) where
  unfoldable pub register : ℕ → PeerLogin → D → D
  unfolding has_client
  register now login d =
      if has_client login.client_id (db.find login.token d)
      then db.updates login.token login.client_id
          (record { wg_pub_key = login.wg_pub_key; ip = login.ip; port = login.port }) d
      else db.create
          (record {
            id = 0;
            client_id = login.client_id;
            ip = login.ip;
            port = login.port;
            wg_pub_key = login.wg_pub_key;
            token = login.token;
            allowed_ip = login.allowed_ip;
            last_keep_alive_at = now;
          })
          d

  unfoldable pub get_clients : String → String → D → List PeerConfig
  unfolding other_clients
  get_clients client_id token d = other_clients client_id (db.find token d)

pub record PeerLoginReq : Type 0 where
  pub client_id : String
  pub wg_pub_key : String
  pub allowed_ip : String

pub record PeerQueryReq : Type 0 where
  pub client_id : String

pub record RegisterResponse : Type 0 where
  pub ip : String
  pub port : ℕ

-- `B` is the decoded body, an `interface{}`.
pub record Message (B : Type 0) : Type 0 where
  pub message_type : ℕ
  pub token : String
  pub body : B

abbrev pub login_type : ℕ
login_type = 1

abbrev pub query_type : ℕ
query_type = 3

-- encoding/json as the server calls it: a message from bytes, the two requests from a body (by
-- a Marshal and an Unmarshal), and the bytes of the answers. `none` is an error.
pub record ServerJson (B : Type 0) : Type 0 where
  pub decode_message : List ℕ → Option (Message B)
  pub decode_login : B → Option PeerLoginReq
  pub decode_query : B → Option PeerQueryReq
  pub encode_response : RegisterResponse → List ℕ
  pub encode_configs : List PeerConfig → List ℕ

-- `remoteAddr`, with its IP in text.
pub record Remote : Type 0 where
  pub ip : String
  pub port : ℕ

module _ {D B : Type 0} (db : PeerTable D) (json : ServerJson B) where
  unfoldable pub handle_login_request : Message B → Remote → ℕ → D → D × List ℕ
  handle_login_request message remote now d = elim (json.decode_login message.body) [
    | none ↦ (d, [])
    | some req ↦ (
      register db now
          (record {
            ip = remote.ip;
            port = remote.port;
            client_id = req.client_id;
            wg_pub_key = req.wg_pub_key;
            token = message.token;
            allowed_ip = req.allowed_ip;
          })
          d,
      json.encode_response (record { ip = remote.ip; port = remote.port }),
    )
  ]

  unfoldable pub handle_query_request : Message B → D → List ℕ
  handle_query_request message d = elim (json.decode_query message.body) [
    | none ↦ []
    | some req ↦ json.encode_configs (get_clients db req.client_id message.token d)
  ]

  pub handle_message : Message B → Remote → ℕ → D → D × List ℕ
  unfolding handle_login_request handle_query_request
  handle_message message remote now d =
      if message.message_type == login_type
      then handle_login_request message remote now d
      else if message.message_type == query_type
      then (d, handle_query_request message d)
      else (d, [])

  -- `none`: nothing is sent. An error of the write is printed only.
  unfoldable pub handle_connection : List ℕ → Remote → ℕ → D → D × Option (List ℕ)
  unfolding handle_message
  handle_connection buffer remote now d = elim (json.decode_message buffer) [
    | none ↦ (d, none)
    | some message ↦ let (d', answer) = handle_message message remote now d in (d', some answer)
  ]

-- `make([]byte, 1024)`: Run's one buffer, which all goroutines see.
abbrev pub packet_size : ℕ
packet_size = 1024

-- A goroutine of handleConnection that has not read its slice of the buffer yet.
pub record Waiting : Type 0 where
  pub n : ℕ
  pub remote : Remote

pub record Server (D : Type 0) : Type 0 where
  pub buffer : List ℕ
  pub waiting : List Waiting
  pub store : D

-- Run reads a packet into its buffer, and starts a goroutine for it; or the goroutine `i` of those
-- that wait unmarshals what its slice holds by then, and handles it under the store's mutex. An
-- Unmarshal is not split by a read: that data race is left out.
pub data Event : Type 0 where
  reads : List ℕ → Remote → Event
  handles : ℕ → ℕ → Event

-- ReadFromUDP: what does not fit is cut, and the rest of the buffer keeps older bytes.
abbrev pub fill_buffer : List ℕ → List ℕ → List ℕ
fill_buffer bytes buffer = let read = take packet_size bytes in read ++ drop (length read) buffer

abbrev pub remove_at : {A : Type 0} → ℕ → List A → List A
remove_at i [] = []
remove_at zero (x ∷ xs) = xs
remove_at (suc i) (x ∷ xs) = x ∷ remove_at i xs

module _ {D B : Type 0} (db : PeerTable D) (json : ServerJson B) where
  abbrev pub handle_waiting :
      ℕ → ℕ → Option Waiting → Server D → Server D × List (Remote × Option (List ℕ))
  handle_waiting i now none s = (s, [])
  handle_waiting i now (some w) s =
      let (d, answer) = handle_connection db json (take w.n s.buffer) w.remote now s.store in
      (record s { waiting = remove_at i s.waiting; store = d }, (w.remote, answer) ∷ [])

  pub server_step : Event → Server D → Server D × List (Remote × Option (List ℕ))
  unfolding handle_connection
  server_step (reads bytes remote) s = (
    record s {
      buffer = fill_buffer bytes s.buffer;
      waiting = s.waiting ++ record { n = length (take packet_size bytes); remote = remote } ∷ [];
    },
    [],
  )
  server_step (handles i now) s = handle_waiting i now (get_elem? s.waiting i) s

  -- `Run` with its goroutines, and the answers that are sent.
  unfoldable pub serve : List Event → Server D → Server D × List (Remote × Option (List ℕ))
  unfolding server_step
  serve [] s = (s, [])
  serve (e ∷ events) s =
      let (s', sent) = server_step e s in let (s'', later) = serve events s' in (s'', sent ++ later)
