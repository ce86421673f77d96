-- ===== src/Signal/Exchange.antt =====
-- client/internal/exchange.go: the client's side of the two requests, over one UDP socket each.
use punch.Common.{
  ℕ, zero, suc, String, ◌≡◌, ◌≤◌, ◌<◌, refl, ap, Bool, true, false, Option, none, some, List, [],
  string_eq, Bool-cases, dec_lt, ◌∷◌, ◌++◌, map, length, take, ltb, if◌then◌else◌, Result, ok, err,
  ◌>>=◌, arith, inl, inr,
}
use punch.Common.Map.{erase}
use punch.Signal.{
  PeerConfig, PeerLoginReq, PeerQueryReq, Message, PeerTable, ServerJson, Remote, query_type,
  handle_connection, packet_size, handle_message, handle_query_request,
}
use punch.Signal.Directory.{config, members, get_clients-members}

pub record PeerInfo : Type 0 where
  pub client_id : String
  pub ip : String
  pub port : ℕ
  pub wg_pub_key : String
  pub allowed_ip : String
  pub last_keep_alive_at : String

pub record PeerLoginRes : Type 0 where
  pub ip : String
  pub port : ℕ

pub data Error : Type 0 where
  connecting parse_cidr marshaling sending reading unmarshaling : Error

-- encoding/json as the client calls it.
pub record ClientJson : Type 0 where
  pub encode_login : Message PeerLoginReq → Option (List ℕ)
  pub encode_query : Message PeerQueryReq → Option (List ℕ)
  pub decode_response : List ℕ → Option PeerLoginRes
  pub decode_infos : List ℕ → Option (List PeerInfo)

-- One socket: whether `DialUDP` and `Write` return nil errors, and the datagrams that arrive
-- before the deadline once the given bytes have been sent.
pub record Socket : Type 0 where
  pub dial_ok : Bool
  pub write_ok : Bool
  pub arrives : List ℕ → List (List ℕ)

abbrev pub buffer_size : ℕ
buffer_size = 1024

or_error : {A : Type 0} → Error → Option A → Result Error A
or_error e none = err e
or_error e (some a) = ok a

check : Error → Bool → Result Error (Unit {0})
check e passed = if passed then ok tt else err e

-- The reading loop. A datagram fills the buffer with what fits, the rest of it is lost; the loop
-- goes on after a full buffer, and with no datagram left the deadline passes.
unfoldable pub read_response : List (List ℕ) → Result Error (List ℕ)
read_response [] = err reading
read_response (datagram ∷ later) =
    let chunk = take buffer_size datagram in
    let rest = read_response later in
    if ltb (length chunk) buffer_size then ok chunk else rest >>= (λ bytes. ok (chunk ++ bytes))

-- `allowed_ip` is the address of the local CIDR in text, if it parses.
unfoldable pub client_register :
    ClientJson → Socket → String → String → String → Option String → Result Error PeerLoginRes
unfolding check or_error read_response
client_register json socket client_id token wg_pub_key allowed_ip = do
  _ ← check connecting socket.dial_ok
  ip ← or_error parse_cidr allowed_ip
  bytes ← or_error marshaling (
      json.encode_login (record {
        message_type = 1;
        token = token;
        body = record { client_id = client_id; wg_pub_key = wg_pub_key; allowed_ip = ip };
      }))
  _ ← check sending socket.write_ok
  result ← read_response (socket.arrives bytes)
  or_error unmarshaling (json.decode_response result)

unfoldable pub get_remote_peers :
    ClientJson → Socket → String → String → Result Error (List PeerInfo)
unfolding check or_error read_response
get_remote_peers json socket client_id token = do
  _ ← check connecting socket.dial_ok
  bytes ← or_error marshaling (
      json.encode_query (record {
        message_type = query_type;
        token = token;
        body = record { client_id = client_id };
      }))
  _ ← check sending socket.write_ok
  result ← read_response (socket.arrives bytes)
  or_error unmarshaling (json.decode_infos result)

-- What the client keeps of a config: not the token.
unfoldable pub info : PeerConfig → PeerInfo
info c = record {
  client_id = c.client_id;
  ip = c.ip;
  port = c.port;
  wg_pub_key = c.wg_pub_key;
  allowed_ip = c.allowed_ip;
  last_keep_alive_at = c.last_keep_alive_at;
}

pub reply : Option (List ℕ) → List (List ℕ)
reply none = []
reply (some bytes) = bytes ∷ []

take-short : (n : ℕ) (xs : List ℕ) → length xs ≤ n → take n xs ≡ xs
take-short zero [] h = refl
take-short zero (x ∷ xs) h = absurd (omega (arith, h))
take-short (suc n) [] h = refl
take-short (suc n) (x ∷ xs) h = ap (λ (ys : List ℕ). x ∷ ys) (take-short n xs (omega (arith, h)))

length-take : (n : ℕ) (xs : List ℕ) → n ≤ length xs → length (take n xs) ≡ n
length-take zero xs h = refl
length-take (suc n) [] h = absurd (omega (arith, h))
length-take (suc n) (x ∷ xs) h = omega (arith, length-take n xs (omega (arith, h)))

ltb-false : (a b : ℕ) → ¬ (a < b) → ltb a b ≡ false
ltb-false a b h = ground arith

-- One datagram is read whole where it is shorter than the buffer, and never otherwise.
read_response-one :
    (bytes : List ℕ)
    → read_response (bytes ∷ [])
      ≡ (if ltb (length bytes) buffer_size then ok bytes else err reading)
unfolding read_response
read_response-one bytes = elim (dec_lt (length bytes) buffer_size) [
  | yes short ↦ rw (take-short buffer_size bytes (omega (arith, short))) refl
  | no long ↦
      rw
        (
          length-take buffer_size bytes (omega (arith, long)),
          ltb-false (length bytes) buffer_size long,
        )
        refl
]

module _ {D B : Type 0} (db : PeerTable D) (server : ServerJson B) (client : ClientJson) where
  -- The sockets of a client at `remote` whose packets the server at `d` handles, each before it
  -- reads another. The server's buffer cuts a packet.
  abbrev pub server_socket : Remote → ℕ → D → Socket
  server_socket remote now d = record {
    dial_ok = true;
    write_ok = true;
    arrives = λ bytes. reply (handle_connection db server (take packet_size bytes) remote now d).1;
  }

  -- What the two sides of encoding/json make of a query and its answer.
  pub record UnderstandsQuery (client_id token : String) (configs : List PeerConfig) : Type 0 where
    pub bytes : List ℕ
    pub body : B
    pub encoded :
        client.encode_query (record {
          message_type = query_type;
          token = token;
          body = record { client_id = client_id };
        })
        ≡ some bytes
    pub decoded :
        server.decode_message bytes
        ≡ some (record { message_type = query_type; token = token; body = body })
    pub asked : server.decode_query body ≡ some (record { client_id = client_id })
    pub read_back : client.decode_infos (server.encode_configs configs) ≡ some (map info configs)

  -- The other clients of the token, as the server's directory has them.
  unfoldable pub others : String → String → D → List PeerConfig
  others client_id token d = map config (erase client_id (members db token d))

  answered :
      (client_id token : String) (remote : Remote) (now : ℕ) (d : D)
      (u : UnderstandsQuery client_id token (others client_id token d))
      → (handle_connection db server u.bytes remote now d).1
        ≡ some (server.encode_configs (others client_id token d))
  unfolding handle_connection handle_message handle_query_request others
  answered client_id token remote now d u =
      rw
        (
          u.decoded,
          handle_connection,
          handle_message,
          handle_query_request,
          u.asked,
          get_clients-members db client_id token d,
        )
        refl

  -- GetRemotePeers against the server, with a query that fits the server's buffer of 1024 bytes,
  -- gives what the directory has of the token's other clients, where the encoded answer is shorter
  -- than 1024 bytes; a longer answer is an error, since the loop waits for another datagram that
  -- the server never sends.
  pub get_remote_peers-others :
      (client_id token : String) (remote : Remote) (now : ℕ) (d : D)
      (u : UnderstandsQuery client_id token (others client_id token d))
      → length u.bytes ≤ packet_size
      → get_remote_peers client (server_socket remote now d) client_id token ≡ (
          if ltb (length (server.encode_configs (others client_id token d))) buffer_size
          then ok (map info (others client_id token d))
          else err reading)
  unfolding get_remote_peers reply
  get_remote_peers-others client_id token remote now d u fits =
      let configs = others client_id token d in
      let bytes = server.encode_configs configs in
      elim (Bool-cases (ltb (length bytes) buffer_size)) [
        | inl short ↦
            rw
              (
                u.encoded,
                take-short packet_size u.bytes fits,
                answered client_id token remote now d u,
                read_response-one bytes,
                short,
                u.read_back,
              )
              refl
        | inr long ↦
            rw
              (
                u.encoded,
                take-short packet_size u.bytes fits,
                answered client_id token remote now d u,
                read_response-one bytes,
                long,
              )
              refl
      ]
