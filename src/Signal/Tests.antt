-- ===== src/Signal/Tests.antt =====
-- The server and its clients at concrete inputs: the table is a list of rows, and the JSON texts
-- are single numbers.
use punch.Common.{
  ℕ, zero, suc, String, ◌≡◌, refl, false, none, some, List, [], ◌∷◌, ◌++◌, map, ◌==◌, length,
  string_eq, if◌then◌else◌, Bool-cases, inl, inr, arith, ok, sym, ◌∙◌,
}
use punch.Common.Map.{lookup, erase}
use punch.Signal.{
  Peer, PeerLogin, Changes, PeerTable, IsTable, ServerJson, Remote, Server, Event, reads, handles,
  update_row, register, serve, get_clients,
}
use punch.Signal.Directory.{members, enroll, IsUnique, register-members, entries, config, info_of}
use punch.Signal.Serving.{
  Packet, Shows, serve-Shows, answers, view, AllUnique, found, in_turn, cut, stored,
}
use punch.Signal.Exchange.{
  ClientJson, PeerInfo, get_remote_peers, server_socket, others, info, UnderstandsQuery,
  get_remote_peers-others,
}

find_rows : String → List Peer → List Peer
find_rows token [] = []
find_rows token (p ∷ rest) =
    let later = find_rows token rest in if p.token == token then p ∷ later else later

update_if : String → String → Changes → Peer → Peer
update_if of client_id new p = if p.token == of then update_row client_id new p else p

create_row : Peer → List Peer → List Peer
create_row p rows = rows ++ record p { id = suc (length rows) } ∷ []

abbrev rows_table : PeerTable (List Peer)
rows_table = record {
  find = find_rows;
  updates = λ of client_id new rows. map (update_if of client_id new) rows;
  create = create_row;
}

find_rows-append :
    (token : String) (p : Peer) (rows : List Peer)
    → find_rows token (rows ++ p ∷ [])
      ≡ (if p.token == token then find_rows token rows ++ p ∷ [] else find_rows token rows)
unfolding find_rows
find_rows-append token p [] = refl
find_rows-append token p (q ∷ rest) = elim (Bool-cases (p.token == token)) [
  | inl p_has ↦ elim (Bool-cases (q.token == token)) [
    | inl q_has ↦ rw (find_rows-append token p rest, p_has, q_has) refl
    | inr q_has_not ↦ rw (find_rows-append token p rest, p_has, q_has_not) refl
  ]
  | inr p_has_not ↦ elim (Bool-cases (q.token == token)) [
    | inl q_has ↦ rw (find_rows-append token p rest, p_has_not, q_has) refl
    | inr q_has_not ↦ rw (find_rows-append token p rest, p_has_not, q_has_not) refl
  ]
]

token-update_if :
    (of client_id : String) (new : Changes) (p : Peer)
    → (update_if of client_id new p).token ≡ p.token
unfolding update_if update_row
token-update_if of client_id new p = ground arith

find_rows-update :
    (of client_id : String) (new : Changes) (rows : List Peer) (token : String)
    → find_rows token (map (update_if of client_id new) rows) ≡ (
        if of == token
        then map (update_row client_id new) (find_rows token rows)
        else find_rows token rows)
unfolding find_rows update_if
find_rows-update of client_id new [] token = ground arith
find_rows-update of client_id new (q ∷ rest) token =
    let later = find_rows-update of client_id new rest token in
    elim (Bool-cases (q.token == token)) [
      | inl has ↦ elim (Bool-cases (of == token)) [
        | inl here ↦
            let e = (string_eq.same_iff q.token of).1 (
              (string_eq.same_iff q.token token).0 has
              ∙ sym ((string_eq.same_iff of token).0 here)) in
            rw (token-update_if of client_id new q, later, has, here, update_if, e) refl
        | inr elsewhere ↦
            let e : (q.token == of) ≡ false = ground (
              arith,
              string_eq.same_iff q.token of,
              string_eq.same_iff q.token token,
              string_eq.same_iff of token,
            ) in
            rw (token-update_if of client_id new q, later, has, elsewhere, update_if, e) refl
      ]
      | inr has_not ↦ elim (Bool-cases (of == token)) [
        | inl here ↦ rw (token-update_if of client_id new q, later, has_not, here) refl
        | inr elsewhere ↦ rw (token-update_if of client_id new q, later, has_not, elsewhere) refl
      ]
    ]

abbrev rows_table-IsTable : IsTable rows_table
rows_table-IsTable = record {
  new_id = λ rows. suc (length rows);
  find-create = λ p rows token.
      unfold create_row in find_rows-append token (record p { id = suc (length rows) }) rows;
  find-updates = λ of client_id new rows token. find_rows-update of client_id new rows token;
}

-- Two clients of one token; "b" logs in again from another port.
abbrev row_a : Peer
row_a = record {
  id = 1;
  client_id = "a";
  ip = "1.2.3.4";
  port = 5;
  wg_pub_key = "key a";
  token = "t";
  allowed_ip = "10.0.0.1";
  last_keep_alive_at = 0;
}

abbrev two_clients : List Peer
two_clients = row_a ∷ record row_a { id = 2; client_id = "b"; wg_pub_key = "key b" } ∷ []

abbrev new_login : PeerLogin
new_login = record {
  ip = "1.2.3.4";
  port = 6;
  client_id = "b";
  wg_pub_key = "";
  token = "t";
  allowed_ip = "10.0.0.9";
}

two_clients-AllUnique : (token : String) → IsUnique (members rows_table token two_clients)
unfolding members entries IsUnique find_rows lookup
two_clients-AllUnique token = elim (Bool-cases ("t" == token)) [
  | inl has ↦ rw (has, IsUnique) (refl, (refl, tt))
  | inr has_not ↦ rw (has_not, IsUnique) tt
]

-- The key and the allowed IP stay, the port is new.
register-members_example :
    (members rows_table "t" (register rows_table 7 new_login two_clients)
      ≡ enroll new_login (members rows_table "t" two_clients))
    × IsUnique (members rows_table "t" (register rows_table 7 new_login two_clients))
register-members_example =
    register-members rows_table rows_table-IsTable 7 new_login two_clients two_clients-AllUnique "t"

-- The first number of a packet says what it is: 0 a login of "b", 1 a query of "a".
abbrev numbers : ServerJson ℕ
numbers = record {
  decode_message = λ bytes. elim bytes [
    | [] ↦ none
    | b ∷ _ ↦
        some (record { message_type = elim b [ zero ↦ 1 | suc _ ↦ 3 ]; token = "t"; body = b })
  ];
  decode_login = λ b. some (record { client_id = "b"; wg_pub_key = ""; allowed_ip = "10.0.0.9" });
  decode_query = λ b. some (record { client_id = "a" });
  encode_response = λ r. r.port ∷ [];
  encode_configs = λ configs. length configs ∷ [];
}

abbrev phone : Remote
phone = record { ip = "1.2.3.4"; port = 6 }

-- The query is read while the login still waits, whose goroutine then finds the query.
abbrev events : List Event
events =
    reads (0 ∷ []) phone
    ∷ handles 0 7
    ∷ reads (0 ∷ []) phone
    ∷ reads (1 ∷ []) phone
    ∷ handles 0 8
    ∷ handles 0 9
    ∷ []

abbrev idle : Server (List Peer)
idle = record { buffer = 0 ∷ 0 ∷ []; waiting = []; store = two_clients }

overwritten :
    (serve rows_table numbers events idle).1
    ≡ (phone, some (6 ∷ [])) ∷ (phone, some (1 ∷ [])) ∷ (phone, some (1 ∷ [])) ∷ []
unfolding serve register update_row find_rows update_if get_clients
overwritten = refl

serve-Shows_example :
    Shows rows_table rows_table-IsTable numbers
      (stored rows_table rows_table-IsTable numbers (serve rows_table numbers events idle))
      (answers numbers
        (found events idle.buffer [])
        (view rows_table rows_table-IsTable numbers two_clients))
    × ((packets : List Packet) → found (in_turn packets) idle.buffer [] ≡ map cut packets)
unfolding AllUnique
serve-Shows_example =
    serve-Shows rows_table rows_table-IsTable numbers events idle two_clients-AllUnique

abbrev info_b : PeerInfo
info_b = record {
  client_id = "b";
  ip = "1.2.3.4";
  port = 5;
  wg_pub_key = "key b";
  allowed_ip = "10.0.0.1";
  last_keep_alive_at = "";
}

abbrev client_numbers : ClientJson
client_numbers = record {
  encode_login = λ m. some (0 ∷ []);
  encode_query = λ m. some (1 ∷ []);
  decode_response = λ bytes. none;
  decode_infos = λ bytes. elim bytes [ [] ↦ none | _ ∷ _ ↦ some (info_b ∷ []) ];
}

query_a :
    UnderstandsQuery rows_table numbers client_numbers "a" "t"
      (others rows_table numbers client_numbers "a" "t" two_clients)
unfolding others members entries find_rows info config info_of erase
query_a = record {
  bytes = 1 ∷ [];
  body = 1;
  encoded = refl;
  decoded = refl;
  asked = refl;
  read_back = refl;
}

get_remote_peers-others_example :
    get_remote_peers client_numbers
      (server_socket rows_table numbers client_numbers phone 9 two_clients)
      "a"
      "t"
    ≡ ok (info_b ∷ [])
unfolding others members entries find_rows info config info_of erase query_a
get_remote_peers-others_example =
    get_remote_peers-others rows_table numbers client_numbers "a" "t" phone 9 two_clients query_a
      (omega arith)
