-- ===== src/Engine/Polls.antt =====
-- client/internal/engine.go: the connections after any polls.
use punch.Common.{
  ℕ, zero, suc, String, ◌≡◌, ◌+◌, refl, subst, Option-cases, ◌∙◌, ap, Option, none, some, List, [],
  ◌∷◌, ◌++◌, ◌==◌, string_eq, length, get_elem?, if◌then◌else◌, arith, Bool-cases, inl, inr,
}
use punch.Common.Map.{lookup, lookup-insert}
use punch.Signal.Exchange.{PeerInfo}
use punch.Engine.{Engine, Conn, create_peer_conn, add_new_peer, add_new_peers}

-- The connection that a key stands for.
unfoldable pub conn_of : String → Engine → Option Conn
conn_of key e = elim (lookup key e.peer_conns) [ none ↦ none | some id ↦ get_elem? e.heap id ]

-- The last of some peers with a key, if there is one; else what was there before.
pub latest : ℕ → String → List PeerInfo → Option Conn → Option Conn
latest port key [] before = before
latest port key (p ∷ ps) before =
    latest port key ps (if p.wg_pub_key == key then some (create_peer_conn port p) else before)

unfoldable pub times_listed : String → List PeerInfo → ℕ
times_listed key [] = 0
times_listed key (p ∷ ps) =
    if p.wg_pub_key == key then suc (times_listed key ps) else times_listed key ps

unfoldable pub workers_of : String → List (ℕ × String) → ℕ
workers_of key [] = 0
workers_of key ((id, k) ∷ ws) = if k == key then suc (workers_of key ws) else workers_of key ws

-- Every key stands for a connection of the heap.
unfoldable pub InHeap : Engine → Type 0
InHeap e =
    (key : String) (id : ℕ)
    → lookup key e.peer_conns ≡ some id
    → (c : Conn) × (get_elem? e.heap id ≡ some c)

workers_of-append :
    (key : String) (ws : List (ℕ × String)) (id : ℕ) (k : String)
    → workers_of key (ws ++ (id, k) ∷ []) ≡ workers_of key ws + (if k == key then 1 else 0)
unfolding workers_of
workers_of-append key [] id k = ground arith
workers_of-append key ((j, l) ∷ ws) id k = ground (arith, workers_of-append key ws id k)

get_elem?-added :
    (heap : List Conn) (c d : Conn) (id : ℕ)
    → get_elem? heap id ≡ some d
    → get_elem? (heap ++ c ∷ []) id ≡ some d
get_elem?-added [] c d id h = absurd (ground (arith, h))
get_elem?-added (x ∷ heap) c d zero h = h
get_elem?-added (x ∷ heap) c d (suc id) h = get_elem?-added heap c d id h

added_last : (heap : List Conn) (c : Conn) → get_elem? (heap ++ c ∷ []) (length heap) ≡ some c
added_last [] c = refl
added_last (x ∷ heap) c = added_last heap c

add-InHeap : (p : PeerInfo) (e : Engine) → InHeap e → InHeap (add_new_peer p e)
unfolding InHeap add_new_peer
add-InHeap p e h key id k =
    let by = lookup-insert p.wg_pub_key key (length e.heap) e.peer_conns in
    elim (Bool-cases (p.wg_pub_key == key)) [
      | inl same ↦
          let at : length e.heap ≡ id = ground (arith, by, same, k) in
          (
            create_peer_conn e.wg_port p,
            subst
                (λ (i : ℕ).
                  get_elem? (e.heap ++ create_peer_conn e.wg_port p ∷ []) i
                  ≡ some (create_peer_conn e.wg_port p))
                at (added_last e.heap (create_peer_conn e.wg_port p)),
          )
      | inr differ ↦
          let (c, there) = h key id (ground (arith, by, differ, k)) in
          (c, get_elem?-added e.heap (create_peer_conn e.wg_port p) c id there)
    ]

add-conn_of :
    (p : PeerInfo) (e : Engine) (key : String)
    → InHeap e
    → conn_of key (add_new_peer p e)
      ≡ (if p.wg_pub_key == key then some (create_peer_conn e.wg_port p) else conn_of key e)
unfolding conn_of add_new_peer InHeap
add-conn_of p e key h =
    let new = create_peer_conn e.wg_port p in
    let by = lookup-insert p.wg_pub_key key (length e.heap) e.peer_conns in
    elim (Bool-cases (p.wg_pub_key == key)) [
      | inl same ↦ rw (conn_of, by, same) (added_last e.heap new)
      | inr differ ↦ elim (Option-cases (lookup key e.peer_conns)) [
        | inl unknown ↦ rw (conn_of, by, differ, conn_of, unknown) refl
        | inr (id, known) ↦
            let (c, there) = h key id known in
            rw (conn_of, by, differ, conn_of, known, get_elem?-added e.heap new c id there, there)
              refl
      ]
    ]

pub add_new_peers-latest :
    (ps : List PeerInfo) (e : Engine) (key : String)
    → InHeap e
    → (conn_of key (add_new_peers ps e) ≡ latest e.wg_port key ps (conn_of key e))
      × (workers_of key (add_new_peers ps e).workers
          ≡ workers_of key e.workers + times_listed key ps)
      × InHeap (add_new_peers ps e)
unfolding add_new_peers latest times_listed
add_new_peers-latest [] e key h = (refl, omega arith, h)
add_new_peers-latest (p ∷ ps) e key h =
    let (c, w, h') = add_new_peers-latest ps (add_new_peer p e) key (add-InHeap p e h) in
    let first : conn_of key (add_new_peer p e)
        ≡ (if p.wg_pub_key == key then some (create_peer_conn e.wg_port p) else conn_of key e) =
      add-conn_of p e key h in
    (
      c ∙ unfold add_new_peer in ap (latest e.wg_port key ps) first,
      unfold add_new_peer in
          ground (arith, w, workers_of-append key e.workers (length e.heap) p.wg_pub_key),
      h',
    )
