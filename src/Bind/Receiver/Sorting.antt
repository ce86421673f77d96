-- ===== src/Bind/Receiver/Sorting.antt =====
-- iface/bind/bind.go: what the receiver leaves for WireGuard, and what it hands to the mux.
use punch.Common.{
  ℕ, zero, suc, ◌+◌, ◌≡◌, ◌≤◌, inl, inr, refl, ap, sym, ◌∙◌, true, Option, none, some, List, [],
  ◌∷◌, ◌++◌, map, take, drop, set, length, length-append, ltb, arith, if◌then◌else◌, is_some,
  Bool-cases,
}
use mathlib.Core.List.{append_assoc}
use punch.Common.Panics.{ok}
use punch.Bind.Addr.{UdpAddr, Addr, udp}
use punch.Bind.Mux.{Net}
use punch.Bind.Receiver.{
  Packet, Stun, UniversalMux, Message, Slots, handle_stun_message, handle_decoded,
  filter_out_stun_messages, fill, receive_message, receive_from, receive, Round, stopped, failed,
  reads, read_from_conn,
}

-- The messages come from these UDP addresses.
abbrev pub AreFrom : List Message → List UdpAddr → Type 0
AreFrom [] [] = Unit {0}
AreFrom [] (a ∷ senders) = ⊥
AreFrom (msg ∷ msgs) [] = ⊥
AreFrom (msg ∷ msgs) (a ∷ senders) = (msg.addr ≡ udp a) × AreFrom msgs senders

module _ (stun : Stun) where
  -- The first of the buffers that has a STUN message.
  abbrev pub stun_buffer : List (List ℕ) → Option (List ℕ)
  stun_buffer [] = none
  stun_buffer (b ∷ bs) = let rest = stun_buffer bs in if stun.is_message b then some b else rest

  -- What WireGuard gets as a packet's size: nothing of a STUN message, else all of it.
  abbrev pub size_for_wireguard : Message → ℕ
  size_for_wireguard msg = if is_some (stun_buffer msg.buffers) then 0 else msg.n

  abbrev pub decoded_front : ℕ → Option (List ℕ) → Option Packet
  decoded_front n none = none
  decoded_front n (some b) = stun.decode (take n b)

  abbrev pub decoded_packet : Message → Option Packet
  decoded_packet msg = decoded_front msg.n (stun_buffer msg.buffers)

  abbrev pub and_from : Addr → Option Packet → List (Packet × Addr) → List (Packet × Addr)
  and_from addr none rest = rest
  and_from addr (some p) rest = (p, addr) ∷ rest

  -- The STUN messages that can be decoded, with their senders, in order.
  abbrev pub stun_messages : List Message → List (Packet × Addr)
  stun_messages [] = []
  stun_messages (msg ∷ msgs) = and_from msg.addr (decoded_packet msg) (stun_messages msgs)

module _ {B : Type 0} (net : Net B) where
  abbrev pub handle_all : List (Packet × Addr) → UniversalMux B → UniversalMux B
  handle_all [] m = m
  handle_all ((p, addr) ∷ ps) m = handle_all ps (handle_stun_message net p addr m)

set-at_length :
    {A : Type 0} (i : ℕ) (xs : List A) (y : A) (ys : List A) (v : A)
    → i ≡ length xs
    → set (xs ++ y ∷ ys) i v ≡ xs ++ v ∷ ys
set-at_length zero [] y ys v h = refl
set-at_length (suc i) [] y ys v h = absurd (omega (arith, h))
set-at_length zero (x ∷ xs) y ys v h = absurd (omega (arith, h))
set-at_length (suc i) (x ∷ xs) y ys v h =
    ap (λ (zs : List _). x ∷ zs) (set-at_length i xs y ys v (omega (arith, h)))

append-next : {A : Type 0} (xs : List A) (x : A) (ys : List A) → xs ++ x ∷ ys ≡ xs ++ x ∷ [] ++ ys
append-next xs x ys = sym (append_assoc xs (x ∷ []) ys)

ltb-inside :
    {A : Type 0} (i : ℕ) (xs : List A) (y : A) (ys : List A)
    → i ≡ length xs
    → ltb i (length (xs ++ y ∷ ys)) ≡ true
ltb-inside i xs y ys h = ground (arith, length-append xs (y ∷ ys), h)

fill-next :
    (i : ℕ) (ds rs : List ℕ) (de re : List UdpAddr) (size old : ℕ) (a b : UdpAddr)
    → i ≡ length ds
    → i ≡ length de
    → fill i size (udp a) (record { sizes = ds ++ old ∷ rs; eps = de ++ b ∷ re })
      ≡ ok (record { sizes = ds ++ size ∷ rs; eps = de ++ a ∷ re })
unfolding fill
fill-next i ds rs de re size old a b h h' = rw (
  ltb-inside i ds old rs h,
  ltb-inside i de b re h',
  set-at_length i ds old rs size h,
  set-at_length i de b re a h',
)

-- The messages that are read before the context is done.
abbrev pub read_messages : Stun → List Round → List (Packet × Addr)
read_messages stun [] = []
read_messages stun (stopped ∷ rounds) = []
read_messages stun (failed ∷ rounds) = read_messages stun rounds
read_messages stun (reads bytes addr ∷ rounds) =
    and_from stun addr (stun.decode bytes) (read_messages stun rounds)

module _ {B : Type 0} (net : Net B) (stun : Stun) where
  handle_all-and_from :
      (addr : Addr) (p : Option Packet) (rest : List (Packet × Addr)) (m : UniversalMux B)
      → handle_all net (and_from stun addr p rest) m
        ≡ handle_all net rest (handle_decoded net p addr m)
  unfolding handle_decoded
  handle_all-and_from addr none rest m = refl
  handle_all-and_from addr (some p) rest m = refl

  filter_out-sorted :
      (bs : List (List ℕ)) (n : ℕ) (addr : Addr) (m : UniversalMux B)
      → filter_out_stun_messages net stun bs n addr m ≡ (
        handle_decoded net (decoded_front stun n (stun_buffer stun bs)) addr m,
        is_some (stun_buffer stun bs),
      )
  unfolding filter_out_stun_messages handle_decoded
  filter_out-sorted [] n addr m = refl
  filter_out-sorted (b ∷ bs) n addr m = elim (Bool-cases (stun.is_message b)) [
    | inl is ↦ rw (is, filter_out_stun_messages) refl
    | inr is_not ↦ rw (is_not, filter_out_stun_messages) (filter_out-sorted bs n addr m)
  ]

  receive_message-sorted :
      (msg : Message) (a : UdpAddr) (i : ℕ) (ds rs : List ℕ) (de re : List UdpAddr) (old : ℕ)
      (b : UdpAddr) (m : UniversalMux B)
      → i ≡ length ds
      → i ≡ length de
      → msg.addr ≡ udp a
      → receive_message net stun i msg (record { sizes = ds ++ old ∷ rs; eps = de ++ b ∷ re }) m
        ≡ ok (
          record { sizes = ds ++ size_for_wireguard stun msg ∷ rs; eps = de ++ a ∷ re },
          handle_decoded net (decoded_packet stun msg) msg.addr m,
        )
  unfolding receive_message
  receive_message-sorted msg a i ds rs de re old b m h h' f = rw (
    filter_out-sorted msg.buffers msg.n msg.addr m,
    f,
    fill-next i ds rs de re (size_for_wireguard stun msg) old a b h h',
  )

  receive_from-sorted :
      (msgs : List Message) (senders : List UdpAddr) (i : ℕ) (ds rs : List ℕ) (de re : List UdpAddr)
      (m : UniversalMux B)
      → i ≡ length ds
      → i ≡ length de
      → AreFrom msgs senders
      → length msgs ≤ length rs
      → length msgs ≤ length re
      → receive_from net stun i msgs (record { sizes = ds ++ rs; eps = de ++ re }) m
        ≡ ok (
          record {
            sizes = ds ++ (map (size_for_wireguard stun) msgs ++ drop (length msgs) rs);
            eps = de ++ (senders ++ drop (length msgs) re);
          },
          handle_all net (stun_messages stun msgs) m,
        )
  unfolding receive_from receive_message
  receive_from-sorted [] [] i ds rs de re m h h' f l l' = refl
  receive_from-sorted [] (a ∷ senders) i ds rs de re m h h' f l l' = absurd f
  receive_from-sorted (msg ∷ msgs) [] i ds rs de re m h h' f l l' = absurd f
  receive_from-sorted (msg ∷ msgs) (a ∷ senders) i ds [] de re m h h' f l l' =
      absurd (omega (arith, l))
  receive_from-sorted (msg ∷ msgs) (a ∷ senders) i ds (old ∷ rs) de [] m h h' f l l' =
      absurd (omega (arith, l'))
  receive_from-sorted (msg ∷ msgs) (a ∷ senders) i ds (old ∷ rs) de (b ∷ re) m h h' f l l' =
      let size = size_for_wireguard stun msg in
      let rest =
        receive_from-sorted msgs senders (1 + i) (ds ++ size ∷ []) rs (de ++ a ∷ []) re
          (handle_decoded net (decoded_packet stun msg) msg.addr m)
          (omega (arith, length-append ds (size ∷ []), h))
          (omega (arith, length-append de (a ∷ []), h')) f.1 (omega (arith, l))
          (omega (arith, l')) in
      rw
        (
          receive_message-sorted msg a i ds rs de re old b m h h' f.0,
          append-next ds size rs,
          append-next de a re,
          append-next ds size (map (size_for_wireguard stun) msgs ++ drop (length msgs) rs),
          append-next de a (senders ++ drop (length msgs) re),
          handle_all-and_from msg.addr (decoded_packet stun msg) (stun_messages stun msgs) m,
        )
        rest

  -- Where there is room for a batch of packets from UDP addresses, the receiver does not panic and
  -- returns how many there are. WireGuard sees them in order, with their senders, a packet with a
  -- STUN message as one of size 0 and any other with all of its bytes; the slots behind them are as
  -- before. The mux has handled exactly the STUN messages that can be decoded, in order.
  pub receive-sorted :
      (msgs : List Message) (senders : List UdpAddr) (s : Slots) (m : UniversalMux B)
      → AreFrom msgs senders
      → length msgs ≤ length s.sizes
      → length msgs ≤ length s.eps
      → receive net stun (some msgs) s m
        ≡ ok (
          length msgs,
          record {
            sizes = map (size_for_wireguard stun) msgs ++ drop (length msgs) s.sizes;
            eps = senders ++ drop (length msgs) s.eps;
          },
          handle_all net (stun_messages stun msgs) m,
        )
  unfolding receive
  receive-sorted msgs senders s m f l l' =
      rw (receive_from-sorted msgs senders 0 [] s.sizes [] s.eps m refl refl f l l')

  -- ReadFromConn hands the decoded messages, in order, to the same handler as the receiver.
  pub read_from_conn-handled :
      (rounds : List Round) (m : UniversalMux B)
      → (read_from_conn net stun rounds m).0 ≡ handle_all net (read_messages stun rounds) m
  unfolding read_from_conn
  read_from_conn-handled [] m = refl
  read_from_conn-handled (stopped ∷ rounds) m = refl
  read_from_conn-handled (failed ∷ rounds) m = read_from_conn-handled rounds m
  read_from_conn-handled (reads bytes addr ∷ rounds) m =
      read_from_conn-handled rounds (handle_decoded net (stun.decode bytes) addr m)
      ∙ sym (handle_all-and_from addr (stun.decode bytes) (read_messages stun rounds) m)
