-- ===== src/SharedSock/Reading.antt =====
-- sharedsock/sock_linux.go: what ReadFrom leaves in the buffer, and the count that it returns.
use punch.Common.{
  ℕ, suc, ◌+◌, ◌≡◌, ◌≤◌, refl, ap, ◌⊎◌, inl, inr, Bool, true, false, Option, none, some, List, [],
  ◌∷◌, take, drop, length, arith, if◌then◌else◌, Result, ok, err,
}
use punch.Bind.Addr.{Ip}
use punch.SharedSock.{
  Error, Sockaddr, RcvdPacket, Datagram, Parser, Read, inet4, inet6, other_family, copy_into,
  decoded, by_family, read_from, stopped, receive_failed, invalid_family, decode_failed,
}

-- The length in a UDP header counts the header's 8 bytes too.
pub record CountsHeader (parser : Parser) : Type 0 where
  pub counts4 :
      (buf : List ℕ) (d : Datagram)
      → parser.parse4 buf ≡ some d
      → d.udp_length ≡ length d.payload + 8
  pub counts6 :
      (buf : List ℕ) (d : Datagram)
      → parser.parse6 buf ≡ some d
      → d.udp_length ≡ length d.payload + 8

-- A payload that fits stands at the front of the buffer; behind it the buffer is as before. The
-- count reaches 8 bytes further.
pub record IsOvercounted (b payload : List ℕ) (r : Read) : Type 0 where
  pub count : r.n ≡ length payload + 8
  pub same_length : length r.buffer ≡ length b
  pub front : length payload ≤ length b → take (length payload) r.buffer ≡ payload
  pub behind : length payload ≤ length b → drop (length payload) r.buffer ≡ drop (length payload) b
  pub cut : length b ≤ length payload → r.buffer ≡ take (length b) payload

take-copy_into :
    (b payload : List ℕ)
    → length payload ≤ length b
    → take (length payload) (copy_into b payload) ≡ payload
take-copy_into b [] h = refl
take-copy_into [] (x ∷ payload) h = absurd (omega arith)
take-copy_into (y ∷ b) (x ∷ payload) h =
    ap (λ (s : List ℕ). x ∷ s) (take-copy_into b payload (omega arith))

drop-copy_into :
    (b payload : List ℕ)
    → length payload ≤ length b
    → drop (length payload) (copy_into b payload) ≡ drop (length payload) b
drop-copy_into [] [] h = refl
drop-copy_into (y ∷ b) [] h = refl
drop-copy_into [] (x ∷ payload) h = absurd (omega arith)
drop-copy_into (y ∷ b) (x ∷ payload) h = drop-copy_into b payload (omega arith)

length-copy_into : (b payload : List ℕ) → length (copy_into b payload) ≡ length b
length-copy_into [] [] = refl
length-copy_into [] (x ∷ payload) = refl
length-copy_into (y ∷ b) [] = refl
length-copy_into (y ∷ b) (x ∷ payload) = ap suc (length-copy_into b payload)

copy_into-cut :
    (b payload : List ℕ) → length b ≤ length payload → copy_into b payload ≡ take (length b) payload
copy_into-cut [] [] h = refl
copy_into-cut [] (x ∷ payload) h = refl
copy_into-cut (y ∷ b) [] h = absurd (omega arith)
copy_into-cut (y ∷ b) (x ∷ payload) h =
    ap (λ (s : List ℕ). x ∷ s) (copy_into-cut b payload (omega arith))

-- The packet's datagram, by the family of the address it came from: where that is IPv4 it has its
-- IP header in front.
abbrev pub Decodes : Parser → RcvdPacket → Ip → Option Datagram → Type 0
Decodes parser q ip d =
    (q.addr ≡ inet4 ip) × (parser.parse4 q.buf ≡ d)
    ⊎ (q.addr ≡ inet6 ip) × (parser.parse6 q.buf ≡ d)

-- What ReadFrom can return, of a packet that was received or of none.
abbrev pub Returned : Parser → List ℕ → Option RcvdPacket → Result Error Read → Type 0
Returned parser b none r = r ≡ err stopped
Returned parser b (some q) (ok r) =
    (q.failed ≡ false)
    × ((d : Datagram) × (ip : Ip) × Decodes parser q ip (some d)
        × (r.from ≡ record { ip = ip; port = d.src_port; zone = [] })
        × IsOvercounted b d.payload r)
Returned parser b (some q) (err receive_failed) = q.failed ≡ true
Returned parser b (some q) (err invalid_family) = (q.failed ≡ false) × (q.addr ≡ other_family)
Returned parser b (some q) (err decode_failed) =
    (q.failed ≡ false) × ((ip : Ip) × Decodes parser q ip none)
Returned parser b (some q) (err _) = ⊥

module _ (parser : Parser) (law : CountsHeader parser) (b : List ℕ) (q : RcvdPacket) where
  decoded-Returned :
      (ip : Ip) (d : Option Datagram)
      → q.failed ≡ false
      → Decodes parser q ip d
      → ((x : Datagram) → d ≡ some x → x.udp_length ≡ length x.payload + 8)
      → Returned parser b (some q) (decoded b ip d)
  decoded-Returned ip none f p l = (f, (ip, p))
  decoded-Returned ip (some d) f p l =
      let counted : IsOvercounted b d.payload _ = record {
        count = l d refl;
        same_length = length-copy_into b d.payload;
        front = take-copy_into b d.payload;
        behind = drop-copy_into b d.payload;
        cut = copy_into-cut b d.payload;
      } in
      (f, (d, ip, p, refl, counted))

  family-Returned :
      (a : Sockaddr)
      → q.failed ≡ false
      → q.addr ≡ a
      → Returned parser b (some q) (by_family parser b q.buf a)
  family-Returned (inet4 a) f e =
      decoded-Returned a (parser.parse4 q.buf) f (inl (e, refl)) (law.counts4 q.buf)
  family-Returned (inet6 a) f e =
      decoded-Returned a (parser.parse6 q.buf) f (inr (e, refl)) (law.counts6 q.buf)
  family-Returned other_family f e = (f, e)

  received-Returned :
      (failed : Bool)
      → q.failed ≡ failed
      → Returned parser b
          (some q)
          (if failed then err receive_failed else by_family parser b q.buf q.addr)
  received-Returned true f = f
  received-Returned false f = family-Returned q.addr f refl

module _ (parser : Parser) (law : CountsHeader parser) (b : List ℕ) where
  pub read_from-Returned : (p : Option RcvdPacket) → Returned parser b p (read_from parser b p)
  unfolding read_from
  read_from-Returned none = refl
  read_from-Returned (some q) = received-Returned parser law b q q.failed refl
