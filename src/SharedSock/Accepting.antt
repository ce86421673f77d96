-- ===== src/SharedSock/Accepting.antt =====
-- sharedsock/stun_filter_linux.go: which packets the instructions let through.
use punch.Common.{
  ℕ, suc, ◌+◌, ◌≡◌, ◌≢◌, ◌≤◌, ◌↔◌, sym, ap, subst, ◌∙◌, List, [], ◌∷◌, ◌++◌, ◌==◌, nat_eq, leb,
  take, drop, length, length-append, if◌then◌else◌, arith,
}
use punch.SharedSock.StunFilter.{
  Instruction, IsMachine, get_instructions, raw_instructions, big_endian, magic_cookie,
  load_absolute, jump_not_equal, ret_constant,
}

-- The bytes of the UDP header in front of the payload: the ports, the length, the checksum.
abbrev pub datagram : ℕ → ℕ → ℕ → ℕ → ℕ → ℕ → ℕ → ℕ → List ℕ → List ℕ
datagram s s' d d' l l' c c' payload = s ∷ s' ∷ d ∷ d' ∷ l ∷ l' ∷ c ∷ c' ∷ payload

-- The second word of the payload is STUN's magic cookie.
pub record HasCookie (payload : List ℕ) : Type 0 where
  pub inside : 8 ≤ length payload
  pub cookie : big_endian 0 (take 4 (drop 4 payload)) ≡ magic_cookie

drop-header :
    (header rest : List ℕ) (n : ℕ) → drop (length header + n) (header ++ rest) ≡ drop n rest
drop-header [] rest n = ap (λ (k : ℕ). drop k rest) (omega arith)
drop-header (h ∷ header) rest n =
    ap (λ (k : ℕ). drop k (h ∷ (header ++ rest)))
      (let e : suc (length header) + n ≡ suc (length header + n) = omega arith in e)
    ∙ drop-header header rest n

module _ (exec : List Instruction → ℕ → List ℕ → ℕ) (m : IsMachine exec) where
  -- The program in one expression.
  verdict :
      (port_off cookie_off port a : ℕ) (p : List ℕ)
      → exec (raw_instructions port_off cookie_off port) a p ≡ (
          if leb (port_off + 2) (length p)
          then if big_endian 0 (take 2 (drop port_off p)) == port
            then if leb (cookie_off + 4) (length p)
              then if big_endian 0 (take 4 (drop cookie_off p)) == magic_cookie
                then 0xffffffff
                else 0
              else 0
            else 0
          else 0)
  verdict port_off cookie_off port a p =
      let match : List Instruction = ret_constant 0xffffffff ∷ ret_constant 0 ∷ [] in
      let cookie : List Instruction = jump_not_equal magic_cookie 1 ∷ match in
      let dst = big_endian 0 (take 2 (drop port_off p)) in
      let word = big_endian 0 (take 4 (drop cookie_off p)) in
      ground (
        arith,
        m.loads port_off 2 a p (jump_not_equal port 3 ∷ load_absolute cookie_off 4 ∷ cookie),
        m.jumps port 3 dst p (load_absolute cookie_off 4 ∷ cookie),
        m.loads cookie_off 4 dst p cookie,
        m.jumps magic_cookie 1 word p match,
        m.returns 0xffffffff word p (ret_constant 0 ∷ []),
        m.returns 0 word p [],
        m.returns 0 dst p [],
      )

  abbrev Verdict : ℕ → ℕ → List ℕ → ℕ → Type 0
  Verdict dst port payload v =
      ((v ≡ 0xffffffff) ↔ ((dst ≡ port) × HasCookie payload)) × (v ≢ 0xffffffff → v ≡ 0)

  -- With the fields read, whatever stands in front of the datagram.
  branch-Verdict :
      (dst port n k : ℕ) (payload : List ℕ)
      → n ≡ k + (8 + length payload)
      → Verdict dst port payload (
          if leb (k + 2 + 2) n
          then if dst == port
            then if leb (k + 12 + 4) n
              then if big_endian 0 (take 4 (drop 4 payload)) == magic_cookie then 0xffffffff else 0
              else 0
            else 0
          else 0)
  branch-Verdict dst port n k payload e = (
    (
      λ h.
          (ground (arith, h), record { inside = ground (arith, h, e); cookie = ground (arith, h) }),
      λ f. ground (arith, e, f.0, f.1.inside, f.1.cookie),
    ),
    λ h. ground (arith, h),
  )

  -- Behind a header of any length, with the offsets counted from its end.
  header-Verdict :
      (header payload : List ℕ) (s s' d d' l l' c c' port port_off cookie_off : ℕ)
      → port_off ≡ length header + 2
      → cookie_off ≡ length header + 12
      → Verdict (big_endian 0 (d ∷ d' ∷ [])) port payload (
          exec
            (raw_instructions port_off cookie_off port)
            0
            (header ++ datagram s s' d d' l l' c c' payload))
  header-Verdict header payload s s' d d' l l' c c' port port_off cookie_off e f =
      let p = header ++ datagram s s' d d' l l' c c' payload in
      let at_port : drop (length header + 2) p ≡ d ∷ d' ∷ l ∷ l' ∷ c ∷ c' ∷ payload =
        drop-header header (datagram s s' d d' l l' c c' payload) 2 in
      let at_cookie : drop (length header + 12) p ≡ drop 4 payload =
        drop-header header (datagram s s' d d' l l' c c' payload) 12 in
      subst (Verdict (big_endian 0 (d ∷ d' ∷ [])) port payload)
        (sym (verdict port_off cookie_off port 0 p))
        (rw (e, f, at_port, at_cookie)
          (branch-Verdict (big_endian 0 (d ∷ d' ∷ [])) port (length p) (length header) payload
            (omega (arith, length-append header (datagram s s' d d' l l' c c' payload)))))

  -- The packet's datagram is a STUN message to the port: the kernel's verdict is to let all of it
  -- through exactly then, and nothing of it otherwise.
  abbrev pub Filtered : List Instruction → List ℕ → ℕ → ℕ → ℕ → List ℕ → Type 0
  Filtered instructions packet port d d' payload =
      ((exec instructions 0 packet ≡ 0xffffffff)
        ↔ ((big_endian 0 (d ∷ d' ∷ []) ≡ port) × HasCookie payload))
      × (exec instructions 0 packet ≢ 0xffffffff → exec instructions 0 packet ≡ 0)

  -- The filter on a UDP packet, with an IPv4 header that has no options, or in IPv6, where the
  -- socket gives none: it lets all of the packet through exactly where its destination is the
  -- port and the magic cookie is in its payload's second word, and nothing otherwise.
  pub get_instructions-Filtered :
      (port s s' d d' l l' c c' : ℕ) (payload header : List ℕ)
      → length header ≡ 20
      → Filtered
          (get_instructions port).0
          (header ++ datagram s s' d d' l l' c c' payload)
          port
          d
          d'
          payload
        × Filtered
            (get_instructions port).1
            (datagram s s' d d' l l' c c' payload)
            port
            d
            d'
            payload
  unfolding get_instructions
  get_instructions-Filtered port s s' d d' l l' c c' payload header e = (
    header-Verdict header payload s s' d d' l l' c c' port 22 32 (omega arith) (omega arith),
    header-Verdict [] payload s s' d d' l l' c c' port 2 12 (omega arith) (omega arith),
  )
