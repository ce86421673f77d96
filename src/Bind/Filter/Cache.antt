-- ===== src/Bind/Filter/Cache.antt =====
-- iface/bind, udpConn: of the filter's answers for an address the first one counts.
use punch.Common.{
  ℕ, String, ◌≡◌, refl, ap, subst, Bool, true, false, Option, none, some, List, [], ◌∷◌, ◌++◌, ◌==◌,
  string_eq, eq_refl, arith, ◌∙◌, Option-cases, Bool-cases, inl, inr, if◌then◌else◌,
}
use punch.Common.Map.{Map, lookup, insert, lookup-insert}
use punch.Bind.Filter.{
  Error, Checks, UdpConn, filtered, routed, handle_cached_address, perform_filter_check, write_to,
}

abbrev pub refuses : Option Error → Bool
refuses none = false
refuses (some _) = true

abbrev pub routed_by : Option Bool → Bool
routed_by none = false
routed_by (some b) = b

abbrev pub or_else : Option Bool → Option Bool → Option Bool
or_else none later = later
or_else (some b) later = some b

or_else-none : (o : Option Bool) → o ≡ or_else o none
or_else-none none = refl
or_else-none (some b) = refl

or_else_assoc : (x y z : Option Bool) → or_else (or_else x y) z ≡ or_else x (or_else y z)
or_else_assoc none y z = refl
or_else_assoc (some b) y z = refl

module _ {A : Type 0} where
  -- What the filter says at a time of an address in text, if it says anything.
  unfoldable pub verdict : ℕ → Option (Checks A) → String → Option Bool
  verdict now none addr = none
  verdict now (some c) addr = elim (c.parse_host addr) [ none ↦ none | some a ↦ c.filter_fn now a ]

  -- Writes to addresses, each at its time.
  unfoldable pub run : List (ℕ × String) → UdpConn A → UdpConn A
  run [] u = u
  run ((now, addr) ∷ writes) u = run writes (write_to now addr u).0

  -- What the filter said first of the address, of the writes to it for which it said anything.
  unfoldable pub first_verdict : Option (Checks A) → List (ℕ × String) → String → Option Bool
  first_verdict checks [] addr = none
  first_verdict checks ((now, to) ∷ writes) addr =
      let later = first_verdict checks writes addr in
      if to == addr then or_else (verdict now checks addr) later else later

  abbrev with_cache : Option (Checks A) → Map String Bool → UdpConn A
  with_cache checks cache = record { checks = checks; addr_cache = cache }

  by_verdict : Checks A → String → Map String Bool → Option Bool → UdpConn A × Option Error
  by_verdict c addr cache none = (with_cache (some c) cache, none)
  by_verdict c addr cache (some b) =
      (with_cache (some c) (insert addr b cache), if b then some routed else none)

  check-by_verdict :
      (now : ℕ) (addr : String) (c : Checks A) (cache : Map String Bool)
      → perform_filter_check now c addr (with_cache (some c) cache)
        ≡ by_verdict c addr cache (verdict now (some c) addr)
  unfolding perform_filter_check verdict by_verdict
  check-by_verdict now addr c cache = elim (Option-cases (c.parse_host addr)) [
    | inl e ↦ rw (e, perform_filter_check, verdict) refl
    | inr (a, e) ↦ elim (Option-cases (c.filter_fn now a)) [
      | inl silent ↦ rw (e, perform_filter_check, verdict, silent) refl
      | inr (b, says) ↦ rw (e, perform_filter_check, verdict, says) refl
    ]
  ]

  -- A write refuses by the cached answer, or else by the filter's, which is cached then.
  record Written (c : Checks A) (addr : String) (said : Option Bool) (cache : Map String Bool)
      (r : UdpConn A × Option Error) : Type 0 where
    refused : refuses r.1 ≡ routed_by (or_else (lookup addr cache) said)
    new_cache : Map String Bool
    same_checks : r.0 ≡ with_cache (some c) new_cache
    cached :
        (t : String)
        → lookup t new_cache ≡ or_else (lookup t cache) (if addr == t then said else none)

  said-Written :
      (c : Checks A) (addr : String) (said : Option Bool) (cache : Map String Bool)
      → lookup addr cache ≡ none
      → Written c addr said cache (by_verdict c addr cache said)
  unfolding by_verdict
  said-Written c addr none cache new = record {
    refused = rw new refl;
    new_cache = cache;
    same_checks = refl;
    cached = λ t. ground (arith, or_else-none (lookup t cache));
  }
  said-Written c addr (some b) cache new = record {
    refused = ground (arith, new);
    new_cache = insert addr b cache;
    same_checks = refl;
    cached = λ t. elim (Bool-cases (addr == t)) [
      | inl same ↦
          let new_t : lookup t cache ≡ none =
            subst (λ (x : String). lookup x cache ≡ none) ((string_eq.same_iff addr t).0 same)
              new in
          ground (arith, lookup-insert addr t b cache, same, new_t)
      | inr differ ↦
          ground (arith, lookup-insert addr t b cache, differ, or_else-none (lookup t cache))
    ];
  }

  known-Written :
      (c : Checks A) (addr : String) (said : Option Bool) (cache : Map String Bool) (b : Bool)
      → lookup addr cache ≡ some b
      → Written c addr said cache (with_cache (some c) cache, handle_cached_address b)
  unfolding handle_cached_address
  known-Written c addr said cache b known = record {
    refused = ground (arith, known);
    new_cache = cache;
    same_checks = refl;
    cached = λ t. elim (Bool-cases (addr == t)) [
      | inl same ↦
          let known_t : lookup t cache ≡ some b =
            subst (λ (x : String). lookup x cache ≡ some b) ((string_eq.same_iff addr t).0 same)
              known in
          ground (arith, same, known_t)
      | inr differ ↦ ground (arith, differ, or_else-none (lookup t cache))
    ];
  }

  write_to-Written :
      (now : ℕ) (addr : String) (c : Checks A) (cache : Map String Bool)
      → Written c addr
          (verdict now (some c) addr)
          cache
          (write_to now addr (with_cache (some c) cache))
  unfolding write_to filtered
  write_to-Written now addr c cache = elim (Option-cases (lookup addr cache)) [
    | inl new ↦
        rw (new, filtered, check-by_verdict now addr c cache)
          (said-Written c addr (verdict now (some c) addr) cache new)
    | inr (b, known) ↦
        rw (known, filtered) (known-Written c addr (verdict now (some c) addr) cache b known)
  ]

  said_once :
      (now : ℕ) (c : Checks A) (addr : String)
      → verdict now (some c) addr ≡ first_verdict (some c) ((now, addr) ∷ []) addr
  unfolding first_verdict
  said_once now c addr = rw (eq_refl addr, first_verdict) (or_else-none (verdict now (some c) addr))

  first_said :
      (at : ℕ) (c : Checks A) (to addr : String) (known later : Option Bool)
      → or_else (or_else known (if to == addr then verdict at (some c) to else none)) later
        ≡ or_else known (if to == addr then or_else (verdict at (some c) addr) later else later)
  first_said at c to addr known later = elim (Bool-cases (to == addr)) [
    | inl same ↦
        rw (same, (string_eq.same_iff to addr).0 same)
          (or_else_assoc known (verdict at (some c) addr) later)
    | inr differ ↦ rw differ (or_else_assoc known none later)
  ]

  no_verdict :
      (checks : Option (Checks A)) (writes : List (ℕ × String)) (addr : String)
      → checks ≡ none
      → first_verdict checks writes addr ≡ none
  unfolding first_verdict verdict
  no_verdict checks [] addr e = refl
  no_verdict none ((at, to) ∷ writes) addr e = ground (arith, no_verdict none writes addr refl)
  no_verdict (some c) ((at, to) ∷ writes) addr e = absurd (ground (arith, e))

  no_filter :
      (writes : List (ℕ × String)) (cache : Map String Bool)
      → run writes (with_cache none cache) ≡ with_cache none cache
  unfolding run write_to
  no_filter [] cache = refl
  no_filter ((at, to) ∷ writes) cache = no_filter writes cache

  -- A write after others is refused by the first answer.
  write_after :
      (c : Checks A) (writes : List (ℕ × String)) (now : ℕ) (addr : String)
      (cache : Map String Bool)
      → refuses (write_to now addr (run writes (with_cache (some c) cache))).1
        ≡ routed_by
            (or_else (lookup addr cache) (first_verdict (some c) (writes ++ (now, addr) ∷ []) addr))
  unfolding run first_verdict
  write_after c [] now addr cache =
      let w = write_to-Written now addr c cache in
      w.refused
      ∙ ap (λ (o : Option Bool). routed_by (or_else (lookup addr cache) o)) (said_once now c addr)
  write_after c ((at, to) ∷ writes) now addr cache =
      let w = write_to-Written at to c cache in
      ap (λ (u : UdpConn A). refuses (write_to now addr (run writes u)).1) w.same_checks
      ∙ write_after c writes now addr w.new_cache
      ∙ ap routed_by (
          ap
            (λ (o : Option Bool).
              or_else o (first_verdict (some c) (writes ++ (now, addr) ∷ []) addr))
            (w.cached addr)
          ∙ first_said at c to addr (lookup addr cache)
              (first_verdict (some c) (writes ++ (now, addr) ∷ []) addr))

  -- For any writes on a new socket, at their times: a write is refused exactly where the filter
  -- called its address routed the first time that it said anything of it, be that at an earlier
  -- write or now. What the filter says later is not looked at, also after the routes have changed.
  pub write_to-first :
      (checks : Option (Checks A)) (writes : List (ℕ × String)) (now : ℕ) (addr : String)
      → refuses (write_to now addr (run writes (record { checks = checks; addr_cache = [] }))).1
        ≡ routed_by (first_verdict checks (writes ++ (now, addr) ∷ []) addr)
  unfolding lookup write_to
  write_to-first none writes now addr =
      rw (no_verdict none (writes ++ (now, addr) ∷ []) addr refl, no_filter writes []) refl
  write_to-first (some c) writes now addr = write_after c writes now addr []
