-- ===== src/Stdnet/Lines.antt =====
-- client/internal/stdnet/discover_mobile.go: each line of the text is read for itself, and a list
-- of interfaces is read back from its text.
use punch.Common.{
  ℕ, ◌≡◌, ◌≢◌, refl, sym, ◌∙◌, false, some, List, [], ◌∷◌, ◌++◌, map, length, length-append, arith,
  ◌==◌, nat_eq,
}
use mathlib.Core.List.{append_assoc}
use punch.Text.{Text, text}
use punch.Text.Split.{
  split_on, has, trim, trim_start, trim_end, split_on-append, split_on-absent, trim_end-kept,
  has-append, trim_end-clean, trim_start-clean, trim_space-nonempty,
}
use punch.Stdnet.{
  Scanned, Interface, Parsers, flags_of, parse_addrs, with_addrs, parse_scanned, parse_fields,
  parse_line, parse_lines, parse_interfaces_string,
}

-- The bytes do not stand in the text.
abbrev pub IsWithout : List ℕ → Text → Type 0
IsWithout [] s = Unit {0}
IsWithout (c ∷ cs) s = (has c s ≡ false) × IsWithout cs s

-- An interface as the app writes it: the part in front of the bar, and its addresses.
pub record Listed (A : Type 0) : Type 0 where
  pub front : Text
  pub scanned : Scanned
  pub first : Text × A
  pub more : List (Text × A)

module _ {A : Type 0} where
  abbrev pub spaced : Text → List (Text × A) → Text
  spaced addr [] = addr
  spaced addr ((next, _) ∷ more) = addr ++ b' ' ∷ spaced next more

  abbrev pub line : Listed A → Text
  line d = d.front ++ b'|' ∷ spaced d.first.0 d.more

  abbrev pub listing : List (Listed A) → Text
  listing [] = []
  listing (d ∷ ds) = line d ++ b'\n' ∷ listing ds

  abbrev pub interface : Listed A → Interface A
  interface d = record {
    name = d.scanned.name;
    index = d.scanned.index;
    mtu = d.scanned.mtu;
    flags = flags_of d.scanned;
    addrs = d.first.1 ∷ map (λ a. a.1) d.more;
  }

length-nonempty : (s : Text) → s ≢ [] → (length s == 0) ≡ false
length-nonempty [] n = absurd (n refl)
length-nonempty (b ∷ s) n = ground arith

module _ {A : Type 0} (parsers : Parsers A) where
  -- net.ParseCIDR reads the address, whose text has none of the bytes that part the text.
  pub record IsAddr (addr : Text × A) : Type 0 where
    pub read : parsers.parse_cidr addr.0 ≡ some addr.1
    pub nonempty : addr.0 ≢ []
    pub without : IsWithout (b' ' ∷ b'\n' ∷ b'|' ∷ b'%' ∷ []) addr.0

  abbrev pub AreAddrs : List (Text × A) → Type 0
  AreAddrs [] = Unit {0}
  AreAddrs (a ∷ addrs) = IsAddr a × AreAddrs addrs

  pub record IsListed (d : Listed A) : Type 0 where
    pub scans : parsers.sscanf d.front ≡ some d.scanned
    pub without : IsWithout (b'\n' ∷ b'|' ∷ []) d.front
    pub first_ok : IsAddr d.first
    pub more_ok : AreAddrs d.more

  abbrev pub AreListed : List (Listed A) → Type 0
  AreListed [] = Unit {0}
  AreListed (d ∷ ds) = IsListed d × AreListed ds

  parse_lines-append :
      (xs ys : List Text)
      → parse_lines parsers (xs ++ ys) ≡ parse_lines parsers xs ++ parse_lines parsers ys
  unfolding parse_lines
  parse_lines-append [] ys = refl
  parse_lines-append (x ∷ xs) ys =
      rw (parse_lines-append xs ys) (
        sym (append_assoc (parse_line parsers x) (parse_lines parsers xs) (parse_lines parsers ys)))

  -- No line has a part in what another gives, whatever the two texts are.
  pub parse-lines :
      (s t : Text)
      → parse_interfaces_string parsers (s ++ b'\n' ∷ t)
        ≡ parse_interfaces_string parsers s ++ parse_interfaces_string parsers t
  unfolding parse_interfaces_string
  parse-lines s t =
      rw (split_on-append b'\n' s t) (parse_lines-append (split_on b'\n' s) (split_on b'\n' t))

  spaced-without :
      (c : ℕ) (first : Text × A) (more : List (Text × A))
      → (b' ' ≡ c → ⊥)
      → ((a : Text × A) → IsAddr a → has c a.0 ≡ false)
      → IsAddr first
      → AreAddrs more
      → has c (spaced first.0 more) ≡ false
  unfolding has
  spaced-without c first [] n f ok oks = f first ok
  spaced-without c first (next ∷ more) n f ok oks = ground (
    arith,
    n,
    has-append c first.0 (b' ' ∷ spaced next.0 more),
    f first ok,
    spaced-without c next more n f oks.0 oks.1,
  )

  split_on-spaced :
      (first : Text × A) (more : List (Text × A))
      → IsAddr first
      → AreAddrs more
      → split_on b' ' (spaced first.0 more) ≡ first.0 ∷ map (λ a. a.0) more
  split_on-spaced first [] ok oks = split_on-absent b' ' first.0 ok.without.0
  split_on-spaced first (next ∷ more) ok oks = rw (
    split_on-append b' ' first.0 (spaced next.0 more),
    split_on-absent b' ' first.0 ok.without.0,
    split_on-spaced next more oks.0 oks.1,
  )

  parse_addrs-read :
      (addrs : List (Text × A))
      → AreAddrs addrs
      → parse_addrs parsers (map (λ a. a.0) addrs) ≡ map (λ a. a.1) addrs
  unfolding parse_addrs
  parse_addrs-read [] oks = refl
  parse_addrs-read (a ∷ addrs) oks =
      rw (oks.0.without.1.1.1.0, oks.0.read, parse_addrs-read addrs oks.1)

  trim_end-spaced :
      (first : Text × A) (more : List (Text × A))
      → IsAddr first
      → AreAddrs more
      → (trim_end (text " \n") (spaced first.0 more) ≡ spaced first.0 more)
        × ((length (spaced first.0 more) == 0) ≡ false)
  trim_end-spaced first [] ok oks = (
    trim_end-clean b' ' b'\n' first.0 ok.without.0 ok.without.1.0,
    length-nonempty first.0 ok.nonempty,
  )
  trim_end-spaced first (next ∷ more) ok oks =
      let (kept, n) = trim_end-spaced next more oks.0 oks.1 in
      let t = spaced next.0 more in
      (
        trim_end-kept (text " \n") first.0 (b' ' ∷ t)
            (trim_end-kept (text " \n") (b' ' ∷ []) t kept n) (ground arith),
        ground (arith, length-append first.0 (b' ' ∷ t)),
      )

  trim_start-spaced :
      (first : Text × A) (more : List (Text × A))
      → IsAddr first
      → trim_start (text " \n") (spaced first.0 more) ≡ spaced first.0 more
  trim_start-spaced ([], a) more ok = absurd (ok.nonempty refl)
  trim_start-spaced (b ∷ s, a) [] ok = trim_start-clean b' ' b'\n' b s s ok.without.0 ok.without.1.0
  trim_start-spaced (b ∷ s, a) (next ∷ more) ok =
      trim_start-clean b' ' b'\n' b s (s ++ b' ' ∷ spaced next.0 more) ok.without.0 ok.without.1.0

  trim-spaced :
      (first : Text × A) (more : List (Text × A))
      → IsAddr first
      → AreAddrs more
      → trim (text " \n") (spaced first.0 more) ≡ spaced first.0 more
  unfolding trim
  trim-spaced first more ok oks =
      rw (trim_start-spaced first more ok) (trim_end-spaced first more ok oks).0

  parts_of_line :
      (d : Listed A) → IsListed d → split_on b'|' (line d) ≡ d.front ∷ spaced d.first.0 d.more ∷ []
  parts_of_line d ok =
      let clean =
        spaced-without b'|' d.first d.more (λ e. omega (arith, e)) (λ a addr. addr.without.1.1.0)
          ok.first_ok ok.more_ok in
      rw (
        split_on-append b'|' d.front (spaced d.first.0 d.more),
        split_on-absent b'|' d.front ok.without.1.0,
        split_on-absent b'|' (spaced d.first.0 d.more) clean,
      )

  parse_line-read : (d : Listed A) → IsListed d → parse_line parsers (line d) ≡ interface d ∷ []
  unfolding parse_line parse_fields parse_scanned with_addrs
  parse_line-read d ok = rw (
    trim_space-nonempty b'|' d.front (spaced d.first.0 d.more) refl,
    parts_of_line d ok,
    ok.scans,
    trim-spaced d.first d.more ok.first_ok ok.more_ok,
    split_on-spaced d.first d.more ok.first_ok ok.more_ok,
    parse_addrs-read (d.first ∷ d.more) (ok.first_ok, ok.more_ok),
  )

  line-without : (d : Listed A) → IsListed d → has b'\n' (line d) ≡ false
  unfolding has
  line-without d ok = ground (
    arith,
    has-append b'\n' d.front (b'|' ∷ spaced d.first.0 d.more),
    ok.without.0,
    spaced-without b'\n' d.first d.more (λ e. omega (arith, e)) (λ a addr. addr.without.1.0)
        ok.first_ok ok.more_ok,
  )

  pub parse-listing :
      (ds : List (Listed A))
      → AreListed ds
      → parse_interfaces_string parsers (listing ds) ≡ map interface ds
  unfolding parse_interfaces_string parse_lines
  parse-listing [] oks = refl
  parse-listing (d ∷ ds) oks =
      parse-lines (line d) (listing ds)
      ∙ rw (
        split_on-absent b'\n' (line d) (line-without d oks.0),
        parse_line-read d oks.0,
        parse-listing ds oks.1,
      )
