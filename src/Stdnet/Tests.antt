-- ===== src/Stdnet/Tests.antt =====
-- client/internal/stdnet: two interfaces of a phone, and the filter.
use punch.Common.{
  ℕ, ◌≡◌, refl, true, false, Option, none, some, [], ◌∷◌, ◌==◌, map, arith, if◌then◌else◌,
}
use punch.Text.{Text, text, text_eq, same_text}
use punch.Text.Fields.{pos}
use punch.Text.Split.{has}
use punch.Stdnet.{
  Scanned, Parsers, WgAnswer, no_device, device, interface_filter, parse_interfaces_string,
}
use punch.Stdnet.Lines.{Listed, IsListed, listing, interface, parse-listing}

abbrev wlan : Scanned
wlan = record {
  name = text "wlan0";
  index = pos 3;
  mtu = pos 1500;
  up = true;
  broadcast = true;
  loopback = false;
  point_to_point = false;
  multicast = true;
}

abbrev read_addr : Text → Option ℕ
read_addr s =
    if s == text "10.0.0.2/8" then some 1 else if s == text "fd::1/64" then some 2 else none

abbrev parsers : Parsers ℕ
parsers = record {
  sscanf = λ s. if s == text "wlan0" then some wlan else none;
  parse_cidr = read_addr;
}

abbrev listed : Listed ℕ
listed = record {
  front = text "wlan0";
  scanned = wlan;
  first = (text "10.0.0.2/8", 1);
  more = (text "fd::1/64", 2) ∷ [];
}

listed-IsListed : IsListed parsers listed
unfolding has same_text
listed-IsListed = record {
  scans = refl;
  without = (refl, (refl, tt));
  first_ok = record {
    read = refl;
    nonempty = λ e. ground (arith, e);
    without = (refl, (refl, (refl, (refl, tt))));
  };
  more_ok = (
    record {
      read = refl;
      nonempty = λ e. ground (arith, e);
      without = (refl, (refl, (refl, (refl, tt))));
    },
    tt,
  );
}

parse-listing_example :
    parse_interfaces_string parsers (listing (listed ∷ listed ∷ []))
    ≡ map interface (listed ∷ listed ∷ [])
parse-listing_example =
    parse-listing parsers (listed ∷ listed ∷ []) (listed-IsListed, (listed-IsListed, tt))

-- A line without a bar, one that Sscanf does not read, and an address with a zone.
skipped :
    parse_interfaces_string parsers (text "wlan0\nwlan1|10.0.0.2/8\nwlan0|fe80::1%wlan0/64\n") ≡ []
unfolding parse_interfaces_string same_text
skipped = refl

wg_answer : Text → WgAnswer
wg_answer s = if s == text "wg0" then device else no_device

-- The prefix "lo" also stops an interface that is no loopback.
filtered :
    map
      (interface_filter false wg_answer (text "tun" ∷ []))
      (text "lo" ∷ text "lowpan0" ∷ text "tun0" ∷ text "wg0" ∷ text "eth0" ∷ [])
    ≡ false ∷ false ∷ false ∷ false ∷ true ∷ []
unfolding interface_filter wg_answer same_text
filtered = refl
