-- ===== src/Bind/Filter/Tests.antt =====
-- The filter at concrete inputs: the network "10.0.0.0" is routed up to time 1.
use punch.Common.{
  ℕ, ltb, ◌&&◌, List, ◌++◌, String, ◌≡◌, refl, true, none, some, [], ◌∷◌, ◌==◌, string_eq,
  if◌then◌else◌,
}
use punch.Common.Map.{lookup, insert}
use punch.Bind.Filter.{Checks, UdpConn, write_to, routed, cached_routed}
use punch.Bind.Filter.Cache.{run, refuses, routed_by, first_verdict, write_to-first}

abbrev checks : Checks String
checks = record {
  parse_host = λ addr. if addr == "?" then none else some addr;
  filter_fn = λ now a. some (ltb now 2 && a == "10.0.0.0");
}

abbrev fresh : UdpConn String
fresh = record { checks = some checks; addr_cache = [] }

abbrev earlier : List (ℕ × String)
earlier = (0, "8.8.8.8") ∷ (1, "10.0.0.0") ∷ []

-- At time 2 the network is no longer routed, but the address is still refused.
still_refused : (write_to 2 "10.0.0.0" (run earlier fresh)).1 ≡ some cached_routed
unfolding write_to run lookup insert
still_refused = refl

write_to-first_example :
    refuses (write_to 2 "10.0.0.0" (run earlier fresh)).1
    ≡ routed_by (first_verdict (some checks) (earlier ++ (2, "10.0.0.0") ∷ []) "10.0.0.0")
write_to-first_example = write_to-first (some checks) earlier 2 "10.0.0.0"

-- A refused address gives another error the first time.
first_error :
    write_to 1 "10.0.0.0" fresh
    ≡ (record fresh { addr_cache = ("10.0.0.0", true) ∷ [] }, some routed)
unfolding write_to lookup insert
first_error = refl
