-- ===== src/NetHooks/Tests.antt =====
-- util/net: a socket's writes and a dialled connection, with hooks that are known by numbers.
use punch.Common.{
  ℕ, String, ◌≡◌, refl, true, false, Option, none, some, List, [], ◌∷◌, ◌==◌, string_eq,
  if◌then◌else◌, ok,
}
use punch.NetHooks.{Hooks, PacketConn, Dialling, dial_udp, bare, call_write_hooks}
use punch.NetHooks.Writes.{
  Event, writes, adds, removes, run, calls_for, expected, hooks_at_first, run-calls_for,
}
use punch.NetHooks.Dials.{IsHooked, dials-IsHooked}

abbrev hooks : Hooks
hooks = record {
  listener_write = 1 ∷ [];
  listener_close = [];
  dialer_dial = 3 ∷ [];
  dialer_close = 4 ∷ [];
}

abbrev conn : PacketConn
conn = record { id = 7; seen = [] }

resolve : String → Option ℕ
resolve a = if a == "b:1" then none else some 9

abbrev events : List Event
events = writes "a:1" ∷ adds 2 ∷ writes "a:1" ∷ writes "b:1" ∷ removes ∷ writes "a:1" ∷ []

called_once :
    calls_for resolve "a:1" (run resolve hooks conn events)
    ≡ record { hook = 1; conn_id = 7; addresses = 9 ∷ [] } ∷ []
unfolding calls_for run resolve call_write_hooks
called_once = refl

run-calls_for_example :
    calls_for resolve "a:1" (run resolve hooks conn events)
    ≡ expected resolve 7 "a:1" (hooks_at_first "a:1" hooks events)
run-calls_for_example = run-calls_for resolve "a:1" hooks conn events refl

abbrev dialling : Dialling ℕ
dialling = record { disabled = false; lookup = some (9 ∷ []); works = true; right_type = true }

closes_silently : (dial_udp hooks 7 dialling).1 ≡ ok bare
unfolding dial_udp
closes_silently = refl

dials-IsHooked_example : IsHooked hooks 7 dialling
dials-IsHooked_example = dials-IsHooked hooks 7 dialling
