-- ===== src/Engine/Port.antt =====
-- client/internal/connect.go, `freePort`: which port it finds.
use punch.Common.{ℕ, ◌≡◌, ◌≤◌, ◌-◌, Bool, false, Option, none, some, Result, ok, err, arith}
use punch.WgProxy.Lookup.{LeastFree, Searched, first_port-Searched}
use punch.Engine.{free_port, PortError, no_free_ports, start_port}

-- Of the ports from the start on, where 0 stands for WireGuard's default.
abbrev pub Found : (ℕ → Bool) → ℕ → Result PortError ℕ → Type 0
Found can_listen start (err e) = (q : ℕ) → start_port start ≤ q → q ≤ 65535 → can_listen q ≡ false
Found can_listen start (ok port) = LeastFree can_listen (start_port start) 65536 port

or_error-Found :
    (can_listen : ℕ → Bool) (start : ℕ) (r : Option ℕ)
    → Searched can_listen (start_port start) 65536 r
    → Found can_listen start (elim r [ none ↦ err no_free_ports | some x ↦ ok x ])
or_error-Found can_listen start none h = λ q le lt. h q le (omega arith)
or_error-Found can_listen start (some port) h = h

-- `freePort` ends: it returns the least port from the start to 65535 that can be listened on,
-- and its error exactly where none of them can. The start must not be above 65536.
pub free_port-Found :
    (can_listen : ℕ → Bool) (start : ℕ)
    → start_port start ≤ 65536
    → Found can_listen start (free_port can_listen start)
unfolding free_port
free_port-Found can_listen start le = or_error-Found can_listen start _ (
    first_port-Searched can_listen (65536 - start_port start) (start_port start) 65536
      (omega (arith, le)))
