-- ===== src/Engine/Connect.antt =====
-- client/internal/connect.go, `run` and `createEngineConfig`: the attempts to run an engine.
pub mod Runs
use punch.Common.{
  ℕ, Bool, true, false, Option, none, some, List, [], ◌∷◌, ◌++◌, Result, ok, err, if◌then◌else◌,
}
use punch.Engine.{free_port, PortError}

-- What one call of `operation` meets: whether the context is done already, which ports can be
-- listened on, and whether ClientRegister and the engine's Start and Stop return no error. Where
-- the engine starts, the call waits until its context is done.
pub record Attempt : Type 0 where
  pub stopped : Bool
  pub can_listen : ℕ → Bool
  pub registers_ok : Bool
  pub starts_ok : Bool
  pub stops_ok : Bool

-- ClientRegister, and the engine's Start, with a port for WireGuard, and the engine's Stop.
pub data Event : Type 0 where
  registers starts : ℕ → Event
  stops : Event

pub data RunError : Type 0 where
  bad_key no_free_port not_registered not_started not_stopped : RunError

-- What is called, and the error that is returned.
abbrev pub Calls : Type 0
Calls = List Event × Option RunError

stop_error : Bool → Option RunError
stop_error true = none
stop_error false = some not_stopped

with_port : ℕ → Bool → Bool → Bool → Calls
unfolding stop_error
with_port port false starts_ok stops_ok = (registers port ∷ [], some not_registered)
with_port port true false stops_ok = (registers port ∷ starts port ∷ [], some not_started)
with_port port true true stops_ok = (registers port ∷ starts port ∷ stops ∷ [], stop_error stops_ok)

-- The port is that of createEngineConfig.
with_config : Attempt → Result PortError ℕ → Calls
unfolding with_port
with_config a (err e) = ([], some no_free_port)
with_config a (ok port) = with_port port a.registers_ok a.starts_ok a.stops_ok

unfoldable pub operation : ℕ → Attempt → Calls
unfolding with_config
operation wg_port a =
    if a.stopped then ([], none) else with_config a (free_port a.can_listen wg_port)

and_then : Calls → Calls → Calls
and_then (events, none) rest = (events, none)
and_then (events, some e) rest = (events ++ rest.0, rest.1)

-- backoff.Retry: `later` are the attempts that it makes behind the first, while those before
-- them fail; with the last of them it gives up.
unfoldable pub retry : ℕ → Attempt → List Attempt → Calls
unfolding operation and_then
retry wg_port a [] = operation wg_port a
retry wg_port a (b ∷ later) =
    let rest = retry wg_port b later in and_then (operation wg_port a) rest

-- `key_ok` is whether wgtypes.ParseKey reads the configuration's private key.
unfoldable pub run : Bool → ℕ → Attempt → List Attempt → Calls
unfolding retry
run key_ok wg_port a later = if key_ok then retry wg_port a later else ([], some bad_key)
