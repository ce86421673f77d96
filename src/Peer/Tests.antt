-- ===== src/Peer/Tests.antt =====
-- client/internal/peer/conn.go: schedules of one connection.
use punch.Common.{◌≡◌, refl, true, false, none, some, [], ◌∷◌, List}
use punch.Peer.{
  Conn, ConnConfig, Event, open_goes, cancelled, called_close, close_goes, new_conn, run, waiting,
  disconnected, closer, locking_cleanup, PeerUpdate,
}
use punch.Engine.{OfferAnswer}
use punch.Peer.Closing.{IsDeadlocked, run-IsDeadlocked}

abbrev config : ConnConfig
config = record { key = "k"; remote_key = "k"; allowed_ips = "10.0.0.2/32" }

abbrev answer : OfferAnswer
answer = record { wg_listen_port = 51820; wg_addr = "1.2.3.4" }

abbrev opened : List Event
opened = open_goes true ∷ open_goes true ∷ open_goes true ∷ open_goes true ∷ []

abbrev update : PeerUpdate
update = record {
  peer_key = "k";
  allowed_ips = "10.0.0.2/32";
  keep_alive_seconds = 2;
  ip = "1.2.3.4";
  port = 51820;
}

abbrev ended : Conn
ended = record {
  config = config;
  remote_answer = answer;
  mu = none;
  opening = disconnected;
  closing = [];
  done = true;
  updates = update ∷ [];
}

-- Open ends with the engine's context.
open_disconnects :
    run
      (open_goes true
        ∷ open_goes true
        ∷ open_goes true
        ∷ open_goes true
        ∷ cancelled
        ∷ open_goes true
        ∷ [])
      (new_conn config answer)
    ≡ some ended
unfolding run new_conn
open_disconnects = refl

abbrev stuck : Conn
stuck = record {
  config = config;
  remote_answer = answer;
  mu = some (closer 0);
  opening = waiting;
  closing = locking_cleanup ∷ [];
  done = false;
  updates = update ∷ [];
}

abbrev closes : List Event
closes =
    open_goes true
    ∷ open_goes true
    ∷ open_goes true
    ∷ open_goes true
    ∷ called_close
    ∷ close_goes 0
    ∷ []

close_locks : run closes (new_conn config answer) ≡ some stuck
unfolding run new_conn
close_locks = refl

-- cleanup's lock blocks.
close_blocks : run (close_goes 0 ∷ []) stuck ≡ none
unfolding run
close_blocks = refl

run-IsDeadlocked_example : IsDeadlocked stuck
run-IsDeadlocked_example = run-IsDeadlocked config answer closes stuck close_locks
