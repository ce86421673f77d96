-- ===== src/Peer.antt =====
-- client/internal/peer/conn.go: a connection to a peer, opened by one goroutine, that others may
-- ask to close. A step of a goroutine ends where it takes or frees the mutex, or waits.
pub mod Closing
mod Tests
use punch.Common.{
  ℕ, zero, suc, String, Bool, true, false, Option, none, some, List, [], ◌∷◌, ◌++◌, length,
  get_elem?, set, if◌then◌else◌,
}
use punch.Engine.{OfferAnswer}

-- The parts of ConnConfig that Open reads.
pub record ConnConfig : Type 0 where
  pub key : String
  pub remote_key : String
  pub allowed_ips : String

-- The arguments of UpdatePeer. `ip` is the text that net.ParseIP is given; it stays nil where
-- that is no address.
pub record PeerUpdate : Type 0 where
  pub peer_key : String
  pub allowed_ips : String
  pub keep_alive_seconds : ℕ
  pub ip : String
  pub port : ℕ

abbrev pub default_wg_keep_alive : ℕ
default_wg_keep_alive = 2

-- Where the goroutine in Open is: at the first lock, behind it, at configureConnection's lock,
-- behind it, in the select; or how Open has returned.
pub data OpenAt : Type 0 where
  locking setting_context locking_configure configuring waiting : OpenAt
  update_failed disconnected closed : OpenAt

-- Where a goroutine in Close is: at its lock, at cleanup's lock, behind that one, at the send on
-- closeCh; or how Close has returned.
pub data CloseAt : Type 0 where
  locking locking_cleanup cleaning sending : CloseAt
  delivered already_closed : CloseAt

pub data Goroutine : Type 0 where
  opener : Goroutine
  closer : ℕ → Goroutine

-- `mu` is who has locked the mutex, `done` whether the engine's context is.
pub record Conn : Type 0 where
  pub config : ConnConfig
  pub remote_answer : OfferAnswer
  pub mu : Option Goroutine
  pub opening : OpenAt
  pub closing : List CloseAt
  pub done : Bool
  pub updates : List PeerUpdate

-- NewConn and OnRemoteAnswer, with Open called.
unfoldable pub new_conn : ConnConfig → OfferAnswer → Conn
new_conn config answer = record {
  config = config;
  remote_answer = answer;
  mu = none;
  opening = OpenAt.locking;
  closing = [];
  done = false;
  updates = [];
}

-- What happens: a goroutine goes on, UpdatePeer answering `true` or `false` where it is called;
-- the engine's context is cancelled; Close is called by one more goroutine.
pub data Event : Type 0 where
  open_goes : Bool → Event
  cancelled called_close : Event
  close_goes : ℕ → Event

-- mu.Lock() blocks, `none`, while anyone has the mutex, the goroutine itself included.
abbrev pub lock : Goroutine → Conn → Option Conn
lock g c = elim c.mu [ none ↦ some (record c { mu = some g }) | some _ ↦ none ]

abbrev pub update_of : Conn → PeerUpdate
update_of c = record {
  peer_key = c.config.remote_key;
  allowed_ips = c.config.allowed_ips;
  keep_alive_seconds = default_wg_keep_alive;
  ip = c.remote_answer.wg_addr;
  port = c.remote_answer.wg_listen_port;
}

abbrev pub at_open : OpenAt → Conn → Conn
at_open at c = record c { opening = at }

-- Once Open has returned there are no more steps of it.
unfoldable pub open_step : Bool → OpenAt → Conn → Option Conn
open_step works OpenAt.locking c = lock opener (at_open setting_context c)
open_step works setting_context c = some (record c { mu = none; opening = locking_configure })
open_step works locking_configure c = lock opener (at_open configuring c)
open_step works configuring c = some (record c {
  mu = none;
  updates = c.updates ++ update_of c ∷ [];
  opening = if works then waiting else update_failed;
})
open_step works waiting c = if c.done then some (at_open disconnected c) else none
open_step works update_failed c = none
open_step works disconnected c = none
open_step works closed c = none

abbrev pub at_close : ℕ → CloseAt → Conn → Conn
at_close i at c = record c { closing = set c.closing i at }

-- The send on closeCh meets the receiver in Open's select, or takes the default branch. Both
-- return, and free the mutex.
abbrev pub send : ℕ → OpenAt → Conn → Conn
send i waiting c = at_close i delivered (record c { opening = closed; mu = none })
send i _ c = at_close i already_closed (record c { mu = none })

-- Close locks the mutex, and cleanup locks it again.
unfoldable pub close_step : ℕ → CloseAt → Conn → Option Conn
close_step i CloseAt.locking c = lock (closer i) (at_close i locking_cleanup c)
close_step i locking_cleanup c = lock (closer i) (at_close i cleaning c)
close_step i cleaning c = some (at_close i sending (record c { mu = none }))
close_step i sending c = some (send i c.opening c)
close_step i delivered c = none
close_step i already_closed c = none

unfoldable pub step : Event → Conn → Option Conn
unfolding open_step close_step
step (open_goes works) c = open_step works c.opening c
step cancelled c = some (record c { done = true })
step called_close c = some (record c { closing = c.closing ++ CloseAt.locking ∷ [] })
step (close_goes i) c = elim (get_elem? c.closing i) [ none ↦ none | some at ↦ close_step i at c ]

-- A schedule; `none` where it lets a goroutine go on that is blocked.
unfoldable pub run : List Event → Conn → Option Conn
unfolding step
run [] c = some c
run (e ∷ es) c = elim (step e c) [ none ↦ none | some c' ↦ run es c' ]
