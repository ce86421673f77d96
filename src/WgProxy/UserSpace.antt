-- ===== src/WgProxy/UserSpace.antt =====
-- client/internal/wgproxy/proxy_userspace.go: the proxy that copies between two connections.
use punch.Common.{
  ℕ, ◌≡◌, refl, Bool, true, false, Option, none, some, List, [], ◌∷◌, ◌++◌, Result, ok, err,
}

-- A dialled connection is known by a number.
pub record UserSpaceProxy : Type 0 where
  pub local_wg_listen_port : ℕ
  pub cancelled : Bool
  pub remote_conn : Option ℕ
  pub local_conn : Option ℕ
  pub copying : Bool

unfoldable pub new_wg_user_space_proxy : ℕ → UserSpaceProxy
new_wg_user_space_proxy wg_port = record {
  local_wg_listen_port = wg_port;
  cancelled = false;
  remote_conn = none;
  local_conn = none;
  copying = false;
}

pub data DialError : Type 0 where
  dial_failed : DialError

-- AddTurnConn; `dial` is what dialling WireGuard's port gives. Where it fails the local connection
-- is nil.
unfoldable pub add_turn_conn :
    (ℕ → Option ℕ) → ℕ → UserSpaceProxy → UserSpaceProxy × Result DialError ℕ
add_turn_conn dial turn_conn p = elim (dial p.local_wg_listen_port) [
  | none ↦ (record p { remote_conn = some turn_conn; local_conn = none }, err dial_failed)
  | some conn ↦
      (record p { remote_conn = some turn_conn; local_conn = some conn; copying = true }, ok conn)
]

-- CloseConn, and the connection that it closes.
unfoldable pub close_conn : UserSpaceProxy → UserSpaceProxy × Option ℕ
close_conn p = (record p { cancelled = true }, p.local_conn)

-- A round of proxyToRemote or proxyToLocal: the context is done, the read fails, or it gives a
-- packet, which is written with or without an error.
pub data Round : Type 0 where
  done read_fails : Round
  copies : List ℕ → Bool → Round

-- The packets that are handed to the other connection, and whether the loop has returned.
unfoldable pub copy_packets : List Round → List (List ℕ) × Bool
copy_packets [] = ([], false)
copy_packets (done ∷ rounds) = ([], true)
copy_packets (read_fails ∷ rounds) = copy_packets rounds
copy_packets (copies packet written ∷ rounds) =
    let (packets, returned) = copy_packets rounds in (packet ∷ packets, returned)

-- The packets of rounds in which the context is not done.
abbrev pub read_packets : List Round → List (List ℕ)
read_packets [] = []
read_packets (copies packet written ∷ rounds) = packet ∷ read_packets rounds
read_packets (_ ∷ rounds) = read_packets rounds

abbrev pub IsGoingOn : List Round → Type 0
IsGoingOn [] = Unit {0}
IsGoingOn (done ∷ rounds) = ⊥
IsGoingOn (read_fails ∷ rounds) = IsGoingOn rounds
IsGoingOn (copies packet written ∷ rounds) = IsGoingOn rounds

-- Whatever fails, each packet that is read before the context is done is handed on, in order, and
-- the loop ends in the round in which it is done, and in no earlier one.
copy_packets-all :
    (rounds later : List Round)
    → IsGoingOn rounds
    → (copy_packets (rounds ++ done ∷ later) ≡ (read_packets rounds, true))
      × (copy_packets rounds ≡ (read_packets rounds, false))
unfolding copy_packets
copy_packets-all [] later g = (refl, refl)
copy_packets-all (done ∷ rounds) later g = absurd g
copy_packets-all (read_fails ∷ rounds) later g = copy_packets-all rounds later g
copy_packets-all (copies packet written ∷ rounds) later g =
    let (ended, going) = copy_packets-all rounds later g in (rw ended, rw going)
