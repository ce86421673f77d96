-- ===== src/SharedSock/Listening.antt =====
-- sharedsock/sock_linux.go: what Listen leaves, with and without an error.
use punch.Common.{ℕ, ◌≡◌, refl, true, false, none, some, arith, if◌then◌else◌}
use punch.SharedSock.{
  SharedSocket, Host, Listens, absent, opened, is_open, close, open_conn4, mark_conn4, open_conn6,
  filter_conn4, filter_conn6, start, set_up, close_failed, listen,
}

-- A socket that listens: both sockets are marked and filtered before anything is read from them,
-- and only IPv6 may be missing.
pub record IsListening (h : Host) (port : ℕ) (s : SharedSocket) : Type 0 where
  pub at_port : s.port ≡ port
  pub ready4 : s.conn4 ≡ opened true true
  pub ready6 : s.conn6 ≡ (if h.opens6 then opened true true else absent)
  pub reads4 : s.reading4 ≡ true
  pub reads6 : s.reading6 ≡ h.opens6
  pub updates : s.updating ≡ true

-- No socket is open and no goroutine runs.
pub record IsOver (s : SharedSocket) : Type 0 where
  pub over4 : is_open s.conn4 ≡ false
  pub over6 : is_open s.conn6 ≡ false
  pub unread4 : s.reading4 ≡ false
  pub unread6 : s.reading6 ≡ false
  pub not_updating : s.updating ≡ false
  pub is_cancelled : s.cancelled ≡ true

abbrev pub Listened : Host → ℕ → Listens → Type 0
Listened h port (s, none) = IsListening h port s
Listened h port (s, some e) = IsOver s

close-IsOver : (s : SharedSocket) → IsOver (close s)
unfolding close
close-IsOver s = record {
  over4 = ground arith;
  over6 = ground arith;
  unread4 = refl;
  unread6 = refl;
  not_updating = refl;
  is_cancelled = refl;
}

failed-Listened :
    (h : Host) (port : ℕ) (r : Listens)
    → (r.1 ≡ none → IsListening h port r.0)
    → Listened h port (close_failed r)
failed-Listened h port (s, none) l = l refl
failed-Listened h port (s, some e) l = close-IsOver s

-- Listen, whatever fails: with no error both sockets are marked and filtered, and read from, of
-- which only that of IPv6 may be missing, and only because it cannot be opened; with an error
-- nothing is open and nothing runs.
pub listen-Listened : (h : Host) (port : ℕ) → Listened h port (listen h port)
unfolding listen set_up open_conn4 mark_conn4 open_conn6 filter_conn4 filter_conn6 start
listen-Listened h port = failed-Listened h port _ λ e. record {
  at_port = ground (arith, e);
  ready4 = ground (arith, e);
  ready6 = ground (arith, e);
  reads4 = ground (arith, e);
  reads6 = ground (arith, e);
  updates = ground (arith, e);
}
