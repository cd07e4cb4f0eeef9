-- ===== src/Sync/System/News.antt =====
-- When a manager of src/connectionmanager.cpp that is connecting stops to be, it says so by one of
-- the two signals that EvernoteSync listens to.
use notekeeper_open.Base.{◌≡◌, Bool, true, false, not, ◌||◌, List, [], ◌∷◌, ◌++◌, arith}
use notekeeper_open.Connection.Configuration.{
  Network, SessionState, session_connecting, session_connected, session_disconnected,
  session_not_available, session_invalid, session_closing, session_roaming,
}
use notekeeper_open.Connection.Manager.{
  connecting, connection_dec, in_state, Manager, Report, is_connected, is_disconnected, Emission,
  Outcome, scanning_for_wifi_changed, and_then, emit, start_scanning_for_networks,
  set_iap_configuration, set_current_iap_configuration_to_whatever_is_active,
  set_current_iap_configuration_to_whatever_is_primary, invalidate_current_iap_configuration,
  session_state_changed, online_state_changed, ensure_session_use_is_registered,
  ensure_connection_state_is_up_to_date, answer_request, open_session, request_connection,
}
use notekeeper_open.Connection.Scan.{
  finish_scan, scan_finished, Happening, timer, update_completed, requested, state_changed,
  online_changed, happens,
}

unfoldable pub is_news : Report → Bool
is_news is_connected = true
is_news is_disconnected = true
is_news _ = false

unfoldable pub has_news : List Emission → Bool
unfolding is_news
has_news [] = false
has_news ((r, m) ∷ es) = is_news r || has_news es

abbrev pub is_connecting : Manager → Bool
is_connecting m = in_state m.connection_state connecting

-- The manager is still connecting, or has told.
abbrev pub Tells : Manager → Outcome → Type 0
Tells m o = (not (is_connecting m) || is_connecting o.0 || has_news o.1) ≡ true

pub has_news-append :
    (es more : List Emission) → has_news (es ++ more) ≡ (has_news es || has_news more)
unfolding has_news
has_news-append [] more = ground arith
has_news-append ((r, m) ∷ es) more = ground (arith, has_news-append es more)

and_then-Tells :
    (m : Manager) (o : Outcome) (f : Manager → Outcome)
    → Tells m o
    → Tells o.0 (f o.0)
    → Tells m (and_then o f)
and_then-Tells m (m', es) f h k = ground (arith, has_news-append es (f m').1)

session_state_changed-Tells :
    (n : Network) (s : SessionState) (m : Manager) → Tells m (session_state_changed n s m)
unfolding session_state_changed set_iap_configuration invalidate_current_iap_configuration has_news
    is_news set_current_iap_configuration_to_whatever_is_active connection_dec
    set_current_iap_configuration_to_whatever_is_primary
session_state_changed-Tells n session_connecting m = ground arith
session_state_changed-Tells n session_connected m = ground arith
session_state_changed-Tells n session_disconnected m = ground arith
session_state_changed-Tells n session_not_available m = ground arith
session_state_changed-Tells n session_invalid m = ground arith
session_state_changed-Tells n session_closing m = ground arith
session_state_changed-Tells n session_roaming m = ground arith

online_state_changed-Tells :
    (n : Network) (b : Bool) (m : Manager) → Tells m (online_state_changed n b m)
unfolding online_state_changed set_iap_configuration invalidate_current_iap_configuration has_news
    is_news set_current_iap_configuration_to_whatever_is_active connection_dec
online_state_changed-Tells n true m = ground arith
online_state_changed-Tells n false m = ground arith

ensure_session_use_is_registered-Tells :
    (m : Manager) → Tells m (ensure_session_use_is_registered m)
unfolding ensure_session_use_is_registered has_news is_news
ensure_session_use_is_registered-Tells m = ground arith

ensure_connection_state_is_up_to_date-Tells :
    (n : Network) (m : Manager) → Tells m (ensure_connection_state_is_up_to_date n m)
unfolding ensure_connection_state_is_up_to_date has_news
ensure_connection_state_is_up_to_date-Tells n m =
    let registered : Tells m
        (and_then (session_state_changed n n.session_state m) ensure_session_use_is_registered) =
      and_then-Tells m (session_state_changed n n.session_state m) ensure_session_use_is_registered
        (session_state_changed-Tells n n.session_state m)
        (ensure_session_use_is_registered-Tells (session_state_changed n n.session_state m).0) in
    ground (arith, registered)

answer_request-Tells : (n : Network) (m : Manager) → Tells m (answer_request n m).0
unfolding answer_request open_session has_news is_news connection_dec
answer_request-Tells n m = ground arith

pub request_connection-Tells : (n : Network) (m : Manager) → Tells m (request_connection n m).0
unfolding request_connection
request_connection-Tells n m =
    let o : Outcome = ensure_connection_state_is_up_to_date n m in
    and_then-Tells m o (λ m'. (answer_request n m').0)
      (ensure_connection_state_is_up_to_date-Tells n m) (answer_request-Tells n o.0)

finish_scan-Tells : (n : Network) (m : Manager) → Tells m (finish_scan n m)
unfolding finish_scan has_news
finish_scan-Tells n m = ground arith

scan_finished-Tells : (n : Network) (m : Manager) → Tells m (scan_finished n m)
unfolding scan_finished
scan_finished-Tells n m =
    let m₁ : Manager = record m { is_scanning_for_wifi = false } in
    let o : Outcome =
      and_then (emit scanning_for_wifi_changed m₁) (ensure_connection_state_is_up_to_date n) in
    and_then-Tells m o (finish_scan n)
      (and_then-Tells m (emit scanning_for_wifi_changed m₁)
        (ensure_connection_state_is_up_to_date n) (ground arith)
        (ensure_connection_state_is_up_to_date-Tells n m₁))
      (finish_scan-Tells n o.0)

pub happens-Tells : (n : Network) (h : Happening) (m : Manager) → Tells m (happens n h m)
unfolding happens start_scanning_for_networks has_news is_news
happens-Tells n timer m = ground arith
happens-Tells n update_completed m = scan_finished-Tells n m
happens-Tells n (state_changed s) m = session_state_changed-Tells n s m
happens-Tells n (online_changed b) m = online_state_changed-Tells n b m
happens-Tells n requested m = request_connection-Tells n m
