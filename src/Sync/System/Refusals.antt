-- ===== src/Sync/System/Refusals.antt =====
-- How a wait for a connection ends, and two ways in which startSync is refused
-- (src/cloud/evernote/evernotesync/evernotesync.cpp, src/connectionmanager.cpp).
use notekeeper_open.Base.{
  ◌≡◌, refl, Bool, true, false, not, ◌&&◌, ◌||◌, Option, none, some, List, [], ◌∷◌, ◌++◌, arith,
  text_eq, lit, ◌∙◌, ap, ap₂,
}
use notekeeper_open.Connection.Configuration.{
  Network, SessionState, bearer_wlan, session_connecting, session_connected, session_disconnected,
  session_not_available, session_invalid, session_closing, session_roaming,
  active_iap_configuration,
}
use notekeeper_open.Connection.Manager.{
  Manager, is_connected, is_disconnected, connection_state_changed, scanning_for_wifi_changed,
  iap_configuration_changed, show_connection_message, session_opened, configurations_updated,
  connected, connection_dec, in_state, Emission, Outcome, request_connection,
  ensure_connection_state_is_up_to_date, answer_request, session_state_changed,
  set_iap_configuration, set_current_iap_configuration_to_whatever_is_active,
  set_current_iap_configuration_to_whatever_is_primary, ensure_session_use_is_registered,
  open_session, session_dec, session_eq, is_behind,
}
use notekeeper_open.Connection.Scan.{Happening, state_changed, happens, is_iap_configuration_wifi}
use notekeeper_open.Sync.State.{
  EvernoteSync, SyncSignal, sync_finished, is_syncing_changed, Log, SyncOutcome, Surroundings,
  after, quiet, cancel, run_thread, refuse, start_sync_threaded, update_sync_status_message,
  network_connected, network_disconnected, is_mobile_data_disallowed,
}
use notekeeper_open.Sync.System.{
  react, react_all, announce_sync, after_request, attempt_sync, start_sync, network_event, handle,
}
use notekeeper_open.Sync.System.News.{
  has_news-append, is_news, has_news, is_connecting, happens-Tells,
}

is_end : SyncSignal → Bool
is_end (sync_finished success message) = not success
is_end _ = false

-- An end without success is reported.
unfoldable pub reports_end : Log → Bool
unfolding is_end
reports_end [] = false
reports_end ((x, s) ∷ log) = is_end x || reports_end log

reports_end-append :
    (log more : Log) → reports_end (log ++ more) ≡ (reports_end log || reports_end more)
unfolding reports_end
reports_end-append [] more = ground arith
reports_end-append ((x, s) ∷ log) more = ground (arith, reports_end-append log more)

-- A thread runs, or the end is reported and nothing is in progress.
abbrev pub IsAnswered : SyncOutcome → Type 0
IsAnswered o = (o.0.is_thread_running || (not o.0.is_sync_in_progress && reports_end o.1)) ≡ true

-- What the slots make of the state `s`, where `news` says whether one of them is called.
record Response (s : EvernoteSync) (o : SyncOutcome) (news : Bool) : Type 0 where
  runs : s.is_thread_running ≡ true → o.0.is_thread_running ≡ true
  idle : s.is_sync_in_progress ≡ false → o.0 ≡ s
  ends : news ≡ true → s.is_sync_in_progress ≡ true → IsAnswered o
  still : news ≡ false → o ≡ quiet s

module _ (e : Surroundings) (free : e.is_fetching ≡ false) where
  network_connected-Response :
      (m : Manager) (s : EvernoteSync) → Response s (network_connected e m s) true
  unfolding network_connected refuse run_thread start_sync_threaded update_sync_status_message
      reports_end is_end
  network_connected-Response m s = ground arith

  network_disconnected-Response : (s : EvernoteSync) → Response s (network_disconnected e s) true
  unfolding network_disconnected cancel reports_end is_end
  network_disconnected-Response s = ground arith

  quiet-Response : (s : EvernoteSync) → Response s (quiet s) false
  quiet-Response s = record { runs = λ k. k; idle = λ k. refl; ends = λ k. cc; still = λ k. refl }

  react-Response : (x : Emission) (s : EvernoteSync) → Response s (react e x s) (is_news x.0)
  unfolding react is_news
  react-Response (is_connected, m) s = network_connected-Response m s
  react-Response (is_disconnected, m) s = network_disconnected-Response s
  react-Response (connection_state_changed, m) s = quiet-Response s
  react-Response (scanning_for_wifi_changed, m) s = quiet-Response s
  react-Response (iap_configuration_changed, m) s = quiet-Response s
  react-Response (show_connection_message a b, m) s = quiet-Response s
  react-Response (session_opened, m) s = quiet-Response s
  react-Response (configurations_updated, m) s = quiet-Response s

  after-Response :
      (s : EvernoteSync) (o : SyncOutcome) (f : EvernoteSync → SyncOutcome) (a b : Bool)
      → Response s o a
      → Response o.0 (f o.0) b
      → Response s (after o f) (a || b)
  after-Response s (s', log) f true b r q = record {
    runs = λ k. q.runs (r.runs k);
    idle = λ k. q.idle (ap (λ (x : EvernoteSync). x.is_sync_in_progress) (r.idle k) ∙ k) ∙ r.idle k;
    ends = λ k p. ground (arith, r.ends refl p, reports_end-append log (f s').1, q.runs, q.idle);
    still = λ k. cc;
  }
  after-Response s (s', log) f false b r q = record {
    runs = λ k. q.runs (r.runs k);
    idle = λ k. q.idle (ap (λ (x : EvernoteSync). x.is_sync_in_progress) (r.idle k) ∙ k) ∙ r.idle k;
    ends = λ k p.
        let p' : s'.is_sync_in_progress ≡ true =
          ap (λ (x : SyncOutcome). x.0.is_sync_in_progress) (r.still refl) ∙ p in
        ground (arith, q.ends k p', reports_end-append log (f s').1);
    still = λ k. ground (arith, r.still refl, q.still k);
  }

  react_all-Response :
      (xs : List Emission) (s : EvernoteSync) → Response s (react_all e xs s) (has_news xs)
  unfolding react_all has_news
  react_all-Response [] s = quiet-Response s
  react_all-Response (x ∷ xs) s =
      after-Response s (react e x s) (react_all e xs) (is_news x.0) (has_news xs)
        (react-Response x s) (react_all-Response xs (react e x s).0)

-- A synchronisation that waits while the manager is connecting does not wait for ever: by the event
-- after which the manager is not connecting, a thread runs, or the end has been reported and
-- nothing is in progress; EvernoteAccess fetches nothing meanwhile.
pub waiting_is_answered :
    (e : Surroundings) (h : Happening) (m : Manager) (s : EvernoteSync)
    → e.is_fetching ≡ false
    → s.is_sync_in_progress ≡ true
    → is_connecting m ≡ true
    → is_connecting (happens e.network h m).0 ≡ false
    → ((handle e (network_event h) (m, s)).0.1.is_thread_running
        || (not (handle e (network_event h) (m, s)).0.1.is_sync_in_progress
            && reports_end (handle e (network_event h) (m, s)).1))
      ≡ true
unfolding handle
waiting_is_answered e h m s free p before now =
    (react_all-Response e free (happens e.network h m).1 s).ends
      (ground (arith, happens-Tells e.network h m)) p

-- Whether a synchronisation was in progress when the change of that was signalled last.
abbrev pub last_syncing : Log → Option Bool
last_syncing [] = none
last_syncing ((is_syncing_changed, s) ∷ log) = elim (last_syncing log) [
  | none ↦ some s.is_sync_in_progress
  | some b ↦ some b
]
last_syncing ((x, s) ∷ log) = last_syncing log

-- News that comes with a session that is connecting or connected is that the manager is connected.
session_state_changed-connects :
    (n : Network) (st : SessionState) (m : Manager)
    → (session_eq st session_connected || session_eq st session_connecting) ≡ true
    → has_news (session_state_changed n st m).1 ≡ true
    → in_state (session_state_changed n st m).0.connection_state connected ≡ true
unfolding session_state_changed has_news is_news connection_dec session_dec set_iap_configuration
    set_current_iap_configuration_to_whatever_is_active
    set_current_iap_configuration_to_whatever_is_primary
session_state_changed-connects n session_connecting m k h = ground arith
session_state_changed-connects n session_connected m k h = ground arith
session_state_changed-connects n session_disconnected m k h = cc
session_state_changed-connects n session_not_available m k h = cc
session_state_changed-connects n session_invalid m k h = cc
session_state_changed-connects n session_closing m k h = cc
session_state_changed-connects n session_roaming m k h = cc

ensure_session_use_is_registered-quiet :
    (m : Manager)
    → (has_news (ensure_session_use_is_registered m).1 ≡ false)
      × ((ensure_session_use_is_registered m).0.connection_state ≡ m.connection_state)
unfolding ensure_session_use_is_registered has_news is_news
ensure_session_use_is_registered-quiet m = ground arith

ensure_connection_state_is_up_to_date-connects :
    (n : Network) (m : Manager)
    → has_news (ensure_connection_state_is_up_to_date n m).1 ≡ true
    → in_state (ensure_connection_state_is_up_to_date n m).0.connection_state connected ≡ true
unfolding ensure_connection_state_is_up_to_date is_behind has_news
ensure_connection_state_is_up_to_date-connects n m h =
    let o : Outcome = session_state_changed n n.session_state m in
    ground (
      arith,
      session_state_changed-connects n n.session_state m,
      ensure_session_use_is_registered-quiet o.0,
      has_news-append o.1 (ensure_session_use_is_registered o.0).1,
    )

answer_request-refused :
    (n : Network) (m : Manager)
    → (answer_request n m).1.0 ≡ false
    → (in_state m.connection_state connected ≡ false)
      × (has_news (answer_request n m).0.1 ≡ false)
      × ((answer_request n m).1.1 ≡ false)
unfolding answer_request open_session has_news is_news
answer_request-refused n m denied = ground arith

contrary : {a b : Bool} → (a ≡ true → b ≡ true) → b ≡ false → a ≡ false
contrary {a} {b} f h = ground (arith, f)

request_connection-refused :
    (n : Network) (m : Manager)
    → (request_connection n m).1.0 ≡ false
    → (has_news (request_connection n m).0.1 ≡ false) × ((request_connection n m).1.1 ≡ false)
unfolding request_connection
request_connection-refused n m denied =
    let o : Outcome = ensure_connection_state_is_up_to_date n m in
    let (away, none_more, not_already) = answer_request-refused n o.0 denied in
    let none_before : has_news o.1 ≡ false =
      contrary (ensure_connection_state_is_up_to_date-connects n m) away in
    (has_news-append o.1 (answer_request n o.0).0.1 ∙ ap₂ ◌||◌ none_before none_more, not_already)

-- Where startSync starts a synchronisation and the request for a connection is denied, it reports the
-- end and nothing is in progress; yet the last time that it signalled a change of isSyncing, that was
-- true. EvernoteAccess fetches nothing meanwhile.
pub start_sync-refused :
    (e : Surroundings) (m : Manager) (s : EvernoteSync)
    → e.is_fetching ≡ false
    → s.is_sync_in_progress ≡ false
    → (request_connection e.network m).1.0 ≡ false
    → ((start_sync e (m, s)).0.1.is_sync_in_progress ≡ false)
      × (reports_end (start_sync e (m, s)).1 ≡ true)
      × (last_syncing (start_sync e (m, s)).1 ≡ some true)
unfolding start_sync attempt_sync after_request announce_sync update_sync_status_message reports_end
    is_end
start_sync-refused e m s free idle denied =
    let (quiet_news, not_already) = request_connection-refused e.network m denied in
    let r : Response (announce_sync s).0
        (react_all e (request_connection e.network m).0.1 (announce_sync s).0)
        (has_news (request_connection e.network m).0.1) =
      react_all-Response e free (request_connection e.network m).0.1 (announce_sync s).0 in
    ground (arith, r.still quiet_news, not_already)

-- The end is reported for the reason that mobile data is disallowed.
unfoldable pub refused_for_mobile_data : Log → Bool
refused_for_mobile_data [] = false
refused_for_mobile_data ((sync_finished success message, s) ∷ log) =
    not success && text_eq message (lit "Syncing over mobile data is disabled")
    || refused_for_mobile_data log
refused_for_mobile_data ((x, s) ∷ log) = refused_for_mobile_data log

-- A session that becomes connected while the manager is online, after a full synchronisation was done
-- and with syncing over mobile data switched off, ends a waiting synchronisation when the
-- configuration that the manager held before is not over Wi-Fi, and the active one is another,
-- which is: the end is reported as for mobile data, although the configuration that the manager
-- holds after the event is over Wi-Fi.
pub waiting_refused_on_wifi :
    (e : Surroundings) (m : Manager) (s : EvernoteSync)
    → m.is_online ≡ true
    → s.is_sync_in_progress ≡ true
    → s.is_thread_running ≡ false
    → e.sync_using_mobile_data ≡ false
    → e.full_sync_done ≡ true
    → is_iap_configuration_wifi m ≡ false
    → e.network.equals m.iap_configuration (active_iap_configuration e.network) ≡ false
    → (active_iap_configuration e.network).bearer_type ≡ bearer_wlan
    → (is_iap_configuration_wifi
          (handle e (network_event (state_changed session_connected)) (m, s)).0.0
        ≡ true)
      × ((handle e (network_event (state_changed session_connected)) (m, s)).0.1.is_sync_in_progress
          ≡ false)
      × ((handle e (network_event (state_changed session_connected)) (m, s)).0.1.is_thread_running
          ≡ false)
      × (refused_for_mobile_data
            (handle e (network_event (state_changed session_connected)) (m, s)).1
          ≡ true)
unfolding handle happens session_state_changed set_current_iap_configuration_to_whatever_is_active
    set_iap_configuration react_all react network_connected refuse is_mobile_data_disallowed
    is_iap_configuration_wifi refused_for_mobile_data
waiting_refused_on_wifi e m s a b c d f g h k = ground arith
