-- ===== src/Connection/Scan.antt =====
-- scanFinished, checkIAPOrdering, the constructor and the readers of ConnectionManager in
-- src/connectionmanager.cpp.
use notekeeper_open.Base.{
  Bool, true, false, not, ◌||◌, Option, none, some, List, [], ◌∷◌, ◌++◌, QString, lit, ◌==◌,
  if◌then◌else◌,
}
use notekeeper_open.Connection.Configuration.{
  Configuration, ConfigurationType, service_network, bearer_unknown, bearer_ethernet,
  bearer_bluetooth, bearer_wlan, bearer_eq, no_configuration, discovered, active, has_state,
  Network, primary_iap_configuration, SessionState,
}
use notekeeper_open.Connection.Manager.{
  ConnectionState, initial_state, will_connect, connecting, connected, disconnected, in_state,
  Manager, scanning_for_wifi_changed, connection_state_changed, show_connection_message, Emission,
  Outcome, and_then, emit, enter, nothing, start_scanning_for_networks, session_state_changed,
  request_connection, set_iap_configuration, open_session, online_state_changed,
  ensure_connection_state_is_up_to_date,
}

unfoldable pub warn : Manager → Option QString → Configuration → List Emission
warn m none c = []
warn m (some mobile_name) c = (show_connection_message mobile_name c.name, m) ∷ []

-- The mobile data connection seen last, and the messages on a Wi-Fi connection that stands behind one.
unfoldable pub visit_child :
    Manager → Option QString → Configuration → Option QString × List Emission
unfolding has_state warn
visit_child m found c =
    if not (has_state discovered c)
    then (found, [])
    else if bearer_eq c.bearer_type bearer_unknown
        || bearer_eq c.bearer_type bearer_ethernet
        || bearer_eq c.bearer_type bearer_bluetooth
    then (found, [])
    else if bearer_eq c.bearer_type bearer_wlan
    then (found, warn m found c)
    else (some c.name, [])

unfoldable pub ordering_loop : Manager → Option QString → List Configuration → List Emission
unfolding visit_child
ordering_loop m found [] = []
ordering_loop m found (c ∷ cs) =
    let (found', messages) = visit_child m found c in messages ++ ordering_loop m found' cs

unfoldable pub ordering_of : Network → Configuration → ConfigurationType → Manager → List Emission
unfolding ordering_loop
ordering_of n c service_network m = ordering_loop m none (n.children c)
ordering_of n c _ m = []

unfoldable pub check_iap_ordering : Network → Configuration → Manager → Outcome
unfolding ordering_of
check_iap_ordering n c m = (m, ordering_of n c c.type m)

-- What an available configuration leads to: over Wi-Fi the session is opened if it may.
unfoldable pub select_configuration : Network → Configuration → Manager → Outcome
unfolding open_session set_iap_configuration
select_configuration n c m =
    and_then
      (if bearer_eq c.bearer_type bearer_wlan
        then and_then
            (if c.state == active || m.is_wifi_auto_connect_enabled
              then open_session m
              else nothing (record m { connection_state = will_connect }))
            (emit connection_state_changed)
        else enter will_connect (connection_state_changed ∷ []) m)
      (set_iap_configuration n c)

-- The two tests on what is available and on the state.
unfoldable pub use_configuration : Network → Configuration → Manager → Outcome
unfolding select_configuration
use_configuration n c m =
    if not c.is_valid
    then nothing m
    else if in_state m.connection_state initial_state
        || in_state m.connection_state will_connect
        || in_state m.connection_state disconnected
    then select_configuration n c m
    else nothing m

unfoldable pub finish_scan : Network → Manager → Outcome
unfolding check_iap_ordering use_configuration
finish_scan n m =
    if in_state m.connection_state connected || in_state m.connection_state connecting
    then nothing m
    else and_then
        (if n.is_symbian then check_iap_ordering n n.session_configuration m else nothing m)
        (use_configuration n (primary_iap_configuration n))

unfoldable pub scan_finished : Network → Manager → Outcome
unfolding finish_scan ensure_connection_state_is_up_to_date
scan_finished n m =
    and_then
      (and_then (emit scanning_for_wifi_changed (record m { is_scanning_for_wifi = false }))
        (ensure_connection_state_is_up_to_date n))
      (finish_scan n)

abbrev pub new_manager : Network → Manager
new_manager n = record {
  connection_state = initial_state;
  is_scanning_for_wifi = false;
  is_session_use_registered = false;
  iap_configuration = no_configuration;
  is_wifi_auto_connect_enabled = n.is_symbian;
  is_online = false;
}

-- The constructor; the first scan follows by a timer.
unfoldable pub start_manager : Network → Bool → Outcome
unfolding online_state_changed ensure_connection_state_is_up_to_date
start_manager n online =
    and_then
      (if online then online_state_changed n true (new_manager n) else nothing (new_manager n))
      (ensure_connection_state_is_up_to_date n)

unfoldable pub connection_state_string : Bool → ConnectionState → QString
connection_state_string symbian will_connect =
    if symbian then lit "Will connect" else lit "Can connect"
connection_state_string symbian connecting = lit "Connecting"
connection_state_string symbian connected = lit "Connected"
connection_state_string symbian disconnected = lit "Disconnected"
connection_state_string symbian initial_state = lit "Not connected"

unfoldable pub is_iap_configuration_wifi : Manager → Bool
is_iap_configuration_wifi m = bearer_eq m.iap_configuration.bearer_type bearer_wlan

unfoldable pub iap_configuration_name : Manager → QString
iap_configuration_name m = m.iap_configuration.name

unfoldable pub selected_configuration : Network → Manager → Configuration
selected_configuration n m =
    if in_state m.connection_state connected then n.session_configuration else no_configuration

-- What the manager's slots are called with, and the requests of others.
pub data Happening : Type 0 where
  timer update_completed requested : Happening
  state_changed : SessionState → Happening
  online_changed : Bool → Happening

unfoldable pub happens : Network → Happening → Manager → Outcome
unfolding start_scanning_for_networks scan_finished session_state_changed online_state_changed
    request_connection
happens n timer m = start_scanning_for_networks m
happens n update_completed m = scan_finished n m
happens n (state_changed s) m = session_state_changed n s m
happens n (online_changed b) m = online_state_changed n b m
happens n requested m = (request_connection n m).0

-- The managers that a run leads to, with what was emitted on the way.
pub data Run : Manager → List Emission → Type 0 where
  started :
      (n : Network) (online : Bool) → Run (start_manager n online).0 (start_manager n online).1
  went :
      {m : Manager} {es : List Emission}
      → Run m es
      → (n : Network) (h : Happening) → Run (happens n h m).0 (es ++ (happens n h m).1)
