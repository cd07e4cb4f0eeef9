-- ===== src/Connection/Manager.antt =====
-- ConnectionManager of src/connectionmanager.cpp. An operation returns the manager after it and what
-- it emits; each signal stands beside the manager as it is when the signal is emitted, since the
-- slots that a signal calls read it then. Logging is left out.
use notekeeper_open.Base.{
  Bool, true, false, not, ◌&&◌, ◌||◌, List, [], ◌∷◌, ◌++◌, QString, if◌then◌else◌, ite,
}
use notekeeper_open.Connection.Configuration.{
  Configuration, no_configuration, SessionState, session_connecting, session_connected,
  session_disconnected, session_not_available, Network, primary_iap_configuration,
  active_iap_configuration,
}

pub data ConnectionState : Type 0 where
  initial_state will_connect connecting connected disconnected : ConnectionState

unfoldable pub connection_dec : Discrete ConnectionState
connection_dec = hlevel

unfoldable pub session_dec : Discrete SessionState
session_dec = hlevel

abbrev pub in_state : ConnectionState → ConnectionState → Bool
in_state a b = ite (connection_dec a b) true false

abbrev pub session_eq : SessionState → SessionState → Bool
session_eq a b = ite (session_dec a b) true false

pub record Manager : Type 0 where
  pub connection_state : ConnectionState
  pub is_scanning_for_wifi : Bool
  pub is_session_use_registered : Bool
  pub iap_configuration : Configuration
  pub is_wifi_auto_connect_enabled : Bool
  pub is_online : Bool

-- The signals of the manager, the message with the two names in it, and the calls that open and
-- scan, which answer later by events of their own.
pub data Report : Type 0 where
  connection_state_changed scanning_for_wifi_changed iap_configuration_changed : Report
  is_connected is_disconnected : Report
  show_connection_message : QString → QString → Report
  session_opened configurations_updated : Report

abbrev pub Emission : Type 0
Emission = Report × Manager

abbrev pub Outcome : Type 0
Outcome = Manager × List Emission

abbrev pub and_then : Outcome → (Manager → Outcome) → Outcome
and_then (m, es) f = let (m', more) = f m in (m', es ++ more)

abbrev pub emit : Report → Manager → Outcome
emit r m = (m, (r, m) ∷ [])

abbrev pub nothing : Manager → Outcome
nothing m = (m, [])

unfoldable pub start_scanning_for_networks : Manager → Outcome
start_scanning_for_networks m =
    if m.is_scanning_for_wifi
    then nothing m
    else let m' = record m { is_scanning_for_wifi = true } in
      and_then (emit scanning_for_wifi_changed m') (emit configurations_updated)

unfoldable pub set_iap_configuration : Network → Configuration → Manager → Outcome
set_iap_configuration n c m =
    if n.equals m.iap_configuration c
    then nothing m
    else emit iap_configuration_changed (record m { iap_configuration = c })

unfoldable pub set_current_iap_configuration_to_whatever_is_active : Network → Manager → Outcome
unfolding set_iap_configuration
set_current_iap_configuration_to_whatever_is_active n m =
    set_iap_configuration n (active_iap_configuration n) m

unfoldable pub set_current_iap_configuration_to_whatever_is_primary : Network → Manager → Outcome
unfolding set_iap_configuration
set_current_iap_configuration_to_whatever_is_primary n m =
    set_iap_configuration n (primary_iap_configuration n) m

unfoldable pub invalidate_current_iap_configuration : Manager → Outcome
invalidate_current_iap_configuration m =
    if m.iap_configuration.is_valid
    then emit iap_configuration_changed (record m { iap_configuration = no_configuration })
    else nothing m

abbrev pub announce : List Report → Manager → Outcome
announce [] m = nothing m
announce (r ∷ rs) m = and_then (emit r m) (announce rs)

-- The new state and its signals.
abbrev pub enter : ConnectionState → List Report → Manager → Outcome
enter s rs m = announce rs (record m { connection_state = s })

unfoldable pub session_state_changed : Network → SessionState → Manager → Outcome
session_state_changed n session_connecting m =
    and_then (enter connecting (connection_state_changed ∷ []) m)
      (set_current_iap_configuration_to_whatever_is_primary n)
session_state_changed n session_connected m =
    and_then
      (if m.is_online
        then enter connected (connection_state_changed ∷ is_connected ∷ []) m
        else nothing m)
      (set_current_iap_configuration_to_whatever_is_active n)
session_state_changed n session_disconnected m =
    and_then (enter disconnected (connection_state_changed ∷ is_disconnected ∷ []) m)
      invalidate_current_iap_configuration
session_state_changed n session_not_available m =
    and_then (enter disconnected (connection_state_changed ∷ is_disconnected ∷ []) m)
      invalidate_current_iap_configuration
session_state_changed n _ m = nothing m

unfoldable pub online_state_changed : Network → Bool → Manager → Outcome
online_state_changed n true m₀ =
    let m = record m₀ { is_online = true } in
    if session_eq n.session_state session_connected && not (in_state m.connection_state connected)
    then and_then
        (set_current_iap_configuration_to_whatever_is_active n
          (record m { connection_state = connected }))
        (announce (connection_state_changed ∷ is_connected ∷ []))
    else nothing m
online_state_changed n false m₀ =
    let m = record m₀ { is_online = false } in
    if not (in_state m.connection_state disconnected)
    then and_then
        (invalidate_current_iap_configuration (record m { connection_state = disconnected }))
        (announce (connection_state_changed ∷ is_disconnected ∷ []))
    else nothing m

unfoldable pub ensure_session_use_is_registered : Manager → Outcome
ensure_session_use_is_registered m =
    if m.is_session_use_registered
    then nothing m
    else emit session_opened (record m { is_session_use_registered = true })

-- The session has moved on without the manager.
unfoldable pub is_behind : Network → Manager → Bool
is_behind n m =
    session_eq n.session_state session_connected && not (in_state m.connection_state connected)
    || session_eq n.session_state session_connecting && not (in_state m.connection_state connecting)

unfoldable pub ensure_connection_state_is_up_to_date : Network → Manager → Outcome
unfolding is_behind session_state_changed ensure_session_use_is_registered
ensure_connection_state_is_up_to_date n m =
    if is_behind n m
    then and_then (session_state_changed n n.session_state m) ensure_session_use_is_registered
    else nothing m

unfoldable pub open_session : Manager → Outcome
open_session m =
    let (m', es) = emit session_opened m in
    (record m' { is_session_use_registered = true; connection_state = connecting }, es)

-- The part of requestConnection after the update of the state.
unfoldable pub answer_request : Network → Manager → Outcome × (Bool × Bool)
unfolding open_session
answer_request n m =
    if in_state m.connection_state connecting
    then (nothing m, (true, false))
    else if in_state m.connection_state connected
    then (nothing m, (true, true))
    else if (primary_iap_configuration n).is_valid
    then (and_then (open_session m) (emit connection_state_changed), (true, false))
    else (nothing m, (false, false))

-- Whether the request is on its way, and whether the connection stands already.
unfoldable pub request_connection : Network → Manager → Outcome × (Bool × Bool)
unfolding ensure_connection_state_is_up_to_date answer_request
request_connection n m =
    let o = ensure_connection_state_is_up_to_date n m in
    (and_then o (λ m'. (answer_request n m').0), (answer_request n o.0).1)
