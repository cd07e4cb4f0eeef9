-- ===== src/Login/State/Waits.antt =====
-- A login that waits for the network (src/cloud/evernote/evernotesync/evernoteoauth.cpp).
use notekeeper_open.Base.{◌≡◌, refl, Bool, true, false, ◌||◌, List, [], ◌∷◌, arith}
use notekeeper_open.Connection.Configuration.{Network}
use notekeeper_open.Connection.Manager.{
  Manager, connection_state_changed, scanning_for_wifi_changed, iap_configuration_changed,
  show_connection_message, session_opened, configurations_updated, is_connected, is_disconnected,
  Emission,
}
use notekeeper_open.Connection.Scan.{Happening, happens}
use notekeeper_open.Sync.System.News.{has_news, is_news, is_connecting, happens-Tells}
use notekeeper_open.Login.State.{
  EvernoteOAuth, LoginSignal, temp_credentials_requested, login_failed, oauth_network_connected,
  oauth_network_disconnected, oauth_react, start_authentication, oauth_event,
}

unfoldable pub is_answer : LoginSignal → Bool
is_answer temp_credentials_requested = true
is_answer (login_failed message) = true
is_answer _ = false

-- The temporary credentials are asked for, or the user is told of a failure.
unfoldable pub is_answered : List LoginSignal → Bool
unfolding is_answer
is_answered [] = false
is_answered (x ∷ xs) = is_answer x || is_answered xs

oauth_react-answers :
    (es : List Emission) (o : EvernoteOAuth)
    → o.is_requesting_temp_token ≡ true
    → ((oauth_react es o).0.is_requesting_temp_token ≡ true)
      × (is_answered (oauth_react es o).1 ≡ has_news es)
unfolding oauth_react oauth_network_connected oauth_network_disconnected has_news is_news
    is_answered is_answer
oauth_react-answers [] o h = (h, refl)
oauth_react-answers ((is_connected, m) ∷ es) o h =
    ground (arith, oauth_react-answers es (record o { has_network_access_manager = true }) h)
oauth_react-answers ((is_disconnected, m) ∷ es) o h = ground (arith, oauth_react-answers es o h)
oauth_react-answers ((connection_state_changed, m) ∷ es) o h = oauth_react-answers es o h
oauth_react-answers ((scanning_for_wifi_changed, m) ∷ es) o h = oauth_react-answers es o h
oauth_react-answers ((iap_configuration_changed, m) ∷ es) o h = oauth_react-answers es o h
oauth_react-answers ((show_connection_message a b, m) ∷ es) o h = oauth_react-answers es o h
oauth_react-answers ((session_opened, m) ∷ es) o h = oauth_react-answers es o h
oauth_react-answers ((configurations_updated, m) ∷ es) o h = oauth_react-answers es o h

-- When a manager that is connecting stops to be, a login that waits for it asks for the temporary
-- credentials or tells of a failure. It counts as waiting still, so that startAuthentication then
-- does nothing, whatever was told.
pub waiting_login_is_answered :
    (n later : Network) (h : Happening) (m : Manager) (o : EvernoteOAuth)
    → o.is_requesting_temp_token ≡ true
    → is_connecting m ≡ true
    → is_connecting (oauth_event n h m o).0 ≡ false
    → (is_answered (oauth_event n h m o).1.1 ≡ true)
      × (start_authentication later (oauth_event n h m o).0 (oauth_event n h m o).1.0
          ≡ ((oauth_event n h m o).0, ((oauth_event n h m o).1.0, [])))
unfolding oauth_event start_authentication
waiting_login_is_answered n later h m o r c d =
    ground (arith, oauth_react-answers (happens n h m).1 o r, happens-Tells n h m)
