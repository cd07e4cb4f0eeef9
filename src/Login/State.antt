-- ===== src/Login/State.antt =====
-- EvernoteOAuth of src/cloud/evernote/evernotesync/evernoteoauth.cpp, built for a phone, beside the
-- connection manager whose signals it listens to, and LoginStatusTracker of src/loginstatustracker.cpp.
-- Requests of the network are signals of the model; their replies come back as later calls.
pub mod Waits
use notekeeper_open.Base.{
  Bool, true, false, not, ◌&&◌, ◌||◌, Option, none, some, List, [], ◌∷◌, ◌++◌, QString, lit,
  is_empty, text_eq, if◌then◌else◌,
}
use notekeeper_open.Connection.Configuration.{Network}
use notekeeper_open.Connection.Manager.{
  Manager, is_connected, is_disconnected, Emission, request_connection,
}
use notekeeper_open.Connection.Scan.{Happening, happens}
use notekeeper_open.Login.Reply.{ReplyMap, reply_text_to_map}

pub record EvernoteOAuth : Type 0 where
  -- Whether m_qnam is there.
  pub has_network_access_manager : Bool
  pub is_requesting_temp_token : Bool
  pub held_auth_token : QString
  pub held_note_store_url : QString
  pub held_web_api_url_prefix : QString

pub data LoginSignal : Type 0 where
  -- requestTempCredentials, requestAuthToken with its arguments, and requestUsername.
  temp_credentials_requested : LoginSignal
  auth_token_requested : QString → QString → QString → LoginSignal
  username_requested : QString → LoginSignal
  open_oauth_url : QString → QString → QString → QString → LoginSignal
  logged_in : LoginSignal
  login_failed : QString → LoginSignal

abbrev pub LoginOutcome : Type 0
LoginOutcome = EvernoteOAuth × List LoginSignal

-- QByteArray::fromPercentEncoding and toLower, and the host that the build is for.
pub record Web : Type 0 where
  pub from_percent_encoding : QString → QString
  pub to_lower : QString → QString
  pub api_host : QString

abbrev pub callback_url : QString
callback_url = lit "http://www.notekeeperapp.com/support"

abbrev pub new_oauth : EvernoteOAuth
new_oauth = record {
  has_network_access_manager = false;
  is_requesting_temp_token = false;
  held_auth_token = [];
  held_note_store_url = [];
  held_web_api_url_prefix = [];
}

unfoldable pub oauth_network_connected : EvernoteOAuth → LoginOutcome
oauth_network_connected o =
    if o.is_requesting_temp_token
    then (record o { has_network_access_manager = true }, temp_credentials_requested ∷ [])
    else (o, [])

unfoldable pub oauth_network_disconnected : EvernoteOAuth → LoginOutcome
oauth_network_disconnected o =
    if o.is_requesting_temp_token
    then (o, login_failed (lit "Not connected to the internet") ∷ [])
    else (o, [])

-- The slots that the manager's signals call.
unfoldable pub oauth_react : List Emission → EvernoteOAuth → LoginOutcome
unfolding oauth_network_connected oauth_network_disconnected
oauth_react [] o = (o, [])
oauth_react ((is_connected, m) ∷ es) o =
    let (o', log) = oauth_network_connected o in
    let (o'', more) = oauth_react es o' in (o'', log ++ more)
oauth_react ((is_disconnected, m) ∷ es) o =
    let (o', log) = oauth_network_disconnected o in
    let (o'', more) = oauth_react es o' in (o'', log ++ more)
oauth_react (_ ∷ es) o = oauth_react es o

-- The end of startAuthentication, by the answer of requestConnection.
unfoldable pub oauth_answered : Bool → Bool → EvernoteOAuth → LoginOutcome
unfolding oauth_network_connected
oauth_answered request_ok already_connected o =
    if already_connected
    then oauth_network_connected o
    else if not request_ok
    then (
      record o { is_requesting_temp_token = false },
      login_failed (lit "Not connected to the internet") ∷ [],
    )
    else (o, [])

unfoldable pub start_authentication : Network → Manager → EvernoteOAuth → Manager × LoginOutcome
unfolding request_connection oauth_react oauth_answered
start_authentication n m o =
    if o.is_requesting_temp_token
    then (m, (o, []))
    else let ((m', es), (ok, already)) = request_connection n m in
      let (o₁, log) = oauth_react es (record o { is_requesting_temp_token = true }) in
      let (o₂, more) = oauth_answered ok already o₁ in (m', (o₂, log ++ more))

-- An event of the network, at the manager and then at its listener.
unfoldable pub oauth_event : Network → Happening → Manager → EvernoteOAuth → Manager × LoginOutcome
unfolding happens oauth_react
oauth_event n h m o = let (m', es) = happens n h m in (m', oauth_react es o)

-- The part of gotTempCredentials after the reply is read.
unfoldable pub judge_temp_credentials : Web → ReplyMap → EvernoteOAuth → LoginOutcome
judge_temp_credentials w reply o =
    let temp_token = reply (lit "oauth_token") in
    if is_empty temp_token
      || not (text_eq (w.to_lower (reply (lit "oauth_callback_confirmed"))) (lit "true"))
    then (o, login_failed (lit "Could not contact Evernote") ∷ [])
    else (
      o,
      open_oauth_url
            (lit "https://" ++ w.api_host ++ lit "/OAuth.action?oauth_token=" ++ temp_token)
            callback_url temp_token (reply (lit "oauth_token_secret"))
          ∷ [],
    )

-- `reply_text` is none where the slot is not called by a reply.
unfoldable pub got_temp_credentials : Web → Option QString → EvernoteOAuth → LoginOutcome
unfolding judge_temp_credentials reply_text_to_map
got_temp_credentials w none o = (record o { is_requesting_temp_token = false }, [])
got_temp_credentials w (some reply_text) o =
    judge_temp_credentials w (reply_text_to_map w.from_percent_encoding reply_text)
      (record o { is_requesting_temp_token = false })

-- None where the source follows the null pointer m_qnam.
unfoldable pub continue_authentication :
    QString → QString → QString → EvernoteOAuth → Option LoginOutcome
continue_authentication temp_token temp_token_secret oauth_verifier o =
    if is_empty oauth_verifier
    then some (o, login_failed (lit "Notekeeper was declined access to your notes") ∷ [])
    else if o.has_network_access_manager
    then some (o, auth_token_requested temp_token temp_token_secret oauth_verifier ∷ [])
    else none

unfoldable pub hold_auth_data : ReplyMap → EvernoteOAuth → EvernoteOAuth
hold_auth_data reply o = record o {
  held_auth_token = reply (lit "oauth_token");
  held_note_store_url = reply (lit "edam_noteStoreUrl");
  held_web_api_url_prefix = reply (lit "edam_webApiUrlPrefix");
}

unfoldable pub judge_auth_data : EvernoteOAuth → LoginOutcome
judge_auth_data o =
    if is_empty o.held_auth_token || is_empty o.held_note_store_url
    then (o, login_failed (lit "Could not contact Evernote") ∷ [])
    else (o, username_requested o.held_auth_token ∷ [])

unfoldable pub got_auth_token : Web → Option QString → EvernoteOAuth → LoginOutcome
unfolding hold_auth_data judge_auth_data reply_text_to_map
got_auth_token w none o = (o, [])
got_auth_token w (some reply_text) o =
    judge_auth_data (hold_auth_data (reply_text_to_map w.from_percent_encoding reply_text) o)

-- None where the source follows the null pointer m_qnam.
unfoldable pub end_authentication : EvernoteOAuth → Option EvernoteOAuth
end_authentication o =
    if o.has_network_access_manager
    then some (record o { has_network_access_manager = false })
    else none

-- LoginStatusTracker: the new status, and the argument of isLoggedInChanged if that is emitted.
unfoldable pub set_logged_in : Bool → Bool → Bool × Option Bool
set_logged_in now is_logged_in =
    if (now && not is_logged_in) || (not now && is_logged_in)
    then (now, some now)
    else (is_logged_in, none)
