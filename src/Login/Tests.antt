-- ===== src/Login/Tests.antt =====
-- A login at a phone (src/cloud/evernote/evernotesync/evernoteoauth.cpp).
use notekeeper_open.Base.{◌≡◌, refl, true, false, List, [], ◌∷◌, QString, lit}
use notekeeper_open.Connection.Configuration.{session_disconnected}
use notekeeper_open.Connection.Manager.{
  Manager, connecting, connection_dec, session_state_changed, invalidate_current_iap_configuration,
}
use notekeeper_open.Connection.Scan.{state_changed, happens, new_manager}
use notekeeper_open.Connection.Tests.{at_home}
use notekeeper_open.Storage.Ini.{invalid}
use notekeeper_open.Login.Reply.{Pair, reply_text_to_map, print_reply, last_of}
use notekeeper_open.Login.Reply.RoundTrip.{reply_text_to_map-print_reply}
use notekeeper_open.Login.State.{EvernoteOAuth, new_oauth, oauth_event, start_authentication}
use notekeeper_open.Login.State.Waits.{is_answered, waiting_login_is_answered}
use notekeeper_open.Login.Users.{Users, dir_name_for, got_username}
use notekeeper_open.Login.Users.Saved.{IsLogin, got_username-IsLogin}

abbrev waiting_manager : Manager
waiting_manager = record (new_manager at_home) { connection_state = connecting; is_online = true }

abbrev waiting_login : EvernoteOAuth
waiting_login = record new_oauth { is_requesting_temp_token = true }

abbrev holding : EvernoteOAuth
holding = record new_oauth {
  held_auth_token = lit "S1";
  held_note_store_url = lit "https";
  held_web_api_url_prefix = lit "https";
}

abbrev nobody : Users
nobody = record {
  session_username = [];
  session_user_dir_name = [];
  known_dir_name = [];
  stores = λ d f k. invalid;
}

abbrev no_hash : QString → QString
no_hash name = name

abbrev no_encoding : QString → QString
no_encoding t = t

abbrev token_reply : List Pair
token_reply = (lit "t", lit "a") ∷ (lit "s", lit "b") ∷ (lit "t", lit "c") ∷ []

reply_text_to_map-print_reply_example :
    reply_text_to_map no_encoding (print_reply token_reply) (lit "t")
    ≡ last_of no_encoding token_reply (lit "t") []
reply_text_to_map-print_reply_example =
    reply_text_to_map-print_reply no_encoding token_reply (lit "t") (
      ((((λ e. cc), tt), ((λ e. cc), tt)), (((λ e. cc), tt), ((λ e. cc), tt))),
      (
        ((((λ e. cc), tt), ((λ e. cc), tt)), (((λ e. cc), tt), ((λ e. cc), tt))),
        (((((λ e. cc), tt), ((λ e. cc), tt)), (((λ e. cc), tt), ((λ e. cc), tt))), tt),
      ),
    )

waiting_login_is_answered_example :
    (is_answered
        (oauth_event at_home (state_changed session_disconnected) waiting_manager waiting_login).1.1
      ≡ true)
    × (start_authentication at_home
          (oauth_event at_home (state_changed session_disconnected) waiting_manager waiting_login).0
          (oauth_event at_home
            (state_changed session_disconnected)
            waiting_manager
            waiting_login).1.0
        ≡ (
          (oauth_event at_home
              (state_changed session_disconnected)
              waiting_manager
              waiting_login).0,
          (
            (oauth_event at_home
                (state_changed session_disconnected)
                waiting_manager
                waiting_login).1.0,
            [],
          ),
        ))
unfolding connection_dec oauth_event happens session_state_changed
    invalidate_current_iap_configuration
waiting_login_is_answered_example =
    waiting_login_is_answered at_home at_home (state_changed session_disconnected) waiting_manager
      waiting_login refl refl refl

got_username-IsLogin_example :
    IsLogin nobody
      (lit "roop")
      (dir_name_for no_hash (lit "roop"))
      holding
      (got_username no_hash false (lit "roop") holding nobody)
got_username-IsLogin_example =
    got_username-IsLogin no_hash (lit "roop") holding nobody refl refl refl
