-- ===== src/Login/Users.antt =====
-- The users of the device: setActiveUser, activeUserDirName, purgeActiveUserData and the
-- authentication data of src/storage/storagemanager.cpp, and gotUsername of
-- src/cloud/evernote/evernotesync/evernoteoauth.cpp, which ends a login.
pub mod Saved
use notekeeper_open.Base.{
  Bool, ◌||◌, List, [], ◌∷◌, ◌++◌, QString, lit, is_empty, if◌then◌else◌, update,
}
use notekeeper_open.Storage.Ini.{
  Store, auth_ini, auth_dat, Key, username, auth_token, note_store_url, web_api_url_prefix,
  password, authentication_method, invalid, text, to_string, value, set_value,
}
use notekeeper_open.Login.State.{EvernoteOAuth, LoginSignal, logged_in, login_failed}

-- Store/Session/session.ini, m_activeUserDirName, and what each directory of Store/Data holds.
pub record Users : Type 0 where
  pub session_username : QString
  pub session_user_dir_name : QString
  pub known_dir_name : QString
  pub stores : QString → Store

-- `user_hash` is the first eight digits of the sha1 sum of the name in lower case.
unfoldable pub dir_name_for : (QString → QString) → QString → QString
dir_name_for user_hash name = lit "ev" ++ user_hash name

unfoldable pub set_active_user : (QString → QString) → QString → Users → Users
unfolding dir_name_for
set_active_user user_hash name u =
    if is_empty name
    then record u { session_username = []; session_user_dir_name = [] }
    else record u {
      session_username = name;
      session_user_dir_name = dir_name_for user_hash name;
      known_dir_name = dir_name_for user_hash name;
    }

-- activeUserDirName, which keeps what it has read.
unfoldable pub know_dir_name : Users → Users
know_dir_name u =
    if is_empty u.known_dir_name then record u { known_dir_name = u.session_user_dir_name } else u

unfoldable pub data_dir_name : Users → QString
unfolding know_dir_name
data_dir_name u =
    if is_empty (know_dir_name u).known_dir_name
    then lit "UNKNOWNUSER"
    else (know_dir_name u).known_dir_name

-- The store that the files of the Evernote data are in.
abbrev pub user_store : Users → Store
user_store u = u.stores (data_dir_name u)

unfoldable pub write_user_store : (Store → Store) → Users → Users
unfolding know_dir_name data_dir_name
write_user_store f u = record (know_dir_name u) {
  stores = update u.stores (data_dir_name u) (f (user_store u));
}

unfoldable pub save_evernote_auth_data : Key → QString → Users → Users
unfolding write_user_store
save_evernote_auth_data key t u = write_user_store (λ s. set_value s auth_ini key (text t)) u

unfoldable pub save_encrypted_evernote_auth_data : Key → QString → Users → Users
unfolding write_user_store
save_encrypted_evernote_auth_data key t u =
    write_user_store (λ s. set_value s auth_dat key (text t)) u

unfoldable pub retrieve_encrypted_evernote_auth_data : Key → Users → Users × QString
unfolding know_dir_name data_dir_name
retrieve_encrypted_evernote_auth_data key u =
    (know_dir_name u, to_string (value (user_store u) auth_dat key))

-- purgeActiveUserData: the directory goes, and nobody is the active user.
unfoldable pub purge_active_user_data : (QString → QString) → Users → Users
unfolding know_dir_name set_active_user
purge_active_user_data user_hash u =
    let known = know_dir_name u in
    if is_empty known.known_dir_name
    then known
    else set_active_user user_hash []
        (record known { stores = update u.stores known.known_dir_name (λ f k. invalid) })

-- A password that version 1 has stored is emptied.
unfoldable pub clear_password : Users → Users
unfolding retrieve_encrypted_evernote_auth_data save_encrypted_evernote_auth_data
clear_password u =
    let (u', old) = retrieve_encrypted_evernote_auth_data password u in
    if is_empty old then u' else save_encrypted_evernote_auth_data password [] u'

unfoldable pub save_login : (QString → QString) → QString → EvernoteOAuth → Users → Users
unfolding set_active_user save_evernote_auth_data save_encrypted_evernote_auth_data clear_password
save_login user_hash name o u₀ =
    let u₁ = set_active_user user_hash name u₀ in
    let u₂ = save_evernote_auth_data username name u₁ in
    let u₃ = save_encrypted_evernote_auth_data auth_token o.held_auth_token u₂ in
    let u₄ = save_evernote_auth_data note_store_url o.held_note_store_url u₃ in
    let u₅ = save_evernote_auth_data web_api_url_prefix o.held_web_api_url_prefix u₄ in
    save_evernote_auth_data authentication_method (lit "OAuth") (clear_password u₅)

-- `is_ssl_error_found` is what EvernoteAccess answers.
unfoldable pub got_username :
    (QString → QString) → Bool → QString → EvernoteOAuth → Users → Users × List LoginSignal
unfolding save_login
got_username user_hash is_ssl_error_found name o u =
    if is_ssl_error_found
    then (u, login_failed (lit "There were SSL errors when talking to Evernote") ∷ [])
    else if is_empty name || is_empty o.held_auth_token || is_empty o.held_note_store_url
    then (u, login_failed (lit "Invalid user") ∷ [])
    else (save_login user_hash name o u, logged_in ∷ [])
