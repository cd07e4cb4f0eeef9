-- ===== src/Login/Users/Saved.antt =====
-- What a login leaves in the store (src/cloud/evernote/evernotesync/evernoteoauth.cpp).
use notekeeper_open.Base.{
  ◌≡◌, refl, sym, ap, ap₂, subst, ◌∙◌, if_pos, if_neg, if◌then◌else◌, Bool-cases, inl, inr, ◌≢◌,
  Bool, true, false, not, ◌||◌, List, [], ◌∷◌, QString, lit, is_empty, update, text_dec, arith,
}
use notekeeper_open.Storage.Ini.{
  IniFile, Store, auth_ini, auth_dat, Key, username, auth_token, note_store_url, web_api_url_prefix,
  password, authentication_method, text, to_string, QVariant, value, set_value, file_dec, key_dec,
}
use notekeeper_open.Storage.Attachments.{is_auth_data_valid}
use notekeeper_open.Login.State.{EvernoteOAuth, LoginSignal, logged_in, login_failed}
use notekeeper_open.Login.Users.{
  Users, dir_name_for, set_active_user, know_dir_name, data_dir_name, user_store, write_user_store,
  save_evernote_auth_data, save_encrypted_evernote_auth_data, retrieve_encrypted_evernote_auth_data,
  clear_password, save_login, got_username,
}

-- The user `name`, at home in `dir`, has the store `s`; the other stores are those of `u`.
record IsAtHome (u : Users) (name dir : QString) (s : Store) (v : Users) : Type 0 where
  named : v.session_username ≡ name
  known : v.known_dir_name ≡ dir
  written : v.stores dir ≡ s
  others : (d : QString) → d ≢ dir → v.stores d ≡ u.stores d

abbrev cleared : Store → Store
cleared s =
    if is_empty (to_string (value s auth_dat password))
    then s
    else set_value s auth_dat password (text [])

abbrev before_password : QString → EvernoteOAuth → Store → Store
before_password name o s =
    set_value
      (set_value
        (set_value (set_value s auth_ini username (text name)) auth_dat auth_token
          (text o.held_auth_token))
        auth_ini note_store_url (text o.held_note_store_url))
      auth_ini web_api_url_prefix (text o.held_web_api_url_prefix)

abbrev login_store : QString → EvernoteOAuth → Store → Store
login_store name o s =
    set_value (cleared (before_password name o s)) auth_ini authentication_method
      (text (lit "OAuth"))

update_here : (g : QString → Store) (dir : QString) (s : Store) → update g dir s dir ≡ s
unfolding update
update_here g dir s = ground (arith, text_dec dir dir)

update_there :
    (g : QString → Store) (dir d : QString) (s : Store) → d ≢ dir → update g dir s d ≡ g d
unfolding update
update_there g dir d s h = ground (arith, h, text_dec dir d)

know_dir_name-known : (v : Users) → is_empty v.known_dir_name ≡ false → know_dir_name v ≡ v
unfolding know_dir_name
know_dir_name-known v h = rw h refl

data_dir_name-known :
    (v : Users) → is_empty v.known_dir_name ≡ false → data_dir_name v ≡ v.known_dir_name
unfolding data_dir_name
data_dir_name-known v h = rw (know_dir_name-known v h, h) refl

update_only :
    (g g' : QString → Store) (dir d : QString)
    → (d ≢ dir → g' d ≡ g d)
    → g' d ≡ update g dir (g' dir) d
unfolding update
update_only g g' dir d h = elim (text_dec dir d) [
  | yes e ↦ ap g' (sym e) ∙ sym (if_pos (text_dec dir d) e _ _)
  | no n ↦ h (λ e. n (sym e)) ∙ sym (if_neg (text_dec dir d) n _ _)
]

write_user_store-known :
    (f : Store → Store) (v : Users)
    → is_empty v.known_dir_name ≡ false
    → write_user_store f v
      ≡ record v { stores = update v.stores v.known_dir_name (f (v.stores v.known_dir_name)) }
unfolding write_user_store
write_user_store-known f v h =
    ap₂ (λ (k : Users) (d : QString). record k { stores = update v.stores d (f (v.stores d)) })
      (know_dir_name-known v h) (data_dir_name-known v h)

module _ (u : Users) (name dir : QString) (dir_ok : is_empty dir ≡ false) where
  known_ok : {s : Store} (v : Users) → IsAtHome u name dir s v → is_empty v.known_dir_name ≡ false
  known_ok v h = ap is_empty h.known ∙ dir_ok

  write_user_store-IsAtHome :
      (f : Store → Store) {s : Store} (v : Users)
      → IsAtHome u name dir s v
      → IsAtHome u name dir (f s) (write_user_store f v)
  write_user_store-IsAtHome f v h =
      rw (write_user_store-known f v (known_ok v h), h.known)
        record {
          named = h.named;
          known = refl;
          written = update_here v.stores dir (f (v.stores dir)) ∙ ap f h.written;
          others = λ d e. update_there v.stores dir d (f (v.stores dir)) e ∙ h.others d e;
        }

  retrieve-IsAtHome :
      (key : Key) {s : Store} (v : Users)
      → IsAtHome u name dir s v
      → retrieve_encrypted_evernote_auth_data key v ≡ (v, to_string (value s auth_dat key))
  unfolding retrieve_encrypted_evernote_auth_data
  retrieve-IsAtHome key v h =
      ap₂ (λ (k : Users) (t : Store). (k, to_string (value t auth_dat key)))
        (know_dir_name-known v (known_ok v h))
        (ap v.stores (data_dir_name-known v (known_ok v h) ∙ h.known) ∙ h.written)

  if-IsAtHome :
      (b : Bool) {s t : Store} (v w : Users)
      → IsAtHome u name dir s v
      → IsAtHome u name dir t w
      → IsAtHome u name dir (if b then s else t) (if b then v else w)
  if-IsAtHome true v w h k = h
  if-IsAtHome false v w h k = k

  clear_password-IsAtHome :
      {s : Store} (v : Users)
      → IsAtHome u name dir s v
      → IsAtHome u name dir (cleared s) (clear_password v)
  unfolding clear_password save_encrypted_evernote_auth_data
  clear_password-IsAtHome {s} v h =
      subst
        (λ (r : Users × QString).
          IsAtHome u name dir (cleared s)
            (if is_empty r.1 then r.0 else save_encrypted_evernote_auth_data password [] r.0))
        (sym (retrieve-IsAtHome password v h))
        (if-IsAtHome (is_empty (to_string (value s auth_dat password))) v
          (save_encrypted_evernote_auth_data password [] v) h
          (write_user_store-IsAtHome (λ t. set_value t auth_dat password (text [])) v h))

  save_evernote_auth_data-IsAtHome :
      (key : Key) (t : QString) {s : Store} (v : Users)
      → IsAtHome u name dir s v
      → IsAtHome u name dir (set_value s auth_ini key (text t)) (save_evernote_auth_data key t v)
  unfolding save_evernote_auth_data
  save_evernote_auth_data-IsAtHome key t v h =
      write_user_store-IsAtHome (λ s. set_value s auth_ini key (text t)) v h

  save_encrypted_evernote_auth_data-IsAtHome :
      (key : Key) (t : QString) {s : Store} (v : Users)
      → IsAtHome u name dir s v
      → IsAtHome u name dir
          (set_value s auth_dat key (text t))
          (save_encrypted_evernote_auth_data key t v)
  unfolding save_encrypted_evernote_auth_data
  save_encrypted_evernote_auth_data-IsAtHome key t v h =
      write_user_store-IsAtHome (λ s. set_value s auth_dat key (text t)) v h

  saves-IsAtHome :
      (o : EvernoteOAuth) {s : Store} (v : Users)
      → IsAtHome u name dir s v
      → IsAtHome u name dir (before_password name o s) (
          save_evernote_auth_data web_api_url_prefix o.held_web_api_url_prefix (
            save_evernote_auth_data note_store_url o.held_note_store_url (
              save_encrypted_evernote_auth_data auth_token o.held_auth_token
                (save_evernote_auth_data username name v))))
  saves-IsAtHome o v h = save_evernote_auth_data-IsAtHome _ _ _ (
      save_evernote_auth_data-IsAtHome _ _ _ (
        save_encrypted_evernote_auth_data-IsAtHome _ _ _
          (save_evernote_auth_data-IsAtHome username name v h)))

set_active_user-IsAtHome :
    (user_hash : QString → QString) (name : QString) (u : Users)
    → is_empty name ≡ false
    → IsAtHome u name
        (dir_name_for user_hash name)
        (u.stores (dir_name_for user_hash name))
        (set_active_user user_hash name u)
unfolding set_active_user
set_active_user-IsAtHome user_hash name u h =
    rw h record { named = refl; known = refl; written = refl; others = λ d e. refl }

dir_name_for-ne-nil :
    (user_hash : QString → QString) (name : QString)
    → is_empty (dir_name_for user_hash name) ≡ false
unfolding dir_name_for
dir_name_for-ne-nil user_hash name = refl

save_login-IsAtHome :
    (user_hash : QString → QString) (name : QString) (o : EvernoteOAuth) (u : Users)
    → is_empty name ≡ false
    → IsAtHome u name
        (dir_name_for user_hash name)
        (login_store name o (u.stores (dir_name_for user_hash name)))
        (save_login user_hash name o u)
unfolding save_login
save_login-IsAtHome user_hash name o u h =
    let dir : QString = dir_name_for user_hash name in
    let ok : is_empty dir ≡ false = dir_name_for-ne-nil user_hash name in
    save_evernote_auth_data-IsAtHome u name dir ok _ _ _ (
      clear_password-IsAtHome u name dir ok _
        (saves-IsAtHome u name dir ok o _ (set_active_user-IsAtHome user_hash name u h)))

value-cleared :
    (s : Store) (f : IniFile) (k : Key) → password ≢ k → value (cleared s) f k ≡ value s f k
unfolding value set_value
value-cleared s f k h = ground (arith, h)

no_text : (t : QString) → is_empty t ≡ true → t ≡ []
no_text [] h = refl
no_text (c ∷ t) h = cc

cleared-password : (s : Store) → to_string (value (cleared s) auth_dat password) ≡ []
unfolding value set_value
cleared-password s = elim (Bool-cases (is_empty (to_string (value s auth_dat password)))) [
  | inl e ↦ rw e (no_text _ e)
  | inr e ↦ ground (arith, file_dec auth_dat auth_dat, key_dec password password, e)
]

login_store-read :
    (name : QString) (o : EvernoteOAuth) (s : Store) (f : IniFile) (k : Key)
    → authentication_method ≢ k
    → password ≢ k
    → value (login_store name o s) f k ≡ value (before_password name o s) f k
unfolding value set_value
login_store-read name o s f k h p =
    ground (arith, h, value-cleared (before_password name o s) f k p)

before_password-read :
    (name : QString) (o : EvernoteOAuth) (s : Store)
    → (value (before_password name o s) auth_ini username ≡ text name)
      × (value (before_password name o s) auth_dat auth_token ≡ text o.held_auth_token)
      × (value (before_password name o s) auth_ini note_store_url ≡ text o.held_note_store_url)
      × (value (before_password name o s) auth_ini web_api_url_prefix
          ≡ text o.held_web_api_url_prefix)
unfolding value set_value file_dec key_dec
before_password-read name o s = (refl, refl, refl, refl)

abbrev is_all_there : QVariant → QVariant → QVariant → QVariant → Bool
is_all_there a b c d = not (
    is_empty (to_string a)
    || is_empty (to_string b)
    || is_empty (to_string c)
    || is_empty (to_string d))

ap₄ :
    {A B : Type 0} (f : A → A → A → A → B) {a a' b b' c c' d d' : A}
    → a ≡ a'
    → b ≡ b'
    → c ≡ c'
    → d ≡ d'
    → f a b c d ≡ f a' b' c' d'
ap₄ f p q r s = cc

all_there :
    (name t u w : QString)
    → is_empty name ≡ false
    → is_empty t ≡ false
    → is_empty u ≡ false
    → is_all_there (text name) (text t) (text u) (text w) ≡ not (is_empty w)
all_there name t u w a b c = rw (a, b, c) refl

-- What isAuthDataValid finds in the store after a login.
login_store-valid :
    (name : QString) (o : EvernoteOAuth) (s : Store)
    → is_empty name ≡ false
    → is_empty o.held_auth_token ≡ false
    → is_empty o.held_note_store_url ≡ false
    → is_auth_data_valid (login_store name o s) ≡ not (is_empty o.held_web_api_url_prefix)
unfolding is_auth_data_valid
login_store-valid name o s n t u =
    let read = login_store-read name o s in
    let old = before_password-read name o s in
    ap₄ is_all_there (read auth_ini username (λ e. cc) (λ e. cc) ∙ old.0)
      (read auth_dat auth_token (λ e. cc) (λ e. cc) ∙ old.1)
      (read auth_ini note_store_url (λ e. cc) (λ e. cc) ∙ old.2)
      (read auth_ini web_api_url_prefix (λ e. cc) (λ e. cc) ∙ old.3)
    ∙ all_there name o.held_auth_token o.held_note_store_url o.held_web_api_url_prefix n t u

login_store-password :
    (name : QString) (o : EvernoteOAuth) (s : Store)
    → to_string (value (login_store name o s) auth_dat password) ≡ []
unfolding value set_value file_dec key_dec
login_store-password name o s = cleared-password (before_password name o s)

-- The result `r` of a login by `name`, from the users `u` and with what `o` holds: it is reported, and
-- the user is the active one, at home in `dir`. The token stands there and no password; whether
-- the authentication data count as valid; and the other directories are as they were.
pub record IsLogin (u : Users) (name dir : QString) (o : EvernoteOAuth)
    (r : Users × List LoginSignal) : Type 0 where
  pub told : r.1 ≡ logged_in ∷ []
  pub active : r.0.session_username ≡ name
  pub home : data_dir_name r.0 ≡ dir
  pub token : value (user_store r.0) auth_dat auth_token ≡ text o.held_auth_token
  pub no_password : to_string (value (user_store r.0) auth_dat password) ≡ []
  pub valid : is_auth_data_valid (user_store r.0) ≡ not (is_empty o.held_web_api_url_prefix)
  pub apart : (d : QString) → r.0.stores d ≡ update u.stores dir (r.0.stores dir) d

all_false : {a b c : Bool} → a ≡ false → b ≡ false → c ≡ false → (a || b || c) ≡ false
all_false = ground arith

got_username-eq :
    (user_hash : QString → QString) (name : QString) (o : EvernoteOAuth) (u : Users)
    → is_empty name ≡ false
    → is_empty o.held_auth_token ≡ false
    → is_empty o.held_note_store_url ≡ false
    → got_username user_hash false name o u ≡ (save_login user_hash name o u, logged_in ∷ [])
unfolding got_username
got_username-eq user_hash name o u n t w =
    ap
      (λ (b : Bool).
        if b
        then (u, login_failed (lit "Invalid user") ∷ [])
        else (save_login user_hash name o u, logged_in ∷ []))
      (all_false n t w)

-- A login with no error of SSL, for a name that is not empty and with an authentication token and a
-- note store that are not, is reported; the user is then the active one, the token stands in the
-- directory of the user, where a stored password is emptied and the authentication data count
-- as valid exactly if the prefix for the web interface is not empty; and the other directories
-- stay.
pub got_username-IsLogin :
    (user_hash : QString → QString) (name : QString) (o : EvernoteOAuth) (u : Users)
    → is_empty name ≡ false
    → is_empty o.held_auth_token ≡ false
    → is_empty o.held_note_store_url ≡ false
    → IsLogin u name (dir_name_for user_hash name) o (got_username user_hash false name o u)
got_username-IsLogin user_hash name o u n t w =
    let dir : QString = dir_name_for user_hash name in
    let v : Users = save_login user_hash name o u in
    let h = save_login-IsAtHome user_hash name o u n in
    let d : data_dir_name v ≡ dir =
      data_dir_name-known v (ap is_empty h.known ∙ dir_name_for-ne-nil user_hash name) ∙ h.known in
    let s : Store = login_store name o (u.stores dir) in
    let here : user_store v ≡ s = ap v.stores d ∙ h.written in
    subst (IsLogin u name dir o) (sym (got_username-eq user_hash name o u n t w)) record {
      told = refl;
      active = h.named;
      home = d;
      token =
          ap (λ (s : Store). value s auth_dat auth_token) here
          ∙ login_store-read name o (u.stores dir) auth_dat auth_token (λ e. cc) (λ e. cc)
          ∙ (before_password-read name o (u.stores dir)).1;
      no_password =
          ap (λ (s : Store). to_string (value s auth_dat password)) here
          ∙ login_store-password name o (u.stores dir);
      valid = ap is_auth_data_valid here ∙ login_store-valid name o (u.stores dir) n t w;
      apart = λ d. update_only u.stores v.stores dir d (h.others d);
    }
