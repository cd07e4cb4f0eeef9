-- ===== src/Sync/State.antt =====
-- EvernoteSync of src/cloud/evernote/evernotesync/evernotesync.cpp: its state and its slots but
-- startSync. Each signal stands beside the state as it is when the signal is emitted.
use notekeeper_open.Base.{
  ℕ, ◌+◌, Bool, true, false, not, ◌&&◌, ◌||◌, ◌==◌, List, [], ◌∷◌, ◌++◌, QString, lit,
  if◌then◌else◌, text_eq,
}
use notekeeper_open.Connection.Configuration.{Network}
use notekeeper_open.Connection.Manager.{Manager}
use notekeeper_open.Connection.Scan.{is_iap_configuration_wifi}

pub record EvernoteSync : Type 0 where
  pub is_sync_in_progress : Bool
  pub is_thread_running : Bool
  pub sync_progress : ℕ
  pub sync_status_message : QString
  pub is_rate_limiting_in_effect : Bool
  pub rate_limit_end_time : ℕ

pub data SyncSignal : Type 0 where
  sync_started last_sync_time_changed is_syncing_changed sync_progress_changed : SyncSignal
  sync_status_message_changed is_rate_limiting_in_effect_changed rate_limit_end_time_changed :
      SyncSignal
  first_chunk_done full_sync_done_changed auth_token_invalid : SyncSignal
  login_error : QString → SyncSignal
  sync_finished : Bool → QString → SyncSignal

abbrev pub Log : Type 0
Log = List (SyncSignal × EvernoteSync)

abbrev pub SyncOutcome : Type 0
SyncOutcome = EvernoteSync × Log

-- What is asked while one event is handled: the network, whether EvernoteAccess has a client open or
-- fetches a web resource, two values of the store, and the clock in seconds.
pub record Surroundings : Type 0 where
  pub network : Network
  pub is_fetching : Bool
  pub sync_using_mobile_data : Bool
  pub full_sync_done : Bool
  pub now : ℕ

abbrev pub after : SyncOutcome → (EvernoteSync → SyncOutcome) → SyncOutcome
after (s, log) f = let (s', more) = f s in (s', log ++ more)

abbrev pub tell : SyncSignal → EvernoteSync → SyncOutcome
tell x s = (s, (x, s) ∷ [])

abbrev pub quiet : EvernoteSync → SyncOutcome
quiet s = (s, [])

abbrev pub new_sync : EvernoteSync
new_sync = record {
  is_sync_in_progress = false;
  is_thread_running = false;
  sync_progress = 0;
  sync_status_message = [];
  is_rate_limiting_in_effect = false;
  rate_limit_end_time = 0;
}

-- EvernoteAccess::cancel answers whether something is being fetched.
unfoldable pub cancel : Surroundings → EvernoteSync → SyncOutcome
cancel e s =
    if e.is_fetching
    then quiet s
    else tell is_syncing_changed (record s { is_sync_in_progress = false })

unfoldable pub update_sync_progress : ℕ → EvernoteSync → SyncOutcome
update_sync_progress percentage s =
    if s.sync_progress == percentage
    then quiet s
    else tell sync_progress_changed (record s { sync_progress = percentage })

unfoldable pub update_sync_status_message : QString → EvernoteSync → SyncOutcome
update_sync_status_message message s =
    if text_eq s.sync_status_message message
    then quiet s
    else tell sync_status_message_changed (record s { sync_status_message = message })

-- The thread is started between the two.
unfoldable pub start_sync_threaded : EvernoteSync → SyncOutcome
unfolding update_sync_status_message
start_sync_threaded s =
    after (update_sync_status_message (lit "Starting sync") s) (tell sync_started)

unfoldable pub is_mobile_data_disallowed : Surroundings → Manager → Bool
unfolding is_iap_configuration_wifi
is_mobile_data_disallowed e m =
    not (is_iap_configuration_wifi m) && not (e.sync_using_mobile_data || not e.full_sync_done)

unfoldable pub run_thread : EvernoteSync → SyncOutcome
unfolding start_sync_threaded
run_thread s =
    let (s', log) = start_sync_threaded s in (record s' { is_thread_running = true }, log)

unfoldable pub refuse : EvernoteSync → SyncOutcome
refuse s =
    after (tell is_syncing_changed (record s { is_sync_in_progress = false }))
      (tell (sync_finished false (lit "Syncing over mobile data is disabled")))

unfoldable pub network_connected : Surroundings → Manager → EvernoteSync → SyncOutcome
unfolding is_mobile_data_disallowed run_thread refuse
network_connected e m s =
    if s.is_sync_in_progress && not s.is_thread_running
    then if is_mobile_data_disallowed e m then refuse s else run_thread s
    else quiet s

unfoldable pub network_disconnected : Surroundings → EvernoteSync → SyncOutcome
unfolding cancel
network_disconnected e s =
    if s.is_sync_in_progress
    then after (cancel e s) (tell (sync_finished false (lit "Not connected to the internet")))
    else quiet s

unfoldable pub thread_finished : EvernoteSync → SyncOutcome
unfolding update_sync_status_message
thread_finished s =
    let (s', log) = update_sync_status_message [] s in
    let idle = record s' { is_sync_in_progress = false; is_thread_running = false } in
    (idle, log ++ (is_syncing_changed, idle) ∷ (last_sync_time_changed, idle) ∷ [])

-- The timer is started for as many seconds.
unfoldable pub rate_limit_reached : Surroundings → ℕ → EvernoteSync → SyncOutcome
rate_limit_reached e seconds s =
    let limited = record s {
      rate_limit_end_time = e.now + seconds;
      is_rate_limiting_in_effect = true;
    } in
    after (tell rate_limit_end_time_changed limited) (tell is_rate_limiting_in_effect_changed)

unfoldable pub rate_limit_reset : EvernoteSync → SyncOutcome
rate_limit_reset s =
    tell is_rate_limiting_in_effect_changed (record s { is_rate_limiting_in_effect = false })
