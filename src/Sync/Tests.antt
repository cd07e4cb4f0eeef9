-- ===== src/Sync/Tests.antt =====
-- Runs of EvernoteSync (src/cloud/evernote/evernotesync/evernotesync.cpp) at a phone that connects.
use notekeeper_open.Base.{◌≡◌, ◌≤◌, ◌↔◌, refl, ◌+◌, true, false, not, ◌&&◌, ◌||◌, some, [], ◌∷◌}
use notekeeper_open.Connection.Configuration.{
  Network, primary_iap_configuration, session_connected, session_disconnected, bearer_dec,
  active_iap_configuration, first_access_point, no_configuration,
}
use notekeeper_open.Connection.Manager.{
  Manager, connecting, connection_dec, session_dec, request_connection,
  ensure_connection_state_is_up_to_date, is_behind, answer_request, session_state_changed,
  invalidate_current_iap_configuration,
}
use notekeeper_open.Connection.Scan.{
  state_changed, happens, start_manager, new_manager, is_iap_configuration_wifi,
}
use notekeeper_open.Connection.Tests.{wifi, at_home}
use notekeeper_open.Sync.State.{EvernoteSync, Surroundings, new_sync}
use notekeeper_open.Sync.System.{
  System, sync_requested, network_event, handle, starts, at_start, handled, start_sync,
}
use notekeeper_open.Sync.System.Threads.{Reach-one_thread}
use notekeeper_open.Sync.System.Waits.{IsHopeful, handle-IsHopeful}
use notekeeper_open.Sync.System.Refusals.{
  reports_end, last_syncing, refused_for_mobile_data, waiting_is_answered, start_sync-refused,
  waiting_refused_on_wifi,
}

abbrev surroundings : Network → Surroundings
surroundings n = record {
  network = n;
  is_fetching = false;
  sync_using_mobile_data = false;
  full_sync_done = true;
  now = 100;
}

-- Nothing is in range.
abbrev nowhere : Network
nowhere = record at_home { session_configuration = no_configuration }

-- The access point over Wi-Fi has become active.
abbrev on_wifi : Network
on_wifi = record at_home { session_state = session_connected; active_configurations = wifi ∷ [] }

abbrev waiting_manager : Manager
waiting_manager = record (new_manager at_home) { connection_state = connecting; is_online = true }

abbrev waiting_sync : EvernoteSync
waiting_sync = record new_sync { is_sync_in_progress = true }

abbrev first : System
first = ((start_manager at_home true).0, new_sync)

Reach-one_thread_example :
    (0 + starts (handle (surroundings at_home) sync_requested first).1 ≤ 1)
    × ((0 + starts (handle (surroundings at_home) sync_requested first).1 ≡ 1)
        ↔ ((handle (surroundings at_home) sync_requested first).0.1.is_thread_running ≡ true))
Reach-one_thread_example =
    Reach-one_thread (handled (at_start at_home true) (surroundings at_home) sync_requested refl)

handle-IsHopeful_example :
    IsHopeful
      (handle
        (surroundings on_wifi)
        (network_event (state_changed session_connected))
        (waiting_manager, waiting_sync)).0
unfolding connection_dec
handle-IsHopeful_example =
    handle-IsHopeful (surroundings on_wifi) (network_event (state_changed session_connected))
      (waiting_manager, waiting_sync) refl refl

waiting_is_answered_example :
    ((handle
        (surroundings at_home)
        (network_event (state_changed session_disconnected))
        (waiting_manager, waiting_sync)).0.1.is_thread_running
      || (not
            (handle
              (surroundings at_home)
              (network_event (state_changed session_disconnected))
              (waiting_manager, waiting_sync)).0.1.is_sync_in_progress
          && reports_end
              (handle
                (surroundings at_home)
                (network_event (state_changed session_disconnected))
                (waiting_manager, waiting_sync)).1))
    ≡ true
unfolding connection_dec happens session_state_changed invalidate_current_iap_configuration
waiting_is_answered_example =
    waiting_is_answered (surroundings at_home) (state_changed session_disconnected) waiting_manager
      waiting_sync refl refl refl refl

start_sync-refused_example :
    ((start_sync (surroundings nowhere) (new_manager nowhere, new_sync)).0.1.is_sync_in_progress
      ≡ false)
    × (reports_end (start_sync (surroundings nowhere) (new_manager nowhere, new_sync)).1 ≡ true)
    × (last_syncing (start_sync (surroundings nowhere) (new_manager nowhere, new_sync)).1
        ≡ some true)
unfolding request_connection ensure_connection_state_is_up_to_date is_behind answer_request
    connection_dec session_dec primary_iap_configuration
start_sync-refused_example =
    start_sync-refused (surroundings nowhere) (new_manager nowhere) new_sync refl refl refl

waiting_refused_on_wifi_example :
    (is_iap_configuration_wifi
        (handle
          (surroundings on_wifi)
          (network_event (state_changed session_connected))
          (waiting_manager, waiting_sync)).0.0
      ≡ true)
    × ((handle
          (surroundings on_wifi)
          (network_event (state_changed session_connected))
          (waiting_manager, waiting_sync)).0.1.is_sync_in_progress
        ≡ false)
    × ((handle
          (surroundings on_wifi)
          (network_event (state_changed session_connected))
          (waiting_manager, waiting_sync)).0.1.is_thread_running
        ≡ false)
    × (refused_for_mobile_data
          (handle
            (surroundings on_wifi)
            (network_event (state_changed session_connected))
            (waiting_manager, waiting_sync)).1
        ≡ true)
unfolding is_iap_configuration_wifi active_iap_configuration first_access_point bearer_dec
waiting_refused_on_wifi_example =
    waiting_refused_on_wifi (surroundings on_wifi) waiting_manager waiting_sync refl refl refl refl
      refl refl refl refl
