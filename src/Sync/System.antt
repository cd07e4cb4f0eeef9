-- ===== src/Sync/System.antt =====
-- EvernoteSync and ConnectionManager together: startSync, the slots that the manager's signals call,
-- and the events that drive both (src/cloud/evernote/evernotesync/evernotesync.cpp).
pub mod News
pub mod Waits
pub mod Refusals
pub mod Threads
use notekeeper_open.Base.{
  ℕ, zero, suc, ◌+◌, ◌≡◌, Bool, true, false, not, List, [], ◌∷◌, ◌++◌, QString, lit, if◌then◌else◌,
}
use notekeeper_open.Connection.Configuration.{Network}
use notekeeper_open.Connection.Manager.{
  Manager, Report, connection_state_changed, scanning_for_wifi_changed, iap_configuration_changed,
  show_connection_message, session_opened, configurations_updated, is_connected, is_disconnected,
  Emission, request_connection,
}
use notekeeper_open.Connection.Scan.{Happening, happens, start_manager}
use notekeeper_open.Sync.State.{
  EvernoteSync, SyncSignal, sync_started, first_chunk_done, full_sync_done_changed,
  auth_token_invalid, login_error, is_syncing_changed, sync_progress_changed, sync_finished, Log,
  SyncOutcome, Surroundings, after, tell, quiet, new_sync, cancel, update_sync_progress,
  update_sync_status_message, network_connected, network_disconnected, thread_finished,
  rate_limit_reached, rate_limit_reset,
}

-- The slots that a signal of the manager calls, with the manager as it is then.
unfoldable pub react : Surroundings → Emission → EvernoteSync → SyncOutcome
unfolding network_connected network_disconnected
react e (is_connected, m) s = network_connected e m s
react e (is_disconnected, m) s = network_disconnected e s
react e _ s = quiet s

unfoldable pub react_all : Surroundings → List Emission → EvernoteSync → SyncOutcome
unfolding react
react_all e [] s = quiet s
react_all e (x ∷ xs) s = after (react e x s) (react_all e xs)

-- A signal of the manager calls one of two slots, or none.
pub react_cases :
    (P : SyncOutcome → Type 0) (e : Surroundings) (r : Report) (m : Manager) (s : EvernoteSync)
    → P (network_connected e m s)
    → P (network_disconnected e s)
    → P (quiet s)
    → P (react e (r, m) s)
unfolding react
react_cases P e is_connected m s h k q = h
react_cases P e is_disconnected m s h k q = k
react_cases P e connection_state_changed m s h k q = q
react_cases P e scanning_for_wifi_changed m s h k q = q
react_cases P e iap_configuration_changed m s h k q = q
react_cases P e (show_connection_message a b) m s h k q = q
react_cases P e session_opened m s h k q = q
react_cases P e configurations_updated m s h k q = q

abbrev pub System : Type 0
System = Manager × EvernoteSync

-- The beginning of startSync, before it asks for a connection.
unfoldable pub announce_sync : EvernoteSync → SyncOutcome
unfolding update_sync_status_message
announce_sync s = after (update_sync_status_message [] s) (λ s'.
    after (tell is_syncing_changed (record s' { is_sync_in_progress = true; sync_progress = 0 }))
      (tell sync_progress_changed))

-- The end of startSync, by the answer of requestConnection.
unfoldable pub after_request : Surroundings → Manager → Bool → Bool → EvernoteSync → SyncOutcome
unfolding network_connected
after_request e m request_ok already_connected s =
    if already_connected
    then network_connected e m s
    else if not request_ok
    then tell (sync_finished false (lit "Not connected to the internet"))
        (record s { is_sync_in_progress = false })
    else quiet s

-- startSync where no synchronisation is in progress.
unfoldable pub attempt_sync : Surroundings → System → System × Log
unfolding announce_sync request_connection react_all after_request
attempt_sync e (m, s) =
    let ((m', es), (ok, already)) = request_connection e.network m in
    let (s', log) =
      after (after (announce_sync s) (react_all e es)) (after_request e m' ok already) in
    ((m', s'), log)

unfoldable pub start_sync : Surroundings → System → System × Log
unfolding attempt_sync
start_sync e (m, s) = if s.is_sync_in_progress then ((m, s), []) else attempt_sync e (m, s)

-- What the two are driven by: calls of the user, events of the network, and the thread.
pub data Input : Type 0 where
  sync_requested sync_cancelled rate_limit_over : Input
  -- The thread has ended: threadFinished is called.
  thread_ended : Input
  network_event : Happening → Input
  progress_reported : ℕ → Input
  status_reported : QString → Input
  rate_limit_reported : ℕ → Input
  -- Signals of the thread that are passed on.
  first_chunk_reported full_sync_reported token_rejected : Input
  login_failed : QString → Input
  end_reported : Bool → QString → Input

abbrev pub alone : Manager → SyncOutcome → System × Log
alone m (s, log) = ((m, s), log)

unfoldable pub handle : Surroundings → Input → System → System × Log
unfolding start_sync cancel happens react_all update_sync_progress update_sync_status_message
    rate_limit_reached rate_limit_reset thread_finished
handle e sync_requested (m, s) = start_sync e (m, s)
handle e sync_cancelled (m, s) = alone m (cancel e s)
handle e rate_limit_over (m, s) = alone m (rate_limit_reset s)
handle e thread_ended (m, s) = alone m (thread_finished s)
handle e (network_event h) (m, s) =
    let (m', es) = happens e.network h m in alone m' (react_all e es s)
handle e (progress_reported n) (m, s) = alone m (update_sync_progress n s)
handle e (status_reported message) (m, s) = alone m (update_sync_status_message message s)
handle e (rate_limit_reported n) (m, s) = alone m (rate_limit_reached e n s)
handle e first_chunk_reported (m, s) = alone m (tell first_chunk_done s)
handle e full_sync_reported (m, s) = alone m (tell full_sync_done_changed s)
handle e token_rejected (m, s) = alone m (tell auth_token_invalid s)
handle e (login_failed message) (m, s) = alone m (tell (login_error message) s)
handle e (end_reported success message) (m, s) = alone m (tell (sync_finished success message) s)

abbrev pub ends_thread : Input → Bool
ends_thread thread_ended = true
ends_thread _ = false

unfoldable pub starts_of : SyncSignal → ℕ
starts_of sync_started = 1
starts_of _ = 0

-- How many threads are started.
unfoldable pub starts : Log → ℕ
unfolding starts_of
starts [] = 0
starts ((x, s) ∷ log) = starts_of x + starts log

-- Where a run leads, with the number of threads that are started and have not ended. Only a thread
-- that is started can end.
pub data Reach : System → ℕ → Type 0 where
  at_start : (n : Network) (online : Bool) → Reach ((start_manager n online).0, new_sync) 0
  handled :
      {t : System} {k : ℕ}
      → Reach t k
      → (e : Surroundings) (i : Input) → ends_thread i ≡ false
      → Reach (handle e i t).0 (k + starts (handle e i t).1)
  ended :
      {t : System} {k : ℕ}
      → Reach t (suc k)
      → (e : Surroundings) → Reach (handle e thread_ended t).0 k
