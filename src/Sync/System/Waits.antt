-- ===== src/Sync/System/Waits.antt =====
-- A synchronisation in progress always has something to go on: a thread, or a connection that is
-- being made (src/cloud/evernote/evernotesync/evernotesync.cpp, src/connectionmanager.cpp).
use notekeeper_open.Base.{
  ◌≡◌, refl, Bool, true, false, not, ◌||◌, List, [], ◌∷◌, arith, ◌∙◌, Bool-cases, inl, inr,
}
use notekeeper_open.Connection.Manager.{
  Manager, is_connected, is_disconnected, connection_state_changed, scanning_for_wifi_changed,
  iap_configuration_changed, show_connection_message, session_opened, configurations_updated,
  connected, in_state, Emission, Outcome, request_connection,
}
use notekeeper_open.Connection.Reports.{request_connection-answers}
use notekeeper_open.Connection.Scan.{happens}
use notekeeper_open.Sync.State.{
  EvernoteSync, Surroundings, cancel, run_thread, refuse, start_sync_threaded, update_sync_progress,
  update_sync_status_message, network_connected, network_disconnected, thread_finished,
  rate_limit_reached, rate_limit_reset,
}
use notekeeper_open.Sync.System.{
  System, react, react_all, announce_sync, after_request, attempt_sync, start_sync, Input,
  sync_requested, sync_cancelled, rate_limit_over, thread_ended, network_event, progress_reported,
  status_reported, rate_limit_reported, first_chunk_reported, full_sync_reported, token_rejected,
  login_failed, end_reported, handle,
}
use notekeeper_open.Sync.System.News.{is_news, has_news, is_connecting, Tells, happens-Tells}

-- What EvernoteAccess fetches, it fetches for a thread that is running.
abbrev pub IsOwned : Surroundings → EvernoteSync → Type 0
IsOwned e s = (not e.is_fetching || s.is_thread_running) ≡ true

-- Not in progress, or with a thread.
abbrev pub IsSettled : EvernoteSync → Type 0
IsSettled s = (not s.is_sync_in_progress || s.is_thread_running) ≡ true

-- In progress only with a thread, or while the manager is connecting.
abbrev pub IsHopeful : System → Type 0
IsHopeful t = (not t.1.is_sync_in_progress || t.1.is_thread_running || is_connecting t.0) ≡ true

-- What the slots make of the state `s`, where `news` says whether one of them is called.
record Reaction (e : Surroundings) (s s' : EvernoteSync) (news : Bool) : Type 0 where
  owned : IsOwned e s'
  settled : IsSettled s → IsSettled s'
  told : news ≡ true → IsSettled s'
  still : news ≡ false → s' ≡ s

network_connected-Reaction :
    (e : Surroundings) (m : Manager) (s : EvernoteSync)
    → IsOwned e s
    → Reaction e s (network_connected e m s).0 true
unfolding network_connected refuse run_thread start_sync_threaded update_sync_status_message
network_connected-Reaction e m s h = ground arith

network_disconnected-Reaction :
    (e : Surroundings) (s : EvernoteSync)
    → IsOwned e s
    → Reaction e s (network_disconnected e s).0 true
unfolding network_disconnected cancel
network_disconnected-Reaction e s h = ground arith

quiet-Reaction : (e : Surroundings) (s : EvernoteSync) → IsOwned e s → Reaction e s s false
quiet-Reaction e s h = record { owned = h; settled = λ k. k; told = λ k. cc; still = λ k. refl }

react-Reaction :
    (e : Surroundings) (x : Emission) (s : EvernoteSync)
    → IsOwned e s
    → Reaction e s (react e x s).0 (is_news x.0)
unfolding react is_news
react-Reaction e (is_connected, m) s h = network_connected-Reaction e m s h
react-Reaction e (is_disconnected, m) s h = network_disconnected-Reaction e s h
react-Reaction e (connection_state_changed, m) s h = quiet-Reaction e s h
react-Reaction e (scanning_for_wifi_changed, m) s h = quiet-Reaction e s h
react-Reaction e (iap_configuration_changed, m) s h = quiet-Reaction e s h
react-Reaction e (show_connection_message a b, m) s h = quiet-Reaction e s h
react-Reaction e (session_opened, m) s h = quiet-Reaction e s h
react-Reaction e (configurations_updated, m) s h = quiet-Reaction e s h

both-Reaction :
    {e : Surroundings} {s s' s'' : EvernoteSync} (a b : Bool)
    → Reaction e s s' a
    → Reaction e s' s'' b
    → Reaction e s s'' (a || b)
both-Reaction true b r q = record {
  owned = q.owned;
  settled = λ k. q.settled (r.settled k);
  told = λ k. q.settled (r.told refl);
  still = λ k. cc;
}
both-Reaction false b r q = record {
  owned = q.owned;
  settled = λ k. q.settled (r.settled k);
  told = q.told;
  still = λ k. q.still k ∙ r.still refl;
}

react_all-Reaction :
    (e : Surroundings) (xs : List Emission) (s : EvernoteSync)
    → IsOwned e s
    → Reaction e s (react_all e xs s).0 (has_news xs)
unfolding react_all has_news
react_all-Reaction e [] s h = quiet-Reaction e s h
react_all-Reaction e (x ∷ xs) s h =
    let r : Reaction e s (react e x s).0 (is_news x.0) = react-Reaction e x s h in
    both-Reaction (is_news x.0) (has_news xs) r (react_all-Reaction e xs (react e x s).0 r.owned)

network_event-IsHopeful :
    (e : Surroundings) (m : Manager) (s : EvernoteSync) (o : Outcome)
    → Tells m o
    → IsOwned e s
    → IsHopeful (m, s)
    → IsHopeful (o.0, (react_all e o.1 s).0)
network_event-IsHopeful e m s o t h k =
    let r : Reaction e s (react_all e o.1 s).0 (has_news o.1) = react_all-Reaction e o.1 s h in
    elim (Bool-cases (has_news o.1)) [
      | inl news ↦ ground (arith, r.told news)
      | inr none ↦ ground (arith, r.still none)
    ]

announce_sync-IsOwned :
    (e : Surroundings) (s : EvernoteSync) → IsOwned e s → IsOwned e (announce_sync s).0
unfolding announce_sync update_sync_status_message
announce_sync-IsOwned e s h = ground arith

-- After a request in startSync, whatever was in progress before.
after_request-IsHopeful :
    (e : Surroundings) (m : Manager) (ok already : Bool) (s : EvernoteSync)
    → IsOwned e s
    → already ≡ in_state m.connection_state connected
    → ok ≡ (in_state m.connection_state connected || is_connecting m)
    → IsHopeful (m, (after_request e m ok already s).0)
unfolding after_request
after_request-IsHopeful e m ok already s h p q =
    ground (arith, (network_connected-Reaction e m s h).told refl)

attempt_sync-IsHopeful :
    (e : Surroundings) (m : Manager) (s : EvernoteSync)
    → IsOwned e s
    → IsHopeful (attempt_sync e (m, s)).0
unfolding attempt_sync
attempt_sync-IsHopeful e m s h =
    let r : Outcome × (Bool × Bool) = request_connection e.network m in
    let (already, ok, none) = request_connection-answers e.network m in
    after_request-IsHopeful e r.0.0 r.1.0 r.1.1 (react_all e r.0.1 (announce_sync s).0).0
      (react_all-Reaction e r.0.1 (announce_sync s).0 (announce_sync-IsOwned e s h)).owned already
      ok

-- A synchronisation that is in progress has a thread that runs, or waits for the manager, which is
-- connecting: every call and event keeps this, the end of a thread too, as long as EvernoteAccess
-- fetches something only for a thread that runs.
pub handle-IsHopeful :
    (e : Surroundings) (i : Input) (t : System)
    → IsOwned e t.1
    → IsHopeful t
    → IsHopeful (handle e i t).0
unfolding handle cancel rate_limit_reset rate_limit_reached update_sync_progress
    update_sync_status_message thread_finished
handle-IsHopeful e sync_requested (m, s) h k =
    unfold start_sync in ground (arith, attempt_sync-IsHopeful e m s h)
handle-IsHopeful e sync_cancelled (m, s) h k = ground arith
handle-IsHopeful e rate_limit_over (m, s) h k = k
handle-IsHopeful e thread_ended (m, s) h k = ground arith
handle-IsHopeful e (network_event x) (m, s) h k =
    network_event-IsHopeful e m s (happens e.network x m) (happens-Tells e.network x m) h k
handle-IsHopeful e (progress_reported n) (m, s) h k = ground arith
handle-IsHopeful e (status_reported message) (m, s) h k = ground arith
handle-IsHopeful e (rate_limit_reported n) (m, s) h k = k
handle-IsHopeful e first_chunk_reported (m, s) h k = k
handle-IsHopeful e full_sync_reported (m, s) h k = k
handle-IsHopeful e token_rejected (m, s) h k = k
handle-IsHopeful e (login_failed message) (m, s) h k = k
handle-IsHopeful e (end_reported success message) (m, s) h k = k
