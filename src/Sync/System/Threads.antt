-- ===== src/Sync/System/Threads.antt =====
-- At most one thread synchronises at a time (src/cloud/evernote/evernotesync/evernotesync.cpp).
use notekeeper_open.Base.{
  ℕ, ◌+◌, ◌≡◌, ◌≤◌, refl, ◌↔◌, Bool, true, false, List, [], ◌∷◌, ◌++◌, QString, arith,
  if◌then◌else◌,
}
use notekeeper_open.Connection.Manager.{Manager, Emission, Outcome, request_connection}
use notekeeper_open.Connection.Scan.{happens}
use notekeeper_open.Sync.State.{
  EvernoteSync, Log, SyncOutcome, Surroundings, after, quiet, cancel, run_thread, refuse,
  start_sync_threaded, update_sync_progress, update_sync_status_message, network_connected,
  network_disconnected, thread_finished, rate_limit_reached, rate_limit_reset,
}
use notekeeper_open.Sync.System.{
  System, react, react_cases, attempt_sync, react_all, announce_sync, after_request, start_sync,
  Input, sync_requested, sync_cancelled, rate_limit_over, thread_ended, ends_thread, network_event,
  progress_reported, status_reported, rate_limit_reported, first_chunk_reported, full_sync_reported,
  token_rejected, login_failed, end_reported, handle, starts, starts_of, Reach, at_start, handled,
  ended,
}

abbrev running : EvernoteSync → ℕ
running s = if s.is_thread_running then 1 else 0

-- The threads that an operation starts are those that run after it and did not before.
abbrev IsBalanced : EvernoteSync → SyncOutcome → Type 0
IsBalanced s o = starts o.1 + running s ≡ running o.0

starts-append : (log more : Log) → starts (log ++ more) ≡ starts log + starts more
unfolding starts
starts-append [] more = omega arith
starts-append ((x, s) ∷ log) more = omega (arith, starts-append log more)

after-IsBalanced :
    (s : EvernoteSync) (o : SyncOutcome) (f : EvernoteSync → SyncOutcome)
    → IsBalanced s o
    → IsBalanced o.0 (f o.0)
    → IsBalanced s (after o f)
after-IsBalanced s (s', log) f h k = omega (arith, starts-append log (f s').1, h, k)

update_sync_status_message-IsBalanced :
    (message : QString) (s : EvernoteSync) → IsBalanced s (update_sync_status_message message s)
unfolding update_sync_status_message starts starts_of
update_sync_status_message-IsBalanced message s = ground arith

network_connected-IsBalanced :
    (e : Surroundings) (m : Manager) (s : EvernoteSync) → IsBalanced s (network_connected e m s)
unfolding network_connected refuse run_thread start_sync_threaded update_sync_status_message starts
    starts_of
network_connected-IsBalanced e m s = ground arith

network_disconnected-IsBalanced :
    (e : Surroundings) (s : EvernoteSync) → IsBalanced s (network_disconnected e s)
unfolding network_disconnected cancel starts starts_of
network_disconnected-IsBalanced e s = ground arith

quiet-IsBalanced : (s : EvernoteSync) → IsBalanced s (quiet s)
unfolding starts
quiet-IsBalanced s = omega arith

react-IsBalanced : (e : Surroundings) (x : Emission) (s : EvernoteSync) → IsBalanced s (react e x s)
react-IsBalanced e (r, m) s =
    react_cases (IsBalanced s) e r m s (network_connected-IsBalanced e m s)
      (network_disconnected-IsBalanced e s) (quiet-IsBalanced s)

react_all-IsBalanced :
    (e : Surroundings) (xs : List Emission) (s : EvernoteSync) → IsBalanced s (react_all e xs s)
unfolding react_all starts
react_all-IsBalanced e [] s = omega arith
react_all-IsBalanced e (x ∷ xs) s =
    after-IsBalanced s (react e x s) (react_all e xs) (react-IsBalanced e x s)
      (react_all-IsBalanced e xs (react e x s).0)

announce_sync-IsBalanced : (s : EvernoteSync) → IsBalanced s (announce_sync s)
unfolding announce_sync update_sync_status_message starts starts_of
announce_sync-IsBalanced s = ground arith

after_request-IsBalanced :
    (e : Surroundings) (m : Manager) (ok already : Bool) (s : EvernoteSync)
    → IsBalanced s (after_request e m ok already s)
unfolding after_request starts starts_of
after_request-IsBalanced e m ok already s = ground (arith, network_connected-IsBalanced e m s)

abbrev IsBalancedFrom : System → System × Log → Type 0
IsBalancedFrom t r = starts r.1 + running t.1 ≡ running r.0.1

if-IsBalanced :
    (b : Bool) (t : System) (r q : System × Log)
    → IsBalancedFrom t r
    → IsBalancedFrom t q
    → IsBalancedFrom t (if b then r else q)
if-IsBalanced true t r q h k = h
if-IsBalanced false t r q h k = k

attempt_sync-IsBalanced :
    (e : Surroundings) (m : Manager) (s : EvernoteSync)
    → IsBalancedFrom (m, s) (attempt_sync e (m, s))
unfolding attempt_sync
attempt_sync-IsBalanced e m s =
    let r : Outcome × (Bool × Bool) = request_connection e.network m in
    let reacted : SyncOutcome = after (announce_sync s) (react_all e r.0.1) in
    after-IsBalanced s reacted (after_request e r.0.0 r.1.0 r.1.1)
      (after-IsBalanced s (announce_sync s) (react_all e r.0.1) (announce_sync-IsBalanced s)
        (react_all-IsBalanced e r.0.1 (announce_sync s).0))
      (after_request-IsBalanced e r.0.0 r.1.0 r.1.1 reacted.0)

start_sync-IsBalanced :
    (e : Surroundings) (m : Manager) (s : EvernoteSync)
    → IsBalancedFrom (m, s) (start_sync e (m, s))
unfolding start_sync
start_sync-IsBalanced e m s =
    if-IsBalanced s.is_sync_in_progress (m, s) ((m, s), []) (attempt_sync e (m, s))
      (quiet-IsBalanced s) (attempt_sync-IsBalanced e m s)

handle-IsBalanced :
    (e : Surroundings) (i : Input) (m : Manager) (s : EvernoteSync)
    → ends_thread i ≡ false
    → IsBalancedFrom (m, s) (handle e i (m, s))
unfolding handle cancel rate_limit_reset rate_limit_reached update_sync_progress starts starts_of
handle-IsBalanced e sync_requested m s h = start_sync-IsBalanced e m s
handle-IsBalanced e sync_cancelled m s h = ground arith
handle-IsBalanced e rate_limit_over m s h = ground arith
handle-IsBalanced e thread_ended m s h = cc
handle-IsBalanced e (network_event x) m s h = react_all-IsBalanced e (happens e.network x m).1 s
handle-IsBalanced e (progress_reported n) m s h = ground arith
handle-IsBalanced e (status_reported message) m s h =
    update_sync_status_message-IsBalanced message s
handle-IsBalanced e (rate_limit_reported n) m s h = ground arith
handle-IsBalanced e first_chunk_reported m s h = ground arith
handle-IsBalanced e full_sync_reported m s h = ground arith
handle-IsBalanced e token_rejected m s h = ground arith
handle-IsBalanced e (login_failed message) m s h = ground arith
handle-IsBalanced e (end_reported success message) m s h = ground arith

thread_finished-running : (s : EvernoteSync) → running (thread_finished s).0 ≡ 0
unfolding thread_finished update_sync_status_message
thread_finished-running s = ground arith

Reach-running : {t : System} {k : ℕ} → Reach t k → k ≡ running t.1
unfolding handle
Reach-running (at_start n online) = refl
Reach-running (handled {t} {k} r e i h) =
    omega (arith, Reach-running r, handle-IsBalanced e i t.0 t.1 h)
Reach-running (ended {t} {k} r e) = ground (arith, Reach-running r, thread_finished-running t.1)

-- However the user, the network and the threads act, at most one thread is started that has not
-- ended, and there is one exactly if the state says that a thread is running.
pub Reach-one_thread :
    {m : Manager} {s : EvernoteSync} {k : ℕ}
    → Reach (m, s) k
    → (k ≤ 1) × ((k ≡ 1) ↔ (s.is_thread_running ≡ true))
Reach-one_thread {s} r = ground (arith, Reach-running r)
