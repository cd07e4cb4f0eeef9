-- ===== src/Connection/Reports.antt =====
-- What the signals of ConnectionManager mean, over any run of src/connectionmanager.cpp.
use notekeeper_open.Base.{
  ◌≡◌, refl, Bool, true, false, not, ◌&&◌, ◌||◌, Option, none, some, List, [], ◌∷◌, All, All-append,
  QString, arith, if◌then◌else◌, Bool-cases, inl, inr,
}
use notekeeper_open.Connection.Configuration.{
  Configuration, ConfigurationType, SessionState, Network, primary_iap_configuration,
  session_connecting, session_connected, session_disconnected, session_not_available,
  session_invalid, session_closing, session_roaming, service_network, internet_access_point,
  user_choice, invalid_type,
}
use notekeeper_open.Connection.Manager.{
  connected, disconnected, connecting, in_state, connection_dec, Manager, is_connected,
  is_disconnected, Emission, Outcome, and_then, emit, start_scanning_for_networks,
  set_iap_configuration, invalidate_current_iap_configuration, session_state_changed,
  online_state_changed, open_session, is_behind,
  set_current_iap_configuration_to_whatever_is_active,
  set_current_iap_configuration_to_whatever_is_primary, ensure_session_use_is_registered,
  ensure_connection_state_is_up_to_date, request_connection, answer_request, nothing,
  scanning_for_wifi_changed,
}
use notekeeper_open.Connection.Scan.{
  scan_finished, finish_scan, use_configuration, select_configuration, ordering_loop, ordering_of,
  visit_child, warn, check_iap_ordering, new_manager, start_manager, Happening, timer,
  update_completed, state_changed, online_changed, requested, happens, Run, started, went,
}

-- A connected manager is online.
abbrev pub IsSound : Manager → Type 0
IsSound m = (not (in_state m.connection_state connected) || m.is_online) ≡ true

-- What a signal says holds when it is emitted.
abbrev pub IsHonest : Emission → Type 0
IsHonest (is_connected, m) = (in_state m.connection_state connected && m.is_online) ≡ true
IsHonest (is_disconnected, m) = in_state m.connection_state disconnected ≡ true
IsHonest _ = Unit

pub record Sound (o : Outcome) : Type 0 where
  pub kept : IsSound o.0
  pub honest : All IsHonest o.1

and_then-Sound :
    (o : Outcome) (f : Manager → Outcome)
    → Sound o
    → ((m : Manager) → IsSound m → Sound (f m))
    → Sound (and_then o f)
and_then-Sound (m, es) f h k = record {
  kept = (k m h.kept).kept;
  honest = All-append IsHonest es _ h.honest (k m h.kept).honest;
}

set_iap_configuration-Sound :
    (n : Network) (c : Configuration) (m : Manager)
    → IsSound m
    → Sound (set_iap_configuration n c m)
unfolding set_iap_configuration
set_iap_configuration-Sound n c m h = ground arith

session_state_changed-Sound :
    (n : Network) (s : SessionState) (m : Manager) → IsSound m → Sound (session_state_changed n s m)
unfolding session_state_changed set_iap_configuration invalidate_current_iap_configuration
    set_current_iap_configuration_to_whatever_is_active
    set_current_iap_configuration_to_whatever_is_primary
session_state_changed-Sound n session_connecting m h = ground arith
session_state_changed-Sound n session_connected m h = ground arith
session_state_changed-Sound n session_disconnected m h = ground arith
session_state_changed-Sound n session_not_available m h = ground arith
session_state_changed-Sound n session_invalid m h = (record { kept = h; honest = tt })
session_state_changed-Sound n session_closing m h = (record { kept = h; honest = tt })
session_state_changed-Sound n session_roaming m h = (record { kept = h; honest = tt })

online_state_changed-Sound :
    (n : Network) (b : Bool) (m : Manager) → IsSound m → Sound (online_state_changed n b m)
unfolding online_state_changed set_iap_configuration invalidate_current_iap_configuration
    set_current_iap_configuration_to_whatever_is_active
online_state_changed-Sound n true m h = ground arith
online_state_changed-Sound n false m h = ground arith

ensure_connection_state_is_up_to_date-Sound :
    (n : Network) (m : Manager) → IsSound m → Sound (ensure_connection_state_is_up_to_date n m)
unfolding ensure_connection_state_is_up_to_date ensure_session_use_is_registered
ensure_connection_state_is_up_to_date-Sound n m h = elim (Bool-cases (is_behind n m)) [
  | inl e ↦ rw e (
      and_then-Sound (session_state_changed n n.session_state m) ensure_session_use_is_registered
        (session_state_changed-Sound n n.session_state m h) (λ m' k. ground arith))
  | inr e ↦ rw e (record { kept = h; honest = tt })
]

answer_request-Sound : (n : Network) (m : Manager) → IsSound m → Sound (answer_request n m).0
unfolding answer_request open_session
answer_request-Sound n m h = ground arith

request_connection-Sound :
    (n : Network) (m : Manager) → IsSound m → Sound (request_connection n m).0
unfolding request_connection
request_connection-Sound n m h =
    and_then-Sound (ensure_connection_state_is_up_to_date n m) (λ m'. (answer_request n m').0)
      (ensure_connection_state_is_up_to_date-Sound n m h) (answer_request-Sound n)

visit_child-IsHonest :
    (m : Manager) (found : Option QString) (c : Configuration)
    → All IsHonest (visit_child m found c).1
unfolding visit_child warn
visit_child-IsHonest m none c = ground arith
visit_child-IsHonest m (some x) c = ground arith

ordering_loop-IsHonest :
    (m : Manager) (found : Option QString) (cs : List Configuration)
    → All IsHonest (ordering_loop m found cs)
unfolding ordering_loop
ordering_loop-IsHonest m found [] = tt
ordering_loop-IsHonest m found (c ∷ cs) =
    All-append IsHonest (visit_child m found c).1 _ (visit_child-IsHonest m found c)
      (ordering_loop-IsHonest m (visit_child m found c).0 cs)

ordering_of-IsHonest :
    (n : Network) (c : Configuration) (t : ConfigurationType) (m : Manager)
    → All IsHonest (ordering_of n c t m)
unfolding ordering_of
ordering_of-IsHonest n c service_network m = ordering_loop-IsHonest m none (n.children c)
ordering_of-IsHonest n c internet_access_point m = tt
ordering_of-IsHonest n c user_choice m = tt
ordering_of-IsHonest n c invalid_type m = tt

select_configuration-Sound :
    (n : Network) (c : Configuration) (m : Manager) → IsSound m → Sound (select_configuration n c m)
unfolding select_configuration open_session set_iap_configuration
select_configuration-Sound n c m h = ground arith

if-Sound : (b : Bool) (o p : Outcome) → Sound o → Sound p → Sound (if b then o else p)
if-Sound true o p h k = h
if-Sound false o p h k = k

nothing-Sound : (m : Manager) → IsSound m → Sound (nothing m)
nothing-Sound m h = record { kept = h; honest = tt }

use_configuration-Sound :
    (n : Network) (c : Configuration) (m : Manager) → IsSound m → Sound (use_configuration n c m)
unfolding use_configuration
use_configuration-Sound n c m h =
    ground (arith, select_configuration-Sound n c m h, nothing-Sound m h)

check_iap_ordering-Sound :
    (n : Network) (c : Configuration) (m : Manager) → IsSound m → Sound (check_iap_ordering n c m)
unfolding check_iap_ordering
check_iap_ordering-Sound n c m h = record { kept = h; honest = ordering_of-IsHonest n c c.type m }

finish_scan-Sound : (n : Network) (m : Manager) → IsSound m → Sound (finish_scan n m)
unfolding finish_scan
finish_scan-Sound n m h =
    let ordered : Outcome =
      if n.is_symbian then check_iap_ordering n n.session_configuration m else nothing m in
    if-Sound (in_state m.connection_state connected || in_state m.connection_state connecting)
      (nothing m) (and_then ordered (use_configuration n (primary_iap_configuration n)))
      (nothing-Sound m h)
      (and_then-Sound ordered (use_configuration n (primary_iap_configuration n))
        (if-Sound n.is_symbian (check_iap_ordering n n.session_configuration m) (nothing m)
          (check_iap_ordering-Sound n n.session_configuration m h) (nothing-Sound m h))
        (use_configuration-Sound n (primary_iap_configuration n)))

scan_finished-Sound : (n : Network) (m : Manager) → IsSound m → Sound (scan_finished n m)
unfolding scan_finished
scan_finished-Sound n m h =
    and_then-Sound
      (and_then (emit scanning_for_wifi_changed (record m { is_scanning_for_wifi = false }))
        (ensure_connection_state_is_up_to_date n))
      (finish_scan n)
      (and_then-Sound (emit scanning_for_wifi_changed (record m { is_scanning_for_wifi = false }))
        (ensure_connection_state_is_up_to_date n) (record { kept = h; honest = (tt, tt) })
        (ensure_connection_state_is_up_to_date-Sound n))
      (finish_scan-Sound n)

start_manager-Sound : (n : Network) (online : Bool) → Sound (start_manager n online)
unfolding start_manager connection_dec
start_manager-Sound n online =
    let m = new_manager n in
    and_then-Sound (if online then online_state_changed n true m else nothing m)
      (ensure_connection_state_is_up_to_date n)
      (if-Sound online (online_state_changed n true m) (nothing m)
        (online_state_changed-Sound n true m refl) (nothing-Sound m refl))
      (ensure_connection_state_is_up_to_date-Sound n)

happens-Sound : (n : Network) (h : Happening) (m : Manager) → IsSound m → Sound (happens n h m)
unfolding happens start_scanning_for_networks
happens-Sound n timer m k = ground arith
happens-Sound n update_completed m k = scan_finished-Sound n m k
happens-Sound n (state_changed s) m k = session_state_changed-Sound n s m k
happens-Sound n (online_changed b) m k = online_state_changed-Sound n b m k
happens-Sound n requested m k = request_connection-Sound n m k

-- In a run of the manager, from its start and through any slots and requests, a connected manager is
-- online, each signal that it is connected is emitted while it is connected and online, and each
-- signal that it is disconnected while it is disconnected.
pub Run-Sound : {m : Manager} {es : List Emission} → Run m es → Sound (m, es)
Run-Sound (started n online) = start_manager-Sound n online
Run-Sound (went {m} {es} r n h) =
    and_then-Sound (m, es) (happens n h) (Run-Sound r) (happens-Sound n h)

answer_request-answers :
    (n : Network) (m : Manager)
    → ((answer_request n m).1.1 ≡ in_state (answer_request n m).0.0.connection_state connected)
      × ((answer_request n m).1.0 ≡ (
          in_state (answer_request n m).0.0.connection_state connected
          || in_state (answer_request n m).0.0.connection_state connecting))
      × ((answer_request n m).1.0 ≡ false → (primary_iap_configuration n).is_valid ≡ false)
unfolding answer_request open_session connection_dec
answer_request-answers n m = ground arith

-- What requestConnection answers: that the connection stands exactly if the manager is connected
-- after it, that the request is on its way exactly if it is connected or connecting; and it answers
-- no only if no access point is available.
pub request_connection-answers :
    (n : Network) (m : Manager)
    → ((request_connection n m).1.1
        ≡ in_state (request_connection n m).0.0.connection_state connected)
      × ((request_connection n m).1.0 ≡ (
          in_state (request_connection n m).0.0.connection_state connected
          || in_state (request_connection n m).0.0.connection_state connecting))
      × ((request_connection n m).1.0 ≡ false → (primary_iap_configuration n).is_valid ≡ false)
unfolding request_connection
request_connection-answers n m =
    answer_request-answers n (ensure_connection_state_is_up_to_date n m).0
