-- ===== src/Connection/Tests.antt =====
-- A phone with one access point over Wi-Fi and one over mobile data, and runs of the connection manager
-- of src/connectionmanager.cpp on it.
use notekeeper_open.Base.{◌≡◌, refl, zero, suc, true, false, ◌||◌, [], ◌∷◌, ◌++◌, lit}
use notekeeper_open.Connection.Configuration.{
  Configuration, Network, internet_access_point, user_choice, bearer_wlan, bearer_hspa,
  session_disconnected, has_state, choose_iap_configuration, bearer_dec, fits, choose_with,
  primary_iap_configuration,
}
use notekeeper_open.Connection.Choice.{IsBestOf, Each, choose_iap_configuration-IsBestOf}
use notekeeper_open.Connection.Manager.{
  Manager, connected, connecting, in_state, request_connection,
}
use notekeeper_open.Connection.Scan.{requested, happens, start_manager, started, went}
use notekeeper_open.Connection.Reports.{Sound, Run-Sound, request_connection-answers}

abbrev pub wifi : Configuration
wifi = record {
  is_valid = true;
  type = internet_access_point;
  state = 6;
  bearer_type = bearer_wlan;
  name = lit "home";
}

abbrev pub mobile : Configuration
mobile = record wifi { bearer_type = bearer_hspa; name = lit "carrier" }

abbrev pub choice : Configuration
choice = record wifi { type = user_choice; name = [] }

-- The user chooses, and nothing is connected.
abbrev pub at_home : Network
at_home = record {
  session_state = session_disconnected;
  session_configuration = choice;
  all_configurations = mobile ∷ wifi ∷ [];
  active_configurations = [];
  children = λ c. [];
  equals = λ c d. false;
  is_symbian = false;
}

wifi_is_chosen : choose_iap_configuration (mobile ∷ wifi ∷ []) ≡ wifi
unfolding choose_iap_configuration choose_with fits has_state bearer_dec
wifi_is_chosen = refl

both_valid : Each (mobile ∷ wifi ∷ []) (λ c. c.is_valid ≡ true)
both_valid zero c h = cc
both_valid (suc zero) c h = cc
both_valid (suc (suc i)) c h = cc

choose_iap_configuration-IsBestOf_example :
    IsBestOf (mobile ∷ wifi ∷ []) (choose_iap_configuration (mobile ∷ wifi ∷ []))
choose_iap_configuration-IsBestOf_example =
    choose_iap_configuration-IsBestOf (mobile ∷ wifi ∷ []) both_valid

abbrev first : Manager
first = (start_manager at_home true).0

Run-Sound_example : Sound (
  (happens at_home requested first).0,
  (start_manager at_home true).1 ++ (happens at_home requested first).1,
)
Run-Sound_example = Run-Sound (went (started at_home true) at_home requested)

request_connection-answers_example :
    ((request_connection at_home first).1.1
      ≡ in_state (request_connection at_home first).0.0.connection_state connected)
    × ((request_connection at_home first).1.0 ≡ (
        in_state (request_connection at_home first).0.0.connection_state connected
        || in_state (request_connection at_home first).0.0.connection_state connecting))
    × ((request_connection at_home first).1.0 ≡ false
        → (primary_iap_configuration at_home).is_valid ≡ false)
request_connection-answers_example = request_connection-answers at_home first
