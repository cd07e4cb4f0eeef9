-- ===== src/Connection/Configuration.antt =====
-- The network configurations that Qt reports, and how one of them is chosen: chooseIapConfiguration,
-- primaryIapConfiguration and activeIapConfiguration of src/connectionmanager.cpp.
use notekeeper_open.Base.{
  ℕ, Bool, true, false, ◌&&◌, ◌||◌, not, List, [], ◌∷◌, QString, ◌==◌, if◌then◌else◌, ite,
}
use Prim.Native.Nat.{bit_and}

pub data ConfigurationType : Type 0 where
  internet_access_point service_network user_choice invalid_type : ConfigurationType

pub data BearerType : Type 0 where
  bearer_unknown bearer_ethernet bearer_wlan bearer_2g bearer_cdma2000 bearer_wcdma : BearerType
  bearer_hspa bearer_bluetooth bearer_wimax : BearerType

unfoldable pub bearer_dec : Discrete BearerType
bearer_dec = hlevel

abbrev pub bearer_eq : BearerType → BearerType → Bool
bearer_eq a b = ite (bearer_dec a b) true false

abbrev pub is_access_point : ConfigurationType → Bool
is_access_point internet_access_point = true
is_access_point _ = false

-- QNetworkConfiguration, by what the code reads of it; the state is a set of flags.
pub record Configuration : Type 0 where
  pub is_valid : Bool
  pub type : ConfigurationType
  pub state : ℕ
  pub bearer_type : BearerType
  pub name : QString

-- QNetworkConfiguration().
abbrev pub no_configuration : Configuration
no_configuration = record {
  is_valid = false;
  type = invalid_type;
  state = 1;
  bearer_type = bearer_unknown;
  name = [];
}

-- QNetworkConfiguration::Discovered and QNetworkConfiguration::Active.
abbrev pub discovered : ℕ
discovered = 6

abbrev pub active : ℕ
active = 14

unfoldable pub has_state : ℕ → Configuration → Bool
has_state flags c = bit_and c.state flags == flags

pub data SessionState : Type 0 where
  session_invalid session_not_available session_connecting session_connected : SessionState
  session_closing session_disconnected session_roaming : SessionState

-- What Qt answers while one event is handled: the session and its configuration, the known
-- configurations, the active ones, the children of a service network, `==` on configurations, and
-- whether the build is for Symbian.
pub record Network : Type 0 where
  pub session_state : SessionState
  pub session_configuration : Configuration
  pub all_configurations : List Configuration
  pub active_configurations : List Configuration
  pub children : Configuration → List Configuration
  pub equals : Configuration → Configuration → Bool
  pub is_symbian : Bool

unfoldable pub fits : ℕ → BearerType → Configuration → Bool
fits flags kind c =
    is_access_point c.type
    && has_state flags c
    && (bearer_eq kind bearer_unknown || bearer_eq c.bearer_type kind)

unfoldable pub choose_with : List Configuration → ℕ → BearerType → Configuration
unfolding fits
choose_with [] flags kind = no_configuration
choose_with (c ∷ cs) flags kind =
    let rest = choose_with cs flags kind in if fits flags kind c then c else rest

-- An active configuration, else one over Wi-Fi that is in range, else any that is in range.
unfoldable pub choose_iap_configuration : List Configuration → Configuration
unfolding choose_with
choose_iap_configuration cs =
    let by_activity = choose_with cs active bearer_unknown in
    let over_wlan = choose_with cs discovered bearer_wlan in
    let in_range = choose_with cs discovered bearer_unknown in
    if by_activity.is_valid
    then by_activity
    else if over_wlan.is_valid
    then over_wlan
    else if in_range.is_valid
    then in_range
    else no_configuration

primary_of : Network → Configuration → ConfigurationType → Configuration
unfolding choose_iap_configuration
primary_of n c service_network = choose_iap_configuration (n.children c)
primary_of n c user_choice = choose_iap_configuration n.all_configurations
primary_of n c _ = c

unfoldable pub primary_iap_configuration : Network → Configuration
unfolding primary_of
primary_iap_configuration n =
    let c = n.session_configuration in if not c.is_valid then c else primary_of n c c.type

unfoldable pub first_access_point : List Configuration → Configuration
first_access_point [] = no_configuration
first_access_point (c ∷ cs) =
    let rest = first_access_point cs in if is_access_point c.type then c else rest

unfoldable pub active_iap_configuration : Network → Configuration
unfolding first_access_point
active_iap_configuration n = first_access_point n.active_configurations
