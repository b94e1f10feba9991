-- ===== src/Dashboard/DeliveryConfig/Tests.antt =====
-- A configuration of one route over a LAN and a WAN participant.
use act_sim_scope_infra.Common.{
  ◌≡◌, refl, ℕ, String, Bool, true, false, ◌&&◌, ◌||◌, Option, none, some, List, [], ◌∷◌, str_eq,
  nat_key, string_key, if◌then◌else◌,
}
use act_sim_scope_infra.Dashboard.DeliveryConfig.{
  Qos, Settings, Endpoint, reader, writer, Entry, entry_key,
}
use act_sim_scope_infra.Dashboard.DeliveryConfig.Load.{
  Participant, Leg, Route, Config, Provider, Loaded, Report, single, by_role, unavailable,
  available, qos_settings, note_topic, add_entry, add, add_leg, add_direction, add_side, add_route,
  add_presence, load_delivery_config,
}
use act_sim_scope_infra.Dashboard.DeliveryConfig.Listed.{is_listed, note_topic-is_listed}
use act_sim_scope_infra.Dashboard.DeliveryConfig.Configured.{
  IsLoaded, load_delivery_config-IsLoaded,
}

-- Durations are numbers of milliseconds, and 0 is the infinite one.
abbrev wan_qos : Qos ℕ
wan_qos = record {
  reliability = "ReliabilityKind.BEST_EFFORT";
  history = "HistoryKind.KEEP_LAST";
  depth = 1;
  durability = "DurabilityKind.VOLATILE";
  deadline = 5000;
  liveliness = "AUTOMATIC";
  lease_duration = 0;
}

abbrev to_ms : ℕ → ℕ
to_ms duration = duration

abbrev wan_settings : Settings ℕ
wan_settings = record {
  reliability = "BEST_EFFORT";
  history = "KEEP_LAST";
  history_depth = some 1;
  durability = "VOLATILE";
  deadline_seconds = some 5000;
  liveliness = "AUTOMATIC";
  lease_seconds = none;
}

settings : qos_settings 0 to_ms wan_qos ≡ wan_settings
unfolding qos_settings
settings = refl

abbrev factory : String → Option (Provider ℕ)
factory paths =
    if str_eq paths "act.xml"
    then some (record {
      datawriter_qos_from_profile = λ profile. some wan_qos;
      datareader_qos_from_profile = λ profile. some wan_qos;
    })
    else none

abbrev leg_of : String → String → Leg
leg_of name alias = record {
  participant = some name;
  reader_qos = some "";
  writer_qos = some alias;
}

abbrev status_route : Route
status_route = record {
  name = some "status";
  enabled = none;
  topics = some (some "PlatformStatus" ∷ some "PlatformStatus" ∷ []);
  source_side = record {
    enabled = none;
    input = some (leg_of "lan" "");
    output = some (leg_of "wan_out" "wan_status");
  };
  destination_side = record {
    enabled = some true;
    input = some (leg_of "wan_out" "wan_status");
    output = none;
  };
}

abbrev on : Bool → Participant
on wan = record { on_wan = wan; role = some "platform"; domain = some 1 }

abbrev content : Config
content = record {
  qos_libraries = some ("act.xml" ∷ []);
  qos_profiles = ("wan_status", "ACT_QOS_LIB::wan_status") ∷ [];
  participants = some (("lan", on false) ∷ ("wan_out", on true) ∷ []);
  routes = some (status_route ∷ []);
  router = some (by_role (("platform", "wan_out") ∷ []));
}

abbrev entry_of : Endpoint → Option String → Option (Settings ℕ) → Bool → Entry ℕ
entry_of endpoint profile settings enabled = record {
  participant = "wan_out";
  role = "platform";
  domain_id = 1;
  endpoint = endpoint;
  profile = profile;
  settings = settings;
  enabled = enabled;
}

abbrev health_profile : Option String
health_profile = some "ACT_QOS_LIB::router_health"

abbrev health_route : List String
health_route = "Internal WAN presence/link monitoring" ∷ []

abbrev expected : Loaded ℕ
expected = record {
  qos_libraries = "act.xml" ∷ [];
  topics =
      (
        "PlatformStatus",
        (entry_of writer (some "ACT_QOS_LIB::wan_status") (some wan_settings) false, "status" ∷ [])
            ∷ (entry_of reader none none true, "status" ∷ [])
            ∷ [],
      )
      ∷ (
        "RouterHealth",
        (entry_of writer health_profile (some wan_settings) true, health_route)
            ∷ (entry_of reader health_profile (some wan_settings) true, health_route)
            ∷ [],
      )
      ∷ [];
}

abbrev load : Option (Option Config) → Option (Report ℕ)
load = load_delivery_config 0 to_ms factory

loads : load (some (some content)) ≡ some (available expected)
unfolding load_delivery_config add_route add_side add_direction add_leg add add_entry note_topic
    add_presence qos_settings
loads = refl

no_path : load none ≡ some unavailable
unfolding load_delivery_config
no_path = refl

-- A presence participant that is not configured is an error.
unknown_participant : load (some (some (record content { router = some (single "wan_in") }))) ≡ none
unfolding load_delivery_config add_route add_side add_direction add_leg add add_entry note_topic
    add_presence qos_settings
unknown_participant = refl

load_delivery_config-IsLoaded_example : IsLoaded 0 to_ms factory content expected
load_delivery_config-IsLoaded_example =
    load_delivery_config-IsLoaded 0 to_ms factory content expected loads

abbrev status_entry : Entry ℕ
status_entry = entry_of reader none none true

note_topic-is_listed_example :
    is_listed "PlatformStatus" status_entry "other"
      (note_topic "PlatformStatus" status_entry "other" expected.topics)
    ≡ (is_listed "PlatformStatus" status_entry "other" expected.topics
        || (str_eq "PlatformStatus" "PlatformStatus"
            && (entry_key.same status_entry status_entry && str_eq "other" "other")))
note_topic-is_listed_example =
    note_topic-is_listed "PlatformStatus" status_entry "other" expected.topics "PlatformStatus"
      status_entry "other"
