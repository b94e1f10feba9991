-- ===== src/Dashboard/DeliveryConfig/Load.antt =====
-- `load_delivery_config` of delivery_config.py: `add`, and the loops that call it.
use Prim.Native.String.{◌++◌ as ◌concat◌}
use act_sim_scope_infra.Common.{
  ℕ, String, Bool, true, false, not, Option, none, some, if◌then◌else◌, str_eq, List, [], ◌∷◌, ◌++◌,
  map, Key, any, Dict, lookup, insert, get_default, string_key,
}
use act_sim_scope_infra.Dashboard.Json.{◌>>=◌, ◌>>◌, require}
use act_sim_scope_infra.Dashboard.DeliveryConfig.{
  Qos, Settings, Endpoint, reader, writer, Entry, Topics, entry_key,
}
use act_sim_scope_infra.Dashboard.DeliveryConfig.Texts.{kind}

-- `on_wan` is false where it is missing.
pub record Participant : Type 0 where
  pub on_wan : Bool
  pub role : Option String
  pub domain : Option ℕ

pub record Leg : Type 0 where
  pub participant : Option String
  pub reader_qos : Option String
  pub writer_qos : Option String

-- A leg is `none` where it is missing or empty.
pub record Side : Type 0 where
  pub enabled : Option Bool
  pub input : Option Leg
  pub output : Option Leg

-- A side that is missing has no field. The topics are their names.
pub record Route : Type 0 where
  pub name : Option String
  pub enabled : Option Bool
  pub topics : Option (List (Option String))
  pub source_side : Side
  pub destination_side : Side

pub data Presence : Type 0 where
  single : String → Presence
  by_role : Dict String String → Presence
  other : Presence

-- `qos_profiles` and the presence of the router are empty where they are missing.
pub record Config : Type 0 where
  pub qos_libraries : Option (List String)
  pub qos_profiles : Dict String String
  pub participants : Option (Dict String Participant)
  pub routes : Option (List Route)
  pub router : Option Presence

-- What the QoS provider of Connext answers to the name of a profile.
pub record Provider (D : Type 0) : Type 0 where
  pub datawriter_qos_from_profile : String → Option (Qos D)
  pub datareader_qos_from_profile : String → Option (Qos D)

pub record Loaded (S : Type 0) : Type 0 where
  pub qos_libraries : List String
  pub topics : Topics S

pub data Report (S : Type 0) : Type 0 where
  unavailable : Report S
  available : Loaded S → Report S

abbrev pub is_member : String → List String → Bool
is_member name = any (λ n. str_eq n name)

abbrev pub is_empty : List String → Bool
is_empty [] = true
is_empty (path ∷ paths) = false

-- `";".join(map(str, libraries))`
abbrev pub join_paths : List String → String
join_paths [] = ""
join_paths (path ∷ []) = path
join_paths (path ∷ next ∷ paths) = path concat (";" concat join_paths (next ∷ paths))

-- `for x in xs`, with a body that may raise
abbrev pub each {ℓ κ} : {A : Type ℓ} {T : Type κ} → (A → T → Option T) → List A → T → Option T
each body [] t = some t
each body (x ∷ xs) t = body x t >>= each body xs

-- `aliases[alias] if alias else None`
abbrev pub profile_of : Dict String String → Option String → Option (Option String)
profile_of aliases none = some none
profile_of aliases (some alias) =
    if str_eq alias "" then some none else (lookup alias aliases >>= λ profile. some (some profile))

-- The routes of an entry, with one more.
abbrev pub add_route_name : String → List String → List String
add_route_name route routes = if is_member route routes then routes else routes ++ route ∷ []

-- `side_config.get("enabled", route.get("enabled", False))`
abbrev pub side_enabled : Option Bool → Option Bool → Bool
side_enabled (some enabled) _ = enabled
side_enabled none (some enabled) = enabled
side_enabled none none = false

-- The participants that `presence_participant` names
abbrev pub presence_of : Presence → Option (List String)
presence_of (single name) = some (name ∷ [])
presence_of (by_role names) = some (map (λ r. r.1) names)
presence_of other = none

module _ {S : Type 0} ⦃es : Key S⦄ where
  -- `entries = topics.setdefault(topic, [])` and what follows
  unfoldable pub note_topic : String → Entry S → String → Topics S → Topics S
  note_topic topic entry route topics =
      let entries = get_default topic [] topics in
      insert topic (insert entry (add_route_name route (get_default entry [] entries)) entries)
        topics

module _ {D S : Type 0} ⦃ed : Key D⦄ ⦃es : Key S⦄ (infinite_duration : D) (float : D → S) where
  abbrev pub seconds : D → Option S
  seconds duration = if ed.same duration infinite_duration then none else some (float duration)

  unfoldable pub qos_settings : Qos D → Settings S
  qos_settings qos = record {
    reliability = kind qos.reliability;
    history = kind qos.history;
    history_depth = if str_eq (kind qos.history) "KEEP_LAST" then some qos.depth else none;
    durability = kind qos.durability;
    deadline_seconds = seconds qos.deadline;
    liveliness = kind qos.liveliness;
    lease_seconds = seconds qos.lease_duration;
  }

  abbrev pub qos_of : Provider D → Endpoint → String → Option (Qos D)
  qos_of provider writer = provider.datawriter_qos_from_profile
  qos_of provider reader = provider.datareader_qos_from_profile

  abbrev pub settings_of : Provider D → Endpoint → Option String → Option (Option (Settings S))
  settings_of provider endpoint none = some none
  settings_of provider endpoint (some profile) = do
    qos ← qos_of provider endpoint profile
    some (some (qos_settings qos))

  unfoldable pub add_entry :
      Provider D
      → Participant
      → String
      → String
      → String
      → Endpoint
      → Option String
      → Bool
      → Topics S
      → Option (Topics S)
  add_entry provider config topic route participant endpoint profile enabled topics = do
    settings ← settings_of provider endpoint profile
    role ← config.role
    domain ← config.domain
    let entry : Entry S = record {
      participant = participant;
      role = role;
      domain_id = domain;
      endpoint = endpoint;
      profile = profile;
      settings = settings;
      enabled = enabled;
    }
    some (note_topic topic entry route topics)

  unfoldable pub add :
      Provider D
      → Dict String Participant
      → String
      → String
      → String
      → Endpoint
      → Option String
      → Bool
      → Topics S
      → Option (Topics S)
  add provider participants topic route participant endpoint profile enabled topics = do
    config ← lookup participant participants
    (if config.on_wan
        then add_entry provider config topic route participant endpoint profile enabled topics
        else some topics)

  unfoldable pub add_leg :
      Provider D
      → Dict String Participant
      → Dict String String
      → Route
      → Bool
      → Endpoint
      → Option String
      → Leg
      → Topics S
      → Option (Topics S)
  add_leg provider participants aliases route enabled endpoint alias leg topics = do
    profile ← profile_of aliases alias
    names ← route.topics
    each
        (λ topic t. do
          name ← topic
          route_name ← route.name
          participant ← leg.participant
          add provider participants name route_name participant endpoint profile enabled t)
        names topics

  -- `if not leg: continue`
  unfoldable pub add_direction :
      Provider D
      → Dict String Participant
      → Dict String String
      → Route
      → Bool
      → Endpoint
      → (Leg → Option String)
      → Option Leg
      → Topics S
      → Option (Topics S)
  add_direction provider participants aliases route enabled endpoint alias none topics = some topics
  add_direction provider participants aliases route enabled endpoint alias (some leg) topics =
      add_leg provider participants aliases route enabled endpoint (alias leg) leg topics

  unfoldable pub add_side :
      Provider D
      → Dict String Participant
      → Dict String String
      → Route
      → Side
      → Topics S
      → Option (Topics S)
  add_side provider participants aliases route side topics = do
    let enabled = side_enabled side.enabled route.enabled
    t ←
        add_direction provider participants aliases route enabled reader (λ leg. leg.reader_qos)
          side.input topics
    add_direction provider participants aliases route enabled writer (λ leg. leg.writer_qos)
        side.output t

  unfoldable pub add_route :
      Provider D
      → Dict String Participant
      → Dict String String
      → Route
      → Topics S
      → Option (Topics S)
  add_route provider participants aliases route topics = do
    t ← add_side provider participants aliases route route.source_side topics
    add_side provider participants aliases route route.destination_side t

  -- One participant of the presence, with `INTERNAL_WAN_PROFILES`
  unfoldable pub add_presence :
      Provider D → Dict String Participant → String → Topics S → Option (Topics S)
  add_presence provider participants name topics = do
    t ←
        add provider participants "RouterHealth" "Internal WAN presence/link monitoring" name writer
          (some "ACT_QOS_LIB::router_health") true topics
    add provider participants "RouterHealth" "Internal WAN presence/link monitoring" name reader
        (some "ACT_QOS_LIB::router_health") true t

  -- The configuration is `none` where no path is given, and its content where it is no mapping.
  unfoldable pub load_delivery_config :
      (String → Option (Provider D)) → Option (Option Config) → Option (Report S)
  load_delivery_config provider_factory none = some unavailable
  load_delivery_config provider_factory (some content) = do
    config ← content
    libraries ← config.qos_libraries
    require (not (is_empty libraries))
    provider ← provider_factory (join_paths libraries)
    participants ← config.participants
    routes ← config.routes
    t ← each (add_route provider participants config.qos_profiles) routes []
    router ← config.router
    presence ← presence_of router
    topics ← each (add_presence provider participants) presence t
    some (available (record { qos_libraries = libraries; topics = topics }))
