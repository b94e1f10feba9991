-- ===== src/Dashboard/DeliveryConfig.antt =====
-- gui/mesh_dashboard/server/delivery_config.py: the QoS that the dashboard displays for each topic. A
-- configuration is taken after YAML is parsed and paths are resolved, each field `none` where it is missing;
-- every exception is `none`. Of Connext come the durations D with their seconds S, each with a test of
-- equality, and the provider of profiles; the file's name and the time of loading are not kept.
pub mod Texts
pub mod Load
pub mod Listed
pub mod Tables
pub mod Configured
pub mod Tests
use Prim.Native.String.{◌++◌ as ◌concat◌}
use act_sim_scope_infra.Common.{
  ◌≡◌, refl, ℕ, String, Bool, true, false, ◌↔◌, Option, none, some, if◌then◌else◌, str_eq, List, [],
  ◌∷◌, ◌++◌, map, Key, any, Dict, lookup, insert, get_default, string_key, nat_key, pair_key,
  option_key, bool_key, key_by, arith,
}
use act_sim_scope_infra.Dashboard.Json.{◌>>=◌, ◌>>◌, require}
use act_sim_scope_infra.Dashboard.DeliveryConfig.Texts.{kind}

-- What `qos_settings` reads of a Connext QoS, a kind as its text.
pub record Qos (D : Type 0) : Type 0 where
  pub reliability : String
  pub history : String
  pub depth : ℕ
  pub durability : String
  pub deadline : D
  pub liveliness : String
  pub lease_duration : D

pub record Settings (S : Type 0) : Type 0 where
  pub reliability : String
  pub history : String
  pub history_depth : Option ℕ
  pub durability : String
  pub deadline_seconds : Option S
  pub liveliness : String
  pub lease_seconds : Option S

abbrev SettingsFields : Type 0 → Type 0
SettingsFields S = (String × (String × Option ℕ)) × ((String × Option S) × (String × Option S))

instance abbrev pub settings_key : {S : Type 0} ⦃e : Key S⦄ → Key (Settings S)
settings_key {S} =
    key_by {B = SettingsFields S}
      (λ s. (
        (s.reliability, (s.history, s.history_depth)),
        ((s.durability, s.deadline_seconds), (s.liveliness, s.lease_seconds)),
      ))
      (λ p. record {
        reliability = p.0.0;
        history = p.0.1.0;
        history_depth = p.0.1.1;
        durability = p.1.0.0;
        deadline_seconds = p.1.0.1;
        liveliness = p.1.1.0;
        lease_seconds = p.1.1.1;
      })
      (λ s. refl)

pub data Endpoint : Type 0 where
  reader writer : Endpoint

abbrev pub endpoint_same : Endpoint → Endpoint → Bool
endpoint_same reader reader = true
endpoint_same writer writer = true
endpoint_same reader writer = false
endpoint_same writer reader = false

pub endpoint_same_iff : (e f : Endpoint) → (endpoint_same e f ≡ true) ↔ (e ≡ f)
endpoint_same_iff reader reader = ground arith
endpoint_same_iff reader writer = ground arith
endpoint_same_iff writer reader = ground arith
endpoint_same_iff writer writer = ground arith

instance abbrev pub endpoint_key : Key Endpoint
endpoint_key = record { same = endpoint_same; same_iff = endpoint_same_iff }

-- An entry without its routes.
pub record Entry (S : Type 0) : Type 0 where
  pub participant : String
  pub role : String
  pub domain_id : ℕ
  pub endpoint : Endpoint
  pub profile : Option String
  pub settings : Option (Settings S)
  pub enabled : Bool

abbrev EntryFields : Type 0 → Type 0
EntryFields S =
    (String × (String × ℕ)) × ((Endpoint × Option String) × (Option (Settings S) × Bool))

-- `all(value[key] == value_ for key, value_ in entry.items())`
instance abbrev pub entry_key : {S : Type 0} ⦃e : Key S⦄ → Key (Entry S)
entry_key {S} =
    key_by {B = EntryFields S}
      (λ s. (
        (s.participant, (s.role, s.domain_id)),
        ((s.endpoint, s.profile), (s.settings, s.enabled)),
      ))
      (λ p. record {
        participant = p.0.0;
        role = p.0.1.0;
        domain_id = p.0.1.1;
        endpoint = p.1.0.0;
        profile = p.1.0.1;
        settings = p.1.1.0;
        enabled = p.1.1.1;
      })
      (λ s. refl)

-- The entries of each topic, each with its routes.
abbrev pub Topics : Type 0 → Type 0
Topics S = Dict String (Dict (Entry S) (List String))
