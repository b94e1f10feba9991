-- ===== src/Dashboard/DeliveryConfig/Configured.antt =====
-- The table that `load_delivery_config` of delivery_config.py returns.
use act_sim_scope_infra.Common.{
  ◌≡◌, sym, subst, ◌∙◌, String, Bool, true, false, not, ◌&&◌, ◌||◌, Option, none, some, List, [],
  ◌∷◌, Key, Dict, lookup, arith, inl, inr, ◌⊎◌, Bool-cases, str_eq, string_key,
}
use act_sim_scope_infra.Dashboard.Json.{◌>>=◌, Gives, Gives-bind, Gives-require}
use act_sim_scope_infra.Dashboard.DeliveryConfig.{
  Endpoint, reader, writer, Entry, Topics, entry_key,
}
use act_sim_scope_infra.Dashboard.DeliveryConfig.Load.{
  Participant, Leg, Side, Route, Config, Provider, Loaded, Report, unavailable, available, each,
  profile_of, settings_of, note_topic, add_entry, add, add_leg, add_direction, side_enabled,
  add_side, add_route, presence_of, add_presence, load_delivery_config, is_empty, join_paths,
}
use act_sim_scope_infra.Dashboard.DeliveryConfig.Listed.{is_listed, note_topic-is_listed}
use act_sim_scope_infra.Dashboard.DeliveryConfig.Tables.{IsTable, note_topic-IsTable}

-- What holds of a first result, for the steps after it.
Gives-both :
    {A B : Type 0} (P : A → Type 0) (Q : B → Type 0) (o : Option A) (f : A → Option B)
    → Gives P o
    → ((a : A) → P a → Gives Q (f a))
    → Gives Q (o >>= f)
Gives-both P Q none f q h = tt
Gives-both P Q (some a) f q h = h a q

Gives-each :
    {A T : Type 0} (P : T → Type 0) (body : A → T → Option T)
    → ((x : A) (t : T) → P t → Gives P (body x t))
    → (xs : List A) (t : T) → P t
    → Gives P (each body xs t)
Gives-each P body h [] t p = p
Gives-each P body h (x ∷ xs) t p =
    Gives-both P P (body x t) (each body xs) (h x t p) (Gives-each P body h xs)

which : (b c d e : Bool) → (b || (c && (d && e))) ≡ true → (b ≡ true) ⊎ (d ≡ true)
which b c d e h = ground (arith, h)

module _ {D S : Type 0} ⦃ed : Key D⦄ ⦃es : Key S⦄ (infinite_duration : D) (float : D → S)
    (provider : Provider D) (participants : Dict String Participant) where
  -- What the configuration and the provider say of an entry.
  pub record IsOnWan (entry : Entry S) : Type 0 where
    pub config : Participant
    pub found : lookup entry.participant participants ≡ some config
    pub on_wan : config.on_wan ≡ true
    pub role : config.role ≡ some entry.role
    pub domain : config.domain ≡ some entry.domain_id
    pub settings :
        settings_of infinite_duration float provider entry.endpoint entry.profile
        ≡ some entry.settings

  pub record IsConfigured (topics : Topics S) : Type 0 where
    pub table : IsTable topics
    pub listed :
        (topic : String) (entry : Entry S) (route : String)
        → is_listed topic entry route topics ≡ true
        → IsOnWan entry

  note_topic-IsConfigured :
      (topic : String) (entry : Entry S) (route : String) (topics : Topics S)
      → IsOnWan entry
      → IsConfigured topics
      → IsConfigured (note_topic topic entry route topics)
  note_topic-IsConfigured topic entry route topics w c = record {
    table = note_topic-IsTable topic entry route topics c.table;
    listed = λ topic' entry' route' h.
        elim (which (is_listed topic' entry' route' topics) (str_eq topic topic')
          (entry_key.same entry entry') (str_eq route route')
          (sym (note_topic-is_listed topic entry route topics topic' entry' route') ∙ h)) [
            | inl b ↦ c.listed topic' entry' route' b
            | inr b ↦ subst IsOnWan ((entry_key.same_iff entry entry').0 b) w
          ];
  }

  add-IsConfigured :
      (topic route name : String) (endpoint : Endpoint) (profile : Option String) (enabled : Bool)
      (topics : Topics S)
      → IsConfigured topics
      → Gives IsConfigured (
          add infinite_duration float provider participants topic route name endpoint profile
            enabled topics)
  unfolding add add_entry
  add-IsConfigured topic route name endpoint profile enabled topics c =
      Gives-bind IsConfigured (lookup name participants) _ (λ config e1.
        elim (Bool-cases config.on_wan) [
          | inr b ↦ rw b c
          | inl b ↦ rw b (
              Gives-bind IsConfigured
                (settings_of infinite_duration float provider endpoint profile) _
                (λ settings e2. Gives-bind IsConfigured config.role _ (λ role e3.
                  Gives-bind IsConfigured config.domain _ (λ domain e4.
                    note_topic-IsConfigured topic _ route topics
                      (record {
                        config = config;
                        found = e1;
                        on_wan = b;
                        role = e3;
                        domain = e4;
                        settings = e2;
                      })
                      c))))
        ])

  add_direction-IsConfigured :
      (aliases : Dict String String) (route : Route) (enabled : Bool) (endpoint : Endpoint)
      (alias : Leg → Option String) (leg : Option Leg) (topics : Topics S)
      → IsConfigured topics
      → Gives IsConfigured (
          add_direction infinite_duration float provider participants aliases route enabled endpoint
            alias leg topics)
  unfolding add_direction add_leg
  add_direction-IsConfigured aliases route enabled endpoint alias none topics c = c
  add_direction-IsConfigured aliases route enabled endpoint alias (some leg) topics c =
      Gives-bind IsConfigured (profile_of aliases (alias leg)) _ (λ profile e1.
        Gives-bind IsConfigured route.topics _ (λ names e2.
          Gives-each IsConfigured _
            (λ topic t p. Gives-bind IsConfigured topic _ (λ name e3.
              Gives-bind IsConfigured route.name _ (λ route_name e4.
                Gives-bind IsConfigured leg.participant _ (λ participant e5.
                  add-IsConfigured name route_name participant endpoint profile enabled t p))))
            names topics c))

  add_side-IsConfigured :
      (aliases : Dict String String) (route : Route) (side : Side) (topics : Topics S)
      → IsConfigured topics
      → Gives IsConfigured
          (add_side infinite_duration float provider participants aliases route side topics)
  unfolding add_side
  add_side-IsConfigured aliases route side topics c =
      let enabled = side_enabled side.enabled route.enabled in
      Gives-both IsConfigured IsConfigured _ _
        (add_direction-IsConfigured aliases route enabled reader (λ leg. leg.reader_qos) side.input
          topics c)
        (add_direction-IsConfigured aliases route enabled writer (λ leg. leg.writer_qos)
          side.output)

  add_route-IsConfigured :
      (aliases : Dict String String) (route : Route) (topics : Topics S)
      → IsConfigured topics
      → Gives IsConfigured
          (add_route infinite_duration float provider participants aliases route topics)
  unfolding add_route
  add_route-IsConfigured aliases route topics c =
      Gives-both IsConfigured IsConfigured _ _
        (add_side-IsConfigured aliases route route.source_side topics c)
        (add_side-IsConfigured aliases route route.destination_side)

  add_presence-IsConfigured :
      (name : String) (topics : Topics S)
      → IsConfigured topics
      → Gives IsConfigured (add_presence infinite_duration float provider participants name topics)
  unfolding add_presence
  add_presence-IsConfigured name topics c =
      Gives-both IsConfigured IsConfigured _ _
        (add-IsConfigured "RouterHealth" "Internal WAN presence/link monitoring" name writer
          (some "ACT_QOS_LIB::router_health") true topics c)
        (add-IsConfigured "RouterHealth" "Internal WAN presence/link monitoring" name reader
          (some "ACT_QOS_LIB::router_health") true)

module _ {D S : Type 0} ⦃ed : Key D⦄ ⦃es : Key S⦄ (infinite_duration : D) (float : D → S)
    (provider_factory : String → Option (Provider D)) (content : Config) where
  -- What a report says of the configuration that it was loaded from.
  pub record IsLoaded (loaded : Loaded S) : Type 0 where
    pub provider : Provider D
    pub participants : Dict String Participant
    pub qos_libraries : content.qos_libraries ≡ some loaded.qos_libraries
    pub some_library : is_empty loaded.qos_libraries ≡ false
    pub made : provider_factory (join_paths loaded.qos_libraries) ≡ some provider
    pub read : content.participants ≡ some participants
    pub configured : IsConfigured infinite_duration float provider participants loaded.topics

  abbrev IsReport : Report S → Type 0
  IsReport unavailable = Unit
  IsReport (available loaded) = IsLoaded loaded

  load_delivery_config-IsReport :
      Gives IsReport
        (load_delivery_config infinite_duration float provider_factory (some (some content)))
  unfolding load_delivery_config
  load_delivery_config-IsReport = Gives-bind IsReport content.qos_libraries _ (λ libraries e1.
      Gives-require IsReport (not (is_empty libraries)) _ (λ h.
        Gives-bind IsReport (provider_factory (join_paths libraries)) _ (λ provider e2.
          Gives-bind IsReport content.participants _ (λ participants e3.
            Gives-bind IsReport content.routes _ (λ routes e4.
              let Good = IsConfigured infinite_duration float provider participants in
              let start : Good [] = record {
                table = (tt, tt);
                listed = λ topic entry route l. ground (arith, l);
              } in
              let routed =
                Gives-each Good _
                  (add_route-IsConfigured infinite_duration float provider participants
                    content.qos_profiles)
                  routes [] start in
              Gives-both Good IsReport _ _ routed (λ t good.
                Gives-bind IsReport content.router _ (λ router e5.
                  Gives-bind IsReport (presence_of router) _ (λ presence e6.
                    Gives-both Good IsReport _ _
                      (Gives-each Good _
                        (add_presence-IsConfigured infinite_duration float provider participants)
                        presence t good)
                      (λ topics configured. record {
                        provider = provider;
                        participants = participants;
                        qos_libraries = e1;
                        some_library = ground (arith, h);
                        made = e2;
                        read = e3;
                        configured = configured;
                      })))))))))

  -- A report that is loaded lists no topic, entry or route twice, and each entry that it lists belongs to a
  -- participant of the configuration that is on the WAN, with that participant's role and domain and the
  -- settings that the provider of the configured libraries has for the entry's profile.
  pub load_delivery_config-IsLoaded :
      (loaded : Loaded S)
      → load_delivery_config infinite_duration float provider_factory (some (some content))
        ≡ some (available loaded)
      → IsLoaded loaded
  load_delivery_config-IsLoaded loaded h = subst (Gives IsReport) h load_delivery_config-IsReport
