-- ===== src/Traffic/Accounting/Learned.antt =====
-- The topics that `FrameAccounting` learns from SEDP, and the roles that they give to a frame: `_learn`
-- and `_tx_class` of debug/scripts/traffic_accounting.py.
pub mod Roles
use act_sim_scope_infra.Common.{
  ℕ, zero, suc, ◌+◌, ◌-◌, ◌*◌, ◌/◌, ◌%◌, ◌≤◌, String, List, [], ◌∷◌, ◌++◌, Bool, true, false, not,
  ◌&&◌, ◌||◌, Option, none, some, ltb, leb, ◌==◌, if◌then◌else◌, str_eq, Dict, lookup, insert,
  nat_key, pair_key, list_key, any, length, drop,
}
use act_sim_scope_infra.Wire.Bytes.{Bytes, last_byte}
use act_sim_scope_infra.Traffic.Counters.{TxClass}
use act_sim_scope_infra.Traffic.Classify.{
  is_discovery_entity, is_writer, carries_data, carries_control, add_role, tx_class_of,
}

pub record Topic : Type 0 where
  pub topic : String
  pub seen_at : ℕ

-- Keyed by the domain and the writer's GUID, `f"{domain}:{guid}"`.
abbrev pub TopicKey : Type 0
TopicKey = ℕ × Bytes

abbrev pub Topics : Type 0
Topics = Dict TopicKey Topic

abbrev pub max_topics : ℕ
max_topics = 10000

-- `sorted(..., key=lambda item: item[1]["seen_at"])`
pub insert_by_age : TopicKey × Topic → Topics → Topics
insert_by_age x [] = x ∷ []
insert_by_age x (y ∷ ys) =
    if ltb x.1.seen_at y.1.seen_at then x ∷ y ∷ ys else y ∷ insert_by_age x ys

pub sort_by_age : Topics → Topics → Topics
unfolding insert_by_age
sort_by_age [] done = done
sort_by_age (x ∷ xs) done = sort_by_age xs (insert_by_age x done)

-- The loop of `_learn`, and whether it has set `dirty`. An endpoint that is not 32 hexadecimal digits
-- is `none`.
pub learn_all : ℕ → ℕ → List (Option Bytes) → List String → Topics × Bool → Topics × Bool
learn_all domain now (none ∷ gs) (name ∷ names) t = learn_all domain now gs names t
learn_all domain now (some guid ∷ gs) (name ∷ names) t = learn_all domain now gs names (
    if last_byte guid == 0x02 || last_byte guid == 0x03
    then (insert (domain, guid) (record { topic = name; seen_at = now }) t.0, true)
    else t)
learn_all domain now gs names t = t

-- `if len(self.topics) > 10000`
pub trim : Topics → Topics
unfolding sort_by_age
trim topics =
    if ltb max_topics (length topics)
    then drop (length topics - max_topics) (sort_by_age topics [])
    else topics

-- `_learn`, on the topics and the mark `dirty`
unfoldable pub learn : ℕ → ℕ → List (Option Bytes) → List String → Topics × Bool → Topics × Bool
unfolding learn_all trim
learn domain now guids [] t = t
learn domain now guids (name ∷ names) t =
    if length (name ∷ names) == length guids
    then (let (topics, dirty) = learn_all domain now guids (name ∷ names) t in (trim topics, dirty))
    else t

abbrev pub is_infrastructure : String → Bool
is_infrastructure name = str_eq name "RouterHealth" || str_eq name "RouterLinkProbe"

-- The GUID of a writer: the prefix and the entity id's four bytes.
abbrev pub writer_guid : Bytes → ℕ → Bytes
writer_guid prefix entity =
    prefix
    ++ entity / 16777216 % 256 ∷ entity / 65536 % 256 ∷ entity / 256 % 256 ∷ entity % 256 ∷ []

-- What a writer's entry, when there is one, adds to the roles; the entry is seen now.
abbrev pub role_in :
    Option Topic → TopicKey → ℕ → List TxClass × Topics × Bool → List TxClass × Topics × Bool
role_in none key now (roles, topics, dirty) = (add_role TxClass.unknown roles, topics, dirty)
role_in (some entry) key now (roles, topics, dirty) = (
  add_role (if is_infrastructure entry.topic then TxClass.infrastructure else TxClass.application)
      roles,
  insert key (record entry { seen_at = now }) topics,
  true,
)

-- The loop of `_tx_class` over the entities: the roles so far, the topics and `dirty`.
pub roles_of : ℕ → ℕ → Bytes → List ℕ → List TxClass × Topics × Bool → List TxClass × Topics × Bool
roles_of domain now prefix [] r = r
roles_of domain now prefix (entity ∷ entities) r =
    let key : TopicKey = (domain, writer_guid prefix entity) in
    let seen = role_in (lookup key r.1) key now r in
    roles_of domain now prefix entities (if is_writer entity then seen else r)

-- `_tx_class`: the class, the topics and `dirty`
unfoldable pub tx_class : ℕ → ℕ → Bytes → List ℕ → List ℕ → Topics × Bool → TxClass × Topics × Bool
unfolding roles_of is_discovery_entity carries_data carries_control
tx_class domain now prefix entities submessages t =
    let discovery = any is_discovery_entity entities in
    let initial = if discovery then TxClass.discovery ∷ [] else [] in
    let (roles, topics, dirty) = roles_of domain now prefix entities (initial, t.0, t.1) in
    if carries_data submessages
    then (tx_class_of roles, topics, dirty)
    else if discovery
    then (TxClass.discovery, t.0, t.1)
    else if carries_control submessages
    then (TxClass.reliability, t.0, t.1)
    else (TxClass.unknown, t.0, t.1)
