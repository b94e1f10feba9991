-- ===== src/Traffic/Accounting/Learned/Roles.antt =====
-- The number of topics that `FrameAccounting` learns, and the roles of frames against their classes.
use act_sim_scope_infra.Common.{
  ℕ, suc, ◌+◌, ◌-◌, ◌≤◌, ◌≡◌, ◌↔◌, refl, ap, ◌∙◌, List, [], ◌∷◌, String, Bool, true, false, ◌&&◌,
  Option, none, some, if◌then◌else◌, ltb, ◌==◌, lookup, insert, any, length, arith, length-drop,
  inl, inr, Bool-cases, nat_key, pair_key, list_key,
}
use act_sim_scope_infra.Wire.Bytes.{Bytes}
use act_sim_scope_infra.Traffic.Counters.{FrameClass, TxClass}
use act_sim_scope_infra.Traffic.Classify.{
  classify_packet, is_discovery_entity, is_writer, carries_data, carries_control, class_of,
  tx_class_of,
}
use act_sim_scope_infra.Traffic.Accounting.Learned.{
  Topics, TopicKey, Topic, max_topics, insert_by_age, sort_by_age, learn_all, trim, learn, roles_of,
  role_in, writer_guid, tx_class,
}

length-insert_by_age :
    (x : TopicKey × Topic) (ys : Topics) → length (insert_by_age x ys) ≡ suc (length ys)
unfolding insert_by_age
length-insert_by_age x [] = refl
length-insert_by_age x (y ∷ ys) = ground (arith, length-insert_by_age x ys)

length-sort_by_age : (xs done : Topics) → length (sort_by_age xs done) ≡ length xs + length done
unfolding sort_by_age
length-sort_by_age [] done = omega arith
length-sort_by_age (x ∷ xs) done =
    omega (arith, length-sort_by_age xs (insert_by_age x done), length-insert_by_age x done)

trim_bounded : (topics : Topics) → length (trim topics) ≤ max_topics
unfolding trim
trim_bounded topics = elim (Bool-cases (ltb max_topics (length topics))) [
  | inl e ↦ rw e (
      omega (
        arith,
        length-drop (length topics - max_topics) (sort_by_age topics []),
        length-sort_by_age topics [],
      ))
  | inr e ↦ rw e (ground (arith, e))
]

learn_bounded :
    (domain now : ℕ) (guids : List (Option Bytes)) (names : List String) (t : Topics × Bool)
    → length t.0 ≤ max_topics
    → length (learn domain now guids names t).0 ≤ max_topics
unfolding learn
learn_bounded domain now guids [] t h = h
learn_bounded domain now guids (name ∷ names) t h =
    elim (Bool-cases (length (name ∷ names) == length guids)) [
      | inl e ↦ rw (e, learn) (trim_bounded (learn_all domain now guids (name ∷ names) t).0)
      | inr e ↦ rw (e, learn) h
    ]

-- To refresh an entry adds none.
length-refresh :
    (key : TopicKey) (old new : Topic) (topics : Topics)
    → lookup key topics ≡ some old
    → length (insert key new topics) ≡ length topics
length-refresh key old new [] e = ground arith
length-refresh key old new ((k, v) ∷ topics) e = elim (Bool-cases (pair_key.same k key)) [
  | inl s ↦ rw s refl
  | inr s ↦ rw s (ap suc (length-refresh key old new topics (rw s at e)))
]

length-role_in :
    (o : Option Topic) (key : TopicKey) (now : ℕ) (r : List TxClass × Topics × Bool)
    → lookup key r.1 ≡ o
    → length (role_in o key now r).1 ≡ length r.1
length-role_in none key now r e = refl
length-role_in (some old) key now r e = length-refresh key old (record old { seen_at = now }) r.1 e

length-roles_of :
    (domain now : ℕ) (prefix : Bytes) (entities : List ℕ) (r : List TxClass × Topics × Bool)
    → length (roles_of domain now prefix entities r).1 ≡ length r.1
unfolding roles_of
length-roles_of domain now prefix [] r = refl
length-roles_of domain now prefix (entity ∷ entities) r =
    let key : TopicKey = (domain, writer_guid prefix entity) in
    let seen = length-role_in (lookup key r.1) key now r refl in
    elim (Bool-cases (is_writer entity)) [
      | inl e ↦
          rw (e, roles_of)
            (length-roles_of domain now prefix entities (role_in (lookup key r.1) key now r) ∙ seen)
      | inr e ↦ rw (e, roles_of) (length-roles_of domain now prefix entities r)
    ]

-- However many writers are announced, what `_learn` and then `_tx_class` leave is at most 10000 topics,
-- when there were no more before.
pub tx_class_bounded :
    (domain now wall : ℕ) (prefix : Bytes) (entities submessages : List ℕ)
    (guids : List (Option Bytes)) (names : List String) (t : Topics × Bool)
    → length t.0 ≤ max_topics
    → let learned = learn domain now guids names t in
      length (tx_class domain wall prefix entities submessages learned).1 ≤ max_topics
unfolding tx_class
tx_class_bounded domain now wall prefix entities submessages guids names t h =
    let learned = learn domain now guids names t in
    ground (
      arith,
      learn_bounded domain now guids names t h,
      length-roles_of domain wall prefix entities (
        if any is_discovery_entity entities then TxClass.discovery ∷ [] else [],
        learned.0,
        learned.1,
      ),
    )

roles_of-none :
    (domain now : ℕ) (prefix : Bytes) (entities : List ℕ) (r : List TxClass × Topics × Bool)
    → any is_writer entities ≡ false
    → roles_of domain now prefix entities r ≡ r
unfolding roles_of
roles_of-none domain now prefix [] r e = refl
roles_of-none domain now prefix (entity ∷ entities) r e =
    ground (arith, roles_of-none domain now prefix entities r)

-- What the class "discovery" says of the three tests that `class_of` reads.
class_of-discovery :
    (has_data discovery writers control : Bool)
    → class_of (has_data && discovery) (has_data && writers) control ≡ FrameClass.discovery
    → (has_data ≡ true) × (discovery ≡ true) × (writers ≡ false) × (control ≡ false)
class_of-discovery true true true true e = ground (arith, e)
class_of-discovery true true true false e = ground (arith, e)
class_of-discovery true true false true e = ground (arith, e)
class_of-discovery true true false false e = (refl, refl, refl, refl)
class_of-discovery true false true true e = ground (arith, e)
class_of-discovery true false true false e = ground (arith, e)
class_of-discovery true false false true e = ground (arith, e)
class_of-discovery true false false false e = ground (arith, e)
class_of-discovery false discovery writers true e = ground (arith, e)
class_of-discovery false discovery writers false e = ground (arith, e)

classify-tx_class_from :
    (domain wall : ℕ) (prefix : Bytes) (entities submessages : List ℕ) (t : Topics × Bool)
    → classify_packet entities submessages ≡ FrameClass.discovery
    → (carries_data submessages ≡ true)
      × (carries_control submessages ≡ false)
      × (any is_writer entities ≡ false)
      × (tx_class domain wall prefix entities submessages t ≡ (TxClass.discovery, t.0, t.1))
unfolding classify_packet tx_class
classify-tx_class_from domain wall prefix entities submessages t e =
    let (has_data, discovery, writers, control) =
      class_of-discovery (carries_data submessages) (any is_discovery_entity entities)
        (any is_writer entities) (carries_control submessages) e in
    (
      has_data,
      control,
      writers,
      rw
          (
            has_data,
            discovery,
            roles_of-none domain wall prefix entities (TxClass.discovery ∷ [], t.0, t.1) writers,
          )
          refl,
    )

-- A frame of data without a writer of user data is discovery by its entities only.
by_entities :
    (discovery : Bool)
    → tx_class_of (if discovery then TxClass.discovery ∷ [] else []) ≡ TxClass.discovery
    → class_of discovery false false ≡ FrameClass.discovery
by_entities true e = refl
by_entities false e = ground (arith, e)

classify-tx_class_to :
    (domain wall : ℕ) (prefix : Bytes) (entities submessages : List ℕ) (t : Topics × Bool)
    → carries_data submessages ≡ true
    → carries_control submessages ≡ false
    → any is_writer entities ≡ false
    → tx_class domain wall prefix entities submessages t ≡ (TxClass.discovery, t.0, t.1)
    → classify_packet entities submessages ≡ FrameClass.discovery
unfolding classify_packet tx_class
classify-tx_class_to domain wall prefix entities submessages t has_data control writers e =
    let roles = if any is_discovery_entity entities then TxClass.discovery ∷ [] else [] in
    let by_class = ap (λ r. r.0) e in
    let class =
      rw (has_data, roles_of-none domain wall prefix entities (roles, t.0, t.1) writers) at
        by_class in
    rw (has_data, control, writers) (by_entities (any is_discovery_entity entities) class)

-- A frame is classified as discovery exactly when it carries data and no control submessage, names no
-- writer of user data, and has the transmit class discovery, with the topics left as they are; this
-- whatever was learned before.
pub classify-tx_class :
    (domain wall : ℕ) (prefix : Bytes) (entities submessages : List ℕ) (t : Topics × Bool)
    → (classify_packet entities submessages ≡ FrameClass.discovery) ↔ (
        (carries_data submessages ≡ true)
        × (carries_control submessages ≡ false)
        × (any is_writer entities ≡ false)
        × (tx_class domain wall prefix entities submessages t ≡ (TxClass.discovery, t.0, t.1)))
classify-tx_class domain wall prefix entities submessages t = (
  classify-tx_class_from domain wall prefix entities submessages t,
  λ h. classify-tx_class_to domain wall prefix entities submessages t h.0 h.1 h.2 h.3,
)
