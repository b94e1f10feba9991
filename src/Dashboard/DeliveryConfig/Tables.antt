-- ===== src/Dashboard/DeliveryConfig/Tables.antt =====
-- The shape of the table that `add` of delivery_config.py writes.
use act_sim_scope_infra.Common.{
  ◌≡◌, refl, String, false, List, [], ◌∷◌, ◌++◌, Key, Dict, insert, get_default, Unique,
  insert-Unique, string_key, str_eq, eq_iff, arith, inl, inr, Bool-cases,
}
use act_sim_scope_infra.Dashboard.DeliveryConfig.{Entry, Topics, entry_key}
use act_sim_scope_infra.Dashboard.DeliveryConfig.Load.{is_member, add_route_name, note_topic}

module _ {K V : Type 0} ⦃ek : Key K⦄ (P : V → Type 0) where
  -- Every value of a dict.
  abbrev pub Values : Dict K V → Type 0
  Values [] = Unit
  Values ((k, v) ∷ d) = P v × Values d

  Values-insert : (k : K) (v : V) (d : Dict K V) → P v → Values d → Values (insert k v d)
  Values-insert k v [] p h = (p, tt)
  Values-insert k v ((j, w) ∷ d) p (q, h) = elim (Bool-cases (ek.same j k)) [
    | inl b ↦ rw b (p, h)
    | inr b ↦ rw b (q, Values-insert k v d p h)
  ]

  Values-get_default : (k : K) (v : V) (d : Dict K V) → P v → Values d → P (get_default k v d)
  Values-get_default k v [] p h = p
  Values-get_default k v ((j, w) ∷ d) p (q, h) = elim (Bool-cases (ek.same j k)) [
    | inl b ↦ rw (b, get_default) q
    | inr b ↦ rw (b, get_default) (Values-get_default k v d p h)
  ]

-- No route stands twice.
abbrev pub Once : List String → Type 0
Once [] = Unit
Once (r ∷ rs) = (is_member r rs ≡ false) × Once rs

is_member-append_other :
    (name route : String) (routes : List String)
    → is_member name routes ≡ false
    → str_eq route name ≡ false
    → is_member name (routes ++ route ∷ []) ≡ false
is_member-append_other name route [] h l = ground (arith, l)
is_member-append_other name route (r ∷ rs) h l =
    ground (arith, h, is_member-append_other name route rs, l)

Once-append :
    (route : String) (routes : List String)
    → is_member route routes ≡ false
    → Once routes
    → Once (routes ++ route ∷ [])
Once-append route [] h u = (refl, tt)
Once-append route (r ∷ rs) h (n, u) = (
  ground (arith, h, n, is_member-append_other r route rs n, eq_iff r route, eq_iff route r),
  Once-append route rs (ground (arith, h)) u,
)

Once-add_route_name :
    (route : String) (routes : List String) → Once routes → Once (add_route_name route routes)
Once-add_route_name route routes u = elim (Bool-cases (is_member route routes)) [
  | inl b ↦ rw b u
  | inr b ↦ rw b (Once-append route routes b u)
]

module _ {S : Type 0} ⦃es : Key S⦄ where
  abbrev pub IsEntries : Dict (Entry S) (List String) → Type 0
  IsEntries entries = Unique entries × Values Once entries

  -- No topic stands twice, no entry twice at a topic, and no route twice at an entry.
  abbrev pub IsTable : Topics S → Type 0
  IsTable topics = Unique topics × Values IsEntries topics

  pub note_topic-IsTable :
      (topic : String) (entry : Entry S) (route : String) (topics : Topics S)
      → IsTable topics
      → IsTable (note_topic topic entry route topics)
  unfolding note_topic
  note_topic-IsTable topic entry route topics (u, h) =
      let entries = get_default topic [] topics in
      let old : IsEntries entries = Values-get_default IsEntries topic [] topics (tt, tt) h in
      let routes = add_route_name route (get_default entry [] entries) in
      let once =
        Once-add_route_name route (get_default entry [] entries)
          (Values-get_default Once entry [] entries tt old.1) in
      let noted = insert entry routes entries in
      (
        insert-Unique topic noted topics u,
        Values-insert IsEntries topic noted topics
            (
              insert-Unique entry routes entries old.0,
              Values-insert Once entry routes entries once old.1,
            )
            h,
      )
