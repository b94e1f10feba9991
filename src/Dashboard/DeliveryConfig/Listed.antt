-- ===== src/Dashboard/DeliveryConfig/Listed.antt =====
-- What `add` of delivery_config.py notes, as a set of topics, entries and routes.
use act_sim_scope_infra.Common.{
  ◌≡◌, ap, subst, ◌∙◌, String, Bool, true, ◌&&◌, ◌||◌, List, [], ◌∷◌, ◌++◌, Key, Dict, insert,
  get_default, get_default-insert, string_key, str_eq, eq_iff, arith, inl, inr, Bool-cases,
}
use act_sim_scope_infra.Dashboard.DeliveryConfig.{Entry, Topics, entry_key}
use act_sim_scope_infra.Dashboard.DeliveryConfig.Load.{is_member, add_route_name, note_topic}

is_member-append :
    (name route : String) (routes : List String)
    → is_member name (routes ++ route ∷ []) ≡ (is_member name routes || str_eq route name)
is_member-append name route [] = ground arith
is_member-append name route (r ∷ rs) = ground (arith, is_member-append name route rs)

is_member-add_route_name :
    (name route : String) (routes : List String)
    → is_member name (add_route_name route routes) ≡ (is_member name routes || str_eq route name)
is_member-add_route_name name route routes = elim (Bool-cases (is_member route routes)) [
  | inr b ↦ rw b (is_member-append name route routes)
  | inl b ↦ rw b (elim (Bool-cases (str_eq route name)) [
    | inr c ↦ rw c (ground arith)
    | inl c ↦
        rw c (subst (λ n. is_member n routes ≡ true) ((eq_iff route name).0 c) b ∙ ground arith)
  ])
]

module _ {S : Type 0} ⦃es : Key S⦄ where
  -- The table lists the route for this entry of the topic.
  abbrev pub is_listed : String → Entry S → String → Topics S → Bool
  is_listed topic entry route topics =
      is_member route (get_default entry [] (get_default topic [] topics))

  abbrev same_entry : Entry S → Entry S → Bool
  same_entry = (entry_key {S = S}).same

  listed_in :
      (entry other : Entry S) (route name : String) (entries : Dict (Entry S) (List String))
      → is_member name (
          get_default other []
            (insert entry (add_route_name route (get_default entry [] entries)) entries))
        ≡ (is_member name (get_default other [] entries)
            || (same_entry entry other && str_eq route name))
  listed_in entry other route name entries =
      ap (is_member name) (
        get_default-insert entry other (add_route_name route (get_default entry [] entries)) []
          entries)
      ∙ elim (Bool-cases (same_entry entry other)) [
        | inr b ↦ rw b (ground arith)
        | inl b ↦ rw b (
            is_member-add_route_name name route (get_default entry [] entries)
            ∙ ap (λ e. is_member name (get_default e [] entries) || str_eq route name)
                ((entry_key.same_iff entry other).0 b))
      ]

  -- Noting an entry lists its route for it and nothing else, and keeps all that was listed, whether or
  -- not the topic, the entry or the route was there before.
  pub note_topic-is_listed :
      (topic : String) (entry : Entry S) (route : String) (topics : Topics S) (topic' : String)
      (entry' : Entry S) (route' : String)
      → is_listed topic' entry' route' (note_topic topic entry route topics) ≡ (
          is_listed topic' entry' route' topics
          || (str_eq topic topic' && (same_entry entry entry' && str_eq route route')))
  unfolding note_topic
  note_topic-is_listed topic entry route topics topic' entry' route' =
      let entries = get_default topic [] topics in
      let noted = insert entry (add_route_name route (get_default entry [] entries)) entries in
      ap (λ d. is_member route' (get_default entry' [] d))
        (get_default-insert topic topic' noted [] topics)
      ∙ elim (Bool-cases (str_eq topic topic')) [
        | inr b ↦ rw b (ground arith)
        | inl b ↦ rw b (
            listed_in entry entry' route route' entries
            ∙ ap
                (λ t.
                  is_listed t entry' route' topics
                  || (same_entry entry entry' && str_eq route route'))
                ((eq_iff topic topic').0 b))
      ]
