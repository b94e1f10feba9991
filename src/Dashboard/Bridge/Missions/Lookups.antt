-- ===== src/Dashboard/Bridge/Missions/Lookups.antt =====
-- What is found in the history of mission commands of mesh_bridge.py after a change.
use act_sim_scope_infra.Common.{
  ℕ, ◌≡◌, refl, sym, ap, subst, ◌∙◌, suc, String, [], ◌∷◌, false, Option, none, some, ltb, length,
  if◌then◌else◌, str_eq, eq_iff, lookup, insert, string_key, arith, inl, inr, Bool-cases,
  lookup-insert, Unique, insert-Unique,
}
use act_sim_scope_infra.Dashboard.Bridge.Missions.{
  Command, Commands, history_limit, bound_history, expire_command, expire_all, change,
  update_command,
}

-- What is found, changed.
abbrev pub apply : (Command → Command) → Option Command → Option Command
apply f none = none
apply f (some c) = some (f c)

pub lookup-expire_all :
    (now : ℕ) (k : String) (d : Commands)
    → lookup k (expire_all now d) ≡ apply (expire_command now) (lookup k d)
unfolding expire_all
lookup-expire_all now k [] = refl
lookup-expire_all now k ((j, c) ∷ d) = elim (Bool-cases (str_eq j k)) [
  | inl b ↦ rw b refl
  | inr b ↦ rw b (lookup-expire_all now k d)
]

pub lookup-update_command :
    (id k : String) (f : Command → Command) (d : Commands)
    → lookup k (update_command id f d) ≡ (if str_eq id k then apply f (lookup k d) else lookup k d)
unfolding update_command
lookup-update_command id k f d = elim (Bool-cases (str_eq id k)) [
  | inl b ↦ rw b (
      subst (λ j. lookup j (change (lookup id d) id f d) ≡ apply f (lookup j d)) ((eq_iff id k).0 b)
        (at_id (lookup id d) refl))
  | inr b ↦ rw b (elsewhere (lookup id d) b)
]
  where
    at_id :
        (o : Option Command) → lookup id d ≡ o → lookup id (change o id f d) ≡ apply f (lookup id d)
    at_id none e = rw e refl
    at_id (some c) e = rw e (ground (arith, lookup-insert id id (f c) d, eq_iff id id))

    elsewhere : (o : Option Command) → str_eq id k ≡ false → lookup k (change o id f d) ≡ lookup k d
    elsewhere none b = refl
    elsewhere (some c) b = ground (arith, lookup-insert id k (f c) d, b)

-- An update keeps what is kept by an insertion at a name that is there.
pub update_command-keeps :
    (P : Commands → Type 0) (id : String) (f : Command → Command) (d : Commands)
    → ((c : Command) → lookup id d ≡ some c → P (insert id (f c) d))
    → P d
    → P (update_command id f d)
unfolding update_command
update_command-keeps P id f d h p = go (lookup id d) refl
  where
    go : (o : Option Command) → lookup id d ≡ o → P (change o id f d)
    go none e = p
    go (some c) e = h c e

pub expire_all-Unique : (now : ℕ) (d : Commands) → Unique d → Unique (expire_all now d)
unfolding expire_all
expire_all-Unique now [] u = tt
expire_all-Unique now ((id, c) ∷ d) (n, u) =
    (rw (lookup-expire_all now id d, n) refl, expire_all-Unique now d u)

-- What holds of nothing and of what is found still holds when the history is bounded.
pub lookup-bound_history :
    (P : Option Command → Type 0) (k : String) (d : Commands)
    → P none
    → Unique d
    → P (lookup k d)
    → P (lookup k (bound_history d))
unfolding bound_history
lookup-bound_history P k [] z u h = h
lookup-bound_history P k ((j, c) ∷ d) z (n, u) h =
    elim (Bool-cases (ltb history_limit (suc (length d)))) [
      | inl b ↦ elim (Bool-cases (str_eq j k)) [
        | inl e ↦ rw b (
            lookup-bound_history P k d z u
              (subst P (sym (ap (λ i. lookup i d) (sym ((eq_iff j k).0 e)) ∙ n)) z))
        | inr e ↦ rw b (lookup-bound_history P k d z u (rw e at h))
      ]
      | inr b ↦ rw b h
    ]

pub bound_history-Unique : (d : Commands) → Unique d → Unique (bound_history d)
unfolding bound_history
bound_history-Unique [] u = tt
bound_history-Unique ((j, c) ∷ d) (n, u) = elim (Bool-cases (ltb history_limit (suc (length d)))) [
  | inl b ↦ rw b (bound_history-Unique d u)
  | inr b ↦ rw b (n, u)
]

pub update_command-absent :
    (id k : String) (f : Command → Command) (d : Commands)
    → lookup k d ≡ none
    → lookup k (update_command id f d) ≡ none
update_command-absent id k f d h =
    lookup-update_command id k f d
    ∙ elim (Bool-cases (str_eq id k)) [ inl b ↦ rw (b, h) refl | inr b ↦ rw b h ]

-- What an update keeps of what is found, where the change keeps it.
pub update_command-found :
    (P : Option Command → Type 0) (id k : String) (f : Command → Command) (d : Commands)
    → (P (lookup k d) → P (apply f (lookup k d)))
    → P (lookup k d)
    → P (lookup k (update_command id f d))
update_command-found P id k f d h p =
    subst P (sym (lookup-update_command id k f d))
      (elim (Bool-cases (str_eq id k)) [ inl b ↦ rw b (h p) | inr b ↦ rw b p ])

pub insert-Unique-update :
    (id : String) (f : Command → Command) (d : Commands) → Unique d → Unique (update_command id f d)
insert-Unique-update id f d u =
    update_command-keeps Unique id f d (λ c e. insert-Unique id (f c) d u) u
