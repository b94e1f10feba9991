-- ===== src/Dashboard/Metrics/Aligned.antt =====
-- The window that `coherent_samples` of traffic_metrics.py chooses.
use act_sim_scope_infra.Common.{
  ◌≡◌, ◌≢◌, refl, sym, ap, subst, ◌∙◌, ℕ, ◌≤◌, String, Bool, true, ◌&&◌, ◌||◌, some, List, [], ◌∷◌,
  map, any, all, keep, max, member, All, arith, ◌⊎◌, inl, inr, ◌==◌, ==_iff, Bool-cases,
  Option-cases, some-injective, Dict, contains, lookup, insert, lookup-insert, get_default, nat_key,
  string_key,
}
use act_sim_scope_infra.Dashboard.Metrics.{
  Sample, max_of, is_current, window_of, Windows, windows_of, common_of, rows_at, names_of,
  is_coherent, choose, coherent_samples,
}

List-cases : {A : Type 0} (xs : List A) → (xs ≡ []) ⊎ ((x : A) × (ys : List A) × (xs ≡ x ∷ ys))
List-cases [] = inl refl
List-cases (x ∷ xs) = inr (x, xs, refl)

max_of-member : (n : ℕ) (ns : List ℕ) → member (max_of n ns) (n ∷ ns) ≡ true
max_of-member n [] = ground (arith, ==_iff n n)
max_of-member n (m ∷ ms) = ground (arith, max_of-member m ms, ==_iff n (max n (max_of m ms)))

member-max_of : (k n : ℕ) (ns : List ℕ) → member k (n ∷ ns) ≡ true → k ≤ max_of n ns
member-max_of k n [] h = ground (arith, h, ==_iff n k)
member-max_of k n (m ∷ ms) h = ground (arith, h, ==_iff n k, member-max_of k m ms)

member-keep : (p : ℕ → Bool) (k : ℕ) (ns : List ℕ) → member k (keep p ns) ≡ (p k && member k ns)
member-keep p k [] = ground arith
member-keep p k (n ∷ ns) = elim (Bool-cases (n == k)) [
  | inr b ↦ ground (arith, b, member-keep p k ns)
  | inl b ↦
      subst (λ j. member k (keep p (j ∷ ns)) ≡ (p k && member k (j ∷ ns))) (sym ((==_iff n k).0 b))
        (ground (arith, ==_iff k k, member-keep p k ns))
]

contains-keys : {V : Type 0} (k : ℕ) (d : Dict ℕ V) → member k (map (λ r. r.0) d) ≡ contains k d
contains-keys k [] = refl
contains-keys k ((j, v) ∷ d) = ground (arith, contains-keys k d)

module _ {C : Type 0} where
  -- The sample is one of the list.
  abbrev pub Among : Sample C → List (Sample C) → Type 0
  Among s [] = ⊥
  Among s (x ∷ xs) = (s ≡ x) ⊎ Among s xs

  -- Some sample of the history is current and of this time.
  abbrev pub is_reported : ℕ → ℕ → List (Sample C) → Bool
  is_reported now t = any (λ s. is_current now s && s.capture_timestamp == t)

  contains-window_of :
      (now t : ℕ) (history : List (Sample C)) (window : Dict ℕ (Sample C))
      → contains t (window_of now history window) ≡ (is_reported now t history || contains t window)
  contains-window_of now t [] window = ground arith
  contains-window_of now t (s ∷ history) window = elim (Bool-cases (is_current now s)) [
    | inr b ↦ rw b (contains-window_of now t history window)
    | inl b ↦ rw b (
        ground (
          arith,
          contains-window_of now t history (insert s.capture_timestamp s window),
          lookup-insert s.capture_timestamp t s window,
        ))
  ]

  -- A current sample of this time in the history.
  pub record IsOf (now : ℕ) (history : List (Sample C)) (t : ℕ) (s : Sample C) : Type 0 where
    pub time : s.capture_timestamp ≡ t
    pub current : is_current now s ≡ true
    pub among : Among s history

  window_of-entries :
      (P : ℕ → Sample C → Type 0) (now : ℕ) (history : List (Sample C)) (window : Dict ℕ (Sample C))
      → ((s : Sample C) → Among s history → is_current now s ≡ true → P s.capture_timestamp s)
      → ((t : ℕ) (s : Sample C) → lookup t window ≡ some s → P t s)
      → (t : ℕ) (s : Sample C) → lookup t (window_of now history window) ≡ some s
      → P t s
  window_of-entries P now [] window h l = l
  window_of-entries P now (x ∷ history) window h l = elim (Bool-cases (is_current now x)) [
    | inr b ↦ rw b (window_of-entries P now history window (λ s a. h s (inr a)) l)
    | inl b ↦ rw b (
        window_of-entries P now history (insert x.capture_timestamp x window) (λ s a. h s (inr a))
          (λ t s e. elim (Bool-cases (x.capture_timestamp == t)) [
            | inr c ↦ l t s (ground (arith, e, c, lookup-insert x.capture_timestamp t x window))
            | inl c ↦
                let same : x ≡ s =
                  some-injective x s
                    (ground (arith, e, c, lookup-insert x.capture_timestamp t x window)) in
                subst (λ u. P u s) ((==_iff x.capture_timestamp t).0 c)
                  (subst (P x.capture_timestamp) same (h x (inl refl) b))
          ]))
  ]

  -- Every name's history reports a current sample of this time.
  abbrev pub Shared : ℕ → Dict String (List (Sample C)) → ℕ → List String → Type 0
  Shared now history t = All (λ name. is_reported now t (get_default name [] history) ≡ true)

  abbrev in_all : ℕ → Windows C → Bool
  in_all t = all (λ w. contains t w.1)

  Shared-in_all :
      (now t : ℕ) (history : Dict String (List (Sample C))) (names : List String)
      → Shared now history t names
      → in_all t (windows_of now history names) ≡ true
  Shared-in_all now t history [] h = refl
  Shared-in_all now t history (name ∷ names) (h, l) = ground (
    arith,
    h,
    Shared-in_all now t history names l,
    contains-window_of now t (get_default name [] history) [],
  )

  member-common_of :
      (t : ℕ) (name : String) (rows : Dict ℕ (Sample C)) (windows : Windows C)
      → member t (common_of ((name, rows) ∷ windows)) ≡ in_all t ((name, rows) ∷ windows)
  member-common_of t name rows windows =
      ground
        (arith, member-keep (λ u. in_all u windows) t (map (λ r. r.0) rows), contains-keys t rows)

  -- A row for each name, in order, each a current sample of one time in the history of its name.
  pub record IsAligned (now : ℕ) (history : Dict String (List (Sample C))) (t : ℕ)
      (names : List String) (rows : Dict String (Sample C)) : Type 0 where
    pub named : map (λ r. r.0) rows ≡ names
    pub samples : All (λ r. IsOf now (get_default r.0 [] history) t r.1) rows

  rows_at-IsAligned :
      (now t : ℕ) (history : Dict String (List (Sample C))) (names : List String)
      → in_all t (windows_of now history names) ≡ true
      → (rows : Dict String (Sample C)) × (rows_at t (windows_of now history names) ≡ some rows)
        × IsAligned now history t names rows
  rows_at-IsAligned now t history [] h = ([], refl, record { named = refl; samples = tt })
  rows_at-IsAligned now t history (name ∷ names) h =
      let log = get_default name [] history in
      let window = window_of now log [] in
      let rest = rows_at-IsAligned now t history names (ground (arith, h)) in
      elim (Option-cases (lookup t window)) [
        | inl o ↦ ground (arith, h, o)
        | inr (s, o) ↦
            let of : IsOf now log t s =
              window_of-entries (IsOf now log) now log []
                (λ x a b. record { time = refl; current = b; among = a })
                (λ u x e. ground (arith, e)) t s o in
            (
              (name, s) ∷ rest.0,
              rw (o, rest.1) refl,
              record { named = ap (λ ns. name ∷ ns) rest.2.named; samples = (of, rest.2.samples) },
            )
      ]

  choose-IsAligned :
      (samples : Dict String (Sample C)) (history : Dict String (List (Sample C))) (now t : ℕ)
      (names : List String)
      → names ≢ []
      → Shared now history t names
      → (newest : ℕ) × (rows : Dict String (Sample C)) × (choose samples
            (windows_of now history names)
            (common_of (windows_of now history names))
          ≡ some rows)
        × IsAligned now history newest names rows
        × ((u : ℕ) → Shared now history u names → u ≤ newest)
  choose-IsAligned samples history now t [] n h = elim (n refl) [ ]
  choose-IsAligned samples history now t (name ∷ names) n h =
      let windows = windows_of now history (name ∷ names) in
      let shared : (u : ℕ)
          → Shared now history u (name ∷ names)
          → member u (common_of windows) ≡ true =
        λ u l.
          member-common_of u name (window_of now (get_default name [] history) [])
            (windows_of now history names)
          ∙ Shared-in_all now u history (name ∷ names) l in
      elim (List-cases (common_of windows)) [
        | inl e ↦ ground (arith, e, shared t h)
        | inr (k, ks, e) ↦
            let newest = max_of k ks in
            let there : in_all newest windows ≡ true =
              sym (
                member-common_of newest name (window_of now (get_default name [] history) [])
                  (windows_of now history names))
              ∙ ap (member newest) e
              ∙ max_of-member k ks in
            let found = rows_at-IsAligned now newest history (name ∷ names) there in
            (
              newest,
              found.0,
              ap (choose samples windows) e ∙ found.1,
              found.2,
              λ u l. member-max_of u k ks (sym (ap (member u) e) ∙ shared u l),
            )
      ]

  -- Where every expected name has a sample, all samples are of the schema 3 on, and some time is that of a
  -- current sample in every name's history, coherent_samples returns one current sample for each name, out
  -- of its history, all of one time, and no later time is common to all names.
  pub coherent_samples-IsAligned :
      (samples : Dict String (Sample C)) (expected : List String)
      (history : Dict String (List (Sample C))) (now t : ℕ)
      → names_of expected samples ≢ []
      → is_coherent (names_of expected samples) samples ≡ true
      → Shared now history t (names_of expected samples)
      → (newest : ℕ) × (rows : Dict String (Sample C)) × (coherent_samples samples expected history
            now
          ≡ some rows)
        × IsAligned now history newest (names_of expected samples) rows
        × ((u : ℕ) → Shared now history u (names_of expected samples) → u ≤ newest)
  unfolding coherent_samples
  coherent_samples-IsAligned samples expected history now t n c h =
      rw c (choose-IsAligned samples history now t (names_of expected samples) n h)
