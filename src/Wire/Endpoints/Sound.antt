-- ===== src/Wire/Endpoints/Sound.antt =====
-- How `endpoint_metadata` ends, and what its metadata is.
use act_sim_scope_infra.Common.{
  ℕ, zero, suc, ◌+◌, ◌-◌, ◌*◌, ◌/◌, ◌≤◌, ◌≡◌, [], ◌∷◌, Bool, true, not, ◌&&◌, ◌||◌, Option, none,
  some, ltb, leb, ◌==◌, length, arith, ◌⊎◌, inl, inr, Bool-cases,
}
use act_sim_scope_infra.Wire.Bytes.{
  Bytes, Result, ok, err, ◌>>=◌, slice, last_byte, invalid_topic_name, invalid_utf8,
  truncated_reliability, truncated_sedp,
}
use act_sim_scope_infra.Wire.Submessages.Outcome.{
  Holds, Holds-bind, Holds-raise_if, Holds-read_u16, Holds-read_u32,
}
use act_sim_scope_infra.Wire.Endpoints.{
  Parameters, Metadata, is_utf8, topic_name, reliability_policy, parameter, parameter_at,
  next_parameter, parameter_list, endpoint_of, encapsulation, endpoint_metadata,
}

abbrev pub OfSome {ℓ} : {A : Type ℓ} → (A → Type 0) → Option A → Type 0
OfSome P none = Unit
OfSome P (some a) = P a

-- What the loop keeps of the parameters that are set.
abbrev IsSound : Parameters → Type 0
IsSound p =
    OfSome (λ guid. length guid ≡ 16) p.writer_guid × OfSome (λ name. is_utf8 name ≡ true) p.topic

-- Metadata of a DataWriter of an application: its GUID has sixteen bytes and a user-defined writer's
-- entity kind, and its topic a name that is UTF-8.
abbrev pub IsWriter : Metadata → Type 0
IsWriter m =
    (length m.writer_guid ≡ 16)
    × ((last_byte m.writer_guid ≡ 0x02) ⊎ (last_byte m.writer_guid ≡ 0x03))
    × (is_utf8 m.topic ≡ true)
    × (1 ≤ length m.topic)

Holds-topic_name :
    (little : Bool) (size : ℕ) (value : Bytes)
    → 4 ≤ length value
    → Holds (λ name. is_utf8 name ≡ true) (topic_name little size value)
unfolding topic_name
Holds-topic_name little size value h = Holds-read_u32 _ little value 0 _ h (λ n.
    Holds-raise_if _ (not (leb 1 n && leb n (size - 4))) invalid_topic_name _ tt (λ e1.
      Holds-raise_if _ (not (is_utf8 (slice value 4 (4 + n - 1)))) invalid_utf8 _ tt
        (λ e2. ground (arith, e2))))

Holds-reliability_policy :
    (little : Bool) (size : ℕ) (value : Bytes)
    → length value ≡ size
    → Holds (λ r. Unit) (reliability_policy little size value)
unfolding reliability_policy
Holds-reliability_policy little size value h =
    Holds-raise_if _ (ltb size 12) truncated_reliability _ tt
      (λ e. Holds-read_u32 _ little value 0 _ (ground (arith, e, h)) (λ n. tt))

Holds-parameter :
    (little : Bool) (pid size : ℕ) (value : Bytes) (p : Parameters)
    → length value ≡ size
    → IsSound p
    → Holds IsSound (parameter little pid size value p)
unfolding parameter
Holds-parameter little pid size value p h s = elim (Bool-cases (pid == 0x005a && size == 16)) [
  | inl e ↦ rw e (ground (arith, e, h), s.1)
  | inr e ↦ rw e (elim (Bool-cases (pid == 0x0005 && leb 4 size)) [
    | inl e1 ↦ rw e1 (
        Holds-bind _ IsSound (topic_name little size value) _
          (Holds-topic_name little size value (ground (arith, e1, h))) (λ name utf8. (s.0, utf8)))
    | inr e1 ↦ rw e1 (elim (Bool-cases (pid == 0x001a)) [
      | inl e2 ↦ rw e2 (
          Holds-bind _ IsSound (reliability_policy little size value) _
            (Holds-reliability_policy little size value h) (λ r u. s))
      | inr e2 ↦ rw e2 s
    ])
  ])
]

-- Where the next round begins, it begins behind this one.
abbrev Later : ℕ → Parameters × Option ℕ → Type 0
Later offset (p, next) = IsSound p × OfSome (λ n. offset + 4 ≤ n) next

Holds-parameter_at :
    (little : Bool) (payload : Bytes) (offset : ℕ) (p : Parameters)
    → offset + 4 ≤ length payload
    → IsSound p
    → Holds (Later offset) (parameter_at little payload offset p)
unfolding parameter_at
Holds-parameter_at little payload offset p h s =
    Holds-read_u16 _ little payload offset _ (omega (arith, h)) (λ pid.
      Holds-read_u16 _ little payload (offset + 2) _ (omega (arith, h)) (λ size.
        elim (Bool-cases (pid == 1)) [
          | inl e ↦ rw e (s, tt)
          | inr e ↦ rw e (
              Holds-raise_if _
                (not (length (slice payload (offset + 4) (offset + 4 + size)) == size))
                truncated_sedp _ tt
                (λ e1.
                  Holds-bind IsSound (Later offset)
                    (parameter little pid size (slice payload (offset + 4) (offset + 4 + size)) p)
                    (λ q. ok (q, some (offset + 4 + (size + 3) / 4 * 4)))
                    (Holds-parameter little pid size
                      (slice payload (offset + 4) (offset + 4 + size)) p (ground (arith, e1)) s)
                    (λ q sound. (sound, omega arith))))
        ]))

Holds-next_parameter :
    (offset : ℕ) (r : Result (Parameters × Option ℕ)) (rest : Parameters → ℕ → Result Parameters)
    → Holds (Later offset) r
    → ((q : Parameters) (next : ℕ) → IsSound q → offset + 4 ≤ next → Holds IsSound (rest q next))
    → Holds IsSound (next_parameter r rest)
unfolding next_parameter
Holds-next_parameter offset (err e) rest l k = l
Holds-next_parameter offset (ok (q, none)) rest l k = l.0
Holds-next_parameter offset (ok (q, some next)) rest l k = k q next l.0 l.1

Holds-parameter_list :
    (f : ℕ) (little : Bool) (payload : Bytes) (offset : ℕ) (p : Parameters)
    → length payload + 1 ≤ f + offset
    → 1 ≤ f
    → IsSound p
    → Holds IsSound (parameter_list f little payload offset p)
unfolding parameter_list
Holds-parameter_list zero little payload offset p h f1 s = absurd (omega (arith, f1))
Holds-parameter_list (suc f) little payload offset p h f1 s =
    elim (Bool-cases (leb (offset + 4) (length payload))) [
      | inr e ↦ rw (e, parameter_list) tt
      | inl e ↦
          let more : offset + 4 ≤ length payload = ground (arith, e) in
          rw (e, parameter_list)
            (Holds-next_parameter offset (parameter_at little payload offset p) _
              (Holds-parameter_at little payload offset p more s)
              (λ q next sound behind.
                Holds-parameter_list f little payload next q (omega (arith, h, behind))
                  (omega (arith, h, more)) sound))
    ]

-- The empty parameters are filled, and become metadata only when they are complete.
endpoint_of-IsWriter : (p : Parameters) → IsSound p → OfSome IsWriter (endpoint_of p)
unfolding endpoint_of
endpoint_of-IsWriter p s = go p.writer_guid p.topic s.0 s.1
  where
    go :
        (guid topic : Option Bytes)
        → OfSome (λ guid. length guid ≡ 16) guid
        → OfSome (λ name. is_utf8 name ≡ true) topic
        → OfSome IsWriter (endpoint_of (record p { writer_guid = guid; topic = topic }))
    go none topic g n = tt
    go (some guid) none g n = tt
    go (some guid) (some []) g n = tt
    go (some guid) (some (b ∷ name)) g n =
        elim (Bool-cases (last_byte guid == 0x02 || last_byte guid == 0x03)) [
          | inl e ↦ rw e (g, ground (arith, e), n, omega arith)
          | inr e ↦ rw e tt
        ]

-- For every payload of an SEDP sample `endpoint_metadata` ends, without a read out of range: it raises
-- a `ValueError`, or returns nothing, or the metadata of a user-defined writer, whose GUID has sixteen
-- bytes and whose topic has a name that is valid UTF-8.
pub endpoint_metadata-IsSound :
    (payload : Bytes) → Holds (OfSome IsWriter) (endpoint_metadata payload)
unfolding endpoint_metadata
endpoint_metadata-IsSound payload = elim (Bool-cases (ltb (length payload) 4)) [
  | inl e ↦ rw e tt
  | inr e ↦ rw e (go (encapsulation payload))
]
  where
    empty : Parameters
    empty = record { writer_guid = none; topic = none; reliability = none }

    go :
        (o : Option Bool)
        → Holds (OfSome IsWriter) (elim o as (λ x. Result (Option Metadata)) [
          | none ↦ ok none
          | some little ↦
              parameter_list (suc (length payload)) little payload 4 empty
              >>= (λ p. ok (endpoint_of p))
        ])
    go none = tt
    go (some little) =
        Holds-bind IsSound (OfSome IsWriter)
          (parameter_list (suc (length payload)) little payload 4 empty) _
          (Holds-parameter_list (suc (length payload)) little payload 4 empty (omega arith)
            (omega arith) (tt, tt))
          (λ p s. endpoint_of-IsWriter p s)
