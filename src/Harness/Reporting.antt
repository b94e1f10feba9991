-- ===== src/Harness/Reporting.antt =====
-- `class MissionReporting` of harness_v2/scripts/platform_mesh_control.py. A time of the monotonic clock
-- is its milliseconds, and `none` is the `ValueError` of an unknown phase or mode.
mod Tests
use act_sim_scope_infra.Common.{
  ℕ, ◌+◌, ◌≤◌, ◌≡◌, refl, String, List, [], ◌∷◌, Bool, true, false, not, ◌&&◌, ◌||◌, Option, none,
  some, ltb, leb, ◌==◌, if◌then◌else◌, str_eq, arith, All, inl, inr, Bool-cases, sym, ap, ◌∙◌,
  eq_iff,
}

abbrev pub status_init : ℕ
status_init = 0

abbrev pub status_mission : ℕ
status_mission = 1

abbrev pub status_debug : ℕ
status_debug = 2

abbrev pub is_active : String → Bool
is_active p = str_eq p "TRANSIT" || str_eq p "ORBIT" || str_eq p "RTB" || str_eq p "HOLDING"

abbrev pub is_terminal : String → Bool
is_terminal p = str_eq p "IDLE" || str_eq p "COMPLETE" || str_eq p "CANCELLED"

abbrev pub final_status_ms : ℕ
final_status_ms = 3000

pub record Reporting : Type 0 where
  pub phase : String
  pub debug : Bool
  pub final_status_until : ℕ
  pub mission_id : String

unfoldable pub fresh : Reporting
fresh = record { phase = "IDLE"; debug = false; final_status_until = 0; mission_id = "" }

-- `phase in self.TERMINAL_PHASES and (self.phase in self.ACTIVE_PHASES or ...)`
abbrev pub ends_mission : String → String → Reporting → Bool
ends_mission phase mission_id s =
    is_terminal phase
    && (is_active s.phase || not (str_eq mission_id "") && not (str_eq mission_id s.mission_id))

unfoldable pub until_after : String → ℕ → String → Reporting → ℕ
until_after phase now mission_id s =
    if ends_mission phase mission_id s
    then now + final_status_ms
    else if is_active phase
    then 0
    else s.final_status_until

unfoldable pub note_phase : String → ℕ → String → Reporting → Reporting
note_phase phase now mission_id s =
    if not (str_eq phase s.phase) || not (str_eq mission_id s.mission_id)
    then record s {
      phase = phase;
      final_status_until = until_after phase now mission_id s;
      mission_id = mission_id;
    }
    else s

unfoldable pub observe : String → ℕ → String → Reporting → Option Reporting
observe phase now mission_id s =
    if is_active phase || is_terminal phase then some (note_phase phase now mission_id s) else none

unfoldable pub request : ℕ → Reporting → Option Reporting
request mode s =
    if mode == status_init || mode == status_mission || mode == status_debug
    then some (record s { debug = mode == status_debug })
    else none

unfoldable pub mode : ℕ → Reporting → ℕ
mode now s =
    if s.debug
    then status_debug
    else if is_active s.phase || ltb now s.final_status_until
    then status_mission
    else status_init

-- What the object is asked, in its order; an error leaves it as it is.
pub data Report : Type 0 where
  observed : String → ℕ → String → Report
  requested : ℕ → Report

abbrev pub or_same : Option Reporting → Reporting → Reporting
or_same none s = s
or_same (some t) s = t

unfoldable pub report : Report → Reporting → Reporting
report (observed phase now mission_id) s = or_same (observe phase now mission_id s) s
report (requested value) s = or_same (request value s) s

-- An observation is made by the time `t`.
abbrev pub IsBy : ℕ → Report → Type 0
IsBy t (observed phase now mission_id) = now ≤ t
IsBy t (requested value) = Unit

until_after-le :
    (t : ℕ) (phase : String) (now : ℕ) (mission_id : String) (s : Reporting)
    → now ≤ t
    → s.final_status_until ≤ t + final_status_ms
    → until_after phase now mission_id s ≤ t + final_status_ms
unfolding until_after
until_after-le t phase now mission_id s h l = elim (Bool-cases (ends_mission phase mission_id s)) [
  | inl b ↦ rw b (omega (arith, h))
  | inr b ↦ elim (Bool-cases (is_active phase)) [
    | inl c ↦ rw (b, c) (omega arith)
    | inr c ↦ rw (b, c) l
  ]
]

note_phase-until :
    (t : ℕ) (phase : String) (now : ℕ) (mission_id : String) (s : Reporting)
    → now ≤ t
    → s.final_status_until ≤ t + final_status_ms
    → (note_phase phase now mission_id s).final_status_until ≤ t + final_status_ms
unfolding note_phase
note_phase-until t phase now mission_id s h l =
    elim (Bool-cases (not (str_eq phase s.phase) || not (str_eq mission_id s.mission_id))) [
      | inl b ↦ rw b (until_after-le t phase now mission_id s h l)
      | inr b ↦ rw b l
    ]

pub report-until :
    (t : ℕ) (r : Report) (s : Reporting)
    → IsBy t r
    → s.final_status_until ≤ t + final_status_ms
    → (report r s).final_status_until ≤ t + final_status_ms
unfolding report observe request
report-until t (observed phase now mission_id) s h l =
    elim (Bool-cases (is_active phase || is_terminal phase)) [
      | inl b ↦ rw b (note_phase-until t phase now mission_id s h l)
      | inr b ↦ rw b l
    ]
report-until t (requested value) s h l =
    elim (Bool-cases (value == status_init || value == status_mission || value == status_debug)) [
      | inl b ↦ rw b l
      | inr b ↦ rw b l
    ]

-- When a terminal phase follows an active one, and no debug is asked for, the mode is MISSION for 3 s
-- from then and INIT after that, whatever the missions' identifiers are.
pub observe-window :
    (phase : String) (now later : ℕ) (mission_id : String) (s : Reporting)
    → is_terminal phase ≡ true
    → is_active phase ≡ false
    → is_active s.phase ≡ true
    → s.debug ≡ false
    → mode later (report (observed phase now mission_id) s)
      ≡ (if ltb later (now + final_status_ms) then status_mission else status_init)
unfolding mode report observe note_phase until_after
observe-window phase now later mission_id s t a b d = elim (Bool-cases (str_eq phase s.phase)) [
  | inl e ↦ absurd (ground (arith, sym b ∙ ap is_active (sym ((eq_iff phase s.phase).0 e)) ∙ a))
  | inr e ↦ rw (t, a, e, b, d) (rw a refl)
]
