-- ===== src/Traffic/Ports.antt =====
-- The RTPS port mapping of debug/scripts/domain_traffic_monitor.py: `port_to_domain`, and the port ranges
-- of `build_port_filter`. The clause for noninitial fragments, and the filter's text, are left out.
mod Tests
use act_sim_scope_infra.Common.{
  ℕ, ◌+◌, ◌-◌, ◌*◌, ◌/◌, ◌%◌, ◌≤◌, ◌<◌, ◌≡◌, refl, ap, ◌∙◌, min, List, [], ◌∷◌, map, Bool, true,
  false, not, ◌&&◌, ◌||◌, Option, none, some, some-injective, ltb, leb, ◌==◌, if◌then◌else◌, any,
  member, arith, inl, inr, Bool-cases, subst, sym,
}
use act_sim_scope_infra.Traffic.Accounting.{port_domain}

abbrev pub port_base : ℕ
port_base = 7400

abbrev pub domain_gain : ℕ
domain_gain = 250

abbrev pub participant_gain : ℕ
participant_gain = 2

pub port_to_domain : ℕ → Option ℕ
port_to_domain port =
    if ltb port port_base
    then none
    else let domain = (port - port_base) / domain_gain in
      let remainder = (port - port_base) % domain_gain in
      if remainder == 0 || remainder == 1
      then some domain
      else if leb 10 remainder
      then some domain
      else none

-- A port of a participant: D1 or D3 is the offset.
abbrev pub unicast_port : ℕ → ℕ → ℕ → ℕ
unicast_port offset domain participant =
    port_base + domain_gain * domain + offset + participant_gain * participant

-- The meta and user unicast ports of a domain's participants, as many as the domain's ports allow, and
-- its two multicast ports are ports of that domain.
pub port_to_domain-unicast_port :
    (domain participant : ℕ)
    → 11 + participant_gain * participant < domain_gain
    → (port_to_domain (unicast_port 10 domain participant) ≡ some domain)
      × (port_to_domain (unicast_port 11 domain participant) ≡ some domain)
      × (port_to_domain (unicast_port 0 domain 0) ≡ some domain)
      × (port_to_domain (unicast_port 1 domain 0) ≡ some domain)
unfolding port_to_domain
port_to_domain-unicast_port domain participant h =
    (ground (arith, h), ground (arith, h), ground arith, ground arith)

-- `portrange {low}-{high}`
abbrev pub port_range : ℕ → ℕ × ℕ
port_range domain = (
  port_base + domain_gain * domain,
  min 65535 (port_base + domain_gain * domain + domain_gain - 1),
)

-- `none` is the `ValueError`.
pub build_port_filter : List ℕ → Option (List (ℕ × ℕ))
build_port_filter [] = none
build_port_filter (d ∷ ds) =
    if any (λ domain. ltb 232 domain) (d ∷ ds) then none else some (map port_range (d ∷ ds))

abbrev pub matches : ℕ → List (ℕ × ℕ) → Bool
matches port = any (λ r. leb r.0 port && leb port r.1)

abbrev pub is_monitored : Option ℕ → List ℕ → Bool
is_monitored none domains = false
is_monitored (some d) domains = member d domains

matches-port_range :
    (port : ℕ) (ds : List ℕ)
    → port ≤ 65535
    → matches port (map port_range ds) ≡ is_monitored (port_domain (some port)) ds
matches-port_range port [] h = ground arith
matches-port_range port (d ∷ ds) h = ground (arith, matches-port_range port ds h)

-- A filter that is built lets a port pass exactly when it is the port of a domain that is monitored, as
-- `FrameAccounting` computes it; and of the IDs asked for none is above 232.
pub matches-build_port_filter :
    (ds : List ℕ) {ranges : List (ℕ × ℕ)} (port : ℕ)
    → build_port_filter ds ≡ some ranges
    → port ≤ 65535
    → (matches port ranges ≡ is_monitored (port_domain (some port)) ds)
      × (any (λ domain. ltb 232 domain) ds ≡ false)
unfolding build_port_filter
matches-build_port_filter [] port e h = absurd (cc e)
matches-build_port_filter (d ∷ ds) {ranges} port e h =
    elim (Bool-cases (any (λ domain. ltb 232 domain) (d ∷ ds))) [
      | inl b ↦ absurd (cc (rw (b, if◌then◌else◌) at e))
      | inr b ↦ (
        ap (matches port)
              (some-injective ranges (map port_range (d ∷ ds)) (sym (rw (b, if◌then◌else◌) at e)))
            ∙ matches-port_range port (d ∷ ds) h,
        b,
      )
    ]
