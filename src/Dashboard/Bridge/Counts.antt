-- ===== src/Dashboard/Bridge/Counts.antt =====
-- The counters of `poll_audit_events` in gui/mesh_dashboard/server/mesh_bridge.py, over any types of event
-- keys K, of groups of keys F (a topic and a source), of recipients R and of events E.
pub mod Tallies
pub mod Recount
use act_sim_scope_infra.Common.{
  ℕ, ◌+◌, suc, List, [], ◌∷◌, Bool, true, false, Option, none, some, if◌then◌else◌, Dict, lookup,
  contains, insert, get_default, Key, pair_key, any,
}

pub record Audit (K F R E : Type 0) : Type 0 where
  pub sent : Dict K E
  pub received : Dict (K × R) E
  pub versions : Dict (F × R) (ℕ × ℕ)

abbrev pub bump_sent : Bool → ℕ × ℕ → ℕ × ℕ
bump_sent is_received (s, n) = (suc s, if is_received then suc n else n)

abbrev pub bump_received : ℕ × ℕ → ℕ × ℕ
bump_received (s, n) = (s, suc n)

module _ {K F R E : Type 0} ⦃ek : Key K⦄ ⦃ef : Key F⦄ ⦃er : Key R⦄ (group : K → F)
    (expected : E → List R) where
  abbrev pub is_in : R → List R → Bool
  is_in r = any (λ s. er.same s r)

  -- `_audit_version`, as the value that it returns
  abbrev pub version_at : F × R → Dict (F × R) (ℕ × ℕ) → ℕ × ℕ
  version_at flow = get_default flow (0, 0)

  -- `for recipient in self._expected_recipients(event)`
  abbrev pub count_sent : K → List R → Dict (K × R) E → Dict (F × R) (ℕ × ℕ) → Dict (F × R) (ℕ × ℕ)
  count_sent key [] received v = v
  count_sent key (r ∷ rs) received v = count_sent key rs received (
      insert (group key, r) (bump_sent (contains (key, r) received) (version_at (group key, r) v))
        v)

  unfoldable pub note_sent : K → E → Audit K F R E → Audit K F R E
  note_sent key event a = if contains key a.sent then a else record a {
    sent = insert key event a.sent;
    versions = count_sent key (expected event) a.received a.versions;
  }

  -- `if sent and event["node"] in self._expected_recipients(sent)`
  abbrev pub credit : Option E → K → R → Dict (F × R) (ℕ × ℕ) → Dict (F × R) (ℕ × ℕ)
  credit none key node v = v
  credit (some sent) key node v =
      if is_in node (expected sent)
      then insert (group key, node) (bump_received (version_at (group key, node) v)) v
      else v

  unfoldable pub note_received : K → R → E → Audit K F R E → Audit K F R E
  note_received key node event a = if contains (key, node) a.received then a else record a {
    received = insert (key, node) event a.received;
    versions = credit (lookup key a.sent) key node a.versions;
  }
