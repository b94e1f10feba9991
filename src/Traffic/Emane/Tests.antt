-- ===== src/Traffic/Emane/Tests.antt =====
-- `EmaneSampler` on small readings.
use act_sim_scope_infra.Common.{ℕ, ◌+◌, ◌≡◌, refl, [], ◌∷◌, some, none, if◌then◌else◌, string_key}
use act_sim_scope_infra.Traffic.Emane.{
  Counters, Sampler, sampled, nothing, poll, is_failed, IsSampled, poll-IsSampled,
}

abbrev reading : ℕ → Counters
reading n = ("packets", n) ∷ ("bytes", 100) ∷ []

abbrev sampler : Sampler
sampler = record { previous = some (reading 5, 200) }

sampled_once :
    (poll 300 302 (some (reading 9)) sampler).0
    ≡ sampled (record { interval = 201; counters = ("packets", 4) ∷ ("bytes", 0) ∷ [] })
unfolding poll
sampled_once = refl

reset_once : (poll 300 302 (some (reading 3)) sampler).0 ≡ nothing
unfolding poll
reset_once = refl

poll-IsSampled_example :
    IsSampled sampler.previous (reading 9) (300 + 302) (poll 300 302 (some (reading 9)) sampler).0
    × ((poll 300 302 (some (reading 9)) sampler).1.previous ≡ (
        if is_failed (poll 300 302 (some (reading 9)) sampler).0
        then sampler.previous
        else some (reading 9, 300 + 302)))
    × ((poll 300 302 none sampler).1.previous ≡ none)
poll-IsSampled_example = poll-IsSampled 300 302 (reading 9) sampler
