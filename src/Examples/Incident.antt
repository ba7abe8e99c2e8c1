-- ===== src/Examples/Incident.antt =====
-- Candidates for a correlation, and the theorems of the decision at them.
use itcenter.Base.{
  ℕ, ◌+◌, ◌≤◌, ◌<◌, ◌≡◌, refl, true, false, not, ◌&&◌, ◌||◌, none, some, List, [], ◌∷◌, map,
  is_empty,
}
use mathlib.Core.List.{Memᴰ}
use itcenter.Base.Int.{pos}
use itcenter.Incident.Correlation.{
  fresh, Facts, topology_contributions, onset_contributions, contributions, total, strong_signals,
  Candidate, score_correlation_candidate, unambiguous_strong_evidence, auto_link, is_auto,
  is_reviewable, agrees, decide_among, decide_correlation, is_fresh,
}
use itcenter.Incident.CorrelationLaws.{
  score-strong, score-bounds, auto_link_sound, auto_link-evidence,
}

opened : Unit {0}
unfolding topology_contributions onset_contributions contributions total strong_signals
    score_correlation_candidate is_auto is_reviewable agrees decide_among decide_correlation
opened = tt

-- A shared failure domain on fresh topology, the same service and an onset within five minutes.
abbrev near : Facts
near = record {
  exact_source_key = false;
  topology_freshness = fresh;
  same_failure_domain_ancestor = true;
  same_vlan_or_subnet = true;
  in_same_site = true;
  in_same_service_or_dependency = true;
  in_same_symptom_family = false;
  onset_difference = some (pos 120000);
}

abbrev far : Facts
far = record near { same_failure_domain_ancestor = false; onset_difference = none }

abbrev inputs : List (ℕ × Facts)
inputs = (1, far) ∷ (2, near) ∷ []

linked :
    decide_correlation none (map (λ i. score_correlation_candidate i.0 i.1) inputs)
    ≡ auto_link 2 unambiguous_strong_evidence
unfolding opened
linked = refl

score-strong_example : not (is_empty (score_correlation_candidate 2 near).strong) ≡ (
    near.exact_source_key
    || (is_fresh near.topology_freshness && near.same_failure_domain_ancestor))
score-strong_example = score-strong 2 near

score-bounds_example :
    ((score_correlation_candidate 1 far).score ≤ 100)
    × ((score_correlation_candidate 1 far).score ≤ (score_correlation_candidate 1 far).raw_score)
    × (is_empty (score_correlation_candidate 1 far).strong ≡ true
        → (score_correlation_candidate 1 far).score < 60 + 1)
score-bounds_example = score-bounds 1 far

auto_link_sound_example :
    (c : Candidate) × Memᴰ c (map (λ i. score_correlation_candidate i.0 i.1) inputs)
    × (c.root_incident_id ≡ 2)
    × (85 ≤ c.score)
    × (is_empty c.strong ≡ false)
    × ((d : Candidate)
        → Memᴰ d (map (λ i. score_correlation_candidate i.0 i.1) inputs)
        → 60 ≤ d.score
        → d.root_incident_id ≡ 2)
auto_link_sound_example = auto_link_sound none _ 2 unambiguous_strong_evidence linked

auto_link-evidence_example :
    (i : ℕ × Facts) × Memᴰ i inputs
    × (i.0 ≡ 2)
    × ((i.1.exact_source_key
          || (is_fresh i.1.topology_freshness && i.1.same_failure_domain_ancestor))
        ≡ true)
auto_link-evidence_example = auto_link-evidence none inputs 2 unambiguous_strong_evidence linked
