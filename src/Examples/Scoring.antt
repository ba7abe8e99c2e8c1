-- ===== src/Examples/Scoring.antt =====
-- The risk of an asset with incidents and no account of its maintenance.
use itcenter.Base.{◌+◌, ◌≤◌, ◌<◌, ◌≡◌, refl, ◌↔◌, true, some, [], ◌∷◌, is_empty}
use itcenter.Asset.Scoring.{
  warning, online, medium, AssessmentBand, RiskInput, health_points, operational_points, or_zero,
  current_condition_evidence, incident_reliability_contribution,
  monitoring_reliability_contribution, maintenance_contribution, risk_band, monitor_count,
  incident_score, monitoring_score, reliability_evidence, maintenance_evidence, missing_of,
  calculate_risk,
}
use itcenter.Asset.ScoringLaws.{calculate_risk-bounds}

abbrev input : RiskInput
input = record {
  health = warning;
  operational = online;
  incident_episodes = some 1;
  monitoring_episodes = some 2;
  monitoring_identity_available = true;
  incident_monitoring_episode_ids = 7 ∷ [];
  monitoring_episode_ids = 7 ∷ 8 ∷ [];
  maintenance_corrective_count = 1;
  maintenance_unknown_count = 2;
  maintenance_available = true;
}

scored : ((calculate_risk input).score ≡ 40) × ((calculate_risk input).band ≡ medium)
unfolding calculate_risk current_condition_evidence health_points operational_points or_zero
    reliability_evidence incident_score monitoring_score monitor_count
    incident_reliability_contribution monitoring_reliability_contribution maintenance_evidence
    maintenance_contribution missing_of risk_band
scored = (refl, refl)

calculate_risk-bounds_example :
    ((calculate_risk input).score
      ≡ (current_condition_evidence warning online).score
        + (reliability_evidence input).score
        + (maintenance_evidence input).score)
    × ((calculate_risk input).score ≤ 100)
    × ((calculate_risk input).completeness ≤ 100)
    × (((calculate_risk input).completeness ≡ 100)
        ↔ (is_empty (calculate_risk input).missing_evidence ≡ true))
    × (((calculate_risk input).band ≡ AssessmentBand.unknown)
        ↔ (((calculate_risk input).score < 50) × ((calculate_risk input).completeness < 70)))
calculate_risk-bounds_example = calculate_risk-bounds input
