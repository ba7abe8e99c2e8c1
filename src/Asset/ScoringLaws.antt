-- ===== src/Asset/ScoringLaws.antt =====
-- What holds of the risk of an asset.
use itcenter.Base.{
  ℕ, ◌+◌, ◌≤◌, ◌<◌, ◌≡◌, refl, ◌≢◌, ◌↔◌, Bool, true, false, ◌&&◌, Option, none, some, [], ◌∷◌,
  arith, ltb, if◌then◌else◌, is_empty,
}
use itcenter.Asset.Scoring.{
  weighs, healthy, warning, online, maintenance, offline, unavailable, Health, Operational,
  AssessmentBand, low, medium, high, critical, unknown, health_points, operational_points, or_zero,
  current_condition_evidence, incident_reliability_contribution,
  monitoring_reliability_contribution, maintenance_contribution, risk_band, RiskInput,
  incident_score, monitoring_score, reliability_evidence, maintenance_evidence, missing_of,
  calculate_risk,
}

health-bound : (h : Health) → or_zero (health_points h) ≤ 40
unfolding or_zero health_points
health-bound healthy = omega arith
health-bound warning = omega arith
health-bound critical = omega arith
health-bound unknown = omega arith

operational-bound : (o : Operational) → or_zero (operational_points o) ≤ 30
unfolding or_zero operational_points
operational-bound online = omega arith
operational-bound maintenance = omega arith
operational-bound offline = omega arith
operational-bound unavailable = omega arith
operational-bound unknown = omega arith

condition-bound : (h : Health) (o : Operational) → (current_condition_evidence h o).score ≤ 40
unfolding current_condition_evidence
condition-bound h o = omega (arith, health-bound h, operational-bound o)

incident-bound : (o : Option ℕ) → or_zero (incident_score o) ≤ 40
unfolding or_zero incident_score incident_reliability_contribution
incident-bound none = omega arith
incident-bound (some n) = ground arith

monitoring-bound : (i : RiskInput) → or_zero (monitoring_score i) ≤ 40
unfolding or_zero monitoring_score monitoring_reliability_contribution
monitoring-bound i = ground arith

reliability-bound : (i : RiskInput) → (reliability_evidence i).score ≤ 40
unfolding reliability_evidence
reliability-bound i = omega (arith, incident-bound i.incident_episodes, monitoring-bound i)

maintenance-bound : (i : RiskInput) → (maintenance_evidence i).score ≤ 20
unfolding maintenance_evidence maintenance_contribution
maintenance-bound i = ground arith

-- The band of a score that is known is another one.
known-band :
    (score : ℕ)
    → (if ltb score 25
        then low
        else if ltb score 50
        then medium
        else if ltb score 70
        then high
        else critical)
      ≢ AssessmentBand.unknown
known-band score h = go (ltb score 25) (ltb score 50) (ltb score 70) h
  where
    go :
        (a b c : Bool)
        → (if a then low else if b then medium else if c then high else critical)
          ≢ AssessmentBand.unknown
    go true b c h = cc
    go false true c h = cc
    go false false true h = cc
    go false false false h = cc

band-unknown :
    (b : Bool) (known : AssessmentBand)
    → known ≢ unknown
    → (if b then unknown else known) ≡ AssessmentBand.unknown
    → b ≡ true
band-unknown true known n h = refl
band-unknown false known n h = absurd (n h)

risk_band-unknown :
    (score completeness : ℕ)
    → (risk_band score completeness ≡ unknown) ↔ ((score < 50) × (completeness < 70))
unfolding risk_band
risk_band-unknown score completeness = (
  λ h.
      let e = band-unknown (ltb score 50 && ltb completeness 70) _ (known-band score) h in
      (ground (arith, e), ground (arith, e)),
  λ h. let (a, b) = h in ground (arith, a, b),
)

complete-missing :
    {A : Type 0} (a b c : Bool) (x y z : A)
    → (weighs 40 a + weighs 40 b + weighs 20 c ≡ 100) ↔ (
        is_empty (
          let third = if c then [] else z ∷ [] in
          let second = if b then third else y ∷ third in if a then second else x ∷ second)
        ≡ true)
complete-missing true true true x y z = (λ h. refl, λ h. refl)
complete-missing true true false x y z = (λ h. absurd (omega (arith, h)), λ h. cc)
complete-missing true false c x y z = (λ h. absurd (omega (arith, h, weighs-bound c)), λ h. cc)
  where
    weighs-bound : (c : Bool) → weighs 20 c ≤ 20
    weighs-bound c = ground arith
complete-missing false b c x y z =
    (λ h. absurd (omega (arith, h, weighs-bound 40 b, weighs-bound 20 c)), λ h. cc)
  where
    weighs-bound : (n : ℕ) (c : Bool) → weighs n c ≤ n
    weighs-bound n c = ground arith

-- The risk of an asset: its score is the sum of the scores of the three groups, which the limit of 100 never
-- cuts, and it is 100 at most, as the completeness of the evidence is; the evidence is complete exactly if
-- none is missing; and the band is unknown exactly if the score is below 50 and less than 70 percent of the
-- evidence is there.
pub calculate_risk-bounds :
    (i : RiskInput)
    → ((calculate_risk i).score
        ≡ (current_condition_evidence i.health i.operational).score
          + (reliability_evidence i).score
          + (maintenance_evidence i).score)
      × ((calculate_risk i).score ≤ 100)
      × ((calculate_risk i).completeness ≤ 100)
      × (((calculate_risk i).completeness ≡ 100)
          ↔ (is_empty (calculate_risk i).missing_evidence ≡ true))
      × (((calculate_risk i).band ≡ unknown)
          ↔ (((calculate_risk i).score < 50) × ((calculate_risk i).completeness < 70)))
unfolding calculate_risk missing_of
calculate_risk-bounds i =
    let condition = current_condition_evidence i.health i.operational in
    (
      omega
          (arith, condition-bound i.health i.operational, reliability-bound i, maintenance-bound i),
      omega arith,
      ground arith,
      complete-missing condition.available (reliability_evidence i).available
          (maintenance_evidence i).available _ _ _,
      risk_band-unknown _ _,
    )
