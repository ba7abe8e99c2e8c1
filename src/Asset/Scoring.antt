-- ===== src/Asset/Scoring.antt =====
-- modules/asset/domain/scoring.ts: the risk of an asset from the evidence on it, and the bands of a replacement.
use itcenter.Base.{
  ℕ, ◌+◌, ◌-◌, min, max, Bool, true, false, not, ◌&&◌, Option, none, some, List, [], ◌∷◌, ltb, leb,
  ◌==◌, if◌then◌else◌, length, any, keep,
}

-- The states that have points; `unknown` stands for every other text too.
pub data Health : Type 0 where
  healthy warning critical unknown : Health

pub data Operational : Type 0 where
  online maintenance offline unavailable unknown : Operational

pub data AssessmentBand : Type 0 where
  low medium high critical unknown : AssessmentBand

pub data ReplacementBand : Type 0 where
  monitor review plan priority unknown : ReplacementBand

pub data MissingReason : Type 0 where
  current_condition_state_unknown reliability_evidence_unavailable
        unknown_maintenance_classification maintenance_evidence_unavailable :
      MissingReason

-- What the details of a piece of evidence hold.
pub data Details : Type 0 where
  of_condition : Health → Option ℕ → Operational → Option ℕ → Details
  of_reliability : Option ℕ → Option ℕ → Option ℕ → ℕ → ℕ → Option ℕ → Details
  of_maintenance : ℕ → ℕ → Details

pub record Evidence : Type 0 where
  pub available : Bool
  pub score : ℕ
  pub details : Details
  pub missing_reason : Option MissingReason

unfoldable pub health_points : Health → Option ℕ
health_points healthy = some 0
health_points warning = some 20
health_points critical = some 40
health_points unknown = none

unfoldable pub operational_points : Operational → Option ℕ
operational_points online = some 0
operational_points maintenance = some 15
operational_points offline = some 30
operational_points unavailable = some 30
operational_points unknown = none

-- `value ?? 0`; the largest of the known points is that of all, with 0 for an unknown one.
unfoldable pub or_zero : Option ℕ → ℕ
or_zero none = 0
or_zero (some n) = n

abbrev pub is_known : Option ℕ → Bool
is_known none = false
is_known (some n) = true

abbrev pub reason_unless : Bool → MissingReason → Option MissingReason
reason_unless b r = if b then none else some r

unfoldable pub current_condition_evidence : Health → Operational → Evidence
current_condition_evidence health operational =
    let h = health_points health in
    let o = operational_points operational in
    record {
      available = is_known h && is_known o;
      score = max (or_zero h) (or_zero o);
      details = of_condition health h operational o;
      missing_reason = reason_unless (is_known h && is_known o) current_condition_state_unknown;
    }

unfoldable pub incident_reliability_contribution : ℕ → ℕ
incident_reliability_contribution n =
    if n == 0 then 0 else if n == 1 then 15 else if n == 2 then 25 else 40

unfoldable pub monitoring_reliability_contribution : ℕ → ℕ
monitoring_reliability_contribution n =
    if n == 0 then 0 else if leb n 2 then 10 else if leb n 5 then 25 else 40

unfoldable pub maintenance_contribution : ℕ → ℕ
maintenance_contribution n = if n == 0 then 0 else if n == 1 then 5 else if n == 2 then 10 else 20

unfoldable pub risk_band : ℕ → ℕ → AssessmentBand
risk_band score completeness =
    if ltb score 50 && ltb completeness 70
    then unknown
    else if ltb score 25
    then low
    else if ltb score 50
    then medium
    else if ltb score 70
    then high
    else critical

pub record RiskInput : Type 0 where
  pub health : Health
  pub operational : Operational
  pub incident_episodes : Option ℕ
  pub monitoring_episodes : Option ℕ
  pub monitoring_identity_available : Bool
  pub incident_monitoring_episode_ids : List ℕ
  pub monitoring_episode_ids : List ℕ
  pub maintenance_corrective_count : ℕ
  pub maintenance_unknown_count : ℕ
  pub maintenance_available : Bool

-- The monitoring episodes that no incident counts already.
unfoldable pub monitor_count : RiskInput → ℕ
monitor_count i = length (
    keep (λ id. not (any (λ k. k == id) i.incident_monitoring_episode_ids))
      i.monitoring_episode_ids)

unfoldable pub incident_score : Option ℕ → Option ℕ
incident_score none = none
incident_score (some n) = some (incident_reliability_contribution n)

unfoldable pub monitoring_score : RiskInput → Option ℕ
monitoring_score i =
    if i.monitoring_identity_available && is_known i.monitoring_episodes
    then some (monitoring_reliability_contribution (monitor_count i))
    else none

unfoldable pub reliability_evidence : RiskInput → Evidence
reliability_evidence i =
    let incident = incident_score i.incident_episodes in
    let monitoring = monitoring_score i in
    record {
      available = is_known incident && is_known monitoring;
      score = max (or_zero incident) (or_zero monitoring);
      details =
          of_reliability i.incident_episodes incident i.monitoring_episodes
            (length i.monitoring_episode_ids - monitor_count i) (monitor_count i) monitoring;
      missing_reason =
          reason_unless (is_known incident && is_known monitoring) reliability_evidence_unavailable;
    }

unfoldable pub maintenance_evidence : RiskInput → Evidence
maintenance_evidence i = record {
  available = i.maintenance_available && i.maintenance_unknown_count == 0;
  score = maintenance_contribution i.maintenance_corrective_count;
  details = of_maintenance i.maintenance_corrective_count i.maintenance_unknown_count;
  missing_reason = reason_unless (i.maintenance_available && i.maintenance_unknown_count == 0) (
      if i.maintenance_unknown_count == 0
      then maintenance_evidence_unavailable
      else unknown_maintenance_classification);
}

pub data Group : Type 0 where
  current_condition reliability corrective_maintenance : Group

pub record Risk : Type 0 where
  pub score : ℕ
  pub band : AssessmentBand
  pub completeness : ℕ
  pub groups : List (Group × Evidence)
  pub missing_evidence : List (Group × Option MissingReason)

-- The weight of a group that is available.
abbrev pub weighs : ℕ → Bool → ℕ
weighs n b = if b then n else 0

unfoldable pub missing_of : List (Group × Evidence) → List (Group × Option MissingReason)
missing_of [] = []
missing_of ((g, e) ∷ groups) =
    let rest = missing_of groups in if e.available then rest else (g, e.missing_reason) ∷ rest

-- `calculateRisk`.
unfoldable pub calculate_risk : RiskInput → Risk
calculate_risk i =
    let condition = current_condition_evidence i.health i.operational in
    let reliable = reliability_evidence i in
    let repairs = maintenance_evidence i in
    let completeness =
      weighs 40 condition.available + weighs 40 reliable.available + weighs 20 repairs.available in
    let score = min 100 (condition.score + reliable.score + repairs.score) in
    let groups =
      (current_condition, condition)
      ∷ (reliability, reliable)
      ∷ (corrective_maintenance, repairs)
      ∷ [] in
    record {
      score = score;
      band = risk_band score completeness;
      completeness = completeness;
      groups = groups;
      missing_evidence = missing_of groups;
    }

unfoldable pub replacement_band : ℕ → ℕ → ReplacementBand
replacement_band score completeness =
    if ltb score 60 && ltb completeness 70
    then unknown
    else if ltb score 40
    then monitor
    else if ltb score 60
    then review
    else if ltb score 80
    then plan
    else priority
