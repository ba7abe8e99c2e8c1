-- ===== src/Incident/Correlation.antt =====
-- modules/incident/domain/correlation.ts: the score of a candidate root incident and the decision over
-- all candidates.
use itcenter.Base.{
  text_eq, ℕ, ◌+◌, ◌*◌, min, Bool, true, false, not, ◌&&◌, ◌||◌, Option, none, some, List, [], ◌∷◌,
  ◌++◌, map, ltb, leb, ◌==◌, if◌then◌else◌, any, every, keep, is_empty, Text, is_space, trim,
}
use itcenter.Base.Int.{ℤ, pos, negsuc}

pub data EvidenceCode : Type 0 where
  deterministic_source_key fresh_failure_domain_ancestor fresh_vlan_or_subnet : EvidenceCode
  same_site same_service_or_dependency same_symptom_family : EvidenceCode
  onset_within_5_minutes onset_within_15_minutes : EvidenceCode

pub data Freshness : Type 0 where
  fresh stale unknown not_applicable : Freshness

-- A difference of onsets is given in milliseconds, 60,000 to a minute; a negative one is no evidence.
pub record Facts : Type 0 where
  pub exact_source_key : Bool
  pub topology_freshness : Freshness
  pub same_failure_domain_ancestor : Bool
  pub same_vlan_or_subnet : Bool
  pub in_same_site : Bool
  pub in_same_service_or_dependency : Bool
  pub in_same_symptom_family : Bool
  pub onset_difference : Option ℤ

abbrev pub auto_link_threshold : ℕ
auto_link_threshold = 85

abbrev pub review_threshold : ℕ
review_threshold = 60

unfoldable pub shared_topology_freshness : Freshness → Freshness → Freshness
shared_topology_freshness fresh fresh = fresh
shared_topology_freshness stale c = stale
shared_topology_freshness s stale = stale
shared_topology_freshness s c = unknown

pub record Contribution : Type 0 where
  pub code : EvidenceCode
  pub points : ℕ
  pub strong : Bool
  pub freshness : Freshness

abbrev contribute : EvidenceCode → ℕ → Bool → Freshness → List Contribution
contribute code points strong freshness =
    record { code = code; points = points; strong = strong; freshness = freshness } ∷ []

abbrev when : Bool → List Contribution → List Contribution
when b c = if b then c else []

abbrev pub is_fresh : Freshness → Bool
is_fresh fresh = true
is_fresh _ = false

-- The evidence of the topology: the nearest that is shared, and only a site without fresh data.
unfoldable pub topology_contributions : Facts → List Contribution
topology_contributions f =
    if is_fresh f.topology_freshness
    then if f.same_failure_domain_ancestor
      then contribute fresh_failure_domain_ancestor 60 true fresh
      else if f.same_vlan_or_subnet
      then contribute fresh_vlan_or_subnet 15 false fresh
      else when f.in_same_site (contribute same_site 5 false fresh)
    else when f.in_same_site (contribute same_site 5 false not_applicable)

abbrev minutes : ℕ → ℕ
minutes n = n * 60000

unfoldable pub onset_contributions : Option ℤ → List Contribution
onset_contributions none = []
onset_contributions (some (negsuc d)) = []
onset_contributions (some (pos d)) =
    if leb d (minutes 5)
    then contribute onset_within_5_minutes 15 false not_applicable
    else when (leb d (minutes 15)) (contribute onset_within_15_minutes 10 false not_applicable)

unfoldable pub contributions : Facts → List Contribution
contributions f =
    when f.exact_source_key (contribute deterministic_source_key 100 true not_applicable)
    ++ (topology_contributions f
        ++ (when f.in_same_service_or_dependency
              (contribute same_service_or_dependency 20 false not_applicable)
            ++ (when f.in_same_symptom_family
                  (contribute same_symptom_family 10 false not_applicable)
                ++ onset_contributions f.onset_difference)))

unfoldable pub total : List Contribution → ℕ
total [] = 0
total (c ∷ cs) = c.points + total cs

unfoldable pub strong_signals : List Contribution → List EvidenceCode
strong_signals cs = map (λ c. c.code) (keep (λ c. c.strong) cs)

pub record Candidate : Type 0 where
  pub root_incident_id : ℕ
  pub raw_score : ℕ
  pub score : ℕ
  pub strong : List EvidenceCode
  pub evidence : List Contribution

unfoldable pub score_correlation_candidate : ℕ → Facts → Candidate
score_correlation_candidate root f =
    let cs = contributions f in
    record {
      root_incident_id = root;
      raw_score = total cs;
      score = min (total cs) 100;
      strong = strong_signals cs;
      evidence = cs;
    }

pub data ReasonCode : Type 0 where
  explicit : Text → ReasonCode
  unambiguous_strong_evidence multiple_auto_link_candidates : ReasonCode
  correlation_ambiguous insufficient_correlation_evidence : ReasonCode

-- `AUTO_LINK` carries the selected root; the other outcomes select none.
pub data Decision : Type 0 where
  auto_link : ℕ → ReasonCode → Decision
  review_required : ReasonCode → Decision
  no_link : ReasonCode → Decision

unfoldable pub is_auto : Candidate → Bool
is_auto c = leb auto_link_threshold c.score && not (is_empty c.strong)

unfoldable pub is_reviewable : Candidate → Bool
is_reviewable c = leb review_threshold c.score

-- The candidate is the selected root, or scores too little to be reviewed.
unfoldable pub agrees : ℕ → Candidate → Bool
agrees root c = c.root_incident_id == root || ltb c.score review_threshold

-- The decision without an explicit reason, from the candidates that could be linked.
unfoldable pub decide_among : List Candidate → List Candidate → Decision
decide_among [] candidates =
    if any is_reviewable candidates
    then review_required correlation_ambiguous
    else no_link insufficient_correlation_evidence
decide_among (c ∷ []) candidates =
    if every (agrees c.root_incident_id) candidates
    then auto_link c.root_incident_id unambiguous_strong_evidence
    else if any is_reviewable candidates
    then review_required correlation_ambiguous
    else no_link insufficient_correlation_evidence
decide_among (c ∷ d ∷ rest) candidates = review_required multiple_auto_link_candidates

-- An explicit reason that is not empty asks for a review.
unfoldable pub decide_correlation : Option Text → List Candidate → Decision
decide_correlation none candidates = decide_among (keep is_auto candidates) candidates
decide_correlation (some []) candidates = decide_among (keep is_auto candidates) candidates
decide_correlation (some (c ∷ cs)) candidates = review_required (explicit (c ∷ cs))

-- `replace(/\s+/gu, " ")`; `within` says that the text before is white space.
unfoldable pub squeeze : Bool → Text → Text
squeeze within [] = []
squeeze within (c ∷ cs) =
    let rest = squeeze (is_space c) cs in
    if is_space c then if within then rest else 32 ∷ rest else c ∷ rest

-- Both are there, not empty, and equal once normalised.
unfoldable pub shared : (Text → Text) → Option Text → Option Text → Bool
shared normalize none c = false
shared normalize (some s) none = false
shared normalize (some s) (some c) =
    not (is_empty (normalize s))
    && not (is_empty (normalize c))
    && text_eq (normalize s) (normalize c)

pub record SwitchIdentity : Type 0 where
  pub tenant_id : Text
  pub scope_id : Option Text
  pub switch_name : Option Text

-- Text normalisation of the language's library that is not defined here: `normalize("NFKC")` and
-- `toLowerCase`.
module _ (nfkc to_lower : Text → Text) where
  unfoldable pub normalize_switch_name : Text → Text
  normalize_switch_name name = to_lower (squeeze false (trim (nfkc name)))

  unfoldable pub has_unambiguous_shared_switch_identity : SwitchIdentity → SwitchIdentity → Bool
  has_unambiguous_shared_switch_identity subject candidate =
      shared trim (some subject.tenant_id) (some candidate.tenant_id)
      && shared trim subject.scope_id candidate.scope_id
      && shared normalize_switch_name subject.switch_name candidate.switch_name
