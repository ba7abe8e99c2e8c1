-- ===== src/Incident/CorrelationLaws.antt =====
-- What a correlation decision rests on.
use itcenter.Base.{
  ℕ, ◌+◌, ◌≤◌, ◌<◌, ◌≡◌, refl, sym, ap, ◌∙◌, subst, ◌↔◌, inl, inr, true, false, not, ◌&&◌, ◌||◌,
  Option, none, some, List, [], ◌∷◌, ◌++◌, map, arith, eq_of_==, Bool-cases, any, every, keep,
  is_empty, Text,
}
use mathlib.Core.List.{Memᴰ}
use itcenter.Base.Members.{keep-Memᴰ, every-Memᴰ}
use itcenter.Incident.Correlation.{
  Facts, topology_contributions, onset_contributions, contributions, total, strong_signals,
  Candidate, score_correlation_candidate, ReasonCode, insufficient_correlation_evidence, auto_link,
  no_link, is_auto, is_reviewable, agrees, decide_among, decide_correlation, is_fresh, Contribution,
}

total-append : (xs ys : List Contribution) → total (xs ++ ys) ≡ total xs + total ys
unfolding total
total-append [] ys = omega arith
total-append (x ∷ xs) ys = omega (arith, total-append xs ys)

is_empty-strong-append :
    (xs ys : List Contribution)
    → is_empty (strong_signals (xs ++ ys))
      ≡ (is_empty (strong_signals xs) && is_empty (strong_signals ys))
unfolding strong_signals
is_empty-strong-append [] ys = refl
is_empty-strong-append (x ∷ xs) ys = ground (arith, is_empty-strong-append xs ys)

-- Evidence is strong just where the source key is the same, or a failure domain is shared on fresh
-- topology.
pub score-strong :
    (root : ℕ) (f : Facts)
    → not (is_empty (score_correlation_candidate root f).strong)
      ≡ (f.exact_source_key || (is_fresh f.topology_freshness && f.same_failure_domain_ancestor))
unfolding score_correlation_candidate contributions topology_contributions onset_contributions
    strong_signals
score-strong root f = ground arith

-- Evidence of a candidate never scores more than a hundred, and without strong evidence never enough to
-- be linked.
pub score-bounds :
    (root : ℕ) (f : Facts)
    → ((score_correlation_candidate root f).score ≤ 100)
      × ((score_correlation_candidate root f).score
          ≤ (score_correlation_candidate root f).raw_score)
      × (is_empty (score_correlation_candidate root f).strong ≡ true
          → (score_correlation_candidate root f).score < 60 + 1)
unfolding score_correlation_candidate contributions topology_contributions onset_contributions
    strong_signals total
score-bounds root f = (omega arith, omega arith, λ h. ground arith)

-- The one candidate that can be linked, and the others agree with it.
decide_among-auto :
    (autos cs : List Candidate) {root : ℕ} {code : ReasonCode}
    → decide_among autos cs ≡ auto_link root code
    → (c : Candidate) × (autos ≡ c ∷ [])
      × (every (agrees c.root_incident_id) cs ≡ true)
      × (root ≡ c.root_incident_id)
unfolding decide_among
decide_among-auto [] cs h = absurd (ground arith)
decide_among-auto (c ∷ []) cs h = (c, refl, ground arith, ground arith)
decide_among-auto (c ∷ d ∷ rest) cs h = cc

decide-unasked :
    (reason : Option Text) (cs : List Candidate) {root : ℕ} {code : ReasonCode}
    → decide_correlation reason cs ≡ auto_link root code
    → decide_among (keep is_auto cs) cs ≡ auto_link root code
unfolding decide_correlation
decide-unasked none cs h = h
decide-unasked (some []) cs h = h
decide-unasked (some (c ∷ t)) cs h = cc

-- An incident is linked only to a candidate that scores at least 85 with strong evidence, and only where
-- every candidate that scores at least 60 is of that same root.
pub auto_link_sound :
    (reason : Option Text) (cs : List Candidate) (root : ℕ) (code : ReasonCode)
    → decide_correlation reason cs ≡ auto_link root code
    → (c : Candidate) × Memᴰ c cs
      × (c.root_incident_id ≡ root)
      × (85 ≤ c.score)
      × (is_empty c.strong ≡ false)
      × ((d : Candidate) → Memᴰ d cs → 60 ≤ d.score → d.root_incident_id ≡ root)
unfolding is_auto agrees
auto_link_sound reason cs root code h =
    let (c, one, all, e) = decide_among-auto (keep is_auto cs) cs (decide-unasked reason cs h) in
    let (m, auto) = keep-Memᴰ is_auto cs {a = c} (subst (Memᴰ c) (sym one) (Memᴰ.head refl)) in
    (
      c,
      m,
      sym e,
      ground arith,
      ground arith,
      λ d n big. ground (
        arith,
        every-Memᴰ (agrees c.root_incident_id) cs all n,
        eq_of_== d.root_incident_id c.root_incident_id,
      ),
    )

scored-Memᴰ :
    (inputs : List (ℕ × Facts)) {c : Candidate}
    → Memᴰ c (map (λ i. score_correlation_candidate i.0 i.1) inputs)
    → (i : ℕ × Facts) × Memᴰ i inputs × (c ≡ score_correlation_candidate i.0 i.1)
scored-Memᴰ [] m = elim m [ ]
scored-Memᴰ (i ∷ is) (Memᴰ.head e) = (i, Memᴰ.head refl, e)
scored-Memᴰ (i ∷ is) (Memᴰ.tail m) = let (j, n, e) = scored-Memᴰ is m in (j, Memᴰ.tail n, e)

score-root : (root : ℕ) (f : Facts) → (score_correlation_candidate root f).root_incident_id ≡ root
unfolding score_correlation_candidate
score-root root f = refl

-- From the facts to the decision: an incident is linked to a root only where, for that root, the source
-- key is the same or a failure domain is shared on topology data that is fresh. Other evidence, whatever
-- it adds up to, links nothing.
pub auto_link-evidence :
    (reason : Option Text) (inputs : List (ℕ × Facts)) (root : ℕ) (code : ReasonCode)
    → decide_correlation reason (map (λ i. score_correlation_candidate i.0 i.1) inputs)
      ≡ auto_link root code
    → (i : ℕ × Facts) × Memᴰ i inputs
      × (i.0 ≡ root)
      × ((i.1.exact_source_key
            || (is_fresh i.1.topology_freshness && i.1.same_failure_domain_ancestor))
          ≡ true)
auto_link-evidence reason inputs root code h =
    let (c, m, e, _, strong, _) = auto_link_sound reason _ root code h in
    let (i, n, e') = scored-Memᴰ inputs m in
    (
      i,
      n,
      sym (score-root i.0 i.1) ∙ (sym (ap (λ (x : Candidate). x.root_incident_id) e') ∙ e),
      sym (score-strong i.0 i.1)
          ∙ ap not (sym (ap (λ (x : Candidate). is_empty x.strong) e') ∙ strong),
    )

auto-none : (cs : List Candidate) → any is_reviewable cs ≡ false → keep is_auto cs ≡ []
unfolding is_auto is_reviewable
auto-none [] h = refl
auto-none (c ∷ cs) h = ground (arith, auto-none cs)

some_auto-reviewable :
    (cs : List Candidate) (c : Candidate) (rest : List Candidate)
    → keep is_auto cs ≡ c ∷ rest
    → any is_reviewable cs ≡ true
some_auto-reviewable cs c rest h = elim (Bool-cases (any is_reviewable cs)) [
  | inl e ↦ e
  | inr e ↦ cc (auto-none cs e)
]

-- Without an explicit reason, nothing is linked and nothing is asked for exactly when no candidate scores
-- at least 60.
no_link_iff :
    (cs : List Candidate)
    → (decide_correlation none cs ≡ no_link insufficient_correlation_evidence)
      ↔ (any is_reviewable cs ≡ false)
unfolding decide_correlation decide_among
no_link_iff cs = (
  λ h. elim (Bool-cases (any is_reviewable cs)) [ inl e ↦ absurd (linked h e) | inr e ↦ e ],
  λ h. rw (auto-none cs h, decide_among) (rw h),
)
  where
    linked :
        decide_among (keep is_auto cs) cs ≡ no_link insufficient_correlation_evidence
        → any is_reviewable cs ≡ true
        → ⊥
    linked h e = ground arith
