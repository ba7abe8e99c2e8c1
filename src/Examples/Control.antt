-- ===== src/Examples/Control.antt =====
-- An approval that is asked for and given, a service level that is met, and the theorems at them.
use itcenter.Base.{
  ℕ, ◌+◌, ◌*◌, ◌≡◌, refl, true, some, List, [], ◌∷◌, length, find_where, update_where, is_blank,
  is_space, codes,
}
use itcenter.Platform.Tx.{Tx}
use itcenter.Platform.Errors.{throw_if, or_throw, assert_version}
use itcenter.Control.Approval.{
  invoice_approval, ApprovalDb, ApprovalInput, DecisionInput, approve, create_approval,
  check_decision, decide_approval,
}
use itcenter.Control.Sla.{
  SlaState, SlaDb, ChangeInput, running, warning, met, allowed, may_change, find_target, start_sla,
  check_change, transition_sla,
}
use itcenter.Control.ApprovalLaws as Approvals
use itcenter.Control.SlaLaws as Levels
use itcenter.Base.Json.{object, end}

ran : Unit {0}
unfolding create_approval check_decision decide_approval allowed may_change find_target start_sla
    check_change transition_sla find_where update_where throw_if or_throw assert_version is_blank
    is_space Approvals.step Approvals.run Levels.step Levels.run
ran = tt

tx : ℕ → Tx
tx n = record { tenant_id = 1; now = 1000 + n; uuid = λ k. 10 * n + k }

abbrev no_requests : ApprovalDb
no_requests = record {
  policies = record { tenant_id = 1; id = 5; version = 2; active = true } ∷ [];
  requests = [];
  decisions = [];
}

abbrev ask : ApprovalInput
ask = record {
  source_type = invoice_approval;
  source_id = 7;
  policy_id = 5;
  policy_version = 2;
  requester_id = 3;
  context = object end;
}

-- The requester tries to approve, another actor does, and a third one comes too late.
abbrev decision : ℕ → DecisionInput
decision actor = record {
  request_id = 10;
  expected_version = 1;
  actor_id = actor;
  decision = some approve;
  reason = codes "fine";
}

abbrev calls : List (Tx × Approvals.Call)
calls =
    (tx 1, Approvals.creates ask)
    ∷ (tx 2, Approvals.decides (decision 3))
    ∷ (tx 3, Approvals.decides (decision 4))
    ∷ (tx 4, Approvals.decides (decision 6))
    ∷ []

decided_once : length (Approvals.run calls no_requests).decisions ≡ 1
unfolding ran tx
decided_once = refl

none_yet : Approvals.AllDecided no_requests
unfolding find_where
none_yet tenant id = refl

run-AllDecided_example : Approvals.AllDecided (Approvals.run calls no_requests)
run-AllDecided_example = Approvals.run-AllDecided calls no_requests none_yet

abbrev no_levels : SlaDb
no_levels = record {
  policies = record { tenant_id = 1; id = 5; version = 2 } ∷ [];
  targets =
      record { tenant_id = 1; id = 6; sla_policy_id = 5; duration_minutes = 30; target_purpose = 2 }
      ∷ [];
  instances = [];
  events = [];
}

abbrev change : ℕ → SlaState → ChangeInput
change version target = record {
  instance_id = 10;
  expected_version = version;
  target_state = some target;
  reason = codes "as measured";
}

-- The level is started, warns, and is met; it cannot run again.
abbrev level_calls : List (Tx × Levels.Call)
level_calls =
    (tx 1, Levels.starts (record { object_type = 1; object_id = 7; target_id = 6; now = some 900 }))
    ∷ (tx 2, Levels.changes (change 1 warning))
    ∷ (tx 3, Levels.changes (change 2 met))
    ∷ (tx 4, Levels.changes (change 3 running))
    ∷ []

measured : length (Levels.run level_calls no_levels).events ≡ 3
unfolding ran tx
measured = refl

no_trail : Levels.AllReplay no_levels
unfolding find_where
no_trail tenant id = refl

run-AllReplay_example : Levels.AllReplay (Levels.run level_calls no_levels)
run-AllReplay_example = Levels.run-AllReplay level_calls no_levels no_trail
