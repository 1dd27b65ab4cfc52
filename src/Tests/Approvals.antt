-- ===== src/Tests/Approvals.antt =====
-- Approvals at concrete stores: one that promotes a candidate, and one whose payload is missing.
use mathlib.Core.Option
use roster_ai.Base.{
  ℕ, ◌+◌, ◌≡◌, refl, Bool, true, false, Option, none, some, List, [], ◌∷◌, String, ◌≤◌, arith,
}
use roster_ai.Base.Table.{select_one, update, count}
use roster_ai.Contracts.RunStatus.{solver_completed}
use roster_ai.Contracts.JobLease.{Uuid}
use roster_ai.Contracts.Scheduling.{Candidate, optimal}
use roster_ai.Contracts.Approvals.{
  ApprovalBinding, ApprovalRequest, ConsequenceSummary, Signed, parameter, consequence, pending,
  consumed, approval_required,
}
use roster_ai.Store.{World, Body, approval_payload_unreadable}
use roster_ai.Store.Tx.{ok, raised, Tx-eq-ok}
use roster_ai.Repository.Rows.{uuid4}
use roster_ai.Repository.Idempotency.{get_idempotent_result, store_idempotent_result}
use roster_ai.Approvals.Rows.{
  is_approval, consume, promote, update_approval, append_audit, get_pending_payload, mark_applied,
  get, get_candidate, get_run, get_baseline, has_active_membership,
}
use roster_ai.Approvals.Conversations.{append_approval_activity, resume_agent_run_for_approval}
use roster_ai.Approvals.Promote.{AgentApprovalPending, promote_baseline}
use roster_ai.Approvals.Decide.{DecisionCommand, Decision, decide_approval, read_current}
use roster_ai.Approvals.Route.{decide_command, refused, command}
use roster_ai.Approvals.Once.{Lasts, ApprovalCall, decide, answer_calls, answer_calls-Lasts}
use roster_ai.Approvals.Approved.{IsApproved, decide_approval-IsApproved}
use roster_ai.Approvals.Sole.{waiting, answer_calls-waiting}
use roster_ai.Approvals.Unreadable.{HasHalfPromoted, decide_command-half_promotes}
use roster_ai.Approvals.Rows.{binding_of}
use roster_ai.Tests.Runs.{empty_store, run_one}
use roster_ai.Store as Ops
use roster_ai.Repository.Idempotency as Ops2

abbrev digest : Signed → ℕ
digest (parameter run candidate baseline version) = run + candidate
digest (consequence s) = s.candidate + s.assignments

abbrev body_digest : Body → ℕ
body_digest b = 7

abbrev policy : Bool → String
policy enabled = "policy"

abbrev no_payload : ℕ → Option AgentApprovalPending
no_payload json = none

abbrev summary : ConsequenceSummary
summary = record { candidate = 1000; baseline = none; scenario_version = 3; assignments = 0 }

abbrev binding : Option Uuid → ApprovalBinding
binding agent = record {
  approval_id = 70;
  state = pending;
  site_id = 1;
  initiated_by_actor_id = 2;
  decided_by_actor_id = none;
  conversation_id = 50;
  agent_run_id = agent;
  schedule_run_id = 10;
  candidate_schedule_version_id = 1000;
  scenario_version_id = 3;
  baseline_schedule_version = none;
  baseline_resource_version = none;
  parameter_hash = 1010;
  consequence_summary = summary;
  consequence_hash = 1000;
  policy_version = "policy";
  created_at = some 100;
  expires_at = some 200;
  decided_at = none;
  consumed_at = none;
  request_effect_key = "effect";
  resource_version = 1;
}

abbrev stored : Option Uuid → ApprovalRequest
stored agent = record { binding = binding agent; pending_payload = none }

abbrev candidate : Candidate
candidate = record {
  schedule_version_id = 1000;
  schedule_run_id = 10;
  feasible_solver_status = optimal;
  assignments = List.[];
  constraint_results = List.[];
  scenario_version_id = 3;
  proposal_id = 30;
  proposal_version_id = 31;
  created_at = 99;
}

abbrev store : Option Uuid → World
store agent = record empty_store {
  schedule_run = record run_one { status = solver_completed; resource_version = 3 } ∷ [];
  schedule_version =
      record { id = 1000; site_id = 1; schedule_run_id = 10; payload = candidate } ∷ [];
  approval_request = stored agent ∷ [];
  conversation = record { id = 50; resource_version = 1 } ∷ [];
  agent_run = record { id = 60; status = approval_required; status_reason = none } ∷ [];
  membership = record { app_user_id = 2; site_id = 1; revoked_at = none } ∷ [];
}

abbrev approval : DecisionCommand
approval = record {
  site_id = 1;
  actor_id = 9;
  approval_id = 70;
  approve = true;
  expected_resource_version = 1;
  request_id = 80;
}

abbrev approved : World
approved = (decide_approval digest policy no_payload approval 150 true (store none) (store none)).1

abbrev decision : Decision
decision = record {
  outcome = consumed;
  binding = record (binding none) {
    state = consumed;
    decided_by_actor_id = some 9;
    decided_at = some 150;
    consumed_at = some 150;
    resource_version = 2;
  };
  baseline = some (record {
    site_id = 1;
    schedule_version_id = 1000;
    resource_version = 1;
    updated_at = 150;
    updated_by_actor_id = 9;
  });
  resume = none;
}

approving :
    (decide_approval digest policy no_payload approval 150 true (store none) (store none)).0
    ≡ ok decision
unfolding decide_approval get read_current get_candidate get_run get_baseline has_active_membership
    promote_baseline consume update_approval promote append_audit append_approval_activity uuid4
    mark_applied select_one update
approving = refl

decide_approval-IsApproved_example :
    (true ≡ true)
    × IsApproved digest policy no_payload approval 150 (store none) (store none) approved
decide_approval-IsApproved_example =
    decide_approval-IsApproved digest policy no_payload approval 150 true (store none) (store none)
      (Tx-eq-ok approving refl) refl tt

found : select_one (is_approval 70 1) (store none).approval_request ≡ some (stored none)
unfolding select_one
found = refl

abbrev decisions : List ApprovalCall
decisions =
    decide 1 9 70 true 1 "a" 150 true (store none)
    ∷ decide 1 9 70 false 1 "b" 151 true (store none)
    ∷ []

answer_calls-Lasts_example :
    Lasts 70 1
      (stored none)
      (answer_calls body_digest digest policy no_payload 60 decisions (store none))
answer_calls-Lasts_example =
    answer_calls-Lasts body_digest digest policy no_payload 60 decisions 70 1 (store none) found

abbrev half : World
half =
    (decide_approval digest policy no_payload
      (command body_digest digest policy no_payload 1 9 70 true 1 "a" 150 1000) 150 true
      (store (some 60)) (record (store (some 60)) { next_uuid = 1001 })).1

failing :
    decide_approval digest policy no_payload
      (command body_digest digest policy no_payload 1 9 70 true 1 "a" 150 1000)
      150
      true
      (store (some 60))
      (record (store (some 60)) { next_uuid = 1001 })
    ≡ (raised approval_payload_unreadable, half)
unfolding decide_approval get read_current get_candidate get_run get_baseline has_active_membership
    promote_baseline consume update_approval promote append_audit append_approval_activity uuid4
    mark_applied select_one update get_pending_payload resume_agent_run_for_approval Option.bind
failing = refl

no_reply :
    select_one
      (Ops2.is_request 1 9 (Ops.decide_approval 70) "a")
      (store (some 60)).command_idempotency
    ≡ none
unfolding select_one
no_reply = refl

decide_command-half_promotes_example :
    (decide_command body_digest digest policy no_payload 1 9 70 true 1 "a" 150 true
        (λ w. w)
        (store (some 60))
      ≡ (ok (refused approval_payload_unreadable), half))
    × ((b : ApprovalBinding) × (binding_of 70 1 (store (some 60)) ≡ some b)
        × HasHalfPromoted digest policy no_payload b 9 150 (store (some 60)) half)
decide_command-half_promotes_example =
    decide_command-half_promotes body_digest digest policy no_payload 1 9 70 true 1 "a" 150 (λ w. w)
      (store (some 60)) tt no_reply failing

waits_once : waiting 1 10 (store none) ≤ 1
unfolding count
waits_once = omega arith

answer_calls-waiting_example :
    waiting 1 10 (answer_calls body_digest digest policy no_payload 60 decisions (store none)) ≤ 1
answer_calls-waiting_example =
    answer_calls-waiting body_digest digest policy no_payload 60 decisions 1 10 (store none)
      waits_once
