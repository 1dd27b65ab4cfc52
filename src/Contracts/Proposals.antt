-- ===== src/Contracts/Proposals.antt =====
-- What an enqueue reads of a proposal and of its scenario: backend/application/contracts/proposal.py
-- and backend/application/ports.
use roster_ai.Base.{ℕ, String, Bool, true, false, Option, List}
use roster_ai.Contracts.JobLease.{Uuid}
use roster_ai.Contracts.Scheduling.{Lock}

pub data ProposalState : Type 0 where
  active rejected applied : ProposalState

abbrev pub is_rejected : ProposalState → Bool
is_rejected rejected = true
is_rejected _ = false

abbrev pub is_applied : ProposalState → Bool
is_applied applied = true
is_applied _ = false

-- `ProposalV1`, the fields that an enqueue reads
pub record DraftProposal : Type 0 where
  pub proposal_id : Option Uuid
  pub proposal_version_id : Option Uuid
  pub state : ProposalState
  pub scenario_id : Option Uuid
  pub scenario_version_id : Uuid
  pub expected_baseline_schedule_version : Option Uuid
  pub resource_version : ℕ
  pub preserved_locks : List Lock

-- `ScenarioContext`
pub record ScenarioContext : Type 0 where
  pub site_id : Uuid
  pub scenario_version_id : Uuid
  pub baseline_schedule_version : Option Uuid
  pub checksum_algorithm : String
  pub checksum_schema_version : String
  pub checksum_digest : String
