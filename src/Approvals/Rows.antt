-- ===== src/Approvals/Rows.antt =====
-- backend/adapters/postgres/approval.py, site_baseline.py, audit.py, membership.py, the reads of
-- schedule_run.py that approvals use, and `mark_applied` of proposal.py.
use mathlib.Core.Option
use roster_ai.Base.{
  ℕ, ◌+◌, Bool, true, false, not, ◌&&◌, ◌||◌, Option, none, some, List, [], ◌∷◌, ◌++◌, map, filter,
  any, is_some, ◌==◌, str_eq,
}
use roster_ai.Base.Table.{select_one, update}
use roster_ai.Contracts.JobLease.{Uuid, Instant}
use roster_ai.Contracts.Scheduling.{Candidate}
use roster_ai.Contracts.Approvals.{
  ApprovalState, consumed, is_pending, ApprovalBinding, ApprovalRequest, SiteBaseline,
  AuditEnvelope, AuditOutcome, requested, denied, decided, Proposal, pending, rejected, expired,
  stale,
}
use roster_ai.Store.{World, ScheduleRun, ScheduleVersion, integrity_error}
use roster_ai.Store.Tx.{Tx, ok, gets, modify, require, ◌>>=◌, ◌>>◌}
use roster_ai.Repository.Rows.{run_row}

-- `create_pending`; `uq_approval_request_effect`, the two partial indexes on pending rows and the
-- primary key refuse a second row
abbrev pub same_agent_run : Option Uuid → Option Uuid → Bool
same_agent_run (some a) (some b) = a == b
same_agent_run _ _ = false

abbrev pub request_clashes : ApprovalBinding → ApprovalRequest → Bool
request_clashes b r =
    r.binding.approval_id == b.approval_id
    || r.binding.site_id == b.site_id && str_eq r.binding.request_effect_key b.request_effect_key
    || is_pending r.binding.state
      && is_pending b.state
      && (same_agent_run r.binding.agent_run_id b.agent_run_id
          || r.binding.site_id == b.site_id && r.binding.schedule_run_id == b.schedule_run_id)

unfoldable pub create_pending : ApprovalBinding → Option ℕ → Tx (Unit {0})
create_pending binding payload = do
  clash ← gets (λ w. is_some (select_one (request_clashes binding) w.approval_request))
  require (not clash) integrity_error
  modify λ w. record w {
    approval_request =
        w.approval_request ++ record { binding = binding; pending_payload = payload } ∷ [];
  }

abbrev pub is_approval : Uuid → Uuid → ApprovalRequest → Bool
is_approval approval site r = r.binding.approval_id == approval && r.binding.site_id == site

abbrev pub binding_of : Uuid → Uuid → World → Option ApprovalBinding
binding_of approval site w =
    Option.map (λ r. r.binding) (select_one (is_approval approval site) w.approval_request)

-- `get`
unfoldable pub get : Uuid → Uuid → Tx (Option ApprovalBinding)
get approval site = gets (binding_of approval site)

-- `list_for_schedule_run`, without its order
unfoldable pub list_for_schedule_run : Uuid → Uuid → Tx (List ApprovalBinding)
list_for_schedule_run run site = gets λ w.
    map (λ r. r.binding)
      (filter (λ r. r.binding.schedule_run_id == run && r.binding.site_id == site)
        w.approval_request)

-- `get_pending_payload`
unfoldable pub get_pending_payload : Uuid → Uuid → Tx (Option ℕ)
get_pending_payload approval site = gets λ w.
    Option.bind (select_one (is_approval approval site) w.approval_request) (λ r. r.pending_payload)

-- WHERE id, site_id, state = 'pending' and resource_version are the expected ones
abbrev pub is_open : Uuid → Uuid → ℕ → ApprovalRequest → Bool
is_open approval site version r =
    is_approval approval site r
    && is_pending r.binding.state
    && r.binding.resource_version == version

abbrev pub closed :
    ApprovalState → Uuid → Instant → Option Instant → ApprovalRequest → ApprovalRequest
closed state actor at used r = record r {
  binding = record r.binding {
    state = state;
    decided_by_actor_id = some actor;
    decided_at = some at;
    consumed_at = used;
    resource_version = r.binding.resource_version + 1;
  };
}

-- UPDATE approval_request SET f WHERE p RETURNING …
unfoldable pub update_approval :
    (ApprovalRequest → Bool) → (ApprovalRequest → ApprovalRequest) → Tx (Option ApprovalBinding)
update_approval p f w = (
  ok (Option.map (λ r. (f r).binding) (select_one p w.approval_request)),
  record w { approval_request = update p f w.approval_request },
)

-- `terminalize`, which leaves `consumed_at` as it is
unfoldable pub terminalize :
    Uuid → Uuid → ApprovalState → Uuid → Instant → ℕ → Tx (Option ApprovalBinding)
unfolding update_approval
terminalize approval site state actor at version =
    update_approval (is_open approval site version)
      (λ r. closed state actor at r.binding.consumed_at r)

-- `consume`
unfoldable pub consume : Uuid → Uuid → Uuid → Instant → ℕ → Tx (Option ApprovalBinding)
unfolding update_approval
consume approval site actor at version =
    update_approval (is_open approval site version) (closed consumed actor at (some at))

abbrev pub is_baseline : Uuid → SiteBaseline → Bool
is_baseline site b = b.site_id == site

-- `PostgresSiteBaselineReader.get`
unfoldable pub get_baseline : Uuid → Tx (Option SiteBaseline)
get_baseline site = gets (λ w. select_one (is_baseline site) w.site_baseline)

abbrev pub first_baseline : Uuid → Uuid → Uuid → Instant → SiteBaseline
first_baseline site version actor at = record {
  site_id = site;
  schedule_version_id = version;
  resource_version = 1;
  updated_at = at;
  updated_by_actor_id = actor;
}

-- INSERT in a savepoint, where a row of the site (`uq_site_baseline_site`) gives None
abbrev pub insert_baseline : SiteBaseline → Option SiteBaseline → Tx (Option SiteBaseline)
insert_baseline b (some taken) w = (ok none, w)
insert_baseline b none w = (ok (some b), record w { site_baseline = w.site_baseline ++ b ∷ [] })

abbrev pub moved_baseline : Uuid → Uuid → Instant → SiteBaseline → SiteBaseline
moved_baseline version actor at b = record b {
  schedule_version_id = version;
  resource_version = b.resource_version + 1;
  updated_at = at;
  updated_by_actor_id = actor;
}

abbrev pub is_baseline_at : Uuid → ℕ → SiteBaseline → Bool
is_baseline_at site version b = is_baseline site b && b.resource_version == version

-- `PostgresSiteBaselineWriter.promote`
unfoldable pub promote : Uuid → Uuid → Uuid → Instant → Option ℕ → Tx (Option SiteBaseline)
promote site version actor at none w =
    insert_baseline (first_baseline site version actor at)
      (select_one (is_baseline site) w.site_baseline) w
promote site version actor at (some expected) w = (
  ok (
      Option.map (moved_baseline version actor at)
        (select_one (is_baseline_at site expected) w.site_baseline)),
  record w {
    site_baseline =
        update (is_baseline_at site expected) (moved_baseline version actor at) w.site_baseline;
  },
)

abbrev pub state_eq : ApprovalState → ApprovalState → Bool
state_eq pending pending = true
state_eq consumed consumed = true
state_eq rejected rejected = true
state_eq expired expired = true
state_eq stale stale = true
state_eq _ _ = false

abbrev pub outcome_eq : AuditOutcome → AuditOutcome → Bool
outcome_eq requested requested = true
outcome_eq denied denied = true
outcome_eq (decided a) (decided b) = state_eq a b
outcome_eq _ _ = false

-- `uq_audit_event_success_effect`; an attempt's id is fresh, so its index refuses nothing
abbrev pub same_effect : AuditEnvelope → AuditEnvelope → Bool
same_effect a b =
    a.success
    && b.success
    && a.site_id == b.site_id
    && str_eq a.effect_key b.effect_key
    && outcome_eq a.outcome b.outcome

-- `PostgresAuditWriter.append`
unfoldable pub append_audit : AuditEnvelope → Tx (Unit {0})
append_audit e = do
  clash ← gets (λ w. is_some (select_one (same_effect e) w.audit_event))
  require (not clash) integrity_error
  modify (λ w. record w { audit_event = w.audit_event ++ e ∷ [] })

abbrev pub is_member : Uuid → Uuid → World → Bool
is_member user site w =
    any (λ m. m.app_user_id == user && m.site_id == site && not (is_some m.revoked_at)) w.membership

-- `has_active_membership`
unfoldable pub has_active_membership : Uuid → Uuid → Tx Bool
has_active_membership user site = gets (is_member user site)

-- `get_candidate`
unfoldable pub get_candidate : Uuid → Uuid → Tx (Option Candidate)
get_candidate run site = gets λ w.
    Option.map (λ v. v.payload)
      (select_one (λ v. v.schedule_run_id == run && v.site_id == site) w.schedule_version)

-- `get_run`, the fields that approvals read
unfoldable pub get_run : Uuid → Uuid → Tx (Option ScheduleRun)
get_run run site = gets (run_row run site)

abbrev pub applied : Uuid → Proposal → Proposal
applied version p = record p {
  active = false;
  applied_version_id = some version;
  resource_version = p.resource_version + 1;
}

abbrev pub apply_pinned : Uuid → Option ScheduleVersion → World → World
apply_pinned site none w = w
apply_pinned site (some v) w = record w {
  proposal =
      update (λ p. p.id == v.payload.proposal_id && p.site_id == site && p.active)
        (applied v.payload.proposal_version_id) w.proposal;
}

-- `mark_applied`
unfoldable pub mark_applied : Uuid → Uuid → Tx (Unit {0})
mark_applied site version =
    modify λ w. apply_pinned site (select_one (λ v. v.id == version) w.schedule_version) w
