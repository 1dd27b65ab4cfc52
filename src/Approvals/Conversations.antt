-- ===== src/Approvals/Conversations.antt =====
-- The approval methods of backend/adapters/postgres/conversation.py. Row locks order sessions that
-- the model runs one after another.

use Prim.Native.Nat.{max}
use roster_ai.Base.{
  ℕ, ◌+◌, Bool, true, false, Option, none, some, List, [], ◌∷◌, ◌++◌, is_some, ◌==◌, if◌then◌else◌,
}
use roster_ai.Base.Table.{select_one, update}
use roster_ai.Contracts.JobLease.{Uuid, Instant}
use roster_ai.Contracts.Approvals.{
  ApprovalState, ApprovalBinding, AgentRun, AgentRunStatus, agent_running, approval_required,
  agent_cancelled, other_status, Conversation, ConversationEvent, rejected, expired, stale,
}
use roster_ai.Store.{World, runtime_error, agent_run_not_queued, value_error, integrity_error}
use roster_ai.Store.Tx.{Tx, pure, raise, gets, modify, require, ◌>>=◌, ◌>>◌}
use roster_ai.Repository.Rows.{uuid4}

-- coalesce(max(sequence), 0) over the events of a conversation's stream
unfoldable pub last_sequence : Uuid → List ConversationEvent → ℕ
last_sequence stream [] = 0
last_sequence stream (e ∷ es) =
    let rest = last_sequence stream es in
    if e.stream_id == stream then max e.sequence rest else rest

abbrev pub conversation_row : Uuid → World → Option Conversation
conversation_row c w = select_one (λ x. x.id == c) w.conversation

abbrev pub require_conversation : Option Conversation → Tx Conversation
require_conversation none = raise runtime_error
require_conversation (some c) = pure c

-- `occurred_at or binding.created_at or now`
abbrev pub or_times : Option Instant → Option Instant → Instant → Instant
or_times (some t) created now = t
or_times none (some t) now = t
or_times none none now = now

abbrev pub approval_event :
    ApprovalBinding
    → Uuid
    → Uuid
    → Option Uuid
    → Option Instant
    → ℕ
    → Uuid
    → World
    → ConversationEvent
approval_event b actor request agent_run at version activity w = record {
  stream_id = b.conversation_id;
  sequence = last_sequence b.conversation_id w.conversation_event + 1;
  occurred_at = or_times at b.created_at w.clock;
  resource_version = version;
  request_id = request;
  agent_run_id = agent_run;
  site_id = b.site_id;
  actor_id = actor;
  activity_id = activity;
  approval_id = b.approval_id;
  approval_state = b.state;
}

-- `_append_approval_activity`, with the event that it returns
unfoldable pub append_approval_activity :
    ApprovalBinding → Uuid → Uuid → Option Uuid → Option Instant → Tx ConversationEvent
unfolding uuid4
append_approval_activity b actor request agent_run at = do
  found ← gets (conversation_row b.conversation_id)
  c ← require_conversation found
  activity ← uuid4
  w ← gets (λ w. w)
  modify λ v. record v {
    conversation_event =
        v.conversation_event
        ++ approval_event b actor request agent_run at (c.resource_version + 1) activity w ∷ [];
    conversation =
        update (λ x. x.id == b.conversation_id)
          (λ x. record x { resource_version = c.resource_version + 1 }) v.conversation;
  }
  pure (approval_event b actor request agent_run at (c.resource_version + 1) activity w)

abbrev pub agent_status_eq : AgentRunStatus → AgentRunStatus → Bool
agent_status_eq agent_running agent_running = true
agent_status_eq approval_required approval_required = true
agent_status_eq agent_cancelled agent_cancelled = true
agent_status_eq other_status other_status = true
agent_status_eq _ _ = false

abbrev pub status_is : AgentRunStatus → Option AgentRun → Bool
status_is s none = false
status_is s (some r) = agent_status_eq r.status s

abbrev pub agent_row : Uuid → World → Option AgentRun
agent_row run w = select_one (λ r. r.id == run) w.agent_run

abbrev pub set_agent : Uuid → AgentRunStatus → Option ApprovalState → Tx (Unit {0})
set_agent run status reason = modify λ w. record w {
  agent_run =
      update (λ r. r.id == run) (λ r. record r { status = status; status_reason = reason })
        w.agent_run;
}

-- The two locked reads at the head of the three methods.
abbrev pub require_agent : ApprovalBinding → Uuid → AgentRunStatus → Tx (Unit {0})
require_agent b run status = do
  found ← gets (conversation_row b.conversation_id)
  require (is_some found) runtime_error
  agent ← gets (agent_row run)
  require (status_is status agent) agent_run_not_queued

-- `pause_agent_run_for_approval`; it leaves `status_reason` as it is
unfoldable pub pause_agent_run_for_approval : Uuid → ApprovalBinding → Uuid → Tx ConversationEvent
unfolding append_approval_activity
pause_agent_run_for_approval run b request = do
  require_agent b run agent_running
  event ← append_approval_activity b b.initiated_by_actor_id request (some run) b.created_at
  modify λ w. record w {
    agent_run =
        update (λ r. r.id == run) (λ r. record r { status = approval_required }) w.agent_run;
  }
  pure event

-- APPROVAL_CANCELLATION_REASONS, by outcome
abbrev pub is_cancellation_reason : ApprovalState → Bool
is_cancellation_reason rejected = true
is_cancellation_reason expired = true
is_cancellation_reason stale = true
is_cancellation_reason _ = false

-- `cancel_agent_run_for_approval`
unfoldable pub cancel_agent_run_for_approval :
    Uuid → ApprovalBinding → ApprovalState → Tx (Unit {0})
cancel_agent_run_for_approval run b reason = do
  require (is_cancellation_reason reason) value_error
  require_agent b run approval_required
  set_agent run agent_cancelled (some reason)

-- `persisted_event.actor_id` is NOT NULL.
abbrev pub require_actor : Option Uuid → Tx Uuid
require_actor none = raise integrity_error
require_actor (some a) = pure a

-- `resume_agent_run_for_approval`
unfoldable pub resume_agent_run_for_approval :
    Uuid → ApprovalBinding → Uuid → Instant → Tx ConversationEvent
unfolding append_approval_activity
resume_agent_run_for_approval run b request at = do
  require_agent b run approval_required
  set_agent run agent_running none
  actor ← require_actor b.decided_by_actor_id
  append_approval_activity b actor request (some run) (some at)
