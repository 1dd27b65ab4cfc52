-- ===== src/Approvals/Sole.antt =====
-- No run has two bindings that wait for a decision.
use roster_ai.Base.{
  ℕ, ◌+◌, ◌≤◌, String, ◌≡◌, sym, subst, Bool, true, ◌&&◌, List, [], ◌∷◌, inl, inr, Bool-cases,
  arith, ◌==◌, none, Option,
}
use roster_ai.Base.Table.{select_one, count, count-append}
use roster_ai.Base.Unique.{count-none, count-update-le}
use roster_ai.Contracts.JobLease.{Uuid}
use roster_ai.Contracts.Approvals.{is_pending, ApprovalRequest, Signed}
use roster_ai.Store.{World, Body}
use roster_ai.Approvals.Rows.{is_open, request_clashes}
use roster_ai.Approvals.Promote.{AgentApprovalPending}
use roster_ai.Approvals.Moves.{ApprovalMoves, same, closes, opens, IsClosing}
use roster_ai.Approvals.Once.{ApprovalCall, answer_call, answer_calls, answer_call-Moves}

-- A binding of the run that waits for its decision.
abbrev pub waits_for : Uuid → Uuid → ApprovalRequest → Bool
waits_for site run r =
    is_pending r.binding.state && r.binding.site_id == site && r.binding.schedule_run_id == run

abbrev pub waiting : Uuid → Uuid → World → ℕ
waiting site run w = count (waits_for site run) w.approval_request

waiting_clash :
    (site run : Uuid) (r x : ApprovalRequest)
    → waits_for site run r ≡ true
    → waits_for site run x ≡ true
    → request_clashes r.binding x ≡ true
waiting_clash site run r x a b = ground (arith, a, b)

closed_waits :
    (site run : Uuid) {f : ApprovalRequest → ApprovalRequest}
    → IsClosing f
    → (x : ApprovalRequest) → waits_for site run (f x) ≡ true
    → waits_for site run x ≡ true
closed_waits site run c x h = ground (arith, c.ended x, h)

opened_waits :
    (site run : Uuid) (r : ApprovalRequest) (rs : List ApprovalRequest)
    → select_one (request_clashes r.binding) rs ≡ none
    → count (waits_for site run) rs ≤ 1
    → count (waits_for site run) rs + count (waits_for site run) (r ∷ []) ≤ 1
unfolding count
opened_waits site run r rs fresh h = elim (Bool-cases (waits_for site run r)) [
  | inl t ↦
      let others =
        count-none (request_clashes r.binding) (waits_for site run) rs
          (λ x s. waiting_clash site run r x t s) fresh in
      rw t (omega (arith, others))
  | inr t ↦ rw t (omega (arith, h))
]

moves-waiting :
    (site run : Uuid) {w w' : World}
    → ApprovalMoves w w'
    → waiting site run w ≤ 1
    → waiting site run w' ≤ 1
moves-waiting site run (same e) h = subst (λ rs. count (waits_for site run) rs ≤ 1) (sym e) h
moves-waiting site run {w} (closes a s version f c e) h =
    subst (λ rs. count (waits_for site run) rs ≤ 1) (sym e)
      (omega (
        arith,
        h,
        count-update-le (waits_for site run) (is_open a s version) f w.approval_request
            (λ x _ t. closed_waits site run c x t),
      ))
moves-waiting site run {w} (opens r fresh e) h =
    subst (λ rs. count (waits_for site run) rs ≤ 1) (sym e)
      (omega (
        arith,
        count-append (waits_for site run) w.approval_request (r ∷ []),
        opened_waits site run r w.approval_request fresh h,
      ))

-- Whatever requests and decisions are committed, in any order and on reads of any age, a run that
-- has at most one binding waiting for a decision has at most one after them.
pub answer_calls-waiting :
    (body_digest : Body → ℕ) (contract_digest : Signed → ℕ) (policy_digest : Bool → String)
    (validate_pending : ℕ → Option AgentApprovalPending) (approval_expiry_seconds : ℕ)
    (cs : List ApprovalCall) (site run : Uuid) (w : World)
    → waiting site run w ≤ 1
    → waiting site run (
        answer_calls body_digest contract_digest policy_digest validate_pending
          approval_expiry_seconds cs w)
      ≤ 1
unfolding answer_calls
answer_calls-waiting body_digest contract_digest policy_digest validate_pending expiry [] site run w
      h =
    h
answer_calls-waiting body_digest contract_digest policy_digest validate_pending expiry (c ∷ cs) site
      run w h =
    answer_calls-waiting body_digest contract_digest policy_digest validate_pending expiry cs site
      run (answer_call body_digest contract_digest policy_digest validate_pending expiry c w)
      (moves-waiting site run
        (answer_call-Moves body_digest contract_digest policy_digest validate_pending expiry c w) h)
