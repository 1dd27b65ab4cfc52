-- ===== src/Approvals/Once.antt =====
-- A binding is decided once.
use mathlib.Core.Option
use roster_ai.Base.{
  ℕ, ◌+◌, String, ◌≡◌, ◌∙◌, ap, ap₂, Bool, true, false, ◌&&◌, Option, some, List, [], ◌∷◌, inl, inr,
  Bool-cases, arith, if◌then◌else◌, ◌==◌,
}
use roster_ai.Base.Table.{select_one, select_one-update, select_one-append}
use roster_ai.Contracts.JobLease.{Uuid, Instant}
use roster_ai.Contracts.Approvals.{is_pending, ApprovalRequest, Signed}
use roster_ai.Store.{World, Body}
use roster_ai.Store.Tx.{transaction}
use roster_ai.Approvals.Rows.{is_approval, is_open}
use roster_ai.Approvals.Promote.{AgentApprovalPending}
use roster_ai.Approvals.Request.{RequestCommand, request_approval}
use roster_ai.Approvals.Route.{decide_approval_route}
use roster_ai.Approvals.Moves.{ApprovalMoves, same, closes, opens}
use roster_ai.Approvals.Calls.{request-Moves, route-Moves}

-- The requests that commit; the reads of each saw the store that it names, whichever that was.
pub data ApprovalCall : Type 0 where
  request : RequestCommand → Instant → Bool → World → ApprovalCall
  decide : Uuid → Uuid → Uuid → Bool → ℕ → String → Instant → Bool → World → ApprovalCall

module _ (body_digest : Body → ℕ) (contract_digest : Signed → ℕ) (policy_digest : Bool → String)
    (validate_pending : ℕ → Option AgentApprovalPending) (approval_expiry_seconds : ℕ) where
  unfoldable pub answer_call : ApprovalCall → World → World
  answer_call (request c now enabled before) w =
      (transaction
        (request_approval contract_digest policy_digest approval_expiry_seconds c now enabled
          before)
        w).1
  answer_call (decide site actor approval approve version key now enabled before) w =
      (transaction
        (decide_approval_route body_digest contract_digest policy_digest validate_pending site actor
          approval approve version key now enabled before)
        w).1

  unfoldable pub answer_calls : List ApprovalCall → World → World
  answer_calls [] w = w
  answer_calls (c ∷ cs) w = answer_calls cs (answer_call c w)

  pub answer_call-Moves : (c : ApprovalCall) (w : World) → ApprovalMoves w (answer_call c w)
  unfolding answer_call
  answer_call-Moves (request c now enabled before) w =
      request-Moves body_digest contract_digest policy_digest validate_pending
        approval_expiry_seconds c now enabled before w
  answer_call-Moves (decide site actor approval approve version key now enabled before) w =
      route-Moves body_digest contract_digest policy_digest validate_pending approval_expiry_seconds
        site actor approval approve version key now enabled before w

-- A binding's row, earlier and later: the same, or the decided one.
pub data IsDecidedOnce (r : ApprovalRequest) : ApprovalRequest → Type 0 where
  undecided : IsDecidedOnce r r
  ended :
      {r' : ApprovalRequest}
      → is_pending r.binding.state ≡ true
      → is_pending r'.binding.state ≡ false
      → r'.binding.resource_version ≡ r.binding.resource_version + 1
      → IsDecidedOnce r r'

IsDecidedOnce-trans :
    {a b c : ApprovalRequest} → IsDecidedOnce a b → IsDecidedOnce b c → IsDecidedOnce a c
IsDecidedOnce-trans undecided q = q
IsDecidedOnce-trans (ended p e v) undecided = ended p e v
IsDecidedOnce-trans (ended p e v) (ended p' e' v') = cc (e, p')

-- The binding is found, decided at most once since.
pub record Lasts (approval site : Uuid) (r : ApprovalRequest) (w : World) : Type 0 where
  pub row : ApprovalRequest
  pub found : select_one (is_approval approval site) w.approval_request ≡ some row
  pub once : IsDecidedOnce r row

moves-Lasts :
    (approval site : Uuid) {w w' : World} {r : ApprovalRequest}
    → ApprovalMoves w w'
    → select_one (is_approval approval site) w.approval_request ≡ some r
    → Lasts approval site r w'
moves-Lasts approval site {r = r} (same e) h = record {
  row = r;
  found = ap (select_one (is_approval approval site)) e ∙ h;
  once = undecided;
}
moves-Lasts approval site {w} {r = r} (closes a s version f c e) h =
    let p = is_open a s version in
    let row = if p r then f r else r in
    let once : IsDecidedOnce r row = elim (Bool-cases (p r)) [
      | inl t ↦ rw t (ended (ground (arith, t)) (c.ended r) (c.version r))
      | inr t ↦ rw t undecided
    ] in
    record {
      row = row;
      found =
          ap (select_one (is_approval approval site)) e
          ∙ select_one-update (is_approval approval site) p f w.approval_request
              (λ x. ap₂ (λ i j. i == approval && j == site) (c.same_id x) (c.same_site x))
          ∙ ap (Option.map (λ x. if p x then f x else x)) h;
      once = once;
    }
moves-Lasts approval site {w} {r = r} (opens x fresh e) h = record {
  row = r;
  found =
      ap (select_one (is_approval approval site)) e
      ∙ select_one-append (is_approval approval site) w.approval_request (x ∷ []) h;
  once = undecided;
}

-- Whatever requests and decisions are committed, in any order and on reads of any age, a binding
-- that is stored stays stored, and it leaves the pending state at most once: its row is the same,
-- or it was pending and has been decided in one step, at the next resource version.
pub answer_calls-Lasts :
    (body_digest : Body → ℕ) (contract_digest : Signed → ℕ) (policy_digest : Bool → String)
    (validate_pending : ℕ → Option AgentApprovalPending) (approval_expiry_seconds : ℕ)
    (cs : List ApprovalCall) (approval site : Uuid) (w : World) {r : ApprovalRequest}
    → select_one (is_approval approval site) w.approval_request ≡ some r
    → Lasts approval site r (
        answer_calls body_digest contract_digest policy_digest validate_pending
          approval_expiry_seconds cs w)
unfolding answer_calls
answer_calls-Lasts body_digest contract_digest policy_digest validate_pending expiry [] approval
      site w {r = r} h =
    record { row = r; found = h; once = undecided }
answer_calls-Lasts body_digest contract_digest policy_digest validate_pending expiry (c ∷ cs)
      approval site w {r = r} h =
    let v = answer_call body_digest contract_digest policy_digest validate_pending expiry c w in
    let first =
      moves-Lasts approval site
        (answer_call-Moves body_digest contract_digest policy_digest validate_pending expiry c w)
        h in
    let rest =
      answer_calls-Lasts body_digest contract_digest policy_digest validate_pending expiry cs
        approval site v first.found in
    record { row = rest.row; found = rest.found; once = IsDecidedOnce-trans first.once rest.once }
