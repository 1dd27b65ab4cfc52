-- ===== src/Repository/Idempotency.antt =====
-- `get_idempotent_result` and `_store_idempotent_result`: replies by site, actor, operation, key.
use roster_ai.Base.{ℕ, String, Bool, false, ◌&&◌, Option, none, some, [], ◌∷◌, ◌++◌, ◌==◌, str_eq}
use roster_ai.Base.Table.{select_one}
use roster_ai.Contracts.JobLease.{Uuid}
use roster_ai.Store.{
  World, IdempotentResult, Operation, cancel_schedule_run, enqueue_compute, decide_approval,
  Payload,
}
use roster_ai.Store.Tx.{Tx, gets, modify}

abbrev pub operation_eq : Operation → Operation → Bool
operation_eq (cancel_schedule_run a) (cancel_schedule_run b) = a == b
operation_eq (enqueue_compute a) (enqueue_compute b) = a == b
operation_eq (decide_approval a) (decide_approval b) = a == b
operation_eq _ _ = false

abbrev pub is_request : Uuid → Uuid → Operation → String → IdempotentResult → Bool
is_request site actor operation key r =
    r.site_id == site
    && r.actor_id == actor
    && operation_eq r.operation operation
    && str_eq r.idempotency_key key

unfoldable pub get_idempotent_result :
    Uuid → Uuid → Operation → String → Tx (Option IdempotentResult)
get_idempotent_result site actor operation key =
    gets (λ w. select_one (is_request site actor operation key) w.command_idempotency)

-- ON CONFLICT (the request's key) DO NOTHING
abbrev insert_unless : Option IdempotentResult → IdempotentResult → World → World
insert_unless (some old) r w = w
insert_unless none r w = record w { command_idempotency = w.command_idempotency ++ r ∷ [] }

unfoldable pub store_idempotent_result :
    Uuid → Uuid → Operation → String → ℕ → Payload → Tx (Unit {0})
store_idempotent_result site actor operation key hash payload = modify λ w.
    insert_unless (select_one (is_request site actor operation key) w.command_idempotency)
      (record {
        site_id = site;
        actor_id = actor;
        operation = operation;
        idempotency_key = key;
        body_hash = hash;
        response_payload = payload;
      })
      w
