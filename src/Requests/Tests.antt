-- ===== src/Requests/Tests.antt =====
-- A request that times out before Studio answers.
use wsync.Prelude.{
  ℕ, ◌+◌, ◌%◌, ◌<◌, ◌≡◌, ◌≢◌, refl, true, false, none, some, codes, ◌==◌, arith, find_first,
}
use wsync.Operation.{
  Json, ResponseFrame, completed, new_receipt, prune, begin_pruned, begin, conclude, finish, op,
  completion, task_failed, acknowledgement_only,
}
use wsync.Requests.{
  u32_values, new_router, next_from, next_request_id, register_request, abort_request,
  fail_pending_requests, record_response, resolve_request,
}
use wsync.Requests.Ids.{next_request_id-total}
use wsync.Requests.Late.{resolve_request-late}

program : Unit {0}
unfolding prune begin_pruned begin conclude finish op completion task_failed acknowledgement_only
    next_from next_request_id register_request abort_request fail_pending_requests record_response
    resolve_request
program = tt

abbrev no_values : Json
no_values = record {
  Value = ℕ;
  get = λ name v. none;
  as_bool = λ v. none;
  as_u64 = λ v. some v;
  as_array = λ v. none;
  as_str = λ v. none;
}

abbrev done : ResponseFrame no_values
done = record { request_id = 3; ok = true; value = none; error = none; meta = none }

wrapped : (next_request_id 4294967295 ≡ some (4294967295, 0)) × (next_request_id 0 ≡ some (1, 2))
unfolding program
wrapped = (refl, refl)

next_request_id-total_example :
    (id : ℕ) × (next_request_id 0 ≡ some (id, (id + 1) % u32_values)) × (id ≢ 0) × (id < u32_values)
next_request_id-total_example = next_request_id-total 0 (omega arith)

resolve_request-late_example :
    ((resolve_request done (
        abort_request 3 (
          register_request 3 (record new_router {
            receipts = (begin 0 3 (codes "op-1") (codes "set") new_router.receipts).0;
          })))).1
      ≡ false)
    × (find_first
          (λ r. r.request_id == 3)
          (resolve_request done (
            abort_request 3 (
              register_request 3 (record new_router {
                receipts = (begin 0 3 (codes "op-1") (codes "set") new_router.receipts).0;
              })))).0.receipts
        ≡ some (conclude completed none (new_receipt 0 3 (codes "op-1") (codes "set"))))
unfolding program
resolve_request-late_example =
    resolve_request-late 0 (codes "op-1") (codes "set") new_router done refl refl
