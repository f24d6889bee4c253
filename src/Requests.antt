-- ===== src/Requests.antt =====
-- The request router of src/server/ws/state.rs: the requests that wait for Studio's response, and
-- the receipts of src/server/operation.rs behind them. A waiting caller is an entry of `pending`.
pub mod Ids
pub mod Late
mod Tests
use wsync.Prelude.{
  ℕ, zero, suc, ◌+◌, ◌%◌, Bool, true, false, Option, none, some, Text, ◌==◌, if◌then◌else◌, NatMap,
  empty_map, insert, remove, is_some, map_option, [],
}
use wsync.Operation.{Json, ResponseFrame, Receipts, op, finish, completion}

pub record Router : Type 0 where
  pub next_id : ℕ
  pub pending : NatMap (Unit {0})
  pub receipts : Receipts

-- The values of a `u32`.
abbrev pub u32_values : ℕ
u32_values = 4294967296

abbrev pub new_router : Router
new_router = record { next_id = 1; pending = empty_map; receipts = [] }

-- The loop of `next_request_id`, with the counter after it; two rounds are enough.
unfoldable pub next_from : ℕ → ℕ → Option (ℕ × ℕ)
next_from zero id = none
next_from (suc fuel) id =
    let next = (id + 1) % u32_values in
    let rest = next_from fuel next in if id == 0 then rest else some (id, next)

unfoldable pub next_request_id : ℕ → Option (ℕ × ℕ)
next_request_id id = next_from 2 id

unfoldable pub register_request : ℕ → Router → Router
register_request request_id s = record s { pending = insert request_id tt s.pending }

unfoldable pub abort_request : ℕ → Router → Router
abort_request request_id s = record s { pending = remove request_id s.pending }

unfoldable pub fail_pending_requests : Router → Router
fail_pending_requests s = record s { pending = empty_map }

module _ {j : Json} where
  unfoldable pub record_response : ResponseFrame j → Receipts → Receipts
  record_response response rs = elim (op response.request_id rs) [
    | none ↦ rs
    | some name ↦
        finish response.request_id (completion response (some name))
          (map_option (λ e. e.code) response.error) rs
  ]

  -- Whether a caller got the response.
  unfoldable pub resolve_request : ResponseFrame j → Router → Router × Bool
  resolve_request response s = (
    record s {
      receipts = record_response response s.receipts;
      pending = remove response.request_id s.pending;
    },
    is_some (s.pending response.request_id),
  )
