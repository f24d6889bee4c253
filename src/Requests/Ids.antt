-- ===== src/Requests/Ids.antt =====
-- The ids of requests.
use wsync.Prelude.{
  ℕ, ◌+◌, ◌%◌, ◌<◌, ◌≡◌, ◌≢◌, refl, some, ◌==◌, Bool-cases, inl, inr, arith, ==_iff,
}
use wsync.Requests.{u32_values, next_from, next_request_id}

-- With a counter of 32 bits, drawing an id ends, with an id that is not 0 and fits 32 bits, and the counter then stands at the
-- id after it, modulo 2 ^ 32.
pub next_request_id-total :
    (counter : ℕ)
    → counter < u32_values
    → (id : ℕ) × (next_request_id counter ≡ some (id, (id + 1) % u32_values))
      × (id ≢ 0)
      × (id < u32_values)
unfolding next_request_id next_from
next_request_id-total counter h = elim (Bool-cases (counter == 0)) [
  | inl e ↦
      let zero_counter : counter ≡ 0 = (==_iff counter 0).0 e in
      (1, rw (zero_counter, next_from) refl, omega arith, omega arith)
  | inr e ↦ (counter, rw e refl, ground arith, h)
]
