-- ===== src/Queue/Run.antt =====
-- Every sequence of completed calls on the queues: none of them fails, and none breaks the
-- invariant.
use wsync.Prelude.{ℕ, ◌≡◌, refl, Option, none, some, List, [], ◌∷◌, Text}
use wsync.Queue.{
  Lib, Message, FlowMark, Queue, Result, ok, not_subscribed, already_subscribed, panic, push, get,
  get_timeout, get_change, confirm, subscribe, subscribe_internal, unsubscribe, disconnect,
  new_queue,
}
use wsync.Queue.Calls.{
  Succeeds, Kept, push-Inv, get-Inv, get_timeout-Inv, get_change-Inv, confirm-Inv, subscribe-Inv,
  subscribe_internal-Inv, unsubscribe-Inv, disconnect-Inv,
}
use wsync.Queue.Invariant.{Inv, new_queue-Inv}

-- A completed call; one that fails leaves the queue as it was.
pub data Op (p : Lib) : Type 0 where
  pushes : Message p → Option ℕ → Op p
  gets gets_timeout gets_change unsubscribes : ℕ → Op p
  confirms : ℕ → FlowMark → Op p
  subscribes : ℕ → Text → Op p
  subscribes_internal : Op p
  disconnects : Text → ℕ → Op p

module _ {p : Lib} where
  -- The queue after a result, `none` after a panic.
  abbrev pub after : Queue p → Result (Queue p) → Option (Queue p)
  after q (ok q') = some q'
  after q not_subscribed = some q
  after q already_subscribed = some q
  after q panic = none

  abbrev pub after_take : Queue p → Result (Queue p × Option (Message p)) → Option (Queue p)
  after_take q (ok r) = some r.0
  after_take q not_subscribed = some q
  after_take q already_subscribed = some q
  after_take q panic = none

  unfoldable pub step : Op p → Queue p → Option (Queue p)
  step (Op.pushes m target) q = after q (push m target q)
  step (Op.gets id) q = after_take q (get id q)
  step (Op.gets_timeout id) q = after_take q (get_timeout id q)
  step (Op.gets_change id) q = after_take q (get_change id q)
  step (Op.unsubscribes id) q = after q (unsubscribe id q)
  step (Op.confirms id k) q = some (confirm id k q)
  step (Op.subscribes id name) q = after q (subscribe id name q)
  step Op.subscribes_internal q = subscribe_internal q
  step (Op.disconnects message id) q = after q (disconnect message id q)

  unfoldable pub run : List (Op p) → Queue p → Option (Queue p)
  run [] q = some q
  run (o ∷ os) q = elim (step o q) [ none ↦ none | some q' ↦ run os q' ]

  Reaches : Option (Queue p) → Type 0
  Reaches o = (q : Queue p) × (o ≡ some q) × Inv p q

  after-Reaches :
      (q : Queue p) (r : Result (Queue p)) → Inv p q → Succeeds (Inv p) r → Reaches (after q r)
  unfolding Reaches
  after-Reaches q (ok q') v w = (q', refl, w)
  after-Reaches q not_subscribed v w = (q, refl, v)
  after-Reaches q already_subscribed v w = (q, refl, v)
  after-Reaches q panic v w = absurd w

  after_take-Reaches :
      (q : Queue p) (r : Result (Queue p × Option (Message p)))
      → Inv p q
      → Succeeds Kept r
      → Reaches (after_take q r)
  unfolding Reaches
  after_take-Reaches q (ok r) v w = (r.0, refl, w)
  after_take-Reaches q not_subscribed v w = (q, refl, v)
  after_take-Reaches q already_subscribed v w = (q, refl, v)
  after_take-Reaches q panic v w = absurd w

  step-Reaches : (o : Op p) (q : Queue p) → Inv p q → Reaches (step o q)
  unfolding step Reaches
  step-Reaches (Op.pushes m target) q v = after-Reaches q _ v (push-Inv m target q v)
  step-Reaches (Op.gets id) q v = after_take-Reaches q _ v (get-Inv id q v)
  step-Reaches (Op.gets_timeout id) q v = after_take-Reaches q _ v (get_timeout-Inv id q v)
  step-Reaches (Op.gets_change id) q v = after_take-Reaches q _ v (get_change-Inv id q v)
  step-Reaches (Op.unsubscribes id) q v = after-Reaches q _ v (unsubscribe-Inv id q v)
  step-Reaches (Op.confirms id k) q v = (confirm id k q, refl, confirm-Inv id k q v)
  step-Reaches (Op.subscribes id name) q v = after-Reaches q _ v (subscribe-Inv id name q v)
  step-Reaches Op.subscribes_internal q v = subscribe_internal-Inv q v
  step-Reaches (Op.disconnects message id) q v = after-Reaches q _ v (disconnect-Inv message id q v)

  run_from-Reaches : (os : List (Op p)) (q : Queue p) → Inv p q → Reaches (run os q)
  unfolding run Reaches
  run_from-Reaches [] q v = (q, refl, v)
  run_from-Reaches (o ∷ os) q v =
      let (q', e, w) = step-Reaches o q v in
      let (q'', e', w') = run_from-Reaches os q' w in (q'', rw (e, run) e', w')

  -- No sequence of completed calls on new queues, over channels that are first in first out, panics,
  -- and after it the listeners have different ids, exactly the listeners have a channel, and in each
  -- channel no more was settled than taken, nor taken and waiting together than pushed, in messages
  -- and in changes.
  pub run-succeeds : (os : List (Op p)) → (q : Queue p) × (run os new_queue ≡ some q) × Inv p q
  unfolding Reaches
  run-succeeds os = run_from-Reaches os new_queue new_queue-Inv
