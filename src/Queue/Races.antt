-- ===== src/Queue/Races.antt =====
-- Calls that interleave: `subscribe` and `unsubscribe` take the locks of the listeners and of the
-- channels one after the other, and `push` looks at the listeners before it looks a channel up.
use wsync.Prelude.{
  ℕ, ◌≡◌, refl, ◌∙◌, true, false, not, none, List, [], ◌∷◌, ◌++◌, arith, NatMap, Text, retain, ◌==◌,
  ==_refl, Option-cases, inl, inr, remove,
}
use wsync.Queue.{
  Lib, Message, Listener, Channel, Queue, ok, panic, send_to, send_all, push, is_subscribed,
  add_listener, unsubscribe,
}
use wsync.Queue.Invariant.{Inv}
use wsync.Queue.Delivery.{send_all-each}

module _ {p : Lib} where
  send_all-append :
      (m : Message p) (ls : List Listener) (l : Listener) (queues after : NatMap (Channel p))
      → send_all m ls queues ≡ ok after
      → after l.id ≡ none
      → send_all m (ls ++ l ∷ []) queues ≡ panic
  unfolding send_all send_to
  send_all-append m [] l queues after ran e = ground (arith, ran, e)
  send_all-append m (k ∷ ls) l queues after ran e = elim (Option-cases (queues k.id)) [
    | inl n ↦ absurd (ground (arith, ran))
    | inr (c, n) ↦ rw (n, send_all) (send_all-append m ls l _ after (ground (arith, ran)) e)
  ]

  -- Under the invariant, a message for all that comes between the two statements of `subscribe` for
  -- an id that was not subscribed, when the listener is there and its channel is not, panics.
  pub push-subscribing :
      (m : Message p) (id : ℕ) (name : Text) (q : Queue p)
      → Inv p q
      → is_subscribed q id ≡ false
      → push m none (add_listener (record { id = id; name = name; is_internal = false }) q) ≡ panic
  unfolding push add_listener is_subscribed
  push-subscribing m id name q v h =
      let (after, ran, others, mine) =
        send_all-each m q.listeners q.queues v.distinct (λ j k. v.served j ∙ k) in
      rw
        (send_all-append m q.listeners (record { id = id; name = name; is_internal = false })
          q.queues after ran (others id h ∙ ground (arith, v.served id)))
        refl

  -- A message for a listener that was found subscribed, when `unsubscribe` runs before the channel
  -- is looked up, panics.
  pub send_to-unsubscribed :
      (m : Message p) (id : ℕ) (q : Queue p)
      → is_subscribed q id ≡ true
      → (q' : Queue p) × (unsubscribe id q ≡ ok q') × (send_to m id q'.queues ≡ panic)
  unfolding unsubscribe send_to
  send_to-unsubscribed m id q h = (
    record q {
      listeners = retain (λ l. not (l.id == id)) q.listeners;
      queues = remove id q.queues;
    },
    rw h refl,
    ground (arith, ==_refl id),
  )
