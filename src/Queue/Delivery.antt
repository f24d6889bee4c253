-- ===== src/Queue/Delivery.antt =====
-- What the consumer of a channel gets, and what the counters say meanwhile.
use wsync.Prelude.{
  ℕ, ◌+◌, ◌≤◌, ◌≡◌, refl, ap, ◌∙◌, true, false, Option, none, some, List, [], ◌∷◌, ◌++◌, inl, inr,
  arith, length, is_some, NatMap, insert, Option-cases, map_option, Bool-cases, ◌==◌, ==_refl,
  if◌then◌else◌,
}
use wsync.Queue.{
  Lib, Message, Listener, Channel, Queue, ok, on_push, on_take, on_wait, mark, queued_changes, send,
  received, send_to, send_all, push, receive, new_channel, count_unsynced,
}
use wsync.Queue.Invariant.{has_id, DistinctIds, Inv, sum_changes, waiting, waiting-send, IsNext}

-- The calls on one channel, in the order in which they reach it.
pub data Event (p : Lib) : Type 0 where
  sends : Message p → Event p
  receives : Event p

module _ {p : Lib} where
  -- What the calls of the consumer return.
  abbrev pub to_list : Option (Message p) → List (Message p)
  to_list none = []
  to_list (some m) = m ∷ []

  unfoldable pub play : List (Event p) → Channel p → Channel p × List (Message p)
  play [] c = (c, [])
  play (Event.sends m ∷ es) c = play es (send m c)
  play (Event.receives ∷ es) c =
      let r = receive c in let rest = play es r.0 in (rest.0, to_list r.1 ++ rest.1)

-- `get_change` aside, the counters lose nothing.
record IsExact (p : Lib) (c : Channel p) : Type 0 where
  pub messages : c.flow.pushed ≡ c.flow.taken + length (waiting c)
  pub changes : c.flow.pushed_changes ≡ c.flow.taken_changes + sum_changes (waiting c)
  pub settled : c.flow.settled ≤ c.flow.taken
  pub settled_changes : c.flow.settled_changes ≤ c.flow.taken_changes

count_unsynced-length :
    (ls : List Listener) (n : ℕ) → count_unsynced ls n ≡ n + (if length ls == 0 then 1 else 0)
count_unsynced-length [] n = omega arith
count_unsynced-length (l ∷ ls) n = ground arith

module _ {p : Lib} where
  received-IsExact :
      (c : Channel p) (o : Option (p.channels.Chan (Message p) × Message p))
      → IsNext c o
      → IsExact p c
      → IsExact p (received (record c { flow = on_wait c.flow }) o).0
  unfolding on_wait on_take
  received-IsExact c none e x = record {
    messages = x.messages;
    changes = x.changes;
    settled = ground (arith, x.settled);
    settled_changes = ground (arith, x.settled_changes);
  }
  received-IsExact c (some r) e x = record {
    messages = omega (arith, x.messages, ap length e);
    changes = omega (arith, x.changes, ap sum_changes e);
    settled = ground (arith, x.settled);
    settled_changes = ground (arith, x.settled_changes);
  }

  send-IsExact : (m : Message p) (c : Channel p) → IsExact p c → IsExact p (send m c)
  unfolding send on_push
  send-IsExact m c x =
      let (count, changes) = waiting-send m c in
      record {
        messages = omega (arith, x.messages, count);
        changes = omega (arith, x.changes, changes);
        settled = x.settled;
        settled_changes = x.settled_changes;
      }

  play-IsExact : (es : List (Event p)) (c : Channel p) → IsExact p c → IsExact p (play es c).0
  unfolding play receive
  play-IsExact [] c x = x
  play-IsExact (Event.sends m ∷ es) c x = play-IsExact es (send m c) (send-IsExact m c x)
  play-IsExact (Event.receives ∷ es) c x =
      play-IsExact es (receive c).0
        (received-IsExact c (p.channels.recv c.ends) (p.is_fifo.contents_recv c.ends) x)

  settles :
      (c : Channel p) (o : Option (p.channels.Chan (Message p) × Message p))
      → IsExact p c
      → queued_changes (mark (received (record c { flow = on_wait c.flow }) o).0.flow)
        ≡ sum_changes (waiting c)
  unfolding on_wait on_take mark
  settles c none x = ground (arith, x.changes, x.settled_changes)
  settles c (some r) x = ground (arith, x.changes, x.settled_changes)

  -- From a new channel on, first in first out, whatever was sent and received: once the consumer comes back, the
  -- queued changes are those of the message that it takes then and of those that wait behind it.
  pub receive-queued_changes :
      (es : List (Event p))
      → (let c = (play es new_channel).0 in
          let r = receive c in queued_changes (mark r.0.flow) ≡ sum_changes (waiting c))
  unfolding receive
  receive-queued_changes es =
      let c = (play es new_channel).0 in
      let empty : p.is_fifo.contents {A = Message p} p.channels.unbounded ≡ [] =
        p.is_fifo.contents_unbounded in
      settles c (p.channels.recv c.ends) (
        play-IsExact es new_channel (record {
          messages = omega (arith, ap length empty);
          changes = omega (arith, ap sum_changes empty);
          settled = omega arith;
          settled_changes = omega arith;
        }))

  -- The loop over listeners with different ids, each with a channel.
  pub send_all-each :
      (m : Message p) (ls : List Listener) (queues : NatMap (Channel p))
      → DistinctIds ls
      → ((id : ℕ) → has_id ls id ≡ true → is_some (queues id) ≡ true)
      → (after : NatMap (Channel p)) × (send_all m ls queues ≡ ok after)
        × ((id : ℕ) → has_id ls id ≡ false → after id ≡ queues id)
        × ((id : ℕ) (c : Channel p)
            → has_id ls id ≡ true
            → queues id ≡ some c
            → after id ≡ some (send m c))
  unfolding send_all send_to
  send_all-each m [] queues d h = (queues, refl, λ id k. refl, λ id c k e. cc)
  send_all-each m (l ∷ ls) queues d h = elim (Option-cases (queues l.id)) [
    | inl e ↦ absurd (ground (arith, h l.id, ==_refl l.id))
    | inr (c, e) ↦
        let (after, ran, others, mine) =
          send_all-each m ls (insert l.id (send m c) queues) d.1 (λ id k. ground (arith, h id)) in
        (
          after,
          rw (e, send_all) ran,
          λ id k. others id (ground arith) ∙ ground arith,
          λ id c' k e'. elim (Bool-cases (l.id == id)) [
            | inl s ↦ ground (arith, others id, d.0)
            | inr s ↦ mine id c' (ground arith) (ground arith)
          ],
        )
  ]

  -- A message for all goes, under the invariant, to the channel of each listener once, behind what
  -- waits there, and nothing else changes but the count of unsynced changes, which grows by 1
  -- exactly where there is no listener.
  pub push-each :
      (m : Message p) (q : Queue p)
      → Inv p q
      → (q' : Queue p) × (push m none q ≡ ok q')
        × (q'.listeners ≡ q.listeners)
        × ((id : ℕ) → q'.queues id ≡ map_option (send m) (q.queues id))
        × (q'.unsynced_changes ≡ q.unsynced_changes + (if length q.listeners == 0 then 1 else 0))
  unfolding push
  push-each m q v =
      let (after, ran, others, mine) =
        send_all-each m q.listeners q.queues v.distinct (λ id k. v.served id ∙ k) in
      (
        record q {
          queues = after;
          unsynced_changes = count_unsynced q.listeners q.unsynced_changes;
        },
        rw ran refl,
        refl,
        λ id. elim (Option-cases (q.queues id)) [
          | inl e ↦ rw e (others id (ground (arith, v.served id)) ∙ e)
          | inr (c, e) ↦ rw e (mine id c (ground (arith, v.served id)) e)
        ],
        count_unsynced-length q.listeners q.unsynced_changes,
      )
