-- ===== src/Queue.antt =====
-- src/core/queue.rs: the message queues of the clients, with the delivery accounting of each. The
-- counters of 64 bits count messages and changes, and are left unbounded; so is `unsynced_changes`.
-- An `unwrap` of a missing channel is the result `panic`.
pub mod Fifo
pub mod Invariant
pub mod FreeId
pub mod Calls
pub mod Run
pub mod Delivery
pub mod Races
mod Tests
use wsync.Prelude.{
  ℕ, zero, suc, ◌≡◌, ◌+◌, ◌-◌, Bool, true, false, not, Option, none, some, List, [], ◌∷◌, ◌++◌,
  Text, codes, decimal, max, ◌==◌, if◌then◌else◌, any, retain, length, find_first, NatMap,
  empty_map, insert, remove,
}

-- What the code takes from crossbeam_channel: `unbounded`, `send` while the receiver is held, and `recv`
-- or `recv_timeout`, which is `none` where it waits until the message of a later call or its time is over.
pub record Crossbeam : Type 1 where
  pub Chan : Type 0 → Type 0
  pub unbounded : {A : Type 0} → Chan A
  pub send_to_chan : {A : Type 0} → A → Chan A → Chan A
  pub recv : {A : Type 0} → Chan A → Option (Chan A × A)
  pub len : {A : Type 0} → Chan A → ℕ

abbrev pub uncons : {C A : Type 0} → (C → List A) → Option (C × A) → List A
uncons contents none = []
uncons contents (some r) = r.1 ∷ contents r.0

-- What is documented of it: a message waits behind those that were sent before, and the oldest one that
-- waits is received.
pub record IsFifo (x : Crossbeam) : Type 1 where
  pub contents : {A : Type 0} → x.Chan A → List A
  pub contents_unbounded : {A : Type 0} → contents {A = A} x.unbounded ≡ []
  pub contents_send :
      {A : Type 0} (m : A) (c : x.Chan A) → contents (x.send_to_chan m c) ≡ contents c ++ m ∷ []
  pub contents_recv : {A : Type 0} (c : x.Chan A) → contents c ≡ uncons contents (x.recv c)
  pub contents_len : {A : Type 0} (c : x.Chan A) → x.len c ≡ length (contents c)

-- The channels, and what a message carries and the queue does not look into.
pub record Lib : Type 1 where
  pub Added : Type 0
  pub Updated : Type 0
  pub Details : Type 0
  pub channels : Crossbeam
  pub is_fifo : IsFifo channels

-- core/changes.rs
pub record Changes (p : Lib) : Type 0 where
  pub additions : List p.Added
  pub updates : List p.Updated
  pub removals : List ℕ

-- server/mod.rs
pub data Message (p : Lib) : Type 0 where
  sync_changes : Changes p → Message p
  syncback_changes : Message p
  sync_details : p.Details → Message p
  execute_code disconnect_client : Text → Message p

pub record Listener : Type 0 where
  pub id : ℕ
  pub name : Text
  pub is_internal : Bool

pub record Flow : Type 0 where
  pub pushed : ℕ
  pub pushed_changes : ℕ
  pub taken : ℕ
  pub taken_changes : ℕ
  pub settled : ℕ
  pub settled_changes : ℕ
  pub confirmed_changes : ℕ

pub record FlowMark : Type 0 where
  pub pushed : ℕ
  pub pushed_changes : ℕ
  pub settled : ℕ
  pub settled_changes : ℕ
  pub confirmed_changes : ℕ

-- The sender and the receiver are the two ends of one channel.
pub record Channel (p : Lib) : Type 0 where
  pub ends : p.channels.Chan (Message p)
  pub flow : Flow

pub record Queue (p : Lib) : Type 0 where
  pub queues : NatMap (Channel p)
  pub listeners : List Listener
  pub unsynced_changes : ℕ

pub data Result {ℓ} (A : Type ℓ) : Type ℓ where
  ok : A → Result A
  not_subscribed already_subscribed panic : Result A

abbrev pub queued_changes : FlowMark → ℕ
queued_changes m = m.pushed_changes - m.settled_changes

abbrev pub unconfirmed_changes : FlowMark → ℕ
unconfirmed_changes m = m.settled_changes - m.confirmed_changes

unfoldable pub on_wait : Flow → Flow
on_wait f = record f {
  settled_changes = max f.settled_changes f.taken_changes;
  settled = max f.settled f.taken;
}

unfoldable pub mark : Flow → FlowMark
mark f = record {
  pushed = f.pushed;
  pushed_changes = f.pushed_changes;
  settled = f.settled;
  settled_changes = f.settled_changes;
  confirmed_changes = f.confirmed_changes;
}

abbrev pub new_flow : Flow
new_flow = record {
  pushed = 0;
  pushed_changes = 0;
  taken = 0;
  taken_changes = 0;
  settled = 0;
  settled_changes = 0;
  confirmed_changes = 0;
}

abbrev pub count_unsynced : List Listener → ℕ → ℕ
count_unsynced [] n = n + 1
count_unsynced (l ∷ ls) n = n

abbrev pub name_of : Option Listener → Option Text
name_of none = none
name_of (some l) = some l.name

module _ {p : Lib} where
  abbrev pub total : Changes p → ℕ
  total c = length c.additions + length c.updates + length c.removals

  unfoldable pub change_count : Message p → ℕ
  change_count (sync_changes c) = total c
  change_count _ = 0

  unfoldable pub is_change : Message p → Bool
  is_change (sync_changes c) = true
  is_change syncback_changes = true
  is_change _ = false

  unfoldable pub on_push : Message p → Flow → Flow
  on_push m f = record f {
    pushed_changes = f.pushed_changes + change_count m;
    pushed = f.pushed + 1;
  }

  unfoldable pub on_take : Message p → Flow → Flow
  on_take m f = record f { taken_changes = f.taken_changes + change_count m; taken = f.taken + 1 }

  abbrev pub new_channel : Channel p
  new_channel = record { ends = p.channels.unbounded; flow = new_flow }

  unfoldable pub is_subscribed : Queue p → ℕ → Bool
  is_subscribed q id = any (λ l. l.id == id) q.listeners

  -- `flow.on_push` and `sender.send`
  unfoldable pub send : Message p → Channel p → Channel p
  send m c = record { ends = p.channels.send_to_chan m c.ends; flow = on_push m c.flow }

  unfoldable pub send_to : Message p → ℕ → NatMap (Channel p) → Result (NatMap (Channel p))
  send_to m id queues = elim (queues id) [
    | none ↦ panic
    | some c ↦ ok (insert id (send m c) queues)
  ]

  -- The loop over the listeners.
  unfoldable pub send_all :
      Message p → List Listener → NatMap (Channel p) → Result (NatMap (Channel p))
  send_all m [] queues = ok queues
  send_all m (l ∷ ls) queues = elim (send_to m l.id queues) [
    | ok queues' ↦ send_all m ls queues'
    | not_subscribed ↦ not_subscribed
    | already_subscribed ↦ already_subscribed
    | panic ↦ panic
  ]

  abbrev pub with_queues : Queue p → Result (NatMap (Channel p)) → Result (Queue p)
  with_queues q (ok queues) = ok (record q { queues = queues })
  with_queues q not_subscribed = not_subscribed
  with_queues q already_subscribed = already_subscribed
  with_queues q panic = panic

  unfoldable pub push : Message p → Option ℕ → Queue p → Result (Queue p)
  push m (some id) q =
      if not (is_subscribed q id) then not_subscribed else with_queues q (send_to m id q.queues)
  push m none q =
      with_queues (record q { unsynced_changes = count_unsynced q.listeners q.unsynced_changes })
        (send_all m q.listeners q.queues)

  abbrev pub received :
      Channel p → Option (p.channels.Chan (Message p) × Message p) → Channel p × Option (Message p)
  received c none = (c, none)
  received c (some r) = (record { ends = r.0; flow = on_take r.1 c.flow }, some r.1)

  -- The consumer is back, then takes a message if there is one: `none` where `get` goes on waiting
  -- and where the time of `get_timeout` is over.
  unfoldable pub receive : Channel p → Channel p × Option (Message p)
  receive c = received (record c { flow = on_wait c.flow }) (p.channels.recv c.ends)

  abbrev pub store {ℓ} : {A : Type ℓ} → ℕ → Channel p × A → Queue p → Queue p × A
  store id r q = (record q { queues = insert id r.0 q.queues }, r.1)

  unfoldable pub get_timeout : ℕ → Queue p → Result (Queue p × Option (Message p))
  get_timeout id q =
      if not (is_subscribed q id)
      then not_subscribed
      else (elim (q.queues id) [ none ↦ panic | some c ↦ ok (store id (receive c) q) ])

  unfoldable pub get : ℕ → Queue p → Result (Queue p × Option (Message p))
  get id q =
      if not (is_subscribed q id)
      then not_subscribed
      else (elim (q.queues id) [ none ↦ panic | some c ↦ ok (store id (receive c) q) ])

  -- The loop of `get_change`: messages that are no change are dropped; `none` where it would go on
  -- waiting. As many rounds as messages wait are enough.
  unfoldable pub first_change : ℕ → Channel p → Channel p × Option (Message p)
  first_change zero c = (c, none)
  first_change (suc fuel) c = elim (p.channels.recv c.ends) [
    | none ↦ (c, none)
    | some r ↦
        let c' : Channel p = record c { ends = r.0 } in
        let rest = first_change fuel c' in if is_change r.1 then (c', some r.1) else rest
  ]

  unfoldable pub receive_change : Channel p → Channel p × Option (Message p)
  receive_change c = first_change (p.channels.len c.ends) c

  unfoldable pub get_change : ℕ → Queue p → Result (Queue p × Option (Message p))
  get_change id q =
      if not (is_subscribed q id)
      then not_subscribed
      else (elim (q.queues id) [ none ↦ panic | some c ↦ ok (store id (receive_change c) q) ])

  unfoldable pub flow_of : ℕ → Queue p → Option FlowMark
  flow_of id q = elim (q.queues id) [ none ↦ none | some c ↦ some (mark c.flow) ]

  unfoldable pub confirm : ℕ → FlowMark → Queue p → Queue p
  confirm id k q = elim (q.queues id) [
    | none ↦ q
    | some c ↦ record q {
      queues =
          insert id
            (record c {
              flow = record c.flow {
                confirmed_changes = max c.flow.confirmed_changes k.settled_changes;
              };
            })
            q.queues;
    }
  ]

  -- The two locked statements of `subscribe`, one after the other.
  unfoldable pub add_listener : Listener → Queue p → Queue p
  add_listener l q = record q { listeners = q.listeners ++ l ∷ [] }

  unfoldable pub add_channel : ℕ → Queue p → Queue p
  add_channel id q = record q { queues = insert id new_channel q.queues }

  unfoldable pub subscribe : ℕ → Text → Queue p → Result (Queue p)
  subscribe id name q =
      if is_subscribed q id
      then already_subscribed
      else ok
          (add_channel id (add_listener (record { id = id; name = name; is_internal = false }) q))

  -- The loop of `subscribe_internal`; one round more than there are listeners is enough.
  unfoldable pub free_id : ℕ → ℕ → Queue p → Option ℕ
  free_id zero id q = none
  free_id (suc fuel) id q =
      let rest = free_id fuel (id + 1) q in if is_subscribed q id then rest else some id

  unfoldable pub subscribe_internal : Queue p → Option (Queue p)
  subscribe_internal q = elim (free_id (suc (length q.listeners)) 0 q) [
    | none ↦ none
    | some id ↦ some (
        add_channel id (
          add_listener
            (record {
              id = id;
              name = codes "Internal listener #" ++ decimal id;
              is_internal = true;
            })
            q))
  ]

  unfoldable pub unsubscribe : ℕ → Queue p → Result (Queue p)
  unsubscribe id q =
      if not (is_subscribed q id)
      then not_subscribed
      else ok (record q {
        listeners = retain (λ l. not (l.id == id)) q.listeners;
        queues = remove id q.queues;
      })

  unfoldable pub disconnect : Text → ℕ → Queue p → Result (Queue p)
  disconnect message id q =
      if not (is_subscribed q id)
      then not_subscribed
      else push (disconnect_client message) (some id) q

  unfoldable pub get_first_non_internal_listener_name : Queue p → Option Text
  get_first_non_internal_listener_name q = name_of (find_first (λ l. not l.is_internal) q.listeners)

  unfoldable pub new_queue : Queue p
  new_queue = record { queues = empty_map; listeners = []; unsynced_changes = 0 }
