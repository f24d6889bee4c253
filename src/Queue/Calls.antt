-- ===== src/Queue/Calls.antt =====
-- Each call on the queues keeps the invariant and does not panic.
use wsync.Prelude.{
  ℕ, ◌≡◌, refl, true, false, Option, none, some, List, [], ◌∷◌, ◌++◌, inl, inr, arith, NatMap,
  insert, Option-cases, Bool-cases, ◌==◌, ==_refl, All, Text, codes, decimal,
}
use wsync.Queue.{
  Lib, Message, disconnect_client, Listener, FlowMark, Channel, Queue, Result, ok, not_subscribed,
  already_subscribed, panic, push, send_all, send_to, send, receive, receive_change, get,
  get_timeout, get_change, confirm, subscribe, subscribe_internal, unsubscribe, disconnect,
  is_subscribed, new_channel, add_channel, add_listener,
}
use wsync.Queue.FreeId.{free_id-unused}
use wsync.Queue.Invariant.{
  has_id, has_id-append, has_id-retain, DistinctIds-append, DistinctIds-retain, IsAccounted, Inv,
  insert-Inv, send-IsAccounted, receive-IsAccounted, receive_change-IsAccounted,
  new_channel-IsAccounted,
}

-- A queue that satisfies the invariant, or an error that leaves the queue as it was; no panic.
abbrev pub Succeeds {ℓ} : {A : Type ℓ} → (A → Type 0) → Result A → Type 0
Succeeds P (ok a) = P a
Succeeds P not_subscribed = Unit
Succeeds P already_subscribed = Unit
Succeeds P panic = ⊥

All-has_id :
    (xs ls : List Listener)
    → ((l : Listener) → has_id xs l.id ≡ true → has_id ls l.id ≡ true)
    → All (λ l. has_id ls l.id ≡ true) xs
All-has_id [] ls h = tt
All-has_id (x ∷ xs) ls h =
    (h x (ground (arith, ==_refl x.id)), All-has_id xs ls (λ l k. h l (ground arith)))

module _ {p : Lib} where
  subscribed-Inv :
      (q : Queue p) (l : Listener)
      → has_id q.listeners l.id ≡ false
      → Inv p q
      → Inv p (add_channel l.id (add_listener l q))
  unfolding add_channel add_listener
  subscribed-Inv q l f v = record {
    distinct = DistinctIds-append q.listeners l f v.distinct;
    served = λ j. ground (arith, v.served j, has_id-append q.listeners l j);
    accounted = λ j d e. elim (Bool-cases (l.id == j)) [
      | inl k ↦ let same : d ≡ new_channel = ground arith in rw same new_channel-IsAccounted
      | inr k ↦ v.accounted j d (ground arith)
    ];
  }

  pub subscribe-Inv :
      (id : ℕ) (name : Text) (q : Queue p) → Inv p q → Succeeds (Inv p) (subscribe id name q)
  unfolding subscribe is_subscribed
  subscribe-Inv id name q v = elim (Bool-cases (has_id q.listeners id)) [
    | inl e ↦ rw e tt
    | inr e ↦ rw e (subscribed-Inv q (record { id = id; name = name; is_internal = false }) e v)
  ]

  pub unsubscribe-Inv : (id : ℕ) (q : Queue p) → Inv p q → Succeeds (Inv p) (unsubscribe id q)
  unfolding unsubscribe is_subscribed
  unsubscribe-Inv id q v = elim (Bool-cases (has_id q.listeners id)) [
    | inl e ↦ rw e (record {
      distinct = DistinctIds-retain q.listeners id v.distinct;
      served = λ j. ground (arith, v.served j, has_id-retain q.listeners id j);
      accounted = λ j d k. v.accounted j d (ground arith);
    })
    | inr e ↦ rw e tt
  ]

  pub send_to-Inv :
      (m : Message p) (id : ℕ) (q : Queue p)
      → has_id q.listeners id ≡ true
      → Inv p q
      → (queues : NatMap (Channel p)) × (send_to m id q.queues ≡ ok queues)
        × Inv p (record q { queues = queues })
  unfolding send_to
  send_to-Inv m id q h v = elim (Option-cases (q.queues id)) [
    | inl e ↦ absurd (ground (arith, v.served id))
    | inr (c, e) ↦ (
      insert id (send m c) q.queues,
      rw (e, send_to) refl,
      insert-Inv q id (send m c) (rw e refl) (send-IsAccounted m c (v.accounted id c e)) v,
    )
  ]

  -- The loop over the listeners, when each of them has a channel.
  send_all-Inv :
      (m : Message p) (ls : List Listener) (q : Queue p)
      → All (λ l. has_id q.listeners l.id ≡ true) ls
      → Inv p q
      → (queues : NatMap (Channel p)) × (send_all m ls q.queues ≡ ok queues)
        × Inv p (record q { queues = queues })
  unfolding send_all
  send_all-Inv m [] q h v = (q.queues, refl, v)
  send_all-Inv m (l ∷ ls) q h v =
      let (queues, sent, w) = send_to-Inv m l.id q h.0 v in
      let (queues', rest, w') = send_all-Inv m ls (record q { queues = queues }) h.1 w in
      (queues', rw (sent, send_all) rest, w')

  recount : (q : Queue p) (n : ℕ) → Inv p q → Inv p (record q { unsynced_changes = n })
  recount q n v = record { distinct = v.distinct; served = v.served; accounted = v.accounted }

  pub push-Inv :
      (m : Message p) (target : Option ℕ) (q : Queue p)
      → Inv p q
      → Succeeds (Inv p) (push m target q)
  unfolding push is_subscribed
  push-Inv m (some id) q v = elim (Bool-cases (has_id q.listeners id)) [
    | inl e ↦ let (queues, sent, w) = send_to-Inv m id q e v in rw (e, sent) w
    | inr e ↦ rw e tt
  ]
  push-Inv m none q v =
      let (queues, sent, w) =
        send_all-Inv m q.listeners q (All-has_id q.listeners q.listeners (λ l k. k)) v in
      rw sent (recount (record q { queues = queues }) _ w)

  pub disconnect-Inv :
      (message : Text) (id : ℕ) (q : Queue p) → Inv p q → Succeeds (Inv p) (disconnect message id q)
  unfolding disconnect is_subscribed
  disconnect-Inv message id q v = elim (Bool-cases (has_id q.listeners id)) [
    | inl e ↦ rw e (push-Inv (disconnect_client message) (some id) q v)
    | inr e ↦ rw e tt
  ]

  pub confirm-Inv : (id : ℕ) (k : FlowMark) (q : Queue p) → Inv p q → Inv p (confirm id k q)
  unfolding confirm
  confirm-Inv id k q v = elim (Option-cases (q.queues id)) [
    | inl e ↦ rw (e, confirm) v
    | inr (c, e) ↦
        let a : IsAccounted p c = v.accounted id c e in
        rw (e, confirm)
          (insert-Inv q id _ (rw e refl)
            (record {
              handled = a.handled;
              handled_changes = a.handled_changes;
              waits = a.waits;
              waits_changes = a.waits_changes;
            })
            v)
  ]

  abbrev pub Kept : Queue p × Option (Message p) → Type 0
  Kept r = Inv p r.0

  pub get-Inv : (id : ℕ) (q : Queue p) → Inv p q → Succeeds Kept (get id q)
  unfolding get is_subscribed
  get-Inv id q v = elim (Bool-cases (has_id q.listeners id)) [
    | inl h ↦ elim (Option-cases (q.queues id)) [
      | inl e ↦ absurd (ground (arith, v.served id))
      | inr (c, e) ↦
          rw (h, e)
            (insert-Inv q id (receive c).0 (rw e refl) (receive-IsAccounted c (v.accounted id c e))
              v)
    ]
    | inr h ↦ rw h tt
  ]

  pub get_timeout-Inv : (id : ℕ) (q : Queue p) → Inv p q → Succeeds Kept (get_timeout id q)
  unfolding get_timeout is_subscribed
  get_timeout-Inv id q v = elim (Bool-cases (has_id q.listeners id)) [
    | inl h ↦ elim (Option-cases (q.queues id)) [
      | inl e ↦ absurd (ground (arith, v.served id))
      | inr (c, e) ↦
          rw (h, e)
            (insert-Inv q id (receive c).0 (rw e refl) (receive-IsAccounted c (v.accounted id c e))
              v)
    ]
    | inr h ↦ rw h tt
  ]

  pub get_change-Inv : (id : ℕ) (q : Queue p) → Inv p q → Succeeds Kept (get_change id q)
  unfolding get_change is_subscribed
  get_change-Inv id q v = elim (Bool-cases (has_id q.listeners id)) [
    | inl h ↦ elim (Option-cases (q.queues id)) [
      | inl e ↦ absurd (ground (arith, v.served id))
      | inr (c, e) ↦
          rw (h, e)
            (insert-Inv q id (receive_change c).0 (rw e refl)
              (receive_change-IsAccounted c (v.accounted id c e)) v)
    ]
    | inr h ↦ rw h tt
  ]

  pub subscribe_internal-Inv :
      (q : Queue p) → Inv p q → (q' : Queue p) × (subscribe_internal q ≡ some q') × Inv p q'
  unfolding subscribe_internal
  subscribe_internal-Inv q v =
      let (j, found, free) = free_id-unused q in
      (
        _,
        rw (found, subscribe_internal) refl,
        subscribed-Inv q
            (record { id = j; name = codes "Internal listener #" ++ decimal j; is_internal = true })
            free v,
      )
