-- ===== src/Queue/Invariant.antt =====
-- What holds of the queues between two calls: the listeners have different ids, exactly the
-- listeners have a channel, and the counters of each channel are in order.
use wsync.Prelude.{
  ℕ, zero, suc, ◌+◌, ◌≤◌, ◌≡◌, refl, ap, ◌∙◌, Option, none, Option-cases, Bool, true, false, not,
  some, List, [], ◌∷◌, ◌++◌, inl, inr, arith, any, retain, length, length-append, is_some, insert,
  Bool-cases, ◌==◌, if◌then◌else◌,
}
use wsync.Queue.{
  Lib, Message, Listener, Flow, Channel, Queue, change_count, is_change, uncons, received, on_push,
  on_take, on_wait, send, receive, receive_change, first_change, new_queue, new_channel,
}

abbrev pub has_id : List Listener → ℕ → Bool
has_id ls id = any (λ l. l.id == id) ls

abbrev pub DistinctIds : List Listener → Type 0
DistinctIds [] = Unit
DistinctIds (l ∷ ls) = (has_id ls l.id ≡ false) × DistinctIds ls

module _ {p : Lib} where
  abbrev pub sum_changes : List (Message p) → ℕ
  sum_changes [] = 0
  sum_changes (m ∷ ms) = change_count m + sum_changes ms

  -- The messages that wait, the oldest first.
  abbrev pub waiting : Channel p → List (Message p)
  waiting c = p.is_fifo.contents c.ends

-- Nothing is handled before it was taken, nor taken before it was pushed; what waits was pushed
-- and not taken.
pub record IsAccounted (p : Lib) (c : Channel p) : Type 0 where
  pub handled : c.flow.settled ≤ c.flow.taken
  pub handled_changes : c.flow.settled_changes ≤ c.flow.taken_changes
  pub waits : c.flow.taken + length (waiting c) ≤ c.flow.pushed
  pub waits_changes : c.flow.taken_changes + sum_changes (waiting c) ≤ c.flow.pushed_changes

pub record Inv (p : Lib) (q : Queue p) : Type 0 where
  pub distinct : DistinctIds q.listeners
  pub served : (id : ℕ) → is_some (q.queues id) ≡ has_id q.listeners id
  pub accounted : (id : ℕ) (c : Channel p) → q.queues id ≡ some c → IsAccounted p c

pub has_id-append :
    (ls : List Listener) (l : Listener) (id : ℕ)
    → has_id (ls ++ l ∷ []) id ≡ (if has_id ls id then true else (l.id == id))
has_id-append [] l id = ground arith
has_id-append (k ∷ ls) l id = ground (arith, has_id-append ls l id)

pub has_id-retain :
    (ls : List Listener) (id j : ℕ)
    → has_id (retain (λ l. not (l.id == id)) ls) j ≡ (if id == j then false else has_id ls j)
has_id-retain [] id j = ground arith
has_id-retain (k ∷ ls) id j = ground (arith, has_id-retain ls id j)

pub DistinctIds-append :
    (ls : List Listener) (l : Listener)
    → has_id ls l.id ≡ false
    → DistinctIds ls
    → DistinctIds (ls ++ l ∷ [])
DistinctIds-append [] l f d = (refl, tt)
DistinctIds-append (k ∷ ls) l f d =
    (ground (arith, has_id-append ls l k.id), DistinctIds-append ls l (ground arith) d.1)

pub DistinctIds-retain :
    (ls : List Listener) (id : ℕ) → DistinctIds ls → DistinctIds (retain (λ l. not (l.id == id)) ls)
DistinctIds-retain [] id d = tt
DistinctIds-retain (k ∷ ls) id d =
    ground (arith, has_id-retain ls id k.id, DistinctIds-retain ls id d.1)

module _ {p : Lib} where
  pub sum_changes-append :
      (xs ys : List (Message p)) → sum_changes (xs ++ ys) ≡ sum_changes xs + sum_changes ys
  sum_changes-append [] ys = omega arith
  sum_changes-append (x ∷ xs) ys = omega (arith, sum_changes-append xs ys)

  pub waiting-send :
      (m : Message p) (c : Channel p)
      → (length (waiting (send m c)) ≡ length (waiting c) + 1)
        × (sum_changes (waiting (send m c)) ≡ sum_changes (waiting c) + change_count m)
  unfolding send
  waiting-send m c =
      let sent : waiting (send m c) ≡ waiting c ++ m ∷ [] = p.is_fifo.contents_send m c.ends in
      (
        ap length sent ∙ omega (arith, length-append (waiting c) (m ∷ [])),
        ap sum_changes sent ∙ omega (arith, sum_changes-append (waiting c) (m ∷ [])),
      )

  pub send-IsAccounted :
      (m : Message p) (c : Channel p) → IsAccounted p c → IsAccounted p (send m c)
  unfolding send on_push
  send-IsAccounted m c a =
      let (count, changes) = waiting-send m c in
      record {
        handled = a.handled;
        handled_changes = a.handled_changes;
        waits = omega (arith, a.waits, count);
        waits_changes = omega (arith, a.waits_changes, changes);
      }

  -- `IsNext`: what waits is the message that a receive takes, and those behind it.
  abbrev pub IsNext : Channel p → Option (p.channels.Chan (Message p) × Message p) → Type 0
  IsNext c o = waiting c ≡ uncons p.is_fifo.contents o

  received-IsAccounted :
      (c : Channel p) (o : Option (p.channels.Chan (Message p) × Message p))
      → IsNext c o
      → IsAccounted p c
      → IsAccounted p (received (record c { flow = on_wait c.flow }) o).0
  unfolding on_wait on_take
  received-IsAccounted c none e a = record {
    handled = ground (arith, a.handled);
    handled_changes = ground (arith, a.handled_changes);
    waits = a.waits;
    waits_changes = a.waits_changes;
  }
  received-IsAccounted c (some r) e a = record {
    handled = ground (arith, a.handled);
    handled_changes = ground (arith, a.handled_changes);
    waits = omega (arith, a.waits, ap length e);
    waits_changes = omega (arith, a.waits_changes, ap sum_changes e);
  }

  pub receive-IsAccounted : (c : Channel p) → IsAccounted p c → IsAccounted p (receive c).0
  unfolding receive
  receive-IsAccounted c a =
      received-IsAccounted c (p.channels.recv c.ends) (p.is_fifo.contents_recv c.ends) a

  -- The loop of `get_change`: the messages that it drops no longer wait, and with as many rounds as
  -- messages wait it finds a change or leaves nothing.
  first_change_lem :
      (fuel : ℕ) (c : Channel p)
      → ((first_change fuel c).0.flow ≡ c.flow)
        × (length (waiting (first_change fuel c).0) ≤ length (waiting c))
        × (sum_changes (waiting (first_change fuel c).0) ≤ sum_changes (waiting c))
        × (length (waiting c) ≤ fuel
            → (first_change fuel c).1 ≡ none
            → length (waiting (first_change fuel c).0) ≡ 0)
  unfolding first_change
  first_change_lem zero c = (refl, omega arith, omega arith, λ h n. omega (arith, h))
  first_change_lem (suc fuel) c =
      let e = p.is_fifo.contents_recv c.ends in
      elim (Option-cases (p.channels.recv c.ends)) [
        | inl n ↦
            let empty : waiting c ≡ [] = e ∙ ap (uncons p.is_fifo.contents) n in
            rw (first_change, n) (refl, omega arith, omega arith, λ h k. ap length empty)
        | inr (r, n) ↦
            let c' : Channel p = record c { ends = r.0 } in
            let next : waiting c ≡ r.1 ∷ waiting c' = e ∙ ap (uncons p.is_fifo.contents) n in
            let count : length (waiting c) ≡ suc (length (waiting c')) = ap length next in
            let changes : sum_changes (waiting c) ≡ change_count r.1 + sum_changes (waiting c') =
              ap sum_changes next in
            let (flow, fewer, smaller, enough) = first_change_lem fuel c' in
            elim (Bool-cases (is_change r.1)) [
              | inl y ↦
                  rw (first_change, n, y)
                    (refl, omega (arith, count), omega (arith, changes), λ h k. absurd (cc (k)))
              | inr f ↦
                  rw (first_change, n, f)
                    (
                      flow,
                      omega (arith, count, fewer),
                      omega (arith, changes, smaller),
                      λ h k. enough (omega (arith, h, count)) k,
                    )
            ]
      ]

  pub receive_change-IsAccounted :
      (c : Channel p) → IsAccounted p c → IsAccounted p (receive_change c).0
  unfolding receive_change
  receive_change-IsAccounted c a =
      let (flow, count, changes, enough) = first_change_lem (p.channels.len c.ends) c in
      let settled = ap (λ (f : Flow). f.settled) flow in
      let settled_changes = ap (λ (f : Flow). f.settled_changes) flow in
      let taken = ap (λ (f : Flow). f.taken) flow in
      let taken_changes = ap (λ (f : Flow). f.taken_changes) flow in
      let pushed = ap (λ (f : Flow). f.pushed) flow in
      let pushed_changes = ap (λ (f : Flow). f.pushed_changes) flow in
      record {
        handled = omega (arith, a.handled, settled, taken);
        handled_changes = omega (arith, a.handled_changes, settled_changes, taken_changes);
        waits = omega (arith, a.waits, count, taken, pushed);
        waits_changes = omega (arith, a.waits_changes, changes, taken_changes, pushed_changes);
      }

  pub new_channel-IsAccounted : IsAccounted p new_channel
  new_channel-IsAccounted =
      let empty : p.is_fifo.contents {A = Message p} p.channels.unbounded ≡ [] =
        p.is_fifo.contents_unbounded in
      record {
        handled = omega arith;
        handled_changes = omega arith;
        waits = omega (arith, ap length empty);
        waits_changes = omega (arith, ap sum_changes empty);
      }

  pub new_queue-Inv : Inv p new_queue
  unfolding new_queue
  new_queue-Inv = record { distinct = tt; served = λ id. refl; accounted = λ id c e. cc }

  -- A channel that is there is replaced by one whose counters are in order.
  pub insert-Inv :
      (q : Queue p) (id : ℕ) (c : Channel p)
      → is_some (q.queues id) ≡ true
      → IsAccounted p c
      → Inv p q
      → Inv p (record q { queues = insert id c q.queues })
  insert-Inv q id c h a v = record {
    distinct = v.distinct;
    served = λ j. ground (arith, v.served j);
    accounted = λ j d e. elim (Bool-cases (id == j)) [
      | inl k ↦ let same : d ≡ c = ground arith in rw same a
      | inr k ↦ v.accounted j d (ground arith)
    ];
  }
