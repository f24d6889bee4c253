-- ===== src/PluginSlot/Ownership.antt =====
-- The plugin in the slot is subscribed, and no other client than it and the internal listeners is.
use wsync.Prelude.{
  ℕ, ◌≡◌, refl, Bool, true, not, Option, none, some, List, [], ◌∷◌, ◌++◌, ◌==◌, ==_refl, opt_eq,
  if◌then◌else◌, all, retain, inl, inr, arith, Bool-cases,
}
use wsync.Queue.{
  Lib, Queue, Listener, Result, ok, not_subscribed, already_subscribed, panic, unsubscribe,
  is_subscribed,
}
use wsync.Queue.Invariant.{Inv, has_id, has_id-retain}
use wsync.Queue.Calls.{Succeeds, unsubscribe-Inv}
use wsync.PluginSlot.{PluginConn, WsState, is_stale, quiet, evict_stale_longpoll}

abbrev pub owner : Option PluginConn → Option ℕ
owner none = none
owner (some conn) = some conn.queue_id

-- A guest is a client that is subscribed and asks for the slot.
abbrev pub may_listen : Option ℕ → Option ℕ → Listener → Bool
may_listen o g l =
    if l.is_internal then true else (if opt_eq o (some l.id) then true else opt_eq g (some l.id))

abbrev pub listens : List Listener → Option ℕ → Bool
listens ls none = true
listens ls (some id) = has_id ls id

abbrev pub are_apart : Option ℕ → Option ℕ → Bool
are_apart o none = true
are_apart none (some g) = true
are_apart (some id) (some g) = not (id == g)

-- The owner of the slot and the guest are subscribed, they are two clients, and every other
-- listener is internal.
pub record Hosts (p : Lib) (g : Option ℕ) (s : WsState p) : Type 0 where
  pub sound : Inv p s.queue
  pub subscribed : listens s.queue.listeners (owner s.plugin) ≡ true
  pub waits : listens s.queue.listeners g ≡ true
  pub apart : are_apart (owner s.plugin) g ≡ true
  pub exclusive : all (may_listen (owner s.plugin) g) s.queue.listeners ≡ true

-- The owner of the slot is subscribed, and every other listener is internal.
abbrev pub IsOwned : (p : Lib) → WsState p → Type 0
IsOwned p s = Hosts p none s

owner_leaves :
    (id : ℕ) (g : Option ℕ) (ls : List Listener)
    → all (may_listen (some id) g) ls ≡ true
    → all (may_listen none g) (retain (λ l. not (l.id == id)) ls) ≡ true
owner_leaves id g [] h = refl
owner_leaves id g (l ∷ ls) h = ground (arith, owner_leaves id g ls)

pub guest_leaves :
    (o : Option ℕ) (id : ℕ) (ls : List Listener)
    → all (may_listen o (some id)) ls ≡ true
    → all (may_listen o none) (retain (λ l. not (l.id == id)) ls) ≡ true
guest_leaves o id [] h = refl
guest_leaves o id (l ∷ ls) h = ground (arith, guest_leaves o id ls)

pub any_leaves :
    (o : Option ℕ) (id : ℕ) (ls : List Listener)
    → all (may_listen o none) ls ≡ true
    → all (may_listen o none) (retain (λ l. not (l.id == id)) ls) ≡ true
any_leaves o id [] h = refl
any_leaves o id (l ∷ ls) h = ground (arith, any_leaves o id ls)

pub guest_enters :
    (o : Option ℕ) (l : Listener) (ls : List Listener)
    → all (may_listen o none) ls ≡ true
    → all (may_listen o (some l.id)) (ls ++ l ∷ []) ≡ true
guest_enters o l [] h = ground (arith, ==_refl l.id)
guest_enters o l (k ∷ ls) h = ground (arith, guest_enters o l ls)

pub guest_owns :
    (id : ℕ) (ls : List Listener)
    → all (may_listen none (some id)) ls ≡ true
    → all (may_listen (some id) none) ls ≡ true
guest_owns id [] h = refl
guest_owns id (l ∷ ls) h = ground (arith, guest_owns id ls)

module _ {p : Lib} where
  pub quiet-Inv :
      (q : Queue p) (r : Result (Queue p)) → Inv p q → Succeeds (Inv p) r → Inv p (quiet q r)
  unfolding quiet
  quiet-Inv q (ok q') v w = w
  quiet-Inv q not_subscribed v w = v
  quiet-Inv q already_subscribed v w = v
  quiet-Inv q panic v w = v

  -- Where a client is subscribed, it is after `unsubscribe` the one that is gone.
  unfoldable pub leave : ℕ → Queue p → Queue p
  leave id q = quiet q (unsubscribe id q)

  pub leave-Inv : (id : ℕ) (q : Queue p) → Inv p q → Inv p (leave id q)
  unfolding leave
  leave-Inv id q v = quiet-Inv q (unsubscribe id q) v (unsubscribe-Inv id q v)

  pub listeners-leave :
      (id : ℕ) (q : Queue p)
      → has_id q.listeners id ≡ true
      → (leave id q).listeners ≡ retain (λ l. not (l.id == id)) q.listeners
  unfolding leave quiet unsubscribe is_subscribed
  listeners-leave id q e = rw e refl

  pub owner_evicted :
      (conn : PluginConn) (q : Queue p) (g : Option ℕ)
      → Hosts p g (record { queue = q; plugin = some conn })
      → Hosts p g (record { queue = leave conn.queue_id q; plugin = none })
  owner_evicted conn q none h = record {
    sound = leave-Inv conn.queue_id q h.sound;
    subscribed = refl;
    waits = refl;
    apart = refl;
    exclusive =
        rw (listeners-leave conn.queue_id q h.subscribed)
          (owner_leaves conn.queue_id none q.listeners h.exclusive);
  }
  owner_evicted conn q (some g) h = record {
    sound = leave-Inv conn.queue_id q h.sound;
    subscribed = refl;
    waits =
        rw (listeners-leave conn.queue_id q h.subscribed)
          (ground (arith, has_id-retain q.listeners conn.queue_id g, h.apart, h.waits));
    apart = refl;
    exclusive =
        rw (listeners-leave conn.queue_id q h.subscribed)
          (owner_leaves conn.queue_id (some g) q.listeners h.exclusive);
  }

  pub evict-Hosts :
      (now : ℕ) (q : Queue p) (o : Option PluginConn) (g : Option ℕ)
      → Hosts p g (record { queue = q; plugin = o })
      → Hosts p g (evict_stale_longpoll now (record { queue = q; plugin = o }))
  unfolding evict_stale_longpoll leave
  evict-Hosts now q none g h = h
  evict-Hosts now q (some conn) g h = elim (Bool-cases (is_stale now conn)) [
    | inl e ↦ rw e (owner_evicted conn q g h)
    | inr e ↦ rw e h
  ]
