-- ===== src/PluginSlot/Departure.antt =====
-- A plugin that polls, that leaves, or whose connection ends.
use wsync.Prelude.{
  ℕ, ◌≡◌, refl, sym, true, false, Option, none, some, Text, ◌==◌, ==_iff, if◌then◌else◌, inl, inr,
  arith, Bool-cases, Option-cases, codes, NatMap, insert,
}
use wsync.Queue.{
  Lib, Queue, ok, unsubscribe, disconnect, is_subscribed, get_timeout, Message, Channel,
  disconnect_client, push, receive,
}
use wsync.Queue.Invariant.{Inv, insert-Inv, receive-IsAccounted, has_id, has_id-retain}
use wsync.Queue.Calls.{send_to-Inv}
use wsync.PluginSlot.{
  PluginConn, WsState, quiet, release_plugin, touch_longpoll, quiet_or_panic, cleanup_plugin,
  unsubscribe_route, read_route,
}
use wsync.PluginSlot.Ownership.{
  IsOwned, any_leaves, leave, leave-Inv, listeners-leave, owner_evicted,
}

freed : ℕ → Option PluginConn → Option PluginConn
freed id none = none
freed id (some conn) = if conn.queue_id == id then none else some conn

module _ {p : Lib} where
  touches :
      (now id : ℕ) (q : Queue p) (o : Option PluginConn)
      → IsOwned p (record { queue = q; plugin = o })
      → IsOwned p (touch_longpoll now id (record { queue = q; plugin = o }))
  unfolding touch_longpoll
  touches now id q none h = h
  touches now id q (some conn) h = elim (Bool-cases (conn.queue_id == id)) [
    | inl e ↦ rw e (record {
      sound = h.sound;
      subscribed = h.subscribed;
      waits = refl;
      apart = refl;
      exclusive = h.exclusive;
    })
    | inr e ↦ rw e h
  ]

  pub touch-IsOwned :
      (now id : ℕ) (s : WsState p) → IsOwned p s → IsOwned p (touch_longpoll now id s)
  touch-IsOwned now id s h = touches now id s.queue s.plugin h

  released :
      (id : ℕ) (q : Queue p) (o : Option PluginConn)
      → (release_plugin id (record { queue = q; plugin = o })).0
        ≡ record { queue = q; plugin = freed id o }
  unfolding release_plugin freed
  released id q none = refl
  released id q (some conn) = ground arith

  -- A client leaves that is subscribed, and the slot with it where it owns it.
  leaves :
      (id : ℕ) (q : Queue p) (o : Option PluginConn)
      → has_id q.listeners id ≡ true
      → IsOwned p (record { queue = q; plugin = o })
      → IsOwned p (record { queue = leave id q; plugin = freed id o })
  unfolding freed
  leaves id q none e h = record {
    sound = leave-Inv id q h.sound;
    subscribed = refl;
    waits = refl;
    apart = refl;
    exclusive = rw (listeners-leave id q e) (any_leaves none id q.listeners h.exclusive);
  }
  leaves id q (some conn) e h = elim (Bool-cases (conn.queue_id == id)) [
    | inl k ↦
        let same : conn.queue_id ≡ id = (==_iff conn.queue_id id).0 k in
        rw (k, freed, sym same) (owner_evicted conn q none h)
    | inr k ↦
        rw (k, freed)
          (record {
            sound = leave-Inv id q h.sound;
            subscribed =
                rw (listeners-leave id q e)
                  (ground (arith, has_id-retain q.listeners id conn.queue_id, h.subscribed));
            waits = refl;
            apart = refl;
            exclusive =
                rw (listeners-leave id q e)
                  (any_leaves (some conn.queue_id) id q.listeners h.exclusive);
          })
  ]

  pub unsubscribe_route-IsOwned :
      (id : ℕ) (s : WsState p) → IsOwned p s → IsOwned p (unsubscribe_route id s)
  unfolding unsubscribe_route is_subscribed leave
  unsubscribe_route-IsOwned id s h = elim (Bool-cases (has_id s.queue.listeners id)) [
    | inl e ↦
        rw (e, unsubscribe_route, released id (leave id s.queue) s.plugin)
          (leaves id s.queue s.plugin e h)
    | inr e ↦ rw (e, unsubscribe_route) h
  ]

  -- Other channels, the same listeners.
  requeued :
      (q : Queue p) (o : Option PluginConn) (queues : NatMap (Channel p))
      → Inv p (record q { queues = queues })
      → IsOwned p (record { queue = q; plugin = o })
      → IsOwned p (record { queue = record q { queues = queues }; plugin = o })
  requeued q o queues v h = record {
    sound = v;
    subscribed = h.subscribed;
    waits = refl;
    apart = h.apart;
    exclusive = h.exclusive;
  }

  disconnect-requeues :
      (message : Text) (id : ℕ) (q : Queue p)
      → has_id q.listeners id ≡ true
      → Inv p q
      → (queues : NatMap (Channel p)) × (disconnect message id q
          ≡ ok (record q { queues = queues }))
        × Inv p (record q { queues = queues })
  unfolding disconnect push is_subscribed
  disconnect-requeues message id q e v =
      let (queues, ran, w) = send_to-Inv (disconnect_client message) id q e v in
      (queues, rw e (rw ran refl), w)

  freed-absent :
      (id : ℕ) (q : Queue p) (o : Option PluginConn)
      → has_id q.listeners id ≡ false
      → IsOwned p (record { queue = q; plugin = o })
      → freed id o ≡ o
  unfolding freed
  freed-absent id q none e h = refl
  freed-absent id q (some conn) e h = elim (Bool-cases (conn.queue_id == id)) [
    | inl k ↦
        let same : conn.queue_id ≡ id = (==_iff conn.queue_id id).0 k in
        absurd (ground (arith, h.subscribed, e, same))
    | inr k ↦ rw k refl
  ]

  gone :
      (id : ℕ) (s : WsState p)
      → has_id s.queue.listeners id ≡ false
      → IsOwned p s
      → cleanup_plugin id s ≡ some s
  unfolding cleanup_plugin quiet_or_panic quiet disconnect unsubscribe is_subscribed
  gone id s e h =
      rw (cleanup_plugin, e, e, released id s.queue s.plugin, freed-absent id s.queue s.plugin e h)
        refl

  pub cleanup-IsOwned :
      (id : ℕ) (s : WsState p)
      → IsOwned p s
      → (s' : WsState p) × (cleanup_plugin id s ≡ some s') × IsOwned p s'
  unfolding cleanup_plugin quiet_or_panic leave
  cleanup-IsOwned id s h = elim (Bool-cases (has_id s.queue.listeners id)) [
    | inl e ↦
        let (queues, ran, w) =
          disconnect-requeues (codes "Plugin disconnected") id s.queue e h.sound in
        let q : Queue p = record s.queue { queues = queues } in
        (
          record { queue = leave id q; plugin = freed id s.plugin },
          rw (ran, cleanup_plugin, released id s.queue s.plugin) refl,
          leaves id q s.plugin e (requeued s.queue s.plugin queues w h),
        )
    | inr e ↦ (s, gone id s e h, h)
  ]

  get_timeout-requeues :
      (id : ℕ) (q : Queue p)
      → has_id q.listeners id ≡ true
      → Inv p q
      → (queues : NatMap (Channel p)) × (m : Option (Message p)) × (get_timeout id q
          ≡ ok (record q { queues = queues }, m))
        × Inv p (record q { queues = queues })
  unfolding get_timeout is_subscribed
  get_timeout-requeues id q e v = elim (Option-cases (q.queues id)) [
    | inl k ↦ absurd (ground (arith, v.served id))
    | inr (c, k) ↦ (
      insert id (receive c).0 q.queues,
      (receive c).1,
      rw (e, k) refl,
      insert-Inv q id (receive c).0 (rw k refl) (receive-IsAccounted c (v.accounted id c k)) v,
    )
  ]

  touch_queue :
      (now id : ℕ) (q : Queue p) (o : Option PluginConn)
      → IsOwned p (touch_longpoll now id (record { queue = q; plugin = o }))
      → IsOwned p (record {
        queue = q;
        plugin = (touch_longpoll now id (record { queue = q; plugin = o })).plugin;
      })
  unfolding touch_longpoll
  touch_queue now id q none h = h
  touch_queue now id q (some conn) h = elim (Bool-cases (conn.queue_id == id)) [
    | inl e ↦ rw e (rw e at h)
    | inr e ↦ rw e (rw e at h)
  ]

  pub read_route-IsOwned :
      (now id : ℕ) (s : WsState p)
      → IsOwned p s
      → (s' : WsState p) × (m : Option (Message p)) × (read_route now id s ≡ some (s', m))
        × IsOwned p s'
  unfolding read_route is_subscribed
  read_route-IsOwned now id s h = elim (Bool-cases (has_id s.queue.listeners id)) [
    | inl e ↦
        let (queues, m, ran, w) = get_timeout-requeues id s.queue e h.sound in
        let t = touch-IsOwned now id s h in
        (
          record (touch_longpoll now id s) { queue = record s.queue { queues = queues } },
          m,
          rw (e, read_route, ran) refl,
          requeued s.queue (touch_longpoll now id s).plugin queues w
              (touch_queue now id s.queue s.plugin t),
        )
    | inr e ↦ (s, none, rw (e, read_route) refl, h)
  ]
