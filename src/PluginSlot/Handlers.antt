-- ===== src/PluginSlot/Handlers.antt =====
-- A plugin that comes: each handler keeps the plugin of the slot the only client but the internal ones.
use wsync.Prelude.{
  ℕ, ◌≡◌, refl, false, Option, none, some, Text, ◌==◌, ==_refl, inl, inr, Bool, true, ◌↔◌, sym, ◌∙◌,
  ◌⊎◌, arith, Bool-cases,
}
use wsync.Queue.{Lib, Queue, Listener, ok, subscribe, is_subscribed, add_channel, add_listener}
use wsync.Queue.Invariant.{Inv, has_id, has_id-append, has_id-retain}
use wsync.Queue.Calls.{Succeeds, subscribe-Inv}
use wsync.PluginSlot.{
  is_stale, ws, long_poll, PluginConn, WsState, evict_stale_longpoll, claimed, slot_taken,
  claim_ws_plugin, take_slot, take_slot_longpoll, claim_longpoll_plugin, connect, refuse,
}
use wsync.PluginSlot.Ownership.{
  Hosts, IsOwned, guest_leaves, guest_enters, guest_owns, leave, leave-Inv, listeners-leave,
  evict-Hosts,
}

abbrev pub client : ℕ → Text → Listener
client id name = record { id = id; name = name; is_internal = false }

module _ {p : Lib} where
  unfoldable pub enter : ℕ → Text → Queue p → Queue p
  enter id name q = add_channel id (add_listener (client id name) q)

  enter-Inv :
      (id : ℕ) (name : Text) (q : Queue p)
      → has_id q.listeners id ≡ false
      → Inv p q
      → (subscribe id name q ≡ ok (enter id name q)) × Inv p (enter id name q)
  unfolding subscribe is_subscribed enter
  enter-Inv id name q e v =
      let w : Succeeds (Inv p) (subscribe id name q) = subscribe-Inv id name q v in
      (rw e refl, rw e at w)

  enters :
      (id : ℕ) (name : Text) (q : Queue p) (o : Option PluginConn)
      → has_id q.listeners id ≡ false
      → IsOwned p (record { queue = q; plugin = o })
      → Hosts p (some id) (record { queue = enter id name q; plugin = o })
  unfolding enter add_channel add_listener
  enters id name q none e h = record {
    sound = (enter-Inv id name q e h.sound).1;
    subscribed = refl;
    waits = ground (arith, has_id-append q.listeners (client id name) id, ==_refl id);
    apart = refl;
    exclusive = guest_enters none (client id name) q.listeners h.exclusive;
  }
  enters id name q (some conn) e h = record {
    sound = (enter-Inv id name q e h.sound).1;
    subscribed =
        ground (arith, has_id-append q.listeners (client id name) conn.queue_id, h.subscribed);
    waits = ground (arith, has_id-append q.listeners (client id name) id, ==_refl id);
    apart = elim (Bool-cases (conn.queue_id == id)) [
      | inl k ↦ ground (arith, h.subscribed, e)
      | inr k ↦ rw k refl
    ];
    exclusive = guest_enters (some conn.queue_id) (client id name) q.listeners h.exclusive;
  }

  owns :
      (conn : PluginConn) (q : Queue p)
      → Hosts p (some conn.queue_id) (record { queue = q; plugin = none })
      → IsOwned p (record { queue = q; plugin = some conn })
  owns conn q h = record {
    sound = h.sound;
    subscribed = h.waits;
    waits = refl;
    apart = refl;
    exclusive = guest_owns conn.queue_id q.listeners h.exclusive;
  }

  guest_refused :
      (id : ℕ) (q : Queue p) (conn : PluginConn)
      → Hosts p (some id) (record { queue = q; plugin = some conn })
      → IsOwned p (record { queue = leave id q; plugin = some conn })
  guest_refused id q conn h = record {
    sound = leave-Inv id q h.sound;
    subscribed =
        rw (listeners-leave id q h.waits)
          (ground (arith, has_id-retain q.listeners id conn.queue_id, h.apart, h.subscribed));
    waits = refl;
    apart = refl;
    exclusive =
        rw (listeners-leave id q h.waits)
          (guest_leaves (some conn.queue_id) id q.listeners h.exclusive);
  }

  take_slot_guest :
      (mine : PluginConn) (q : Queue p) (o : Option PluginConn)
      → Hosts p (some mine.queue_id) (record { queue = q; plugin = o })
      → ((s' : WsState p) × (take_slot mine (record { queue = q; plugin = o }) ≡ (s', claimed))
          × IsOwned p s')
        ⊎ ((s' : WsState p) × (t : Text) × (take_slot mine (record { queue = q; plugin = o })
              ≡ (s', slot_taken t))
            × IsOwned p (refuse mine.queue_id s').0)
  unfolding take_slot refuse leave
  take_slot_guest mine q none h =
      inl (record { queue = q; plugin = some mine }, refl, owns mine q h)
  take_slot_guest mine q (some conn) h = inr (
    record { queue = q; plugin = some conn },
    conn.name,
    refl,
    guest_refused mine.queue_id q conn h,
  )

  claimed-IsOwned :
      (now id : ℕ) (name : Text) (s : WsState p)
      → has_id s.queue.listeners id ≡ false
      → IsOwned p s
      → IsOwned p (connect now id name s).0
  unfolding connect claim_ws_plugin
  claimed-IsOwned now id name s e h =
      let entered = (enter-Inv id name s.queue e h.sound).0 in
      let guest = enters id name s.queue s.plugin e h in
      let mine : PluginConn = record { queue_id = id; name = name; transport = ws } in
      let s' : WsState p = evict_stale_longpoll now (record s { queue = enter id name s.queue }) in
      let h' = evict-Hosts now (enter id name s.queue) s.plugin (some id) guest in
      elim (take_slot_guest mine s'.queue s'.plugin h') [
        | inl (r, k, w) ↦ rw (entered, connect, claim_ws_plugin, k, k) w
        | inr (r, t, k, w) ↦ rw (entered, connect, claim_ws_plugin, k, k) w
      ]

  pub connect-IsOwned :
      (now id : ℕ) (name : Text) (s : WsState p) → IsOwned p s → IsOwned p (connect now id name s).0
  unfolding connect subscribe is_subscribed
  connect-IsOwned now id name s h = elim (Bool-cases (has_id s.queue.listeners id)) [
    | inl e ↦ rw (e, connect) h
    | inr e ↦ claimed-IsOwned now id name s e h
  ]

  slot_longpoll :
      (now id : ℕ) (name : Text) (q : Queue p) (o : Option PluginConn)
      → IsOwned p (record { queue = q; plugin = o })
      → IsOwned p (take_slot_longpoll now id name (record { queue = q; plugin = o })).0
  unfolding take_slot_longpoll subscribe is_subscribed enter
  slot_longpoll now id name q (some conn) h = h
  slot_longpoll now id name q none h = elim (Bool-cases (has_id q.listeners id)) [
    | inl e ↦ rw (e, take_slot_longpoll) h
    | inr e ↦
        rw (e, take_slot_longpoll)
          (owns (record { queue_id = id; name = name; transport = long_poll now }) (enter id name q)
            (enters id name q none e h))
  ]

  pub claim_longpoll-IsOwned :
      (now id : ℕ) (name : Text) (s : WsState p)
      → IsOwned p s
      → IsOwned p (claim_longpoll_plugin now id name s).0
  unfolding claim_longpoll_plugin
  claim_longpoll-IsOwned now id name s h =
      let s' : WsState p = evict_stale_longpoll now s in
      slot_longpoll now id name s'.queue s'.plugin (evict-Hosts now s.queue s.plugin none h)

-- Whether nobody holds the slot, or only a long-poll plugin that stopped polling.
abbrev pub is_free : ℕ → Option PluginConn → Bool
is_free now none = true
is_free now (some conn) = is_stale now conn

module _ {p : Lib} where
  connect_from :
      (now id : ℕ) (name : Text) (q : Queue p) (o : Option PluginConn)
      → has_id q.listeners id ≡ false
      → (connect now id name (record { queue = q; plugin = o })).1 ≡ is_free now o
  unfolding connect claim_ws_plugin take_slot evict_stale_longpoll refuse subscribe is_subscribed
  connect_from now id name q none e = rw (e, connect) refl
  connect_from now id name q (some conn) e = elim (Bool-cases (is_stale now conn)) [
    | inl k ↦ rw (e, connect, k) refl
    | inr k ↦ rw (e, connect, k) refl
  ]

  -- A WebSocket plugin under an id that is not subscribed gets the slot exactly where nobody holds
  -- it or a long-poll plugin holds it whose last poll is longer ago than the limit.
  pub connect_iff :
      (now id : ℕ) (name : Text) (s : WsState p)
      → is_subscribed s.queue id ≡ false
      → ((connect now id name s).1 ≡ true) ↔ (is_free now s.plugin ≡ true)
  unfolding is_subscribed
  connect_iff now id name s e =
      let same = connect_from now id name s.queue s.plugin e in (λ h. sym same ∙ h, λ h. same ∙ h)
