-- ===== src/PluginSlot.antt =====
-- src/server/ws/state.rs and the handlers that use it (src/server/ws/mod.rs, subscribe.rs,
-- unsubscribe.rs, read.rs): the slot of the one connected plugin, whichever its transport, and the
-- queues that serve it. Instants are natural numbers of nanoseconds; the sockets of a connection are
-- left out of its record, and each handler runs without another in between.
pub mod Ownership
pub mod Handlers
pub mod Departure
pub mod Run
mod Tests
use wsync.Prelude.{
  ℕ, ◌-◌, Bool, true, false, not, Option, none, some, Text, codes, ltb, ◌==◌, if◌then◌else◌,
  map_option,
}
use wsync.Queue.{
  Lib, Queue, Result, ok, not_subscribed, already_subscribed, panic, subscribe, unsubscribe,
  disconnect, is_subscribed, new_queue, get_timeout, Message,
}

pub data PluginTransport : Type 0 where
  ws : PluginTransport
  long_poll : (last_seen : ℕ) → PluginTransport

pub record PluginConn : Type 0 where
  pub queue_id : ℕ
  pub name : Text
  pub transport : PluginTransport

pub data Claim : Type 0 where
  claimed claim_already_subscribed : Claim
  slot_taken : Text → Claim

pub record WsState (p : Lib) : Type 0 where
  pub queue : Queue p
  pub plugin : Option PluginConn

abbrev pub longpoll_evict_after : ℕ
longpoll_evict_after = 130000000000

unfoldable pub transport_name : PluginConn → Text
transport_name conn = elim conn.transport [
  | ws ↦ codes "ws"
  | long_poll last_seen ↦ codes "long-poll"
]

unfoldable pub is_stale : ℕ → PluginConn → Bool
is_stale now conn = elim conn.transport [
  | ws ↦ false
  | long_poll last_seen ↦ ltb longpoll_evict_after (now - last_seen)
]

abbrev pub touched : ℕ → PluginTransport → PluginTransport
touched now ws = ws
touched now (long_poll last_seen) = long_poll now

abbrev pub ws_id : PluginConn → Option ℕ
ws_id conn = elim conn.transport [ ws ↦ some conn.queue_id | long_poll last_seen ↦ none ]

module _ {p : Lib} where
  -- A result of which the error is ignored.
  unfoldable pub quiet : Queue p → Result (Queue p) → Queue p
  quiet q (ok q') = q'
  quiet q not_subscribed = q
  quiet q already_subscribed = q
  quiet q panic = q

  unfoldable pub evict_stale_longpoll : ℕ → WsState p → WsState p
  evict_stale_longpoll now s = elim s.plugin [
    | none ↦ s
    | some conn ↦
        if is_stale now conn
        then (record { queue = quiet s.queue (unsubscribe conn.queue_id s.queue); plugin = none })
        else s
  ]

  unfoldable pub take_slot : PluginConn → WsState p → WsState p × Claim
  take_slot conn s = elim s.plugin [
    | some existing ↦ (s, slot_taken existing.name)
    | none ↦ (record s { plugin = some conn }, claimed)
  ]

  unfoldable pub claim_ws_plugin : ℕ → ℕ → Text → WsState p → WsState p × Claim
  claim_ws_plugin now queue_id name s =
      take_slot (record { queue_id = queue_id; name = name; transport = ws })
        (evict_stale_longpoll now s)

  unfoldable pub take_slot_longpoll : ℕ → ℕ → Text → WsState p → WsState p × Claim
  take_slot_longpoll now client_id name s = elim s.plugin [
    | some existing ↦ (s, slot_taken existing.name)
    | none ↦ elim (subscribe client_id name s.queue) [
      | ok q ↦ (
        record {
          queue = q;
          plugin = some (record { queue_id = client_id; name = name; transport = long_poll now });
        },
        claimed,
      )
      | not_subscribed ↦ (s, claim_already_subscribed)
      | already_subscribed ↦ (s, claim_already_subscribed)
      | panic ↦ (s, claim_already_subscribed)
    ]
  ]

  unfoldable pub claim_longpoll_plugin : ℕ → ℕ → Text → WsState p → WsState p × Claim
  claim_longpoll_plugin now client_id name s =
      take_slot_longpoll now client_id name (evict_stale_longpoll now s)

  unfoldable pub release_plugin : ℕ → WsState p → WsState p × Option PluginConn
  release_plugin queue_id s = elim s.plugin [
    | none ↦ (s, none)
    | some conn ↦
        if conn.queue_id == queue_id then (record s { plugin = none }, some conn) else (s, none)
  ]

  unfoldable pub touch_longpoll : ℕ → ℕ → WsState p → WsState p
  touch_longpoll now client_id s = elim s.plugin [
    | none ↦ s
    | some conn ↦
        if conn.queue_id == client_id
        then (record s { plugin = some (record conn { transport = touched now conn.transport }) })
        else s
  ]

  unfoldable pub plugin_status : WsState p → Option (Text × Text)
  plugin_status s = map_option (λ conn. (conn.name, transport_name conn)) s.plugin

  unfoldable pub plugin_queue_id : WsState p → Option ℕ
  plugin_queue_id s = elim s.plugin [ none ↦ none | some conn ↦ ws_id conn ]

  -- The start of `plugin_connection`, with the id that `allocate_queue_id` drew; `false` where the
  -- plugin is refused.
  unfoldable pub refuse : ℕ → WsState p → WsState p × Bool
  refuse queue_id s = (record s { queue = quiet s.queue (unsubscribe queue_id s.queue) }, false)

  unfoldable pub connect : ℕ → ℕ → Text → WsState p → WsState p × Bool
  connect now queue_id name s = elim (subscribe queue_id name s.queue) [
    | ok q ↦
        let r = claim_ws_plugin now queue_id name (record s { queue = q }) in
        elim r.1 [
          | claimed ↦ (r.0, true)
          | claim_already_subscribed ↦ refuse queue_id r.0
          | slot_taken existing ↦ refuse queue_id r.0
        ]
    | not_subscribed ↦ (s, false)
    | already_subscribed ↦ (s, false)
    | panic ↦ (s, false)
  ]

  -- `none` where a call panics.
  unfoldable pub quiet_or_panic : Queue p → Result (Queue p) → Option (Queue p)
  quiet_or_panic q (ok q') = some q'
  quiet_or_panic q not_subscribed = some q
  quiet_or_panic q already_subscribed = some q
  quiet_or_panic q panic = none

  unfoldable pub cleanup_plugin : ℕ → WsState p → Option (WsState p)
  cleanup_plugin queue_id s =
      let released = (release_plugin queue_id s).0 in
      elim (quiet_or_panic s.queue (disconnect (codes "Plugin disconnected") queue_id s.queue)) [
        | none ↦ none
        | some q ↦ some (record released { queue = quiet q (unsubscribe queue_id q) })
      ]

  -- The routes /unsubscribe and /read.
  unfoldable pub unsubscribe_route : ℕ → WsState p → WsState p
  unsubscribe_route client_id s =
      if is_subscribed s.queue client_id
      then (release_plugin client_id
          (record s { queue = quiet s.queue (unsubscribe client_id s.queue) })).0
      else s

  unfoldable pub read_route : ℕ → ℕ → WsState p → Option (WsState p × Option (Message p))
  read_route now client_id s =
      if not (is_subscribed s.queue client_id)
      then some (s, none)
      else (elim (get_timeout client_id s.queue) [
        | ok r ↦ some (record (touch_longpoll now client_id s) { queue = r.0 }, r.1)
        | not_subscribed ↦ some (touch_longpoll now client_id s, none)
        | already_subscribed ↦ some (touch_longpoll now client_id s, none)
        | panic ↦ none
      ])
