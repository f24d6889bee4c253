-- ===== src/PluginSlot/Tests.antt =====
-- A long-poll plugin, a WebSocket plugin that is refused while the first one polls, and one that
-- gets the slot when it stopped.
use wsync.Prelude.{ℕ, ◌≡◌, refl, Option, some, List, [], ◌∷◌, Text, codes, map_option}
use wsync.Queue.{
  Lib, is_subscribed, subscribe, unsubscribe, add_channel, add_listener, new_queue, get_timeout,
  receive, on_wait, disconnect,
}
use wsync.Queue.Fifo.{list_channels, list_channels-IsFifo}
use wsync.PluginSlot.{
  WsState, transport_name, is_stale, quiet, evict_stale_longpoll, take_slot, claim_ws_plugin,
  take_slot_longpoll, claim_longpoll_plugin, release_plugin, touch_longpoll, plugin_status, refuse,
  connect, cleanup_plugin, unsubscribe_route, read_route, quiet_or_panic,
}
use wsync.PluginSlot.Ownership.{IsOwned}
use wsync.PluginSlot.Run.{Op, step, serve, new_state, serve-IsOwned}

program : Unit {0}
unfolding is_subscribed subscribe unsubscribe add_channel add_listener new_queue get_timeout receive
    on_wait disconnect transport_name is_stale quiet evict_stale_longpoll take_slot claim_ws_plugin
    take_slot_longpoll claim_longpoll_plugin release_plugin touch_longpoll plugin_status refuse
    connect cleanup_plugin unsubscribe_route read_route quiet_or_panic step serve
program = tt

abbrev plain : Lib
plain = record {
  Added = ℕ;
  Updated = ℕ;
  Details = ℕ;
  channels = list_channels;
  is_fifo = list_channels-IsFifo;
}

abbrev polled : List Op
polled =
    Op.subscribes 0 7 (codes "first")
    ∷ Op.reads 120000000000 7
    ∷ Op.connects 240000000000 70000 (codes "second")
    ∷ []

abbrev stopped : List Op
stopped = Op.subscribes 0 7 (codes "first") ∷ Op.connects 240000000000 70000 (codes "second") ∷ []

status_of : List Op → Option (Option (Text × Text))
status_of os = map_option plugin_status (serve {p = plain} os new_state)

slot_owners :
    (status_of polled ≡ some (some (codes "first", codes "long-poll")))
    × (status_of stopped ≡ some (some (codes "second", codes "ws")))
unfolding program status_of
slot_owners = (refl, refl)

serve-IsOwned_example : (s : WsState plain) × (serve stopped new_state ≡ some s) × IsOwned plain s
serve-IsOwned_example = serve-IsOwned stopped
