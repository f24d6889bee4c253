-- ===== src/PluginSlot/Run.antt =====
-- Every sequence of handlers.
use wsync.Prelude.{ℕ, ◌≡◌, refl, Option, none, some, List, [], ◌∷◌, Text}
use wsync.Queue.{Lib, Message, new_queue}
use wsync.Queue.Invariant.{new_queue-Inv}
use wsync.PluginSlot.{
  WsState, connect, claim_longpoll_plugin, unsubscribe_route, read_route, cleanup_plugin,
}
use wsync.PluginSlot.Ownership.{IsOwned}
use wsync.PluginSlot.Handlers.{connect-IsOwned, claim_longpoll-IsOwned}
use wsync.PluginSlot.Departure.{unsubscribe_route-IsOwned, read_route-IsOwned, cleanup-IsOwned}

pub data Op : Type 0 where
  connects : (now id : ℕ) → Text → Op
  subscribes : (now id : ℕ) → Text → Op
  reads : (now id : ℕ) → Op
  unsubscribes cleans_up : ℕ → Op

module _ {p : Lib} where
  abbrev pub fst_some : Option (WsState p × Option (Message p)) → Option (WsState p)
  fst_some none = none
  fst_some (some r) = some r.0

  unfoldable pub step : Op → WsState p → Option (WsState p)
  step (Op.connects now id name) s = some (connect now id name s).0
  step (Op.subscribes now id name) s = some (claim_longpoll_plugin now id name s).0
  step (Op.reads now id) s = fst_some (read_route now id s)
  step (Op.unsubscribes id) s = some (unsubscribe_route id s)
  step (Op.cleans_up id) s = cleanup_plugin id s

  unfoldable pub serve : List Op → WsState p → Option (WsState p)
  serve [] s = some s
  serve (o ∷ os) s = elim (step o s) [ none ↦ none | some s' ↦ serve os s' ]

  abbrev pub new_state : WsState p
  new_state = record { queue = new_queue; plugin = none }

  step-IsOwned :
      (o : Op) (s : WsState p)
      → IsOwned p s
      → (s' : WsState p) × (step o s ≡ some s') × IsOwned p s'
  unfolding step
  step-IsOwned (Op.connects now id name) s h = (_, refl, connect-IsOwned now id name s h)
  step-IsOwned (Op.subscribes now id name) s h = (_, refl, claim_longpoll-IsOwned now id name s h)
  step-IsOwned (Op.reads now id) s h =
      let (s', m, ran, w) = read_route-IsOwned now id s h in (s', rw ran refl, w)
  step-IsOwned (Op.unsubscribes id) s h = (_, refl, unsubscribe_route-IsOwned id s h)
  step-IsOwned (Op.cleans_up id) s h = cleanup-IsOwned id s h

  serve_from :
      (os : List Op) (s : WsState p)
      → IsOwned p s
      → (s' : WsState p) × (serve os s ≡ some s') × IsOwned p s'
  unfolding serve
  serve_from [] s h = (s, refl, h)
  serve_from (o ∷ os) s h =
      let (s', ran, w) = step-IsOwned o s h in
      let (s'', ran', w') = serve_from os s' w in (s'', rw (ran, serve) ran', w')

  -- From no listener and a free slot, no sequence of connections, subscriptions, polls and
  -- departures of plugins, one after the other, panics, and after it the plugin in the slot is
  -- subscribed and is the only client of the queues that is not internal.
  pub serve-IsOwned : (os : List Op) → (s : WsState p) × (serve os new_state ≡ some s) × IsOwned p s
  unfolding new_queue
  serve-IsOwned os = serve_from os new_state (record {
    sound = new_queue-Inv;
    subscribed = refl;
    waits = refl;
    apart = refl;
    exclusive = refl;
  })
