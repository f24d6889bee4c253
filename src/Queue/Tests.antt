-- ===== src/Queue/Tests.antt =====
-- Two clients, one of them internal, through a few calls.
use wsync.Prelude.{
  ℕ, ◌≡◌, refl, true, false, none, some, List, [], ◌∷◌, codes, map_option, decimal, ◌==◌,
  if◌then◌else◌,
}
use wsync.Queue.{
  Lib, Message, sync_changes, execute_code, Queue, ok, panic, change_count, is_change, on_push,
  on_take, on_wait, mark, queued_changes, send, send_to, send_all, push, receive, get, get_timeout,
  first_change, receive_change, get_change, confirm, subscribe, subscribe_internal, unsubscribe,
  disconnect, free_id, is_subscribed, new_queue, new_channel, add_channel, add_listener,
  get_first_non_internal_listener_name, flow_of,
}
use wsync.Queue.Fifo.{list_channels, list_channels-IsFifo}
use wsync.Queue.Invariant.{Inv, new_queue-Inv, has_id}
use wsync.Queue.FreeId.{free_id-unused}
use wsync.Queue.Run.{Op, step, run, run-succeeds}
use wsync.Queue.Delivery.{Event, play, receive-queued_changes}
use wsync.Queue.Races.{push-subscribing, send_to-unsubscribed}

program : Unit {0}
unfolding change_count is_change on_push on_take on_wait mark send send_to send_all push receive get
    get_timeout first_change receive_change get_change confirm subscribe subscribe_internal
    unsubscribe disconnect free_id is_subscribed new_queue add_channel add_listener flow_of step run
    get_first_non_internal_listener_name decimal play
program = tt

abbrev plain : Lib
plain = record {
  Added = ℕ;
  Updated = ℕ;
  Details = ℕ;
  channels = list_channels;
  is_fifo = list_channels-IsFifo;
}

abbrev two_changes : Message plain
two_changes = sync_changes (record { additions = 7 ∷ []; updates = []; removals = 9 ∷ [] })

abbrev run_code : Message plain
run_code = execute_code (codes "print()")

abbrev events : List (Event plain)
events =
    Event.sends two_changes ∷ Event.sends run_code ∷ Event.receives ∷ Event.sends two_changes ∷ []

abbrev subscribed : List (Op plain)
subscribed =
    Op.subscribes_internal
    ∷ Op.subscribes 70000 (codes "Studio")
    ∷ Op.pushes two_changes none
    ∷ Op.gets_change 0
    ∷ []

abbrev both : Queue plain
both = record {
  queues = λ j. if j == 0 then some new_channel else (if j == 7 then some new_channel else none);
  listeners =
      record { id = 0; name = codes "Internal listener #0"; is_internal = true }
      ∷ record { id = 7; name = codes "Studio"; is_internal = false }
      ∷ [];
  unsynced_changes = 0;
}

-- The internal listener took its copy, Studio's copy waits.
subscribed_queue :
    (map_option (λ q. get_first_non_internal_listener_name q) (run subscribed new_queue)
      ≡ some (some (codes "Studio")))
    × (map_option (λ q. map_option queued_changes (flow_of 70000 q)) (run subscribed new_queue)
        ≡ some (some 2))
unfolding program
subscribed_queue = (refl, refl)

run-succeeds_example : (q : Queue plain) × (run subscribed new_queue ≡ some q) × Inv plain q
run-succeeds_example = run-succeeds subscribed

receive-queued_changes_example :
    queued_changes (mark (receive (play events new_channel).0).0.flow) ≡ 2
unfolding program
receive-queued_changes_example = receive-queued_changes events

push-subscribing_example :
    push two_changes none
      (add_listener (record { id = 7; name = codes "Studio"; is_internal = false }) new_queue)
    ≡ panic
unfolding program
push-subscribing_example =
    push-subscribing two_changes 7 (codes "Studio") new_queue new_queue-Inv refl

send_to-unsubscribed_example :
    (q' : Queue plain) × (unsubscribe 7 both ≡ ok q') × (send_to run_code 7 q'.queues ≡ panic)
unfolding program
send_to-unsubscribed_example = send_to-unsubscribed run_code 7 both refl

-- The internal listener has id 0.
abbrev one_internal : Queue plain
one_internal = record new_queue {
  listeners = record { id = 0; name = codes "Studio"; is_internal = true } ∷ [];
}

free_id-unused_example :
    (j : ℕ) × (free_id 2 0 one_internal ≡ some j) × (has_id one_internal.listeners j ≡ false)
free_id-unused_example = free_id-unused one_internal
