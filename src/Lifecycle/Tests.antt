-- ===== src/Lifecycle/Tests.antt =====
-- A manager that falls silent, and a machine that sleeps right after a heartbeat.
use wsync.Prelude.{◌≡◌, refl, true, some, [], ◌∷◌, codes, arith}
use wsync.Lifecycle.{
  State, new_lifecycle, spawn_watchdog, tick, heartbeat, refusal, control, heartbeat_expired,
  watchdog_should_terminate, invalid_token,
}
use wsync.Lifecycle.Watchdog.{run_ticks, is_stopping, watchdog_stops, stale_suspicion}

abbrev started : State
started = spawn_watchdog (new_lifecycle true 0)

abbrev suspecting : State
suspecting = tick 301000 started

wrong_token : refusal (some (codes "a")) (control (some (codes "b"))) ≡ some invalid_token
unfolding refusal
wrong_token = refl

watchdog_stops_example :
    is_stopping
      (run_ticks [] (tick 333000 (run_ticks (303000 ∷ 305000 ∷ []) (tick 301000 started))))
    ≡ true
unfolding new_lifecycle spawn_watchdog
watchdog_stops_example =
    watchdog_stops 0 301000 333000 (303000 ∷ 305000 ∷ []) [] started refl refl (omega arith) refl
      (omega arith)

stale_suspicion_example :
    is_stopping
      (tick 700000 (record suspecting { lifecycle = heartbeat 302000 suspecting.lifecycle }))
    ≡ true
unfolding new_lifecycle spawn_watchdog tick heartbeat_expired watchdog_should_terminate
stale_suspicion_example =
    stale_suspicion 301000 302000 700000 suspecting refl (omega arith) (omega arith)
