-- ===== src/Lifecycle/Watchdog.antt =====
-- The watchdog of src/server/lifecycle.rs over its rounds.
use wsync.Prelude.{
  ℕ, ◌+◌, ◌<◌, ◌≤◌, ◌≡◌, refl, ap, ◌∙◌, Bool, true, false, Option, none, some, List, [], ◌∷◌, Text,
  all, ltb, is_some, unwrap_or, Bool-cases, Option-cases, inl, inr, ◌⊎◌, arith,
}
use wsync.Lifecycle.{
  manager_heartbeat_timeout, heartbeat_suspect_grace, State, Watch, trigger_shutdown, heartbeat,
  heartbeat_expired, watchdog_should_terminate, first_reason, lost_reason, tick,
}

-- The rounds at these times, with no heartbeat between them.
abbrev pub run_ticks : List ℕ → State → State
run_ticks [] s = s
run_ticks (t ∷ ts) s = run_ticks ts (tick t s)

abbrev pub is_stopping : State → Bool
is_stopping s = is_some s.lifecycle.shutdown

-- `Suspects h t s`: the last heartbeat was at `h`, and the daemon is told to stop, or the watchdog runs and
-- suspects the manager since `t` at the latest.
abbrev pub Suspects : (h t : ℕ) → State → Type 0
Suspects h t s =
    (s.lifecycle.manager_last_seen ≡ h)
    × ((is_stopping s ≡ true)
        ⊎ ((s.watch.done ≡ false) × (f : ℕ) × (s.watch.suspect_since ≡ some f) × (f ≤ t)))

tick-kept :
    (now : ℕ) (s : State)
    → ((tick now s).lifecycle.manager_last_seen ≡ s.lifecycle.manager_last_seen)
      × (is_stopping s ≡ true → is_stopping (tick now s) ≡ true)
unfolding tick trigger_shutdown
tick-kept now s = elim (Option-cases s.lifecycle.shutdown) [
  | inl n ↦ (ground arith, λ e. absurd (cc))
  | inr (r, e) ↦ (ground arith, λ k. ground (arith, e))
]

first_reason-stops : (reason : Text) (o : Option Text) → is_some (first_reason reason o) ≡ true
first_reason-stops reason none = refl
first_reason-stops reason (some r) = refl

-- Rounds in which the manager is suspected and still not heard of.
tick-stops :
    (now f : ℕ) (s : State)
    → s.watch.done ≡ false
    → unwrap_or s.watch.suspect_since now ≡ f
    → s.lifecycle.manager_last_seen + manager_heartbeat_timeout < now
    → f + heartbeat_suspect_grace < now
    → is_stopping (tick now s) ≡ true
unfolding tick trigger_shutdown heartbeat_expired watchdog_should_terminate
tick-stops now f s d e lt lt' =
    ground (arith, d, e, first_reason-stops lost_reason s.lifecycle.shutdown)

tick-waits :
    (now f : ℕ) (s : State)
    → s.watch.done ≡ false
    → unwrap_or s.watch.suspect_since now ≡ f
    → s.lifecycle.manager_last_seen + manager_heartbeat_timeout < now
    → now ≤ f + heartbeat_suspect_grace
    → ((tick now s).watch.done ≡ false) × ((tick now s).watch.suspect_since ≡ some f)
unfolding tick trigger_shutdown heartbeat_expired watchdog_should_terminate
tick-waits now f s d e lt le = (ground (arith, d, e), ground (arith, d, e))

-- The first suspicion, or one more round of it.
tick-Suspects :
    (h t now : ℕ) (s : State)
    → Suspects h t s
    → h + manager_heartbeat_timeout < now
    → Suspects h t (tick now s)
tick-Suspects h t now s (seen, inl e) lt = ((tick-kept now s).0 ∙ seen, inl ((tick-kept now s).1 e))
tick-Suspects h t now s (seen, inr (d, f, e, le)) lt =
    let since : unwrap_or s.watch.suspect_since now ≡ f = rw e refl in
    (
      (tick-kept now s).0 ∙ seen,
      elim (Bool-cases (ltb (f + heartbeat_suspect_grace) now)) [
        | inl y ↦ inl (tick-stops now f s d since (omega (arith, seen)) (ground (arith, y)))
        | inr n ↦
            let (d', e') = tick-waits now f s d since (omega (arith, seen)) (ground (arith, n)) in
            inr (d', f, e', le)
      ],
    )

run_ticks-Suspects :
    (h t : ℕ) (ts : List ℕ) (s : State)
    → all (λ now. ltb (h + manager_heartbeat_timeout) now) ts ≡ true
    → Suspects h t s
    → Suspects h t (run_ticks ts s)
run_ticks-Suspects h t [] s k w = w
run_ticks-Suspects h t (now ∷ ts) s k w =
    run_ticks-Suspects h t ts (tick now s) (ground (arith, k))
      (tick-Suspects h t now s w (ground (arith, k)))

run_ticks-stopping :
    (ts : List ℕ) (s : State) → is_stopping s ≡ true → is_stopping (run_ticks ts s) ≡ true
run_ticks-stopping [] s e = e
run_ticks-stopping (t ∷ ts) s e = run_ticks-stopping ts (tick t s) ((tick-kept t s).1 e)

last_round :
    (h t now : ℕ) (s : State)
    → Suspects h t s
    → h + manager_heartbeat_timeout < now
    → t + heartbeat_suspect_grace < now
    → is_stopping (tick now s) ≡ true
last_round h t now s (seen, inl e) lt lt' = (tick-kept now s).1 e
last_round h t now s (seen, inr (d, f, e, le)) lt lt' =
    tick-stops now f s d (rw e refl) (omega (arith, seen)) (omega arith)

-- Let the watchdog run without a suspicion, and let the last heartbeat be at `h`. Once it has had a round
-- at `first`, later than the timeout after `h`, then any rounds, all later than the timeout, and then a
-- round more than the grace after `first`, the daemon is told to stop, whatever rounds follow.
pub watchdog_stops :
    (h first last : ℕ) (between after : List ℕ) (s : State)
    → s.lifecycle.manager_last_seen ≡ h
    → s.watch ≡ record { suspect_since = none; done = false }
    → h + manager_heartbeat_timeout < first
    → all (λ now. ltb (h + manager_heartbeat_timeout) now) between ≡ true
    → first + heartbeat_suspect_grace < last
    → is_stopping (run_ticks after (tick last (run_ticks between (tick first s)))) ≡ true
watchdog_stops h first last between after s seen w lt k lt' =
    let done : s.watch.done ≡ false = ap (λ (x : Watch). x.done) w in
    let since : unwrap_or s.watch.suspect_since first ≡ first =
      ap (λ (x : Watch). unwrap_or x.suspect_since first) w in
    let (d, e) = tick-waits first first s done since (omega (arith, seen)) (omega arith) in
    let begun : Suspects h first (tick first s) =
      ((tick-kept first s).0 ∙ seen, inr (d, first, e, omega arith)) in
    run_ticks-stopping after (tick last (run_ticks between (tick first s))) (
      last_round h first last (run_ticks between (tick first s))
        (run_ticks-Suspects h first between (tick first s) k begun) (omega arith) lt')

-- A suspicion that no round has cleared outlives a heartbeat: where the manager is suspected since
-- `since`, is heard of at `h`, and the next round comes only after the timeout, as it does when the
-- machine slept, then that round tells the daemon to stop, with no grace for the manager to be heard.
pub stale_suspicion :
    (since h now : ℕ) (s : State)
    → s.watch ≡ record { suspect_since = some since; done = false }
    → since ≤ h
    → h + manager_heartbeat_timeout < now
    → is_stopping (tick now (record s { lifecycle = heartbeat h s.lifecycle })) ≡ true
unfolding heartbeat
stale_suspicion since h now s w le lt =
    tick-stops now since (record s { lifecycle = heartbeat h s.lifecycle })
      (ap (λ (x : Watch). x.done) w) (ap (λ (x : Watch). unwrap_or x.suspect_since now) w)
      (omega arith) (omega arith)
