-- ===== src/Debouncer/Conservation.antt =====
-- src/vfs/debouncer.rs: no watcher event is lost.
use wsync.Prelude.{
  ℕ, ◌+◌, ◌-◌, ◌≡◌, refl, sym, ap, subst, ◌∙◌, Bool, true, false, List, [], ◌∷◌, length,
  length-append, ltb, retain, arith,
}
use wsync.Debouncer.{
  FilePath, Held, ancestors, VfsEvent, event_path, DebounceContext, self_write_memory, VfsDebouncer,
  new_debouncer, pause, resume, note_self_write, is_echo, handle_each, release_held,
}
use wsync.Debouncer.Run.{
  notes, arrives, releases, run, translated, context_after, arrivals, is_noted, count, pauses,
  resumes, Op,
}
use wsync.Debouncer.Echoes.{is_echo-set, is_echo-retain, no_writes-is_echo}
use wsync.Debouncer.Counts.{
  count-append, tally, weigh, tally-handle_each, tally-release_each, weigh-release_each,
  handle_each-kept, weigh-handle_each, release_each-kept,
}

release_held-context : (now : ℕ) (d : VfsDebouncer) → (release_held now d).context ≡ d.context
unfolding release_held
release_held-context now d =
    let ws = retain (λ w. ltb (now - w.1) self_write_memory) d.held.self_writes in
    (release_each-kept ws d.held.events
      (record d { held = record { events = []; self_writes = ws } })).0

release_held-self_writes :
    (now : ℕ) (d : VfsDebouncer)
    → (release_held now d).held.self_writes
      ≡ retain (λ w. ltb (now - w.1) self_write_memory) d.held.self_writes
unfolding release_held
release_held-self_writes now d =
    let ws = retain (λ w. ltb (now - w.1) self_write_memory) d.held.self_writes in
    let emptied = record d { held = record { events = []; self_writes = ws } } in
    ap (λ (h : Held). h.self_writes) (release_each-kept ws d.held.events emptied).1

weigh-release_held : (now : ℕ) (d : VfsDebouncer) → weigh (release_held now d) ≡ weigh d
unfolding release_held
weigh-release_held now d =
    let ws = retain (λ w. ltb (now - w.1) self_write_memory) d.held.self_writes in
    let emptied = record d { held = record { events = []; self_writes = ws } } in
    omega (arith, weigh-release_each ws d.held.events emptied)

run-weigh :
    (os : List Op) (d : VfsDebouncer) → weigh (run os d) ≡ weigh d + length (arrivals os d.context)
unfolding pause resume note_self_write
run-weigh [] d = omega arith
run-weigh (pauses now ∷ os) d = run-weigh os (pause now d)
run-weigh (resumes now ∷ os) d = run-weigh os (resume now d)
run-weigh (notes p now ∷ os) d = run-weigh os (note_self_write p now d)
run-weigh (arrives writing es ∷ os) d =
    let d' = handle_each writing es d in
    let rest =
      run-weigh os d'
      ∙ ap (λ (c : DebounceContext). weigh d' + length (arrivals os c))
          (handle_each-kept writing es d).0 in
    omega (
      arith,
      rest,
      weigh-handle_each writing es d,
      length-append {0} (translated es d.context) (arrivals os (context_after es d.context)),
    )
run-weigh (releases now ∷ os) d =
    let d' = release_held now d in
    let rest =
      run-weigh os d'
      ∙ ap (λ (c : DebounceContext). weigh d' + length (arrivals os c))
          (release_held-context now d) in
    omega (arith, rest, weigh-release_held now d)

-- No event that the test picks is an echo, neither now nor of a write that the run notes.
abbrev pub IsForeign : (VfsEvent → Bool) → List Op → List (FilePath × ℕ) → Type 0
IsForeign f os ws =
    (e : VfsEvent)
    → f e ≡ true
    → (is_echo ws (event_path e) ≡ false) × (is_noted os (event_path e) ≡ false)

module _ (f : VfsEvent → Bool) where
  tally-release_held :
      (now : ℕ) (d : VfsDebouncer)
      → IsForeign f [] d.held.self_writes
      → tally f (release_held now d) ≡ tally f d
  unfolding release_held is_echo
  tally-release_held now d h =
      let ws = retain (λ w. ltb (now - w.1) self_write_memory) d.held.self_writes in
      let emptied = record d { held = record { events = []; self_writes = ws } } in
      let foreign = λ (e : VfsEvent) (k : f e ≡ true).
        is_echo-retain now d.held.self_writes (ancestors (event_path e)) (h e k).0 in
      omega (arith, tally-release_each f ws d.held.events emptied foreign)

  run-tally :
      (os : List Op) (d : VfsDebouncer)
      → IsForeign f os d.held.self_writes
      → tally f (run os d) ≡ tally f d + count f (arrivals os d.context)
  unfolding pause resume note_self_write is_echo
  run-tally [] d h = omega arith
  run-tally (pauses now ∷ os) d h = run-tally os (pause now d) h
  run-tally (resumes now ∷ os) d h = run-tally os (resume now d) h
  run-tally (notes p now ∷ os) d h = run-tally os (note_self_write p now d) (λ e k. ground (
    arith,
    is_echo-set p now d.held.self_writes (ancestors (event_path e)),
    (h e k).0,
    (h e k).1,
  ))
  run-tally (arrives writing es ∷ os) d h =
      let d' = handle_each writing es d in
      let (c, w, n) = handle_each-kept writing es d in
      let foreign : IsForeign f os d'.held.self_writes = subst (IsForeign f os) (sym w) h in
      let rest =
        run-tally os d' foreign
        ∙ ap (λ (x : DebounceContext). tally f d' + count f (arrivals os x)) c in
      omega (
        arith,
        rest,
        tally-handle_each f writing es d,
        count-append f (translated es d.context) (arrivals os (context_after es d.context)),
      )
  run-tally (releases now ∷ os) d h =
      let d' = release_held now d in
      let ws = retain (λ w. ltb (now - w.1) self_write_memory) d.held.self_writes in
      let foreign : IsForeign f os d'.held.self_writes =
        subst (IsForeign f os) (sym (release_held-self_writes now d)) (λ e k. (
          is_echo-retain now d.held.self_writes (ancestors (event_path e)) (h e k).0,
          (h e k).1,
        )) in
      let rest =
        run-tally os d' foreign
        ∙ ap (λ (x : DebounceContext). tally f d' + count f (arrivals os x))
            (release_held-context now d) in
      omega (arith, rest, tally-release_held now d (λ e k. ((h e k).0, refl)))

release_held-empties : (now : ℕ) (d : VfsDebouncer) → (release_held now d).held.events ≡ []
unfolding release_held
release_held-empties now d =
    let ws = retain (λ w. ltb (now - w.1) self_write_memory) d.held.self_writes in
    let emptied = record d { held = record { events = []; self_writes = ws } } in
    ap (λ (h : Held). h.events) (release_each-kept ws d.held.events emptied).1

-- In any run of the debouncer from its start, whatever batches arrive and whenever the processor
-- pauses, resumes, notes its writes and held events are released: the translated events are as many
-- as those sent, held and counted as suppressed together. And of the events that any given test picks,
-- where it picks no event on or below a path that the processor noted as its own write in the run,
-- as many have arrived as were sent or are still held: none is dropped or doubled.
-- A release leaves no event held.
pub run-conserves :
    (os : List Op) (start : ℕ) (f : VfsEvent → Bool)
    → ((e : VfsEvent) → f e ≡ true → is_noted os (event_path e) ≡ false)
    → (length (arrivals os (new_debouncer start).context) ≡ (
        let d = run os (new_debouncer start) in
        length d.sent + length d.held.events + d.suppressed))
      × (count f (arrivals os (new_debouncer start).context)
          ≡ (let d = run os (new_debouncer start) in count f d.sent + count f d.held.events))
      × ((now : ℕ) → (release_held now (run os (new_debouncer start))).held.events ≡ [])
unfolding new_debouncer is_echo
run-conserves os start f h =
    let d = new_debouncer start in
    let none_yet : IsForeign f os d.held.self_writes =
      λ e k. (no_writes-is_echo (ancestors (event_path e)), h e k) in
    (
      omega (arith, run-weigh os d),
      omega (arith, run-tally f os d none_yet),
      λ now. release_held-empties now (run os d),
    )
