-- ===== src/Debouncer/Counts.antt =====
-- What one step of src/vfs/debouncer.rs does to the number of events sent, held and suppressed.
use wsync.Prelude.{
  ℕ, suc, ◌+◌, ◌≡◌, refl, ap, ◌∙◌, Bool, true, false, Option, none, some, List, [], ◌∷◌, ◌++◌,
  length, length-append, Bool-cases, inl, inr, arith,
}
use wsync.Debouncer.{
  FilePath, VfsEvent, event_path, DebouncedEvent, DebounceContext, debounce, VfsDebouncer, is_echo,
  put_translated, put_released, handle_each, release_each,
}
use wsync.Debouncer.Run.{cons_event, translated, context_after, count}

pub count-append :
    (f : VfsEvent → Bool) (xs ys : List VfsEvent) → count f (xs ++ ys) ≡ count f xs + count f ys
count-append f [] ys = ground arith
count-append f (x ∷ xs) ys = ground (arith, count-append f xs ys)

-- How many of the events that a test picks were sent or are held.
abbrev pub tally : (VfsEvent → Bool) → VfsDebouncer → ℕ
tally f d = count f d.sent + count f d.held.events

abbrev pub event_list : Option VfsEvent → List VfsEvent
event_list o = cons_event o []

-- All events that were sent, are held or were suppressed.
abbrev pub weigh : VfsDebouncer → ℕ
weigh d = length d.sent + length d.held.events + d.suppressed

pub put_translated-context :
    (writing : Bool) (o : Option VfsEvent) (d : VfsDebouncer)
    → (put_translated writing o d).context ≡ d.context
put_translated-context writing none d = refl
put_translated-context true (some e) d = refl
put_translated-context false (some e) d = refl

module _ (f : VfsEvent → Bool) where
  pub tally-put :
      (writing : Bool) (o : Option VfsEvent) (d : VfsDebouncer)
      → tally f (put_translated writing o d) ≡ tally f d + count f (event_list o)
  tally-put writing none d = ground arith
  tally-put true (some e) d = ground (arith, count-append f d.held.events (e ∷ []))
  tally-put false (some e) d = ground (arith, count-append f d.sent (e ∷ []))

  pub count-cons_event :
      (o : Option VfsEvent) (es : List VfsEvent)
      → count f (cons_event o es) ≡ count f (event_list o) + count f es
  count-cons_event none es = ground arith
  count-cons_event (some e) es = ground arith

  pub tally-handle_each :
      (writing : Bool) (es : List DebouncedEvent) (d : VfsDebouncer)
      → tally f (handle_each writing es d) ≡ tally f d + count f (translated es d.context)
  unfolding handle_each
  tally-handle_each writing [] d = ground arith
  tally-handle_each writing (e ∷ es) d =
      let r = debounce e d.context in
      let d' = put_translated writing r.0 (record d { context = r.1 }) in
      let same : d'.context ≡ r.1 =
        put_translated-context writing r.0 (record d { context = r.1 }) in
      let rest : tally f (handle_each writing es d') ≡ tally f d' + count f (translated es r.1) =
        tally-handle_each writing es d'
        ∙ ap (λ (c : DebounceContext). tally f d' + count f (translated es c)) same in
      omega (
        arith,
        rest,
        tally-put writing r.0 (record d { context = r.1 }),
        count-cons_event r.0 (translated es r.1),
      )

  pub tally-put_released :
      (b : Bool) (e : VfsEvent) (d : VfsDebouncer)
      → (f e ≡ true → b ≡ false)
      → tally f (put_released b e d) ≡ tally f d + count f (e ∷ [])
  tally-put_released true e d h = elim (Bool-cases (f e)) [
    | inl y ↦ let no_echo = h y in absurd (cc)
    | inr n ↦ ground (arith, n)
  ]
  tally-put_released false e d h = ground (arith, count-append f d.sent (e ∷ []))

  -- Where the test picks no echo, a release sends all that it picks.
  pub tally-release_each :
      (ws : List (FilePath × ℕ)) (es : List VfsEvent) (d : VfsDebouncer)
      → ((e : VfsEvent) → f e ≡ true → is_echo ws (event_path e) ≡ false)
      → tally f (release_each ws es d) ≡ tally f d + count f es
  unfolding release_each
  tally-release_each ws [] d h = ground arith
  tally-release_each ws (e ∷ es) d h =
      let b = is_echo ws (event_path e) in
      ground
        (arith, tally-release_each ws es (put_released b e d) h, tally-put_released b e d (h e))

pub weigh-put_released :
    (b : Bool) (e : VfsEvent) (d : VfsDebouncer) → weigh (put_released b e d) ≡ weigh d + 1
weigh-put_released true e d = omega arith
weigh-put_released false e d = omega (arith, length-append {0} d.sent (e ∷ []))

-- Every released event is sent or counted as suppressed.
pub weigh-release_each :
    (ws : List (FilePath × ℕ)) (es : List VfsEvent) (d : VfsDebouncer)
    → weigh (release_each ws es d) ≡ weigh d + length es
unfolding release_each
weigh-release_each ws [] d = omega arith
weigh-release_each ws (e ∷ es) d =
    let b = is_echo ws (event_path e) in
    omega (arith, weigh-release_each ws es (put_released b e d), weigh-put_released b e d)

pub count-all : (es : List VfsEvent) → count (λ e. true) es ≡ length es
count-all [] = refl
count-all (e ∷ es) = ap suc (count-all es)

pub put_translated-kept :
    (writing : Bool) (o : Option VfsEvent) (d : VfsDebouncer)
    → ((put_translated writing o d).context ≡ d.context)
      × ((put_translated writing o d).held.self_writes ≡ d.held.self_writes)
      × ((put_translated writing o d).suppressed ≡ d.suppressed)
put_translated-kept writing none d = (refl, refl, refl)
put_translated-kept true (some e) d = (refl, refl, refl)
put_translated-kept false (some e) d = (refl, refl, refl)

pub put_released-kept :
    (b : Bool) (e : VfsEvent) (d : VfsDebouncer)
    → ((put_released b e d).context ≡ d.context) × ((put_released b e d).held ≡ d.held)
put_released-kept true e d = (refl, refl)
put_released-kept false e d = (refl, refl)

pub handle_each-kept :
    (writing : Bool) (es : List DebouncedEvent) (d : VfsDebouncer)
    → ((handle_each writing es d).context ≡ context_after es d.context)
      × ((handle_each writing es d).held.self_writes ≡ d.held.self_writes)
      × ((handle_each writing es d).suppressed ≡ d.suppressed)
unfolding handle_each
handle_each-kept writing [] d = (refl, refl, refl)
handle_each-kept writing (e ∷ es) d =
    let r = debounce e d.context in
    let d0 = record d { context = r.1 } in
    let d' = put_translated writing r.0 d0 in
    let (c, w, n) = handle_each-kept writing es d' in
    let (c', w', n') = put_translated-kept writing r.0 d0 in
    (c ∙ ap (context_after es) c', w ∙ w', n ∙ n')

pub weigh-handle_each :
    (writing : Bool) (es : List DebouncedEvent) (d : VfsDebouncer)
    → weigh (handle_each writing es d) ≡ weigh d + length (translated es d.context)
weigh-handle_each writing es d =
    let all_events = λ (e : VfsEvent). true in
    omega (
      arith,
      tally-handle_each all_events writing es d,
      count-all d.sent,
      count-all d.held.events,
      count-all (handle_each writing es d).sent,
      count-all (handle_each writing es d).held.events,
      count-all (translated es d.context),
      (handle_each-kept writing es d).2,
    )

pub release_each-kept :
    (ws : List (FilePath × ℕ)) (es : List VfsEvent) (d : VfsDebouncer)
    → ((release_each ws es d).context ≡ d.context) × ((release_each ws es d).held ≡ d.held)
unfolding release_each
release_each-kept ws [] d = (refl, refl)
release_each-kept ws (e ∷ es) d =
    let b = is_echo ws (event_path e) in
    let (c, h) = release_each-kept ws es (put_released b e d) in
    let (c', h') = put_released-kept b e d in (c ∙ c', h ∙ h')
