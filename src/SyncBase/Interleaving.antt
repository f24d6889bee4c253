-- ===== src/SyncBase/Interleaving.antt =====
-- The writer takes its snapshot with no lock held: what other calls may do in between, and what is
-- recorded for all that.
use wsync.Prelude.{
  ℕ, ◌≤◌, ◌<◌, ◌≡◌, refl, Bool, true, Option, none, some, List, [], ◌∷◌, ◌++◌, inl, inr, arith,
  Option-cases,
}
use wsync.SyncBase.{Place, Snapshot, Stored}
use wsync.SyncBase.Session.{
  Inner, Pending, load, begin_compare, commit, on_disconnect, on_reconnect, tick_commit, tick_store,
  merge,
}

-- A call of another thread while the writer takes its snapshot.
pub data Call : Type 0 where
  compares : Option Place → Call
  commits : Snapshot → ℕ → Bool → ℕ → Bool → Call
  disconnects : ℕ → Call
  reconnects : ℕ → Call

unfoldable pub step : Inner → Call → Inner
step i (compares place) = begin_compare place i
step i (commits snap generation settle seconds written) =
    commit snap generation settle seconds written i
step i (disconnects generation) = on_disconnect generation i
step i (reconnects generation) = on_reconnect generation i

unfoldable pub steps : Inner → List Call → Inner
steps i [] = i
steps i (x ∷ xs) = steps (step i x) xs

-- A snapshot waits only in a synced session, under the epoch that still runs.
pub record Inv (i : Inner) : Type 0 where
  pub waiting : (p : Pending) → i.pending ≡ some p → (i.synced ≡ true) × (p.epoch ≡ i.epoch)
  pub resumable : i.synced ≡ true → i.resume_generation ≡ none

pub load-Inv : (file : Option Stored) → Inv (load file)
unfolding load
load-Inv file = record { waiting = λ p e. cc; resumable = λ e. cc }

step-Inv : (i : Inner) (x : Call) → Inv i → Inv (step i x)
unfolding step begin_compare commit on_disconnect on_reconnect
step-Inv i (compares place) v = record { waiting = λ p e. cc; resumable = λ e. cc }
step-Inv i (commits snap generation settle seconds written) v = record {
  waiting = λ p e. cc;
  resumable = λ e. refl;
}
step-Inv i (disconnects generation) v = record {
  waiting = λ p e. ground (arith, v.waiting p);
  resumable = λ e. ground (arith, v.resumable);
}
step-Inv i (reconnects generation) v = record {
  waiting = λ p e. ground (arith, v.waiting p, v.resumable);
  resumable = λ e. ground (arith, v.resumable);
}

-- A commit starts a session with nothing waiting, whatever was before.
pub commits-Inv :
    (i : Inner) (snap : Snapshot) (generation : ℕ) (settle : Bool) (seconds : ℕ) (written : Bool)
    → Inv (commit snap generation settle seconds written i)
unfolding commit
commits-Inv i snap generation settle seconds written = record {
  waiting = λ p e. cc;
  resumable = λ e. refl;
}

tick_commit-Inv :
    (i : Inner) (generation : ℕ) (present : Bool) (seconds : ℕ) (written : Bool)
    → Inv i
    → Inv (tick_commit generation present seconds written i).0
unfolding tick_commit
tick_commit-Inv i generation present seconds written v = record {
  waiting = λ p e. ground (arith, v.waiting p);
  resumable = λ e. ground (arith, v.resumable);
}

tick_store-Inv :
    (i : Inner) (epoch : ℕ) (snap : Snapshot) (taken_at : ℕ)
    → Inv i
    → Inv (tick_store epoch snap taken_at i)
unfolding tick_store
tick_store-Inv i epoch snap taken_at v = record {
  waiting = λ p e. ground (arith, v.waiting p);
  resumable = λ e. ground (arith, v.resumable);
}

-- A call that ends the session or starts another: a compare, a commit, the loss of the plugin of
-- a synced session, and a reconnect that resumes.
abbrev pub Breaks : Inner → Call → Type 0
Breaks i (compares place) = Unit {0}
Breaks i (commits snap generation settle seconds written) = Unit {0}
Breaks i (disconnects generation) = i.synced ≡ true
Breaks i (reconnects generation) = i.resume_generation ≡ some generation

epoch-step : (i : Inner) (x : Call) → i.epoch ≤ (step i x).epoch
unfolding step begin_compare commit on_disconnect on_reconnect
epoch-step i (compares place) = ground arith
epoch-step i (commits snap generation settle seconds written) = ground arith
epoch-step i (disconnects generation) = ground arith
epoch-step i (reconnects generation) = ground arith

epoch-steps : (i : Inner) (xs : List Call) → i.epoch ≤ (steps i xs).epoch
unfolding steps
epoch-steps i [] = omega arith
epoch-steps i (x ∷ xs) = omega (arith, epoch-step i x, epoch-steps (step i x) xs)

epoch-Breaks : (i : Inner) (x : Call) → Breaks i x → i.epoch < (step i x).epoch
unfolding step begin_compare commit on_disconnect on_reconnect
epoch-Breaks i (compares place) b = ground arith
epoch-Breaks i (commits snap generation settle seconds written) b = ground arith
epoch-Breaks i (disconnects generation) b = ground arith
epoch-Breaks i (reconnects generation) b = ground arith

epoch-interrupted :
    (i : Inner) (xs : List Call) (x : Call) (ys : List Call)
    → Breaks (steps i xs) x
    → i.epoch < (steps i (xs ++ x ∷ ys)).epoch
unfolding steps
epoch-interrupted i [] x ys b = omega (arith, epoch-Breaks i x b, epoch-steps (step i x) ys)
epoch-interrupted i (y ∷ xs) x ys b =
    omega (arith, epoch-step i y, epoch-interrupted (step i y) xs x ys b)

pending-step : (i : Inner) (x : Call) → i.pending ≡ none → (step i x).pending ≡ none
unfolding step begin_compare commit on_disconnect on_reconnect
pending-step i (compares place) e = refl
pending-step i (commits snap generation settle seconds written) e = refl
pending-step i (disconnects generation) e = ground arith
pending-step i (reconnects generation) e = ground arith

pending-steps : (i : Inner) (xs : List Call) → i.pending ≡ none → (steps i xs).pending ≡ none
unfolding steps
pending-steps i [] e = e
pending-steps i (x ∷ xs) e = pending-steps (step i x) xs (pending-step i x e)

pending-Breaks : (i : Inner) (x : Call) → Inv i → Breaks i x → (step i x).pending ≡ none
unfolding step begin_compare commit on_disconnect on_reconnect
pending-Breaks i (compares place) v b = refl
pending-Breaks i (commits snap generation settle seconds written) v b = refl
pending-Breaks i (disconnects generation) v b = ground arith
pending-Breaks i (reconnects generation) v b = elim (Option-cases i.pending) [
  | inl e ↦ ground arith
  | inr (p, e) ↦ absurd (ground (arith, v.waiting p, v.resumable))
]

pending-interrupted :
    (i : Inner) (xs : List Call) (x : Call) (ys : List Call)
    → Inv i
    → Breaks (steps i xs) x
    → (steps i (xs ++ x ∷ ys)).pending ≡ none
unfolding steps
pending-interrupted i [] x ys v b = pending-steps (step i x) ys (pending-Breaks i x v b)
pending-interrupted i (y ∷ xs) x ys v b = pending-interrupted (step i y) xs x ys (step-Inv i y v) b

tick_commit-pending :
    (i : Inner) (generation : ℕ) (present : Bool) (seconds : ℕ) (written : Bool)
    → (tick_commit generation present seconds written i).0.pending ≡ none
unfolding tick_commit
tick_commit-pending i generation present seconds written = ground arith

tick_commit-epoch :
    (i : Inner) (generation : ℕ) (present : Bool) (seconds : ℕ) (written : Bool) (e : ℕ)
    → (tick_commit generation present seconds written i).1 ≡ some e
    → (tick_commit generation present seconds written i).0.epoch ≡ e
unfolding tick_commit
tick_commit-epoch i generation present seconds written e h = ground arith

tick_commit-synced :
    (i : Inner) (generation : ℕ) (present : Bool) (seconds : ℕ) (written : Bool) (e : ℕ)
    → (tick_commit generation present seconds written i).1 ≡ some e
    → (tick_commit generation present seconds written i).0.synced ≡ true
unfolding tick_commit
tick_commit-synced i generation present seconds written e h = ground arith

tick_commit-records :
    (i : Inner) (generation seconds : ℕ) (written : Bool) (p : Pending)
    → i.pending ≡ some p
    → i.synced ≡ true
    → p.epoch ≡ i.epoch
    → (tick_commit generation true seconds written i).0.stored
      ≡ some (merge i.stored p.snapshot i.place seconds)
unfolding tick_commit
tick_commit-records i generation seconds written p h y e = ground arith

-- With nothing waiting a tick records nothing.
tick_commit-stored :
    (i : Inner) (generation : ℕ) (present : Bool) (seconds : ℕ) (written : Bool)
    → i.pending ≡ none
    → (tick_commit generation present seconds written i).0.stored ≡ i.stored
unfolding tick_commit
tick_commit-stored i generation present seconds written h = ground arith

-- A snapshot that comes under an older epoch is dropped.
tick_store-refused :
    (e : ℕ) (snap : Snapshot) (taken_at : ℕ) (t : Inner)
    → t.pending ≡ none
    → e < t.epoch
    → (tick_store e snap taken_at t).pending ≡ none
unfolding tick_store
tick_store-refused e snap taken_at t p l = ground arith

steps-Inv : (i : Inner) (xs : List Call) → Inv i → Inv (steps i xs)
unfolding steps
steps-Inv i [] v = v
steps-Inv i (x ∷ xs) v = steps-Inv (step i x) xs (step-Inv i x v)

module _ (i : Inner) (generation generation' : ℕ) (present present' : Bool) (seconds seconds' : ℕ)
    (written written' : Bool) (e : ℕ) (snap : Snapshot) (taken_at : ℕ) where
  abbrev pub after_tick : Inner
  after_tick = (tick_commit generation present seconds written i).0

  -- A tick wants a snapshot, other threads make the calls `xs` while it is taken and the calls `ys`
  -- before the next tick. If any of these calls ends the session or starts another, the next tick
  -- leaves the base as the calls left it: the snapshot is not recorded.
  pub interrupted-stored :
      (xs ys zs : List Call) (x : Call)
      → Inv i
      → (tick_commit generation present seconds written i).1 ≡ some e
      → (Breaks (steps after_tick xs) x
          → let t = steps (tick_store e snap taken_at (steps after_tick (xs ++ x ∷ ys))) zs in
            (tick_commit generation' present' seconds' written' t).0.stored ≡ t.stored)
        × (Breaks (steps (tick_store e snap taken_at (steps after_tick xs)) ys) x
            → let t = steps (tick_store e snap taken_at (steps after_tick xs)) (ys ++ x ∷ zs) in
              (tick_commit generation' present' seconds' written' t).0.stored ≡ t.stored)
  interrupted-stored xs ys zs x v h = (
    (λ b. tick_commit-stored _ generation' present' seconds' written' (
        pending-steps _ zs (
          tick_store-refused e snap taken_at (steps after_tick (xs ++ x ∷ ys))
            (pending-steps after_tick (xs ++ x ∷ ys)
              (tick_commit-pending i generation present seconds written))
            (omega (
              arith,
              epoch-interrupted after_tick xs x ys b,
              tick_commit-epoch i generation present seconds written e h,
            ))))),
    (λ b. tick_commit-stored _ generation' present' seconds' written' (
        pending-interrupted _ ys x zs
          (tick_store-Inv _ e snap taken_at
            (steps-Inv after_tick xs (tick_commit-Inv i generation present seconds written v)))
          b)),
  )

-- If nothing comes between, the snapshot that a tick takes is merged into the base at the next
-- tick, provided that the plugin is still there.
pub undisturbed-stored :
    (i : Inner) (generation generation' seconds seconds' : ℕ) (present written written' : Bool)
    (e : ℕ) (snap : Snapshot) (taken_at : ℕ)
    → (tick_commit generation present seconds written i).1 ≡ some e
    → let t = tick_store e snap taken_at (tick_commit generation present seconds written i).0 in
      (tick_commit generation' true seconds' written' t).0.stored
      ≡ some (merge t.stored snap t.place seconds')
unfolding tick_store
undisturbed-stored i generation generation' seconds seconds' present written written' e snap taken
      h =
    let t = (tick_commit generation present seconds written i).0 in
    let synced = tick_commit-synced i generation present seconds written e h in
    let same = tick_commit-epoch i generation present seconds written e h in
    tick_commit-records _ generation' seconds' written' (record { epoch = e; snapshot = snap })
      (ground arith) (ground arith) (ground arith)
