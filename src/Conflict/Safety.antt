-- ===== src/Conflict/Safety.antt =====
-- What no history of the engine breaks.
use wsync.Prelude.{
  ℕ, ◌≡◌, true, false, List, [], ◌∷◌, ◌++◌, is_some, Bool-cases, ◌==◌, true, inl, inr, arith, Text,
  text_eq, All-append,
}
use wsync.Conflict.Content.{Codec}
use wsync.Conflict.State.{Parked, EngineState, find_parked, take, restore, new_engine, is_parked}
use wsync.Conflict.Run.{Op, step, run}
use wsync.Conflict.Records.{Fresh, Distinct, find_parked-Fresh, Distinct-append}
use wsync.Conflict.Invariant.{
  IsCoherent, IsSettled, Inv, new_engine-Inv, stamp-Inv, forget-Inv, remove_first-Inv,
}
use wsync.Conflict.Invariant.Fs.{on_fs_addition-Inv, on_fs_update-Inv, on_fs_removal-Inv}
use wsync.Conflict.Invariant.Push.{
  on_push_addition-Inv, on_push_update-Inv, on_push_update_missing-Inv, on_push_removal-Inv,
  on_push_removal_missing-Inv,
}

module _ {c : Codec} where
  take-Inv : (s : EngineState c) (name : Text) → Inv c s → Inv c (step s (Op.takes name))
  unfolding step take
  take-Inv s name v = ground (arith, remove_first-Inv s (λ p. text_eq p.id name) v)

  pub step-Inv : (s : EngineState c) (o : Op c) → Inv c s → Inv c (step s o)
  unfolding step
  step-Inv s (Op.fs_addition now id k) v = on_fs_addition-Inv s now id k v
  step-Inv s (Op.fs_update now pre post) v = on_fs_update-Inv s now pre post v
  step-Inv s (Op.fs_removal now pre) v = on_fs_removal-Inv s now pre v
  step-Inv s (Op.push_addition now id) v = on_push_addition-Inv s now id v
  step-Inv s (Op.push_update now pre k a) v = on_push_update-Inv s now pre k a v
  step-Inv s (Op.push_update_missing now id name props) v =
      on_push_update_missing-Inv s now id name props v
  step-Inv s (Op.push_removal now pre) v = on_push_removal-Inv s now pre v
  step-Inv s (Op.push_removal_missing now id) v = on_push_removal_missing-Inv s now id v
  step-Inv s (Op.stamps id hash) v = stamp-Inv s id hash v
  step-Inv s (Op.forgets id) v = forget-Inv s id v
  step-Inv s (Op.takes name) v = take-Inv s name v
  step-Inv s (Op.sets_race_window window) v = record {
    coherent = v.coherent;
    distinct = v.distinct;
    settled = v.settled;
  }
  step-Inv s (Op.sets_park_limit limit) v = record {
    coherent = v.coherent;
    distinct = v.distinct;
    settled = v.settled;
  }

  run_from-Inv : (s : EngineState c) (os : List (Op c)) → Inv c s → Inv c (run s os)
  unfolding run
  run_from-Inv s [] v = v
  run_from-Inv s (o ∷ os) v = run_from-Inv (step s o) os (step-Inv s o v)

  -- After any history of calls on a new engine, `restore` not among them: every record has the
  -- sides that its classification names, with their content, and Studio's raw state exactly while
  -- Studio has the instance; no two records are about one instance; and an instance with a record
  -- has neither an open race window nor a tombstone.
  pub run-Inv : (os : List (Op c)) → Inv c (run (new_engine c) os)
  run-Inv os = run_from-Inv (new_engine c) os new_engine-Inv

  -- Putting back a record whose instance has no record, no open race window and no tombstone
  -- keeps the invariant.
  pub restore-Inv :
      (s : EngineState c) (p : Parked c)
      → is_parked s p.instance_ref ≡ false
      → IsCoherent c p
      → IsSettled s.pending s.tombstones p
      → Inv c s
      → Inv c (restore s p)
  unfolding restore is_parked
  restore-Inv s p free fits idle v = record {
    coherent = All-append (IsCoherent c) s.parked (p ∷ []) v.coherent (fits, tt);
    distinct =
        Distinct-append s.parked p (find_parked-Fresh p.instance_ref s.parked (ground arith))
          v.distinct;
    settled = All-append (IsSettled s.pending s.tombstones) s.parked (p ∷ []) v.settled (idle, tt);
  }

  append-not-Fresh :
      (id : ℕ) (l : List (Parked c)) (p : Parked c) → p.instance_ref ≡ id → ¬ Fresh id (l ++ p ∷ [])
  append-not-Fresh id [] p e f = f.0 e
  append-not-Fresh id (r ∷ l) p e f = append-not-Fresh id l p e f.1

  append-not-Distinct :
      (l : List (Parked c)) (p : Parked c)
      → is_some (find_parked p.instance_ref l) ≡ true
      → ¬ Distinct (l ++ p ∷ [])
  append-not-Distinct [] p e d = cc
  append-not-Distinct (r ∷ l) p e d = elim (Bool-cases (r.instance_ref == p.instance_ref)) [
    | inl same ↦ append-not-Fresh r.instance_ref l p (ground arith) d.0
    | inr other ↦ append-not-Distinct l p (ground arith) d.1
  ]

  -- Where the instance of a record is parked when the record is put back by `restore`, which asks
  -- nothing, the parked records are no longer of distinct instances.
  pub restore-not-Distinct :
      (s : EngineState c) (p : Parked c)
      → is_parked s p.instance_ref ≡ true
      → ¬ Distinct (restore s p).parked
  unfolding restore is_parked
  restore-not-Distinct s p again = append-not-Distinct s.parked p again
