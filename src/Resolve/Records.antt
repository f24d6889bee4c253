-- ===== src/Resolve/Records.antt =====
-- src/server/resolve.rs: the records of the engine across a resolution.
use wsync.Prelude.{
  ℕ, suc, ◌+◌, ◌≡◌, refl, ap, ◌∙◌, Bool, Option, none, some, List, [], ◌∷◌, ◌++◌, Text, text_eq,
  find_first, remove_first, if◌then◌else◌, Bool-cases, inl, inr, arith,
}
use mathlib.Core.Option.{some-injective}
use wsync.Conflict.Content.{Codec}
use wsync.Conflict.State.{
  both_edited, fs_deleted_studio_edited, studio_deleted_fs_edited, Classification, Parked,
  EngineState, stamp, forget, take, restore,
}
use wsync.Divergence.Compare.{seed_all_baselines}
use wsync.Resolve.{
  Direction, local, studio, LiveTree, LiveInstance, Landing, landed, failed, parse_direction,
  local_of, local_subtree, local_instance, keep_local, keep_studio, conclude, resolve_taken,
  resolve_in, resolve,
}

module _ {c : Codec} (f : Parked c → Bool) where
  -- How many of the records that a test picks are parked.
  abbrev pub picked : List (Parked c) → ℕ
  picked [] = 0
  picked (p ∷ ps) = let rest = picked ps in if f p then suc rest else rest

  picked-append :
      (ps : List (Parked c)) (p : Parked c) → picked (ps ++ p ∷ []) ≡ picked ps + picked (p ∷ [])
  picked-append [] p = ground arith
  picked-append (q ∷ ps) p = ground (arith, picked-append ps p)

  picked-remove_first :
      (t : Parked c → Bool) (ps : List (Parked c)) (p : Parked c)
      → find_first t ps ≡ some p
      → picked (remove_first t ps) + picked (p ∷ []) ≡ picked ps
  picked-remove_first t [] p e = absurd (cc)
  picked-remove_first t (q ∷ ps) p e = elim (Bool-cases (t q)) [
    | inl y ↦
        let same : q ≡ p = some-injective _ _ (ground (arith, e, y)) in rw (y, same) (ground arith)
    | inr n ↦ rw n (ground (arith, picked-remove_first t ps p (ground (arith, e, n))))
  ]

  -- The record `p` where the resolution landed, and otherwise nothing.
  abbrev pub resolved : Parked c → Landing c → ℕ
  resolved p (landed ch) = picked (p ∷ [])
  resolved p (failed w) = 0

module _ {c : Codec} where
  seed-parked :
      (refs : List (ℕ × ℕ)) (s : EngineState c) → (seed_all_baselines refs s).parked ≡ s.parked
  unfolding seed_all_baselines stamp
  seed-parked [] s = refl
  seed-parked (r ∷ refs) s = seed-parked refs (stamp s r.0 r.1)

  local_of-parked :
      (t : LiveTree c) (queued : Bool) (k : Classification) (id : ℕ) (s : EngineState c)
      → (local_of t queued k id s).0.parked ≡ s.parked
  unfolding stamp forget
  local_of-parked t queued fs_deleted_studio_edited id s = refl
  local_of-parked t queued studio_deleted_fs_edited id s = subtree (t.subtree id)
    where
      subtree : (r : Option (List (ℕ × ℕ))) → (local_subtree queued id r s).0.parked ≡ s.parked
      subtree none = refl
      subtree (some refs) = seed-parked refs s
  local_of-parked t queued both_edited id s = edited (t.instance_at id)
    where
      edited : (i : Option (LiveInstance c)) → (local_instance queued id i s).0.parked ≡ s.parked
      edited none = refl
      edited (some i) = refl

  take_found :
      (s : EngineState c) (id : Text) (p : Parked c)
      → find_first (λ q. text_eq q.id id) s.parked ≡ some p
      → take s id ≡ some (p, record s { parked = remove_first (λ q. text_eq q.id id) s.parked })
  unfolding take
  take_found s id p e = rw (take, e) refl

module _ {c : Codec} (f : Parked c → Bool) where
  picked-conclude :
      (p : Parked c) (r : EngineState c × Landing c)
      → picked f (conclude p r).0.parked + resolved f p (conclude p r).1
        ≡ picked f r.0.parked + picked f (p ∷ [])
  unfolding restore
  picked-conclude p (s, landed ch) = refl
  picked-conclude p (s, failed w) = omega (arith, picked-append f s.parked p)

  picked-resolve_taken :
      (t : LiveTree c) (queued : Bool) (written : Option Bool)
      (meanwhile : EngineState c → EngineState c) (d : Direction) (p : Parked c) (s : EngineState c)
      → ((u : EngineState c) → (meanwhile u).parked ≡ u.parked)
      → let r = resolve_taken t queued written meanwhile d p s in
        picked f r.0.parked + resolved f p r.1 ≡ picked f s.parked + picked f (p ∷ [])
  unfolding keep_local
  picked-resolve_taken t queued written meanwhile local p s h =
      picked-conclude p (keep_local t queued p s)
      ∙ ap (λ (l : List (Parked c)). picked f l + picked f (p ∷ []))
          (local_of-parked t queued p.classification p.instance_ref s)
  picked-resolve_taken t queued written meanwhile studio p s h =
      picked-conclude p (meanwhile s, keep_studio t written p)
      ∙ ap (λ (l : List (Parked c)). picked f l + picked f (p ∷ [])) (h s)

  -- Take a request for a parked conflict with a direction, and let nothing else park or resolve a
  -- conflict while it waits. Whatever the tree, the queue and the write processor answer, for every
  -- test on records, as many picked records are parked after it as before where the resolution
  -- failed, and where it landed, the requested conflict is gone and no other: a conflict is never
  -- lost and never parked twice.
  pub resolve_keeps :
      (t : LiveTree c) (queued : Bool) (written : Option Bool)
      (meanwhile : EngineState c → EngineState c) (id : Text) (keep choice : Option Text)
      (d : Direction) (p : Parked c) (s : EngineState c)
      → parse_direction keep choice ≡ some (some d)
      → find_first (λ q. text_eq q.id id) s.parked ≡ some p
      → ((u : EngineState c) → (meanwhile u).parked ≡ u.parked)
      → let r = resolve t queued written meanwhile (some id) keep choice s in
        picked f r.0.parked + resolved f p r.1 ≡ picked f s.parked
  unfolding resolve
  resolve_keeps t queued written meanwhile id keep choice d p s k e h =
      let taken = record s { parked = remove_first (λ q. text_eq q.id id) s.parked } in
      let step : resolve t queued written meanwhile (some id) keep choice s
          ≡ resolve_taken t queued written meanwhile d p taken =
        rw (resolve, k) (ap (resolve_in t queued written meanwhile d s) (take_found s id p e)) in
      ap (λ (r : EngineState c × Landing c). picked f r.0.parked + resolved f p r.1) step
      ∙ picked-resolve_taken t queued written meanwhile d p taken h
      ∙ picked-remove_first f (λ q. text_eq q.id id) s.parked p e
