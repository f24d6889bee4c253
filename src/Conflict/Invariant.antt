-- ===== src/Conflict/Invariant.antt =====
-- What holds of the engine between two calls: each record is coherent, no instance has two
-- records, and a parked instance has no open race window and no tombstone.
pub mod Fs
pub mod Push
use wsync.Prelude.{
  ℕ, ◌+◌, ◌≡◌, ◌≢◌, refl, Bool, true, false, Option, none, some, List, [], ◌∷◌, ◌++◌, inl, inr,
  arith, All, All-append, All-remove_first, remove_first, All-modify_first, All-map, is_some,
  NatMap, insert, remove, Option-cases, Bool-cases,
}
use wsync.Conflict.Content.{Codec}
use wsync.Conflict.State.{
  Classification, both_edited, fs_deleted_studio_edited, studio_deleted_fs_edited, Parked, Pending,
  Tombstone, EngineState, of_instance, find_parked, remove_parked, modify_parked, live_pending,
  live_tombstones, prune, park, stamp, forget, new_engine,
}
use wsync.Conflict.Records.{
  Fresh, Distinct, find_parked-Fresh, Distinct-append, Distinct-remove, Distinct-modify,
}

-- Which sides are there under a classification.
abbrev pub SidesFit : Classification → Bool → Bool → Type 0
SidesFit both_edited fs studio = (fs ≡ true) × (studio ≡ true)
SidesFit fs_deleted_studio_edited fs studio = (fs ≡ false) × (studio ≡ true)
SidesFit studio_deleted_fs_edited fs studio = (fs ≡ true) × (studio ≡ false)

pub record IsCoherent (c : Codec) (p : Parked c) : Type 0 where
  pub sides : SidesFit p.classification p.fs.present p.studio.present
  pub fs_content : is_some p.fs.content ≡ p.fs.present
  pub studio_content : is_some p.studio.content ≡ p.studio.present
  pub studio_kept : is_some p.studio_apply ≡ p.studio.present

-- The instance of a record has nothing pending and no tombstone.
abbrev pub IsSettled : {c : Codec} → NatMap Pending → NatMap (Tombstone c) → Parked c → Type 0
IsSettled w t p = (w p.instance_ref ≡ none) × (t p.instance_ref ≡ none)

pub record Inv (c : Codec) (s : EngineState c) : Type 0 where
  pub coherent : All (IsCoherent c) s.parked
  pub distinct : Distinct s.parked
  pub settled : All (IsSettled s.pending s.tombstones) s.parked

-- An entry that is absent stays absent.
abbrev pub Shrinks : {V : Type 0} → NatMap V → NatMap V → Type 0
Shrinks m m' = (j : ℕ) → m j ≡ none → m' j ≡ none

pub Shrinks-remove : {V : Type 0} (id : ℕ) (m : NatMap V) → Shrinks m (remove id m)
Shrinks-remove id m j h = ground arith

module _ {c : Codec} where
  pub new_engine-Inv : Inv c (new_engine c)
  unfolding new_engine
  new_engine-Inv = record { coherent = tt; distinct = tt; settled = tt }

  pub IsSettled-Shrinks :
      (w w' : NatMap Pending) (t t' : NatMap (Tombstone c)) (l : List (Parked c))
      → Shrinks w w'
      → Shrinks t t'
      → All (IsSettled w t) l
      → All (IsSettled w' t') l
  IsSettled-Shrinks w w' t t' l hw ht h =
      All-map (IsSettled w t) (IsSettled w' t') l
        (λ p k. (hw p.instance_ref k.0, ht p.instance_ref k.1)) h

  pub IsSettled-insert_pending :
      (id : ℕ) (e : Pending) (w : NatMap Pending) (t : NatMap (Tombstone c)) (l : List (Parked c))
      → Fresh id l
      → All (IsSettled w t) l
      → All (IsSettled (insert id e w) t) l
  IsSettled-insert_pending id e w t [] f h = tt
  IsSettled-insert_pending id e w t (p ∷ l) f h =
      (ground arith, IsSettled-insert_pending id e w t l f.1 h.1)

  pub IsSettled-insert_tombstone :
      (id : ℕ) (e : Tombstone c) (w : NatMap Pending) (t : NatMap (Tombstone c))
      (l : List (Parked c))
      → Fresh id l
      → All (IsSettled w t) l
      → All (IsSettled w (insert id e t)) l
  IsSettled-insert_tombstone id e w t [] f h = tt
  IsSettled-insert_tombstone id e w t (p ∷ l) f h =
      (ground arith, IsSettled-insert_tombstone id e w t l f.1 h.1)

  -- Only the tables change, and no entry of a parked instance appears.
  pub tables-Inv :
      (s : EngineState c) (b : NatMap ℕ) (w : NatMap Pending) (t : NatMap (Tombstone c))
      → Shrinks s.pending w
      → Shrinks s.tombstones t
      → Inv c s
      → Inv c (record s { baselines = b; pending = w; tombstones = t })
  tables-Inv s b w t hw ht v = record {
    coherent = v.coherent;
    distinct = v.distinct;
    settled = IsSettled-Shrinks s.pending w s.tombstones t s.parked hw ht v.settled;
  }

  pub prune-Inv : (now : ℕ) (s : EngineState c) → Inv c s → Inv c (prune now s)
  unfolding prune
  prune-Inv now s v = tables-Inv s _ _ _ (λ j h. ground arith) (λ j h. ground arith) v

  pub stamp-Inv : (s : EngineState c) (id hash : ℕ) → Inv c s → Inv c (stamp s id hash)
  unfolding stamp
  stamp-Inv s id hash v =
      tables-Inv s _ _ _ (Shrinks-remove id s.pending) (Shrinks-remove id s.tombstones) v

  pub forget-Inv : (s : EngineState c) (id : ℕ) → Inv c s → Inv c (forget s id)
  unfolding forget
  forget-Inv s id v =
      tables-Inv s _ _ _ (Shrinks-remove id s.pending) (Shrinks-remove id s.tombstones) v

  -- A record leaves.
  pub remove_first-Inv :
      (s : EngineState c) (t : Parked c → Bool)
      → Inv c s
      → Inv c (record s { parked = remove_first t s.parked })
  remove_first-Inv s t v = record {
    coherent = All-remove_first (IsCoherent c) t s.parked v.coherent;
    distinct = Distinct-remove t s.parked v.distinct;
    settled = All-remove_first (IsSettled s.pending s.tombstones) t s.parked v.settled;
  }

  pub remove_parked-Inv :
      (s : EngineState c) (id : ℕ)
      → Inv c s
      → Inv c (record s { parked = remove_parked id s.parked })
  remove_parked-Inv s id v = remove_first-Inv s (of_instance id) v

  -- A record changes, and stays coherent and about its instance.
  pub modify_parked-Inv :
      (s : EngineState c) (id : ℕ) (f : Parked c → Parked c)
      → ((p : Parked c) → (f p).instance_ref ≡ p.instance_ref)
      → ((p : Parked c) → find_parked id s.parked ≡ some p → IsCoherent c p → IsCoherent c (f p))
      → Inv c s
      → Inv c (record s { parked = modify_parked id f s.parked })
  modify_parked-Inv s id f keeps fits v = record {
    coherent = All-modify_first (IsCoherent c) (of_instance id) f s.parked fits v.coherent;
    distinct = Distinct-modify f keeps id s.parked v.distinct;
    settled =
        All-modify_first (IsSettled s.pending s.tombstones) (of_instance id) f s.parked
          (λ p e h. ground (arith, keeps p)) v.settled;
  }

  -- `park` on an instance with no record.
  pub park-Inv :
      (s : EngineState c) (p : Parked c)
      → find_parked p.instance_ref s.parked ≡ none
      → IsCoherent c p
      → Inv c s
      → Inv c (park s p).0
  unfolding park
  park-Inv s p free fits v = ground (arith, stored, warned)
    where
      stored : Inv c (record s {
        parked = s.parked ++ p ∷ [];
        next_id = s.next_id + 1;
        pending = remove p.instance_ref s.pending;
        tombstones = remove p.instance_ref s.tombstones;
      })
      stored = record {
        coherent = All-append (IsCoherent c) s.parked (p ∷ []) v.coherent (fits, tt);
        distinct =
            Distinct-append s.parked p (find_parked-Fresh p.instance_ref s.parked free) v.distinct;
        settled =
            All-append _ s.parked (p ∷ [])
              (IsSettled-Shrinks s.pending _ s.tombstones _ s.parked
                (Shrinks-remove p.instance_ref s.pending)
                (Shrinks-remove p.instance_ref s.tombstones) v.settled)
              ((ground arith, ground arith), tt);
      }

      warned : Inv c (record s { overflow_warned = true })
      warned = record { coherent = v.coherent; distinct = v.distinct; settled = v.settled }
