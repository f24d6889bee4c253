-- ===== src/Conflict/Records.antt =====
-- The list of parked records: searches by instance, and records of distinct instances.
use wsync.Prelude.{
  ℕ, ◌≡◌, ◌≢◌, refl, inl, inr, none, some, List, [], ◌∷◌, ◌++◌, arith, ◌==◌, Bool, Bool-cases,
  remove_first,
}
use wsync.Conflict.Content.{Codec}
use wsync.Conflict.State.{Parked, find_parked, remove_parked, modify_parked}

module _ {c : Codec} where
  -- No record of the list is about `id`.
  abbrev pub Fresh : ℕ → List (Parked c) → Type 0
  Fresh id [] = Unit {0}
  Fresh id (p ∷ l) = (p.instance_ref ≢ id) × Fresh id l

  -- No two records are about one instance.
  abbrev pub Distinct : List (Parked c) → Type 0
  Distinct [] = Unit {0}
  Distinct (p ∷ l) = Fresh p.instance_ref l × Distinct l

  pub find_parked-Fresh : (id : ℕ) (l : List (Parked c)) → find_parked id l ≡ none → Fresh id l
  find_parked-Fresh id [] h = tt
  find_parked-Fresh id (p ∷ l) h = ground (arith, find_parked-Fresh id l)

  pub Fresh-find_parked : (id : ℕ) (l : List (Parked c)) → Fresh id l → find_parked id l ≡ none
  Fresh-find_parked id [] h = refl
  Fresh-find_parked id (p ∷ l) h = ground (arith, Fresh-find_parked id l h.1)

  pub find_parked-instance :
      (id : ℕ) (l : List (Parked c)) (p : Parked c)
      → find_parked id l ≡ some p
      → p.instance_ref ≡ id
  find_parked-instance id [] p h = cc
  find_parked-instance id (q ∷ l) p h = ground (arith, find_parked-instance id l p)

  Fresh-append :
      (id : ℕ) (l : List (Parked c)) (p : Parked c)
      → p.instance_ref ≢ id
      → Fresh id l
      → Fresh id (l ++ p ∷ [])
  Fresh-append id [] p h f = (h, tt)
  Fresh-append id (q ∷ l) p h f = (f.0, Fresh-append id l p h f.1)

  pub Distinct-append :
      (l : List (Parked c)) (p : Parked c)
      → Fresh p.instance_ref l
      → Distinct l
      → Distinct (l ++ p ∷ [])
  Distinct-append [] p f d = (tt, tt)
  Distinct-append (q ∷ l) p f d =
      (Fresh-append q.instance_ref l p (λ e. f.0 (ground arith)) d.0, Distinct-append l p f.1 d.1)

  Fresh-remove :
      (id : ℕ) (t : Parked c → Bool) (l : List (Parked c))
      → Fresh id l
      → Fresh id (remove_first t l)
  Fresh-remove id t [] f = tt
  Fresh-remove id t (p ∷ l) f = ground (arith, Fresh-remove id t l f.1)

  pub Distinct-remove :
      (t : Parked c → Bool) (l : List (Parked c)) → Distinct l → Distinct (remove_first t l)
  Distinct-remove t [] d = tt
  Distinct-remove t (p ∷ l) d =
      ground (arith, Distinct-remove t l d.1, Fresh-remove p.instance_ref t l d.0)

  -- The list holds one record of the instance at most, so none is left.
  pub remove_parked-Fresh :
      (id : ℕ) (l : List (Parked c)) → Distinct l → Fresh id (remove_parked id l)
  remove_parked-Fresh id [] d = tt
  remove_parked-Fresh id (p ∷ l) d = elim (Bool-cases (p.instance_ref == id)) [
    | inl e ↦ rw e (same-Fresh (ground arith) d.0)
    | inr e ↦ rw e ((λ h. ground arith), remove_parked-Fresh id l d.1)
  ]
    where
      same-Fresh : p.instance_ref ≡ id → Fresh p.instance_ref l → Fresh id l
      same-Fresh e f = rw (← e) f

  module _ (f : Parked c → Parked c)
      (keeps : (p : Parked c) → (f p).instance_ref ≡ p.instance_ref) where
    Fresh-modify : (id j : ℕ) (l : List (Parked c)) → Fresh id l → Fresh id (modify_parked j f l)
    Fresh-modify id j [] h = tt
    Fresh-modify id j (p ∷ l) h = ground (arith, Fresh-modify id j l h.1, keeps p)

    pub Distinct-modify :
        (j : ℕ) (l : List (Parked c)) → Distinct l → Distinct (modify_parked j f l)
    Distinct-modify j [] d = tt
    Distinct-modify j (p ∷ l) d =
        ground (arith, Distinct-modify j l d.1, Fresh-modify p.instance_ref j l d.0, keeps p)

    pub find_parked-modify_ne :
        (id j : ℕ) (l : List (Parked c))
        → id ≢ j
        → find_parked id (modify_parked j f l) ≡ find_parked id l
    find_parked-modify_ne id j [] h = refl
    find_parked-modify_ne id j (p ∷ l) h = ground (arith, find_parked-modify_ne id j l h, keeps p)

    pub find_parked-modify_self :
        (id : ℕ) (l : List (Parked c)) (p : Parked c)
        → find_parked id l ≡ some p
        → find_parked id (modify_parked id f l) ≡ some (f p)
    find_parked-modify_self id [] p h = cc
    find_parked-modify_self id (q ∷ l) p h = ground (arith, find_parked-modify_self id l p, keeps q)

  pub find_parked-remove_ne :
      (id j : ℕ) (l : List (Parked c))
      → id ≢ j
      → find_parked id (remove_parked j l) ≡ find_parked id l
  find_parked-remove_ne id j [] h = refl
  find_parked-remove_ne id j (p ∷ l) h = ground (arith, find_parked-remove_ne id j l h)

  pub find_parked-append_ne :
      (id : ℕ) (l : List (Parked c)) (p : Parked c)
      → id ≢ p.instance_ref
      → find_parked id (l ++ p ∷ []) ≡ find_parked id l
  find_parked-append_ne id [] p h = ground arith
  find_parked-append_ne id (q ∷ l) p h = ground (arith, find_parked-append_ne id l p h)

  pub find_parked-append_self :
      (l : List (Parked c)) (p : Parked c)
      → find_parked p.instance_ref l ≡ none
      → find_parked p.instance_ref (l ++ p ∷ []) ≡ some p
  find_parked-append_self [] p h = ground arith
  find_parked-append_self (q ∷ l) p h = ground (arith, find_parked-append_self l p)
