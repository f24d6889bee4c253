-- ===== src/Queue/FreeId.antt =====
-- The loop of `subscribe_internal` ends.
use wsync.Prelude.{
  ℕ, zero, suc, ◌+◌, ◌≤◌, ◌<◌, ◌≡◌, refl, true, false, some, List, [], ◌∷◌, inl, inr, arith, length,
  Bool-cases, ◌==◌, leb, if◌then◌else◌,
}
use wsync.Queue.{Lib, Listener, Queue, free_id, is_subscribed}
use wsync.Queue.Invariant.{has_id}

-- How many listeners have this id or a larger one.
abbrev at_least : ℕ → List Listener → ℕ
at_least id [] = 0
at_least id (l ∷ ls) = if leb id l.id then suc (at_least id ls) else at_least id ls

at_least-length : (id : ℕ) (ls : List Listener) → at_least id ls ≤ length ls
at_least-length id [] = omega arith
at_least-length id (l ∷ ls) = ground (arith, at_least-length id ls)

at_least-suc : (id : ℕ) (ls : List Listener) → at_least (id + 1) ls ≤ at_least id ls
at_least-suc id [] = omega arith
at_least-suc id (l ∷ ls) = ground (arith, at_least-suc id ls)

at_least-has_id :
    (id : ℕ) (ls : List Listener) → has_id ls id ≡ true → at_least (id + 1) ls < at_least id ls
at_least-has_id id [] h = cc
at_least-has_id id (l ∷ ls) h = elim (Bool-cases (l.id == id)) [
  | inl e ↦ ground (arith, at_least-suc id ls)
  | inr e ↦ ground (arith, at_least-has_id id ls (ground arith))
]

module _ {p : Lib} where
  free_id-enough :
      (fuel id : ℕ) (q : Queue p)
      → at_least id q.listeners < fuel
      → (j : ℕ) × (free_id fuel id q ≡ some j) × (has_id q.listeners j ≡ false)
  unfolding free_id is_subscribed
  free_id-enough zero id q h = absurd (omega (arith, h))
  free_id-enough (suc fuel) id q h = elim (Bool-cases (has_id q.listeners id)) [
    | inl e ↦
        let (j, found, free) =
          free_id-enough fuel (id + 1) q (omega (arith, h, at_least-has_id id q.listeners e)) in
        (j, rw e found, free)
    | inr e ↦ (id, rw e refl, e)
  ]

  -- The search of `subscribe_internal`, which counts up from 0 until an id is unused, ends whatever
  -- listeners there are, within one round more than there are listeners, at an id that no listener has.
  pub free_id-unused :
      (q : Queue p)
      → (j : ℕ) × (free_id (suc (length q.listeners)) 0 q ≡ some j) × (has_id q.listeners j ≡ false)
  free_id-unused q =
      free_id-enough (suc (length q.listeners)) 0 q (omega (arith, at_least-length 0 q.listeners))
