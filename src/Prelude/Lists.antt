-- ===== src/Prelude/Lists.antt =====
-- Lists measured by native numbers, searches for the first match, and predicates on all elements.
use Prim.Native.Nat.{ℕ, suc, ◌+◌, ◌≤◌}
use mathlib.Core.Path.{◌≡◌, refl}
use mathlib.Core.Logic.{inl, inr}
use mathlib.Core.Bool.{Bool, true, false}
use mathlib.Core.List.{List, [], ◌∷◌, ◌++◌}
use mathlib.Core.Option.{Option, none, some}
use native.Mathlib.Omega.{arith}
use wsync.Prelude.Tests.{if◌then◌else◌, Bool-cases}

module _ {ℓ} {A : Type ℓ} where
  abbrev pub length : List A → ℕ
  length [] = 0
  length (x ∷ xs) = suc (length xs)

  pub length-append : (xs ys : List A) → length (xs ++ ys) ≡ length xs + length ys
  length-append [] ys = omega arith
  length-append (x ∷ xs) ys = omega (arith, length-append xs ys)

  -- `iter().find`, `remove(position)` and an update in place at the first match.
  abbrev pub find_first : (A → Bool) → List A → Option A
  find_first t [] = none
  find_first t (x ∷ xs) = if t x then some x else find_first t xs

  abbrev pub remove_first : (A → Bool) → List A → List A
  remove_first t [] = []
  remove_first t (x ∷ xs) = if t x then xs else x ∷ remove_first t xs

  abbrev pub modify_first : (A → Bool) → (A → A) → List A → List A
  modify_first t f [] = []
  modify_first t f (x ∷ xs) = if t x then f x ∷ xs else x ∷ modify_first t f xs

  -- `retain`
  abbrev pub retain : (A → Bool) → List A → List A
  retain t [] = []
  retain t (x ∷ xs) = if t x then x ∷ retain t xs else retain t xs

  abbrev pub any : (A → Bool) → List A → Bool
  any t [] = false
  any t (x ∷ xs) = if t x then true else any t xs

  abbrev pub all : (A → Bool) → List A → Bool
  all t [] = true
  all t (x ∷ xs) = if t x then all t xs else false

  pub length-remove_first : (t : A → Bool) (xs : List A) → length (remove_first t xs) ≤ length xs
  length-remove_first t [] = omega arith
  length-remove_first t (x ∷ xs) = ground (arith, length-remove_first t xs)

  pub length-modify_first :
      (t : A → Bool) (f : A → A) (xs : List A) → length (modify_first t f xs) ≡ length xs
  length-modify_first t f [] = refl
  length-modify_first t f (x ∷ xs) = ground (arith, length-modify_first t f xs)

module _ {ℓ} {A : Type ℓ} (t : A → Bool) where
  pub find_first-true : (xs : List A) (x : A) → find_first t xs ≡ some x → t x ≡ true
  find_first-true [] x e = absurd (cc)
  find_first-true (y ∷ xs) x e = ground (arith, find_first-true xs x)

  pub find_first-retain :
      (k : A → Bool) (xs : List A) (x : A)
      → find_first t xs ≡ some x
      → k x ≡ true
      → find_first t (retain k xs) ≡ some x
  find_first-retain k [] x e h = absurd (cc)
  find_first-retain k (y ∷ xs) x e h = ground (arith, find_first-retain k xs x)

  pub find_first-modify_first :
      (f : A → A) (xs : List A) (x : A)
      → find_first t xs ≡ some x
      → t (f x) ≡ true
      → find_first t (modify_first t f xs) ≡ some (f x)
  find_first-modify_first f [] x e h = absurd (cc)
  find_first-modify_first f (y ∷ xs) x e h = ground (arith, find_first-modify_first f xs x)

-- A predicate by recursion computes to tuples, which the tactics read and build.
module _ {ℓ κ} {A : Type ℓ} where
  abbrev pub All : (A → Type κ) → List A → Type κ
  All P [] = Unit
  All P (x ∷ xs) = P x × All P xs

  pub All-append : (P : A → Type κ) (xs ys : List A) → All P xs → All P ys → All P (xs ++ ys)
  All-append P [] ys hx hy = hy
  All-append P (x ∷ xs) ys hx hy = (hx.0, All-append P xs ys hx.1 hy)

module _ {ℓ κ} {A : Type ℓ} (P : A → Type κ) (t : A → Bool) where
  pub All-remove_first : (xs : List A) → All P xs → All P (remove_first t xs)
  All-remove_first [] h = h
  All-remove_first (x ∷ xs) h = ground (arith, All-remove_first xs h.1)

  pub All-modify_first :
      (f : A → A) (xs : List A)
      → ((x : A) → find_first t xs ≡ some x → P x → P (f x))
      → All P xs
      → All P (modify_first t f xs)
  All-modify_first f [] g h = h
  All-modify_first f (x ∷ xs) g h = elim (Bool-cases (t x)) [
    | inl e ↦ rw e (g x (rw e) h.0, h.1)
    | inr e ↦ rw e (h.0, All-modify_first f xs (λ y k. g y (rw e k)) h.1)
  ]

  pub All-find_first : (xs : List A) (x : A) → All P xs → find_first t xs ≡ some x → P x
  All-find_first [] x h e = cc
  All-find_first (y ∷ xs) x h e = ground (arith, All-find_first xs x h.1)

pub All-map {ℓ κ μ} :
    {A : Type ℓ} (P : A → Type κ) (Q : A → Type μ) (xs : List A)
    → ((x : A) → P x → Q x)
    → All P xs
    → All Q xs
All-map P Q [] g h = tt
All-map P Q (x ∷ xs) g h = (g x h.0, All-map P Q xs g h.1)
