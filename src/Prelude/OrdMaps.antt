-- ===== src/Prelude/OrdMaps.antt =====
-- `BTreeMap<String, V>` and `BTreeSet<String>`: the entries in ascending order of their keys.
use Prim.Native.Nat.{◌≤◌}
use mathlib.Core.Path.{◌≡◌, refl, ap₂}
use mathlib.Core.Logic.{◌↔◌, inl, inr}
use mathlib.Core.Bool.{Bool, true, false}
use mathlib.Core.List.{List, [], ◌∷◌, map}
use mathlib.Core.Option.{Option, none, some}
use native.Mathlib.Omega.{arith}
use wsync.Prelude.Tests.{if◌then◌else◌, Bool-cases}
use wsync.Prelude.Lists.{All, All-map, all, retain, length}
use wsync.Prelude.Bytes.{
  Text, text_eq, text_eq_iff, text_lt, text_lt_irrefl, text_lt_trans, text_lt-trichotomy,
  starts_with, starts_with-not_lt, starts_with-after,
}

abbrev pub OrdMap {ℓ} : Type ℓ → Type ℓ
OrdMap V = List (Text × V)

abbrev pub OrdSet : Type 0
OrdSet = OrdMap (Unit {0})

not_lt_ne→gt : (j k : Text) → text_eq j k ≡ false → text_lt k j ≡ false → text_lt j k ≡ true
not_lt_ne→gt j k n h = ground (arith, text_eq_iff j k, text_lt-trichotomy j k)

module _ {ℓ} {V : Type ℓ} where
  unfoldable pub get : Text → OrdMap V → Option V
  get k [] = none
  get k ((j, v) ∷ m) = if text_eq j k then some v else get k m

  -- `insert`: in place of the entry with this key, or before the first greater key.
  unfoldable pub put : Text → V → OrdMap V → OrdMap V
  put k v [] = (k, v) ∷ []
  put k v ((j, w) ∷ m) =
      if text_eq j k
      then (k, v) ∷ m
      else if text_lt k j
      then (k, v) ∷ (j, w) ∷ m
      else (j, w) ∷ put k v m

  unfoldable pub delete : Text → OrdMap V → OrdMap V
  delete k [] = []
  delete k ((j, v) ∷ m) = if text_eq j k then m else (j, v) ∷ delete k m

  -- `range(k..)` and `take_while`
  unfoldable pub range_from : Text → OrdMap V → OrdMap V
  range_from k [] = []
  range_from k ((j, v) ∷ m) = if text_lt j k then range_from k m else (j, v) ∷ m

  unfoldable pub take_while : (Text → Bool) → OrdMap V → OrdMap V
  take_while t [] = []
  take_while t ((j, v) ∷ m) = if t j then (j, v) ∷ take_while t m else []

  -- All keys of the map are greater than `k`.
  abbrev pub Above : Text → OrdMap V → Type 0
  Above k m = All (λ e. text_lt k e.0 ≡ true) m

  abbrev pub IsSorted : OrdMap V → Type 0
  IsSorted [] = Unit {0}
  IsSorted ((k, v) ∷ m) = Above k m × IsSorted m

  pub Above-trans : (j k : Text) (m : OrdMap V) → text_lt j k ≡ true → Above k m → Above j m
  Above-trans j k m h =
      All-map (λ e. text_lt k e.0 ≡ true) (λ e. text_lt j e.0 ≡ true) m
        (λ e g. text_lt_trans j k e.0 h g)

  pub get-Above : (k : Text) (m : OrdMap V) → Above k m → get k m ≡ none
  unfolding get
  get-Above k [] h = refl
  get-Above k ((j, v) ∷ m) h = ground (arith, text_eq_iff j k, text_lt_irrefl k, get-Above k m h.1)

  Above-put :
      (j k : Text) (v : V) (m : OrdMap V) → text_lt j k ≡ true → Above j m → Above j (put k v m)
  unfolding put
  Above-put j k v [] h a = (h, tt)
  Above-put j k v ((i, w) ∷ m) h a = ground (arith, Above-put j k v m h a.1)

  pub put-IsSorted : (k : Text) (v : V) (m : OrdMap V) → IsSorted m → IsSorted (put k v m)
  unfolding put
  put-IsSorted k v [] s = (tt, tt)
  put-IsSorted k v ((j, w) ∷ m) s = ground (
    arith,
    text_eq_iff j k,
    not_lt_ne→gt j k,
    Above-put j k v m,
    Above-trans k j m,
    put-IsSorted k v m s.1,
  )

  pub get-put :
      (k j : Text) (v : V) (m : OrdMap V)
      → get j (put k v m) ≡ (if text_eq k j then some v else get j m)
  unfolding get put
  get-put k j v [] = refl
  get-put k j v ((i, w) ∷ m) =
      ground (arith, text_eq_iff k j, text_eq_iff i k, text_eq_iff i j, get-put k j v m)

  range_from-Above : (k : Text) (m : OrdMap V) → Above k m → range_from k m ≡ m
  unfolding range_from
  range_from-Above k [] h = refl
  range_from-Above k ((j, v) ∷ m) h = ground (arith, text_lt_trans k j k, text_lt_irrefl k)

  -- Past the first key at or after the prefix that lacks it, no key has it.
  retain-after :
      (p j : Text) (m : OrdMap V)
      → text_lt j p ≡ false
      → starts_with p j ≡ false
      → Above j m
      → retain (λ e. starts_with p e.0) m ≡ []
  retain-after p j [] h n a = refl
  retain-after p j ((i, v) ∷ m) h n a =
      ground (arith, starts_with-after p j i, retain-after p j m h n a.1)

  take_while-retain :
      (p : Text) (m : OrdMap V)
      → IsSorted m
      → All (λ e. text_lt e.0 p ≡ false) m
      → take_while (starts_with p) m ≡ retain (λ e. starts_with p e.0) m
  unfolding take_while
  take_while-retain p [] s a = refl
  take_while-retain p ((j, v) ∷ m) s a =
      ground (arith, take_while-retain p m s.1 a.1, retain-after p j m a.0)

  not_lt-Above :
      (k j : Text) (m : OrdMap V)
      → text_lt j k ≡ false
      → Above j m
      → All (λ e. text_lt e.0 k ≡ false) m
  not_lt-Above k j [] h a = tt
  not_lt-Above k j ((i, v) ∷ m) h a =
      (ground (arith, text_lt_trans j i k), not_lt-Above k j m h a.1)

  -- The range from a prefix on, as far as the keys have it, is every entry whose key has it.
  pub range-prefix :
      (p : Text) (m : OrdMap V)
      → IsSorted m
      → take_while (starts_with p) (range_from p m) ≡ retain (λ e. starts_with p e.0) m
  unfolding range_from
  range-prefix p [] s = unfold take_while in refl
  range-prefix p ((j, v) ∷ m) s = elim (Bool-cases (text_lt j p)) [
    | inl e ↦ rw e (rw (starts_with-not_lt p j e) (range-prefix p m s.1))
    | inr e ↦ rw e (take_while-retain p ((j, v) ∷ m) s (e, not_lt-Above p j m e s.0))
  ]

-- Two maps compared as the code compares them: as long as one another, and each entry of the one
-- found in the other.
module _ {ℓ κ} {V : Type ℓ} {W : Type κ} (g : V → W) (eq : W → W → Bool)
    (eq_iff : (a b : W) → (eq a b ≡ true) ↔ (a ≡ b)) where
  abbrev pub found : OrdMap W → Text × V → Bool
  found m e = elim (get e.0 m) [ none ↦ false | some w ↦ eq w (g e.1) ]

  found-skip :
      (q : Text) (w : W) (m : OrdMap W) (l : OrdMap V)
      → Above q l
      → all (found ((q, w) ∷ m)) l ≡ all (found m) l
  unfolding get
  found-skip q w m [] a = refl
  found-skip q w m ((p, v) ∷ l) a =
      ground (arith, text_eq_iff q p, text_lt_irrefl q, found-skip q w m l a.1)

  found-below :
      (p q : Text) (v : V) (w : W) (m : OrdMap W)
      → text_eq q p ≡ false
      → text_lt q p ≡ false
      → Above q m
      → found ((q, w) ∷ m) (p, v) ≡ false
  unfolding get
  found-below p q v w m n h a =
      let n' : text_eq p q ≡ false = ground (arith, text_eq_iff p q, text_eq_iff q p) in
      ground (arith, get-Above p m (Above-trans p q m (not_lt_ne→gt p q n' h) a))

  head-equal :
      (p q : Text) (v : V) (w : W) (l : OrdMap V) (m : OrdMap W)
      → text_eq q p ≡ true
      → all (found ((q, w) ∷ m)) ((p, v) ∷ l) ≡ true
      → ◌≡◌ {A = Text × W} (q, w) (p, g v)
  unfolding get
  head-equal p q v w l m same h = ground (arith, text_eq_iff q p, eq_iff w (g v))

  all-found-length :
      (l : OrdMap V) (m : OrdMap W)
      → IsSorted l
      → IsSorted m
      → all (found m) l ≡ true
      → length l ≤ length m
  all-found-length [] m sl sm h = omega arith
  all-found-length ((p, v) ∷ l) [] sl sm h = absurd (unfold get in cc)
  all-found-length ((p, v) ∷ l) ((q, w) ∷ m) sl sm h =
      let skip = found-skip q w m in
      elim (Bool-cases (text_eq q p)) [
        | inl same ↦
            let e : q ≡ p = (text_eq_iff q p).0 same in
            omega (arith, all-found-length l m sl.1 sm.1 (ground (arith, skip l (rw e sl.0))))
        | inr other ↦ elim (Bool-cases (text_lt q p)) [
          | inl before ↦ omega (
            arith,
            all-found-length ((p, v) ∷ l) m sl sm.1
                (ground (arith, skip ((p, v) ∷ l) (before, Above-trans q p l before sl.0))),
          )
          | inr after ↦ absurd (ground (arith, found-below p q v w m other after sm.0))
        ]
      ]

  -- The comparison succeeds only on the same map.
  pub all-found-map :
      (l : OrdMap V) (m : OrdMap W)
      → IsSorted l
      → IsSorted m
      → length m ≡ length l
      → all (found m) l ≡ true
      → m ≡ map (λ e. (e.0, g e.1)) l
  all-found-map [] [] sl sm n h = refl
  all-found-map [] (e ∷ m) sl sm n h = absurd (omega arith)
  all-found-map (e ∷ l) [] sl sm n h = absurd (omega arith)
  all-found-map ((p, v) ∷ l) ((q, w) ∷ m) sl sm n h =
      let skip = found-skip q w m in
      elim (Bool-cases (text_eq q p)) [
        | inl same ↦
            let e : q ≡ p = (text_eq_iff q p).0 same in
            ap₂ (λ x y. x ∷ y) (head-equal p q v w l m same h)
              (all-found-map l m sl.1 sm.1 (omega arith) (ground (arith, skip l (rw e sl.0))))
        | inr other ↦ elim (Bool-cases (text_lt q p)) [
          | inl before ↦ absurd (
              omega (
                arith,
                all-found-length ((p, v) ∷ l) m sl sm.1
                    (ground (arith, skip ((p, v) ∷ l) (before, Above-trans q p l before sl.0))),
              ))
          | inr after ↦ absurd (ground (arith, found-below p q v w m other after sm.0))
        ]
      ]
