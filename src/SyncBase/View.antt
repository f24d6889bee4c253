-- ===== src/SyncBase/View.antt =====
-- src/server/sync_base.rs: `BaseView`, the read-only copy of the base, and which connect gets it.
use wsync.Prelude.{
  ◌≡◌, ◌↔◌, Bool, true, false, ◌&&◌, Option, none, some, List, [], ◌∷◌, ◌++◌, map, arith, Text,
  text_eq, text_eq_iff, OrdMap, OrdSet, get, range_from, take_while, starts_with, text_lt, Above,
  IsSorted, range-prefix, retain, ◌==◌, if◌then◌else◌, is_some, ◌⊎◌,
}
use wsync.SyncBase.{Key, Place, Stored}

-- `==` on keys and on optional keys, as `derive(PartialEq)` gives it.
abbrev pub source_eq : Option Text → Option Text → Bool
source_eq none none = true
source_eq none (some t) = false
source_eq (some s) none = false
source_eq (some s) (some t) = text_eq s t

unfoldable pub key_eq : Key → Key → Bool
key_eq a b = text_eq a.class b.class && source_eq a.source b.source

unfoldable pub opt_key_eq : Option Key → Option Key → Bool
unfolding key_eq
opt_key_eq none none = true
opt_key_eq none (some b) = false
opt_key_eq (some a) none = false
opt_key_eq (some a) (some b) = key_eq a b

source_eq_iff : (s t : Option Text) → (source_eq s t ≡ true) ↔ (s ≡ t)
source_eq_iff none none = ground arith
source_eq_iff none (some t) = ground arith
source_eq_iff (some s) none = ground arith
source_eq_iff (some s) (some t) = ground (arith, text_eq_iff s t)

pub key_eq_iff : (a b : Key) → (key_eq a b ≡ true) ↔ (a ≡ b)
unfolding key_eq
key_eq_iff a b = ground (arith, text_eq_iff a.class b.class, source_eq_iff a.source b.source)

pub opt_key_eq_iff : (a b : Option Key) → (opt_key_eq a b ≡ true) ↔ (a ≡ b)
unfolding opt_key_eq
opt_key_eq_iff none none = ground arith
opt_key_eq_iff none (some b) = ground arith
opt_key_eq_iff (some a) none = ground arith
opt_key_eq_iff (some a) (some b) = ground (arith, key_eq_iff a b)

pub data Lookup : Type 0 where
  known : Key → Lookup
  absent unknown : Lookup

pub record BaseView : Type 0 where
  pub entries : OrdMap Key
  pub ambiguous : OrdSet

unfoldable pub lookup : BaseView → Text → Lookup
lookup b path =
    if is_some (get path b.ambiguous)
    then unknown
    else (elim (get path b.entries) [ some k ↦ known k | none ↦ absent ])

-- The part of a path behind the first bytes, as `candidate[prefix.len()..]` cuts it off.
unfoldable pub strip : Text → Text → Text
strip [] s = s
strip (p ∷ ps) [] = []
strip (p ∷ ps) (x ∷ xs) = strip ps xs

abbrev pub below : Text → Text
below path = path ++ b'/' ∷ []

abbrev pub is_empty {ℓ} : {A : Type ℓ} → List A → Bool
is_empty [] = true
is_empty (x ∷ xs) = false

unfoldable pub descendants : BaseView → Text → Option (OrdMap Key)
descendants b path =
    let prefix = below path in
    if is_empty (take_while (starts_with prefix) (range_from prefix b.ambiguous))
    then some (
        map (λ e. (strip prefix e.0, e.1))
          (take_while (starts_with prefix) (range_from prefix b.entries)))
    else none

-- The two collections are in the order of their keys.
pub record IsOrdered (b : BaseView) : Type 0 where
  pub entries_sorted : IsSorted b.entries
  pub ambiguous_sorted : IsSorted b.ambiguous

-- The descendants of a path are all entries whose path begins with it and a slash, keyed by the
-- rest; there is no answer if an ambiguous path begins so.
pub descendants_lem :
    (b : BaseView) (path : Text)
    → IsOrdered b
    → descendants b path ≡ (
        if is_empty (retain (λ e. starts_with (below path) e.0) b.ambiguous)
        then some (
            map
              (λ e. (strip (below path) e.0, e.1))
              (retain (λ e. starts_with (below path) e.0) b.entries))
        else none)
unfolding descendants
descendants_lem b path o = rw (
  range-prefix (below path) b.ambiguous o.ambiguous_sorted,
  range-prefix (below path) b.entries o.entries_sorted,
)

-- `SyncBase::view`
abbrev pub place_eq : Place → Place → Bool
place_eq a b = a.place_id == b.place_id && a.game_id == b.game_id

unfoldable pub place_matches : Option Place → Option Place → Bool
place_matches (some recorded) (some connecting) = place_eq recorded connecting
place_matches (some recorded) none = false
place_matches none connecting = true

unfoldable pub view : Option Stored → Option Place → Option BaseView
unfolding place_matches
view none place = none
view (some stored) place =
    if place_matches stored.place place
    then some (record { entries = stored.entries; ambiguous = stored.ambiguous })
    else none

-- A connect gets the base exactly when there is one and it was recorded without a place or for the
-- place that connects.
pub view_iff :
    (stored : Stored) (place : Option Place)
    → (view (some stored) place
        ≡ some (record { entries = stored.entries; ambiguous = stored.ambiguous }))
      ↔ ((stored.place ≡ none) ⊎ (stored.place ≡ place))
unfolding view
view_iff stored place = ground arith

strip-lt :
    (p s t : Text)
    → starts_with p s ≡ true
    → starts_with p t ≡ true
    → text_lt s t ≡ true
    → text_lt (strip p s) (strip p t) ≡ true
unfolding starts_with strip text_lt
strip-lt [] s t h k l = l
strip-lt (p ∷ ps) [] t h k l = cc
strip-lt (p ∷ ps) (x ∷ xs) [] h k l = cc
strip-lt (p ∷ ps) (x ∷ xs) (y ∷ ys) h k l = ground (arith, strip-lt ps xs ys)

-- The entries below a prefix, keyed by the rest.
abbrev rekey {ℓ} : {V : Type ℓ} → Text → OrdMap V → OrdMap V
rekey p m = map (λ e. (strip p e.0, e.1)) (retain (λ e. starts_with p e.0) m)

Above-rekey {ℓ} :
    {V : Type ℓ} (p j : Text) (m : OrdMap V)
    → starts_with p j ≡ true
    → Above j m
    → Above (strip p j) (rekey p m)
Above-rekey p j [] h a = tt
Above-rekey p j ((i, v) ∷ m) h a = ground (arith, strip-lt p j i, Above-rekey p j m h a.1)

rekey-IsSorted {ℓ} : {V : Type ℓ} (p : Text) (m : OrdMap V) → IsSorted m → IsSorted (rekey p m)
rekey-IsSorted p [] s = tt
rekey-IsSorted p ((i, v) ∷ m) s = ground (arith, Above-rekey p i m, rekey-IsSorted p m s.1)

pub descendants-IsSorted :
    (b : BaseView) (path : Text) (l : OrdMap Key)
    → IsOrdered b
    → descendants b path ≡ some l
    → IsSorted l
descendants-IsSorted b path l o h =
    let e = descendants_lem b path o in
    let s = rekey-IsSorted (below path) b.entries o.entries_sorted in ground (arith, e, s)
