-- ===== src/SyncBase/Held.antt =====
-- What a merge records.
use wsync.Prelude.{
  ℕ, ◌≡◌, refl, Option, none, some, [], ◌∷◌, arith, Text, text_eq, text_eq_iff, OrdMap, OrdSet, get,
  put, get-put, if◌then◌else◌, is_some, IsSorted, put-IsSorted, Bool-cases, Option-cases, inl, inr,
  text_eq_refl,
}
use wsync.SyncBase.{Key, Place, Snapshot, Stored}
use wsync.SyncBase.Session.{keep_held, merge, or_else}

abbrev pub previous_entries : Option Stored → OrdMap Key
previous_entries none = []
previous_entries (some s) = s.entries

keep_one : OrdMap Key → Text → OrdMap Key → OrdMap Key
keep_one previous path entries = elim (get path previous) [
  | none ↦ entries
  | some k ↦ put path k entries
]

get-keep_one :
    (previous : OrdMap Key) (j : Text) (entries : OrdMap Key) (path : Text)
    → get path (keep_one previous j entries) ≡ (
        if text_eq j path then or_else (get path previous) (get path entries) else get path entries)
unfolding keep_one
get-keep_one previous j entries path = elim (Bool-cases (text_eq j path)) [
  | inl e ↦
      let same : j ≡ path = (text_eq_iff j path).0 e in
      rw same (elim (Option-cases (get path previous)) [
        | inl n ↦ rw (n, keep_one) (ground (arith, text_eq_refl path))
        | inr (k, n) ↦ rw (n, keep_one, get-put) (ground (arith, text_eq_refl path))
      ])
  | inr e ↦ elim (Option-cases (get j previous)) [
    | inl n ↦ rw (n, keep_one) (ground arith)
    | inr (k, n) ↦ rw (n, keep_one, get-put) (ground arith)
  ]
]

get-keep_held :
    (previous : OrdMap Key) (held : OrdSet) (entries : OrdMap Key) (path : Text)
    → get path (keep_held previous held entries) ≡ (
        if is_some (get path held)
        then or_else (get path previous) (get path entries)
        else get path entries)
unfolding keep_held keep_one get
get-keep_held previous [] entries path = refl
get-keep_held previous ((j, u) ∷ held) entries path =
    let ih = get-keep_held previous held (keep_one previous j entries) path in
    ground (arith, ih, get-keep_one previous j entries path)

keep_held-IsSorted :
    (previous : OrdMap Key) (held : OrdSet) (entries : OrdMap Key)
    → IsSorted entries
    → IsSorted (keep_held previous held entries)
unfolding keep_held
keep_held-IsSorted previous [] entries s = s
keep_held-IsSorted previous ((j, u) ∷ held) entries s = elim (Option-cases (get j previous)) [
  | inl n ↦ rw (n, keep_held) (keep_held-IsSorted previous held entries s)
  | inr (k, n) ↦
      rw (n, keep_held)
        (keep_held-IsSorted previous held (put j k entries) (put-IsSorted j k entries s))
]

-- A merge records for a held path the key that it had, and for any other path, or a held path
-- that had none, the key of the snapshot; and it keeps the entries in order.
pub get-merge :
    (previous : Option Stored) (snap : Snapshot) (place : Option Place) (seconds : ℕ) (path : Text)
    → IsSorted snap.entries
    → (get path (merge previous snap place seconds).entries ≡ (
        if is_some (get path snap.held)
        then or_else (get path (previous_entries previous)) (get path snap.entries)
        else get path snap.entries))
      × IsSorted (merge previous snap place seconds).entries
unfolding merge
get-merge none snap place seconds path s = (unfold get in ground arith, s)
get-merge (some p) snap place seconds path s = (
  get-keep_held p.entries snap.held snap.entries path,
  keep_held-IsSorted p.entries snap.held snap.entries s,
)
