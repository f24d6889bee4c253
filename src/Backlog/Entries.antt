-- ===== src/Backlog/Entries.antt =====
-- The entries of src/server/backlog.rs found by their ids, and what a sweep and a forget leave of them.
use wsync.Prelude.{
  ℕ, ◌≤◌, ◌≡◌, refl, sym, ◌∙◌, subst, Bool, false, not, ◌&&◌, ◌||◌, none, some, List, [], ◌∷◌, ◌++◌,
  length, any, retain, find_first, find_first-retain, modify_first, NatMap, remove, ◌==◌, ==_iff,
  ==_refl, if◌then◌else◌, Bool-cases, inl, inr, arith,
}
use mathlib.Core.Option.{some-injective}
use wsync.Backlog.{
  Node, Reason, Entry, expired, Store, drop_expired, sweep, has_id, refreshed, forget,
}

-- No two entries have the same id.
abbrev pub HasIds : List Entry → Type 0
HasIds [] = Unit {0}
HasIds (e ∷ es) = (any (has_id e.id) es ≡ false) × HasIds es

pub any-modify_first :
    (t : Entry → Bool) (now j : ℕ) (reason : Reason) (es : List Entry)
    → any (has_id j) (modify_first t (refreshed now reason) es) ≡ any (has_id j) es
any-modify_first t now j reason [] = refl
any-modify_first t now j reason (e ∷ es) = ground (arith, any-modify_first t now j reason es)

pub HasIds-modify_first :
    (t : Entry → Bool) (now : ℕ) (reason : Reason) (es : List Entry)
    → HasIds es
    → HasIds (modify_first t (refreshed now reason) es)
HasIds-modify_first t now reason [] d = tt
HasIds-modify_first t now reason (e ∷ es) d = elim (Bool-cases (t e)) [
  | inl y ↦ rw y d
  | inr n ↦
      rw n (any-modify_first t now e.id reason es ∙ d.0, HasIds-modify_first t now reason es d.1)
]

pub any-has_id_append :
    (es : List Entry) (e : Entry) (j : ℕ)
    → any (has_id j) (es ++ e ∷ []) ≡ (any (has_id j) es || (e.id == j))
any-has_id_append [] e j = ground arith
any-has_id_append (x ∷ es) e j = ground (arith, any-has_id_append es e j)

pub HasIds-append :
    (es : List Entry) (e : Entry) → HasIds es → any (has_id e.id) es ≡ false → HasIds (es ++ e ∷ [])
HasIds-append [] e d h = (refl, tt)
HasIds-append (x ∷ es) e d h = (
  any-has_id_append es e x.id ∙ ground (arith, d.0, h, ==_iff e.id x.id, ==_refl e.id),
  HasIds-append es e d.1 (ground (arith, h)),
)

pub find-append :
    (es : List Entry) (e : Entry)
    → any (has_id e.id) es ≡ false
    → find_first (has_id e.id) (es ++ e ∷ []) ≡ some e
find-append [] e h = ground (arith, ==_refl e.id)
find-append (x ∷ es) e h = ground (arith, h, find-append es e)

pub no_id :
    (t : Entry → Bool) (es : List Entry) (e : Entry) (j : ℕ)
    → any (has_id j) es ≡ false
    → find_first t es ≡ some e
    → (e.id == j) ≡ false
no_id t [] e j n f = absurd (cc)
no_id t (x ∷ es) e j n f = elim (Bool-cases (t x)) [
  | inl y ↦ ground (arith, n, y, f)
  | inr z ↦ no_id t es e j (ground (arith, n)) (ground (arith, f, z))
]

pub find-by_id :
    (t : Entry → Bool) (es : List Entry) (e : Entry)
    → HasIds es
    → find_first t es ≡ some e
    → find_first (has_id e.id) es ≡ some e
find-by_id t [] e d f = absurd (cc)
find-by_id t (x ∷ es) e d f = elim (Bool-cases (t x)) [
  | inl y ↦ ground (arith, f, y, ==_refl e.id)
  | inr z ↦
      let later : find_first t es ≡ some e = ground (arith, f, z) in
      ground (
        arith,
        no_id t es e x.id d.0 later,
        find-by_id t es e d.1 later,
        ==_iff e.id x.id,
        ==_iff x.id e.id,
      )
]

pub expires : (now ttl j : ℕ) → List Entry → Bool
expires now ttl j es = any (λ e. expired now ttl e && has_id j e) es

pub drop_expired_lem :
    (now ttl : ℕ) (es : List Entry) (st : NatMap Node) (j : ℕ)
    → drop_expired now ttl es st j ≡ (if expires now ttl j es then none else st j)
unfolding expires
drop_expired_lem now ttl [] st j = refl
drop_expired_lem now ttl (e ∷ es) st j =
    ground (arith, drop_expired_lem now ttl es (if expired now ttl e then remove e.id st else st) j)

pub no_id-expires :
    (now ttl j : ℕ) (es : List Entry) → any (has_id j) es ≡ false → expires now ttl j es ≡ false
unfolding expires
no_id-expires now ttl j [] n = refl
no_id-expires now ttl j (e ∷ es) n = ground (arith, no_id-expires now ttl j es)

pub kept-expires :
    (now ttl j : ℕ) (es : List Entry) (e : Entry)
    → HasIds es
    → find_first (has_id j) es ≡ some e
    → expired now ttl e ≡ false
    → expires now ttl j es ≡ false
unfolding expires
kept-expires now ttl j [] e d f n = absurd (cc)
kept-expires now ttl j (x ∷ es) e d f n = elim (Bool-cases (has_id j x)) [
  | inl y ↦
      let alone : any (has_id j) es ≡ false =
        subst (λ k. any (has_id k) es ≡ false) ((==_iff x.id j).0 y) d.0 in
      let same : x ≡ e = some-injective _ _ (ground (arith, f, y)) in
      let alive : expired now ttl x ≡ false = subst (λ z. expired now ttl z ≡ false) (sym same) n in
      ground (arith, alive, no_id-expires now ttl j es alone)
  | inr z ↦ ground (arith, z, kept-expires now ttl j es e d.1 (ground (arith, f, z)) n)
]

pub any-retain_id :
    (j : ℕ) (es : List Entry) → find_first (has_id j) (retain (λ e. not (has_id j e)) es) ≡ none
any-retain_id j [] = refl
any-retain_id j (e ∷ es) = ground (arith, any-retain_id j es)

pub length-retain_le : (k : Entry → Bool) (es : List Entry) → length (retain k es) ≤ length es
length-retain_le k [] = omega arith
length-retain_le k (e ∷ es) = ground (arith, length-retain_le k es)

pub length-same :
    (j : ℕ) (es : List Entry) (e : Entry)
    → find_first (has_id j) es ≡ some e
    → (length (retain (λ x. not (has_id j x)) es) == length es) ≡ false
length-same j [] e f = absurd (cc)
length-same j (x ∷ es) e f = elim (Bool-cases (has_id j x)) [
  | inl y ↦ ground (arith, y, length-retain_le (λ x. not (has_id j x)) es)
  | inr z ↦ ground (arith, z, length-same j es e (ground (arith, f, z)))
]

-- What a sweep leaves of an entry that is found by its id and has not expired.
pub sweep-keeps :
    (now ttl j : ℕ) (written : Bool) (e : Entry) (s : Store)
    → HasIds s.entries
    → find_first (has_id j) s.entries ≡ some e
    → expired now ttl e ≡ false
    → (find_first (has_id j) (sweep now ttl written s).entries ≡ some e)
      × ((sweep now ttl written s).stored j ≡ s.stored j)
      × ((sweep now ttl written s).files ≡ s.files)
unfolding sweep
sweep-keeps now ttl j written e s d f n =
    let kept : List Entry = retain (λ x. not (expired now ttl x)) s.entries in
    let found : find_first (has_id j) kept ≡ some e =
      find_first-retain (has_id j) (λ x. not (expired now ttl x)) s.entries e f
        (ground (arith, n)) in
    let held : drop_expired now ttl s.entries s.stored j ≡ s.stored j = ground (
      arith,
      drop_expired_lem now ttl s.entries s.stored j,
      kept-expires now ttl j s.entries e d f n,
    ) in
    elim (Bool-cases (length kept == length s.entries)) [
      | inl y ↦ rw y (found, held, refl)
      | inr z ↦ rw z (found, held, refl)
    ]

pub forget-found :
    (id : ℕ) (written : Bool) (e : Entry) (s : Store)
    → find_first (has_id id) s.entries ≡ some e
    → ((forget id written s).0.files ≡ s.files)
      × (find_first (has_id id) (forget id written s).0.entries ≡ none)
unfolding forget
forget-found id written e s f = rw (length-same id s.entries e f) (refl, any-retain_id id s.entries)
