-- ===== src/ThreeWay/Rules.antt =====
-- Neither side's work is lost.
use wsync.Prelude.{
  ℕ, ◌≡◌, ◌≢◌, refl, Bool, true, false, ◌&&◌, Option, none, some, map, inl, inr, arith, OrdMap, all,
  length, ◌==◌, ◌⊎◌, IsSorted, Bool-cases, all-found-map,
}
use wsync.SyncBase.{Key}
use wsync.SyncBase.View.{
  BaseView, Lookup, known, absent, unknown, lookup, descendants, opt_key_eq, opt_key_eq_iff,
  IsOrdered, descendants-IsSorted,
}
use wsync.ThreeWay.{
  State, only_on_disk, differs, missing_on_disk, studio, studio_keep_disk, disk, Input,
  classify_differs, same_entry, unchanged, classify_subtree, classify_missing, classify_agreed,
  classify,
}

-- Without a base, on an ambiguous path, and where the base cannot tell, Studio wins, and what disk
-- has goes to the backlog.
pub classify-studio_first :
    (base : Option BaseView) (i : Input)
    → (base ≡ none)
      ⊎ ((i.ambiguous ≡ true)
          ⊎ ((b : BaseView) × (base ≡ some b) × (lookup b i.instance_path ≡ unknown)))
    → (classify base i ≢ disk) × (i.state ≢ missing_on_disk → classify base i ≡ studio_keep_disk)
unfolding classify classify_agreed classify_differs classify_missing
classify-studio_first base i h = ground arith

State-split : (s : State) → (s ≡ only_on_disk) ⊎ ((s ≡ differs) ⊎ (s ≡ missing_on_disk))
State-split only_on_disk = inl refl
State-split differs = inr (inl refl)
State-split missing_on_disk = inr (inr refl)

State-cases : (s : State) → (s ≡ missing_on_disk) ⊎ (s ≢ missing_on_disk)
State-cases only_on_disk = inr (λ e. cc)
State-cases differs = inr (λ e. cc)
State-cases missing_on_disk = inl refl

Lookup-cases : (l : Lookup) → (l ≡ unknown) ⊎ ((l ≡ absent) ⊎ ((k : Key) × (l ≡ known k)))
Lookup-cases (known k) = inr (inr (k, refl))
Lookup-cases absent = inr (inl refl)
Lookup-cases unknown = inl refl

-- Studio wins with nothing kept of disk only if disk has nothing there, or holds exactly what was
-- agreed.
pub classify-studio_safe :
    (base : BaseView) (i : Input)
    → classify (some base) i ≡ studio
    → (i.state ≡ missing_on_disk)
      ⊎ ((k : Key) × (lookup base i.instance_path ≡ known k) × (i.disk_key ≡ some k))
unfolding classify classify_agreed classify_differs classify_missing
classify-studio_safe base i h = elim (Lookup-cases (lookup base i.instance_path)) [
  | inl e ↦ inl (ground arith)
  | inr (inl e) ↦ inl (ground arith)
  | inr (inr (k, e)) ↦ elim (State-cases i.state) [
    | inl missing ↦ inl missing
    | inr there ↦ inr (k, e, ground (arith, opt_key_eq_iff i.disk_key (some k)))
  ]
]

-- With a base that knows the path, a side that did not move since yields to the side that did; if
-- both moved, or neither, Studio wins and the disk side goes to the backlog. A path that both
-- created goes the same way.
pub classify-moved :
    (base : BaseView) (i : Input)
    → i.ambiguous ≡ false
    → i.state ≡ differs
    → (lookup base i.instance_path ≡ absent → classify (some base) i ≡ studio_keep_disk)
      × ((k : Key)
          → lookup base i.instance_path ≡ known k
          → (i.disk_key ≡ some k → i.studio_key ≢ some k → classify (some base) i ≡ studio)
            × (i.disk_key ≢ some k → i.studio_key ≡ some k → classify (some base) i ≡ disk)
            × (i.disk_key ≢ some k
                → i.studio_key ≢ some k
                → classify (some base) i ≡ studio_keep_disk)
            × (i.disk_key ≡ some k
                → i.studio_key ≡ some k
                → classify (some base) i ≡ studio_keep_disk))
unfolding classify classify_agreed classify_differs classify_missing
classify-moved base i a d = (
  (λ e. ground arith),
  (λ k e.
      let fd = opt_key_eq_iff i.disk_key (some k) in
      let fs = opt_key_eq_iff i.studio_key (some k) in
      (
        (λ p q. ground (arith, fd, fs)),
        (λ p q. ground (arith, fd, fs)),
        (λ p q. ground (arith, fd, fs)),
        (λ p q. ground (arith, fd, fs)),
      )),
)

==_eq : (m n : ℕ) → (m == n) ≡ true → m ≡ n
==_eq m n h = ground arith

&&_parts : (a b : Bool) → (a && b) ≡ true → (a ≡ true) × (b ≡ true)
&&_parts a b h = ground arith

-- The comparison of two subtrees succeeds only if Studio has exactly the agreed entries.
pub unchanged-equal :
    (studio_below : OrdMap (Option Key)) (agreed_below : OrdMap Key)
    → IsSorted studio_below
    → IsSorted agreed_below
    → unchanged studio_below agreed_below ≡ true
    → studio_below ≡ map (λ e. (e.0, some e.1)) agreed_below
unfolding unchanged
unchanged-equal m l sm sl h =
    let (n, f) = &&_parts (length m == length l) (all (same_entry m) l) h in
    all-found-map (λ k. some k) opt_key_eq opt_key_eq_iff l m sl sm (==_eq _ _ n) f

-- When disk may win over Studio.
pub data DiskMayWin (base : BaseView) (i : Input) : Type 0 where
  -- Studio lacks the path, and did so at the last sync.
  created : i.state ≡ only_on_disk → lookup base i.instance_path ≡ absent → DiskMayWin base i
  -- Studio still has what was agreed, and disk does not.
  edited :
      (k : Key)
      → i.state ≡ differs
      → lookup base i.instance_path ≡ known k
      → i.studio_key ≡ some k
      → i.disk_key ≢ some k
      → DiskMayWin base i
  -- Disk lacks the path, and Studio has the instance and all below it exactly as agreed.
  deleted :
      (k : Key) (studio_below : OrdMap (Option Key)) (agreed_below : OrdMap Key)
      → i.state ≡ missing_on_disk
      → lookup base i.instance_path ≡ known k
      → i.studio_key ≡ some k
      → i.studio_descendants ≡ some studio_below
      → descendants base i.instance_path ≡ some agreed_below
      → studio_below ≡ map (λ e. (e.0, some e.1)) agreed_below
      → DiskMayWin base i

subtree-unchanged :
    (a : Option (OrdMap (Option Key))) (b : Option (OrdMap Key))
    → classify_subtree a b ≡ disk
    → (x : OrdMap (Option Key)) × (y : OrdMap Key) × (a ≡ some x)
      × (b ≡ some y)
      × (unchanged x y ≡ true)
subtree-unchanged none b h = cc
subtree-unchanged (some x) none h = cc
subtree-unchanged (some x) (some y) h = (x, y, refl, refl, ground arith)

module _ (base : BaseView) (i : Input) where
  disk-created :
      classify (some base) i ≡ disk → i.state ≡ only_on_disk → lookup base i.instance_path ≡ absent
  unfolding classify classify_agreed classify_differs classify_missing
  disk-created h s = elim (Lookup-cases (lookup base i.instance_path)) [
    | inl e ↦ absurd (ground arith)
    | inr (inl e) ↦ e
    | inr (inr (k, e)) ↦ absurd (ground arith)
  ]

  disk-edited : classify (some base) i ≡ disk → i.state ≡ differs → DiskMayWin base i
  unfolding classify classify_agreed classify_differs classify_missing
  disk-edited h s = elim (Lookup-cases (lookup base i.instance_path)) [
    | inl e ↦ absurd (ground arith)
    | inr (inl e) ↦ absurd (ground arith)
    | inr (inr (k, e)) ↦
        let fd = opt_key_eq_iff i.disk_key (some k) in
        let fs = opt_key_eq_iff i.studio_key (some k) in
        edited k s e (ground (arith, fd, fs)) (ground (arith, fd, fs))
  ]

  missing-disk :
      (k : Key)
      → classify_missing base i (some k) ≡ disk
      → (i.studio_key ≡ some k)
        × (classify_subtree i.studio_descendants (descendants base i.instance_path) ≡ disk)
  unfolding classify_missing
  missing-disk k h = elim (Bool-cases (opt_key_eq i.studio_key (some k))) [
    | inl e ↦ ((opt_key_eq_iff i.studio_key (some k)).0 e, rw (← keep e) h)
    | inr e ↦ absurd (ground arith)
  ]
    where
      keep :
          opt_key_eq i.studio_key (some k) ≡ true
          → classify_missing base i (some k)
            ≡ classify_subtree i.studio_descendants (descendants base i.instance_path)
      keep e = rw e

  missing-none : classify_missing base i none ≡ studio
  unfolding classify_missing
  missing-none = refl

  disk-deleted :
      IsOrdered base
      → ((d : OrdMap (Option Key)) → i.studio_descendants ≡ some d → IsSorted d)
      → classify (some base) i ≡ disk
      → i.state ≡ missing_on_disk
      → DiskMayWin base i
  unfolding classify classify_agreed
  disk-deleted o sorted h s = elim (Lookup-cases (lookup base i.instance_path)) [
    | inl e ↦ absurd (ground arith)
    | inr (inl e) ↦ absurd (ground (arith, missing-none))
    | inr (inr (k, e)) ↦
        let (same, sub) = missing-disk k (ground arith) in
        let (x, y, ex, ey, u) = subtree-unchanged _ _ sub in
        deleted k x y s e same ex ey
          (unchanged-equal x y (sorted x ex) (descendants-IsSorted base i.instance_path y o ey) u)
  ]

-- Disk wins over Studio only where Studio has nothing new: what Studio holds there is what was
-- agreed, down to the last descendant where an instance is to be removed.
pub classify-disk_safe :
    (base : BaseView) (i : Input)
    → IsOrdered base
    → ((d : OrdMap (Option Key)) → i.studio_descendants ≡ some d → IsSorted d)
    → classify (some base) i ≡ disk
    → DiskMayWin base i
classify-disk_safe base i o sorted h = elim (State-split i.state) [
  | inl e ↦ created e (disk-created base i h e)
  | inr (inl e) ↦ disk-edited base i h e
  | inr (inr e) ↦ disk-deleted base i o sorted h e
]
