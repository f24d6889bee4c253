-- ===== src/Backlog.antt =====
-- src/server/backlog.rs: what loses to Studio is moved aside, kept for a while, and can be put back. An
-- id is a number, a path is its text, and what stands at a path is a tree of files. Each operation is
-- given the outcome of what the file system may refuse: the directories, the rename, a copy, the
-- removal of a source, whose error the code drops, and the index file. Two things are taken to work:
-- what stands at a path can be read, and the directory of an entry that is dropped goes.
pub mod Copies
pub mod Entries
pub mod Captures
pub mod Roundtrip
mod Tests
use wsync.Prelude.{
  ℕ, suc, ◌+◌, Bool, true, false, not, ◌&&◌, ◌||◌, Option, none, some, List, [], ◌∷◌, ◌++◌, Text,
  text_eq, length, leb, any, all, retain, find_first, modify_first, NatMap, insert, remove,
  empty_map, ◌==◌, if◌then◌else◌, is_some,
}

mutual
  pub data Node : Type 0 where
    file : (bytes : List ℕ) → Node
    dir : Listing → Node

  -- A directory's names with what they name, each name once, in the order of `read_dir`.
  pub data Listing : Type 0 where
    nil : Listing
    entry : Text → Node → Listing → Listing

abbrev pub find_name : Text → Listing → Option Node
find_name n nil = none
find_name n (entry m x l) = let rest = find_name n l in if text_eq m n then some x else rest

abbrev pub set_name : Text → Node → Listing → Listing
set_name n y nil = entry n y nil
set_name n y (entry m x l) =
    let rest = set_name n y l in if text_eq m n then entry m y l else entry m x rest

abbrev pub size_of : Listing → ℕ
size_of nil = 0
size_of (entry m x l) = suc (size_of l)

pub data Copied : Type 0 where
  copied : Node → Copied
  stopped : (left : Option Node) → Copied

abbrev pub set_left : Text → Option Node → Listing → Listing
set_left n none l = l
set_left n (some y) l = set_name n y l

-- A copy in which the file system fails nothing: it stops only where a file and a directory clash.
unfoldable mutual
  pub copy_node : Node → Option Node → Copied
  copy_node (file b) none = copied (file b)
  copy_node (file b) (some (file c)) = copied (file b)
  copy_node (file b) (some (dir l)) = stopped (some (dir l))
  copy_node (dir ls) none = copy_entries ls nil
  copy_node (dir ls) (some (file c)) = stopped (some (file c))
  copy_node (dir ls) (some (dir l)) = copy_entries ls l

  pub copy_entries : Listing → Listing → Copied
  copy_entries nil l = copied (dir l)
  copy_entries (entry n x ls) l = elim (copy_node x (find_name n l)) [
    | copied y ↦ copy_entries ls (set_name n y l)
    | stopped left ↦ stopped (some (dir (set_left n left l)))
  ]

-- With the error of the file system, if any, given as what it leaves at the target.
abbrev pub copy_tree : (fault : Option (Option Node)) → Node → Option Node → Copied
copy_tree none node at = copy_node node at
copy_tree (some left) node at = stopped left

-- Names are distinct, so that the sorted names are equal where the numbers of names are and each
-- name of one is a name of the other.
unfoldable mutual
  pub same_tree : Node → Node → Bool
  same_tree (file a) (file b) = text_eq a b
  same_tree (file a) (dir r) = false
  same_tree (dir l) (file b) = false
  same_tree (dir l) (dir r) = (size_of l == size_of r) && same_entries l r

  pub same_entries : Listing → Listing → Bool
  same_entries nil r = true
  same_entries (entry n x l) r =
      let rest = same_entries l r in
      let here : Bool = elim (find_name n r) [ none ↦ false | some y ↦ same_tree x y ] in
      here && rest

pub data Reason : Type 0 where
  initial_sync conflict : Reason

pub record Entry : Type 0 where
  pub id : ℕ
  pub path : Text
  pub reason : Reason
  pub captured_at : ℕ
  pub bytes : ℕ
  pub pinned : Bool
  pub captures : ℕ

abbrev pub expires_at : ℕ → Entry → Option ℕ
expires_at ttl e = if e.pinned then none else some (e.captured_at + ttl)

unfoldable pub expired : (now ttl : ℕ) → Entry → Bool
expired now ttl e = elim (expires_at ttl e) [ none ↦ false | some at ↦ leb at now ]

-- The entries, the index file, what stands in each entry's directory, and what stands at a
-- workspace path.
pub record Store : Type 0 where
  pub entries : List Entry
  pub index : List Entry
  pub stored : NatMap Node
  pub files : Text → Option Node

-- Whether directories could be made and the rename worked; what the copy leaves at its target where
-- it fails; what `remove_any` leaves at the source; whether the index could be written.
pub record Outcome : Type 0 where
  pub prepared : Bool
  pub renamed : Bool
  pub fault : Option (Option Node)
  pub left : Option Node
  pub written : Bool

-- The components of a path are those between slashes; an empty one or `.` further on is skipped.
abbrev pub cons_head : ℕ → List Text → List Text
cons_head c [] = (c ∷ []) ∷ []
cons_head c (s ∷ ss) = (c ∷ s) ∷ ss

abbrev pub segments : Text → List Text
segments [] = [] ∷ []
segments (c ∷ cs) = let rest = segments cs in if c == b'/' then [] ∷ rest else cons_head c rest

abbrev pub starts_dot : List Text → Bool
starts_dot [] = false
starts_dot (s ∷ ss) = text_eq s (b'.' ∷ [])

abbrev pub starts_slash : Text → Bool
starts_slash [] = false
starts_slash (c ∷ cs) = c == b'/'

abbrev pub is_empty {ℓ} : {A : Type ℓ} → List A → Bool
is_empty [] = true
is_empty (x ∷ xs) = false

unfoldable pub safe_rel_path : Text → Bool
safe_rel_path p =
    not (is_empty p)
    && not (starts_slash p)
    && not (any (λ c. c == b'\\') p)
    && not (starts_dot (segments p) || any (λ s. text_eq s (b'.' ∷ b'.' ∷ [])) (segments p))

abbrev pub set_file : Text → Option Node → (Text → Option Node) → Text → Option Node
set_file p n files q = if text_eq p q then n else files q

abbrev pub persist : Bool → Store → Store
persist written s = record s { index = if written then s.entries else s.index }

-- The directories of the expired entries go.
abbrev pub drop_expired : (now ttl : ℕ) → List Entry → NatMap Node → NatMap Node
drop_expired now ttl [] stored = stored
drop_expired now ttl (e ∷ es) stored =
    drop_expired now ttl es (if expired now ttl e then remove e.id stored else stored)

unfoldable pub sweep : (now ttl : ℕ) → Bool → Store → Store
sweep now ttl written s =
    let kept = retain (λ e. not (expired now ttl e)) s.entries in
    let s' = record s { entries = kept; stored = drop_expired now ttl s.entries s.stored } in
    if length kept == length s.entries then s' else persist written s'

unfoldable pub load : (now ttl : ℕ) → Bool → Store → Store
load now ttl written s =
    sweep now ttl written (record s { entries = retain (λ e. safe_rel_path e.path) s.index })

abbrev pub is_identical : Text → Node → NatMap Node → Entry → Bool
is_identical path node stored e =
    text_eq e.path path && (elim (stored e.id) [ none ↦ false | some held ↦ same_tree held node ])

abbrev pub has_id : ℕ → Entry → Bool
has_id id e = e.id == id

abbrev pub saturating_add : ℕ → ℕ → ℕ
saturating_add a b = if leb (a + b) 4294967295 then a + b else 4294967295

abbrev pub refreshed : ℕ → Reason → Entry → Entry
refreshed now reason e = record e {
  captured_at = now;
  captures = saturating_add e.captures 1;
  reason = reason;
}

unfoldable pub refresh : ℕ → Outcome → Text → Reason → Entry → Store → Store × Option Entry
refresh now o source reason e s =
    let entries = modify_first (has_id e.id) (refreshed now reason) s.entries in
    (
      persist o.written (record s { entries = entries; files = set_file source o.left s.files }),
      find_first (has_id e.id) entries,
    )

-- `bytes` is the length that the metadata of the source gives.
abbrev pub new_entry : (now id : ℕ) → Text → (bytes : ℕ) → Reason → Entry
new_entry now id path bytes reason = record {
  id = id;
  path = path;
  reason = reason;
  captured_at = now;
  bytes = bytes;
  pinned = false;
  captures = 1;
}

-- The entry over `node`, with what is left at the source.
abbrev pub add_entry :
    Outcome → Entry → Text → (left : Option Node) → Node → Store → Store × Option Entry
add_entry o e source left node s = (
  persist o.written (record s {
    entries = s.entries ++ e ∷ [];
    stored = insert e.id node s.stored;
    files = set_file source left s.files;
  }),
  some e,
)

-- The copy of a source that could not be renamed.
abbrev pub add_copied : Outcome → Entry → Text → Store → Copied → Store × Option Entry
add_copied o e source s (copied held) = add_entry o e source o.left held s
add_copied o e source s (stopped none) = (s, none)
add_copied o e source s (stopped (some left)) =
    (record s { stored = insert e.id left s.stored }, none)

unfoldable pub store_new : Outcome → Entry → Text → Node → Store → Store × Option Entry
store_new o e source node s =
    if not o.prepared
    then (s, none)
    else (if o.renamed
        then add_entry o e source none node s
        else add_copied o e source s (copy_tree o.fault node none))

abbrev pub capture_as :
    (now id bytes : ℕ)
    → Outcome
    → (path source : Text) → Reason
    → Node
    → Store
    → Option Entry
    → Store × Option Entry
capture_as now id bytes o path source reason node s (some e) = refresh now o source reason e s
capture_as now id bytes o path source reason node s none =
    store_new o (new_entry now id path bytes reason) source node s

abbrev pub capture_node :
    (now id bytes : ℕ)
    → Outcome
    → (path source : Text) → Reason
    → Store
    → Option Node
    → Store × Option Entry
capture_node now id bytes o path source reason s none = (s, none)
capture_node now id bytes o path source reason s (some node) =
    if not (safe_rel_path path)
    then (s, none)
    else capture_as now id bytes o path source reason node s
        (find_first (is_identical path node s.stored) s.entries)

unfoldable pub capture :
    (now id bytes : ℕ) → Outcome → (path source : Text) → Reason → Store → Store × Option Entry
capture now id bytes o path source reason s =
    capture_node now id bytes o path source reason s (s.files source)

unfoldable pub set_pinned : ℕ → Bool → Bool → Store → Store × Option Entry
set_pinned id pinned written s =
    let entries = modify_first (has_id id) (λ e. record e { pinned = pinned }) s.entries in
    elim (find_first (has_id id) entries) [
      | none ↦ (s, none)
      | some e ↦ (persist written (record s { entries = entries }), some e)
    ]

unfoldable pub get : (now ttl id : ℕ) → Bool → Store → Store × Option Entry
get now ttl id written s =
    let s' = sweep now ttl written s in (s', find_first (has_id id) s'.entries)

unfoldable pub forget : ℕ → Bool → Store → Store × Bool
forget id written s =
    let kept = retain (λ e. not (has_id id e)) s.entries in
    if length kept == length s.entries
    then (s, false)
    else (persist written (record s { entries = kept; stored = remove id s.stored }), true)

-- What a restore copies, over what stands at the path.
abbrev pub restored : (fault : Option (Option Node)) → Option Node → Option Node → Copied
restored fault none at = stopped at
restored fault (some held) at = copy_tree fault held at

abbrev pub put_back : Bool → Entry → Store → Copied → Store × Option Text
put_back written e s (copied n) =
    ((forget e.id written (record s { files = set_file e.path (some n) s.files })).0, some e.path)
put_back written e s (stopped left) = (record s { files = set_file e.path left s.files }, none)

abbrev pub restore_found : Outcome → Store → Option Entry → Store × Option Text
restore_found o s none = (s, none)
restore_found o s (some e) =
    if not o.prepared
    then (s, none)
    else put_back o.written e s (restored o.fault (s.stored e.id) (s.files e.path))

unfoldable pub restore : (now ttl id : ℕ) → Outcome → Store → Store × Option Text
restore now ttl id o s = let r = get now ttl id o.written s in restore_found o r.0 r.1

unfoldable pub clear : Store → Store × ℕ
clear s = (record s { entries = []; index = []; stored = empty_map }, length s.entries)
