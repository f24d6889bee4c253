-- ===== src/SyncBase/Session.antt =====
-- src/server/sync_base.rs: `SyncBase`, the recorder of the base, and its writer. Generations and
-- epochs are counters of 64 bits that go up by one, and are left unbounded. `persisted` is the file;
-- a write of it can fail, which an argument of the call decides.
use wsync.Prelude.{
  ℕ, ◌+◌, Bool, true, false, not, ◌&&◌, Option, none, some, [], ◌∷◌, OrdMap, OrdSet, get, put, ◌==◌,
  opt_eq, if◌then◌else◌, is_some,
}
use wsync.SyncBase.{Key, Place, Snapshot, Stored, base_version}

-- Held paths keep the key that they had.
unfoldable pub keep_held : OrdMap Key → OrdSet → OrdMap Key → OrdMap Key
keep_held previous [] entries = entries
keep_held previous ((path, _) ∷ held) entries =
    keep_held previous held
      (elim (get path previous) [ none ↦ entries | some k ↦ put path k entries ])

unfoldable pub merge_entries : Option Stored → Snapshot → OrdMap Key
unfolding keep_held
merge_entries none snap = snap.entries
merge_entries (some previous) snap = keep_held previous.entries snap.held snap.entries

abbrev pub previous_place : Option Stored → Option Place
previous_place none = none
previous_place (some s) = s.place

abbrev pub or_else {ℓ} : {A : Type ℓ} → Option A → Option A → Option A
or_else none b = b
or_else (some a) b = some a

unfoldable pub merge : Option Stored → Snapshot → Option Place → ℕ → Stored
unfolding merge_entries
merge previous snap place seconds = record {
  version = base_version;
  place = or_else place (previous_place previous);
  saved_at = seconds;
  entries = merge_entries previous snap;
  ambiguous = snap.ambiguous;
}

pub record Pending : Type 0 where
  pub epoch : ℕ
  pub snapshot : Snapshot

pub record Inner : Type 0 where
  pub stored : Option Stored
  pub synced : Bool
  pub epoch : ℕ
  pub place : Option Place
  pub pending : Option Pending
  pub last_generation : Option ℕ
  pub resume_generation : Option ℕ
  pub persisted : Option Stored

-- `persist`
abbrev pub write_file : Bool → Stored → Inner → Inner
write_file written s i = record i { persisted = if written then some s else i.persisted }

abbrev pub right_version : Option Stored → Option Stored
right_version none = none
right_version (some s) = if s.version == base_version then some s else none

-- `load`: `file` is what the file holds, if it can be read as a base.
unfoldable pub load : Option Stored → Inner
load file = record {
  stored = right_version file;
  synced = false;
  epoch = 0;
  place = none;
  pending = none;
  last_generation = none;
  resume_generation = none;
  persisted = file;
}

unfoldable pub is_synced : Inner → Bool
is_synced i = i.synced

unfoldable pub begin_compare : Option Place → Inner → Inner
begin_compare place i = record i {
  synced = false;
  epoch = i.epoch + 1;
  pending = none;
  resume_generation = none;
  place = if is_some place then place else i.place;
}

unfoldable pub commit : Snapshot → ℕ → Bool → ℕ → Bool → Inner → Inner
commit snap generation settle seconds written i =
    let s = merge i.stored snap i.place seconds in
    record (write_file written s i) {
      stored = some s;
      synced = true;
      epoch = i.epoch + 1;
      pending = none;
      last_generation = if settle then none else some generation;
      resume_generation = none;
    }

abbrev pub pause : ℕ → Inner → Inner
pause generation i = record i {
  synced = false;
  epoch = i.epoch + 1;
  pending = none;
  resume_generation = some generation;
}

unfoldable pub on_disconnect : ℕ → Inner → Inner
on_disconnect generation i = if i.synced then pause generation i else i

unfoldable pub on_reconnect : ℕ → Inner → Inner
on_reconnect generation i = elim i.resume_generation [
  | none ↦ i
  | some dropped_at ↦
      if dropped_at == generation
      then record i { resume_generation = none; synced = true; epoch = i.epoch + 1 }
      else record i { resume_generation = none }
]

-- The first half of `tick`, under the lock: commit last tick's snapshot if the session held. The
-- answer is the epoch under which a new snapshot is wanted.
abbrev pub commit_pending : ℕ → Bool → Inner → Inner
commit_pending seconds written i = elim i.pending [
  | none ↦ i
  | some p ↦
      if p.epoch == i.epoch
      then (let s = merge i.stored p.snapshot i.place seconds in
          record (write_file written s i) { stored = some s; pending = none })
      else record i { pending = none }
]

abbrev pub want : ℕ → Inner → Inner × Option ℕ
want generation i = (i, if opt_eq i.last_generation (some generation) then none else some i.epoch)

unfoldable pub tick_commit : ℕ → Bool → ℕ → Bool → Inner → Inner × Option ℕ
tick_commit generation plugin_present seconds written i =
    let i' = if i.synced && not plugin_present then pause generation i else i in
    if not i'.synced
    then (record i' { pending = none }, none)
    else want generation (commit_pending seconds written i')

-- The second half, under the lock again, with the snapshot that was taken in between.
unfoldable pub tick_store : ℕ → Snapshot → ℕ → Inner → Inner
tick_store epoch snap taken_at i =
    if i.synced && i.epoch == epoch
    then record i {
      last_generation = some taken_at;
      pending = some (record { epoch = epoch; snapshot = snap });
    }
    else i
