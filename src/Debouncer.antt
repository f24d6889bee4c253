-- ===== src/Debouncer.antt =====
-- src/vfs/debouncer.rs: the translation of watcher events (on Linux), and what becomes of those that
-- arrive while the processor writes. A path is the list of its components, the last one first; a time
-- is in microseconds. Starting and stopping a watch is the watcher's.
pub mod Run
pub mod Echoes
pub mod Counts
pub mod Conservation
mod Tests
use wsync.Prelude.{
  ℕ, ◌+◌, ◌-◌, Bool, true, false, not, ◌&&◌, ◌||◌, Option, none, some, List, [], ◌∷◌, ◌++◌, Text,
  text_eq, length, ltb, any, retain, if◌then◌else◌,
}

abbrev pub FilePath : Type 0
FilePath = List Text

abbrev pub path_eq : FilePath → FilePath → Bool
path_eq [] [] = true
path_eq (a ∷ p) (b ∷ q) = text_eq a b && path_eq p q
path_eq _ _ = false

-- `Path::ancestors`
abbrev pub ancestors : FilePath → List FilePath
ancestors [] = [] ∷ []
ancestors (c ∷ p) = (c ∷ p) ∷ ancestors p

pub data VfsEvent : Type 0 where
  create delete write : FilePath → VfsEvent

abbrev pub event_path : VfsEvent → FilePath
event_path (create p) = p
event_path (delete p) = p
event_path (write p) = p

-- The kinds of notify's events that are told apart.
pub data EventKind : Type 0 where
  created removed renamed_from renamed_to closed_write unrelated : EventKind

-- An event of notify_debouncer_full, with the first of its paths.
pub record DebouncedEvent : Type 0 where
  pub kind : EventKind
  pub path : FilePath
  pub time : ℕ

pub record DebounceContext : Type 0 where
  pub time : ℕ
  pub path : FilePath

abbrev pub debounce_time : ℕ
debounce_time = 500

abbrev pub syncback_debounce_time : ℕ
syncback_debounce_time = 300000

abbrev pub self_write_memory : ℕ
self_write_memory = 10000000

abbrev pub translate :
    EventKind → FilePath → ℕ → DebounceContext → Option VfsEvent × DebounceContext
translate created p t c = (some (create p), record { time = t; path = p })
translate removed p t c = (some (delete p), c)
translate renamed_from p t c = (some (delete p), c)
translate renamed_to p t c = (some (create p), c)
translate closed_write p t c =
    (if ltb (t - c.time) debounce_time && path_eq p c.path then none else some (write p), c)
translate unrelated p t c = (none, c)

unfoldable pub debounce : DebouncedEvent → DebounceContext → Option VfsEvent × DebounceContext
debounce e c = translate e.kind e.path e.time c

pub record Held : Type 0 where
  pub events : List VfsEvent
  pub self_writes : List (FilePath × ℕ)

-- What the debouncer's threads share, and what was sent to the processor, the oldest first.
pub record VfsDebouncer : Type 0 where
  pub paused : Bool
  pub since : ℕ
  pub context : DebounceContext
  pub held : Held
  pub sent : List VfsEvent
  pub suppressed : ℕ

unfoldable pub new_debouncer : ℕ → VfsDebouncer
new_debouncer now = record {
  paused = false;
  since = now;
  context = record { time = now; path = [] };
  held = record { events = []; self_writes = [] };
  sent = [];
  suppressed = 0;
}

unfoldable pub pause : ℕ → VfsDebouncer → VfsDebouncer
pause now d = record d { paused = true; since = now }

unfoldable pub resume : ℕ → VfsDebouncer → VfsDebouncer
resume now d = record d { paused = false; since = now }

-- `HashMap::insert`
abbrev pub set_written : FilePath → ℕ → List (FilePath × ℕ) → List (FilePath × ℕ)
set_written p now [] = (p, now) ∷ []
set_written p now ((q, t) ∷ ws) =
    let rest = set_written p now ws in if path_eq p q then (q, now) ∷ ws else (q, t) ∷ rest

unfoldable pub note_self_write : FilePath → ℕ → VfsDebouncer → VfsDebouncer
note_self_write p now d = record d {
  held = record d.held { self_writes = set_written p now d.held.self_writes };
}

abbrev pub is_written : List (FilePath × ℕ) → FilePath → Bool
is_written ws p = any (λ w. path_eq w.0 p) ws

unfoldable pub is_echo : List (FilePath × ℕ) → FilePath → Bool
is_echo ws p = any (is_written ws) (ancestors p)

-- Whether the processor writes, or wrote a moment ago.
unfoldable pub is_writing : ℕ → VfsDebouncer → Bool
is_writing now d = d.paused || ltb (now - d.since) syncback_debounce_time

abbrev pub put_event : Bool → VfsEvent → VfsDebouncer → VfsDebouncer
put_event true e d = record d { held = record d.held { events = d.held.events ++ e ∷ [] } }
put_event false e d = record d { sent = d.sent ++ e ∷ [] }

abbrev pub put_translated : Bool → Option VfsEvent → VfsDebouncer → VfsDebouncer
put_translated writing none d = d
put_translated writing (some e) d = put_event writing e d

-- The handler's loop, once it has asked whether the processor writes.
unfoldable pub handle_each : Bool → List DebouncedEvent → VfsDebouncer → VfsDebouncer
handle_each writing [] d = d
handle_each writing (e ∷ es) d =
    let r = debounce e d.context in
    handle_each writing es (put_translated writing r.0 (record d { context = r.1 }))

-- The handler of the watcher's events.
unfoldable pub handle : ℕ → List DebouncedEvent → VfsDebouncer → VfsDebouncer
handle now es d = handle_each (is_writing now d) es d

abbrev pub put_released : (echo : Bool) → VfsEvent → VfsDebouncer → VfsDebouncer
put_released true e d = record d { suppressed = d.suppressed + 1 }
put_released false e d = record d { sent = d.sent ++ e ∷ [] }

-- The loop over the taken events, which sends or counts.
unfoldable pub release_each : List (FilePath × ℕ) → List VfsEvent → VfsDebouncer → VfsDebouncer
release_each ws [] d = d
release_each ws (e ∷ es) d = release_each ws es (put_released (is_echo ws (event_path e)) e d)

-- A round of the thread `vfs-held` behind its test of the pause.
unfoldable pub release_held : ℕ → VfsDebouncer → VfsDebouncer
release_held now d =
    let ws = retain (λ w. ltb (now - w.1) self_write_memory) d.held.self_writes in
    release_each ws d.held.events (record d { held = record { events = []; self_writes = ws } })

unfoldable pub release : ℕ → VfsDebouncer → VfsDebouncer
release now d = if is_writing now d then d else release_held now d
